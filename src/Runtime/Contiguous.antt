-- ===== src/Runtime/Contiguous.antt =====
-- The decision bars that features are computed from have no gap between them.
use thelight.Common.{
  ℕ, ◌+◌, ◌≡◌, refl, sym, ◌∙◌, ap, inl, inr, String, Bool, true, not, Option, none, some, List, [],
  ◌∷◌, ◌++◌, ◌==◌, ◌/◌, ==_iff, Bool-cases, Option-cases, All, All-append, last?, last?-append,
  arith, ◌||◌,
}
use thelight.Number.{Num}
use thelight.Types.{ClosedBar}
use thelight.Worker.Gaps.{minute}
use thelight.Runtime.World.{Setup}
use thelight.Runtime.Bars.{session_open, decision_width_ms, newest_bucket, scan_of}
use thelight.Runtime.Buckets.{
  Scan, Buckets, buckets_from, sort_buckets, slots, with_slot, merge_slots, first_slot,
  decision_bar, extend_run, restarted, scan_bucket, scan_buckets,
}

module _ {F : Type 0} where
  -- Each bar starts one width after the one before it.
  abbrev pub IsRun : ℕ → List (ClosedBar F) → Type 0
  IsRun width [] = Unit
  IsRun width (b ∷ []) = Unit
  IsRun width (b ∷ c ∷ rest) = (c.t ≡ b.t + width) × IsRun width (c ∷ rest)

  abbrev last_start : Option (ClosedBar F) → Option ℕ
  last_start none = none
  last_start (some b) = some b.t

  abbrev Follows : ℕ → Option (ClosedBar F) → ℕ → Type 0
  Follows width none t = Unit
  Follows width (some b) t = t ≡ b.t + width

  run-append :
      (width : ℕ) (bars : List (ClosedBar F)) (c : ClosedBar F)
      → IsRun width bars
      → Follows width (last? bars) c.t
      → IsRun width (bars ++ c ∷ [])
  run-append width [] c run next = tt
  run-append width (b ∷ []) c run next = (next, tt)
  run-append width (b ∷ d ∷ rest) c (step, run) next =
      (step, run-append width (d ∷ rest) c run next)

  -- What the loop keeps: the run has no gap, it is in the session, and `previousStart` is its end.
  record IsGood (in_session : ℕ → Bool) (width : ℕ) (s : Scan F) : Type 0 where
    run : IsRun width s.trailing
    inside : All (λ b. in_session b.t ≡ true) s.trailing
    end : last_start (last? s.trailing) ≡ s.previous_start

  Follows-none :
      (width t : ℕ) (last : Option (ClosedBar F)) → last_start last ≡ none → Follows width last t
  Follows-none width t none e = tt
  Follows-none width t (some b) e = cc

  Follows-some :
      (width t p : ℕ) (last : Option (ClosedBar F))
      → last_start last ≡ some p
      → t ≡ p + width
      → Follows width last t
  Follows-some width t p none e h = cc
  Follows-some width t p (some b) e h = ground (arith, e, h)

module _ {F : Type 0} ⦃num : Num F⦄ where
  merge_slots-t : (bar : ClosedBar F) (rest : List (ClosedBar F)) → (merge_slots bar rest).t ≡ bar.t
  unfolding merge_slots
  merge_slots-t bar [] = refl
  merge_slots-t bar (slot ∷ rest) = merge_slots-t (with_slot bar slot) rest

  decision_bar-t :
      (start : ℕ) (bars : List (ClosedBar F)) (b : ClosedBar F)
      → decision_bar start bars ≡ some b
      → b.t ≡ start
  unfolding decision_bar
  decision_bar-t start [] b e = cc
  decision_bar-t start (first ∷ rest) b e =
      let same : merge_slots (first_slot start first) rest ≡ b = cc e in
      ap (λ x. x.t) (sym same) ∙ merge_slots-t (first_slot start first) rest

  extended :
      (in_session : ℕ → Bool) (width start : ℕ) (bar : ClosedBar F) (n : ℕ) (s : Scan F)
      → IsGood in_session width s
      → bar.t ≡ start
      → in_session start ≡ true
      → Follows width (last? s.trailing) bar.t
      → IsGood in_session width (record {
        incomplete = n;
        trailing = s.trailing ++ bar ∷ [];
        previous_start = some start;
      })
  extended in_session width start bar n s good at on next = record {
    run = run-append width s.trailing bar good.run next;
    inside =
        All-append (λ b. in_session b.t ≡ true) s.trailing (bar ∷ []) good.inside (rw at on, tt);
    end = rw (last?-append s.trailing bar) (rw at);
  }

  extend_run-IsGood :
      (in_session : ℕ → Bool) (day : ℕ → String) (width start : ℕ) (bar : ClosedBar F) (s : Scan F)
      → IsGood in_session width s
      → bar.t ≡ start
      → in_session start ≡ true
      → IsGood in_session width (extend_run day width start bar s)
  unfolding extend_run
  extend_run-IsGood in_session day width start bar s good at on =
      elim (Option-cases s.previous_start) [
        | inl e ↦
            rw (e, extend_run)
              (extended in_session width start bar s.incomplete s good at on
                (Follows-none width bar.t (last? s.trailing) (good.end ∙ e)))
        | inr (p, e) ↦ elim (Bool-cases (start == p + width)) [
          | inl next ↦
              rw (e, extend_run, next)
                (extended in_session width start bar s.incomplete s good at on (
                  Follows-some width bar.t p (last? s.trailing) (good.end ∙ e)
                    (at ∙ (==_iff start (p + width)).0 next)))
          | inr apart ↦
              rw (e, extend_run, apart) (record { run = tt; inside = (rw at on, tt); end = rw at })
        ]
      ]

  restarted-IsGood :
      (in_session : ℕ → Bool) (width n : ℕ) (s : Scan F) → IsGood in_session width (restarted n s)
  restarted-IsGood in_session width n s = record { run = tt; inside = tt; end = refl }

  scan_bucket-IsGood :
      (in_session : ℕ → Bool) (day : ℕ → String) (width latest start : ℕ)
      (bars : List (ClosedBar F)) (s : Scan F)
      → IsGood in_session width s
      → IsGood in_session width (scan_bucket in_session day width latest (start, bars) s)
  unfolding scan_bucket
  scan_bucket-IsGood in_session day width latest start bars s good =
      elim (Option-cases (slots bars (width / minute) start)) [
        | inl e ↦ elim (Bool-cases (start == latest || not (in_session start))) [
          | inl h ↦ rw (e, scan_bucket, h) good
          | inr h ↦ rw (e, scan_bucket, h) (restarted-IsGood in_session width _ s)
        ]
        | inr (complete, e) ↦ elim (Bool-cases (in_session start)) [
          | inr off ↦ rw (e, scan_bucket, off) good
          | inl on ↦ elim (Option-cases (decision_bar start complete)) [
            | inl d ↦ rw (e, scan_bucket, on, d) good
            | inr (bar, d) ↦
                rw (e, scan_bucket, on, d)
                  (extend_run-IsGood in_session day width start bar s good
                    (decision_bar-t start complete bar d) on)
          ]
        ]
      ]

  scan_buckets-IsGood :
      (in_session : ℕ → Bool) (day : ℕ → String) (width latest : ℕ) (m : Buckets F) (s : Scan F)
      → IsGood in_session width s
      → IsGood in_session width (scan_buckets in_session day width latest m s)
  unfolding scan_buckets
  scan_buckets-IsGood in_session day width latest [] s good = good
  scan_buckets-IsGood in_session day width latest ((start, bars) ∷ rest) s good =
      scan_buckets-IsGood in_session day width latest rest _
        (scan_bucket-IsGood in_session day width latest start bars s good)

module _ {F S : Type 0} ⦃num : Num F⦄ (env : Setup F S) where
  -- The decision bars that the features and decisions are computed from, whatever minutes are stored: each
  -- starts exactly one decision width after the one before it, and the session is open at each.
  pub decision_run_contiguous :
      (raw : List (ClosedBar F))
      → IsRun (decision_width_ms env.arm) (scan_of env raw).trailing
        × All (λ b. session_open env b.t ≡ true) (scan_of env raw).trailing
  unfolding scan_of
  decision_run_contiguous raw =
      let width = decision_width_ms env.arm in
      let good =
        scan_buckets-IsGood (session_open env) env.day width (newest_bucket width (last? raw))
          (sort_buckets (buckets_from width raw []))
          (record { incomplete = 0; trailing = []; previous_start = none })
          (record { run = tt; inside = tt; end = refl }) in
      (good.run, good.inside)
