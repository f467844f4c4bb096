-- ===== src/Worker/Coverage.antt =====
-- The scans find exactly the missing minutes.
use thelight.Common.{
  ℕ, zero, ◌+◌, ◌-◌, ◌*◌, ◌/◌, ◌≤◌, ◌<◌, suc, Bool, true, false, ◌&&◌, not, Option, none, some,
  List, ◌≡◌, refl, ◌∙◌, inl, inr, leb, ltb, any, or_else, Bool-cases, arith,
}
use thelight.Worker.Gaps.{Gap, minute, close, scan_gaps, rounds, startup_gaps}

-- A timestamp lies in one of the gaps.
abbrev pub in_gap : ℕ → Gap → Bool
in_gap x g = leb g.start x && ltb x g.end

abbrev pub in_gaps : ℕ → List Gap → Bool
in_gaps x gaps = any (in_gap x) gaps

-- The gap that is open at a round has started by `x`.
abbrev started : Option ℕ → ℕ → Bool
started none x = false
started (some s) x = leb s x

-- The open gap has not started after the round.
abbrev Begun : Option ℕ → ℕ → Type 0
Begun none t = Unit
Begun (some s) t = s ≤ t

started-open : (g : Option ℕ) (t x : ℕ) → x < t → started (some (or_else g t)) x ≡ started g x
started-open none t x h = ground arith
started-open (some s) t x h = refl

in_gaps-close :
    (g : Option ℕ) (t x : ℕ) (gaps : List Gap)
    → x < t
    → in_gaps x gaps ≡ false
    → in_gaps x (close g t gaps) ≡ started g x
in_gaps-close none t x gaps before out = out
in_gaps-close (some s) t x gaps before out = ground arith

in_gaps-close_after :
    (g : Option ℕ) (t x : ℕ) (gaps : List Gap) → t ≤ x → in_gaps x (close g t gaps) ≡ in_gaps x gaps
in_gaps-close_after none t x gaps after = refl
in_gaps-close_after (some s) t x gaps after = ground arith

started-now : (g : Option ℕ) (t : ℕ) → Begun g t → started (some (or_else g t)) t ≡ true
started-now none t begun = ground arith
started-now (some s) t begun = ground arith

Begun-open : (g : Option ℕ) (t : ℕ) → Begun g t → Begun (some (or_else g t)) (t + minute)
Begun-open none t begun = omega arith
Begun-open (some s) t begun = omega arith

le→leb : (a b : ℕ) → a ≤ b → leb a b ≡ true
le→leb a b h = ground arith

-- A timestamp before the round is in a gap exactly if the open gap had started by then.
scan_gaps-before :
    (missing : ℕ → Bool) (last n t x : ℕ) (g : Option ℕ)
    → x < t
    → t + n * minute ≤ last
    → in_gaps x (scan_gaps missing last n t g) ≡ started g x
unfolding scan_gaps
scan_gaps-before missing last zero t x none before fits = refl
scan_gaps-before missing last zero t x (some s) before fits = ground arith
scan_gaps-before missing last (suc n) t x g before fits = elim (Bool-cases (missing t)) [
  | inl lost ↦
      rw (lost, scan_gaps)
        (scan_gaps-before missing last n (t + minute) x (some (or_else g t)) (omega arith)
            (omega arith)
          ∙ started-open g t x before)
  | inr there ↦
      rw (there, scan_gaps)
        (in_gaps-close g t x _ before
          (scan_gaps-before missing last n (t + minute) x none (omega arith) (omega arith)))
]

-- From the round on, a timestamp of the loop is in a gap exactly if it is missing.
scan_gaps-at :
    (missing : ℕ → Bool) (last n t i x : ℕ) (g : Option ℕ)
    → x ≡ t + i * minute
    → i < n
    → t + n * minute ≤ last
    → Begun g t
    → in_gaps x (scan_gaps missing last n t g) ≡ missing x
unfolding scan_gaps
scan_gaps-at missing last zero t i x g at inside fits begun = ground arith
scan_gaps-at missing last (suc n) t zero x g at inside fits begun =
    let here : x ≡ t = omega arith in
    elim (Bool-cases (missing t)) [
      | inl lost ↦
          rw (here, lost, scan_gaps)
            (scan_gaps-before missing last n (t + minute) t (some (or_else g t)) (omega arith)
                (omega arith)
              ∙ started-now g t begun)
      | inr there ↦
          rw (here, there, scan_gaps)
            (in_gaps-close_after g t t _ (omega arith)
              ∙ scan_gaps-before missing last n (t + minute) t none (omega arith) (omega arith))
    ]
scan_gaps-at missing last (suc n) t (suc i) x g at inside fits begun =
    elim (Bool-cases (missing t)) [
      | inl lost ↦
          rw (lost, scan_gaps)
            (scan_gaps-at missing last n (t + minute) i x (some (or_else g t)) (omega arith)
              (omega arith) (omega arith) (Begun-open g t begun))
      | inr there ↦
          rw (there, scan_gaps)
            (in_gaps-close_after g t x _ (omega arith)
              ∙ scan_gaps-at missing last n (t + minute) i x none (omega arith) (omega arith)
                  (omega arith) tt)
    ]

-- The startup scan finds exactly the missing minutes: a minute of the loop, from `start` to `latest`, lies
-- in a gap of the result if and only if the session is open at it and no bar of it is stored.
pub startup_gaps_exact :
    (in_session present : ℕ → Bool) (start latest i : ℕ)
    → start + i * minute ≤ latest
    → in_gaps (start + i * minute) (startup_gaps in_session present start latest)
      ≡ (in_session (start + i * minute) && not (present (start + i * minute)))
unfolding startup_gaps rounds
startup_gaps_exact in_session present start latest i inside =
    rw (le→leb start latest (omega arith)) (
      scan_gaps-at (λ t. in_session t && not (present t)) (latest + minute)
        ((latest - start) / minute + 1) start i _ none refl (omega arith) (omega arith) tt)
