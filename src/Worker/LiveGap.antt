-- ===== src/Worker/LiveGap.antt =====
-- The gap that a live bar reveals covers every session minute since the previous bar.
use thelight.Common.{
  ℕ, zero, ◌+◌, ◌-◌, ◌*◌, ◌/◌, ◌≤◌, ◌<◌, suc, String, eq_refl, Bool, true, false, Option, none,
  some, ◌≡◌, refl, inl, inr, leb, Bool-cases, arith,
}
use thelight.Worker.Gaps.{Gap, minute, extend, rounds, scan_open, expected_live_gap}
use thelight.Worker.Coverage.{in_gap}

abbrev pub covers : Option Gap → ℕ → Bool
covers none x = false
covers (some g) x = in_gap x g

-- The gap so far lies before the round.
abbrev Ended : Option Gap → ℕ → Type 0
Ended none t = Unit
Ended (some g) t = (g.start ≤ t) × (g.end ≤ t)

extend-covers :
    (found : Option Gap) (t x : ℕ)
    → Ended found t
    → covers found x ≡ true
    → covers (some (extend found t)) x ≡ true
extend-covers none t x ended inside = ground arith
extend-covers (some g) t x ended inside = ground arith

extend-here : (found : Option Gap) (t : ℕ) → Ended found t → covers (some (extend found t)) t ≡ true
extend-here none t ended = ground arith
extend-here (some g) t ended = ground arith

extend-Ended :
    (found : Option Gap) (t : ℕ) → Ended found t → Ended (some (extend found t)) (t + minute)
extend-Ended none t ended = (omega arith, omega arith)
extend-Ended (some g) t ended = (omega arith, omega arith)

Ended-later : (found : Option Gap) (t : ℕ) → Ended found t → Ended found (t + minute)
Ended-later none t ended = tt
Ended-later (some g) t ended = (omega arith, omega arith)

-- What is covered before a round stays covered.
scan_open-keeps :
    (in_session : ℕ → Bool) (n t x : ℕ) (found : Option Gap)
    → Ended found t
    → covers found x ≡ true
    → covers (scan_open in_session n t found) x ≡ true
unfolding scan_open
scan_open-keeps in_session zero t x found ended inside = inside
scan_open-keeps in_session (suc n) t x found ended inside = elim (Bool-cases (in_session t)) [
  | inl on ↦
      rw (on, scan_open)
        (scan_open-keeps in_session n (t + minute) x (some (extend found t))
          (extend-Ended found t ended) (extend-covers found t x ended inside))
  | inr off ↦
      rw (off, scan_open)
        (scan_open-keeps in_session n (t + minute) x found (Ended-later found t ended) inside)
]

scan_open-covers :
    (in_session : ℕ → Bool) (n t i x : ℕ) (found : Option Gap)
    → x ≡ t + i * minute
    → i < n
    → in_session x ≡ true
    → Ended found t
    → covers (scan_open in_session n t found) x ≡ true
unfolding scan_open
scan_open-covers in_session zero t i x found at inside on ended = ground arith
scan_open-covers in_session (suc n) t zero x found at inside on ended =
    let here : x ≡ t = omega arith in
    rw (here, rw here at on, scan_open)
      (scan_open-keeps in_session n (t + minute) t (some (extend found t))
        (extend-Ended found t ended) (extend-here found t ended))
scan_open-covers in_session (suc n) t (suc i) x found at inside on ended =
    elim (Bool-cases (in_session t)) [
      | inl now ↦
          rw (now, scan_open)
            (scan_open-covers in_session n (t + minute) i x (some (extend found t)) (omega arith)
              (omega arith) on (extend-Ended found t ended))
      | inr off ↦
          rw (off, scan_open)
            (scan_open-covers in_session n (t + minute) i x found (omega arith) (omega arith) on
              (Ended-later found t ended))
    ]

-- When a bar of the same day arrives more than a minute after the previous one, every session minute
-- strictly between them lies in the gap that is recovered.
pub live_gap_covers :
    (in_session : ℕ → Bool) (day : ℕ → String) (previous current i : ℕ)
    → day previous ≡ day current
    → previous + minute + i * minute < current
    → in_session (previous + minute + i * minute) ≡ true
    → covers
        (expected_live_gap in_session day (some previous) current)
        (previous + minute + i * minute)
      ≡ true
unfolding expected_live_gap rounds
live_gap_covers in_session day previous current i same inside on =
    let late : leb current (previous + minute) ≡ false = ground arith in
    let runs : leb (previous + minute) (current - 1) ≡ true = ground arith in
    rw (late, same, eq_refl (day current), runs)
      (scan_open-covers in_session ((current - 1 - (previous + minute)) / minute + 1)
        (previous + minute) i _ none refl (omega arith) on tt)
