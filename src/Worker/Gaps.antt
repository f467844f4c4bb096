-- ===== src/Worker/Gaps.antt =====
-- The scans for missing minutes: `expectedLiveGap`, and the loop of `recoverStartupFeatureGaps`. A
-- loop over timestamps takes the number of its rounds, computed from its bounds.
use thelight.Common.{
  ℕ, zero, ◌+◌, ◌-◌, ◌/◌, suc, String, str_eq, Bool, true, false, ◌&&◌, ◌||◌, not, Option, none,
  some, List, [], ◌∷◌, leb, or_else, if◌then◌else◌,
}

-- A range of missing minutes, its end excluded
pub record Gap : Type 0 where
  pub start : ℕ
  pub end : ℕ

abbrev pub minute : ℕ
minute = 60000

abbrev pub gap : ℕ → ℕ → Gap
gap start end = record { start = start; end = end }

-- The gap that ends here, if one is open, before the others
abbrev pub close : Option ℕ → ℕ → List Gap → List Gap
close none end gaps = gaps
close (some start) end gaps = gap start end ∷ gaps

-- The rounds of the loop from `timestamp`; `last` ends a gap that is still open after it.
unfoldable pub scan_gaps : (ℕ → Bool) → ℕ → ℕ → ℕ → Option ℕ → List Gap
scan_gaps missing last zero timestamp gap_start = close gap_start last []
scan_gaps missing last (suc n) timestamp gap_start = elim (missing timestamp) [
  | true ↦ scan_gaps missing last n (timestamp + minute) (some (or_else gap_start timestamp))
  | false ↦ close gap_start timestamp (scan_gaps missing last n (timestamp + minute) none)
]

-- the rounds of `for (let t = start; t <= latest; t += 60_000)`
unfoldable pub rounds : ℕ → ℕ → ℕ
rounds start latest = if leb start latest then (latest - start) / minute + 1 else 0

-- `gaps` of `recoverStartupFeatureGaps`: `in_session` is the session test of the asset, `present` says that
-- a bar of this timestamp is stored.
unfoldable pub startup_gaps : (ℕ → Bool) → (ℕ → Bool) → ℕ → ℕ → List Gap
unfolding scan_gaps rounds
startup_gaps in_session present start latest =
    scan_gaps (λ t. in_session t && not (present t)) (latest + minute) (rounds start latest) start
      none

-- `start ??= timestamp; end = timestamp + 60_000`
abbrev pub extend : Option Gap → ℕ → Gap
extend none timestamp = gap timestamp (timestamp + minute)
extend (some g) timestamp = gap g.start (timestamp + minute)

-- The loop of `expectedLiveGap`: the gap so far
unfoldable pub scan_open : (ℕ → Bool) → ℕ → ℕ → Option Gap → Option Gap
scan_open in_session zero timestamp found = found
scan_open in_session (suc n) timestamp found = elim (in_session timestamp) [
  | true ↦ scan_open in_session n (timestamp + minute) (some (extend found timestamp))
  | false ↦ scan_open in_session n (timestamp + minute) found
]

-- `day` is the New York date of a timestamp.
unfoldable pub expected_live_gap : (ℕ → Bool) → (ℕ → String) → Option ℕ → ℕ → Option Gap
unfolding scan_open rounds
expected_live_gap in_session day none current = none
expected_live_gap in_session day (some previous) current =
    if leb current (previous + minute) || not (str_eq (day previous) (day current))
    then none
    else scan_open in_session (rounds (previous + minute) (current - 1)) (previous + minute) none
