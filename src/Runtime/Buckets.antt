-- ===== src/Runtime/Buckets.antt =====
-- The first half of `processCompletedDecisionBars`: the minutes of the store become decision bars, and
-- the last run of them without a gap is kept.
use thelight.Common.{
  ℕ, ◌+◌, ◌-◌, ◌/◌, suc, zero, String, str_eq, Bool, not, Option, none, some, List, [], ◌∷◌, ◌++◌,
  ◌==◌, leb, if◌then◌else◌, last?, keep, ◌||◌,
}
use thelight.Number.{Num, ◌+F◌, int, max_num, min_num}
use thelight.Types.{ClosedBar}
use thelight.Market.{bucket_start}
use thelight.Worker.Gaps.{minute}

-- The buckets of bars by their start
abbrev pub Buckets : Type 0 → Type 0
Buckets F = List (ℕ × List (ClosedBar F))

-- What the loop over the buckets has found so far.
pub record Scan (F : Type 0) : Type 0 where
  pub incomplete : ℕ
  pub trailing : List (ClosedBar F)
  pub previous_start : Option ℕ

module _ {F : Type 0} where
  -- `buckets.get(start) ?? []`, `push` and `set`
  unfoldable pub add_to_bucket : ℕ → ClosedBar F → Buckets F → Buckets F
  add_to_bucket start bar [] = (start, bar ∷ []) ∷ []
  add_to_bucket start bar ((k, bars) ∷ m) =
      if k == start then (k, bars ++ bar ∷ []) ∷ m else (k, bars) ∷ add_to_bucket start bar m

  unfoldable pub buckets_from : ℕ → List (ClosedBar F) → Buckets F → Buckets F
  unfolding add_to_bucket
  buckets_from width [] m = m
  buckets_from width (bar ∷ bars) m =
      buckets_from width bars (add_to_bucket (bucket_start width bar.t) bar m)

  -- `sort(([a], [b]) => a - b)`
  unfoldable pub insert_bucket : ℕ × List (ClosedBar F) → Buckets F → Buckets F
  insert_bucket (k, bars) [] = (k, bars) ∷ []
  insert_bucket (k, bars) ((j, others) ∷ m) =
      if leb k j then (k, bars) ∷ (j, others) ∷ m else (j, others) ∷ insert_bucket (k, bars) m

  unfoldable pub sort_buckets : Buckets F → Buckets F
  unfolding insert_bucket
  sort_buckets [] = []
  sort_buckets (b ∷ m) = insert_bucket b (sort_buckets m)

  -- `byTimestamp.get(t)`: a later bar of the same minute takes the place of an earlier one.
  abbrev pub bar_of_minute : List (ClosedBar F) → ℕ → Option (ClosedBar F)
  bar_of_minute bars t = last? (keep (λ bar. bar.t == t) bars)

  -- `slots`, where every one is there
  unfoldable pub slots : List (ClosedBar F) → ℕ → ℕ → Option (List (ClosedBar F))
  slots bars zero t = some []
  slots bars (suc n) t =
      let rest = slots bars n (t + minute) in
      elim (bar_of_minute bars t) [
        | none ↦ none
        | some bar ↦ elim rest [ none ↦ none | some others ↦ some (bar ∷ others) ]
      ]

  abbrev pub restarted : ℕ → Scan F → Scan F
  restarted n s = record { incomplete = n; trailing = []; previous_start = none }

module _ {F : Type 0} ⦃num : Num F⦄ where
  abbrev pub with_slot : ClosedBar F → ClosedBar F → ClosedBar F
  with_slot bar slot = record bar {
    high = max_num bar.high slot.high;
    low = min_num bar.low slot.low;
    close = slot.close;
    volume = bar.volume +F slot.volume;
  }

  unfoldable pub merge_slots : ClosedBar F → List (ClosedBar F) → ClosedBar F
  merge_slots bar [] = bar
  merge_slots bar (slot ∷ rest) = merge_slots (with_slot bar slot) rest

  -- The sum of the volumes starts at 0.
  abbrev pub first_slot : ℕ → ClosedBar F → ClosedBar F
  first_slot start first = record first { t = start; volume = int 0 +F first.volume }

  -- `decisionBar`; there is at least one slot.
  unfoldable pub decision_bar : ℕ → List (ClosedBar F) → Option (ClosedBar F)
  unfolding merge_slots
  decision_bar start [] = none
  decision_bar start (first ∷ rest) = some (merge_slots (first_slot start first) rest)

  -- A complete bucket of the session: it continues the run, or starts one.
  unfoldable pub extend_run : (ℕ → String) → ℕ → ℕ → ClosedBar F → Scan F → Scan F
  extend_run day width start bar s = elim s.previous_start [
    | none ↦ record s { trailing = s.trailing ++ bar ∷ []; previous_start = some start }
    | some previous ↦
        if start == previous + width
        then record s { trailing = s.trailing ++ bar ∷ []; previous_start = some start }
        else record {
          incomplete =
              if str_eq (day previous) (day start)
              then s.incomplete + ((start - previous) / width - 1)
              else s.incomplete;
          trailing = bar ∷ [];
          previous_start = some start;
        }
  ]

  -- One round of the loop over the buckets; `latest` is the bucket of the newest bar.
  unfoldable pub scan_bucket :
      (ℕ → Bool) → (ℕ → String) → ℕ → ℕ → ℕ × List (ClosedBar F) → Scan F → Scan F
  unfolding slots decision_bar extend_run
  scan_bucket in_session day width latest (start, bars) s =
      elim (slots bars (width / minute) start) [
        | none ↦
            if start == latest || not (in_session start) then s else restarted (s.incomplete + 1) s
        | some complete ↦ if not (in_session start) then s else elim (decision_bar start complete) [
          | none ↦ s
          | some bar ↦ extend_run day width start bar s
        ]
      ]

  unfoldable pub scan_buckets : (ℕ → Bool) → (ℕ → String) → ℕ → ℕ → Buckets F → Scan F → Scan F
  unfolding scan_bucket
  scan_buckets in_session day width latest [] s = s
  scan_buckets in_session day width latest (b ∷ rest) s =
      scan_buckets in_session day width latest rest (scan_bucket in_session day width latest b s)
