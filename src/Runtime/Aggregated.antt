-- ===== src/Runtime/Aggregated.antt =====
-- The worker's decision bar is the bar that `aggregateClosedBars` of market.ts makes of the same minutes.
use thelight.Common.{
  ℕ, ◌*◌, ◌≤◌, ◌≡◌, ◌≢◌, inl, inr, true, false, some, List, [], ◌∷◌, ◌++◌, ◌==◌, ==_iff, Bool-cases,
  All, arith, ltb,
}
use thelight.Number.{Num, ◌+F◌, int}
use thelight.Types.{ClosedBar}
use thelight.Market.{bucket_start, aggregate, aggregate_closed_bars}
use thelight.Runtime.Buckets.{with_slot, merge_slots, decision_bar}

same_bucket : (a b : ℕ) → a ≡ b → (a == b) ≡ true
same_bucket a b e = (==_iff a b).1 e

other_bucket : (a b : ℕ) → a ≢ b → (a == b) ≡ false
other_bucket a b apart = elim (Bool-cases (a == b)) [
  | inl e ↦ absurd (apart ((==_iff a b).0 e))
  | inr e ↦ e
]

module _ {F : Type 0} ⦃num : Num F⦄ where
  aggregate-merge :
      (width start : ℕ) (bucket next : ClosedBar F) (rest : List (ClosedBar F))
      → All (λ bar. bucket_start width bar.t ≡ start) rest
      → bucket_start width next.t ≢ start
      → aggregate width (rest ++ next ∷ []) (some bucket) start ≡ merge_slots bucket rest ∷ []
  unfolding aggregate merge_slots
  aggregate-merge width start bucket next [] inside apart =
      rw (other_bucket (bucket_start width next.t) start apart, aggregate)
  aggregate-merge width start bucket next (slot ∷ rest) (here, inside) apart =
      rw (same_bucket (bucket_start width slot.t) start here, aggregate)
        (rw here (aggregate-merge width start (with_slot bucket slot) next rest inside apart))

  -- The bar that the worker makes of the minutes of a bucket is the one that `aggregateClosedBars` yields
  -- for them when the first bar of another bucket arrives, provided that adding the volume of
  -- the first minute to zero does not change it.
  pub decision_bar_is_aggregate :
      (minutes start : ℕ) (first next bar : ClosedBar F) (rest : List (ClosedBar F))
      → (int 0 +F first.volume) ≡ first.volume
      → 1 ≤ minutes
      → All (λ b. bucket_start (minutes * 60000) b.t ≡ start) (first ∷ rest)
      → bucket_start (minutes * 60000) next.t ≢ start
      → decision_bar start (first ∷ rest) ≡ some bar
      → aggregate_closed_bars minutes (first ∷ rest ++ next ∷ []) ≡ some (bar ∷ [])
  unfolding decision_bar aggregate_closed_bars aggregate
  decision_bar_is_aggregate minutes start first next bar rest zero_add fits (here, inside) apart e =
      let enough : ltb minutes 1 ≡ false = ground arith in
      let made : merge_slots (record first { t = start }) rest ≡ bar = cc (rw zero_add at e) in
      rw (enough, here, aggregate)
        (rw
          (aggregate-merge (minutes * 60000) start (record first { t = start }) next rest inside
            apart)
          (rw made))
