-- ===== src/Market.antt =====
-- src/lib/lightlight/market.ts: `aggregateClosedBars` joins the bars of an interval. The source's
-- streams are lists here: what was received, and what was yielded by then.
pub mod Buckets
pub mod History
use thelight.Common.{
  ℕ, ◌*◌, ◌/◌, Bool, true, false, Option, none, some, List, [], ◌∷◌, ◌==◌, ltb, if◌then◌else◌,
}
use thelight.Number.{Num, ◌+F◌, max_num, min_num}
use thelight.Types.{ClosedBar, Candle}

-- `Math.floor(t / width) * width`
unfoldable pub bucket_start : ℕ → ℕ → ℕ
bucket_start width t = t / width * width

abbrev pub at_time : {F : Type 0} → ℕ → ClosedBar F → ClosedBar F
at_time start bar = record bar { t = start }

module _ {F : Type 0} ⦃num : Num F⦄ where
  -- a bucket with one more bar
  abbrev pub merged : ClosedBar F → ClosedBar F → ClosedBar F
  merged bucket bar = record bucket {
    high = max_num bucket.high bar.high;
    low = min_num bucket.low bar.low;
    close = bar.close;
    volume = bucket.volume +F bar.volume;
  }

  -- the loop, with `bucket` and `bucketStart`
  unfoldable pub aggregate : ℕ → List (ClosedBar F) → Option (ClosedBar F) → ℕ → List (ClosedBar F)
  aggregate width [] bucket start = []
  aggregate width (bar ∷ rest) none start =
      let now = bucket_start width bar.t in aggregate width rest (some (at_time now bar)) now
  aggregate width (bar ∷ rest) (some bucket) start = elim (bucket_start width bar.t == start) [
    | true ↦ aggregate width rest (some (merged bucket bar)) (bucket_start width bar.t)
    | false ↦
        bucket
        ∷ aggregate width rest (some (at_time (bucket_start width bar.t) bar))
            (bucket_start width bar.t)
  ]

  -- `none` is the thrown error.
  unfoldable pub aggregate_closed_bars : ℕ → List (ClosedBar F) → Option (List (ClosedBar F))
  unfolding aggregate
  aggregate_closed_bars interval_minutes source =
      if ltb interval_minutes 1
      then none
      else some (aggregate (interval_minutes * 60000) source none 0)
