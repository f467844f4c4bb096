-- ===== src/Store/Bars.antt =====
-- Market evidence: `recordMarketBar`, `insertClosedBar`, `latestClosedBarTimestamp` and
-- `listClosedBars` of the class `MemoryAlpacaWorkerStore`.
use thelight.Common.{
  ℕ, String, str_eq, Bool, true, false, ◌&&◌, Option, none, some, List, [], ◌∷◌, ◌++◌, leb, ◌==◌,
  if◌then◌else◌, any, max,
}
use thelight.Number.{Num, ◌==F◌}
use thelight.Types.{ClosedBar}
use thelight.Store.Data.{
  MarketBarOrigin, live_ws, rest_backfill, MarketBarObservation, MarketBarWriteResult,
  accepted_write, identical, conflict, Observed, MarketData,
}

-- The map of bars. The source's key is the text of the symbol and the timestamp.
abbrev pub BarMap : Type 0 → Type 0
BarMap F = List ((String × ℕ) × ClosedBar F)

abbrev pub key_eq : String × ℕ → String × ℕ → Bool
key_eq (s, t) (s', t') = str_eq s s' && t == t'

module _ {F : Type 0} where
  -- `this.bars.get(key)`
  unfoldable pub bar_at : String × ℕ → BarMap F → Option (ClosedBar F)
  bar_at k [] = none
  bar_at k ((j, bar) ∷ m) = if key_eq j k then some bar else bar_at k m

  -- `this.bars.set(key, bar)` at a key that is not there
  abbrev pub add_bar : String × ℕ → ClosedBar F → BarMap F → BarMap F
  add_bar k bar m = m ++ (k, bar) ∷ []

same_origin : MarketBarOrigin → MarketBarOrigin → Bool
same_origin live_ws live_ws = true
same_origin rest_backfill rest_backfill = true
same_origin _ _ = false

same_attempt : Option String → Option String → Bool
same_attempt none none = true
same_attempt (some a) (some b) = str_eq a b
same_attempt _ _ = false

module _ {F : Type 0} ⦃num : Num F⦄ where
  -- The comparison of `recordMarketBar`, and `sameClosedBar`: every field by `===`.
  abbrev pub same_closed_bar : ClosedBar F → ClosedBar F → Bool
  same_closed_bar a b =
      a.t == b.t
      && a.open_price ==F b.open_price
      && a.high ==F b.high
      && a.low ==F b.low
      && a.close ==F b.close
      && a.volume ==F b.volume

  abbrev pub verdict : Option (ClosedBar F) → ClosedBar F → MarketBarWriteResult
  verdict none bar = accepted_write
  verdict (some prior) bar = if same_closed_bar prior bar then identical else conflict

  -- The test for an observation that is already in the ledger.
  unfoldable pub same_observation : MarketBarObservation F → Observed F → Bool
  unfolding same_origin same_attempt
  same_observation o existing =
      str_eq existing.observation.symbol o.symbol
      && existing.observation.bar.t == o.bar.t
      && same_origin existing.observation.origin o.origin
      && same_attempt existing.observation.recovery_attempt_id o.recovery_attempt_id

  abbrev pub key_of : MarketBarObservation F → String × ℕ
  key_of o = (o.symbol, o.bar.t)

  abbrev pub with_bar : Option (ClosedBar F) → MarketBarObservation F → BarMap F → BarMap F
  with_bar none o m = add_bar (key_of o) o.bar m
  with_bar (some prior) o m = m

  abbrev pub observed_as : MarketBarObservation F → MarketBarWriteResult → Observed F
  observed_as o result = record { observation = o; verification_result = result }

  -- `recordMarketBar`
  unfoldable pub record_market_bar :
      MarketBarObservation F → MarketData F → MarketBarWriteResult × MarketData F
  unfolding same_observation
  record_market_bar o d =
      let prior = bar_at (key_of o) d.bars in
      let result = verdict prior o.bar in
      let bars = with_bar prior o d.bars in
      let observations =
        if any (same_observation o) d.observations
        then d.observations
        else d.observations ++ observed_as o result ∷ [] in
      (result, record { bars = bars; observations = observations })

  -- `writeMarketEvidenceOwned`'s loop over its observations
  unfoldable pub record_market_bars :
      List (MarketBarObservation F) → MarketData F → List MarketBarWriteResult × MarketData F
  record_market_bars [] d = ([], d)
  record_market_bars (o ∷ os) d =
      let (result, d') = record_market_bar o d in
      let (results, d'') = record_market_bars os d' in (result ∷ results, d'')

-- `latestClosedBarTimestamp`
abbrev pub later_of : Option ℕ → ℕ → Option ℕ
later_of none t = some t
later_of (some u) t = some (max t u)

module _ {F : Type 0} where
  unfoldable pub latest_closed_bar_timestamp : String → BarMap F → Option ℕ
  latest_closed_bar_timestamp symbol [] = none
  latest_closed_bar_timestamp symbol (((s, k), bar) ∷ m) =
      let rest = latest_closed_bar_timestamp symbol m in
      if str_eq s symbol then later_of rest bar.t else rest

  -- `sort((a, b) => a.t - b.t)`, a stable sort
  unfoldable pub insert_by_time : ClosedBar F → List (ClosedBar F) → List (ClosedBar F)
  insert_by_time bar [] = bar ∷ []
  insert_by_time bar (b ∷ bs) = if leb bar.t b.t then bar ∷ b ∷ bs else b ∷ insert_by_time bar bs

  -- `listClosedBars` between two bounds
  unfoldable pub list_closed_bars : String → ℕ → ℕ → BarMap F → List (ClosedBar F)
  unfolding insert_by_time
  list_closed_bars symbol from through [] = []
  list_closed_bars symbol from through (((s, k), bar) ∷ m) =
      let rest = list_closed_bars symbol from through m in
      if str_eq s symbol && leb from bar.t && leb bar.t through
      then insert_by_time bar rest
      else rest
