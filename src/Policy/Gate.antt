-- ===== src/Policy/Gate.antt =====
-- `regimeAligned` and `jevAllows`: whether a regime, or the classifier's answers, let a signal pass.
use thelight.Common.{
  ℕ, String, ◌<>◌, str_eq, Bool, true, false, ◌&&◌, not, Option, none, some, leb, if◌then◌else◌,
}
use thelight.Number.{Num, ◌<F◌, ◌≤F◌, to_fixed}
use thelight.Types.{
  StrategyId, ema_trend, rsi_mean_reversion, Action, long, short, flat, DeterministicRegime,
  trend_up, trend_down, mean_reverting, JevAnswers,
}
use thelight.Policy.Signals.{noul_floor, regime_confidence}

unfoldable pub regime_aligned : StrategyId → Action → DeterministicRegime → Bool
regime_aligned strategy flat regime = true
regime_aligned ema_trend long trend_up = true
regime_aligned ema_trend short trend_down = true
regime_aligned rsi_mean_reversion long mean_reverting = true
regime_aligned rsi_mean_reversion short mean_reverting = true
regime_aligned _ _ _ = false

-- `QUALITY_RANK`; an unknown level is `undefined`.
unfoldable pub quality_rank : String → Option ℕ
quality_rank level =
    if str_eq level "hostile"
    then some 0
    else if str_eq level "weak"
    then some 1
    else if str_eq level "usable"
    then some 2
    else if str_eq level "strong"
    then some 3
    else none

-- `>=` with `undefined` on the left is false.
abbrev pub rank_at_least : ℕ → Option ℕ → Bool
rank_at_least floor none = false
rank_at_least floor (some rank) = leb floor rank

-- at least the rank of `THRESHOLDS.minQuality`, "usable"
unfoldable pub quality_ok : String → Bool
unfolding quality_rank
quality_ok level = rank_at_least 2 (quality_rank level)

pub record GateResult : Type 0 where
  pub pass : Bool
  pub reason : String

abbrev refuse : String → GateResult
refuse reason = record { pass = false; reason = reason }

abbrev admit : String → GateResult
admit reason = record { pass = true; reason = reason }

abbrev pub is_long : Action → Bool
is_long long = true
is_long _ = false

abbrev pub is_short : Action → Bool
is_short short = true
is_short _ = false

abbrev pub is_flat : Action → Bool
is_flat flat = true
is_flat _ = false

abbrev pub is_ema : StrategyId → Bool
is_ema ema_trend = true
is_ema rsi_mean_reversion = false

module _ {F : Type 0} ⦃num : Num F⦄ where
  -- the end of `jevAllows`, for each strategy
  unfoldable pub trend_gate : Action → JevAnswers F → GateResult
  trend_gate desired a =
      let regime = a.regime.choice in
      let regime_ok = regime_confidence ≤F a.regime.confidence in
      if a.trend.noul <F noul_floor
      then refuse ("TREND noul " <> to_fixed a.trend.noul 2 <> " < 0.55 UNCALIBRATED.")
      else if regime_ok && is_long desired && not (str_eq regime "trend_up")
      then refuse ("Jev REGIME=" <> regime <> ", not trend_up.")
      else if regime_ok && is_short desired && not (str_eq regime "trend_down")
      then refuse ("Jev REGIME=" <> regime <> ", not trend_down.")
      else admit "Jev gates passed (UNCALIBRATED thresholds)."

  unfoldable pub mean_reversion_gate : JevAnswers F → GateResult
  mean_reversion_gate a =
      let regime = a.regime.choice in
      let regime_ok = regime_confidence ≤F a.regime.confidence in
      if a.mean_reversion.noul <F noul_floor
      then refuse
          ("MEAN_REVERSION noul " <> to_fixed a.mean_reversion.noul 2 <> " < 0.55 UNCALIBRATED.")
      else if regime_ok && not (str_eq regime "mean_reverting")
      then refuse ("Jev REGIME=" <> regime <> ", not mean_reverting.")
      else admit "Jev gates passed (UNCALIBRATED thresholds)."

  unfoldable pub jev_allows : StrategyId → Action → JevAnswers F → GateResult
  unfolding trend_gate mean_reversion_gate quality_ok
  jev_allows strategy desired a =
      if not (quality_ok a.market_quality.level)
      then refuse ("Jev MARKET_QUALITY=" <> a.market_quality.level <> " below UNCALIBRATED usable.")
      else if is_flat desired
      then admit "No entry requested."
      else if is_long desired && a.long_setup.noul <F noul_floor
      then refuse ("LONG_SETUP noul " <> to_fixed a.long_setup.noul 2 <> " < 0.55 UNCALIBRATED.")
      else if is_short desired && a.short_setup.noul <F noul_floor
      then refuse ("SHORT_SETUP noul " <> to_fixed a.short_setup.noul 2 <> " < 0.55 UNCALIBRATED.")
      else if is_ema strategy
      then trend_gate desired a
      else mean_reversion_gate a
