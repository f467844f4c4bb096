-- ===== src/Policy/Signals.antt =====
-- `THRESHOLDS`, `classifyDeterministicRegime` and the two signals.
use thelight.Common.{String, ◌<>◌, ◌&&◌, ◌||◌, not, if◌then◌else◌}
use thelight.Number.{Num, ◌/F◌, ◌<F◌, ◌≤F◌, abs, neg, int, decimal, to_fixed}
use thelight.Types.{
  StrategyId, ema_trend, rsi_mean_reversion, Action, long, short, flat, FeatureVector,
  DeterministicRegime, trend_up, trend_down, mean_reverting, ambiguous, Signal,
}

abbrev pub strategy_version : String
strategy_version = "sprint0.1"

abbrev pub signal : StrategyId → Action → String → Signal
signal id desired reason = record {
  strategy_id = id;
  strategy_version = strategy_version;
  desired = desired;
  reason = reason;
}

abbrev ema_reason : String
ema_reason =
    "Grebenkov-style s_t vs UNCALIBRATED |s|/vol floor. Linear paper positions were not thresholded; discretization is ours."

abbrev rsi_reason : String
rsi_reason =
    "RSI(14) SMA as in Khaidem et al. Oversold/overbought bands are conventional UNCALIBRATED gates, not a paper trading rule."

module _ {F : Type 0} ⦃num : Num F⦄ where
  abbrev pub ema_signal_enter_z : F
  ema_signal_enter_z = int 1

  abbrev pub rsi_oversold : F
  rsi_oversold = int 30

  abbrev pub rsi_overbought : F
  rsi_overbought = int 70

  -- `THRESHOLDS.longSetupNoul`, `shortSetupNoul`, `trendNoul` and `meanReversionNoul`
  abbrev pub noul_floor : F
  noul_floor = decimal 55 2

  abbrev pub regime_confidence : F
  regime_confidence = decimal 35 2

  abbrev pub max_realized_vol : F
  max_realized_vol = decimal 35 3

  abbrev pub max_drawdown : F
  max_drawdown = decimal 18 2

  unfoldable pub classify_deterministic_regime : FeatureVector F → DeterministicRegime
  classify_deterministic_regime f =
      let s = f.ema_return_signal in
      let z = f.displacement_z in
      let scale = if int 0 <F f.realized_vol then abs s /F f.realized_vol else int 0 in
      let trendish = ema_signal_enter_z ≤F scale in
      let stretched =
        decimal 12 1 ≤F abs z || f.rsi14 ≤F rsi_oversold || rsi_overbought ≤F f.rsi14 in
      if not f.warmup_complete
      then ambiguous
      else if trendish && int 0 <F s && int 0 ≤F z
      then trend_up
      else if trendish && s <F int 0 && z ≤F int 0
      then trend_down
      else if not trendish && stretched
      then mean_reverting
      else ambiguous

  unfoldable pub ema_trend_signal : FeatureVector F → Signal
  ema_trend_signal f =
      let z = if int 0 <F f.realized_vol then f.ema_return_signal /F f.realized_vol else int 0 in
      if not f.warmup_complete
      then signal ema_trend flat "Warmup incomplete."
      else if ema_signal_enter_z <F z
      then signal ema_trend long (ema_reason <> " s/vol=" <> to_fixed z 2 <> " > 1.")
      else if z <F neg ema_signal_enter_z
      then signal ema_trend short (ema_reason <> " s/vol=" <> to_fixed z 2 <> " < -1.")
      else signal ema_trend flat (ema_reason <> " |s|/vol below enter.")

  unfoldable pub rsi_mean_reversion_signal : FeatureVector F → Signal
  rsi_mean_reversion_signal f =
      if not f.warmup_complete
      then signal rsi_mean_reversion flat "Warmup incomplete."
      else if f.rsi14 ≤F rsi_oversold
      then signal rsi_mean_reversion long (rsi_reason <> " RSI=" <> to_fixed f.rsi14 2 <> " ≤ 30.")
      else if rsi_overbought ≤F f.rsi14
      then signal rsi_mean_reversion short (rsi_reason <> " RSI=" <> to_fixed f.rsi14 2 <> " ≥ 70.")
      else signal rsi_mean_reversion flat (rsi_reason <> " RSI inside bands.")

  unfoldable pub evaluate_signal : StrategyId → FeatureVector F → Signal
  evaluate_signal ema_trend f = ema_trend_signal f
  evaluate_signal rsi_mean_reversion f = rsi_mean_reversion_signal f
