-- ===== src/Policy/Entry.antt =====
-- When the policy asks for a position, and what the asset and the risk checks leave of it.
use thelight.Common.{
  ◌≡◌, refl, ◌≢◌, ◌⊎◌, ◌↔◌, String, eq_iff, Bool, true, false, ◌&&◌, [], arith, if◌then◌else◌,
}
use thelight.Number.{Num, ◌<F◌, ◌≤F◌, is_finite}
use thelight.Types.{
  ExperimentArm, arm_a, arm_b, arm_c, arm_d, StrategyId, ema_trend, rsi_mean_reversion, Action,
  long, short, flat, FeatureVector, DeterministicRegime, trend_up, trend_down, mean_reverting,
  JevAnswers,
}
use thelight.Asset.{AssetSpec, long_short, long_only, apply_directional_capability}
use thelight.Policy.Signals.{noul_floor, regime_confidence, max_realized_vol, max_drawdown}
use thelight.Policy.Gate.{
  regime_aligned, quality_ok, quality_rank, jev_allows, trend_gate, mean_reversion_gate,
}
use thelight.Policy.Evaluate.{PolicyInput, choose, evaluate_policy, evaluate_asset_aware_policy}
use thelight.Policy.Risk.{checks, evaluate_risk}

-- The regime in which a strategy may take a side
abbrev pub HomeRegime : StrategyId → Action → DeterministicRegime → Type 0
HomeRegime ema_trend long regime = regime ≡ trend_up
HomeRegime ema_trend short regime = regime ≡ trend_down
HomeRegime rsi_mean_reversion _ regime = regime ≡ mean_reverting
HomeRegime ema_trend flat regime = Unit

aligned-home :
    (strategy : StrategyId) (desired : Action) (regime : DeterministicRegime)
    → desired ≢ flat
    → regime_aligned strategy desired regime ≡ true
    → HomeRegime strategy desired regime
unfolding regime_aligned
aligned-home strategy desired regime h e = ground arith

-- The classifier's name of that regime
abbrev pub regime_name : StrategyId → Action → String
regime_name ema_trend long = "trend_up"
regime_name ema_trend short = "trend_down"
regime_name ema_trend flat = ""
regime_name rsi_mean_reversion _ = "mean_reverting"

quality_ok-level :
    (level : String) → quality_ok level ≡ true → (level ≡ "usable") ⊎ (level ≡ "strong")
unfolding quality_ok quality_rank
quality_ok-level level h = ground (arith, eq_iff level "usable", eq_iff level "strong")

if_flat :
    (pass : Bool) (desired : Action)
    → (if pass then desired else flat) ≢ flat
    → (pass ≡ true) × ((if pass then desired else flat) ≡ desired) × (desired ≢ flat)
if_flat pass desired h = ground arith

module _ {F : Type 0} ⦃num : Num F⦄ where
  -- The answers that a strategy needs to take a side: a quality of at least "usable", no score of the
  -- side or of the strategy below its floor, and no confident answer for another regime.
  abbrev pub side_score : Action → JevAnswers F → Bool
  side_score long a = a.long_setup.noul <F noul_floor
  side_score short a = a.short_setup.noul <F noul_floor
  side_score flat a = false

  abbrev pub strategy_score : StrategyId → JevAnswers F → Bool
  strategy_score ema_trend a = a.trend.noul <F noul_floor
  strategy_score rsi_mean_reversion a = a.mean_reversion.noul <F noul_floor

  abbrev pub Supported : StrategyId → Action → JevAnswers F → Type 0
  Supported strategy desired a =
      ((a.market_quality.level ≡ "usable") ⊎ (a.market_quality.level ≡ "strong"))
      × (side_score desired a ≡ false)
      × (strategy_score strategy a ≡ false)
      × ((regime_confidence ≤F a.regime.confidence ≡ false)
          ⊎ (a.regime.choice ≡ regime_name strategy desired))

  jev_allows-Supported :
      (strategy : StrategyId) (desired : Action) (a : JevAnswers F)
      → desired ≢ flat
      → (jev_allows strategy desired a).pass ≡ true
      → Supported strategy desired a
  unfolding jev_allows trend_gate mean_reversion_gate
  jev_allows-Supported ema_trend long a h e =
      ground (arith, quality_ok-level a.market_quality.level, eq_iff a.regime.choice "trend_up")
  jev_allows-Supported ema_trend short a h e =
      ground (arith, quality_ok-level a.market_quality.level, eq_iff a.regime.choice "trend_down")
  jev_allows-Supported rsi_mean_reversion long a h e =
      ground
        (arith, quality_ok-level a.market_quality.level, eq_iff a.regime.choice "mean_reverting")
  jev_allows-Supported rsi_mean_reversion short a h e =
      ground
        (arith, quality_ok-level a.market_quality.level, eq_iff a.regime.choice "mean_reverting")
  jev_allows-Supported strategy flat a h e = absurd (h refl)

  -- Why each arm may ask for a position
  abbrev pub Justified : ExperimentArm → PolicyInput F → Action → Type 0
  Justified arm_a input desired = desired ≡ long
  Justified arm_b input desired = desired ≡ input.signal.desired
  Justified arm_c input desired =
      (desired ≡ input.signal.desired) × HomeRegime input.strategy_id desired input.det_regime
  Justified arm_d input desired =
      (desired ≡ input.signal.desired) × Supported input.strategy_id desired input.jev.answers

  choose-Justified :
      (arm : ExperimentArm) (input : PolicyInput F)
      → (choose arm input).0 ≢ flat
      → Justified arm input (choose arm input).0
  unfolding choose
  choose-Justified arm_a input h = refl
  choose-Justified arm_b input h = refl
  choose-Justified arm_c input h =
      ground (arith, aligned-home input.strategy_id input.signal.desired input.det_regime)
  choose-Justified arm_d input h =
      let gate = jev_allows input.strategy_id input.signal.desired input.jev.answers in
      let (passed, same, asked) = if_flat gate.pass input.signal.desired h in
      (
        same,
        rw same (
            jev_allows-Supported input.strategy_id input.signal.desired input.jev.answers asked
              passed),
      )

  -- When the policy asks for a position, the arm justifies it: arm A asks for long; the others ask for
  -- what the signal wants; arm C only in the regime of the strategy; arm D only if the classifier's
  -- quality is "usable" or "strong", neither the side's nor the strategy's score is below its floor,
  -- and the regime answer is the strategy's own or below the confidence floor.
  pub policy-Justified :
      (input : PolicyInput F)
      → (evaluate_policy input).desired ≢ flat
      → Justified input.arm input (evaluate_policy input).desired
  unfolding evaluate_policy
  policy-Justified input h = choose-Justified input.arm input h

  -- The asset's direction changes the policy's action only where a long-only asset would be sold
  -- short, and then to flat; a long-only asset is never sold short.
  pub asset_restricts :
      (asset : AssetSpec) (input : PolicyInput F)
      → let asked = (evaluate_policy input).desired in
        let kept = (evaluate_asset_aware_policy asset input).desired in
        ((kept ≡ asked) ⊎ ((kept ≡ flat) × (asked ≡ short) × (asset.direction_mode ≡ long_only)))
        × ((kept ≢ short) ⊎ (asset.direction_mode ≡ long_short))
  unfolding evaluate_asset_aware_policy apply_directional_capability
  asset_restricts asset input = ground arith

  -- The features and the equity pass every check of `evaluateRisk`.
  abbrev pub IsClear : FeatureVector F → F → Type 0
  IsClear f equity_drawdown =
      (f.warmup_complete ≡ true)
      × ((is_finite f.realized_vol && max_realized_vol <F f.realized_vol) ≡ false)
      × (max_drawdown <F f.drawdown ≡ false)
      × (max_drawdown <F equity_drawdown ≡ false)

  -- The risk checks never choose a position of their own. Either the target is what was desired, and
  -- every check is clear or nothing but flat was desired; or it is flat and a check is not clear; so it
  -- is flat exactly if flat was desired or a check is not clear. The verdict is a pass exactly if the target is what was desired, and a reason is always given.
  pub risk_only_flattens :
      (desired : Action) (f : FeatureVector F) (equity_drawdown : F)
      → let e = evaluate_risk desired f equity_drawdown in
        (((e.target ≡ desired) × (IsClear f equity_drawdown ⊎ (desired ≡ flat)))
          ⊎ ((e.target ≡ flat) × ¬ IsClear f equity_drawdown))
        × ((e.target ≡ flat) ↔ ((desired ≡ flat) ⊎ ¬ IsClear f equity_drawdown))
        × ((e.pass ≡ true) ↔ (e.target ≡ desired))
        × (e.reasons ≢ [])
  unfolding evaluate_risk checks
  risk_only_flattens desired f equity_drawdown = ground arith
