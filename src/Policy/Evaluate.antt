-- ===== src/Policy/Evaluate.antt =====
-- `evaluatePolicy` and `evaluateAssetAwarePolicy`
use thelight.Common.{String, ◌<>◌, Bool, true, false, if◌then◌else◌}
use thelight.Number.{Num, ◌≤F◌}
use thelight.Types.{
  ExperimentArm, arm_a, arm_b, arm_c, arm_d, StrategyId, Action, long, short, flat,
  DeterministicRegime, trend_up, trend_down, mean_reverting, ambiguous, Signal, JevResponse,
  PolicyEvaluation,
}
use thelight.Asset.{AssetSpec, DirectionMode, long_short, long_only, apply_directional_capability}
use thelight.Policy.Signals.{noul_floor}
use thelight.Policy.Gate.{regime_aligned, quality_ok, jev_allows, is_flat}

abbrev action_text : Action → String
action_text long = "LONG"
action_text short = "SHORT"
action_text flat = "FLAT"

abbrev regime_text : DeterministicRegime → String
regime_text trend_up = "trend_up"
regime_text trend_down = "trend_down"
regime_text mean_reverting = "mean_reverting"
regime_text ambiguous = "ambiguous"

abbrev mode_text : DirectionMode → String
mode_text long_short = "LONG_SHORT"
mode_text long_only = "LONG_ONLY"

abbrev pub action_eq : Action → Action → Bool
action_eq long long = true
action_eq short short = true
action_eq flat flat = true
action_eq _ _ = false

-- The argument of `evaluatePolicy`
pub record PolicyInput (F : Type 0) : Type 0 where
  pub arm : ExperimentArm
  pub strategy_id : StrategyId
  pub signal : Signal
  pub det_regime : DeterministicRegime
  pub jev : JevResponse F

module _ {F : Type 0} ⦃num : Num F⦄ where
  -- the chain of tests on the arm: the action and the reason
  unfoldable pub choose : ExperimentArm → PolicyInput F → Action × String
  unfolding regime_aligned jev_allows
  choose arm_a input = (long, "Arm A baseline: unit long buy-and-hold.")
  choose arm_b input = (input.signal.desired, "Arm B: " <> input.signal.reason)
  choose arm_c input =
      if is_flat input.signal.desired
      then (flat, "Arm C: " <> input.signal.reason)
      else if regime_aligned input.strategy_id input.signal.desired input.det_regime
      then (
        input.signal.desired,
        "Arm C: signal "
            <> action_text input.signal.desired
            <> " aligned with det. regime "
            <> regime_text input.det_regime
            <> ".",
      )
      else (
        flat,
        "Arm C: det. regime "
            <> regime_text input.det_regime
            <> " rejected "
            <> action_text input.signal.desired
            <> ".",
      )
  choose arm_d input =
      let gate = jev_allows input.strategy_id input.signal.desired input.jev.answers in
      (if gate.pass then input.signal.desired else flat, "Arm D: " <> gate.reason)

  unfoldable pub evaluate_policy : PolicyInput F → PolicyEvaluation
  unfolding choose quality_ok
  evaluate_policy input =
      let a = input.jev.answers in
      let chosen = choose input.arm input in
      record {
        version = "sprint0.1";
        arm = input.arm;
        deterministic_signal = input.signal.desired;
        deterministic_regime = input.det_regime;
        jev_regime = a.regime.choice;
        jev_long_pass = noul_floor ≤F a.long_setup.noul;
        jev_short_pass = noul_floor ≤F a.short_setup.noul;
        jev_trend_pass = noul_floor ≤F a.trend.noul;
        jev_mean_reversion_pass = noul_floor ≤F a.mean_reversion.noul;
        jev_quality_pass = quality_ok a.market_quality.level;
        desired = chosen.0;
        reason = chosen.1;
      }

  unfoldable pub evaluate_asset_aware_policy : AssetSpec → PolicyInput F → PolicyEvaluation
  unfolding evaluate_policy apply_directional_capability
  evaluate_asset_aware_policy asset input =
      let policy = evaluate_policy input in
      let desired = apply_directional_capability asset.direction_mode policy.desired in
      if action_eq desired policy.desired then policy else record policy {
        desired = desired;
        reason =
            policy.reason
            <> " Asset direction mode "
            <> mode_text asset.direction_mode
            <> " mapped unsupported SHORT to FLAT.";
      }
