-- ===== src/Policy/Risk.antt =====
-- `evaluateRisk`, with the source's order of checks and reasons
use thelight.Common.{String, ◌<>◌, Bool, ◌&&◌, not, List, [], ◌∷◌, ◌++◌, if◌then◌else◌}
use thelight.Number.{Num, ◌<F◌, is_finite, to_fixed}
use thelight.Types.{Action, flat, FeatureVector, RiskEvaluation}
use thelight.Policy.Signals.{max_realized_vol, max_drawdown}
use thelight.Policy.Gate.{is_flat}
use thelight.Policy.Evaluate.{action_eq}

-- `if (failed) { target = "FLAT"; reasons.push(reason); }`
abbrev pub check : Bool → String → Action × List String → Action × List String
check failed reason (target, reasons) =
    if failed then (flat, reasons ++ reason ∷ []) else (target, reasons)

abbrev pub if_empty : List String → List String → List String
if_empty default [] = default
if_empty default (x ∷ xs) = x ∷ xs

module _ {F : Type 0} ⦃num : Num F⦄ where
  abbrev pub vol_failed : Action → FeatureVector F → Bool
  vol_failed desired f =
      is_finite f.realized_vol && max_realized_vol <F f.realized_vol && not (is_flat desired)

  abbrev pub drawdown_failed : Action → F → Bool
  drawdown_failed desired drawdown = max_drawdown <F drawdown && not (is_flat desired)

  -- the target and the reasons after the four checks
  unfoldable pub checks : Action → FeatureVector F → F → Action × List String
  checks desired f equity_drawdown =
      check (drawdown_failed desired equity_drawdown)
        ("paper equity drawdown " <> to_fixed equity_drawdown 3 <> " > UNCALIBRATED 0.18.")
        (check (drawdown_failed desired f.drawdown)
          ("price drawdown " <> to_fixed f.drawdown 3 <> " > UNCALIBRATED 0.18.")
          (check (vol_failed desired f)
            ("realized_vol " <> to_fixed f.realized_vol 4 <> " > UNCALIBRATED 0.035.")
            (check (not f.warmup_complete) "Warmup incomplete." (desired, []))))

  unfoldable pub evaluate_risk : Action → FeatureVector F → F → RiskEvaluation F
  unfolding checks
  evaluate_risk desired f equity_drawdown =
      let checked = checks desired f equity_drawdown in
      record {
        version = "sprint0.1";
        pass = action_eq checked.0 desired;
        target = checked.0;
        reasons = if_empty ("Risk checks passed (UNCALIBRATED)." ∷ []) checked.1;
        max_position = 1;
        realized_vol = f.realized_vol;
        drawdown = f.drawdown;
        equity_drawdown = equity_drawdown;
      }
