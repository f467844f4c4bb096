-- ===== src/Tests/Trading.antt =====
-- Policy, risk, replay and market data at concrete inputs.
use thelight.Common.{
  ℕ, ◌+◌, ◌*◌, ◌≡◌, refl, ◌≢◌, ◌⊎◌, ◌↔◌, arith, true, false, ◌&&◌, not, ◌==◌, none, some, List, [],
  ◌∷◌,
}
use thelight.Common.Int.{ℤ, pos}
use thelight.Types.{ClosedBar, arm_b, arm_c, ema_trend, long, short, flat, trend_up, JevAnswers}
use thelight.Asset.{spy_spec, long_only, long_short}
use thelight.Policy.Signals.{signal}
use thelight.Policy.Gate.{regime_aligned}
use thelight.Policy.Evaluate.{PolicyInput, choose, evaluate_policy, evaluate_asset_aware_policy}
use thelight.Policy.Risk.{evaluate_risk}
use thelight.Policy.Entry.{
  policy-Justified, asset_restricts, risk_only_flattens, Justified, IsClear,
}
use thelight.Replay.Ledger.{ReplayConfig, new_replay}
use thelight.Replay.Chain.{Call, bar_closed, decided, run, transitions_chain, IsConsistent}
use thelight.Replay.Settle.{fills_next_bar, IsExecuted}
use thelight.Replay.Bounds.{positions-IsBounded, IsBounded}
use thelight.Worker.Safety.{
  DispatchSafetyInput, continuity_healthy, recovery_healthy, dispatch_block_reason_for,
  dispatch_allowed_exact,
}
use thelight.Worker.Gaps.{startup_gaps, expected_live_gap, minute}
use thelight.Worker.Coverage.{startup_gaps_exact, in_gaps}
use thelight.Worker.LiveGap.{live_gap_covers, covers}
use thelight.Market.{aggregate_closed_bars, aggregate, bucket_start}
use thelight.Market.Buckets.{aggregate_closed, Buckets, newest}
use thelight.Tests.Numbers.{thousandths}
use thelight.Tests.Sample.{bar, features}

abbrev answers : JevAnswers ℤ
answers = record {
  regime = record { choice = "trend_up"; probabilities = []; confidence = pos 800 };
  long_setup = record { noul = pos 700 };
  short_setup = record { noul = pos 100 };
  mean_reversion = record { noul = pos 100 };
  trend = record { noul = pos 700 };
  market_quality = record {
    score = pos 2000;
    probabilities = [];
    confidence = pos 800;
    level = "usable";
  };
}

abbrev input : PolicyInput ℤ
input = record {
  arm = arm_c;
  strategy_id = ema_trend;
  signal = signal ema_trend long "rising";
  det_regime = trend_up;
  jev = record { model = "mock"; request_id = "q"; latency_ms = 1; answers = answers };
}

policy-Justified_example : Justified arm_c input (evaluate_policy input).desired
unfolding evaluate_policy choose regime_aligned
policy-Justified_example = policy-Justified input (λ e. cc)

-- Arm B with a short signal
abbrev selling : PolicyInput ℤ
selling = record input { arm = arm_b; signal = signal ema_trend short "falling" }

asset_restricts_example :
    let asked = (evaluate_policy selling).desired in
    let kept = (evaluate_asset_aware_policy spy_spec selling).desired in
    ((kept ≡ asked) ⊎ ((kept ≡ flat) × (asked ≡ short) × (long_only ≡ long_only)))
    × ((kept ≢ short) ⊎ (long_only ≡ long_short))
asset_restricts_example = asset_restricts spy_spec selling

risk_only_flattens_example :
    let e = evaluate_risk long features (pos 200) in
    (((e.target ≡ long) × (IsClear features (pos 200) ⊎ (long ≡ flat)))
      ⊎ ((e.target ≡ flat) × ¬ IsClear features (pos 200)))
    × ((e.target ≡ flat) ↔ ((long ≡ flat) ⊎ ¬ IsClear features (pos 200)))
    × ((e.pass ≡ true) ↔ (e.target ≡ long))
    × (e.reasons ≢ [])
risk_only_flattens_example = risk_only_flattens long features (pos 200)

abbrev config : ReplayConfig ℤ
config = record { transaction_cost_bps = pos 1000; slippage_bps = pos 2000 }

-- A bar, a decision to go long, and the bar that fills it
abbrev session : List (Call ℤ)
session =
    bar_closed 0 bar none
    ∷ decided (record {
      decision_id = "d";
      created_at_bar = 0;
      created_at_timestamp = 900000;
      action = long;
    })
    ∷ bar_closed 1 bar (some bar)
    ∷ []

transitions_chain_example : IsConsistent (run config session new_replay)
transitions_chain_example = transitions_chain config session

fills_next_bar_example : IsExecuted (run config session new_replay)
fills_next_bar_example = fills_next_bar config session

positions-IsBounded_example : IsBounded (run config session new_replay)
positions-IsBounded_example = positions-IsBounded config session

abbrev safe : DispatchSafetyInput
safe = record {
  dispatch_capable = true;
  in_session = true;
  warmup_complete = true;
  feature_continuity = continuity_healthy;
  recovery_state = recovery_healthy;
  latest_live_bar_stale = false;
  reconciliation_complete = true;
  has_ownership = true;
}

dispatch_allowed_exact_example : (dispatch_block_reason_for safe ≡ none) ↔ (
    (true ≡ true)
    × (true ≡ true)
    × (recovery_healthy ≡ recovery_healthy)
    × (true ≡ true)
    × (continuity_healthy ≡ continuity_healthy)
    × (false ≡ false)
    × (true ≡ true)
    × (true ≡ true))
dispatch_allowed_exact_example = dispatch_allowed_exact safe

-- The minute 120000 is stored; the loop runs from 60000 to 180000.
startup_gaps_exact_example :
    in_gaps (60000 + 1 * minute) (startup_gaps (λ t. true) (λ t. t == 120000) 60000 180000)
    ≡ (true && not ((60000 + 1 * minute) == 120000))
startup_gaps_exact_example =
    startup_gaps_exact (λ t. true) (λ t. t == 120000) 60000 180000 1 (ground arith)

live_gap_covers_example :
    covers
      (expected_live_gap (λ t. true) (λ t. "2025-01-02") (some 60000) 240000)
      (60000 + minute + 1 * minute)
    ≡ true
live_gap_covers_example =
    live_gap_covers (λ t. true) (λ t. "2025-01-02") 60000 240000 1 refl (ground arith) refl

abbrev minute_bar : ℕ → ClosedBar ℤ
minute_bar t = record bar { t = t }

abbrev source : List (ClosedBar ℤ)
source = minute_bar 0 ∷ minute_bar 60000 ∷ minute_bar 120000 ∷ []

aggregate_closed_example :
    Buckets (2 * 60000) (newest 0 source) 0 (record bar { t = 0; volume = pos 10000 } ∷ [])
unfolding aggregate_closed_bars aggregate bucket_start
aggregate_closed_example =
    aggregate_closed 2 source (record bar { t = 0; volume = pos 10000 } ∷ [])
      (ground arith, (ground arith, (ground arith, tt))) refl
