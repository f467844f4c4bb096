-- ===== src/Worker/Safety.antt =====
-- `dispatchBlockReasonFor`
use thelight.Common.{
  String, Bool, true, false, ◌||◌, not, Option, none, some, ◌≡◌, ◌↔◌, arith, if◌then◌else◌,
}

pub data FeatureContinuity : Type 0 where
  continuity_healthy continuity_rebuilding : FeatureContinuity

pub data RecoveryState : Type 0 where
  recovery_healthy gap_detected backfilling verifying rebuilding : RecoveryState

pub record DispatchSafetyInput : Type 0 where
  pub dispatch_capable : Bool
  pub in_session : Bool
  pub warmup_complete : Bool
  pub feature_continuity : FeatureContinuity
  pub recovery_state : RecoveryState
  pub latest_live_bar_stale : Bool
  pub reconciliation_complete : Bool
  pub has_ownership : Bool

-- `MARKET_RECOVERY_` and the state; `none` is the healthy state.
abbrev pub recovery_reason : RecoveryState → Option String
recovery_reason recovery_healthy = none
recovery_reason gap_detected = some "MARKET_RECOVERY_GAP_DETECTED"
recovery_reason backfilling = some "MARKET_RECOVERY_BACKFILLING"
recovery_reason verifying = some "MARKET_RECOVERY_VERIFYING"
recovery_reason rebuilding = some "MARKET_RECOVERY_REBUILDING"

abbrev pub is_continuous : FeatureContinuity → Bool
is_continuous continuity_healthy = true
is_continuous continuity_rebuilding = false

abbrev pub after_recovery : DispatchSafetyInput → Option String
after_recovery input =
    if not input.warmup_complete || not (is_continuous input.feature_continuity)
    then some "FEATURE_CONTINUITY_REBUILDING"
    else if input.latest_live_bar_stale
    then some "LATEST_LIVE_BAR_STALE"
    else if not input.reconciliation_complete
    then some "BROKER_RECONCILIATION_INCOMPLETE"
    else if not input.has_ownership
    then some "DISPATCH_OWNERSHIP_REQUIRED"
    else none

unfoldable pub dispatch_block_reason_for : DispatchSafetyInput → Option String
dispatch_block_reason_for input =
    if not input.dispatch_capable
    then some "READ_ONLY_RUNTIME"
    else if not input.in_session
    then some "OUTSIDE_REGULAR_SESSION"
    else elim (recovery_reason input.recovery_state) [
      | some reason ↦ some reason
      | none ↦ after_recovery input
    ]

-- Nothing blocks a dispatch exactly if the runtime may dispatch, the session is open, the recovery and
-- the features are healthy and warmed up, the newest bar is fresh, the broker is reconciled, and the
-- process owns the worker.
pub dispatch_allowed_exact :
    (input : DispatchSafetyInput)
    → (dispatch_block_reason_for input ≡ none) ↔ (
        (input.dispatch_capable ≡ true)
        × (input.in_session ≡ true)
        × (input.recovery_state ≡ recovery_healthy)
        × (input.warmup_complete ≡ true)
        × (input.feature_continuity ≡ continuity_healthy)
        × (input.latest_live_bar_stale ≡ false)
        × (input.reconciliation_complete ≡ true)
        × (input.has_ownership ≡ true))
unfolding dispatch_block_reason_for
dispatch_allowed_exact input = ground arith
