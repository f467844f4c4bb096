-- ===== src/Store/Checkpoint.antt =====
-- The checkpoint of a worker: its type, the row that a restart reads, `writeCheckpointOwned`, the
-- attempts to recover a gap, and `emptyCheckpoint` and `normalizeCheckpoint` of
-- src/lib/lightlight/alpaca-worker.server.ts.
use thelight.Common.{
  ℕ, String, Bool, true, false, Option, none, some, Dict, insert, if◌then◌else◌, is_some, or_else,
}
use thelight.Common.Int.{ℤ, pos, ◌==ℤ◌}
use thelight.Number.{Num, is_finite}
use thelight.Feature.EmaRsi.{TargetPosition, target_flat, target_long}
use thelight.Store.Data.{WorkerLease, Ownership}
use thelight.Store.Leases.{renew_ownership}
use thelight.Worker.Safety.{
  FeatureContinuity, continuity_rebuilding, RecoveryState, recovery_healthy,
}

pub data StreamState : Type 0 where
  disconnected connecting connected degraded stream_reconciling : StreamState

pub record WorkerCheckpoint (F : Type 0) : Type 0 where
  pub latest_raw_bar_timestamp : Option ℕ
  pub latest_closed_decision_bar_timestamp : Option ℕ
  pub latest_decision_id : Option String
  pub last_reconciliation_timestamp : Option ℕ
  pub stream_state : StreamState
  pub market_stream_state : StreamState
  pub trade_update_stream_state : StreamState
  pub feature_continuity : FeatureContinuity
  pub recovery_state : RecoveryState
  pub recovery_attempt_id : Option String
  pub recovery_missing_start_ms : Option ℕ
  pub recovery_missing_end_ms : Option ℕ
  pub recovery_completed_at : Option ℕ
  pub recovery_dispatch_not_before_bucket_ms : Option ℕ
  pub paper_equity_high_water : Option F
  pub last_paper_equity : Option F
  pub prior_risk_approved_target : Option TargetPosition
  pub halt_reason : Option String

-- A row that a restart reads: an earlier version may have left any of these out.
pub record StoredCheckpoint (F : Type 0) : Type 0 where
  pub latest_raw_bar_timestamp : Option ℕ
  pub latest_closed_decision_bar_timestamp : Option ℕ
  pub latest_decision_id : Option String
  pub last_reconciliation_timestamp : Option ℕ
  pub stream_state : Option StreamState
  pub market_stream_state : Option StreamState
  pub trade_update_stream_state : Option StreamState
  pub feature_continuity : Option FeatureContinuity
  pub recovery_state : Option RecoveryState
  pub recovery_attempt_id : Option String
  pub recovery_missing_start_ms : Option ℕ
  pub recovery_missing_end_ms : Option ℕ
  pub recovery_completed_at : Option ℕ
  pub recovery_dispatch_not_before_bucket_ms : Option ℕ
  pub paper_equity_high_water : Option F
  pub last_paper_equity : Option F
  pub prior_risk_approved_target : Option ℤ
  pub halt_reason : Option String

pub data AttemptState : Type 0 where
  attempt_gap_detected attempt_backfilling attempt_verifying : AttemptState
  attempt_healthy attempt_rebuilding : AttemptState

pub record GapRecoveryAttempt : Type 0 where
  pub attempt_id : String
  pub worker_key : String
  pub symbol : String
  pub missing_start_ms : ℕ
  pub missing_end_ms : ℕ
  pub attempt_state : AttemptState
  pub detected_at : ℕ
  pub requested_at : Option ℕ
  pub verified_at : Option ℕ
  pub completed_at : Option ℕ
  pub returned_bar_count : Option ℕ
  pub verified_bar_count : Option ℕ
  pub outcome : Option String
  pub reason : Option String

abbrev pub target_number : TargetPosition → ℤ
target_number target_flat = pos 0
target_number target_long = pos 1

abbrev pub target_of : Option ℤ → Option TargetPosition
target_of none = none
target_of (some n) =
    if n ==ℤ pos 1 then some target_long else if n ==ℤ pos 0 then some target_flat else none

abbrev pub number_of : Option TargetPosition → Option ℤ
number_of none = none
number_of (some target) = some (target_number target)

module _ {F : Type 0} where
  -- The JSON text of a checkpoint has every field.
  unfoldable pub row_of : WorkerCheckpoint F → StoredCheckpoint F
  row_of c = record {
    latest_raw_bar_timestamp = c.latest_raw_bar_timestamp;
    latest_closed_decision_bar_timestamp = c.latest_closed_decision_bar_timestamp;
    latest_decision_id = c.latest_decision_id;
    last_reconciliation_timestamp = c.last_reconciliation_timestamp;
    stream_state = some c.stream_state;
    market_stream_state = some c.market_stream_state;
    trade_update_stream_state = some c.trade_update_stream_state;
    feature_continuity = some c.feature_continuity;
    recovery_state = some c.recovery_state;
    recovery_attempt_id = c.recovery_attempt_id;
    recovery_missing_start_ms = c.recovery_missing_start_ms;
    recovery_missing_end_ms = c.recovery_missing_end_ms;
    recovery_completed_at = c.recovery_completed_at;
    recovery_dispatch_not_before_bucket_ms = c.recovery_dispatch_not_before_bucket_ms;
    paper_equity_high_water = c.paper_equity_high_water;
    last_paper_equity = c.last_paper_equity;
    prior_risk_approved_target = number_of c.prior_risk_approved_target;
    halt_reason = c.halt_reason;
  }

  -- `writeCheckpointOwned`: the lease is renewed by the write.
  unfoldable pub write_checkpoint_owned :
      ℕ
      → WorkerLease
      → WorkerCheckpoint F
      → Ownership
      → Dict (StoredCheckpoint F)
      → Bool × Ownership × Dict (StoredCheckpoint F)
  unfolding row_of
  write_checkpoint_owned now lease checkpoint o m =
      let (renewed, o') = renew_ownership now lease 30 o in
      if is_some renewed
      then (true, o', insert lease.worker_key (row_of checkpoint) m)
      else (false, o', m)

  unfoldable pub empty_checkpoint : WorkerCheckpoint F
  empty_checkpoint = record {
    latest_raw_bar_timestamp = none;
    latest_closed_decision_bar_timestamp = none;
    latest_decision_id = none;
    last_reconciliation_timestamp = none;
    stream_state = disconnected;
    market_stream_state = disconnected;
    trade_update_stream_state = disconnected;
    feature_continuity = continuity_rebuilding;
    recovery_state = recovery_healthy;
    recovery_attempt_id = none;
    recovery_missing_start_ms = none;
    recovery_missing_end_ms = none;
    recovery_completed_at = none;
    recovery_dispatch_not_before_bucket_ms = none;
    paper_equity_high_water = none;
    last_paper_equity = none;
    prior_risk_approved_target = none;
    halt_reason = none;
  }

module _ {F : Type 0} ⦃num : Num F⦄ where
  -- `Number.isFinite(x) ? x : null`
  abbrev pub if_finite : Option F → Option F
  if_finite none = none
  if_finite (some x) = if is_finite x then some x else none

  unfoldable pub normalize_checkpoint : StoredCheckpoint F → WorkerCheckpoint F
  normalize_checkpoint c =
      let legacy_state = or_else c.stream_state disconnected in
      record {
        latest_raw_bar_timestamp = c.latest_raw_bar_timestamp;
        latest_closed_decision_bar_timestamp = c.latest_closed_decision_bar_timestamp;
        latest_decision_id = c.latest_decision_id;
        last_reconciliation_timestamp = c.last_reconciliation_timestamp;
        stream_state = legacy_state;
        market_stream_state = or_else c.market_stream_state legacy_state;
        trade_update_stream_state = or_else c.trade_update_stream_state disconnected;
        feature_continuity = or_else c.feature_continuity continuity_rebuilding;
        recovery_state = or_else c.recovery_state recovery_healthy;
        recovery_attempt_id = c.recovery_attempt_id;
        recovery_missing_start_ms = c.recovery_missing_start_ms;
        recovery_missing_end_ms = c.recovery_missing_end_ms;
        recovery_completed_at = c.recovery_completed_at;
        recovery_dispatch_not_before_bucket_ms = c.recovery_dispatch_not_before_bucket_ms;
        paper_equity_high_water = if_finite c.paper_equity_high_water;
        last_paper_equity = if_finite c.last_paper_equity;
        prior_risk_approved_target = target_of c.prior_risk_approved_target;
        halt_reason = c.halt_reason;
      }
