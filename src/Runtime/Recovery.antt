-- ===== src/Runtime/Recovery.antt =====
-- `enterRebuilding` and `recoverGap`: a gap in the minutes is read again, verified and written, or the
-- features are rebuilt.
use thelight.Common.{
  ℕ, ◌+◌, ◌-◌, ◌*◌, ◌/◌, ◌%◌, suc, zero, String, Bool, true, false, ◌&&◌, not, Option, none, some,
  List, [], ◌∷◌, ◌==◌, leb, ltb, or_else, all, any, keep, last?, length, insert, max, if◌then◌else◌,
}
use thelight.Number.{Num, ◌≤F◌, int, is_finite, max_num, min_num}
use thelight.Types.{ClosedBar}
use thelight.Store.Data.{rest_backfill, MarketBarWriteResult, conflict, MarketBarObservation}
use thelight.Store.Bars.{record_market_bar}
use thelight.Store.Checkpoint.{
  WorkerCheckpoint, GapRecoveryAttempt, attempt_gap_detected, attempt_backfilling,
  attempt_verifying, attempt_healthy, attempt_rebuilding,
}
use thelight.Worker.Gaps.{Gap, minute}
use thelight.Worker.Safety.{
  continuity_rebuilding, is_continuous, RecoveryState, recovery_healthy, gap_detected, backfilling,
  verifying, rebuilding,
}
use thelight.Runtime.World.{Worker, Setup}
use thelight.Runtime.Actions.{
  Action, Method, ◌>>=◌, ◌>>◌, pure, raise, skip, gets, modify, set, catching, if_null, await, now,
}
use thelight.Runtime.Ownership.{persist_checkpoint}
use thelight.Runtime.Bars.{decision_width_ms, process_completed_decision_bars}

abbrev pub is_conflict : MarketBarWriteResult → Bool
is_conflict conflict = true
is_conflict _ = false

-- `(Math.floor(t / width) + 1) * width`: the first bucket that starts after `t`
unfoldable pub next_bucket : ℕ → ℕ → ℕ
next_bucket width t = (t / width + 1) * width

module _ {F : Type 0} where
  abbrev pub raise_barrier : ℕ → WorkerCheckpoint F → WorkerCheckpoint F
  raise_barrier bucket c = record c {
    recovery_dispatch_not_before_bucket_ms =
        some (max (or_else c.recovery_dispatch_not_before_bucket_ms 0) bucket);
  }

  abbrev pub in_recovery : RecoveryState → Worker F → Worker F
  in_recovery state k = record k { checkpoint = record k.checkpoint { recovery_state = state } }

  -- The fields as `recoverGap` leaves them when the gap is detected.
  abbrev pub with_gap : String → Gap → ℕ → Worker F → Worker F
  with_gap attempt_id g barrier k = record k {
    checkpoint = raise_barrier barrier (record k.checkpoint {
      recovery_state = gap_detected;
      recovery_attempt_id = some attempt_id;
      recovery_missing_start_ms = some g.start;
      recovery_missing_end_ms = some g.end;
    });
  }

  abbrev pub with_completion : ℕ → ℕ → Worker F → Worker F
  with_completion time barrier k = record k {
    checkpoint = raise_barrier barrier (record k.checkpoint { recovery_completed_at = some time });
  }

  abbrev pub as_rebuilding : Worker F → Worker F
  as_rebuilding k = record k {
    checkpoint = record k.checkpoint {
      recovery_state = rebuilding;
      feature_continuity = continuity_rebuilding;
    };
  }

-- `expected`: the minutes of the gap
unfoldable pub minutes_from : ℕ → ℕ → List ℕ
minutes_from zero t = []
minutes_from (suc n) t = t ∷ minutes_from n (t + minute)

abbrev pub expected_minutes : Gap → List ℕ
expected_minutes g = minutes_from ((g.end - g.start) / minute) g.start

module _ {F : Type 0} where
  -- `byTimestamp.get(t)`
  abbrev pub returned_bar : List (ClosedBar F) → ℕ → Option (ClosedBar F)
  returned_bar bars t = last? (keep (λ bar. bar.t == t) bars)

  -- `byTimestamp.size`
  unfoldable pub distinct_minutes : List (ClosedBar F) → ℕ
  distinct_minutes [] = 0
  distinct_minutes (bar ∷ bars) =
      let rest = distinct_minutes bars in if any (λ b. b.t == bar.t) bars then rest else rest + 1

  -- The reply has exactly the minutes of the gap.
  unfoldable pub is_complete : Gap → List (ClosedBar F) → Bool
  unfolding distinct_minutes minutes_from
  is_complete g bars =
      let expected = expected_minutes g in
      length bars == length expected
      && distinct_minutes bars == length expected
      && all (λ t. any (λ bar. bar.t == t) bars) expected

module _ {F : Type 0} ⦃num : Num F⦄ where
  -- The test of one bar of the reply.
  unfoldable pub is_structurally_valid : Gap → ClosedBar F → Bool
  is_structurally_valid g bar =
      bar.t % minute == 0
      && leb g.start bar.t
      && ltb bar.t g.end
      && is_finite bar.open_price
      && is_finite bar.high
      && is_finite bar.low
      && is_finite bar.close
      && is_finite bar.volume
      && int 0 ≤F bar.volume
      && bar.low ≤F min_num bar.open_price bar.close
      && max_num bar.open_price bar.close ≤F bar.high
      && bar.low ≤F bar.high

module _ {F S : Type 0} where
  -- `createGapRecoveryAttempt` and `updateGapRecoveryAttempt`
  unfoldable pub store_attempt : GapRecoveryAttempt → Method F S
  store_attempt attempt =
      modify (λ w. record w { attempts = insert attempt.attempt_id attempt w.attempts })

  -- `attempt = ...`, and the update of its row
  unfoldable pub note_attempt : GapRecoveryAttempt → Method F S
  unfolding store_attempt
  note_attempt attempt = do set (λ k. record k { recovering = some attempt }); store_attempt attempt

  unfoldable pub enter_rebuilding : Setup F S → String → Option GapRecoveryAttempt → Method F S
  unfolding store_attempt persist_checkpoint
  enter_rebuilding env reason attempt = do
    set as_rebuilding
    if_null attempt skip (λ a. store_attempt (record a {
      attempt_state = attempt_rebuilding;
      outcome = some (or_else a.outcome reason);
      reason = some (or_else a.reason reason);
    }))
    persist_checkpoint env

module _ {F S : Type 0} ⦃num : Num F⦄ where
  abbrev pub observation_of : Setup F S → String → ℕ → ClosedBar F → MarketBarObservation F
  observation_of env attempt_id observed_at bar = record {
    symbol = env.asset.symbol;
    bar = bar;
    provider_event_timestamp_ms = bar.t;
    observed_at = observed_at;
    origin = rest_backfill;
    recovery_attempt_id = some attempt_id;
  }

  unfoldable pub store_bar : MarketBarObservation F → Action F S MarketBarWriteResult
  store_bar o = do
    result ← gets (λ w. (record_market_bar o w.market).0)
    modify (λ w. record w { market = (record_market_bar o w.market).1 })
    pure result

  -- The loop over the expected minutes: whether a bar was in conflict
  unfoldable pub store_backfill :
      Setup F S → String → ℕ → List (ClosedBar F) → List ℕ → Action F S Bool
  unfolding store_bar
  store_backfill env attempt_id time bars [] = pure false
  store_backfill env attempt_id time bars (t ∷ rest) =
      if_null (returned_bar bars t) (raise "MISSING_BAR") (λ bar. do
        result ← store_bar (observation_of env attempt_id time bar)
        if is_conflict result then pure true else store_backfill env attempt_id time bars rest)

  -- `recoverGap` once every bar is written
  unfoldable pub finish_recovery : Setup F S → GapRecoveryAttempt → ℕ → Bool → Method F S
  unfolding next_bucket process_completed_decision_bars note_attempt persist_checkpoint
  finish_recovery env attempt count evaluate_only = do
    time ← gets (now env)
    set (with_completion time (next_bucket (decision_width_ms env.arm) time))
    process_completed_decision_bars env none evaluate_only
    restored ← gets (λ w. is_continuous w.worker.checkpoint.feature_continuity)
    set (in_recovery (if restored then recovery_healthy else rebuilding))
    note_attempt (record attempt {
      attempt_state = if restored then attempt_healthy else attempt_rebuilding;
      verified_bar_count = some count;
      completed_at = some time;
      outcome = some (if restored then "VERIFIED" else "FEATURE_WARMUP_REQUIRED");
      reason = if restored then none else some "FEATURE_WARMUP_REQUIRED";
    })
    persist_checkpoint env

  -- `recoverGap` once the reply is verified
  unfoldable pub write_backfill :
      Setup F S → Gap → GapRecoveryAttempt → ℕ → List (ClosedBar F) → Bool → Method F S
  unfolding enter_rebuilding store_backfill finish_recovery
  write_backfill env g verified time bars evaluate_only = do
    clash ← store_backfill env verified.attempt_id time bars (expected_minutes g)
    if clash
        then enter_rebuilding env "BACKFILL_BAR_CONFLICT" (
            some (record verified {
              verified_bar_count = some 0;
              reason = some "BACKFILL_BAR_CONFLICT";
            }))
        else finish_recovery env verified (length bars) evaluate_only

  -- `recoverGap` with the bars of the reply
  unfoldable pub verify_backfill :
      Setup F S → Gap → GapRecoveryAttempt → List (ClosedBar F) → Bool → Method F S
  unfolding is_structurally_valid is_complete
  verify_backfill env g attempt bars evaluate_only =
      let valid = all (is_structurally_valid g) bars in
      let problem = if valid then "PARTIAL_BACKFILL" else "INVALID_BACKFILL_BAR" in
      let returned = record attempt { returned_bar_count = some (length bars) } in
      if not (valid && is_complete g bars)
      then enter_rebuilding env problem (some (record returned { reason = some problem }))
      else do
        time ← gets (now env)
        let verified = record returned {
          attempt_state = attempt_verifying;
          verified_at = some time;
        }
        note_attempt verified
        set (in_recovery verifying)
        persist_checkpoint env
        write_backfill env g verified time bars evaluate_only

  -- `recoverGap`. The reason of a failed attempt is the kind of the transport's error, which the
  -- history's reader gives, and `UNKNOWN_FAILURE` for any other.
  unfoldable pub recover_gap : Setup F S → Gap → ℕ → Bool → Method F S
  recover_gap env g detected_at evaluate_only = do
    attempt_id ← gets (λ w. env.uuid w.tick)
    let attempt : GapRecoveryAttempt = record {
      attempt_id = attempt_id;
      worker_key = env.identity.worker_key;
      symbol = env.asset.symbol;
      missing_start_ms = g.start;
      missing_end_ms = g.end;
      attempt_state = attempt_gap_detected;
      detected_at = detected_at;
      requested_at = none;
      verified_at = none;
      completed_at = none;
      returned_bar_count = none;
      verified_bar_count = none;
      outcome = none;
      reason = none;
    }
    note_attempt attempt
    set (with_gap attempt_id g (next_bucket (decision_width_ms env.arm) detected_at))
    persist_checkpoint env
    catching
        (do
          time ← gets (now env)
          let requested = record attempt {
            attempt_state = attempt_backfilling;
            requested_at = some time;
          }
          note_attempt requested
          set (in_recovery backfilling)
          persist_checkpoint env
          bars ← await env (env.historical_bars g)
          verify_backfill env g requested bars evaluate_only)
        (λ e. do
          current ← gets (λ w. or_else w.worker.recovering attempt)
          enter_rebuilding env "BACKFILL_REQUEST_FAILED"
              (some (record current { reason = some (env.failure_kind e) })))
