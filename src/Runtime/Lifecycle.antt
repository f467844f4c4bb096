-- ===== src/Runtime/Lifecycle.antt =====
-- `start` and `stop`, and everything that can happen to a worker.
use thelight.Common.{
  ℕ, ◌+◌, String, Bool, true, false, ◌&&◌, ◌||◌, not, Option, none, some, List, [], ◌∷◌, lookup,
  is_some, if◌then◌else◌,
}
use thelight.Number.{Num, is_finite}
use thelight.Types.{ClosedBar}
use thelight.Store.Data.{WorkerLease, starting, reconciling, ready, stopped, halted}
use thelight.Store.Leases.{create_run, acquire_ownership}
use thelight.Store.Checkpoint.{
  disconnected, degraded, StoredCheckpoint, WorkerCheckpoint, empty_checkpoint,
  normalize_checkpoint,
}
use thelight.Broker.Updates.{TradeUpdate}
use thelight.Runtime.World.{ok, Worker, World, Setup}
use thelight.Runtime.Actions.{
  Action, Method, ◌>>=◌, ◌>>◌, pure, skip, gets, modify, set, catching, finally, if_null, when, now,
}
use thelight.Runtime.Ownership.{
  is_in, set_state, store_run, record_end, persist_checkpoint, release, halt,
  confirm_current_ownership, renew,
}
use thelight.Runtime.Broker.{may_reach_broker, reconcile_internal, reconcile}
use thelight.Runtime.Streams.{
  process_raw_bar, recover_startup_feature_gaps, receive_trade_update, connect_trade_updates,
  trade_updates_ready, trade_reconnect_due, handle_trade_stream_error, start_market_consumer,
  market_reconnect_due, market_stream_over,
}

module _ {F : Type 0} where
  -- The fields of a worker that cannot start.
  abbrev pub cannot_start : String → Worker F → Worker F
  cannot_start reason k = record k {
    worker_state = halted;
    market_stream = degraded;
    trade_stream = degraded;
    checkpoint = record k.checkpoint { halt_reason = some reason };
  }

  abbrev pub stopping : Worker F → Worker F
  stopping k = record k {
    is_stopped = true;
    is_renewing = false;
    reconnect_generation = k.reconnect_generation + 1;
    market_reconnect_scheduled = false;
    trade_reconnect_scheduled = false;
    is_listening = false;
    market_stream = disconnected;
    trade_stream = disconnected;
  }

module _ {F : Type 0} ⦃num : Num F⦄ where
  -- A row without a finite peak of the equity
  abbrev pub lacks_high_water : Option (StoredCheckpoint F) → Bool
  lacks_high_water none = false
  lacks_high_water (some c) = elim c.paper_equity_high_water [
    | none ↦ true
    | some x ↦ not (is_finite x)
  ]

  abbrev pub restored : Option (StoredCheckpoint F) → WorkerCheckpoint F
  restored none = empty_checkpoint
  restored (some c) = normalize_checkpoint c

  abbrev pub with_row : Option (StoredCheckpoint F) → Worker F → Worker F
  with_row row k = record k {
    requires_high_water_recovery = lacks_high_water row;
    checkpoint = restored row;
    market_stream = (restored row).market_stream_state;
    trade_stream = (restored row).trade_update_stream_state;
  }

module _ {F S : Type 0} where
  unfoldable pub store_acquire : Setup F S → String → Action F S (Option WorkerLease)
  store_acquire env run_id w =
      let (lease, o) = acquire_ownership (now env w) env.identity.worker_key run_id 30 w.owners in
      (ok lease, record w { owners = o })

  abbrev pub is_active : World F S → Bool
  is_active w = is_in ready w || is_in reconciling w || is_in starting w

module _ {F S : Type 0} ⦃num : Num F⦄ where
  -- The `try` of `start`
  unfoldable pub bring_up : Setup F S → String → Method F S
  unfolding reconcile_internal recover_startup_feature_gaps confirm_current_ownership
      persist_checkpoint store_run connect_trade_updates start_market_consumer
  bring_up env run_id = do
    when (may_reach_broker env) (reconcile_internal env)
    stopped1 ← gets (λ w. w.worker.is_stopped)
    if stopped1 then skip else do
      recover_startup_feature_gaps env
      stopped2 ← gets (λ w. w.worker.is_stopped)
      if stopped2 then skip else do
        owned ← confirm_current_ownership env
        when owned (do
          set_state ready
          persist_checkpoint env
          store_run env run_id none
          still ← confirm_current_ownership env
          when still (do
            when (may_reach_broker env) (connect_trade_updates env)
            start_market_consumer env))

  -- `start` once the lease is granted. (Nothing stops the worker between the grant and this point.)
  unfoldable pub start_owned : Setup F S → String → WorkerLease → Method F S
  unfolding bring_up halt
  start_owned env run_id lease = do
    set (λ k. record k {
      ownership = some lease;
      ownership_generation = k.ownership_generation + 1;
      is_renewing = true;
    })
    row ← gets (λ w. lookup env.identity.worker_key w.checkpoints)
    set (with_row row)
    catching (bring_up env run_id)
        (λ e. do is_over ← gets (λ w. w.worker.is_stopped); if is_over then skip else halt env e)

  unfoldable pub start : Setup F S → Method F S
  unfolding store_run store_acquire start_owned
  start env = do
    active ← gets is_active
    if active then skip else do
      run_id ← gets (λ w. env.uuid w.tick)
      set (λ k. record k { is_stopped = false; worker_state = starting; current_run = some run_id })
      if not env.durable then set (cannot_start "DURABLE_STORAGE_REQUIRED") else do
        modify (λ w. record w {
          owners = create_run run_id env.identity.worker_key w.worker.worker_state w.owners;
        })
        lease ← store_acquire env run_id
        if_null lease
            (do
              set (cannot_start "DISPATCH_OWNERSHIP_UNAVAILABLE")
              store_run env run_id (some "DISPATCH_OWNERSHIP_UNAVAILABLE"))
            (start_owned env run_id)

  unfoldable pub stop : Setup F S → Method F S
  unfolding record_end persist_checkpoint release
  stop env = do
    owned ← gets (λ w. is_some w.worker.ownership)
    was_halted ← gets (is_in halted)
    set stopping
    when (not was_halted) (set_state stopped)
    finally
        (do
          may_persist ← (if was_halted then pure true else record_end env none)
          when (owned && may_persist) (persist_checkpoint env))
        release

-- What happens to a worker: the calls of its public methods, and what its timers and streams call.
pub data Event (F : Type 0) : Type 0 where
  start_called stop_called reconcile_called : Event F
  raw_bar : ClosedBar F → Event F
  trade_update : TradeUpdate → Event F
  renewal_due updates_ready trade_due market_due : ℕ → Event F
  trade_stream_failed : Event F
  market_over : Bool → Event F

module _ {F S : Type 0} ⦃num : Num F⦄ where
  unfoldable pub handle : Setup F S → Event F → Method F S
  unfolding start stop reconcile process_raw_bar receive_trade_update renew trade_updates_ready
      trade_reconnect_due market_reconnect_due handle_trade_stream_error market_stream_over
  handle env start_called = start env
  handle env stop_called = stop env
  handle env reconcile_called = reconcile env
  handle env (raw_bar bar) = process_raw_bar env bar
  handle env (trade_update update) = receive_trade_update env update
  handle env (renewal_due generation) = renew env generation
  handle env (updates_ready generation) = trade_updates_ready env generation
  handle env (trade_due generation) = trade_reconnect_due env generation
  handle env (market_due generation) = market_reconnect_due env generation
  handle env trade_stream_failed = handle_trade_stream_error env
  handle env (market_over failed) = market_stream_over env failed

  -- One event after the other; a caller that gets an error goes on.
  unfoldable pub live : Setup F S → List (Event F) → World F S → World F S
  unfolding handle
  live env [] w = w
  live env (e ∷ es) w = live env es (handle env e w).1
