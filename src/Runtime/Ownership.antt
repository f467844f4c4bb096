-- ===== src/Runtime/Ownership.antt =====
-- The methods about ownership: `persistCheckpoint`, `loseOwnership`, `releaseOwnership`, `halt`,
-- `confirmCurrentOwnership`, `renewOwnership` and `isLifecycleUpdateRejected`.
use thelight.Common.{
  ℕ, ◌+◌, String, str_eq, Bool, true, false, ◌&&◌, ◌||◌, not, Option, none, some, ◌==◌, is_some,
  or_else, if◌then◌else◌,
}
use thelight.Store.Data.{WorkerLease, RunState, halted}
use thelight.Store.Leases.{run_state_eq, update_run, renew_ownership, release_ownership}
use thelight.Store.Checkpoint.{degraded, write_checkpoint_owned}
use thelight.Runtime.World.{ok, err, Worker, World, Setup}
use thelight.Runtime.Actions.{
  Action, Method, ◌>>=◌, ◌>>◌, pure, raise, skip, gets, modify, set, catching, finally, when,
  if_null, now,
}

abbrev pub lifecycle_rejected : String
lifecycle_rejected = "WORKER_RUN_LIFECYCLE_UPDATE_REJECTED"

abbrev pub is_lifecycle_update_rejected : String → Bool
is_lifecycle_update_rejected error = str_eq error lifecycle_rejected

module _ {F : Type 0} where
  -- The fields as `loseOwnership` leaves them.
  unfoldable pub lost : String → Worker F → Worker F
  lost reason k = record k {
    ownership = none;
    ownership_generation = k.ownership_generation + 1;
    is_renewing = false;
    is_stopped = true;
    reconnect_generation = k.reconnect_generation + 1;
    market_reconnect_scheduled = false;
    trade_reconnect_scheduled = false;
    is_listening = false;
    worker_state = halted;
    market_stream = degraded;
    trade_stream = degraded;
    checkpoint = record k.checkpoint { halt_reason = some reason };
  }

  -- `this.ownership = renewed`
  abbrev pub adopt : WorkerLease → Worker F → Worker F
  adopt current k = record k { ownership = some current }

  -- The fields as `halt` leaves them.
  unfoldable pub halted_with : String → Worker F → Worker F
  halted_with reason k = record k {
    worker_state = halted;
    is_renewing = false;
    reconnect_generation = k.reconnect_generation + 1;
    market_reconnect_scheduled = false;
    trade_reconnect_scheduled = false;
    checkpoint = record k.checkpoint { halt_reason = some reason };
    market_stream = degraded;
    trade_stream = degraded;
  }

module _ {F S : Type 0} where
  -- `this.state === state`
  abbrev pub is_in : RunState → World F S → Bool
  is_in state w = run_state_eq w.worker.worker_state state

  abbrev pub set_state : RunState → Method F S
  set_state state = set (λ k. record k { worker_state = state })

  -- the store's `updateRun` with the worker's state
  unfoldable pub store_run : Setup F S → String → Option String → Method F S
  store_run env run_id reason w =
      let updated = update_run (now env w) run_id w.worker.worker_state reason w.owners in
      (
        if is_some updated then ok tt else err lifecycle_rejected,
        record w { owners = or_else updated w.owners },
      )

  -- the store's `renewOwnership`
  unfoldable pub store_renew : Setup F S → WorkerLease → Action F S (Option WorkerLease)
  store_renew env lease w =
      let (renewed, o) = renew_ownership (now env w) lease 30 w.owners in
      (ok renewed, record w { owners = o })

  -- the store's `writeCheckpointOwned` with the worker's checkpoint
  unfoldable pub store_checkpoint : Setup F S → WorkerLease → Action F S Bool
  store_checkpoint env lease w =
      let (written, o, m) =
        write_checkpoint_owned (now env w) lease w.worker.checkpoint w.owners w.checkpoints in
      (ok written, record w { owners = o; checkpoints = m })

  -- `try { updateRun } catch (error) { if (!rejected) throw error; }`, if there is a run: whether the
  -- run was updated
  unfoldable pub record_end : Setup F S → Option String → Action F S Bool
  unfolding store_run
  record_end env reason = do
    run ← gets (λ w. w.worker.current_run)
    if_null run (pure true) (λ run_id.
        catching (store_run env run_id reason >> pure true)
          (λ e. if is_lifecycle_update_rejected e then pure false else raise e))

  unfoldable pub lose_ownership : Setup F S → String → Method F S
  unfolding lost record_end
  lose_ownership env reason = do
    gone ← gets (λ w. is_in halted w && not (is_some w.worker.ownership))
    if gone then skip else do set (lost reason); record_end env (some reason); skip

  unfoldable pub lost_to_other : {A : Type 0} → Setup F S → Action F S A
  unfolding lose_ownership
  lost_to_other env = do
    lose_ownership env "DISPATCH_OWNERSHIP_LOST"
    raise "DISPATCH_OWNERSHIP_LOST"

  unfoldable pub persist_checkpoint : Setup F S → Method F S
  unfolding store_checkpoint lost_to_other
  persist_checkpoint env = do
    set (λ k. record k {
      checkpoint = record k.checkpoint {
        stream_state = k.market_stream;
        market_stream_state = k.market_stream;
        trade_update_stream_state = k.trade_stream;
      };
    })
    lease ← gets (λ w. w.worker.ownership)
    if_null lease (raise "DISPATCH_OWNERSHIP_REQUIRED") (λ held. do
      written ← store_checkpoint env held
      if written then skip else lost_to_other env)

  unfoldable pub release : Method F S
  release = do
    lease ← gets (λ w. w.worker.ownership)
    set (λ k. record k { ownership = none; ownership_generation = k.ownership_generation + 1 })
    if_null lease skip (λ held. modify (λ w. record w { owners = release_ownership held w.owners }))

  unfoldable pub halt : Setup F S → String → Method F S
  unfolding lose_ownership halted_with record_end persist_checkpoint release
  halt env reason = do
    owned ← gets (λ w. is_some w.worker.ownership)
    if not owned then lose_ownership env reason else do
      set (halted_with reason)
      finally (do persisted ← record_end env (some reason); when persisted (persist_checkpoint env))
          release

  unfoldable pub confirm_current_ownership : Setup F S → Action F S Bool
  unfolding store_renew lose_ownership
  confirm_current_ownership env = do
    stopped ← gets (λ w. w.worker.is_stopped)
    if stopped then pure false else do
      lease ← gets (λ w. w.worker.ownership)
      if_null lease (pure false) (λ held. do
        renewed ← store_renew env held
        if_null renewed (lose_ownership env "DISPATCH_OWNERSHIP_LOST" >> pure false)
            (λ current. set (adopt current) >> pure true))

  -- `renewOwnership` of the worker, which the timer calls. The store does not throw here, so its `catch`
  -- has no part.
  unfoldable pub renew : Setup F S → ℕ → Method F S
  unfolding store_renew lose_ownership
  renew env generation = do
    idle ← gets (λ w.
        not (w.worker.ownership_generation == generation) || w.worker.is_stopped || is_in halted w)
    if idle then skip else do
      lease ← gets (λ w. w.worker.ownership)
      if_null lease skip (λ held. do
        renewed ← store_renew env held
        if_null renewed (lose_ownership env "DISPATCH_OWNERSHIP_LOST") (λ current. do
          same ← gets (λ w. w.worker.ownership_generation == generation)
          when same (set (adopt current))))
