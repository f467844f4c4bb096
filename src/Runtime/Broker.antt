-- ===== src/Runtime/Broker.antt =====
-- The methods that talk to the broker: `refreshPaperEquity`, `paperEquityDrawdown`, `recordBrokerState`,
-- `isLiveBarStale`, `dispatch`, `reconcileInternal` and `reconcile`.
use thelight.Common.{
  ℕ, ◌+◌, String, ◌<>◌, str_eq, Bool, true, false, ◌&&◌, ◌||◌, not, Option, none, some, List, [],
  ◌∷◌, or_else, find, any, ltb, if◌then◌else◌,
}
use thelight.Number.{Num, ◌≤F◌, ◌-F◌, ◌/F◌, int, is_finite, max_num}
use thelight.Types.{
  ExecutionIntent, ExecutionStatus, pending, submission_attempted, unknown, cancelled, filled,
  rejected,
}
use thelight.Order.{BrokerOrderState, status_eq, is_found, is_absent}
use thelight.Asset.Identity.{dispatch_capable, read_only_durable}
use thelight.Store.Data.{WorkerLease, reconciling, ready, halted, StoredIntent, DurableWorkerScope}
use thelight.Store.Intents.{
  claim_intent_for_dispatch, with_dispatch_authority, record_broker_order, put_intent, list_intents,
  client_id,
}
use thelight.Broker.Execution.{BrokerPositionSnapshot}
use thelight.Broker.Reads.{OpenBrokerOrder}
use thelight.Runtime.World.{Result, ok, Worker, Post, World, Setup}
use thelight.Runtime.Actions.{
  Action, Method, ◌>>=◌, ◌>>◌, pure, raise, skip, gets, modify, set, catching, when, if_null, await,
  now,
}
use thelight.Runtime.Ownership.{
  is_in, set_state, store_run, lose_ownership, lost_to_other, persist_checkpoint, halt,
  is_lifecycle_update_rejected,
}

-- `terminal` of this file
unfoldable pub terminal : ExecutionStatus → Bool
terminal status = status_eq status filled || status_eq status rejected || status_eq status cancelled

-- `position.symbol !== symbol || position.provenance !== "ALPACA_RECONCILED" || !finite`
unfoldable pub is_untrusted : {F : Type 0} ⦃num : Num F⦄ → String → BrokerPositionSnapshot F → Bool
is_untrusted symbol position =
    not (str_eq position.symbol symbol)
    || not (str_eq position.provenance "ALPACA_RECONCILED")
    || not (is_finite position.quantity)

-- `now - (timestamp + 60_000) > EMA_RSI_V1_MAX_LIVE_BAR_AGE_MS`
unfoldable pub is_stale : ℕ → ℕ → Bool
is_stale now timestamp = ltb (timestamp + 60000 + 120000) now

abbrev pub is_empty : {A : Type 0} → List A → Bool
is_empty [] = true
is_empty (_ ∷ _) = false

abbrev pub unclaimed : List StoredIntent → OpenBrokerOrder → Bool
unclaimed intents order =
    not (any (λ stored. str_eq (client_id stored.intent) order.client_order_id) intents)

abbrev pub contradiction : OpenBrokerOrder → String
contradiction order =
    "CONTRADICTORY_OPEN_BROKER_ORDER:"
    <> (if str_eq order.client_order_id ""
        then "MISSING_CLIENT_ORDER_ID"
        else order.client_order_id)

module _ {F S : Type 0} where
  abbrev pub scope_of : Setup F S → DurableWorkerScope
  scope_of env = record { worker_key = env.identity.worker_key; symbol = env.asset.symbol }

  abbrev pub may_reach_broker : Setup F S → Bool
  may_reach_broker env = elim env.identity.capability [
    | dispatch_capable ↦ true
    | read_only_durable ↦ false
  ]

  -- `this.broker()`, and the call of it
  unfoldable pub ask : {A : Type 0} → Setup F S → (S → Result A × S) → Action F S A
  ask env call =
      if may_reach_broker env then await env call else raise "RUNTIME_DISPATCH_CAPABILITY_REQUIRED"

  unfoldable pub store_record :
      Setup F S
      → WorkerLease
      → BrokerOrderState
      → Option String
      → Action F S (Option ExecutionStatus)
  store_record env lease state reason w =
      let (projected, orders) =
        record_broker_order (now env w) lease (scope_of env) state reason w.owners w.orders in
      (ok projected, record w { orders = orders })

  unfoldable pub record_broker_state : Setup F S → BrokerOrderState → Option String → Method F S
  unfolding store_record
  record_broker_state env state reason = do
    lease ← gets (λ w. w.worker.ownership)
    if_null lease (raise "DISPATCH_OWNERSHIP_REQUIRED") (λ held. do
      projected ← store_record env held state reason
      if_null projected (raise "BROKER_ORDER_OWNERSHIP_OR_CORRELATION_LOST")
          (λ status. set (λ k. record k { latest_order_state = some status })))

  unfoldable pub store_claim : Setup F S → WorkerLease → ExecutionIntent → Action F S Bool
  store_claim env lease intent w =
      let (claimed, o, r) =
        claim_intent_for_dispatch (now env w) lease intent (scope_of env) w.owners w.orders in
      (ok claimed, record w { owners = o; orders = r })

  -- `putIntent`
  abbrev pub store_intent : ExecutionIntent → Option String → Method F S
  store_intent intent reason = modify (λ w. record w { orders = put_intent intent reason w.orders })

  abbrev pub post_of :
      Setup F S → WorkerLease → ExecutionIntent → BrokerPositionSnapshot F → World F S → Post F S
  post_of env lease intent position w = record {
    intent = intent;
    position = position;
    lease = lease;
    at = now env w;
    owners = w.owners;
    orders = w.orders;
    outside = w.outside;
  }

  -- the call of `submit`
  unfoldable pub send_order :
      Setup F S
      → WorkerLease
      → ExecutionIntent
      → BrokerPositionSnapshot F
      → Action F S (Option BrokerOrderState)
  send_order env lease intent position =
      if not (may_reach_broker env) then raise "RUNTIME_DISPATCH_CAPABILITY_REQUIRED" else do
        modify (λ w. record w { submitted = post_of env lease intent position w ∷ w.submitted })
        state ← await env (env.broker.submit intent position)
        pure (some state)

  -- `withDispatchAuthority` around `submit`: `none` is the refusal. The order goes out while the
  -- row of the lease is locked, so the other processes come after it.
  unfoldable pub submit_with_authority :
      Setup F S
      → WorkerLease
      → ExecutionIntent
      → BrokerPositionSnapshot F
      → Action F S (Option BrokerOrderState)
  unfolding send_order
  submit_with_authority env lease intent position w =
      let (allowed, o) =
        with_dispatch_authority (now env w) lease intent.intent_id (scope_of env) w.owners
          w.orders in
      let w' = record w { owners = o } in
      let sent = record intent { status = pending } in
      if not allowed then (ok none, w') else send_order env lease sent position w'

  -- `dispatch` from the claim on
  unfoldable pub claim_and_submit :
      Setup F S → ExecutionIntent → BrokerPositionSnapshot F → WorkerLease → Method F S
  unfolding store_claim submit_with_authority lost_to_other record_broker_state halt
  claim_and_submit env intent position lease = do
    claimed ← store_claim env lease intent
    if not claimed then lost_to_other env else do
      submitted ← submit_with_authority env lease intent position
      if_null submitted (lost_to_other env) (λ state. do
        record_broker_state env state none
        when (status_eq state.status unknown) (halt env "UNKNOWN_SUBMISSION_REQUIRES_RECOVERY"))

  -- `dispatch` once no order is open: the broker's view of the intent, and then the claim
  unfoldable pub resolve_and_submit :
      Setup F S → ExecutionIntent → BrokerPositionSnapshot F → Method F S
  unfolding ask record_broker_state claim_and_submit
  resolve_and_submit env intent position = do
    reconciled ← ask env (env.broker.reconcile intent)
    record_broker_state env reconciled none
    if is_found reconciled.lookup_state || not (status_eq reconciled.status pending)
        then skip
        else do
          lease ← gets (λ w. w.worker.ownership)
          if_null lease (raise "DISPATCH_OWNERSHIP_REQUIRED") (claim_and_submit env intent position)

abbrev pub reconciled_at : {F : Type 0} → ℕ → Worker F → Worker F
reconciled_at time k = record k {
  checkpoint = record k.checkpoint {
    last_reconciliation_timestamp = some time;
    halt_reason = none;
  };
}

module _ {F : Type 0} ⦃num : Num F⦄ where
  -- `Math.max(prior ?? equity, equity)`
  abbrev pub raised : F → Option F → F
  raised equity prior = max_num (or_else prior equity) equity

  abbrev pub with_equity : F → Worker F → Worker F
  with_equity equity k = record k {
    checkpoint = record k.checkpoint {
      last_paper_equity = some equity;
      paper_equity_high_water = some (raised equity k.checkpoint.paper_equity_high_water);
    };
  }

  unfoldable pub paper_equity_drawdown : Worker F → Option F
  paper_equity_drawdown k = elim k.checkpoint.last_paper_equity [
    | none ↦ none
    | some equity ↦ elim k.checkpoint.paper_equity_high_water [
      | none ↦ none
      | some high_water ↦
          if not (is_finite equity) || not (is_finite high_water) || high_water ≤F int 0
          then none
          else some (max_num (int 0) ((high_water -F equity) /F high_water))
    ]
  ]

module _ {F S : Type 0} ⦃num : Num F⦄ where
  unfoldable pub is_live_bar_stale : Setup F S → ℕ → World F S → Bool
  unfolding is_stale
  is_live_bar_stale env timestamp w = is_stale (now env w) timestamp

  -- The position is one to rely on, and is kept. (`appendBrokerPosition` of the class keeps nothing.)
  unfoldable pub accept_position : Setup F S → BrokerPositionSnapshot F → Method F S
  unfolding is_untrusted
  accept_position env position =
      if is_untrusted env.asset.symbol position
      then raise "BROKER_POSITION_RECONCILIATION_REQUIRED"
      else set (λ k. record k { broker_position = some position })

  unfoldable pub dispatch : Setup F S → ExecutionIntent → Method F S
  unfolding is_live_bar_stale accept_position ask resolve_and_submit
  dispatch env intent = do
    stale ← gets (λ w.
        is_live_bar_stale env
          (or_else w.worker.checkpoint.latest_raw_bar_timestamp intent.created_at_timestamp) w)
    if stale
        then store_intent (record intent { status = cancelled }) (some "LATEST_LIVE_BAR_STALE")
        else do
          position ← ask env env.broker.position
          accept_position env position
          orders ← ask env env.broker.open_orders
          set (λ k. record k { open_orders = orders })
          if not (is_empty orders)
              then store_intent intent (some "OPEN_ORDER_CONFLICT")
              else resolve_and_submit env intent position

  unfoldable pub refresh_paper_equity : Setup F S → Method F S
  unfolding ask persist_checkpoint
  refresh_paper_equity env = do
    lost ← gets (λ w. w.worker.requires_high_water_recovery)
    if lost then raise "PAPER_EQUITY_HIGH_WATER_RECOVERY_REQUIRED" else do
      account ← ask env env.broker.account
      if not (str_eq account.provenance "ALPACA_PAPER_ACCOUNT")
            || not (is_finite account.equity)
            || account.equity ≤F int 0
          then raise "PAPER_EQUITY_UNAVAILABLE"
          else do set (with_equity account.equity); persist_checkpoint env

  -- One intent of the loop of `reconcileInternal`
  unfoldable pub reconcile_intent : Setup F S → StoredIntent → Method F S
  unfolding terminal ask record_broker_state dispatch
  reconcile_intent env stored = if terminal stored.intent.status then skip else do
    state ← ask env (env.broker.reconcile stored.intent)
    if status_eq stored.intent.status submission_attempted && is_absent state.lookup_state
        then raise "SUBMISSION_ATTEMPTED_RECOVERY_REQUIRED"
        else do
          record_broker_state env state stored.dispatch_block_reason
          if status_eq state.status unknown
              then raise "UNKNOWN_SUBMISSION_REQUIRES_RECOVERY"
              else when
                  (status_eq stored.intent.status pending
                    && is_absent state.lookup_state
                    && status_eq state.status pending)
                  (dispatch env stored.intent)

  unfoldable pub reconcile_intents : Setup F S → List StoredIntent → Method F S
  reconcile_intents env [] = skip
  reconcile_intents env (stored ∷ rest) = reconcile_intent env stored >> reconcile_intents env rest

  -- `reconcileInternal` after the update of the run
  unfoldable pub reconcile_with_broker : Setup F S → Method F S
  unfolding refresh_paper_equity accept_position ask reconcile_intents
  reconcile_with_broker env = do
    refresh_paper_equity env
    stopped ← gets (λ w. w.worker.is_stopped)
    if stopped then skip else do
      position ← ask env env.broker.position
      stopped' ← gets (λ w. w.worker.is_stopped)
      if stopped' then skip else do
        accept_position env position
        orders ← ask env env.broker.open_orders
        set (λ k. record k { open_orders = orders })
        intents ← gets (λ w. list_intents env.asset.symbol env.identity.worker_key w.orders)
        if_null (find (unclaimed intents) orders)
            (do reconcile_intents env intents; time ← gets (now env); set (reconciled_at time))
            (λ order. raise (contradiction order))

  unfoldable pub reconcile_internal : Setup F S → Method F S
  unfolding store_run lose_ownership reconcile_with_broker
  reconcile_internal env = do
    set_state reconciling
    run ← gets (λ w. w.worker.current_run)
    if_null run (raise "WORKER_RUN_REQUIRED") (λ run_id. do
      fenced ← catching (store_run env run_id none >> pure false) (λ e.
          if is_lifecycle_update_rejected e
          then lose_ownership env "DISPATCH_OWNERSHIP_LOST" >> pure true
          else raise e)
      if fenced then skip else reconcile_with_broker env)

  -- The method `reconcile`
  unfoldable pub reconcile : Setup F S → Method F S
  unfolding reconcile_internal persist_checkpoint store_run halt
  reconcile env = do
    idle ← gets (λ w. is_in halted w || w.worker.is_stopped)
    if idle || not (may_reach_broker env)
        then skip
        else catching
            (do
              reconcile_internal env
              stopped ← gets (λ w. w.worker.is_stopped)
              if stopped then skip else do
                set_state ready
                persist_checkpoint env
                run ← gets (λ w. or_else w.worker.current_run "")
                store_run env run none)
            (λ e. do
              stopped ← gets (λ w. w.worker.is_stopped)
              if stopped then skip else halt env e)
