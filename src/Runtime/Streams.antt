-- ===== src/Runtime/Streams.antt =====
-- The events of the streams: `processRawBarInternal`, `processRawBar`, `recoverStartupFeatureGaps`,
-- `processTradeUpdate`, the errors of the two streams and their reconnects. What waits for a timer or
-- for the transport is a method of its own here. A promise that the source does not await (`void`) is
-- dropped with its error.
use thelight.Common.{
  ℕ, ◌+◌, ◌-◌, ◌*◌, ◌%◌, ◌^◌, String, str_eq, Bool, true, false, ◌&&◌, ◌||◌, not, Option, none,
  some, List, [], ◌∷◌, ◌++◌, ◌==◌, or_else, is_some, find, any, max, min, if◌then◌else◌,
}
use thelight.Number.{Num}
use thelight.Types.{ClosedBar}
use thelight.Market.{bucket_start}
use thelight.Store.Data.{live_ws, MarketBarWriteResult, identical, conflict, ready, halted}
use thelight.Store.Bars.{latest_closed_bar_timestamp, list_closed_bars}
use thelight.Store.Checkpoint.{connecting, connected, degraded, stream_reconciling}
use thelight.Store.Intents.{client_id, list_intents}
use thelight.Broker.Reply.{text_or_null}
use thelight.Broker.Updates.{TradeUpdate, broker_state_from_trade_update, unread, read, garbled}
use thelight.Worker.Gaps.{Gap, startup_gaps, expected_live_gap}
use thelight.Runtime.World.{Worker, World, Setup}
use thelight.Runtime.Actions.{
  Method, ◌>>=◌, ◌>>◌, skip, raise, gets, modify, set, catching, finally, if_null, when, now,
}
use thelight.Runtime.Ownership.{is_in, persist_checkpoint, halt}
use thelight.Runtime.Broker.{record_broker_state, reconcile}
use thelight.Runtime.Bars.{
  decision_width_ms, feature_decision_observations, session_open, process_completed_decision_bars,
}
use thelight.Runtime.Recovery.{observation_of, store_bar, enter_rebuilding, recover_gap}

abbrev pub is_identical : MarketBarWriteResult → Bool
is_identical identical = true
is_identical _ = false

abbrev pub is_clash : MarketBarWriteResult → Bool
is_clash conflict = true
is_clash _ = false

-- `Math.max(0, Math.min(30_000, 250 * 2 ** (attempt - 1)))`, without the delay that a test injects
unfoldable pub reconnect_delay : ℕ → ℕ
reconnect_delay attempt = max 0 (min 30000 (250 * 2 ^ (attempt - 1)))

-- `clientOrderId` of a message: its order's, if there is one and it is not empty
unfoldable pub update_client_id : TradeUpdate → Option String
update_client_id update = elim update.order [
  | none ↦ none
  | some order ↦ text_or_null order.client_order_id
]

module _ {F : Type 0} where
  abbrev pub with_raw_bar : ℕ → Worker F → Worker F
  with_raw_bar t k = record k {
    checkpoint = record k.checkpoint {
      latest_raw_bar_timestamp = some (max (or_else k.checkpoint.latest_raw_bar_timestamp 0) t);
    };
  }

module _ {F S : Type 0} where
  abbrev pub is_running : World F S → Bool
  is_running w = is_in ready w && not w.worker.is_stopped

  -- `void this.persistCheckpoint()`
  unfoldable pub persist_aside : Setup F S → Method F S
  unfolding persist_checkpoint
  persist_aside env = catching (persist_checkpoint env) (λ _. skip)

module _ {F S : Type 0} ⦃num : Num F⦄ where
  -- `processRawBarInternal` after the checks on the state and the timestamp
  unfoldable pub accept_raw_bar : Setup F S → ClosedBar F → Method F S
  unfolding store_bar enter_rebuilding persist_checkpoint expected_live_gap recover_gap
      process_completed_decision_bars
  accept_raw_bar env bar = do
    time ← gets (now env)
    prior ← gets (λ w. w.worker.checkpoint.latest_raw_bar_timestamp)
    write ←
        store_bar
          (record (observation_of env "" time bar) { origin = live_ws; recovery_attempt_id = none })
    if is_clash write
        then enter_rebuilding env "LIVE_BAR_CONFLICT" none
        else if is_identical write
        then skip
        else do
          set (with_raw_bar bar.t)
          persist_checkpoint env
          if_null (expected_live_gap (session_open env) env.day prior bar.t)
              (process_completed_decision_bars env
                (some (bucket_start (decision_width_ms env.arm) bar.t)) false)
              (λ g. recover_gap env g time false)

  unfoldable pub process_raw_bar : Setup F S → ClosedBar F → Method F S
  unfolding accept_raw_bar halt
  process_raw_bar env bar =
      catching
        (do
          idle ← gets (λ w. not (is_in ready w))
          if idle || not (bar.t % 60000 == 0) then skip else accept_raw_bar env bar)
        (halt env)

  unfoldable pub recover_gaps : Setup F S → List Gap → ℕ → Method F S
  unfolding recover_gap
  recover_gaps env [] detected_at = skip
  recover_gaps env (g ∷ gaps) detected_at =
      recover_gap env g detected_at true >> recover_gaps env gaps detected_at

  -- The minutes that the store has no bar of, in the span that the features need
  unfoldable pub missing_at_startup : Setup F S → ℕ → World F S → List Gap
  unfolding startup_gaps
  missing_at_startup env latest w =
      let start = latest - (feature_decision_observations + 1) * decision_width_ms env.arm in
      let raw = list_closed_bars env.asset.symbol start latest w.market.bars in
      startup_gaps (session_open env) (λ t. any (λ bar. bar.t % 60000 == 0 && bar.t == t) raw) start
        latest

  unfoldable pub recover_startup_feature_gaps : Setup F S → Method F S
  unfolding missing_at_startup recover_gaps process_completed_decision_bars
  recover_startup_feature_gaps env = do
    newest ← gets (λ w. latest_closed_bar_timestamp env.asset.symbol w.market.bars)
    if_null newest skip (λ latest. do
      set (with_raw_bar latest)
      gaps ← gets (missing_at_startup env latest)
      time ← gets (now env)
      recover_gaps env gaps time
      process_completed_decision_bars env none true)

  -- A state whose status is an inherited property would write a value that is no status; the model ends
  -- the method with an error there.
  unfoldable pub project_update : Setup F S → TradeUpdate → String → Method F S
  unfolding record_broker_state
  project_update env update client_order_id = do
    intents ← gets (λ w. list_intents env.asset.symbol env.identity.worker_key w.orders)
    if_null (find (λ stored. str_eq (client_id stored.intent) client_order_id) intents) skip
        (λ stored. elim (broker_state_from_trade_update update stored.intent env.asset.symbol) [
          | unread ↦ skip
          | read state ↦ record_broker_state env state stored.dispatch_block_reason
          | garbled ↦ raise "INHERITED_EVENT_STATUS"
        ])

  unfoldable pub process_trade_update : Setup F S → TradeUpdate → Method F S
  unfolding project_update persist_checkpoint update_client_id
  process_trade_update env update = do
    modify (λ w. record w { updates = w.updates ++ (update, update_client_id update) ∷ [] })
    time ← gets (now env)
    set (λ k. record k { last_trade_update = some time })
    idle ← gets (λ w. not (is_some w.worker.ownership) || w.worker.is_stopped || is_in halted w)
    if idle then skip else do
      if_null (update_client_id update) skip (project_update env update)
      persist_checkpoint env

  -- The callback that `connectTradeUpdates` gives to the transport: an update that cannot be processed
  -- halts the worker.
  unfoldable pub receive_trade_update : Setup F S → TradeUpdate → Method F S
  unfolding process_trade_update halt
  receive_trade_update env update = catching (process_trade_update env update) (halt env)

  -- `connectTradeUpdates`, of a transport that does not fail while it connects
  unfoldable pub connect_trade_updates : Setup F S → Method F S
  unfolding persist_aside
  connect_trade_updates env = do
    idle ← gets (λ w. w.worker.is_listening || w.worker.is_stopped)
    if idle || not env.has_trade_updates then skip else do
      set (λ k. record k { trade_stream = connecting; is_listening = true })
      persist_aside env

  -- The subscription is acknowledged; `generation` is the one at the connect.
  unfoldable pub trade_updates_ready : Setup F S → ℕ → Method F S
  unfolding persist_aside
  trade_updates_ready env generation = do
    going ← gets (λ w. w.worker.reconnect_generation == generation && is_running w)
    when going (set (λ k. record k { trade_stream = connected }) >> persist_aside env)

  unfoldable pub schedule_trade_reconnect : Setup F S → Method F S
  schedule_trade_reconnect env = do
    going ← gets (λ w. not w.worker.trade_reconnect_scheduled && is_running w)
    when (going && env.has_trade_updates) (
        set (λ k. record k {
          trade_reconnect_scheduled = true;
          trade_reconnect_attempt = k.trade_reconnect_attempt + 1;
        }))

  -- After the delay; `generation` is the one at the schedule.
  unfoldable pub trade_reconnect_due : Setup F S → ℕ → Method F S
  unfolding connect_trade_updates
  trade_reconnect_due env generation = do
    set (λ k. record k { trade_reconnect_scheduled = false })
    going ← gets (λ w. w.worker.reconnect_generation == generation && is_running w)
    when going (connect_trade_updates env)

  unfoldable pub handle_trade_stream_error : Setup F S → Method F S
  unfolding persist_checkpoint reconcile schedule_trade_reconnect
  handle_trade_stream_error env = do
    idle ← gets (λ w.
        w.worker.is_stopped
        || is_in halted w
        || w.worker.trade_recovery_in_flight
        || w.worker.trade_reconnect_scheduled)
    if idle then skip else do
      set (λ k. record k {
        trade_recovery_in_flight = true;
        trade_stream = degraded;
        is_listening = false;
      })
      finally (do persist_checkpoint env; reconcile env; schedule_trade_reconnect env)
          (set (λ k. record k { trade_recovery_in_flight = false }))

  -- `startMarketConsumer`, and `consume` up to its first bar
  unfoldable pub start_market_consumer : Setup F S → Method F S
  unfolding persist_aside
  start_market_consumer env = do
    going ← gets (λ w. not w.worker.is_consuming && is_running w)
    when (going && env.has_source) (do
      set (λ k. record k { market_stream = connecting; is_consuming = true })
      persist_aside env
      set (λ k. record k { market_stream = connected })
      persist_aside env)

  unfoldable pub schedule_market_reconnect : Setup F S → Method F S
  schedule_market_reconnect env = do
    going ← gets (λ w. not w.worker.market_reconnect_scheduled && is_running w)
    when (going && env.has_source) (
        set (λ k. record k {
          market_reconnect_scheduled = true;
          market_reconnect_attempt = k.market_reconnect_attempt + 1;
        }))

  unfoldable pub market_reconnect_due : Setup F S → ℕ → Method F S
  unfolding start_market_consumer
  market_reconnect_due env generation = do
    set (λ k. record k { market_reconnect_scheduled = false })
    going ← gets (λ w. w.worker.reconnect_generation == generation && is_running w)
    when going (start_market_consumer env)

  -- `recoverMarketStream`; `reason` is how the stream came to its end.
  unfoldable pub recover_market_stream : Setup F S → String → Method F S
  unfolding persist_checkpoint reconcile halt schedule_market_reconnect
  recover_market_stream env reason = do
    idle ← gets (λ w. w.worker.is_stopped || is_in halted w)
    if idle then skip else do
      set (λ k. record k { market_stream = degraded })
      persist_checkpoint env
      set (λ k. record k { market_stream = stream_reconciling })
      catching (reconcile env >> schedule_market_reconnect env) (λ _. halt env reason)

  -- The `finally` of `consume`
  unfoldable pub market_stream_over : Setup F S → Bool → Method F S
  unfolding recover_market_stream
  market_stream_over env failed = do
    set (λ k. record k { is_consuming = false })
    recover_market_stream env (
        if failed
        then "MARKET_STREAM_DISCONNECTED_RECONCILIATION_FAILED"
        else "MARKET_STREAM_ENDED_RECONCILIATION_FAILED")
