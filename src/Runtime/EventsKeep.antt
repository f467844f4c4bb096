-- ===== src/Runtime/EventsKeep.antt =====
-- Every event of a worker that is running advances the state, and `start` only sends authorized orders.
use thelight.Common.{ℕ, refl, String, Bool, true, false, Option, none, some, List, [], ◌∷◌}
use thelight.Number.{Num}
use thelight.Types.{ClosedBar}
use thelight.Store.Data.{StoredIntent}
use thelight.Broker.Updates.{
  TradeUpdate, Reading, unread, read, garbled, broker_state_from_trade_update,
}
use thelight.Worker.Gaps.{Gap}
use thelight.Market.{bucket_start}
use thelight.Runtime.Bars.{decision_width_ms}
use thelight.Runtime.World.{World, Setup}
use thelight.Runtime.Actions.{modify, skip, raise}
use thelight.Runtime.Broker.{record_broker_state}
use thelight.Runtime.Streams.{
  persist_aside, accept_raw_bar, process_raw_bar, recover_gaps, recover_startup_feature_gaps,
  project_update, process_trade_update, receive_trade_update, connect_trade_updates,
  trade_updates_ready, schedule_trade_reconnect, trade_reconnect_due, handle_trade_stream_error,
  start_market_consumer, schedule_market_reconnect, market_reconnect_due, recover_market_stream,
  market_stream_over,
}
use thelight.Runtime.Keeps.{
  Keeps, Keeps-bind, Keeps-catching, Keeps-finally, Keeps-if, Keeps-if_null, Keeps-when, Keeps-skip,
  Keeps-raise, Keeps-gets,
}
use thelight.Runtime.Advance.{IsOrdered, Milder-refl, FencedAdvance, FencedAdvance-IsPreorder}
use thelight.Runtime.Stepping.{fenced-step, fenced-assign}
use thelight.Runtime.Owned.{fenced-persist_checkpoint, fenced-halt}
use thelight.Runtime.Sending.{fenced-record_broker_state}
use thelight.Runtime.Reconciling.{fenced-reconcile}
use thelight.Runtime.BarsKeep.{
  fenced-process_completed, fenced-enter_rebuilding, fenced-store_bar, fenced-recover_gap,
}

module _ {F S : Type 0} ⦃num : Num F⦄ (env : Setup F S) (o : IsOrdered F) where
  fenced-persist_aside : Keeps (FencedAdvance env) (persist_aside env)
  unfolding persist_aside
  fenced-persist_aside =
      let r = FencedAdvance-IsPreorder env o in
      Keeps-catching r (fenced-persist_checkpoint env o) (λ _. Keeps-skip r)

  fenced-accept_raw_bar : (bar : ClosedBar F) → Keeps (FencedAdvance env) (accept_raw_bar env bar)
  unfolding accept_raw_bar
  fenced-accept_raw_bar bar =
      let r = FencedAdvance-IsPreorder env o in
      Keeps-bind r (Keeps-gets r _) (λ time. Keeps-bind r (Keeps-gets r _) (λ prior.
        Keeps-bind r (fenced-store_bar env o _) (λ write.
          Keeps-if r _ (fenced-enter_rebuilding env o _ none) (
            Keeps-if r _ (Keeps-skip r) (
              Keeps-bind r (fenced-assign env _ (λ k. refl) (λ k. refl) (λ k. refl) (λ k. refl))
                (λ _. Keeps-bind r (fenced-persist_checkpoint env o) (λ _.
                  Keeps-if_null r _
                    (fenced-process_completed env o
                      (some (bucket_start (decision_width_ms env.arm) bar.t)) false)
                    (λ g. fenced-recover_gap env o g time false))))))))

  pub fenced-process_raw_bar :
      (bar : ClosedBar F) → Keeps (FencedAdvance env) (process_raw_bar env bar)
  unfolding process_raw_bar
  fenced-process_raw_bar bar =
      let r = FencedAdvance-IsPreorder env o in
      Keeps-catching r
        (Keeps-bind r (Keeps-gets r _)
          (λ idle. Keeps-if r _ (Keeps-skip r) (fenced-accept_raw_bar bar)))
        (fenced-halt env o)

  fenced-recover_gaps :
      (gaps : List Gap) (detected_at : ℕ)
      → Keeps (FencedAdvance env) (recover_gaps env gaps detected_at)
  unfolding recover_gaps
  fenced-recover_gaps [] detected_at = Keeps-skip (FencedAdvance-IsPreorder env o)
  fenced-recover_gaps (g ∷ gaps) detected_at =
      Keeps-bind (FencedAdvance-IsPreorder env o) (fenced-recover_gap env o g detected_at true)
        (λ _. fenced-recover_gaps gaps detected_at)

  pub fenced-recover_startup : Keeps (FencedAdvance env) (recover_startup_feature_gaps env)
  unfolding recover_startup_feature_gaps
  fenced-recover_startup =
      let r = FencedAdvance-IsPreorder env o in
      Keeps-bind r (Keeps-gets r _) (λ newest. Keeps-if_null r newest (Keeps-skip r) (λ latest.
        Keeps-bind r (fenced-assign env _ (λ k. refl) (λ k. refl) (λ k. refl) (λ k. refl)) (λ _.
          Keeps-bind r (Keeps-gets r _) (λ gaps. Keeps-bind r (Keeps-gets r _) (λ time.
            Keeps-bind r (fenced-recover_gaps gaps time)
              (λ _. fenced-process_completed env o none true))))))

  reading-Keeps :
      (stored : StoredIntent) (reading : Reading)
      → Keeps (FencedAdvance env) (elim reading [
        | unread ↦ skip
        | read state ↦ record_broker_state env state stored.dispatch_block_reason
        | garbled ↦ raise "INHERITED_EVENT_STATUS"
      ])
  reading-Keeps stored unread = Keeps-skip (FencedAdvance-IsPreorder env o)
  reading-Keeps stored (read state) =
      fenced-record_broker_state env o state stored.dispatch_block_reason
  reading-Keeps stored garbled = Keeps-raise (FencedAdvance-IsPreorder env o) _

  fenced-project_update :
      (update : TradeUpdate) (id : String)
      → Keeps (FencedAdvance env) (project_update env update id)
  unfolding project_update
  fenced-project_update update id =
      let r = FencedAdvance-IsPreorder env o in
      Keeps-bind r (Keeps-gets r _) (λ intents. Keeps-if_null r _ (Keeps-skip r) (λ stored.
        reading-Keeps stored
          (broker_state_from_trade_update update stored.intent env.asset.symbol)))

  fenced-append_update :
      (f : World F S → List (TradeUpdate × Option String))
      → Keeps (FencedAdvance env) (modify (λ w. record w { updates = f w }))
  unfolding modify
  fenced-append_update f = fenced-step env (λ w. Milder-refl w.worker) (λ w. refl) (λ w. refl)

  pub fenced-process_trade_update :
      (update : TradeUpdate) → Keeps (FencedAdvance env) (process_trade_update env update)
  unfolding process_trade_update
  fenced-process_trade_update update =
      let r = FencedAdvance-IsPreorder env o in
      Keeps-bind r (fenced-append_update _) (λ _. Keeps-bind r (Keeps-gets r _) (λ time.
        Keeps-bind r (fenced-assign env _ (λ k. refl) (λ k. refl) (λ k. refl) (λ k. refl)) (λ _.
          Keeps-bind r (Keeps-gets r _) (λ idle. Keeps-if r idle (Keeps-skip r) (
            Keeps-bind r (Keeps-if_null r _ (Keeps-skip r) (fenced-project_update update))
              (λ _. fenced-persist_checkpoint env o))))))

  pub fenced-receive_trade_update :
      (update : TradeUpdate) → Keeps (FencedAdvance env) (receive_trade_update env update)
  unfolding receive_trade_update
  fenced-receive_trade_update update =
      let r = FencedAdvance-IsPreorder env o in
      Keeps-catching r (fenced-process_trade_update update) (fenced-halt env o)

  pub fenced-connect : Keeps (FencedAdvance env) (connect_trade_updates env)
  unfolding connect_trade_updates
  fenced-connect =
      let r = FencedAdvance-IsPreorder env o in
      Keeps-bind r (Keeps-gets r _) (λ idle. Keeps-if r _ (Keeps-skip r) (
        Keeps-bind r (fenced-assign env _ (λ k. refl) (λ k. refl) (λ k. refl) (λ k. refl))
          (λ _. fenced-persist_aside)))

  pub fenced-updates_ready : (g : ℕ) → Keeps (FencedAdvance env) (trade_updates_ready env g)
  unfolding trade_updates_ready
  fenced-updates_ready g =
      let r = FencedAdvance-IsPreorder env o in
      Keeps-bind r (Keeps-gets r _) (λ going. Keeps-when r going (
        Keeps-bind r (fenced-assign env _ (λ k. refl) (λ k. refl) (λ k. refl) (λ k. refl))
          (λ _. fenced-persist_aside)))

  fenced-schedule_trade : Keeps (FencedAdvance env) (schedule_trade_reconnect env)
  unfolding schedule_trade_reconnect
  fenced-schedule_trade =
      let r = FencedAdvance-IsPreorder env o in
      Keeps-bind r (Keeps-gets r _) (λ going.
        Keeps-when r _ (fenced-assign env _ (λ k. refl) (λ k. refl) (λ k. refl) (λ k. refl)))

  pub fenced-trade_due : (g : ℕ) → Keeps (FencedAdvance env) (trade_reconnect_due env g)
  unfolding trade_reconnect_due
  fenced-trade_due g =
      let r = FencedAdvance-IsPreorder env o in
      Keeps-bind r (fenced-assign env _ (λ k. refl) (λ k. refl) (λ k. refl) (λ k. refl))
        (λ _. Keeps-bind r (Keeps-gets r _) (λ going. Keeps-when r going fenced-connect))

  pub fenced-trade_error : Keeps (FencedAdvance env) (handle_trade_stream_error env)
  unfolding handle_trade_stream_error
  fenced-trade_error =
      let r = FencedAdvance-IsPreorder env o in
      Keeps-bind r (Keeps-gets r _) (λ idle. Keeps-if r idle (Keeps-skip r) (
        Keeps-bind r (fenced-assign env _ (λ k. refl) (λ k. refl) (λ k. refl) (λ k. refl)) (λ _.
          Keeps-finally r
            (Keeps-bind r (fenced-persist_checkpoint env o)
              (λ _. Keeps-bind r (fenced-reconcile env o) (λ _. fenced-schedule_trade)))
            (fenced-assign env _ (λ k. refl) (λ k. refl) (λ k. refl) (λ k. refl)))))

  pub fenced-consumer : Keeps (FencedAdvance env) (start_market_consumer env)
  unfolding start_market_consumer
  fenced-consumer =
      let r = FencedAdvance-IsPreorder env o in
      Keeps-bind r (Keeps-gets r _) (λ going. Keeps-when r _ (
        Keeps-bind r (fenced-assign env _ (λ k. refl) (λ k. refl) (λ k. refl) (λ k. refl)) (λ _.
          Keeps-bind r fenced-persist_aside (λ _.
            Keeps-bind r (fenced-assign env _ (λ k. refl) (λ k. refl) (λ k. refl) (λ k. refl))
              (λ _. fenced-persist_aside)))))

  fenced-schedule_market : Keeps (FencedAdvance env) (schedule_market_reconnect env)
  unfolding schedule_market_reconnect
  fenced-schedule_market =
      let r = FencedAdvance-IsPreorder env o in
      Keeps-bind r (Keeps-gets r _) (λ going.
        Keeps-when r _ (fenced-assign env _ (λ k. refl) (λ k. refl) (λ k. refl) (λ k. refl)))

  pub fenced-market_due : (g : ℕ) → Keeps (FencedAdvance env) (market_reconnect_due env g)
  unfolding market_reconnect_due
  fenced-market_due g =
      let r = FencedAdvance-IsPreorder env o in
      Keeps-bind r (fenced-assign env _ (λ k. refl) (λ k. refl) (λ k. refl) (λ k. refl))
        (λ _. Keeps-bind r (Keeps-gets r _) (λ going. Keeps-when r going fenced-consumer))

  fenced-recover_market :
      (reason : String) → Keeps (FencedAdvance env) (recover_market_stream env reason)
  unfolding recover_market_stream
  fenced-recover_market reason =
      let r = FencedAdvance-IsPreorder env o in
      Keeps-bind r (Keeps-gets r _) (λ idle. Keeps-if r idle (Keeps-skip r) (
        Keeps-bind r (fenced-assign env _ (λ k. refl) (λ k. refl) (λ k. refl) (λ k. refl)) (λ _.
          Keeps-bind r (fenced-persist_checkpoint env o) (λ _.
            Keeps-bind r (fenced-assign env _ (λ k. refl) (λ k. refl) (λ k. refl) (λ k. refl)) (λ _.
              Keeps-catching r (Keeps-bind r (fenced-reconcile env o) (λ _. fenced-schedule_market))
                (λ _. fenced-halt env o reason))))))

  pub fenced-market_over :
      (failed : Bool) → Keeps (FencedAdvance env) (market_stream_over env failed)
  unfolding market_stream_over
  fenced-market_over failed =
      Keeps-bind (FencedAdvance-IsPreorder env o)
        (fenced-assign env _ (λ k. refl) (λ k. refl) (λ k. refl) (λ k. refl))
        (λ _. fenced-recover_market _)
