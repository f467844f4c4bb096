-- ===== src/Tests/Broker.antt =====
-- The broker's port and the authority of an asset at concrete inputs.
use thelight.Common.{◌≡◌, refl, ◌≢◌, ◌↔◌, false, none, some, List, [], ◌∷◌}
use thelight.Common.Int.{ℤ, pos}
use thelight.Types.{pending, partially_filled}
use thelight.Order.{BrokerOrderState, found}
use thelight.Asset.{spy_spec, btc_usd_spec}
use thelight.Asset.Identity.{
  ema_trend_arm_c, worker_runtime_identity_for, assert_dispatch_capable, assert_read_only_durable,
}
use thelight.Asset.Authority.{dispatch_only_spy}
use thelight.Broker.Reply.{OrderBody, no_reply, reply}
use thelight.Broker.Execution.{
  BrokerPositionSnapshot, submit, submit_after, post_order, reconcile, absent_state,
  state_of_intent,
}
use thelight.Broker.Submission.{uncertain_never_reposts, Attempt, posts_of, never_shown}
use thelight.Broker.Updates.{TradeUpdate}
use thelight.Tests.Numbers.{thousandths}
use thelight.Tests.Sample.{intent_in}

abbrev position : BrokerPositionSnapshot ℤ
position = record {
  symbol = "SPY";
  quantity = pos 0;
  reconciled_at = 1000;
  provenance = "ALPACA_RECONCILED";
}

abbrev order : OrderBody
order = record {
  id = some "b1";
  client_order_id = some "llp-d";
  symbol = some "SPY";
  status = some "accepted";
  updated_at = none;
}

-- Two later calls: the lookup finds nothing, then fails.
abbrev later : List (Attempt ℤ)
later =
    record { position = position; get = reply 404 none; post = reply 200 (some order) }
    ∷ record { position = position; get = reply 500 none; post = no_reply }
    ∷ []

uncertain_never_reposts_example :
    posts_of "SPY"
      (intent_in pending)
      (submit "SPY" (intent_in pending) position false [] (reply 404 none) no_reply).uncertain
      later
    ≡ []
unfolding submit submit_after post_order reconcile absent_state state_of_intent never_shown
uncertain_never_reposts_example =
    uncertain_never_reposts "SPY" (intent_in pending) position false [] (reply 404 none) later
      (λ e. cc) refl

abbrev update : TradeUpdate
update = record { stream = "trade_updates"; event = some "partial_fill"; order = some order }

abbrev partial_state : BrokerOrderState
partial_state = record {
  decision_id = "d";
  intent_id = "d:intent";
  client_order_id = "llp-d";
  broker_order_id = some "b1";
  status = partially_filled;
  updated_at = none;
  raw_status = some "accepted";
  lookup_state = found;
}

dispatch_only_spy_example :
    ((assert_dispatch_capable (worker_runtime_identity_for btc_usd_spec ema_trend_arm_c) ≡ some tt)
      ↔ (btc_usd_spec ≡ spy_spec))
    × ((assert_read_only_durable (worker_runtime_identity_for btc_usd_spec ema_trend_arm_c)
          ≡ some tt)
        ↔ (btc_usd_spec ≢ spy_spec))
dispatch_only_spy_example = dispatch_only_spy btc_usd_spec ema_trend_arm_c
