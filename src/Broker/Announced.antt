-- ===== src/Broker/Announced.antt =====
-- What a message of the stream that is read says of the intent, and how the intent moves.
use thelight.Common.{◌≢◌, or_else, ◌≡◌, ◌⊎◌, String, str_eq, Bool, ◌||◌, some}
use thelight.Types.{
  ExecutionIntent, ExecutionStatus, accepted, rejected, partially_filled, filled, cancelled,
}
use thelight.Broker.Reply.{OrderBody}
use thelight.Broker.Updates.{TradeUpdate}

-- What a message must be to say something about an intent: it is from the stream of order updates, and
-- its order has the intent's client id, the symbol, and an id of its own that is not empty.
abbrev pub IsAbout : TradeUpdate → ExecutionIntent → String → OrderBody → Type 0
IsAbout update intent symbol order =
    (update.stream ≡ "trade_updates")
    × (update.order ≡ some order)
    × (order.client_order_id ≡ some (or_else intent.client_order_id intent.intent_id))
    × (order.symbol ≡ some symbol)
    × ((id : String) × (order.id ≡ some id) × (id ≢ ""))

-- The broker's word for a status
abbrev pub Announces : String → ExecutionStatus → Type 0
Announces s status =
    ((status ≡ accepted)
      × ((s ≡ "accepted") ⊎ (s ≡ "pending_new") ⊎ (s ≡ "new") ⊎ (s ≡ "accepted_for_bidding")))
    ⊎ ((status ≡ partially_filled) × (s ≡ "partial_fill"))
    ⊎ ((status ≡ filled) × (s ≡ "fill"))
    ⊎ ((status ≡ cancelled) × ((s ≡ "canceled") ⊎ (s ≡ "expired") ⊎ (s ≡ "done_for_day")))
    ⊎ ((status ≡ rejected) × (s ≡ "rejected"))

accepting : String → Bool
accepting s =
    str_eq s "accepted"
    || str_eq s "pending_new"
    || str_eq s "new"
    || str_eq s "accepted_for_bidding"

cancelling : String → Bool
cancelling s = str_eq s "canceled" || str_eq s "expired" || str_eq s "done_for_day"
