-- ===== src/Broker/Updates.antt =====
-- `brokerStateFromTradeUpdate`: the broker's stream of order updates, seen from one intent.
use thelight.Common.{
  any, List, [], ◌∷◌, String, str_eq, Bool, ◌&&◌, ◌||◌, not, Option, none, some, if◌then◌else◌,
}
use thelight.Types.{
  ExecutionIntent, ExecutionStatus, accepted, rejected, partially_filled, filled, cancelled,
}
use thelight.Order.{found, BrokerOrderState, truthy}
use thelight.Store.Intents.{client_id, text_is}
use thelight.Broker.Reply.{OrderBody, text_or_null}
use thelight.Broker.Execution.{state_of_intent}

-- A message of the stream; `order` is `none` where it is missing or no object.
pub record TradeUpdate : Type 0 where
  pub stream : String
  pub event : Option String
  pub order : Option OrderBody

-- What `eventStatus[event]` is: `undefined`, a status, or a property that every object inherits, which
-- is truthy and no status.
pub data EventStatus : Type 0 where
  unlisted : EventStatus
  listed : ExecutionStatus → EventStatus
  inherited : EventStatus

-- The names of the properties of `Object.prototype`
abbrev inherited_names : List String
inherited_names =
    "constructor" ∷ "hasOwnProperty" ∷ "isPrototypeOf" ∷ "propertyIsEnumerable" ∷ "toLocaleString"
    ∷ "toString" ∷ "valueOf" ∷ "__proto__" ∷ "__defineGetter__" ∷ "__defineSetter__"
    ∷ "__lookupGetter__" ∷ "__lookupSetter__" ∷ []

unfoldable pub event_status : String → EventStatus
event_status s =
    if str_eq s "accepted"
      || str_eq s "pending_new"
      || str_eq s "new"
      || str_eq s "accepted_for_bidding"
    then listed accepted
    else if str_eq s "partial_fill"
    then listed partially_filled
    else if str_eq s "fill"
    then listed filled
    else if str_eq s "canceled" || str_eq s "expired" || str_eq s "done_for_day"
    then listed cancelled
    else if str_eq s "rejected"
    then listed rejected
    else if any (str_eq s) inherited_names
    then inherited
    else unlisted

-- `status`: what a message announces
abbrev pub announced : TradeUpdate → EventStatus
announced update = elim update.event [ none ↦ unlisted | some s ↦ event_status s ]

-- The order of the message is the intent's.
unfoldable pub matches : OrderBody → ExecutionIntent → String → Bool
matches order intent symbol =
    text_is order.client_order_id (client_id intent)
    && text_is order.symbol symbol
    && truthy order.id

abbrev pub first_text : Option String → Option String → Option String
first_text none other = text_or_null other
first_text (some s) other = text_or_null (some s)

abbrev pub state_of_update :
    TradeUpdate → ExecutionIntent → OrderBody → ExecutionStatus → BrokerOrderState
state_of_update update intent order status =
    state_of_intent intent status order.id (text_or_null order.updated_at)
      (first_text order.status update.event) found

-- The answer: `null`, a state, or a state whose status is the inherited property.
pub data Reading : Type 0 where
  unread : Reading
  read : BrokerOrderState → Reading
  garbled : Reading

unfoldable pub broker_state_from_trade_update : TradeUpdate → ExecutionIntent → String → Reading
unfolding matches event_status
broker_state_from_trade_update update intent symbol =
    if not (str_eq update.stream "trade_updates") then unread else elim update.order [
      | none ↦ unread
      | some order ↦ if not (matches order intent symbol) then unread else elim (announced update) [
        | unlisted ↦ unread
        | listed status ↦ read (state_of_update update intent order status)
        | inherited ↦ garbled
      ]
    ]
