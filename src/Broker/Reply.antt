-- ===== src/Broker/Reply.antt =====
-- Replies of the broker's HTTP service, errors, and the status texts of its orders.
use thelight.Common.{
  ℕ, String, str_eq, Bool, ◌&&◌, ◌||◌, Option, none, some, leb, ltb, ◌==◌, if◌then◌else◌,
}
use thelight.Types.{
  ExecutionStatus, accepted, rejected, unknown, partially_filled, filled, cancelled,
}

-- The fields of an order that the port reads. A missing field is `none`.
pub record OrderBody : Type 0 where
  pub id : Option String
  pub client_order_id : Option String
  pub symbol : Option String
  pub status : Option String
  pub updated_at : Option String

-- `no_reply`: `fetch` throws, for a dead connection or an abort by the timeout. A body that is not
-- JSON is `none`.
pub data Reply (Body : Type 0) : Type 0 where
  no_reply : Reply Body
  reply : ℕ → Option Body → Reply Body

-- What a method throws: an `AlpacaTransportError` of a kind, the error of `fetch` or of the JSON
-- parser, or an `Error` with a text.
pub data BrokerError : Type 0 where
  authentication_failure http_failure no_response : BrokerError
  position_reconciliation_required invalid_broker_position : BrokerError

pub data Outcome (A : Type 0) : Type 0 where
  returned : A → Outcome A
  thrown : BrokerError → Outcome A

-- `response.ok`
abbrev pub is_ok : ℕ → Bool
is_ok code = leb 200 code && ltb code 300

abbrev pub is_unauthorized : ℕ → Bool
is_unauthorized code = code == 401 || code == 403

-- `String(x ?? "") || null`
abbrev pub text_or_null : Option String → Option String
text_or_null none = none
text_or_null (some s) = if str_eq s "" then none else some s

-- `orderStatus`; a status that is not a text falls to the default.
unfoldable pub order_status_of : String → ExecutionStatus
order_status_of s =
    if str_eq s "accepted"
      || str_eq s "new"
      || str_eq s "pending_new"
      || str_eq s "accepted_for_bidding"
    then accepted
    else if str_eq s "partially_filled"
    then partially_filled
    else if str_eq s "filled"
    then filled
    else if str_eq s "rejected"
    then rejected
    else if str_eq s "canceled" || str_eq s "expired" || str_eq s "done_for_day"
    then cancelled
    else unknown

unfoldable pub order_status : OrderBody → ExecutionStatus
unfolding order_status_of
order_status order = elim order.status [ none ↦ unknown | some s ↦ order_status_of s ]
