-- ===== src/Order.antt =====
-- What is known of a broker order, and how an observation moves the status of its intent:
-- `BrokerOrderState` of src/lib/lightlight/alpaca.server.ts and `projectedBrokerStatus` of
-- src/lib/lightlight/alpaca-worker-store.server.ts.
pub mod Monotone
use thelight.Common.{
  ℕ, String, str_eq, Bool, true, false, ◌&&◌, ◌||◌, not, Option, none, some, if◌then◌else◌,
}
use thelight.Types.{
  ExecutionStatus, pending, submission_attempted, accepted, rejected, unknown, partially_filled,
  filled, cancelled,
}

-- Whether the latest broker lookup found an order.
pub data Lookup : Type 0 where
  found absent unresolved : Lookup

pub record BrokerOrderState : Type 0 where
  pub decision_id : String
  pub intent_id : String
  pub client_order_id : String
  pub broker_order_id : Option String
  pub status : ExecutionStatus
  pub updated_at : Option String
  pub raw_status : Option String
  pub lookup_state : Lookup

-- A text or `null` as a condition: `null` and the empty text count as false.
abbrev pub truthy : Option String → Bool
truthy none = false
truthy (some s) = not (str_eq s "")

-- `===` on statuses and on lookups
abbrev pub status_eq : ExecutionStatus → ExecutionStatus → Bool
status_eq pending pending = true
status_eq submission_attempted submission_attempted = true
status_eq accepted accepted = true
status_eq rejected rejected = true
status_eq unknown unknown = true
status_eq partially_filled partially_filled = true
status_eq filled filled = true
status_eq cancelled cancelled = true
status_eq _ _ = false

abbrev pub is_found : Lookup → Bool
is_found found = true
is_found _ = false

abbrev pub is_absent : Lookup → Bool
is_absent absent = true
is_absent _ = false

-- `terminalStatus`, and `terminal` of the worker
unfoldable pub terminal_status : ExecutionStatus → Bool
terminal_status status =
    status_eq status filled || status_eq status rejected || status_eq status cancelled

-- `projectedBrokerStatus`, its tests in their order
unfoldable pub projected_broker_status : ExecutionStatus → BrokerOrderState → ExecutionStatus
unfolding terminal_status
projected_broker_status current state =
    if terminal_status current
    then current
    else if is_absent state.lookup_state
    then (if status_eq current submission_attempted
          && status_eq state.status cancelled
          && not (truthy state.broker_order_id)
          && not (truthy state.raw_status)
        then cancelled
        else current)
    else if status_eq state.status unknown
    then (if status_eq current accepted || status_eq current partially_filled
        then current
        else unknown)
    else if status_eq state.status pending || status_eq state.status submission_attempted
    then current
    else if not (is_found state.lookup_state)
        && not (status_eq state.status rejected)
        && not (status_eq state.status cancelled)
    then current
    else if not (is_found state.lookup_state)
        && (status_eq current accepted || status_eq current partially_filled)
    then current
    else if status_eq state.status accepted && status_eq current partially_filled
    then current
    else state.status
