-- ===== src/Store/Intents.antt =====
-- Decisions, intents and broker orders: `claimIntentForDispatch`, `withDispatchAuthority`,
-- `persistDecisionAndIntent`, `putIntent`, `listIntents`, `recordBrokerOrder` and
-- `latestBrokerOrder` of the class `MemoryAlpacaWorkerStore`.
use thelight.Common.{
  ℕ, String, str_eq, Bool, true, false, ◌&&◌, ◌||◌, not, Option, none, some, List, [], ◌∷◌, Dict,
  lookup, insert, if◌then◌else◌, or_else, is_some, find,
}
use thelight.Types.{Evidence, ExecutionIntent, ExecutionStatus, pending, submission_attempted}
use thelight.Order.{BrokerOrderState, status_eq, truthy, projected_broker_status}
use thelight.Store.Data.{WorkerLease, Ownership, DurableWorkerScope, StoredIntent, Orders}
use thelight.Store.Leases.{renew_ownership, is_current}

-- `o === s` for an optional text: `undefined` is no text.
abbrev pub text_is : Option String → String → Bool
text_is none s = false
text_is (some t) s = str_eq t s

-- `intent.clientOrderId ?? intent.intentId`
abbrev pub client_id : ExecutionIntent → String
client_id intent = or_else intent.client_order_id intent.intent_id

abbrev pub claimed : ExecutionIntent → StoredIntent
claimed intent = record {
  intent = record intent { status = submission_attempted };
  dispatch_block_reason = none;
}

abbrev pub has_decision : String → Dict StoredIntent → Bool
has_decision id [] = false
has_decision id ((k, stored) ∷ m) = str_eq stored.intent.decision_id id || has_decision id m

-- The latest observation of an intent that names a broker order.
abbrev pub prior_broker_order : String → List BrokerOrderState → Option BrokerOrderState
prior_broker_order intent_id posts =
    find (λ order. str_eq order.intent_id intent_id && truthy order.broker_order_id) posts

-- `a && b && a !== b`
abbrev pub contradicts : Option String → Option String → Bool
contradicts none b = false
contradicts (some a) none = false
contradicts (some a) (some b) = truthy (some a) && truthy (some b) && not (str_eq a b)

abbrev pub broker_order_of : Option BrokerOrderState → Option String
broker_order_of none = none
broker_order_of (some state) = state.broker_order_id

-- The stored intent after an observation: it is rewritten only if its status changes.
abbrev pub advanced : BrokerOrderState → Option String → StoredIntent → StoredIntent
advanced state block_reason stored =
    let status = projected_broker_status stored.intent.status state in
    if status_eq status stored.intent.status then stored else record {
      intent = record stored.intent { status = status };
      dispatch_block_reason = block_reason;
    }

module _ {F : Type 0} where
  abbrev pub symbol_of : Option (Evidence F) → Option String
  symbol_of none = none
  symbol_of (some e) = some e.symbol

  -- `this.decisions.get(id)?.symbol`
  abbrev pub decision_symbol : String → Orders F → Option String
  decision_symbol id r = symbol_of (lookup id r.decisions)

  -- The decision of an intent is of the scope's symbol and worker.
  unfoldable pub in_scope : DurableWorkerScope → String → Orders F → Bool
  in_scope scope decision_id r =
      text_is (decision_symbol decision_id r) scope.symbol
      && text_is (lookup decision_id r.decision_worker_keys) scope.worker_key

  -- The tests of `claimIntentForDispatch` and `withDispatchAuthority` on the stored intent.
  unfoldable pub may_dispatch :
      ExecutionStatus → WorkerLease → DurableWorkerScope → Bool → StoredIntent → Orders F → Bool
  may_dispatch status lease scope renewed stored r =
      str_eq lease.worker_key scope.worker_key
      && renewed
      && status_eq stored.intent.status status
      && in_scope scope stored.intent.decision_id r

  -- `claimIntentForDispatch`: the lease is renewed first, whatever the other tests say.
  unfoldable pub claim_intent_for_dispatch :
      ℕ
      → WorkerLease
      → ExecutionIntent
      → DurableWorkerScope
      → Ownership
      → Orders F
      → Bool × Ownership × Orders F
  claim_intent_for_dispatch now lease intent scope o r =
      let (current, o') = renew_ownership now lease 30 o in
      elim (lookup intent.intent_id r.intents) [
        | none ↦ (false, o', r)
        | some stored ↦
            if may_dispatch pending lease scope (is_some current) stored r
            then (
              true,
              o',
              record r { intents = insert intent.intent_id (claimed intent) r.intents },
            )
            else (false, o', r)
      ]

  -- `withDispatchAuthority`: whether `submit` is run. Nothing but the lease changes.
  unfoldable pub with_dispatch_authority :
      ℕ → WorkerLease → String → DurableWorkerScope → Ownership → Orders F → Bool × Ownership
  with_dispatch_authority now lease intent_id scope o r =
      let (current, o') = renew_ownership now lease 30 o in
      elim (lookup intent_id r.intents) [
        | none ↦ (false, o')
        | some stored ↦
            (may_dispatch submission_attempted lease scope (is_some current) stored r, o')
      ]

  -- The decision, its worker and its intent, written together.
  abbrev pub with_decision :
      String → Evidence F → ExecutionIntent → Option String → Orders F → Orders F
  with_decision worker_key evidence intent block_reason r = record r {
    decisions = insert evidence.id evidence r.decisions;
    decision_worker_keys = insert evidence.id worker_key r.decision_worker_keys;
    intents =
        insert intent.intent_id (record { intent = intent; dispatch_block_reason = block_reason })
          r.intents;
  }

  -- `persistDecisionAndIntent`: whether the decision was inserted; `none` is the error
  -- `DURABILITY_INVARIANT_DECISION_WITHOUT_INTENT`.
  unfoldable pub persist_decision_and_intent :
      String → Evidence F → ExecutionIntent → Option String → Orders F → Option (Bool × Orders F)
  persist_decision_and_intent worker_key evidence intent block_reason r =
      if is_some (lookup evidence.id r.decisions)
      then (if has_decision evidence.id r.intents then some (false, r) else none)
      else some (true, with_decision worker_key evidence intent block_reason r)

  -- `putIntent`
  unfoldable pub put_intent : ExecutionIntent → Option String → Orders F → Orders F
  put_intent intent block_reason r = record r {
    intents =
        insert intent.intent_id (record { intent = intent; dispatch_block_reason = block_reason })
          r.intents;
  }

  list_intents_from : String → String → Dict StoredIntent → Orders F → List StoredIntent
  list_intents_from symbol worker_key [] r = []
  list_intents_from symbol worker_key ((k, stored) ∷ m) r =
      let rest = list_intents_from symbol worker_key m r in
      if in_scope (record { worker_key = worker_key; symbol = symbol }) stored.intent.decision_id r
      then stored ∷ rest
      else rest

  -- `listIntents`, with the symbol and the worker that the worker always passes
  unfoldable pub list_intents : String → String → Orders F → List StoredIntent
  unfolding list_intents_from in_scope
  list_intents symbol worker_key r = list_intents_from symbol worker_key r.intents r

  -- The tests of `recordBrokerOrder` on the lease and on the stored intent.
  unfoldable pub may_record :
      ℕ
      → WorkerLease
      → DurableWorkerScope
      → BrokerOrderState
      → StoredIntent
      → Ownership
      → Orders F
      → Bool
  unfolding in_scope
  may_record now lease scope state stored o r =
      str_eq lease.worker_key scope.worker_key
      && is_current now lease (lookup lease.worker_key o.leases)
      && str_eq stored.intent.decision_id state.decision_id
      && str_eq (client_id stored.intent) state.client_order_id
      && in_scope scope state.decision_id r
      && not (
          contradicts state.broker_order_id
            (broker_order_of (prior_broker_order state.intent_id r.posts)))

  -- `recordBrokerOrder`: `none` is the returned `null`.
  unfoldable pub record_broker_order :
      ℕ
      → WorkerLease
      → DurableWorkerScope
      → BrokerOrderState
      → Option String
      → Ownership
      → Orders F
      → Option ExecutionStatus × Orders F
  unfolding may_record
  record_broker_order now lease scope state block_reason o r =
      elim (lookup state.intent_id r.intents) [
        | none ↦ (none, r)
        | some stored ↦
            if may_record now lease scope state stored o r
            then (
              some (projected_broker_status stored.intent.status state),
              record r {
                posts = state ∷ r.posts;
                intents = insert state.intent_id (advanced state block_reason stored) r.intents;
              },
            )
            else (none, r)
      ]

  -- `latestBrokerOrder`
  unfoldable pub latest_broker_order : String → Orders F → Option BrokerOrderState
  latest_broker_order intent_id r = find (λ state. str_eq state.intent_id intent_id) r.posts
