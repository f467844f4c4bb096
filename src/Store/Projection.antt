-- ===== src/Store/Projection.antt =====
-- The stored status under a sequence of broker observations, and decisions that are persisted once.
use thelight.Common.{
  ℕ, ◌≤◌, ◌≡◌, refl, sym, ◌∙◌, subst, inl, inr, String, str_eq, eq_iff, true, false, Option, none,
  some, List, [], ◌∷◌, Dict, lookup, insert, lookup-insert, lookup-insert_self, Bool-cases,
  Option-cases, arith,
}
use thelight.Types.{Evidence, ExecutionIntent, ExecutionStatus, pending}
use thelight.Order.{BrokerOrderState, status_eq, terminal_status, projected_broker_status}
use thelight.Order.Monotone.{
  progress, projected-progress, projected_terminal, Advances, Advances-by,
}
use thelight.Store.Data.{WorkerLease, Ownership, DurableWorkerScope, StoredIntent, Orders}
use thelight.Store.Intents.{
  may_record, advanced, has_decision, with_decision, persist_decision_and_intent,
  record_broker_order,
}
use thelight.Store.Dispatch.{stored_status}

status_eq-eq : (a b : ExecutionStatus) → status_eq a b ≡ true → a ≡ b
status_eq-eq pending b h = ground arith
status_eq-eq _ b h = ground arith

advanced-status :
    (state : BrokerOrderState) (reason : Option String) (stored : StoredIntent)
    → (advanced state reason stored).intent.status
      ≡ projected_broker_status stored.intent.status state
advanced-status state reason stored =
    let p = projected_broker_status stored.intent.status state in
    elim (Bool-cases (status_eq p stored.intent.status)) [
      | inl e ↦ rw e (sym (status_eq-eq p stored.intent.status e))
      | inr e ↦ rw e
    ]

-- A status that has not moved back, and that has not moved at all from a terminal one.
abbrev Forward : ExecutionStatus → Option ExecutionStatus → Type 0
Forward s none = ⊥
Forward s (some s') = (progress s ≤ progress s') × (terminal_status s ≡ true → s' ≡ s)

Forward-refl : (s : ExecutionStatus) → Forward s (some s)
Forward-refl s = (omega arith, λ h. refl)

advanced-Forward :
    (state : BrokerOrderState) (reason : Option String) (stored : StoredIntent)
    → Forward stored.intent.status (some (advanced state reason stored).intent.status)
advanced-Forward state reason stored =
    rw (advanced-status state reason stored)
      (projected-progress stored.intent.status state, projected_terminal stored.intent.status state)

Forward-trans :
    (s : ExecutionStatus) (o o' : Option ExecutionStatus)
    → Forward s o
    → ((t : ExecutionStatus) → o ≡ some t → Forward t o')
    → Forward s o'
Forward-trans s none o' h k = absurd h
Forward-trans s (some t) none h k = k t refl
Forward-trans s (some t) (some u) h k =
    let next = k t refl in
    (omega (arith, h.0, next.0), λ e. let same = h.1 e in next.1 (rw same e) ∙ same)

Forward-Advances :
    (s : ExecutionStatus) (o : Option ExecutionStatus)
    → Forward s o
    → (s' : ExecutionStatus) × (o ≡ some s') × Advances s s'
Forward-Advances s none h = absurd h
Forward-Advances s (some s') h = (s', refl, Advances-by s s' h.0 h.1)

-- One call of `recordBrokerOrder`, by any run, at any time, in any state of the leases.
pub record Observation : Type 0 where
  pub now : ℕ
  pub lease : WorkerLease
  pub scope : DurableWorkerScope
  pub state : BrokerOrderState
  pub reason : Option String
  pub ownership : Ownership

module _ {F : Type 0} where
  unfoldable pub record_all : List Observation → Orders F → Orders F
  record_all [] r = r
  record_all (b ∷ bs) r =
      record_all bs (record_broker_order b.now b.lease b.scope b.state b.reason b.ownership r).1

  written-Forward :
      (id : String) (b : Observation) (stored : StoredIntent) (r : Orders F) (s : ExecutionStatus)
      → lookup b.state.intent_id r.intents ≡ some stored
      → stored_status (lookup id r.intents) ≡ some s
      → Forward s (
          stored_status
            (lookup id (insert b.state.intent_id (advanced b.state b.reason stored) r.intents)))
  written-Forward id b stored r s found' h = elim (Bool-cases (str_eq b.state.intent_id id)) [
    | inl e ↦
        rw (lookup-insert b.state.intent_id id (advanced b.state b.reason stored) r.intents, e)
          (subst (λ x. Forward x (some (advanced b.state b.reason stored).intent.status)) (own e)
            (advanced-Forward b.state b.reason stored))
    | inr e ↦
        rw (lookup-insert b.state.intent_id id (advanced b.state b.reason stored) r.intents, e)
          (rw h (Forward-refl s))
  ]
    where
      own : str_eq b.state.intent_id id ≡ true → stored.intent.status ≡ s
      own e = cc (rw ((eq_iff b.state.intent_id id).0 e) at found', h)

  record-Forward :
      (id : String) (b : Observation) (r : Orders F) (s : ExecutionStatus)
      → stored_status (lookup id r.intents) ≡ some s
      → Forward s (
          stored_status (
            lookup id
              (record_broker_order b.now b.lease b.scope b.state b.reason b.ownership r).1.intents))
  unfolding record_broker_order
  record-Forward id b r s h = elim (Option-cases (lookup b.state.intent_id r.intents)) [
    | inl e ↦ rw (e, record_broker_order) (rw h (Forward-refl s))
    | inr (stored, e) ↦
        elim (Bool-cases (may_record b.now b.lease b.scope b.state stored b.ownership r)) [
          | inl may ↦ rw (e, record_broker_order, may) (written-Forward id b stored r s e h)
          | inr not_now ↦ rw (e, record_broker_order, not_now) (rw h (Forward-refl s))
        ]
  ]

  record_all-Forward :
      (id : String) (bs : List Observation) (r : Orders F) (s : ExecutionStatus)
      → stored_status (lookup id r.intents) ≡ some s
      → Forward s (stored_status (lookup id (record_all bs r).intents))
  unfolding record_all
  record_all-Forward id [] r s h = rw h (Forward-refl s)
  record_all-Forward id (b ∷ bs) r s h =
      let r' = (record_broker_order b.now b.lease b.scope b.state b.reason b.ownership r).1 in
      Forward-trans s (stored_status (lookup id r'.intents))
        (stored_status (lookup id (record_all bs r').intents)) (record-Forward id b r s h)
        (λ t e. record_all-Forward id bs r' t e)

  -- However many runs record broker observations, in whatever order and with whatever leases, the
  -- stored status of an intent never moves back, and a filled, rejected or cancelled intent keeps
  -- its status.
  pub records_forward :
      (id : String) (bs : List Observation) (r : Orders F) (s : ExecutionStatus)
      → stored_status (lookup id r.intents) ≡ some s
      → (s' : ExecutionStatus) × (stored_status (lookup id (record_all bs r).intents) ≡ some s')
        × Advances s s'
  records_forward id bs r s h = Forward-Advances s _ (record_all-Forward id bs r s h)

has_decision-insert :
    (id k : String) (stored : StoredIntent) (m : Dict StoredIntent)
    → stored.intent.decision_id ≡ id
    → has_decision id (insert k stored m) ≡ true
unfolding insert
has_decision-insert id k stored [] h = ground (arith, eq_iff stored.intent.decision_id id)
has_decision-insert id k stored ((j, w) ∷ m) h =
    ground (arith, eq_iff stored.intent.decision_id id, has_decision-insert id k stored m h)

module _ {F : Type 0} where
  -- A decision is persisted once: after it went in with its intent, persisting a decision with the
  -- same id again reports that nothing was inserted and changes nothing, whatever it would write.
  pub persist_once :
      (worker_key worker_key' : String) (evidence evidence' : Evidence F)
      (intent intent' : ExecutionIntent) (reason reason' : Option String) (r : Orders F)
      → lookup evidence.id r.decisions ≡ none
      → intent.decision_id ≡ evidence.id
      → evidence'.id ≡ evidence.id
      → (r' : Orders F) × (persist_decision_and_intent worker_key evidence intent reason r
          ≡ some (true, r'))
        × (lookup evidence.id r'.decisions ≡ some evidence)
        × (persist_decision_and_intent worker_key' evidence' intent' reason' r' ≡ some (false, r'))
  unfolding persist_decision_and_intent
  persist_once worker_key worker_key' evidence evidence' intent intent' reason reason' r new own
        same =
      let stored : StoredIntent = record { intent = intent; dispatch_block_reason = reason } in
      (
        with_decision worker_key evidence intent reason r,
        rw new,
        lookup-insert_self evidence.id evidence r.decisions,
        rw same (
            rw (
              lookup-insert_self evidence.id evidence r.decisions,
              has_decision-insert evidence.id intent.intent_id stored r.intents own,
            )),
      )
