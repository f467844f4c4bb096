-- ===== src/Store/Dispatch.antt =====
-- What the store promises about intents: who can claim one, and what a lease that is not in force
-- cannot do.
use thelight.Common.{
  ℕ, ◌≡◌, sym, ◌∙◌, inl, inr, String, Bool, true, false, Option, none, some, lookup, insert,
  Bool-cases, Option-cases, arith, is_some,
}
use thelight.Types.{ExecutionIntent, ExecutionStatus, pending, submission_attempted}
use thelight.Order.{BrokerOrderState}
use thelight.Store.Data.{WorkerLease, Ownership, DurableWorkerScope, StoredIntent, Orders}
use thelight.Store.Leases.{renew_ownership, is_current}
use thelight.Store.Fencing.{renew_refused}
use thelight.Store.Intents.{
  in_scope, may_dispatch, may_record, claimed, claim_intent_for_dispatch, with_dispatch_authority,
  record_broker_order,
}

-- A renewal succeeds exactly when the lease is in force.
renew-is_current :
    (now seconds : ℕ) (lease : WorkerLease) (o : Ownership)
    → is_some (renew_ownership now lease seconds o).0
      ≡ is_current now lease (lookup lease.worker_key o.leases)
unfolding renew_ownership
renew-is_current now seconds lease o = elim (Option-cases (lookup lease.worker_key o.leases)) [
  | inl e ↦ rw (e, renew_ownership)
  | inr (current, e) ↦ elim (Bool-cases (is_current now lease (some current))) [
    | inl h ↦ rw (e, renew_ownership, h)
    | inr h ↦ rw (e, renew_ownership, h)
  ]
]

-- The status of an intent in the store.
abbrev pub stored_status : Option StoredIntent → Option ExecutionStatus
stored_status none = none
stored_status (some stored) = some stored.intent.status

module _ {F : Type 0} where
  may_dispatch_parts :
      (status : ExecutionStatus) (lease : WorkerLease) (scope : DurableWorkerScope) (renewed : Bool)
      (stored : StoredIntent) (r : Orders F)
      → may_dispatch status lease scope renewed stored r ≡ true
      → (renewed ≡ true)
        × (stored.intent.status ≡ status)
        × (in_scope scope stored.intent.decision_id r ≡ true)
  unfolding may_dispatch
  may_dispatch_parts status lease scope renewed stored r h = ground arith

  -- A claim that succeeds was made by the owner in force, on an intent in scope that was pending.
  pub claim_conditions :
      (now : ℕ) (lease : WorkerLease) (intent : ExecutionIntent) (scope : DurableWorkerScope)
      (o : Ownership) (r : Orders F)
      → (claim_intent_for_dispatch now lease intent scope o r).0 ≡ true
      → (stored : StoredIntent) × (lookup intent.intent_id r.intents ≡ some stored)
        × (stored.intent.status ≡ pending)
        × (in_scope scope stored.intent.decision_id r ≡ true)
        × (is_current now lease (lookup lease.worker_key o.leases) ≡ true)
        × ((claim_intent_for_dispatch now lease intent scope o r).2.intents
            ≡ insert intent.intent_id (claimed intent) r.intents)
  unfolding claim_intent_for_dispatch
  claim_conditions now lease intent scope o r h =
      elim (Option-cases (lookup intent.intent_id r.intents)) [
        | inl e ↦ cc (rw (e, claim_intent_for_dispatch) at h)
        | inr (stored, e) ↦
            let renewed = is_some (renew_ownership now lease 30 o).0 in
            elim (Bool-cases (may_dispatch pending lease scope renewed stored r)) [
              | inl yes' ↦
                  let parts = may_dispatch_parts pending lease scope renewed stored r yes' in
                  (
                    stored,
                    e,
                    parts.1,
                    parts.2,
                    sym (renew-is_current now 30 lease o) ∙ parts.0,
                    rw (e, claim_intent_for_dispatch, yes'),
                  )
              | inr no' ↦ cc (rw (e, claim_intent_for_dispatch, no') at h)
            ]
      ]

  not_renewed :
      (status : ExecutionStatus) (lease : WorkerLease) (scope : DurableWorkerScope)
      (stored : StoredIntent) (r : Orders F)
      → may_dispatch status lease scope false stored r ≡ false
  unfolding may_dispatch
  not_renewed status lease scope stored r = ground arith

  not_recorded :
      (now : ℕ) (lease : WorkerLease) (scope : DurableWorkerScope) (state : BrokerOrderState)
      (stored : StoredIntent) (o : Ownership) (r : Orders F)
      → is_current now lease (lookup lease.worker_key o.leases) ≡ false
      → may_record now lease scope state stored o r ≡ false
  unfolding may_record
  not_recorded now lease scope state stored o r h = ground arith

  -- Three calls of the dispatch refuse a lease that is not in force, and change nothing: its run cannot
  -- claim an intent, is given no authority to submit one, and cannot record what it hears from the
  -- broker.
  pub fenced_out_cannot_dispatch :
      (now : ℕ) (lease : WorkerLease) (intent : ExecutionIntent) (scope : DurableWorkerScope)
      (state : BrokerOrderState) (reason : Option String) (o : Ownership) (r : Orders F)
      → is_current now lease (lookup lease.worker_key o.leases) ≡ false
      → (claim_intent_for_dispatch now lease intent scope o r ≡ (false, o, r))
        × (with_dispatch_authority now lease intent.intent_id scope o r ≡ (false, o))
        × (record_broker_order now lease scope state reason o r ≡ (none, r))
  unfolding claim_intent_for_dispatch with_dispatch_authority record_broker_order
  fenced_out_cannot_dispatch now lease intent scope state reason o r h =
      let refused = renew_refused now 30 lease o h in
      (
        elim (Option-cases (lookup intent.intent_id r.intents)) [
          | inl e ↦ rw (e, claim_intent_for_dispatch, refused)
          | inr (stored, e) ↦
              rw (e, claim_intent_for_dispatch, refused, not_renewed pending lease scope stored r)
        ],
        elim (Option-cases (lookup intent.intent_id r.intents)) [
          | inl e ↦ rw (e, with_dispatch_authority, refused)
          | inr (stored, e) ↦ rw (
            e,
            with_dispatch_authority,
            refused,
            not_renewed submission_attempted lease scope stored r,
          )
        ],
        elim (Option-cases (lookup state.intent_id r.intents)) [
          | inl e ↦ rw (e, record_broker_order)
          | inr (stored, e) ↦
              rw (e, record_broker_order, not_recorded now lease scope state stored o r h)
        ],
      )
