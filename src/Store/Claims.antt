-- ===== src/Store/Claims.antt =====
-- An intent is claimed once, as long as nothing but claims and recordings touches it. (`putIntent`, which
-- no lease guards, can write any status.)
use thelight.Common.{
  ℕ, ◌≡◌, ◌≢◌, inl, inr, String, str_eq, true, false, some, List, [], ◌∷◌, lookup, lookup-insert,
  lookup-insert_self, Bool-cases, Option-cases, arith, is_some,
}
use thelight.Types.{ExecutionIntent, ExecutionStatus, pending, submission_attempted}
use thelight.Order.Monotone.{Advances}
use thelight.Store.Data.{WorkerLease, Ownership, DurableWorkerScope, Orders}
use thelight.Store.Leases.{renew_ownership, is_current}
use thelight.Store.Intents.{may_dispatch, claimed, claim_intent_for_dispatch}
use thelight.Store.Dispatch.{stored_status, claim_conditions}
use thelight.Store.Projection.{Observation, record_all, records_forward}

-- A call that any run makes at any time, in any state of the leases: a claim, or a recording.
pub data OrderCall : Type 0 where
  claiming : ℕ → WorkerLease → ExecutionIntent → DurableWorkerScope → Ownership → OrderCall
  recording : Observation → OrderCall

advanced_not_pending : (s s' : ExecutionStatus) → Advances s s' → s ≢ pending → s' ≢ pending
advanced_not_pending s s' forward h = ground (arith, forward, h)

module _ {F : Type 0} where
  abbrev pub order_call : OrderCall → Orders F → Orders F
  order_call (claiming now lease intent scope o) r =
      (claim_intent_for_dispatch now lease intent scope o r).2
  order_call (recording b) r = record_all (b ∷ []) r

  abbrev pub order_calls : List OrderCall → Orders F → Orders F
  order_calls [] r = r
  order_calls (c ∷ cs) r = order_calls cs (order_call c r)

  -- The intent is stored, and was claimed or sent before.
  abbrev IsTaken : String → Orders F → Type 0
  IsTaken id r =
      (s : ExecutionStatus) × (stored_status (lookup id r.intents) ≡ some s) × (s ≢ pending)

  claim-refused :
      (now : ℕ) (lease : WorkerLease) (intent : ExecutionIntent) (scope : DurableWorkerScope)
      (o : Ownership) (r : Orders F)
      → (claim_intent_for_dispatch now lease intent scope o r).0 ≡ false
      → (claim_intent_for_dispatch now lease intent scope o r).2 ≡ r
  unfolding claim_intent_for_dispatch
  claim-refused now lease intent scope o r h =
      elim (Option-cases (lookup intent.intent_id r.intents)) [
        | inl e ↦ rw (e, claim_intent_for_dispatch)
        | inr (stored, e) ↦
            let renewed = is_some (renew_ownership now lease 30 o).0 in
            elim (Bool-cases (may_dispatch pending lease scope renewed stored r)) [
              | inl yes' ↦ cc (rw (e, claim_intent_for_dispatch, yes') at h)
              | inr no' ↦ rw (e, claim_intent_for_dispatch, no')
            ]
      ]

  claim-IsTaken :
      (id : String) (now : ℕ) (lease : WorkerLease) (intent : ExecutionIntent)
      (scope : DurableWorkerScope) (o : Ownership) (r : Orders F)
      → IsTaken id r
      → IsTaken id (claim_intent_for_dispatch now lease intent scope o r).2
  claim-IsTaken id now lease intent scope o r (s, e, h) =
      elim (Bool-cases (claim_intent_for_dispatch now lease intent scope o r).0) [
        | inr refused ↦ rw (claim-refused now lease intent scope o r refused) (s, e, h)
        | inl won ↦
            let c = claim_conditions now lease intent scope o r won in
            elim (Bool-cases (str_eq intent.intent_id id)) [
              | inl same ↦ (
                submission_attempted,
                rw (c.5, lookup-insert intent.intent_id id (claimed intent) r.intents, same),
                λ k. cc k,
              )
              | inr other ↦ (
                s,
                rw (c.5, lookup-insert intent.intent_id id (claimed intent) r.intents, other) e,
                h,
              )
            ]
      ]

  calls-IsTaken :
      (id : String) (cs : List OrderCall) (r : Orders F)
      → IsTaken id r
      → IsTaken id (order_calls cs r)
  calls-IsTaken id [] r h = h
  calls-IsTaken id (claiming now lease intent scope o ∷ cs) r h =
      calls-IsTaken id cs _ (claim-IsTaken id now lease intent scope o r h)
  calls-IsTaken id (recording b ∷ cs) r (s, e, h) =
      let (s', e', forward) = records_forward id (b ∷ []) r s e in
      calls-IsTaken id cs _ (s', e', advanced_not_pending s s' forward h)

  -- Only the owner in force can claim an intent, only one that is still pending, and only once: the
  -- claim marks it, and after any further claims and recorded broker orders, of any runs at any times
  -- and whatever became of the leases, no claim of it succeeds.
  pub claim_exclusive :
      (now : ℕ) (lease : WorkerLease) (intent : ExecutionIntent) (scope : DurableWorkerScope)
      (o : Ownership) (r : Orders F) (between : List OrderCall) (later : ℕ) (lease' : WorkerLease)
      (intent' : ExecutionIntent) (scope' : DurableWorkerScope) (o' : Ownership)
      → (claim_intent_for_dispatch now lease intent scope o r).0 ≡ true
      → intent'.intent_id ≡ intent.intent_id
      → let r' = (claim_intent_for_dispatch now lease intent scope o r).2 in
        (is_current now lease (lookup lease.worker_key o.leases) ≡ true)
        × (stored_status (lookup intent.intent_id r.intents) ≡ some pending)
        × (stored_status (lookup intent.intent_id r'.intents) ≡ some submission_attempted)
        × ((claim_intent_for_dispatch later lease' intent' scope' o' (order_calls between r')).0
            ≡ false)
  claim_exclusive now lease intent scope o r between later lease' intent' scope' o' h same =
      let c = claim_conditions now lease intent scope o r h in
      let r' = (claim_intent_for_dispatch now lease intent scope o r).2 in
      let marked : stored_status (lookup intent.intent_id r'.intents) ≡ some submission_attempted =
        rw (c.5) (rw (lookup-insert_self intent.intent_id (claimed intent) r.intents)) in
      let (s, e, taken) =
        calls-IsTaken intent.intent_id between r' (submission_attempted, marked, λ k. cc k) in
      let r'' = order_calls between r' in
      (
        c.4,
        rw (c.1) (rw (c.2)),
        marked,
        elim (Bool-cases (claim_intent_for_dispatch later lease' intent' scope' o' r'').0) [
          | inl again ↦
              let d = claim_conditions later lease' intent' scope' o' r'' again in
              let waiting : s ≡ pending = cc (rw same at (d.1), d.2, e) in absurd (taken waiting)
          | inr refused ↦ refused
        ],
      )
