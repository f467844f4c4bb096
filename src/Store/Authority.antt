-- ===== src/Store/Authority.antt =====
-- What is true when `withDispatchAuthority` runs its `submit`.
use thelight.Common.{
  ℕ, ◌+◌, ◌*◌, ◌≡◌, inl, inr, String, eq_iff, Bool, true, some, lookup, lookup-insert_self,
  Bool-cases, Option-cases, arith, is_some,
}
use thelight.Types.{submission_attempted}
use thelight.Store.Data.{WorkerLease, Ownership, DurableWorkerScope, StoredIntent, Orders}
use thelight.Store.Leases.{renew_ownership, is_current}
use thelight.Store.Intents.{may_dispatch, with_dispatch_authority}
use thelight.Store.Dispatch.{stored_status}

-- A lease that was renewed is in force afterwards.
renew-is_current_after :
    (now : ℕ) (lease : WorkerLease) (o : Ownership)
    → is_some (renew_ownership now lease 30 o).0 ≡ true
    → is_current now lease (lookup lease.worker_key (renew_ownership now lease 30 o).1.leases)
      ≡ true
unfolding renew_ownership
renew-is_current_after now lease o h = elim (Option-cases (lookup lease.worker_key o.leases)) [
  | inl e ↦ cc (rw (e, renew_ownership) at h)
  | inr (current, e) ↦ elim (Bool-cases (is_current now lease (some current))) [
    | inl held ↦
        let renewed : WorkerLease = record current { lease_expires_at = now + 30 * 1000 } in
        rw (e, renew_ownership, held)
          (rw (lookup-insert_self lease.worker_key renewed o.leases) (ground (arith, held)))
    | inr gone ↦ cc (rw (e, renew_ownership, gone) at h)
  ]
]

module _ {F : Type 0} where
  authority-parts :
      (lease : WorkerLease) (scope : DurableWorkerScope) (renewed : Bool) (stored : StoredIntent)
      (r : Orders F)
      → may_dispatch submission_attempted lease scope renewed stored r ≡ true
      → (lease.worker_key ≡ scope.worker_key)
        × (renewed ≡ true)
        × (stored.intent.status ≡ submission_attempted)
  unfolding may_dispatch
  authority-parts lease scope renewed stored r h =
      ground (arith, eq_iff lease.worker_key scope.worker_key)

  pub authority_conditions :
      (now : ℕ) (lease : WorkerLease) (intent_id : String) (scope : DurableWorkerScope)
      (o : Ownership) (r : Orders F)
      → (with_dispatch_authority now lease intent_id scope o r).0 ≡ true
      → let o' = (with_dispatch_authority now lease intent_id scope o r).1 in
        (lease.worker_key ≡ scope.worker_key)
        × (is_current now lease (lookup lease.worker_key o'.leases) ≡ true)
        × (stored_status (lookup intent_id r.intents) ≡ some submission_attempted)
  unfolding with_dispatch_authority
  authority_conditions now lease intent_id scope o r h =
      elim (Option-cases (lookup intent_id r.intents)) [
        | inl e ↦ cc (rw (e, with_dispatch_authority) at h)
        | inr (stored, e) ↦
            let parts =
              authority-parts lease scope (is_some (renew_ownership now lease 30 o).0) stored r
                (rw (e, with_dispatch_authority) at h) in
            (
              parts.0,
              rw (e, with_dispatch_authority) (renew-is_current_after now lease o parts.1),
              rw e (rw (parts.2)),
            )
      ]
