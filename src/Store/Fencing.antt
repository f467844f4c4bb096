-- ===== src/Store/Fencing.antt =====
-- One owner at a time, and tokens that only grow: what the leases of the store promise, over every
-- interleaving of calls.
use thelight.Common.{
  ℕ, ◌+◌, ◌*◌, ◌≤◌, ◌<◌, ◌≡◌, refl, ◌⊎◌, inl, inr, String, str_eq, eq_iff, true, false, Option,
  none, some, List, [], ◌∷◌, Dict, lookup, insert, lookup-insert, lookup-insert_self, Bool-cases,
  Option-cases, arith, or_else,
}
use thelight.Store.Data.{WorkerLease, RunState, Ownership}
use thelight.Store.Leases.{
  acquire_ownership, renew_ownership, release_ownership, create_run, update_run, update_rejected,
  new_lease, is_held, is_current, same_lease, prior_token,
}
use thelight.Store.Trace.{Call, create, update, acquire, renew, release, call, calls}

-- The fencing token in force under a key, 0 where there never was a lease.
abbrev pub token : String → Ownership → ℕ
token key o = prior_token (lookup key o.leases)

insert-token :
    (key k : String) (lease : WorkerLease) (m : Dict WorkerLease)
    → prior_token (lookup k m) ≤ lease.fencing_token
    → prior_token (lookup key m) ≤ prior_token (lookup key (insert k lease m))
insert-token key k lease m h = elim (Bool-cases (str_eq k key)) [
  | inl e ↦ rw (lookup-insert k key lease m, e) (rw ((eq_iff k key).0 e) at h)
  | inr e ↦ rw (lookup-insert k key lease m, e) (omega arith)
]

acquire-token :
    (key : String) (now : ℕ) (worker_key run_id : String) (seconds : ℕ) (o : Ownership)
    → token key o ≤ token key (acquire_ownership now worker_key run_id seconds o).1
unfolding acquire_ownership
acquire-token key now worker_key run_id seconds o =
    elim (Bool-cases (is_held now (lookup worker_key o.leases))) [
      | inl e ↦ rw e (omega arith)
      | inr e ↦ rw e (insert-token key worker_key _ o.leases (omega arith))
    ]

renew-token :
    (key : String) (now : ℕ) (lease : WorkerLease) (seconds : ℕ) (o : Ownership)
    → token key o ≤ token key (renew_ownership now lease seconds o).1
unfolding renew_ownership
renew-token key now lease seconds o = elim (Option-cases (lookup lease.worker_key o.leases)) [
  | inl e ↦ rw (e, renew_ownership) (omega arith)
  | inr (current, e) ↦ elim (Bool-cases (is_current now lease (some current))) [
    | inl held ↦
        rw (e, renew_ownership, held)
          (insert-token key lease.worker_key _ o.leases (rw e (omega arith)))
    | inr gone ↦ rw (e, renew_ownership, gone) (omega arith)
  ]
]

release-token :
    (key : String) (lease : WorkerLease) (o : Ownership)
    → token key o ≤ token key (release_ownership lease o)
unfolding release_ownership
release-token key lease o = elim (Option-cases (lookup lease.worker_key o.leases)) [
  | inl e ↦ rw (e, release_ownership) (omega arith)
  | inr (current, e) ↦ elim (Bool-cases (same_lease current lease)) [
    | inl held ↦
        rw (e, release_ownership, held)
          (insert-token key lease.worker_key _ o.leases (rw e (omega arith)))
    | inr gone ↦ rw (e, release_ownership, gone) (omega arith)
  ]
]

update-leases :
    (now : ℕ) (run_id : String) (state : RunState) (reason : Option String) (o : Ownership)
    → (or_else (update_run now run_id state reason o) o).leases ≡ o.leases
unfolding update_run
update-leases now run_id state reason o = elim (Option-cases (lookup run_id o.runs)) [
  | inl e ↦ rw (e, update_run)
  | inr (run, e) ↦ elim (Bool-cases (update_rejected run state)) [
    | inl refused ↦ rw (e, update_run, refused)
    | inr fine ↦ rw (e, update_run, fine)
  ]
]

call-token :
    (key : String) (now : ℕ) (c : Call) (o : Ownership) → token key o ≤ token key (call now c o)
unfolding call create_run
call-token key now (create run_id worker_key state) o = omega arith
call-token key now (update run_id state reason) o =
    rw (update-leases now run_id state reason o) (omega arith)
call-token key now (acquire worker_key run_id seconds) o =
    acquire-token key now worker_key run_id seconds o
call-token key now (renew lease seconds) o = renew-token key now lease seconds o
call-token key now (release lease) o = release-token key lease o

calls-token :
    (key : String) (cs : List (ℕ × Call)) (o : Ownership) → token key o ≤ token key (calls cs o)
unfolding calls
calls-token key [] o = omega arith
calls-token key ((now, c) ∷ cs) o =
    omega (arith, call-token key now c o, calls-token key cs (call now c o))

-- There never was a lease, or the last one has expired.
abbrev pub IsVacant : ℕ → Option WorkerLease → Type 0
IsVacant now held =
    (held ≡ none) ⊎ ((prior : WorkerLease) × (held ≡ some prior) × (prior.lease_expires_at ≤ now))

held-late :
    (now : ℕ) (held : Option WorkerLease)
    → is_held now held ≡ true
    → (prior : WorkerLease) × (held ≡ some prior) × (now < prior.lease_expires_at)
held-late now none h = cc
held-late now (some prior) h = (prior, refl, ground (arith, h))

unheld-IsVacant :
    (now : ℕ) (held : Option WorkerLease) → is_held now held ≡ false → IsVacant now held
unheld-IsVacant now none h = inl refl
unheld-IsVacant now (some prior) h = inr (prior, refl, ground (arith, h))

-- `acquireOwnership` refuses and changes nothing exactly when the lease under the key expires after
-- now. Where there was none or the last one has expired, it grants and stores a lease of the run for
-- so many seconds, with a token one above the last.
pub acquire_when_free :
    (now : ℕ) (key run_id : String) (seconds : ℕ) (o : Ownership)
    → ((prior : WorkerLease) × (lookup key o.leases ≡ some prior)
        × (now < prior.lease_expires_at)
        × (acquire_ownership now key run_id seconds o ≡ (none, o)))
      ⊎ (IsVacant now (lookup key o.leases)
          × ((lease : WorkerLease) × ((acquire_ownership now key run_id seconds o).0 ≡ some lease)
              × (lookup key (acquire_ownership now key run_id seconds o).1.leases ≡ some lease)
              × (lease.worker_key ≡ key)
              × (lease.run_id ≡ run_id)
              × (lease.fencing_token ≡ token key o + 1)
              × (lease.lease_expires_at ≡ now + seconds * 1000)))
unfolding acquire_ownership
acquire_when_free now key run_id seconds o = elim (Bool-cases (is_held now (lookup key o.leases))) [
  | inl e ↦
      let (prior, there, late) = held-late now (lookup key o.leases) e in
      inl (prior, there, late, rw e)
  | inr e ↦
      let lease = new_lease now key run_id seconds (lookup key o.leases) in
      inr (
        unheld-IsVacant now (lookup key o.leases) e,
        (lease, rw e, rw e (lookup-insert_self key lease o.leases), refl, refl, refl, refl),
      )
]

older_not_current :
    (now : ℕ) (lease : WorkerLease) (held : Option WorkerLease)
    → lease.fencing_token < prior_token held
    → is_current now lease held ≡ false
older_not_current now lease none h = refl
older_not_current now lease (some current) h = ground arith

granted-token :
    (now seconds : ℕ) (key run_id : String) (o : Ownership) (granted : WorkerLease)
    → (acquire_ownership now key run_id seconds o).0 ≡ some granted
    → token key (acquire_ownership now key run_id seconds o).1 ≡ granted.fencing_token
granted-token now seconds key run_id o granted got =
    elim (acquire_when_free now key run_id seconds o) [
      | inl (prior, there, late, refused) ↦ cc
      | inr (free, (lease, got', there, k, r, t, x)) ↦ cc
    ]

pub renew_refused :
    (now more : ℕ) (lease : WorkerLease) (o : Ownership)
    → is_current now lease (lookup lease.worker_key o.leases) ≡ false
    → renew_ownership now lease more o ≡ (none, o)
unfolding renew_ownership
renew_refused now more lease o h = elim (Option-cases (lookup lease.worker_key o.leases)) [
  | inl e ↦ rw (e, renew_ownership)
  | inr (current, e) ↦ rw (e, renew_ownership, rw e at h)
]

-- Once a lease of a key has been granted, no lease with an older token is ever in force again, nor
-- can it be renewed, whatever calls any processes make afterwards and at whatever times.
pub fenced_out_forever :
    (now seconds : ℕ) (key run_id : String) (o : Ownership) (granted old : WorkerLease)
    → (acquire_ownership now key run_id seconds o).0 ≡ some granted
    → old.worker_key ≡ key
    → old.fencing_token < granted.fencing_token
    → (cs : List (ℕ × Call)) (later more : ℕ)
    → let o' = calls cs (acquire_ownership now key run_id seconds o).1 in
      (is_current later old (lookup key o'.leases) ≡ false)
      × (renew_ownership later old more o' ≡ (none, o'))
fenced_out_forever now seconds key run_id o granted old got same older cs later more =
    let o' = calls cs (acquire_ownership now key run_id seconds o).1 in
    let newer : old.fencing_token < token key o' = omega (
      arith,
      granted-token now seconds key run_id o granted got,
      calls-token key cs (acquire_ownership now key run_id seconds o).1,
    ) in
    let gone = older_not_current later old (lookup key o'.leases) newer in
    (gone, renew_refused later more old o' (rw same gone))

both_current :
    (now : ℕ) (mine other current : WorkerLease)
    → is_current now mine (some current) ≡ true
    → is_current now other (some current) ≡ true
    → (other.run_id ≡ mine.run_id)
      × (other.fencing_token ≡ mine.fencing_token)
      × (is_held now (some current) ≡ true)
both_current now mine other current m k =
    ground (arith, eq_iff current.run_id mine.run_id, eq_iff current.run_id other.run_id)

-- Two leases that are in force under a key at the same time are one run's with one token, and while
-- they are nobody can acquire the key.
pub single_owner :
    (now seconds : ℕ) (key run_id : String) (mine other : WorkerLease) (o : Ownership)
    → is_current now mine (lookup key o.leases) ≡ true
    → is_current now other (lookup key o.leases) ≡ true
    → (other.run_id ≡ mine.run_id)
      × (other.fencing_token ≡ mine.fencing_token)
      × (acquire_ownership now key run_id seconds o ≡ (none, o))
unfolding acquire_ownership
single_owner now seconds key run_id mine other o m k = elim (Option-cases (lookup key o.leases)) [
  | inl e ↦ cc (rw e at m)
  | inr (current, e) ↦
      let both = both_current now mine other current (rw e at m) (rw e at k) in
      (both.0, both.1, rw (e, both.2))
]
