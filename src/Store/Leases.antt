-- ===== src/Store/Leases.antt =====
-- Runs and leases: `createRun`, `updateRun`, `acquireOwnership`, `renewOwnership` and
-- `releaseOwnership` of the class `MemoryAlpacaWorkerStore`.
use thelight.Common.{
  ℕ, ◌+◌, ◌*◌, String, str_eq, Bool, true, false, ◌&&◌, ◌||◌, not, Option, none, some, List, [],
  ◌∷◌, ◌++◌, Dict, lookup, insert, adjust, ltb, ◌==◌, if◌then◌else◌,
}
use thelight.Store.Data.{
  WorkerLease, RunState, starting, reconciling, ready, stopped, halted, superseded, RunEvidence,
  Ownership,
}

-- `===` on run states
abbrev pub run_state_eq : RunState → RunState → Bool
run_state_eq starting starting = true
run_state_eq reconciling reconciling = true
run_state_eq ready ready = true
run_state_eq stopped stopped = true
run_state_eq halted halted = true
run_state_eq superseded superseded = true
run_state_eq _ _ = false

-- `["STOPPED", "HALTED", "SUPERSEDED"].includes(state)`
abbrev pub is_final : RunState → Bool
is_final stopped = true
is_final halted = true
is_final superseded = true
is_final _ = false

abbrev pub is_stop : RunState → Bool
is_stop stopped = true
is_stop halted = true
is_stop _ = false

-- `x ??= y`
abbrev pub or_set : Option ℕ → ℕ → Option ℕ
or_set none n = some n
or_set (some m) n = some m

abbrev pub or_set_text : Option String → String → Option String
or_set_text none s = some s
or_set_text (some t) s = some t

abbrev pub new_run : String → RunState → RunEvidence
new_run worker_key state = record {
  worker_key = worker_key;
  state = state;
  halt_reason = none;
  stopped_at = none;
  superseded_by_run_id = none;
  superseded_at = none;
  supersede_reason = none;
}

unfoldable pub create_run : String → String → RunState → Ownership → Ownership
create_run run_id worker_key state o = record o {
  runs = insert run_id (new_run worker_key state) o.runs;
  run_transitions = o.run_transitions ++ (run_id, state) ∷ [];
}

-- The guard of `updateRun` on the run that it finds.
abbrev pub update_rejected : RunEvidence → RunState → Bool
update_rejected run state =
    run_state_eq state superseded || (not (run_state_eq run.state state) && is_final run.state)

abbrev pub updated_run : ℕ → RunState → Option String → RunEvidence → RunEvidence
updated_run now state halt_reason run = record run {
  state = state;
  halt_reason = halt_reason;
  stopped_at = if is_stop state then or_set run.stopped_at now else none;
}

-- `updateRun`: `none` is the error `WORKER_RUN_LIFECYCLE_UPDATE_REJECTED`.
unfoldable pub update_run : ℕ → String → RunState → Option String → Ownership → Option Ownership
update_run now run_id state halt_reason o = elim (lookup run_id o.runs) [
  | none ↦ none
  | some run ↦
      if update_rejected run state
      then none
      else some (record o {
        runs = insert run_id (updated_run now state halt_reason run) o.runs;
        run_transitions = o.run_transitions ++ (run_id, state) ∷ [];
      })
]

-- The test of the loop in `acquireOwnership`.
abbrev pub is_superseded_by : String → String → String → RunEvidence → Bool
is_superseded_by worker_key run_id id run =
    not (str_eq id run_id) && str_eq run.worker_key worker_key && not (is_final run.state)

unfoldable pub supersede : ℕ → String → String → String → RunEvidence → RunEvidence
supersede now worker_key run_id id run =
    if is_superseded_by worker_key run_id id run
    then record run {
      state = superseded;
      stopped_at = or_set run.stopped_at now;
      superseded_by_run_id = some run_id;
      superseded_at = or_set run.superseded_at now;
      supersede_reason = or_set_text run.supersede_reason "SUPERSEDED_BY_DURABLE_LEASE";
    }
    else run

-- The transitions that the loop appends.
unfoldable pub superseded_transitions :
    String → String → Dict RunEvidence → List (String × RunState)
superseded_transitions worker_key run_id [] = []
superseded_transitions worker_key run_id ((id, run) ∷ runs) =
    let rest = superseded_transitions worker_key run_id runs in
    if is_superseded_by worker_key run_id id run then (id, superseded) ∷ rest else rest

-- `prior && Date.parse(prior.leaseExpiresAt) > Date.now()`
abbrev pub is_held : ℕ → Option WorkerLease → Bool
is_held now none = false
is_held now (some prior) = ltb now prior.lease_expires_at

-- `prior?.fencingToken ?? 0`
abbrev pub prior_token : Option WorkerLease → ℕ
prior_token none = 0
prior_token (some prior) = prior.fencing_token

-- The lease that `acquireOwnership` writes.
abbrev pub new_lease : ℕ → String → String → ℕ → Option WorkerLease → WorkerLease
new_lease now worker_key run_id lease_seconds prior = record {
  worker_key = worker_key;
  run_id = run_id;
  fencing_token = prior_token prior + 1;
  lease_expires_at = now + lease_seconds * 1000;
}

-- `acquireOwnership`
unfoldable pub acquire_ownership :
    ℕ → String → String → ℕ → Ownership → Option WorkerLease × Ownership
unfolding supersede superseded_transitions
acquire_ownership now worker_key run_id lease_seconds o =
    let prior = lookup worker_key o.leases in
    let lease = new_lease now worker_key run_id lease_seconds prior in
    if is_held now prior then (none, o) else (
      some lease,
      record o {
        leases = insert worker_key lease o.leases;
        runs = adjust (supersede now worker_key run_id) o.runs;
        run_transitions = o.run_transitions ++ superseded_transitions worker_key run_id o.runs;
      },
    )

-- The lease in force under the key of `lease`, if it is this one and has not expired.
abbrev pub same_lease : WorkerLease → WorkerLease → Bool
same_lease current lease =
    str_eq current.run_id lease.run_id && current.fencing_token == lease.fencing_token

abbrev pub is_current : ℕ → WorkerLease → Option WorkerLease → Bool
is_current now lease none = false
is_current now lease (some current) = same_lease current lease && ltb now current.lease_expires_at

-- `renewOwnership`
unfoldable pub renew_ownership : ℕ → WorkerLease → ℕ → Ownership → Option WorkerLease × Ownership
renew_ownership now lease lease_seconds o = elim (lookup lease.worker_key o.leases) [
  | none ↦ (none, o)
  | some current ↦
      let renewed : WorkerLease = record current {
        lease_expires_at = now + lease_seconds * 1000;
      } in
      if is_current now lease (some current)
      then (some renewed, record o { leases = insert lease.worker_key renewed o.leases })
      else (none, o)
]

-- `releaseOwnership`: the lease expires at the epoch.
unfoldable pub release_ownership : WorkerLease → Ownership → Ownership
release_ownership lease o = elim (lookup lease.worker_key o.leases) [
  | none ↦ o
  | some current ↦
      if same_lease current lease
      then record o {
        leases = insert lease.worker_key (record current { lease_expires_at = 0 }) o.leases;
      }
      else o
]
