-- ===== src/Store/Runs.antt =====
-- The life of a run in the store: a finished run stays finished, and one run of a worker is live.
use mathlib.Core.Option
use thelight.Common.{
  ℕ, ◌≡◌, ap, ◌≢◌, inl, inr, String, str_eq, eq_iff, true, false, Option, none, some, List, [], ◌∷◌,
  lookup, insert, lookup-insert, lookup-adjust, Bool-cases, Option-cases, arith, or_else,
}
use thelight.Store.Data.{RunState, RunEvidence, Ownership}
use thelight.Store.Leases.{
  is_final, new_run, create_run, update_run, updated_run, update_rejected, supersede, is_held,
  acquire_ownership, renew_ownership, release_ownership,
}
use thelight.Store.Trace.{Call, create, update, acquire, renew, release, call, calls}

-- No call of the sequence creates a run with this id. The workers draw run ids at random.
abbrev pub Created : String → Call → Type 0
Created id (create run_id worker_key state) = run_id ≡ id
Created id _ = ⊥

abbrev pub NeverCreated : String → List (ℕ × Call) → Type 0
NeverCreated id [] = Unit
NeverCreated id ((now, c) ∷ cs) = ¬ Created id c × NeverCreated id cs

abbrev pub run_state : Option RunEvidence → Option RunState
run_state none = none
run_state (some run) = some run.state

-- The state of a run, if the store has the run.
abbrev pub state_of : String → Ownership → Option RunState
state_of id o = run_state (lookup id o.runs)

accepted_update :
    (run : RunEvidence) (state : RunState)
    → is_final run.state ≡ true
    → update_rejected run state ≡ false
    → state ≡ run.state
accepted_update run state f h = ground arith

final_stays :
    (run : RunEvidence) (state final : RunState)
    → is_final final ≡ true
    → update_rejected run state ≡ false
    → run_state (some run) ≡ some final
    → state ≡ final
final_stays run state final f fine h = ground (arith, accepted_update run state)

-- What writing one run does to the state of another or of its own.
state_of-write :
    (id run_id : String) (run : RunEvidence) (o : Ownership) {final : RunState}
    → state_of id o ≡ some final
    → (run_id ≡ id → run.state ≡ final)
    → run_state (lookup id (insert run_id run o.runs)) ≡ some final
state_of-write id run_id run o h same = elim (Bool-cases (str_eq run_id id)) [
  | inl e ↦ rw (lookup-insert run_id id run o.runs, e) (ap some (same ((eq_iff run_id id).0 e)))
  | inr e ↦ rw (lookup-insert run_id id run o.runs, e) h
]

update_keeps_final :
    (now : ℕ) (id run_id : String) (state final : RunState) (reason : Option String) (o : Ownership)
    → is_final final ≡ true
    → state_of id o ≡ some final
    → state_of id (or_else (update_run now run_id state reason o) o) ≡ some final
unfolding update_run
update_keeps_final now id run_id state final reason o f h =
    elim (Option-cases (lookup run_id o.runs)) [
      | inl e ↦ rw (e, update_run) h
      | inr (run, e) ↦ elim (Bool-cases (update_rejected run state)) [
        | inl refused ↦ rw (e, update_run, refused) h
        | inr fine ↦
            rw (e, update_run, fine)
              (state_of-write id run_id (updated_run now state reason run) o h
                (λ same. final_stays run state final f fine (rw (rw same at e) at h)))
      ]
    ]

supersede_keeps_final :
    (now : ℕ) (worker_key run_id id : String) (run : RunEvidence)
    → is_final run.state ≡ true
    → (supersede now worker_key run_id id run).state ≡ run.state
unfolding supersede
supersede_keeps_final now worker_key run_id id run f = ground arith

acquire_keeps_final :
    (now : ℕ) (id worker_key run_id : String) (seconds : ℕ) (final : RunState) (o : Ownership)
    → is_final final ≡ true
    → state_of id o ≡ some final
    → state_of id (acquire_ownership now worker_key run_id seconds o).1 ≡ some final
unfolding acquire_ownership
acquire_keeps_final now id worker_key run_id seconds final o f h =
    elim (Bool-cases (is_held now (lookup worker_key o.leases))) [
      | inl e ↦ rw e h
      | inr e ↦
          rw (e, lookup-adjust (supersede now worker_key run_id) id o.runs)
            (go (lookup id o.runs) h)
    ]
  where
    go :
        (r : Option RunEvidence)
        → run_state r ≡ some final
        → run_state (Option.map (supersede now worker_key run_id id) r) ≡ some final
    go none h = h
    go (some run) h = ground (arith, supersede_keeps_final now worker_key run_id id run)

call_keeps_final :
    (now : ℕ) (id : String) (c : Call) (final : RunState) (o : Ownership)
    → is_final final ≡ true
    → ¬ Created id c
    → state_of id o ≡ some final
    → state_of id (call now c o) ≡ some final
unfolding call create_run renew_ownership release_ownership
call_keeps_final now id (create run_id worker_key state) final o f no_create h =
    state_of-write id run_id (new_run worker_key state) o h (λ same. absurd (no_create same))
call_keeps_final now id (update run_id state reason) final o f no_create h =
    update_keeps_final now id run_id state final reason o f h
call_keeps_final now id (acquire worker_key run_id seconds) final o f no_create h =
    acquire_keeps_final now id worker_key run_id seconds final o f h
call_keeps_final now id (renew lease seconds) final o f no_create h = ground arith
call_keeps_final now id (release lease) final o f no_create h = ground arith

-- A run that has stopped, halted or been superseded keeps that state for good, whatever calls any
-- processes make, unless a run with its id is created anew.
pub final_run_stays :
    (id : String) (final : RunState) (cs : List (ℕ × Call)) (o : Ownership)
    → is_final final ≡ true
    → state_of id o ≡ some final
    → NeverCreated id cs
    → state_of id (calls cs o) ≡ some final
unfolding calls
final_run_stays id final [] o f h n = h
final_run_stays id final ((now, c) ∷ cs) o f h n =
    final_run_stays id final cs (call now c o) f (call_keeps_final now id c final o f n.0 h) n.1

superseded_is_final :
    (now : ℕ) (key run_id id : String) (run : RunEvidence)
    → id ≢ run_id
    → run.worker_key ≡ key
    → is_final (supersede now key run_id id run).state ≡ true
unfolding supersede
superseded_is_final now key run_id id run other same =
    ground (arith, eq_iff id run_id, eq_iff run.worker_key key)

-- When a run acquires the lease of a worker, every other run of that worker that the store has is
-- in a final state afterwards: no two runs of a worker are live.
pub one_live_run :
    (now seconds : ℕ) (key run_id id : String) (run : RunEvidence) (o : Ownership)
    → is_held now (lookup key o.leases) ≡ false
    → lookup id o.runs ≡ some run
    → run.worker_key ≡ key
    → id ≢ run_id
    → (r : RunEvidence) × (lookup id (acquire_ownership now key run_id seconds o).1.runs ≡ some r)
      × (is_final r.state ≡ true)
unfolding acquire_ownership
one_live_run now seconds key run_id id run o free there same other = (
  supersede now key run_id id run,
  rw (free, lookup-adjust (supersede now key run_id) id o.runs, there),
  superseded_is_final now key run_id id run other same,
)
