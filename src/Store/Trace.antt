-- ===== src/Store/Trace.antt =====
-- Sequences of calls that any processes make on the ownership part of the store, each at its own
-- time: an interleaving of the workers is one such sequence.
use thelight.Common.{ℕ, String, Option, List, [], ◌∷◌, or_else}
use thelight.Store.Data.{WorkerLease, RunState, Ownership}
use thelight.Store.Leases.{
  create_run, update_run, acquire_ownership, renew_ownership, release_ownership,
}

pub data Call : Type 0 where
  create : String → String → RunState → Call
  update : String → RunState → Option String → Call
  acquire : String → String → ℕ → Call
  renew : WorkerLease → ℕ → Call
  release : WorkerLease → Call

-- The state after a call; a rejected update throws and changes nothing.
unfoldable pub call : ℕ → Call → Ownership → Ownership
call now (create run_id worker_key state) o = create_run run_id worker_key state o
call now (update run_id state reason) o = or_else (update_run now run_id state reason o) o
call now (acquire worker_key run_id seconds) o =
    (acquire_ownership now worker_key run_id seconds o).1
call now (renew lease seconds) o = (renew_ownership now lease seconds o).1
call now (release lease) o = release_ownership lease o

unfoldable pub calls : List (ℕ × Call) → Ownership → Ownership
calls [] o = o
calls ((now, c) ∷ cs) o = calls cs (call now c o)
