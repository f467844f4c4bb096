-- ===== src/Runtime/Restart.antt =====
-- A restart reads what was written: the row of a checkpoint and `normalizeCheckpoint`.
use thelight.Common.{
  ℕ, ◌≡◌, refl, inl, inr, true, not, Option, none, some, Dict, lookup, lookup-insert_self, is_some,
  Bool-cases,
}
use thelight.Number.{Num, is_finite}
use thelight.Feature.EmaRsi.{TargetPosition, target_flat, target_long}
use thelight.Store.Data.{WorkerLease, Ownership}
use thelight.Store.Leases.{renew_ownership}
use thelight.Store.Checkpoint.{
  WorkerCheckpoint, StoredCheckpoint, row_of, number_of, target_of, if_finite,
  write_checkpoint_owned, normalize_checkpoint,
}
use thelight.Runtime.Lifecycle.{restored, lacks_high_water}

target_of-number_of : (t : Option TargetPosition) → target_of (number_of t) ≡ t
target_of-number_of none = refl
target_of-number_of (some target_flat) = refl
target_of-number_of (some target_long) = refl

module _ {F : Type 0} where
  write_checkpoint-row :
      (now : ℕ) (lease : WorkerLease) (c : WorkerCheckpoint F) (o : Ownership)
      (m : Dict (StoredCheckpoint F))
      → (write_checkpoint_owned now lease c o m).0 ≡ true
      → lookup lease.worker_key (write_checkpoint_owned now lease c o m).2 ≡ some (row_of c)
  unfolding write_checkpoint_owned
  write_checkpoint-row now lease c o m h =
      elim (Bool-cases (is_some (renew_ownership now lease 30 o).0)) [
        | inl e ↦ rw (e, write_checkpoint_owned) (lookup-insert_self lease.worker_key (row_of c) m)
        | inr e ↦ cc (rw (e, write_checkpoint_owned) at h)
      ]

module _ {F : Type 0} ⦃num : Num F⦄ where
  -- A number that is there is finite.
  abbrev pub IsFiniteOption : Option F → Type 0
  IsFiniteOption none = Unit
  IsFiniteOption (some x) = is_finite x ≡ true

  if_finite-some : (x : Option F) → IsFiniteOption x → if_finite x ≡ x
  if_finite-some none h = refl
  if_finite-some (some x) h = rw h

  normalize-row_of :
      (c : WorkerCheckpoint F)
      → IsFiniteOption c.paper_equity_high_water
      → IsFiniteOption c.last_paper_equity
      → normalize_checkpoint (row_of c) ≡ c
  unfolding normalize_checkpoint row_of
  normalize-row_of c high last = rw (
    if_finite-some c.paper_equity_high_water high,
    if_finite-some c.last_paper_equity last,
    target_of-number_of c.prior_risk_approved_target,
  )

  lacks-row_of :
      (c : WorkerCheckpoint F) (x : Option F)
      → c.paper_equity_high_water ≡ x
      → IsFiniteOption x
      → lacks_high_water (some (row_of c)) ≡ not (is_some x)
  unfolding row_of
  lacks-row_of c none e h = rw e
  lacks-row_of c (some x) e h = rw (e, h)

  -- When a checkpoint whose numbers are finite is written under a lease in force, a restart of the worker
  -- reads back exactly this checkpoint, and it asks for a recovery of the equity's peak if and only
  -- if the checkpoint has none.
  pub checkpoint_round_trip :
      (now : ℕ) (lease : WorkerLease) (c : WorkerCheckpoint F) (o : Ownership)
      (m : Dict (StoredCheckpoint F))
      → (write_checkpoint_owned now lease c o m).0 ≡ true
      → IsFiniteOption c.paper_equity_high_water
      → IsFiniteOption c.last_paper_equity
      → let row = lookup lease.worker_key (write_checkpoint_owned now lease c o m).2 in
        (restored row ≡ c) × (lacks_high_water row ≡ not (is_some c.paper_equity_high_water))
  checkpoint_round_trip now lease c o m written high last =
      rw (write_checkpoint-row now lease c o m written)
        (normalize-row_of c high last, lacks-row_of c c.paper_equity_high_water refl high)
