-- ===== src/Runtime/Owned.antt =====
-- The methods that give ownership up, or write under it, advance the state.
use thelight.Common.{refl, String, Option, none, some, [], if◌then◌else◌, arith, ◌+◌}
use thelight.Number.{Num}
use thelight.Store.Data.{WorkerLease, Ownership}
use thelight.Runtime.World.{Worker, World, Setup}
use thelight.Runtime.Actions.{◌>>=◌, skip, modify, set}
use thelight.Runtime.Ownership.{
  store_run, store_checkpoint, lost, record_end, lose_ownership, lost_to_other, persist_checkpoint,
  release, halted_with, halt,
}
use thelight.Runtime.Keeps.{
  Keeps, Keeps-bind, Keeps-catching, Keeps-finally, Keeps-if, Keeps-if_null, Keeps-when, Keeps-pure,
  Keeps-raise, Keeps-skip, Keeps-gets,
}
use thelight.Runtime.Advance.{
  IsOrdered, Milder, Milder-refl, Rises-refl, Advance, FencedAdvance, Advance-IsPreorder,
  FencedAdvance-IsPreorder,
}
use thelight.Runtime.Stepping.{
  Milder-lost, fenced-step, fenced-set, fenced-assign, fenced-Advance, under_lease,
}

module _ {F S : Type 0} ⦃num : Num F⦄ (env : Setup F S) where
  pub fenced-store_run :
      (run_id : String) (reason : Option String)
      → Keeps (FencedAdvance env) (store_run env run_id reason)
  unfolding store_run
  fenced-store_run run_id reason =
      fenced-step env (λ w. Milder-refl w.worker) (λ w. refl) (λ w. refl)

  Advance-store_checkpoint : (l : WorkerLease) → Keeps (Advance env) (store_checkpoint env l)
  unfolding store_checkpoint
  Advance-store_checkpoint l = record {
    at_every = λ w. record { milder = Milder-refl w.worker; posts = ([], refl, tt) };
  }

module _ {F S : Type 0} ⦃num : Num F⦄ (env : Setup F S) (o : IsOrdered F) where
  pub fenced-record_end :
      (reason : Option String) → Keeps (FencedAdvance env) (record_end env reason)
  unfolding record_end
  fenced-record_end reason =
      let r = FencedAdvance-IsPreorder env o in
      search (
        Keeps-bind r,
        Keeps-gets r,
        Keeps-if_null r,
        Keeps-catching r,
        Keeps-pure r,
        Keeps-raise r,
        Keeps-if r,
        fenced-store_run env,
      )

  pub fenced-lose_ownership :
      (reason : String) → Keeps (FencedAdvance env) (lose_ownership env reason)
  unfolding lose_ownership
  fenced-lose_ownership reason =
      let r = FencedAdvance-IsPreorder env o in
      Keeps-bind r (Keeps-gets r _) (λ gone. Keeps-if r gone (Keeps-skip r) (
        Keeps-bind r (fenced-set env (lost reason) (Milder-lost reason))
          (λ _. Keeps-bind r (fenced-record_end (some reason)) (λ _. Keeps-skip r))))

  pub fenced-lost_to_other : {A : Type 0} → Keeps (FencedAdvance env) (lost_to_other {A = A} env)
  unfolding lost_to_other
  fenced-lost_to_other =
      let r = FencedAdvance-IsPreorder env o in
      search (Keeps-bind r, Keeps-raise r, fenced-lose_ownership)

  Advance-write_under :
      (l : WorkerLease)
      → Keeps
          (Advance env)
          (store_checkpoint env l >>= λ written. if written then skip else lost_to_other env)
  Advance-write_under l =
      let r = Advance-IsPreorder env o in
      Keeps-bind r (Advance-store_checkpoint env l)
        (λ written. Keeps-if r written (Keeps-skip r) (fenced-Advance env fenced-lost_to_other))

  pub fenced-persist_checkpoint : Keeps (FencedAdvance env) (persist_checkpoint env)
  unfolding persist_checkpoint
  fenced-persist_checkpoint =
      let r = FencedAdvance-IsPreorder env o in
      Keeps-bind r (fenced-assign env _ (λ k. refl) (λ k. refl) (λ k. refl) (λ k. refl))
        (λ _. under_lease env (Keeps-raise r _) Advance-write_under)

  Milder-give_up :
      (k : Worker F)
      → Milder k (record k { ownership = none; ownership_generation = k.ownership_generation + 1 })
  Milder-give_up k = record {
    lease = tt;
    high_water = Rises-refl k.checkpoint.paper_equity_high_water;
    barrier = omega arith;
    stays_stopped = λ h. h;
  }

  pub fenced-modify_owners :
      (f : World F S → Ownership)
      → Keeps (FencedAdvance env) (modify (λ w. record w { owners = f w }))
  unfolding modify
  fenced-modify_owners f = fenced-step env (λ w. Milder-refl w.worker) (λ w. refl) (λ w. refl)

  pub fenced-release : Keeps (FencedAdvance env) release
  unfolding release
  fenced-release =
      let r = FencedAdvance-IsPreorder env o in
      Keeps-bind r (Keeps-gets r _) (λ lease.
        Keeps-bind r (fenced-set env _ Milder-give_up)
          (λ _. Keeps-if_null r lease (Keeps-skip r) (λ held. fenced-modify_owners _)))

  fenced-halted_with : (reason : String) → Keeps (FencedAdvance env) (set (halted_with reason))
  unfolding halted_with
  fenced-halted_with reason = fenced-assign env _ (λ k. refl) (λ k. refl) (λ k. refl) (λ k. refl)

  pub fenced-halt : (reason : String) → Keeps (FencedAdvance env) (halt env reason)
  unfolding halt
  fenced-halt reason =
      let r = FencedAdvance-IsPreorder env o in
      Keeps-bind r (Keeps-gets r _) (λ owned. Keeps-if r _ (fenced-lose_ownership reason) (
        Keeps-bind r (fenced-halted_with reason) (λ _.
          Keeps-finally r
            (Keeps-bind r (fenced-record_end (some reason))
              (λ persisted. Keeps-when r persisted fenced-persist_checkpoint))
            fenced-release)))
