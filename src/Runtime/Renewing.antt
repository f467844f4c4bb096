-- ===== src/Runtime/Renewing.antt =====
-- A renewal gives the worker the same lease again.
use thelight.Common.{
  ℕ, ◌≡◌, refl, inl, inr, true, false, Option, none, some, [], Option-cases, Bool-cases, arith,
  lookup, sym, eq_iff, ◌+◌, ◌*◌, ◌==◌,
}
use thelight.Number.{Num}
use thelight.Store.Data.{WorkerLease, Ownership}
use thelight.Store.Leases.{renew_ownership, is_current, same_lease}
use thelight.Runtime.World.{Worker, World, Setup}
use thelight.Runtime.Actions.{Action, ◌>>=◌, ◌>>◌, pure, gets, set, when, if_null, now}
use thelight.Runtime.Ownership.{store_renew, adopt, confirm_current_ownership, renew}
use thelight.Runtime.Keeps.{
  Keeps, Keeps-bind, Keeps-if, Keeps-pure, Keeps-skip, Keeps-gets, Carries, Meets, Meets-bind,
  Meets-after, Meets-when, Carries-IsPreorder,
}
use thelight.Runtime.Advance.{
  IsOrdered, Milder, Milder-refl, Rises-refl, Advance, FencedAdvance, Advance-IsPreorder,
  FencedAdvance-IsPreorder,
}
use thelight.Runtime.Stepping.{fenced-Advance}
use thelight.Runtime.Owned.{fenced-lose_ownership}

-- A renewed lease is the same lease.
renew-same :
    (now seconds : ℕ) (lease c : WorkerLease) (o : Ownership)
    → (renew_ownership now lease seconds o).0 ≡ some c
    → same_lease lease c ≡ true
unfolding renew_ownership
renew-same now seconds lease c o h = elim (Option-cases (lookup lease.worker_key o.leases)) [
  | inl e ↦ cc (rw (e, renew_ownership) at h)
  | inr (current, e) ↦ elim (Bool-cases (is_current now lease (some current))) [
    | inl held ↦
        let same : record current { lease_expires_at = now + seconds * 1000 } ≡ c =
          cc (rw (e, renew_ownership, held) at h) in
        rw (sym same)
          (ground (arith, eq_iff current.run_id lease.run_id, eq_iff lease.run_id current.run_id))
    | inr gone ↦ cc (rw (e, renew_ownership, gone) at h)
  ]
]

module _ {F S : Type 0} ⦃num : Num F⦄ (env : Setup F S) (o : IsOrdered F) where
  abbrev Holding : WorkerLease → World F S → Type 0
  Holding l w = w.worker.ownership ≡ some l

  Milder-adopt :
      (l c : WorkerLease) (k : Worker F)
      → k.ownership ≡ some l
      → same_lease l c ≡ true
      → Milder k (adopt c k)
  Milder-adopt l c k e same = record {
    lease = rw e same;
    high_water = Rises-refl k.checkpoint.paper_equity_high_water;
    barrier = omega arith;
    stays_stopped = λ h. h;
  }

  Meets-adopt :
      (l c : WorkerLease) → same_lease l c ≡ true → Meets (Holding l) (Advance env) (set (adopt c))
  unfolding set
  Meets-adopt l c same = record {
    at_each = λ w e. record { milder = Milder-adopt l c w.worker e same; posts = ([], refl, tt) };
  }

  module _ {A : Type 0} {m : Action F S A} {f : WorkerLease → Action F S A} where
    after_renewal :
        (l : WorkerLease)
        → Keeps (Advance env) m
        → ((c : WorkerLease) → same_lease l c ≡ true → Meets (Holding l) (Advance env) (f c))
        → (w : World F S) → w.worker.ownership ≡ some l
        → (x : Option WorkerLease) → ((c : WorkerLease) → x ≡ some c → same_lease l c ≡ true)
        → Advance env w (if_null x m f w).1
    unfolding if_null
    after_renewal l h h' w e none s = h.at_every w
    after_renewal l h h' w e (some c) s = (h' c (s c refl)).at_each w e

    -- The lease is renewed, and adopted if it is.
    Meets-renewal :
        (l : WorkerLease)
        → Keeps (Advance env) m
        → ((c : WorkerLease) → same_lease l c ≡ true → Meets (Holding l) (Advance env) (f c))
        → Meets (Holding l) (Advance env) (store_renew env l >>= λ renewed. if_null renewed m f)
    unfolding ◌>>=◌ store_renew
    Meets-renewal l h h' = record {
      at_each = λ w e.
          let w' = record w { owners = (renew_ownership (now env w) l 30 w.owners).1 } in
          (Advance-IsPreorder env o).joins w w' _
            (record { milder = Milder-refl w.worker; posts = ([], refl, tt) })
            (after_renewal l h h' w' e (renew_ownership (now env w) l 30 w.owners).0
              (λ c. renew-same (now env w) 30 l c w.owners));
    }

  Holding-gets :
      {A : Type 0} (l : WorkerLease) (f : World F S → A) → Keeps (Carries (Holding l)) (gets f)
  Holding-gets l f = Keeps-gets (Carries-IsPreorder (Holding l)) f

  confirm-adopts :
      (l c : WorkerLease)
      → same_lease l c ≡ true
      → Meets (Holding l) (Advance env) (set (adopt c) >> pure true)
  confirm-adopts l c same =
      let r = Advance-IsPreorder env o in
      Meets-after r (Meets-adopt l c same) (λ _. Keeps-pure r true)

  renew-adopts :
      (generation : ℕ) (l c : WorkerLease)
      → same_lease l c ≡ true
      → Meets (Holding l) (Advance env) (
          gets (λ w. w.worker.ownership_generation == generation) >>= λ same.
          when same (set (adopt c)))
  renew-adopts generation l c same =
      let r = Advance-IsPreorder env o in
      Meets-bind r (Keeps-gets r _) (Holding-gets l _) (λ b. Meets-when r b (Meets-adopt l c same))

  module _ {A : Type 0} {m : Action F S A} {f : WorkerLease → Action F S A} where
    after_lease_held :
        Keeps (FencedAdvance env) m
        → ((l : WorkerLease) → Meets (Holding l) (Advance env) (f l))
        → (w : World F S) (lease : Option WorkerLease) → w.worker.ownership ≡ lease
        → FencedAdvance env w (if_null lease m f w).1
    unfolding if_null
    after_lease_held h h' w none e = h.at_every w
    after_lease_held h h' w (some l) e = record {
      advance = (h' l).at_each w e;
      fenced = λ n. cc (n, e);
    }

    -- The same, where the lease that is read matters
    pub with_lease :
        Keeps (FencedAdvance env) m
        → ((l : WorkerLease) → Meets (Holding l) (Advance env) (f l))
        → Keeps (FencedAdvance env) (gets (λ w. w.worker.ownership) >>= λ l. if_null l m f)
    unfolding ◌>>=◌ gets
    with_lease h h' = record { at_every = λ w. after_lease_held h h' w w.worker.ownership refl }

  pub fenced-confirm : Keeps (FencedAdvance env) (confirm_current_ownership env)
  unfolding confirm_current_ownership
  fenced-confirm =
      let r = FencedAdvance-IsPreorder env o in
      let a = Advance-IsPreorder env o in
      Keeps-bind r (Keeps-gets r _) (λ stopped. Keeps-if r stopped (Keeps-pure r false) (
        with_lease (Keeps-pure r false) (λ held.
          Meets-renewal held
            (Keeps-bind a
              (fenced-Advance env (fenced-lose_ownership env o "DISPATCH_OWNERSHIP_LOST"))
              (λ _. Keeps-pure a false))
            (confirm-adopts held))))

  pub fenced-renew : (generation : ℕ) → Keeps (FencedAdvance env) (renew env generation)
  unfolding renew
  fenced-renew generation =
      let r = FencedAdvance-IsPreorder env o in
      Keeps-bind r (Keeps-gets r _) (λ idle. Keeps-if r idle (Keeps-skip r) (
        with_lease (Keeps-skip r) (λ held.
          Meets-renewal held
            (fenced-Advance env (fenced-lose_ownership env o "DISPATCH_OWNERSHIP_LOST"))
            (renew-adopts generation held))))
