-- ===== src/Runtime/Stepping.antt =====
-- Actions that change only some fields of the worker, and what is done under a lease that is read.
use thelight.Common.{◌≡◌, refl, String, Option, none, some, [], arith}
use thelight.Number.{Num}
use thelight.Store.Data.{WorkerLease}
use thelight.Runtime.World.{Worker, World, Setup}
use thelight.Runtime.Actions.{Action, ◌>>=◌, gets, set, if_null}
use thelight.Runtime.Ownership.{lost}
use thelight.Runtime.Keeps.{Keeps, Keeps-weaken, Meets}
use thelight.Runtime.Advance.{Milder, Rises-refl, LeaseKept-refl, Advance, FencedAdvance}

module _ {F : Type 0} ⦃num : Num F⦄ where
  pub Milder-same :
      (k k' : Worker F)
      → k'.ownership ≡ k.ownership
      → k'.checkpoint.paper_equity_high_water ≡ k.checkpoint.paper_equity_high_water
      → k'.checkpoint.recovery_dispatch_not_before_bucket_ms
        ≡ k.checkpoint.recovery_dispatch_not_before_bucket_ms
      → k'.is_stopped ≡ k.is_stopped
      → Milder k k'
  Milder-same k k' a b c d = record {
    lease = rw a (LeaseKept-refl k.ownership);
    high_water = rw b (Rises-refl k.checkpoint.paper_equity_high_water);
    barrier = rw c (omega arith);
    stays_stopped = λ h. rw d h;
  }

  pub Milder-lost : (reason : String) (k : Worker F) → Milder k (lost reason k)
  unfolding lost
  Milder-lost reason k = record {
    lease = tt;
    high_water = Rises-refl k.checkpoint.paper_equity_high_water;
    barrier = omega arith;
    stays_stopped = λ h. refl;
  }

module _ {F S : Type 0} ⦃num : Num F⦄ (env : Setup F S) where
  -- A step that touches neither the POSTs nor the checkpoints
  pub fenced-step :
      {A : Type 0} {m : Action F S A}
      → ((w : World F S) → Milder w.worker (m w).1.worker)
      → ((w : World F S) → (m w).1.submitted ≡ w.submitted)
      → ((w : World F S) → (m w).1.checkpoints ≡ w.checkpoints)
      → Keeps (FencedAdvance env) m
  fenced-step {m = m} worker posts rows = record {
    at_every = λ w. record {
      advance = record { milder = worker w; posts = ([], posts w, tt) };
      fenced = λ _. (posts w, rows w);
    };
  }

  pub fenced-set :
      (f : Worker F → Worker F)
      → ((k : Worker F) → Milder k (f k))
      → Keeps (FencedAdvance env) (set f)
  unfolding set
  fenced-set f h = fenced-step (λ w. h w.worker) (λ w. refl) (λ w. refl)

  -- An assignment to other fields
  pub fenced-assign :
      (f : Worker F → Worker F)
      → ((k : Worker F) → (f k).ownership ≡ k.ownership)
      → ((k : Worker F)
          → (f k).checkpoint.paper_equity_high_water ≡ k.checkpoint.paper_equity_high_water)
      → ((k : Worker F)
          → (f k).checkpoint.recovery_dispatch_not_before_bucket_ms
            ≡ k.checkpoint.recovery_dispatch_not_before_bucket_ms)
      → ((k : Worker F) → (f k).is_stopped ≡ k.is_stopped)
      → Keeps (FencedAdvance env) (set f)
  fenced-assign f a b c d = fenced-set f (λ k. Milder-same k (f k) (a k) (b k) (c k) (d k))

  pub fenced-Advance :
      {A : Type 0} {m : Action F S A} → Keeps (FencedAdvance env) m → Keeps (Advance env) m
  fenced-Advance h = Keeps-weaken (λ w w' x. x.advance) h

  module _ {A : Type 0} {m : Action F S A} {f : WorkerLease → Action F S A} where
    after_lease :
        Keeps (FencedAdvance env) m
        → ((l : WorkerLease) → Keeps (Advance env) (f l))
        → (w : World F S) (lease : Option WorkerLease) → w.worker.ownership ≡ lease
        → FencedAdvance env w (if_null lease m f w).1
    unfolding if_null
    after_lease h h' w none e = h.at_every w
    after_lease h h' w (some l) e = record { advance = (h' l).at_every w; fenced = λ n. cc (n, e) }

    -- What is done under a lease only has to advance.
    pub under_lease :
        Keeps (FencedAdvance env) m
        → ((l : WorkerLease) → Keeps (Advance env) (f l))
        → Keeps (FencedAdvance env) (gets (λ w. w.worker.ownership) >>= λ l. if_null l m f)
    unfolding ◌>>=◌ gets
    under_lease h h' = record { at_every = λ w. after_lease h h' w w.worker.ownership refl }

  module _ {A : Type 0} {P : World F S → Type 0} {m : Action F S A}
      {f : WorkerLease → Action F S A} where
    after_lease_where :
        Keeps (FencedAdvance env) m
        → ((l : WorkerLease) → Meets P (Advance env) (f l))
        → (w : World F S) (lease : Option WorkerLease) → P w
        → w.worker.ownership ≡ lease
        → FencedAdvance env w (if_null lease m f w).1
    unfolding if_null
    after_lease_where h h' w none p e = h.at_every w
    after_lease_where h h' w (some l) p e = record {
      advance = (h' l).at_each w p;
      fenced = λ n. cc (n, e);
    }

    pub under_lease_where :
        Keeps (FencedAdvance env) m
        → ((l : WorkerLease) → Meets P (Advance env) (f l))
        → Meets P (FencedAdvance env) (gets (λ w. w.worker.ownership) >>= λ l. if_null l m f)
    unfolding ◌>>=◌ gets
    under_lease_where h h' = record {
      at_each = λ w p. after_lease_where h h' w w.worker.ownership p refl;
    }
