-- ===== src/Runtime/Advance.antt =====
-- How a method of a worker that is running changes the state: the lease is kept or dropped, the peak of
-- the equity and the barrier of a recovery only rise, and every POST is an authorized one.
use thelight.Common.{
  ◌≤◌, ◌≡◌, refl, sym, ◌∙◌, ap, ◌⊎◌, inl, inr, eq_iff, true, false, Option, none, some, List, [],
  ◌++◌, All, All-append, lookup, or_else, arith,
}
use mathlib.Core.List.{append_assoc}
use thelight.Number.{Num, ◌<F◌}
use thelight.Types.{ExecutionIntent, pending, submission_attempted}
use thelight.Order.{BrokerOrderState, is_found}
use thelight.Broker.Execution.{BrokerPositionSnapshot}
use thelight.Broker.Reads.{OpenBrokerOrder}
use thelight.Store.Data.{WorkerLease}
use thelight.Store.Leases.{is_current, same_lease}
use thelight.Store.Dispatch.{stored_status}
use thelight.Runtime.World.{ok, Worker, Post, World, Setup}
use thelight.Runtime.Broker.{is_untrusted, may_reach_broker}
use thelight.Runtime.Keeps.{IsPreorder}

-- `<` of the numbers is transitive, as that of doubles is.
pub record IsOrdered (F : Type 0) ⦃num : Num F⦄ : Type 0 where
  pub lt_trans : (x y z : F) → (x <F y) ≡ true → (y <F z) ≡ true → (x <F z) ≡ true

-- What is lent stays the same lease, renewed, or is given up.
abbrev pub LeaseKept : Option WorkerLease → Option WorkerLease → Type 0
LeaseKept before none = Unit
LeaseKept none (some l) = ⊥
LeaseKept (some k) (some l) = same_lease k l ≡ true

module _ {F : Type 0} ⦃num : Num F⦄ where
  abbrev pub Rises : Option F → Option F → Type 0
  Rises none after = Unit
  Rises (some x) none = ⊥
  Rises (some x) (some y) = (x ≡ y) ⊎ ((x <F y) ≡ true)

  pub record Milder (k k' : Worker F) : Type 0 where
    pub lease : LeaseKept k.ownership k'.ownership
    pub high_water :
        Rises k.checkpoint.paper_equity_high_water k'.checkpoint.paper_equity_high_water
    pub barrier :
        or_else k.checkpoint.recovery_dispatch_not_before_bucket_ms 0
        ≤ or_else k'.checkpoint.recovery_dispatch_not_before_bucket_ms 0
    pub stays_stopped : k.is_stopped ≡ true → k'.is_stopped ≡ true

module _ {F S : Type 0} ⦃num : Num F⦄ (env : Setup F S) where
  -- What the broker said last, when `s` is the state of the outside world: it was asked for the position,
  -- for the open orders and for the intent, one right after the other; it reported this position, no
  -- open order, and that it has no order of the intent, which is pending.
  abbrev pub PositionRead : BrokerPositionSnapshot F → S → Type 0
  PositionRead position s = (before : S) × (env.broker.position before ≡ (ok position, s))

  abbrev pub OrdersRead : BrokerPositionSnapshot F → List OpenBrokerOrder → S → Type 0
  OrdersRead position orders s =
      (before : S) × PositionRead position before × (env.broker.open_orders before ≡ (ok orders, s))

  abbrev pub IntentRead : ExecutionIntent → BrokerPositionSnapshot F → BrokerOrderState → S → Type 0
  IntentRead intent position state s =
      (before : S) × OrdersRead position [] before
      × (env.broker.reconcile intent before ≡ (ok state, s))

  abbrev pub IsFresh : ExecutionIntent → BrokerPositionSnapshot F → S → Type 0
  IsFresh intent position s =
      (state : BrokerOrderState) × (is_found state.lookup_state ≡ false)
      × (state.status ≡ pending)
      × IntentRead intent position state s

  -- An order that may go out: the runtime may reach the broker, the lease of this worker is in force,
  -- the store has the mark of the attempt, the position is one to rely on, and the last three answers of
  -- the broker before the POST allow it.
  pub record IsAuthorized (p : Post F S) : Type 0 where
    pub capable : may_reach_broker env ≡ true
    pub ours : p.lease.worker_key ≡ env.identity.worker_key
    pub held : is_current p.at p.lease (lookup p.lease.worker_key p.owners.leases) ≡ true
    pub marked :
        stored_status (lookup p.intent.intent_id p.orders.intents) ≡ some submission_attempted
    pub trusted : is_untrusted env.asset.symbol p.position ≡ false
    pub fresh :
        (asked : ExecutionIntent) × (p.intent ≡ record asked { status = pending })
        × IsFresh asked p.position p.outside

  abbrev pub Grown : List (Post F S) → List (Post F S) → Type 0
  Grown before after =
      (added : List (Post F S)) × (after ≡ added ++ before) × All IsAuthorized added

  pub record Advance (w w' : World F S) : Type 0 where
    pub milder : Milder w.worker w'.worker
    pub posts : Grown w.submitted w'.submitted

  -- Without a lease, nothing is sent and no checkpoint is written.
  pub record FencedAdvance (w w' : World F S) : Type 0 where
    pub advance : Advance w w'
    pub fenced :
        w.worker.ownership ≡ none → (w'.submitted ≡ w.submitted) × (w'.checkpoints ≡ w.checkpoints)

pub LeaseKept-refl : (a : Option WorkerLease) → LeaseKept a a
LeaseKept-refl none = tt
LeaseKept-refl (some l) = ground (arith, eq_iff l.run_id l.run_id)

LeaseKept-trans : (a b c : Option WorkerLease) → LeaseKept a b → LeaseKept b c → LeaseKept a c
LeaseKept-trans a b none h h' = tt
LeaseKept-trans a none (some l) h h' = absurd h'
LeaseKept-trans none (some k) (some l) h h' = h
LeaseKept-trans (some j) (some k) (some l) h h' =
    ground (arith, eq_iff j.run_id k.run_id, eq_iff k.run_id l.run_id, eq_iff j.run_id l.run_id)

pub LeaseKept-none : (a b : Option WorkerLease) → LeaseKept a b → a ≡ none → b ≡ none
LeaseKept-none none none h e = refl
LeaseKept-none none (some l) h e = absurd h
LeaseKept-none (some k) b h e = cc

module _ {F : Type 0} ⦃num : Num F⦄ where
  pub Rises-refl : (a : Option F) → Rises a a
  Rises-refl none = tt
  Rises-refl (some x) = inl refl

  Rises-trans : IsOrdered F → (a b c : Option F) → Rises a b → Rises b c → Rises a c
  Rises-trans o none b c h h' = tt
  Rises-trans o (some x) none c h h' = absurd h
  Rises-trans o (some x) (some y) none h h' = absurd h'
  Rises-trans o (some x) (some y) (some z) (inl e) (inl e') = inl (e ∙ e')
  Rises-trans o (some x) (some y) (some z) (inl e) (inr l) = inr (rw e l)
  Rises-trans o (some x) (some y) (some z) (inr l) (inl e) = inr (rw (sym e) l)
  Rises-trans o (some x) (some y) (some z) (inr l) (inr l') = inr (o.lt_trans x y z l l')

  pub Milder-refl : (k : Worker F) → Milder k k
  Milder-refl k = record {
    lease = LeaseKept-refl k.ownership;
    high_water = Rises-refl k.checkpoint.paper_equity_high_water;
    barrier = omega arith;
    stays_stopped = λ h. h;
  }

  Milder-trans : IsOrdered F → (a b c : Worker F) → Milder a b → Milder b c → Milder a c
  Milder-trans o a b c h h' = record {
    lease = LeaseKept-trans a.ownership b.ownership c.ownership h.lease h'.lease;
    high_water =
        Rises-trans o a.checkpoint.paper_equity_high_water b.checkpoint.paper_equity_high_water
          c.checkpoint.paper_equity_high_water h.high_water h'.high_water;
    barrier = omega (arith, h.barrier, h'.barrier);
    stays_stopped = λ e. h'.stays_stopped (h.stays_stopped e);
  }

module _ {F S : Type 0} ⦃num : Num F⦄ (env : Setup F S) where
  pub Grown-trans : (a b c : List (Post F S)) → Grown env a b → Grown env b c → Grown env a c
  Grown-trans a b c (xs, e, h) (ys, e', h') = (
    ys ++ xs,
    e' ∙ ap (λ t. ys ++ t) e ∙ sym (append_assoc ys xs a),
    All-append (IsAuthorized env) ys xs h' h,
  )

  pub Advance-IsPreorder : IsOrdered F → IsPreorder (Advance env)
  Advance-IsPreorder o = record {
    stays = λ w. record { milder = Milder-refl w.worker; posts = ([], refl, tt) };
    joins = λ u v w h h'. record {
      milder = Milder-trans o u.worker v.worker w.worker h.milder h'.milder;
      posts = Grown-trans u.submitted v.submitted w.submitted h.posts h'.posts;
    };
  }

  pub FencedAdvance-IsPreorder : IsOrdered F → IsPreorder (FencedAdvance env)
  FencedAdvance-IsPreorder o = record {
    stays = λ w. record { advance = (Advance-IsPreorder o).stays w; fenced = λ _. (refl, refl) };
    joins = λ u v w h h'. record {
      advance = (Advance-IsPreorder o).joins u v w h.advance h'.advance;
      fenced = λ e.
          let first = h.fenced e in
          let last =
            h'.fenced
              (LeaseKept-none u.worker.ownership v.worker.ownership h.advance.milder.lease e) in
          (last.0 ∙ first.0, last.1 ∙ first.1);
    };
  }
