-- ===== src/Runtime/Reconciling.antt =====
-- `refreshPaperEquity`, `reconcileInternal` and `reconcile` advance the state.
use thelight.Common.{
  refl, inl, inr, true, false, Option, none, some, List, [], ◌∷◌, Bool-cases, arith,
}
use thelight.Number.{Num, ◌<F◌}
use thelight.Store.Data.{StoredIntent}
use thelight.Runtime.World.{Worker, Setup}
use thelight.Runtime.Broker.{
  with_equity, raised, refresh_paper_equity, reconcile_intent, reconcile_intents,
  reconcile_with_broker, reconcile_internal, reconcile,
}
use thelight.Runtime.Keeps.{
  Keeps, Keeps-bind, Keeps-catching, Keeps-if, Keeps-if_null, Keeps-when, Keeps-pure, Keeps-raise,
  Keeps-skip, Keeps-gets,
}
use thelight.Runtime.Advance.{
  IsOrdered, Milder, Rises, LeaseKept-refl, FencedAdvance, FencedAdvance-IsPreorder,
}
use thelight.Runtime.Stepping.{fenced-set, fenced-assign}
use thelight.Runtime.Owned.{
  fenced-store_run, fenced-lose_ownership, fenced-persist_checkpoint, fenced-halt,
}
use thelight.Runtime.Sending.{fenced-ask, fenced-record_broker_state, fenced-accept_position}
use thelight.Runtime.Dispatching.{fenced-set_orders, fenced-dispatch}

module _ {F : Type 0} ⦃num : Num F⦄ where
  -- The peak after an account was read is the larger one.
  raised-Rises : (equity : F) (prior : Option F) → Rises prior (some (raised equity prior))
  raised-Rises equity none = tt
  raised-Rises equity (some x) = elim (Bool-cases (x <F equity)) [
    | inl e ↦ rw e (inr e)
    | inr e ↦ rw e (inl refl)
  ]

  Milder-with_equity : (equity : F) (k : Worker F) → Milder k (with_equity equity k)
  Milder-with_equity equity k = record {
    lease = LeaseKept-refl k.ownership;
    high_water = raised-Rises equity k.checkpoint.paper_equity_high_water;
    barrier = omega arith;
    stays_stopped = λ h. h;
  }

module _ {F S : Type 0} ⦃num : Num F⦄ (env : Setup F S) (o : IsOrdered F) where
  pub fenced-refresh : Keeps (FencedAdvance env) (refresh_paper_equity env)
  unfolding refresh_paper_equity
  fenced-refresh =
      let r = FencedAdvance-IsPreorder env o in
      Keeps-bind r (Keeps-gets r _) (λ lost. Keeps-if r lost (Keeps-raise r _) (
        Keeps-bind r (fenced-ask env o env.broker.account) (λ account.
          Keeps-if r _ (Keeps-raise r _) (
            Keeps-bind r
              (fenced-set env (with_equity account.equity) (Milder-with_equity account.equity))
              (λ _. fenced-persist_checkpoint env o)))))

  fenced-reconcile_intent :
      (stored : StoredIntent) → Keeps (FencedAdvance env) (reconcile_intent env stored)
  unfolding reconcile_intent
  fenced-reconcile_intent stored =
      let r = FencedAdvance-IsPreorder env o in
      Keeps-if r _ (Keeps-skip r) (
        Keeps-bind r (fenced-ask env o (env.broker.reconcile stored.intent)) (λ state.
          Keeps-if r _ (Keeps-raise r _) (
            Keeps-bind r (fenced-record_broker_state env o state stored.dispatch_block_reason) (λ _.
              Keeps-if r _ (Keeps-raise r _)
                (Keeps-when r _ (fenced-dispatch env o stored.intent))))))

  fenced-reconcile_intents :
      (intents : List StoredIntent) → Keeps (FencedAdvance env) (reconcile_intents env intents)
  unfolding reconcile_intents
  fenced-reconcile_intents [] = Keeps-skip (FencedAdvance-IsPreorder env o)
  fenced-reconcile_intents (stored ∷ rest) =
      Keeps-bind (FencedAdvance-IsPreorder env o) (fenced-reconcile_intent stored)
        (λ _. fenced-reconcile_intents rest)

  fenced-reconcile_with_broker : Keeps (FencedAdvance env) (reconcile_with_broker env)
  unfolding reconcile_with_broker
  fenced-reconcile_with_broker =
      let r = FencedAdvance-IsPreorder env o in
      Keeps-bind r fenced-refresh (λ _. Keeps-bind r (Keeps-gets r _) (λ stopped.
        Keeps-if r stopped (Keeps-skip r) (
          Keeps-bind r (fenced-ask env o env.broker.position) (λ position.
            Keeps-bind r (Keeps-gets r _) (λ stopped'. Keeps-if r stopped' (Keeps-skip r) (
              Keeps-bind r (fenced-accept_position env o position) (λ _.
                Keeps-bind r (fenced-ask env o env.broker.open_orders) (λ orders.
                  Keeps-bind r (fenced-set_orders env o orders) (λ _.
                    Keeps-bind r (Keeps-gets r _) (λ intents.
                      Keeps-if_null r _
                        (Keeps-bind r (fenced-reconcile_intents intents) (λ _.
                          Keeps-bind r (Keeps-gets r _) (λ time.
                            fenced-assign env _ (λ k. refl) (λ k. refl) (λ k. refl) (λ k. refl))))
                        (λ order. Keeps-raise r _)))))))))))

  pub fenced-reconcile_internal : Keeps (FencedAdvance env) (reconcile_internal env)
  unfolding reconcile_internal
  fenced-reconcile_internal =
      let r = FencedAdvance-IsPreorder env o in
      Keeps-bind r (fenced-assign env _ (λ k. refl) (λ k. refl) (λ k. refl) (λ k. refl)) (λ _.
        Keeps-bind r (Keeps-gets r _) (λ run. Keeps-if_null r run (Keeps-raise r _) (λ run_id.
          Keeps-bind r
            (Keeps-catching r
              (Keeps-bind r (fenced-store_run env run_id none) (λ _. Keeps-pure r false))
              (λ e.
                Keeps-if r _ (Keeps-bind r (fenced-lose_ownership env o _) (λ _. Keeps-pure r true))
                  (Keeps-raise r e)))
            (λ fenced. Keeps-if r fenced (Keeps-skip r) fenced-reconcile_with_broker))))

  pub fenced-reconcile : Keeps (FencedAdvance env) (reconcile env)
  unfolding reconcile
  fenced-reconcile =
      let r = FencedAdvance-IsPreorder env o in
      Keeps-bind r (Keeps-gets r _) (λ idle. Keeps-if r _ (Keeps-skip r) (
        Keeps-catching r
          (Keeps-bind r fenced-reconcile_internal (λ _. Keeps-bind r (Keeps-gets r _) (λ stopped.
            Keeps-if r stopped (Keeps-skip r) (
              Keeps-bind r (fenced-assign env _ (λ k. refl) (λ k. refl) (λ k. refl) (λ k. refl))
                (λ _.
                  Keeps-bind r (fenced-persist_checkpoint env o)
                    (λ _. Keeps-bind r (Keeps-gets r _) (λ run. fenced-store_run env run none)))))))
          (λ e.
            Keeps-bind r (Keeps-gets r _)
              (λ stopped. Keeps-if r stopped (Keeps-skip r) (fenced-halt env o e)))))
