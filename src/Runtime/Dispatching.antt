-- ===== src/Runtime/Dispatching.antt =====
-- `dispatch` advances the state.
use thelight.Common.{
  ◌||◌, arith, ◌≡◌, refl, inl, inr, String, true, false, not, Option, none, some, List, [], ◌∷◌,
  Bool-cases, if◌then◌else◌,
}
use thelight.Number.{Num}
use thelight.Types.{ExecutionIntent, pending}
use thelight.Order.{BrokerOrderState, is_found, status_eq}
use thelight.Broker.Execution.{BrokerPositionSnapshot}
use thelight.Broker.Reads.{OpenBrokerOrder}
use thelight.Runtime.World.{Result, ok, World, Setup}
use thelight.Runtime.Actions.{◌>>=◌, ◌>>◌, raise, skip, gets, if_null, set, await}
use thelight.Runtime.Broker.{
  is_untrusted, may_reach_broker, ask, store_record, record_broker_state, store_intent, is_empty,
  resolve_and_submit, accept_position, dispatch, claim_and_submit,
}
use thelight.Runtime.Keeps.{
  Keeps, Keeps-bind, Keeps-if, Keeps-if_null, Keeps-raise, Keeps-skip, Keeps-gets,
  Keeps-after_raise, Meets, Carries, Meets-bind, Meets-then, Meets-weaken, Meets-Keeps,
  Carries-IsPreorder,
}
use thelight.Runtime.Advance.{
  IsOrdered, PositionRead, OrdersRead, IntentRead, FencedAdvance, FencedAdvance-IsPreorder,
}
use thelight.Runtime.Stepping.{fenced-assign, under_lease_where}
use thelight.Runtime.Sending.{
  fenced-modify_orders, fenced-ask, fenced-record_broker_state, claim-Meets,
}

answer_of : {A S : Type 0} (x : Result A × S) (a : A) → x.0 ≡ ok a → x ≡ (ok a, x.1)
answer_of (r, s) a h = rw h

-- What the outside world is after an answer of the broker
ask-answers :
    {F S A : Type 0} (env : Setup F S) (call : S → Result A × S) (w : World F S) (a : A)
    → may_reach_broker env ≡ true
    → (ask env call w).0 ≡ ok a
    → call w.outside ≡ (ok a, (ask env call w).1.outside)
unfolding ask await
ask-answers env call w a capable h = rw capable (answer_of (call w.outside) a (rw capable at h))

module _ {F S : Type 0} ⦃num : Num F⦄ (env : Setup F S) (o : IsOrdered F) where
  -- What is said of the outside world holds whatever the store and the worker become.
  record_broker_state-Carries :
      (P : S → Type 0) (state : BrokerOrderState) (reason : Option String)
      → Keeps (Carries (λ w. P w.outside)) (record_broker_state env state reason)
  unfolding record_broker_state store_record set raise
  record_broker_state-Carries P state reason =
      let c = Carries-IsPreorder (λ w. P w.outside) in
      Keeps-bind c (Keeps-gets c _) (λ lease. Keeps-if_null c lease (Keeps-raise c _) (λ held.
        Keeps-bind c (record { at_every = λ w h. h })
          (λ projected.
            Keeps-if_null c projected (Keeps-raise c _)
              (λ status. record { at_every = λ w h. h }))))

  may_post :
      (state : BrokerOrderState)
      → (is_found state.lookup_state || not (status_eq state.status pending)) ≡ false
      → (is_found state.lookup_state ≡ false) × (state.status ≡ pending)
  may_post state h = ground (arith, h)

  -- `dispatch` once the broker has answered for the intent
  answered-Meets :
      (intent : ExecutionIntent) (position : BrokerPositionSnapshot F) (state : BrokerOrderState)
      → may_reach_broker env ≡ true
      → is_untrusted env.asset.symbol position ≡ false
      → Meets
          (λ w. IntentRead env intent position state w.outside)
          (FencedAdvance env)
          (if is_found state.lookup_state || not (status_eq state.status pending)
            then skip
            else gets (λ w. w.worker.ownership) >>= λ lease.
                if_null lease
                  (raise "DISPATCH_OWNERSHIP_REQUIRED")
                  (claim_and_submit env intent position))
  answered-Meets intent position state capable trusted =
      let r = FencedAdvance-IsPreorder env o in
      elim (Bool-cases (is_found state.lookup_state || not (status_eq state.status pending))) [
        | inl e ↦ rw e (Meets-Keeps r (Keeps-skip r))
        | inr e ↦
            let (absent, waiting) = may_post state e in
            rw e (
              Meets-weaken (λ w h. (state, absent, waiting, h))
                (under_lease_where env (Keeps-raise r _)
                  (λ held. claim-Meets env o intent position held capable trusted)))
      ]

  -- `dispatch` once no order is open
  resolve-Meets :
      (intent : ExecutionIntent) (position : BrokerPositionSnapshot F)
      → may_reach_broker env ≡ true
      → is_untrusted env.asset.symbol position ≡ false
      → Meets
          (λ w. OrdersRead env position [] w.outside)
          (FencedAdvance env)
          (resolve_and_submit env intent position)
  unfolding resolve_and_submit
  resolve-Meets intent position capable trusted =
      let r = FencedAdvance-IsPreorder env o in
      Meets-then r (fenced-ask env o (env.broker.reconcile intent))
        (λ w h state e.
          (w.outside, h, ask-answers env (env.broker.reconcile intent) w state capable e))
        (λ state.
          Meets-bind r (fenced-record_broker_state env o state none)
            (record_broker_state-Carries (IntentRead env intent position state) state none)
            (λ _. answered-Meets intent position state capable trusted))

  pub fenced-set_orders :
      (orders : List OpenBrokerOrder)
      → Keeps (FencedAdvance env) (set (λ k. record k { open_orders = orders }))
  fenced-set_orders orders = fenced-assign env _ (λ k. refl) (λ k. refl) (λ k. refl) (λ k. refl)

  pub fenced-store_intent :
      (intent : ExecutionIntent) (reason : Option String)
      → Keeps (FencedAdvance env) (store_intent intent reason)
  fenced-store_intent intent reason = fenced-modify_orders env _

  -- `dispatch` with the open orders that it read
  orders-Meets :
      (intent : ExecutionIntent) (position : BrokerPositionSnapshot F)
      (orders : List OpenBrokerOrder)
      → may_reach_broker env ≡ true
      → is_untrusted env.asset.symbol position ≡ false
      → Meets
          (λ w. OrdersRead env position orders w.outside)
          (FencedAdvance env)
          (set (λ k. record k { open_orders = orders })
            >> (if not (is_empty orders)
                then store_intent intent (some "OPEN_ORDER_CONFLICT")
                else resolve_and_submit env intent position))
  unfolding set
  orders-Meets intent position [] capable trusted =
      Meets-bind (FencedAdvance-IsPreorder env o) (fenced-set_orders [])
        (record { at_every = λ w h. h }) (λ _. resolve-Meets intent position capable trusted)
  orders-Meets intent position (x ∷ xs) capable trusted =
      let r = FencedAdvance-IsPreorder env o in
      Meets-Keeps r (
        Keeps-bind r (fenced-set_orders (x ∷ xs))
          (λ _. fenced-store_intent intent (some "OPEN_ORDER_CONFLICT")))

  position-Meets :
      (intent : ExecutionIntent) (position : BrokerPositionSnapshot F)
      → may_reach_broker env ≡ true
      → Meets
          (λ w. PositionRead env position w.outside)
          (FencedAdvance env)
          (accept_position env position
            >> (ask env env.broker.open_orders >>= λ orders.
                set (λ k. record k { open_orders = orders })
                >> (if not (is_empty orders)
                    then store_intent intent (some "OPEN_ORDER_CONFLICT")
                    else resolve_and_submit env intent position)))
  unfolding accept_position set
  position-Meets intent position capable =
      let r = FencedAdvance-IsPreorder env o in
      elim (Bool-cases (is_untrusted env.asset.symbol position)) [
        | inl e ↦ rw e (Meets-Keeps r (Keeps-after_raise r _ _))
        | inr e ↦ rw e (
            Meets-bind r (fenced-assign env _ (λ k. refl) (λ k. refl) (λ k. refl) (λ k. refl))
              (record { at_every = λ w h. h })
              (λ _.
                Meets-then r (fenced-ask env o env.broker.open_orders)
                  (λ w h orders e'.
                    (w.outside, h, ask-answers env env.broker.open_orders w orders capable e'))
                  (λ orders. orders-Meets intent position orders capable e)))
      ]

  -- `dispatch` of a bar that is not stale
  reads-Keep :
      (intent : ExecutionIntent)
      → may_reach_broker env ≡ true
      → Keeps (FencedAdvance env) (
          ask env env.broker.position >>= λ position.
          accept_position env position
          >> (ask env env.broker.open_orders >>= λ orders.
              set (λ k. record k { open_orders = orders })
              >> (if not (is_empty orders)
                  then store_intent intent (some "OPEN_ORDER_CONFLICT")
                  else resolve_and_submit env intent position)))
  reads-Keep intent capable = record {
    at_every = λ w.
        (Meets-then (FencedAdvance-IsPreorder env o) {P = λ _. Unit}
            (fenced-ask env o env.broker.position)
            (λ v _ position e.
              (v.outside, ask-answers env env.broker.position v position capable e))
            (λ position. position-Meets intent position capable)).at_each
          w tt;
  }

  pub fenced-dispatch : (intent : ExecutionIntent) → Keeps (FencedAdvance env) (dispatch env intent)
  unfolding dispatch ask
  fenced-dispatch intent =
      let r = FencedAdvance-IsPreorder env o in
      Keeps-bind r (Keeps-gets r _) (λ stale.
        Keeps-if r stale (fenced-store_intent _ _) (elim (Bool-cases (may_reach_broker env)) [
          | inl e ↦ reads-Keep intent e
          | inr e ↦ rw e (Keeps-after_raise r _ _)
        ]))
