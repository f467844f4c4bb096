-- ===== src/Runtime/Sending.antt =====
-- The methods that talk to the broker advance the state: every order that goes out is authorized.
use thelight.Common.{
  ◌≡◌, refl, inl, inr, String, true, false, not, Option, none, some, [], ◌∷◌, Bool-cases,
}
use thelight.Number.{Num}
use thelight.Types.{ExecutionIntent, pending}
use thelight.Order.{BrokerOrderState}
use thelight.Store.Data.{WorkerLease, Orders}
use thelight.Store.Intents.{with_dispatch_authority}
use thelight.Store.Authority.{authority_conditions}
use thelight.Broker.Execution.{BrokerPositionSnapshot}
use thelight.Runtime.World.{Result, World, Setup}
use thelight.Runtime.Actions.{◌>>=◌, pure, raise, modify, await, now}
use thelight.Runtime.Ownership.{lost_to_other}
use thelight.Runtime.Broker.{
  is_untrusted, may_reach_broker, ask, store_record, record_broker_state, store_claim, scope_of,
  post_of, send_order, submit_with_authority, claim_and_submit, accept_position,
}
use thelight.Runtime.Keeps.{
  Keeps, Keeps-bind, Keeps-if, Keeps-if_null, Keeps-when, Keeps-pure, Keeps-raise, Keeps-gets,
  Meets, Carries, Meets-bind, Meets-after, Meets-if, Meets-Keeps,
}
use thelight.Runtime.Advance.{
  IsOrdered, IsFresh, IsAuthorized, Milder-refl, Advance, FencedAdvance, Advance-IsPreorder,
  FencedAdvance-IsPreorder,
}
use thelight.Runtime.Stepping.{fenced-step, fenced-assign, fenced-Advance}
use thelight.Runtime.Owned.{fenced-lost_to_other, fenced-halt}

module _ {F S : Type 0} ⦃num : Num F⦄ (env : Setup F S) where
  pub fenced-await :
      {A : Type 0} (call : S → Result A × S) → Keeps (FencedAdvance env) (await env call)
  unfolding await
  fenced-await call = fenced-step env (λ w. Milder-refl w.worker) (λ w. refl) (λ w. refl)

  fenced-store_record :
      (l : WorkerLease) (state : BrokerOrderState) (reason : Option String)
      → Keeps (FencedAdvance env) (store_record env l state reason)
  unfolding store_record
  fenced-store_record l state reason =
      fenced-step env (λ w. Milder-refl w.worker) (λ w. refl) (λ w. refl)

  fenced-store_claim :
      (l : WorkerLease) (intent : ExecutionIntent)
      → Keeps (FencedAdvance env) (store_claim env l intent)
  unfolding store_claim
  fenced-store_claim l intent = fenced-step env (λ w. Milder-refl w.worker) (λ w. refl) (λ w. refl)

  pub fenced-modify_orders :
      (f : World F S → Orders F)
      → Keeps (FencedAdvance env) (modify (λ w. record w { orders = f w }))
  unfolding modify
  fenced-modify_orders f = fenced-step env (λ w. Milder-refl w.worker) (λ w. refl) (λ w. refl)

module _ {F S : Type 0} ⦃num : Num F⦄ (env : Setup F S) (o : IsOrdered F) where
  pub fenced-ask : {A : Type 0} (call : S → Result A × S) → Keeps (FencedAdvance env) (ask env call)
  unfolding ask
  fenced-ask call =
      let r = FencedAdvance-IsPreorder env o in
      Keeps-if r (may_reach_broker env) (fenced-await env call) (Keeps-raise r _)

  pub fenced-record_broker_state :
      (state : BrokerOrderState) (reason : Option String)
      → Keeps (FencedAdvance env) (record_broker_state env state reason)
  unfolding record_broker_state
  fenced-record_broker_state state reason =
      let r = FencedAdvance-IsPreorder env o in
      Keeps-bind r (Keeps-gets r _) (λ lease. Keeps-if_null r lease (Keeps-raise r _) (λ held.
        Keeps-bind r (fenced-store_record env held state reason) (λ projected.
          Keeps-if_null r projected (Keeps-raise r _)
            (λ status. fenced-assign env _ (λ k. refl) (λ k. refl) (λ k. refl) (λ k. refl)))))

  pub fenced-accept_position :
      (position : BrokerPositionSnapshot F)
      → Keeps (FencedAdvance env) (accept_position env position)
  unfolding accept_position
  fenced-accept_position position =
      let r = FencedAdvance-IsPreorder env o in
      Keeps-if r _ (Keeps-raise r _)
        (fenced-assign env _ (λ k. refl) (λ k. refl) (λ k. refl) (λ k. refl))

  -- What `dispatch` has heard from the broker when it claims the intent.
  abbrev pub Fresh : ExecutionIntent → BrokerPositionSnapshot F → World F S → Type 0
  Fresh intent position w = IsFresh env intent position w.outside

  Advance-post :
      (l : WorkerLease) (intent : ExecutionIntent) (position : BrokerPositionSnapshot F)
      (w : World F S)
      → IsAuthorized env (post_of env l intent position w)
      → Advance env w (record w { submitted = post_of env l intent position w ∷ w.submitted })
  Advance-post l intent position w fine = record {
    milder = Milder-refl w.worker;
    posts = (post_of env l intent position w ∷ [], refl, (fine, tt));
  }

  send_order-advances :
      (l : WorkerLease) (intent : ExecutionIntent) (position : BrokerPositionSnapshot F)
      (w : World F S)
      → IsAuthorized env (post_of env l intent position w)
      → Advance env w (send_order env l intent position w).1
  unfolding send_order ◌>>=◌ modify raise pure
  send_order-advances l intent position w fine =
      let a = Advance-IsPreorder env o in
      let posted : World F S = record w {
        submitted = post_of env l intent position w ∷ w.submitted;
      } in
      let sent =
        Keeps-bind a (fenced-Advance env (fenced-await env (env.broker.submit intent position)))
          (λ state. Keeps-pure a (some state)) in
      rw (fine.capable)
        (a.joins w posted _ (Advance-post l intent position w fine) (sent.at_every posted))

  submit-Meets :
      (l : WorkerLease) (intent : ExecutionIntent) (position : BrokerPositionSnapshot F)
      → may_reach_broker env ≡ true
      → is_untrusted env.asset.symbol position ≡ false
      → Meets (Fresh intent position) (Advance env) (submit_with_authority env l intent position)
  unfolding submit_with_authority
  submit-Meets l intent position capable trusted = record {
    at_each = λ w fresh.
        let a = Advance-IsPreorder env o in
        let authority =
          with_dispatch_authority (now env w) l intent.intent_id (scope_of env) w.owners w.orders in
        let w' : World F S = record w { owners = authority.1 } in
        let sent : ExecutionIntent = record intent { status = pending } in
        let step : Advance env w w' = record {
          milder = Milder-refl w.worker;
          posts = ([], refl, tt);
        } in
        elim (Bool-cases authority.0) [
          | inl e ↦
              let c =
                authority_conditions (now env w) l intent.intent_id (scope_of env) w.owners w.orders
                  e in
              let fine : IsAuthorized env (post_of env l sent position w') = record {
                capable = capable;
                ours = c.0;
                held = c.1;
                marked = c.2;
                trusted = trusted;
                fresh = (intent, refl, fresh);
              } in
              rw e (a.joins w w' _ step (send_order-advances l sent position w' fine))
          | inr e ↦ rw e step
        ];
  }

  fenced-lost : {A : Type 0} → Keeps (Advance env) (lost_to_other {A = A} env)
  fenced-lost = fenced-Advance env (fenced-lost_to_other env o)

  Fresh-store_claim :
      (l : WorkerLease) (intent : ExecutionIntent) (position : BrokerPositionSnapshot F)
      → Keeps (Carries (Fresh intent position)) (store_claim env l intent)
  unfolding store_claim
  Fresh-store_claim l intent position = record { at_every = λ w h. h }

  pub claim-Meets :
      (intent : ExecutionIntent) (position : BrokerPositionSnapshot F) (l : WorkerLease)
      → may_reach_broker env ≡ true
      → is_untrusted env.asset.symbol position ≡ false
      → Meets (Fresh intent position) (Advance env) (claim_and_submit env intent position l)
  unfolding claim_and_submit
  claim-Meets intent position l capable trusted =
      let a = Advance-IsPreorder env o in
      Meets-bind a (fenced-Advance env (fenced-store_claim env l intent))
        (Fresh-store_claim l intent position)
        (λ claimed. Meets-if a (not claimed) (Meets-Keeps a fenced-lost) (
          Meets-after a (submit-Meets l intent position capable trusted) (λ submitted.
            Keeps-if_null a submitted fenced-lost (λ state.
              Keeps-bind a (fenced-Advance env (fenced-record_broker_state state none)) (λ _.
                Keeps-when a _ (
                  fenced-Advance env
                    (fenced-halt env o "UNKNOWN_SUBMISSION_REQUIRES_RECOVERY")))))))
