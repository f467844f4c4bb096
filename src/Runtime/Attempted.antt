-- ===== src/Runtime/Attempted.antt =====
-- An intent whose submission was attempted is not sent again by a reconciliation.
use thelight.Common.{
  ◌≡◌, refl, ◌∙◌, ◌⊎◌, inl, inr, String, Bool, true, false, ◌&&◌, Option, Bool-cases,
}
use thelight.Number.{Num}
use thelight.Types.{ExecutionStatus, pending, submission_attempted}
use thelight.Order.{BrokerOrderState, status_eq, is_absent}
use thelight.Store.Data.{StoredIntent}
use thelight.Runtime.World.{Result, ok, err, World, Setup}
use thelight.Runtime.Actions.{Method, ◌>>=◌, raise, set, when, await}
use thelight.Runtime.Broker.{
  terminal, may_reach_broker, ask, store_record, record_broker_state, reconcile_intent, dispatch,
}
use thelight.Runtime.Keeps.{
  IsPreorder, Keeps, Keeps-bind, Keeps-if, Keeps-if_null, Keeps-raise, Keeps-skip, Keeps-gets,
}

module _ {F S : Type 0} where
  abbrev SameSent : World F S → World F S → Type 0
  SameSent w w' = w'.submitted ≡ w.submitted

  SameSent-IsPreorder : IsPreorder SameSent
  SameSent-IsPreorder = record { stays = λ w. refl; joins = λ u v w h h'. h' ∙ h }

  same-ask :
      {A : Type 0} (env : Setup F S) (call : S → Result A × S) → Keeps SameSent (ask env call)
  unfolding ask await
  same-ask env call =
      Keeps-if SameSent-IsPreorder (may_reach_broker env) (record { at_every = λ w. refl })
        (Keeps-raise SameSent-IsPreorder _)

  same-record :
      (env : Setup F S) (state : BrokerOrderState) (reason : Option String)
      → Keeps SameSent (record_broker_state env state reason)
  unfolding record_broker_state store_record set
  same-record env state reason =
      let r = SameSent-IsPreorder in
      Keeps-bind r (Keeps-gets r _) (λ lease. Keeps-if_null r lease (Keeps-raise r _) (λ held.
        Keeps-bind r (record { at_every = λ w. refl })
          (λ projected.
            Keeps-if_null r projected (Keeps-raise r _)
              (λ status. record { at_every = λ w. refl }))))

  -- What is not done
  same-never : (m : Method F S) (b : Bool) → b ≡ false → Keeps SameSent (when b m)
  unfolding when
  same-never m true h = cc
  same-never m false h = Keeps-skip SameSent-IsPreorder

no_first : (a b : Bool) → a ≡ false → (a && b) ≡ false
no_first a b h = rw h

not_pending : (s : ExecutionStatus) → s ≡ submission_attempted → status_eq s pending ≡ false
not_pending s e = rw e

not_terminal : (s : ExecutionStatus) → s ≡ submission_attempted → terminal s ≡ false
unfolding terminal
not_terminal s e = rw e

attempted :
    (s : ExecutionStatus) → s ≡ submission_attempted → status_eq s submission_attempted ≡ true
attempted s e = rw e

module _ {F S : Type 0} ⦃num : Num F⦄ (env : Setup F S) (stored : StoredIntent) where
  same-reconcile :
      status_eq stored.intent.status pending ≡ false → Keeps SameSent (reconcile_intent env stored)
  unfolding reconcile_intent
  same-reconcile later =
      let r = SameSent-IsPreorder in
      Keeps-if r _ (Keeps-skip r) (
        Keeps-bind r (same-ask env (env.broker.reconcile stored.intent)) (λ state.
          Keeps-if r _ (Keeps-raise r _) (
            Keeps-bind r (same-record env state stored.dispatch_block_reason) (λ _.
              Keeps-if r _ (Keeps-raise r _) (
                same-never (dispatch env stored.intent) _ (
                  no_first (status_eq stored.intent.status pending && is_absent state.lookup_state)
                    (status_eq state.status pending)
                    (no_first (status_eq stored.intent.status pending)
                      (is_absent state.lookup_state) later)))))))

  absent-raises :
      (w : World F S) (state : BrokerOrderState) (s : S)
      → stored.intent.status ≡ submission_attempted
      → may_reach_broker env ≡ true
      → env.broker.reconcile stored.intent w.outside ≡ (ok state, s)
      → is_absent state.lookup_state ≡ true
      → ((reconcile_intent env stored w).0 ≡ err "SUBMISSION_ATTEMPTED_RECOVERY_REQUIRED")
        × ((reconcile_intent env stored w).1.orders ≡ w.orders)
  unfolding reconcile_intent ask await ◌>>=◌ raise
  absent-raises w state s status capable reply gone =
      rw
        (
          not_terminal stored.intent.status status,
          capable,
          reply,
          attempted stored.intent.status status,
          gone,
        )
        (refl, refl)

  -- When the broker answers for an intent whose submission was attempted before a crash, reconciliation
  -- sends no order, whatever the answer; and where the broker has no order of it, the method ends
  -- with the error that asks for a recovery, and the stored intents stay as they were.
  pub attempted_never_resent :
      (w : World F S) (state : BrokerOrderState) (s : S)
      → stored.intent.status ≡ submission_attempted
      → may_reach_broker env ≡ true
      → env.broker.reconcile stored.intent w.outside ≡ (ok state, s)
      → ((reconcile_intent env stored w).1.submitted ≡ w.submitted)
        × ((is_absent state.lookup_state ≡ false)
            ⊎ (((reconcile_intent env stored w).0 ≡ err "SUBMISSION_ATTEMPTED_RECOVERY_REQUIRED")
                × ((reconcile_intent env stored w).1.orders ≡ w.orders)))
  attempted_never_resent w state s status capable reply = (
    (same-reconcile (not_pending stored.intent.status status)).at_every w,
    elim (Bool-cases (is_absent state.lookup_state)) [
      | inl gone ↦ inr (absent-raises w state s status capable reply gone)
      | inr there ↦ inl there
    ],
  )
