-- ===== src/Runtime/Authorized.antt =====
-- What holds of a worker over its whole life: of every order that it sends, and of a worker that has lost
-- its lease.
use thelight.Common.{
  ◌⊎◌, inl, inr, Bool-cases, ◌≤◌, ◌≡◌, refl, sym, ◌∙◌, String, Bool, true, false, none, List, [],
  ◌∷◌, or_else, All, arith, ◌++◌, ap, subst,
}
use mathlib.Core.List.{append-nil}
use thelight.Number.{Num}
use thelight.Store.Data.{WorkerLease}
use thelight.Runtime.World.{Worker, World, Setup}
use thelight.Runtime.Actions.{Action, set}
use thelight.Runtime.Lifecycle.{
  bring_up, start_owned, store_acquire, start, stop, stopping, Event, start_called, stop_called,
  reconcile_called, raw_bar, trade_update, renewal_due, updates_ready, trade_due, market_due,
  trade_stream_failed, market_over, handle, live,
}
use thelight.Runtime.Keeps.{
  IsPreorder, Keeps, Keeps-bind, Keeps-catching, Keeps-finally, Keeps-if, Keeps-if_null, Keeps-when,
  Keeps-pure, Keeps-skip, Keeps-gets, Keeps-weaken,
}
use thelight.Runtime.Advance.{
  IsOrdered, IsAuthorized, Grown, Grown-trans, Rises, Milder, Rises-refl, LeaseKept-refl, LeaseKept,
  LeaseKept-none, FencedAdvance, FencedAdvance-IsPreorder,
}
use thelight.Runtime.Stepping.{fenced-set, fenced-assign}
use thelight.Runtime.Owned.{
  fenced-modify_owners, fenced-store_run, fenced-record_end, fenced-persist_checkpoint,
  fenced-release, fenced-halt,
}
use thelight.Runtime.Renewing.{fenced-confirm, fenced-renew}
use thelight.Runtime.Reconciling.{fenced-reconcile_internal, fenced-reconcile}
use thelight.Runtime.EventsKeep.{
  fenced-process_raw_bar, fenced-recover_startup, fenced-receive_trade_update, fenced-connect,
  fenced-updates_ready, fenced-trade_due, fenced-trade_error, fenced-consumer, fenced-market_due,
  fenced-market_over,
}

module _ {F S : Type 0} ⦃num : Num F⦄ (env : Setup F S) where
  abbrev pub SendsAuthorized : World F S → World F S → Type 0
  SendsAuthorized w w' = Grown env w.submitted w'.submitted

  SendsAuthorized-IsPreorder : IsPreorder SendsAuthorized
  SendsAuthorized-IsPreorder = record {
    stays = λ w. ([], refl, tt);
    joins = λ u v w h h'. Grown-trans env u.submitted v.submitted w.submitted h h';
  }

  sends-fenced :
      {A : Type 0} {m : Action F S A} → Keeps (FencedAdvance env) m → Keeps SendsAuthorized m
  sends-fenced h = Keeps-weaken (λ w w' x. x.advance.posts) h

  sends-set : (f : Worker F → Worker F) → Keeps SendsAuthorized (set f)
  unfolding set
  sends-set f = record { at_every = λ w. ([], refl, tt) }

  sends-store_acquire : (run_id : String) → Keeps SendsAuthorized (store_acquire env run_id)
  unfolding store_acquire
  sends-store_acquire run_id = record { at_every = λ w. ([], refl, tt) }

module _ {F S : Type 0} ⦃num : Num F⦄ (env : Setup F S) (o : IsOrdered F) where
  fenced-bring_up : (run_id : String) → Keeps (FencedAdvance env) (bring_up env run_id)
  unfolding bring_up
  fenced-bring_up run_id =
      let r = FencedAdvance-IsPreorder env o in
      Keeps-bind r (Keeps-when r _ (fenced-reconcile_internal env o)) (λ _.
        Keeps-bind r (Keeps-gets r _) (λ stopped1. Keeps-if r stopped1 (Keeps-skip r) (
          Keeps-bind r (fenced-recover_startup env o) (λ _.
            Keeps-bind r (Keeps-gets r _) (λ stopped2. Keeps-if r stopped2 (Keeps-skip r) (
              Keeps-bind r (fenced-confirm env o) (λ owned. Keeps-when r owned (
                Keeps-bind r (fenced-assign env _ (λ k. refl) (λ k. refl) (λ k. refl) (λ k. refl))
                  (λ _. Keeps-bind r (fenced-persist_checkpoint env o) (λ _.
                    Keeps-bind r (fenced-store_run env run_id none) (λ _.
                      Keeps-bind r (fenced-confirm env o) (λ still. Keeps-when r still (
                        Keeps-bind r (Keeps-when r _ (fenced-connect env o))
                          (λ _. fenced-consumer env o))))))))))))))

  sends-start_owned :
      (run_id : String) (lease : WorkerLease)
      → Keeps (SendsAuthorized env) (start_owned env run_id lease)
  unfolding start_owned
  sends-start_owned run_id lease =
      let r = SendsAuthorized-IsPreorder env in
      Keeps-bind r (sends-set env _) (λ _. Keeps-bind r (Keeps-gets r _) (λ row.
        Keeps-bind r (sends-set env _) (λ _.
          Keeps-catching r (sends-fenced env (fenced-bring_up run_id)) (λ e.
            Keeps-bind r (Keeps-gets r _) (λ is_over.
              Keeps-if r is_over (Keeps-skip r) (sends-fenced env (fenced-halt env o e)))))))

  sends-start : Keeps (SendsAuthorized env) (start env)
  unfolding start
  sends-start =
      let r = SendsAuthorized-IsPreorder env in
      Keeps-bind r (Keeps-gets r _) (λ active. Keeps-if r active (Keeps-skip r) (
        Keeps-bind r (Keeps-gets r _) (λ run_id. Keeps-bind r (sends-set env _) (λ _.
          Keeps-if r _ (sends-set env _) (
            Keeps-bind r (sends-fenced env (fenced-modify_owners env o _)) (λ _.
              Keeps-bind r (sends-store_acquire env run_id) (λ lease.
                Keeps-if_null r lease
                  (Keeps-bind r (sends-set env _)
                    (λ _. sends-fenced env (fenced-store_run env run_id _)))
                  (sends-start_owned run_id))))))))

  Milder-stopping : (k : Worker F) → Milder k (stopping k)
  Milder-stopping k = record {
    lease = LeaseKept-refl k.ownership;
    high_water = Rises-refl k.checkpoint.paper_equity_high_water;
    barrier = omega arith;
    stays_stopped = λ h. refl;
  }

  fenced-stop : Keeps (FencedAdvance env) (stop env)
  unfolding stop
  fenced-stop =
      let r = FencedAdvance-IsPreorder env o in
      Keeps-bind r (Keeps-gets r _) (λ owned. Keeps-bind r (Keeps-gets r _) (λ was_halted.
        Keeps-bind r (fenced-set env _ Milder-stopping) (λ _.
          Keeps-bind r
            (Keeps-when r _ (fenced-assign env _ (λ k. refl) (λ k. refl) (λ k. refl) (λ k. refl)))
            (λ _.
              Keeps-finally r
                (Keeps-bind r
                  (Keeps-if r was_halted (Keeps-pure r true) (fenced-record_end env o none))
                  (λ may. Keeps-when r _ (fenced-persist_checkpoint env o)))
                (fenced-release env o)))))

abbrev pub is_start : {F : Type 0} → Event F → Bool
is_start start_called = true
is_start _ = false

module _ {F S : Type 0} ⦃num : Num F⦄ (env : Setup F S) (o : IsOrdered F) where
  fenced-handle : (e : Event F) → is_start e ≡ false → Keeps (FencedAdvance env) (handle env e)
  unfolding handle
  fenced-handle start_called h = cc
  fenced-handle stop_called h = fenced-stop env o
  fenced-handle reconcile_called h = fenced-reconcile env o
  fenced-handle (raw_bar bar) h = fenced-process_raw_bar env o bar
  fenced-handle (trade_update update) h = fenced-receive_trade_update env o update
  fenced-handle (renewal_due generation) h = fenced-renew env o generation
  fenced-handle (updates_ready generation) h = fenced-updates_ready env o generation
  fenced-handle (trade_due generation) h = fenced-trade_due env o generation
  fenced-handle (market_due generation) h = fenced-market_due env o generation
  fenced-handle trade_stream_failed h = fenced-trade_error env o
  fenced-handle (market_over failed) h = fenced-market_over env o failed

  sends-handle : (e : Event F) → Keeps (SendsAuthorized env) (handle env e)
  unfolding handle
  sends-handle start_called = sends-start env o
  sends-handle stop_called = sends-fenced env (fenced-handle stop_called refl)
  sends-handle reconcile_called = sends-fenced env (fenced-handle reconcile_called refl)
  sends-handle (raw_bar bar) = sends-fenced env (fenced-handle (raw_bar bar) refl)
  sends-handle (trade_update update) = sends-fenced env (fenced-handle (trade_update update) refl)
  sends-handle (renewal_due n) = sends-fenced env (fenced-handle (renewal_due n) refl)
  sends-handle (updates_ready n) = sends-fenced env (fenced-handle (updates_ready n) refl)
  sends-handle (trade_due n) = sends-fenced env (fenced-handle (trade_due n) refl)
  sends-handle (market_due n) = sends-fenced env (fenced-handle (market_due n) refl)
  sends-handle trade_stream_failed = sends-fenced env (fenced-handle trade_stream_failed refl)
  sends-handle (market_over b) = sends-fenced env (fenced-handle (market_over b) refl)

  live-sends : (events : List (Event F)) (w : World F S) → SendsAuthorized env w (live env events w)
  unfolding live
  live-sends [] w = (SendsAuthorized-IsPreorder env).stays w
  live-sends (e ∷ es) w =
      (SendsAuthorized-IsPreorder env).joins w (handle env e w).1 (live env es (handle env e w).1)
        ((sends-handle e).at_every w) (live-sends es (handle env e w).1)

  live-advances :
      (events : List (Event F)) (w : World F S)
      → All (λ e. is_start e ≡ false) events
      → FencedAdvance env w (live env events w)
  unfolding live
  live-advances [] w h = (FencedAdvance-IsPreorder env o).stays w
  live-advances (e ∷ es) w (h, hs) =
      (FencedAdvance-IsPreorder env o).joins w (handle env e w).1 (live env es (handle env e w).1)
        ((fenced-handle e h).at_every w) (live-advances es (handle env e w).1 hs)

  -- Whatever happens to a worker that has sent no order yet, started and stopped at will, and whatever the
  -- broker answers and the other processes do to the leases: every order that it sends goes out under a
  -- lease of its worker that is in force, for an intent that is marked as attempted in the store, from
  -- a runtime that may reach the broker. The last three answers of the broker before it were, in this
  -- order, the position that the order starts from, which is one of its asset to rely on, that no
  -- order is open, and that it has no order of the intent, which was pending.
  pub orders-IsAuthorized :
      (events : List (Event F)) (w : World F S)
      → w.submitted ≡ []
      → All (IsAuthorized env) (live env events w).submitted
  orders-IsAuthorized events w e =
      let (added, grown, fine) = live-sends events w in
      subst (All (IsAuthorized env)) (sym (grown ∙ ap (λ t. added ++ t) e ∙ append-nil added)) fine

  -- A worker without a lease, whatever happens to it but a start, gets none, sends no order and writes no
  -- checkpoint; and what it was told to stop stays stopped.
  pub fenced_worker_inert :
      (events : List (Event F)) (w : World F S)
      → All (λ e. is_start e ≡ false) events
      → w.worker.ownership ≡ none
      → ((live env events w).worker.ownership ≡ none)
        × ((live env events w).submitted ≡ w.submitted)
        × ((live env events w).checkpoints ≡ w.checkpoints)
        × ((w.worker.is_stopped ≡ false) ⊎ ((live env events w).worker.is_stopped ≡ true))
  fenced_worker_inert events w h e =
      let a = live-advances events w h in
      (
        LeaseKept-none w.worker.ownership (live env events w).worker.ownership
            a.advance.milder.lease e,
        (a.fenced e).0,
        (a.fenced e).1,
        elim (Bool-cases w.worker.is_stopped) [
          | inl stopped ↦ inr (a.advance.milder.stays_stopped stopped)
          | inr running ↦ inl running
        ],
      )

  -- Until the next start, a worker keeps the lease that it has, under the same run and fencing token, or
  -- none; the peak of the equity that its drawdown is measured from never falls and is never
  -- forgotten; and the bucket before which nothing is dispatched after a recovery never moves back.
  pub safeguards_never_loosen :
      (events : List (Event F)) (w : World F S)
      → All (λ e. is_start e ≡ false) events
      → let k = w.worker in
        let k' = (live env events w).worker in
        LeaseKept k.ownership k'.ownership
        × Rises k.checkpoint.paper_equity_high_water k'.checkpoint.paper_equity_high_water
        × (or_else k.checkpoint.recovery_dispatch_not_before_bucket_ms 0
            ≤ or_else k'.checkpoint.recovery_dispatch_not_before_bucket_ms 0)
  safeguards_never_loosen events w h =
      let m = (live-advances events w h).advance.milder in (m.lease, m.high_water, m.barrier)
