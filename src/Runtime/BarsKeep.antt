-- ===== src/Runtime/BarsKeep.antt =====
-- `processCompletedDecisionBars` and `recoverGap` advance the state.
use thelight.Common.{ℕ, suc, refl, String, Bool, true, false, Option, none, List, [], ◌∷◌, arith}
use thelight.Number.{Num}
use thelight.Types.{ClosedBar, Evidence, ExecutionIntent, FeatureVector}
use thelight.Store.Data.{MarketBarObservation, MarketData}
use thelight.Store.Checkpoint.{GapRecoveryAttempt}
use thelight.Worker.Gaps.{Gap}
use thelight.Runtime.World.{Worker, World, Setup}
use thelight.Runtime.Actions.{modify}
use thelight.Runtime.Decisions.{target_decision, trend_decision, decision_evidence}
use thelight.Runtime.Bars.{
  store_decision, dispatch_or_halt, decide, decide_all, process_completed_decision_bars,
}
use thelight.Runtime.Recovery.{
  with_gap, with_completion, store_attempt, note_attempt, enter_rebuilding, store_bar,
  store_backfill, finish_recovery, write_backfill, verify_backfill, recover_gap,
}
use thelight.Runtime.Keeps.{
  Keeps, Keeps-bind, Keeps-catching, Keeps-if, Keeps-if_null, Keeps-when, Keeps-pure, Keeps-raise,
  Keeps-skip, Keeps-gets,
}
use thelight.Runtime.Advance.{
  IsOrdered, Milder, Milder-refl, Rises-refl, LeaseKept-refl, FencedAdvance,
  FencedAdvance-IsPreorder,
}
use thelight.Runtime.Stepping.{fenced-step, fenced-set, fenced-assign}
use thelight.Runtime.Owned.{fenced-persist_checkpoint, fenced-halt}
use thelight.Runtime.Sending.{fenced-await}
use thelight.Runtime.Dispatching.{fenced-dispatch}
use thelight.Runtime.Reconciling.{fenced-refresh}

module _ {F : Type 0} ⦃num : Num F⦄ where
  Milder-with_gap :
      (id : String) (g : Gap) (barrier : ℕ) (k : Worker F) → Milder k (with_gap id g barrier k)
  Milder-with_gap id g barrier k = record {
    lease = LeaseKept-refl k.ownership;
    high_water = Rises-refl k.checkpoint.paper_equity_high_water;
    barrier = omega arith;
    stays_stopped = λ h. h;
  }

  Milder-with_completion :
      (time barrier : ℕ) (k : Worker F) → Milder k (with_completion time barrier k)
  Milder-with_completion time barrier k = record {
    lease = LeaseKept-refl k.ownership;
    high_water = Rises-refl k.checkpoint.paper_equity_high_water;
    barrier = omega arith;
    stays_stopped = λ h. h;
  }

module _ {F S : Type 0} ⦃num : Num F⦄ (env : Setup F S) where
  fenced-store_decision :
      (evidence : Evidence F) (intent : ExecutionIntent) (reason : Option String)
      → Keeps (FencedAdvance env) (store_decision env evidence intent reason)
  unfolding store_decision
  fenced-store_decision evidence intent reason =
      fenced-step env (λ w. Milder-refl w.worker) (λ w. refl) (λ w. refl)

  fenced-store_attempt : (a : GapRecoveryAttempt) → Keeps (FencedAdvance env) (store_attempt a)
  unfolding store_attempt modify
  fenced-store_attempt a = fenced-step env (λ w. Milder-refl w.worker) (λ w. refl) (λ w. refl)

  fenced-modify_market :
      (f : World F S → MarketData F)
      → Keeps (FencedAdvance env) (modify (λ w. record w { market = f w }))
  unfolding modify
  fenced-modify_market f = fenced-step env (λ w. Milder-refl w.worker) (λ w. refl) (λ w. refl)

module _ {F S : Type 0} ⦃num : Num F⦄ (env : Setup F S) (o : IsOrdered F) where
  fenced-target_decision :
      (candles : List (ClosedBar F)) (index : ℕ) (id : String) (bar : ClosedBar F)
      (feature : FeatureVector F)
      → Keeps (FencedAdvance env) (target_decision env candles index id bar feature)
  unfolding target_decision
  fenced-target_decision candles index id bar feature =
      let r = FencedAdvance-IsPreorder env o in
      Keeps-bind r (Keeps-gets r _) (λ prior. Keeps-bind r (Keeps-gets r _) (λ drawdown.
        Keeps-if r _ (Keeps-if_null r drawdown (Keeps-raise r _) (λ fall. Keeps-gets r _))
          (Keeps-gets r _)))

  fenced-trend_decision :
      (index : ℕ) (id : String) (bar : ClosedBar F) (feature : FeatureVector F)
      → Keeps (FencedAdvance env) (trend_decision env index id bar feature)
  unfolding trend_decision
  fenced-trend_decision index id bar feature =
      let r = FencedAdvance-IsPreorder env o in
      Keeps-bind r (Keeps-gets r _)
        (λ drawdown. Keeps-if_null r drawdown (Keeps-raise r _) (λ fall. Keeps-pure r _))

  fenced-decision_evidence :
      (candles : List (ClosedBar F)) (index : ℕ) (id : String) (bar : ClosedBar F)
      → Keeps (FencedAdvance env) (decision_evidence env candles index id bar)
  unfolding decision_evidence
  fenced-decision_evidence candles index id bar =
      let r = FencedAdvance-IsPreorder env o in
      Keeps-bind r (Keeps-when r _ (fenced-refresh env o)) (λ _.
        Keeps-if_null r _ (Keeps-raise r _) (λ features.
          Keeps-if_null r _ (Keeps-raise r _) (λ feature.
            Keeps-if r _ (fenced-target_decision candles index id bar feature)
              (fenced-trend_decision index id bar feature))))

  fenced-dispatch_or_halt :
      (eligible : Bool) (intent : ExecutionIntent)
      → Keeps (FencedAdvance env) (dispatch_or_halt env eligible intent)
  unfolding dispatch_or_halt
  fenced-dispatch_or_halt eligible intent =
      let r = FencedAdvance-IsPreorder env o in
      Keeps-bind r
        (Keeps-catching r
          (Keeps-bind r (Keeps-when r eligible (fenced-dispatch env o intent))
            (λ _. Keeps-pure r true))
          (λ e. Keeps-bind r (fenced-halt env o e) (λ _. Keeps-pure r false)))
        (λ fine.
          Keeps-bind r (Keeps-when r fine (fenced-persist_checkpoint env o))
            (λ _. Keeps-pure r fine))

  fenced-decide :
      (eligible : Option ℕ) (candles : List (ClosedBar F)) (index : ℕ) (bar : ClosedBar F)
      → Keeps (FencedAdvance env) (decide env eligible candles index bar)
  unfolding decide
  fenced-decide eligible candles index bar =
      let r = FencedAdvance-IsPreorder env o in
      Keeps-bind r (Keeps-gets r _) (λ skipped. Keeps-if r skipped (Keeps-pure r true) (
        Keeps-bind r (fenced-decision_evidence candles index _ bar) (λ evidence.
          Keeps-bind r (Keeps-gets r _) (λ reason.
            Keeps-bind r (fenced-store_decision env _ _ reason) (λ inserted.
              Keeps-if r _ (Keeps-pure r true) (
                Keeps-bind r (fenced-assign env _ (λ k. refl) (λ k. refl) (λ k. refl) (λ k. refl))
                  (λ _. fenced-dispatch_or_halt _ _)))))))

  fenced-decide_all :
      (eligible : Option ℕ) (candles : List (ClosedBar F)) (index : ℕ) (bars : List (ClosedBar F))
      → Keeps (FencedAdvance env) (decide_all env eligible candles index bars)
  unfolding decide_all
  fenced-decide_all eligible candles index [] = Keeps-skip (FencedAdvance-IsPreorder env o)
  fenced-decide_all eligible candles index (bar ∷ rest) =
      let r = FencedAdvance-IsPreorder env o in
      Keeps-bind r (fenced-decide eligible candles index bar)
        (λ going. Keeps-when r going (fenced-decide_all eligible candles (suc index) rest))

  pub fenced-process_completed :
      (eligible : Option ℕ) (evaluate_only : Bool)
      → Keeps (FencedAdvance env) (process_completed_decision_bars env eligible evaluate_only)
  unfolding process_completed_decision_bars
  fenced-process_completed eligible evaluate_only =
      let r = FencedAdvance-IsPreorder env o in
      Keeps-bind r (Keeps-gets r _) (λ raw. Keeps-if r _ (Keeps-skip r) (
        Keeps-if_null r _ (Keeps-raise r _) (λ features. Keeps-bind r (Keeps-gets r _) (λ time.
          Keeps-bind r (fenced-assign env _ (λ k. refl) (λ k. refl) (λ k. refl) (λ k. refl))
            (λ _. Keeps-when r _ (fenced-decide_all eligible _ 0 _))))))

  fenced-note_attempt : (a : GapRecoveryAttempt) → Keeps (FencedAdvance env) (note_attempt a)
  unfolding note_attempt
  fenced-note_attempt a =
      let r = FencedAdvance-IsPreorder env o in
      Keeps-bind r (fenced-assign env _ (λ k. refl) (λ k. refl) (λ k. refl) (λ k. refl))
        (λ _. fenced-store_attempt env a)

  pub fenced-enter_rebuilding :
      (reason : String) (attempt : Option GapRecoveryAttempt)
      → Keeps (FencedAdvance env) (enter_rebuilding env reason attempt)
  unfolding enter_rebuilding
  fenced-enter_rebuilding reason attempt =
      let r = FencedAdvance-IsPreorder env o in
      Keeps-bind r (fenced-assign env _ (λ k. refl) (λ k. refl) (λ k. refl) (λ k. refl)) (λ _.
        Keeps-bind r (Keeps-if_null r attempt (Keeps-skip r) (λ a. fenced-store_attempt env _))
          (λ _. fenced-persist_checkpoint env o))

  pub fenced-store_bar : (b : MarketBarObservation F) → Keeps (FencedAdvance env) (store_bar b)
  unfolding store_bar
  fenced-store_bar b =
      let r = FencedAdvance-IsPreorder env o in
      Keeps-bind r (Keeps-gets r _)
        (λ result. Keeps-bind r (fenced-modify_market env _) (λ _. Keeps-pure r result))

  fenced-store_backfill :
      (id : String) (time : ℕ) (bars : List (ClosedBar F)) (minutes : List ℕ)
      → Keeps (FencedAdvance env) (store_backfill env id time bars minutes)
  unfolding store_backfill
  fenced-store_backfill id time bars [] = Keeps-pure (FencedAdvance-IsPreorder env o) false
  fenced-store_backfill id time bars (t ∷ rest) =
      let r = FencedAdvance-IsPreorder env o in
      Keeps-if_null r _ (Keeps-raise r _) (λ bar.
        Keeps-bind r (fenced-store_bar _)
          (λ result. Keeps-if r _ (Keeps-pure r true) (fenced-store_backfill id time bars rest)))

  fenced-finish_recovery :
      (a : GapRecoveryAttempt) (count : ℕ) (evaluate_only : Bool)
      → Keeps (FencedAdvance env) (finish_recovery env a count evaluate_only)
  unfolding finish_recovery
  fenced-finish_recovery a count evaluate_only =
      let r = FencedAdvance-IsPreorder env o in
      Keeps-bind r (Keeps-gets r _) (λ time.
        Keeps-bind r (fenced-set env _ (Milder-with_completion time _)) (λ _.
          Keeps-bind r (fenced-process_completed none evaluate_only) (λ _.
            Keeps-bind r (Keeps-gets r _) (λ restored.
              Keeps-bind r (fenced-assign env _ (λ k. refl) (λ k. refl) (λ k. refl) (λ k. refl))
                (λ _.
                  Keeps-bind r (fenced-note_attempt _) (λ _. fenced-persist_checkpoint env o))))))

  fenced-write_backfill :
      (g : Gap) (a : GapRecoveryAttempt) (time : ℕ) (bars : List (ClosedBar F))
      (evaluate_only : Bool)
      → Keeps (FencedAdvance env) (write_backfill env g a time bars evaluate_only)
  unfolding write_backfill
  fenced-write_backfill g a time bars evaluate_only =
      let r = FencedAdvance-IsPreorder env o in
      Keeps-bind r (fenced-store_backfill a.attempt_id time bars _) (λ clash.
        Keeps-if r clash (fenced-enter_rebuilding _ _) (fenced-finish_recovery a _ evaluate_only))

  fenced-verify_backfill :
      (g : Gap) (a : GapRecoveryAttempt) (bars : List (ClosedBar F)) (evaluate_only : Bool)
      → Keeps (FencedAdvance env) (verify_backfill env g a bars evaluate_only)
  unfolding verify_backfill
  fenced-verify_backfill g a bars evaluate_only =
      let r = FencedAdvance-IsPreorder env o in
      Keeps-if r _ (fenced-enter_rebuilding _ _) (
        Keeps-bind r (Keeps-gets r _) (λ time. Keeps-bind r (fenced-note_attempt _) (λ _.
          Keeps-bind r (fenced-assign env _ (λ k. refl) (λ k. refl) (λ k. refl) (λ k. refl)) (λ _.
            Keeps-bind r (fenced-persist_checkpoint env o)
              (λ _. fenced-write_backfill g _ time bars evaluate_only)))))

  pub fenced-recover_gap :
      (g : Gap) (detected_at : ℕ) (evaluate_only : Bool)
      → Keeps (FencedAdvance env) (recover_gap env g detected_at evaluate_only)
  unfolding recover_gap
  fenced-recover_gap g detected_at evaluate_only =
      let r = FencedAdvance-IsPreorder env o in
      Keeps-bind r (Keeps-gets r _) (λ id. Keeps-bind r (fenced-note_attempt _) (λ _.
        Keeps-bind r (fenced-set env _ (Milder-with_gap id g _)) (λ _.
          Keeps-bind r (fenced-persist_checkpoint env o) (λ _.
            Keeps-catching r
              (Keeps-bind r (Keeps-gets r _) (λ time. Keeps-bind r (fenced-note_attempt _) (λ _.
                Keeps-bind r (fenced-assign env _ (λ k. refl) (λ k. refl) (λ k. refl) (λ k. refl))
                  (λ _. Keeps-bind r (fenced-persist_checkpoint env o) (λ _.
                    Keeps-bind r (fenced-await env (env.historical_bars g))
                      (λ bars. fenced-verify_backfill g _ bars evaluate_only))))))
              (λ e. Keeps-bind r (Keeps-gets r _) (λ current. fenced-enter_rebuilding _ _))))))
