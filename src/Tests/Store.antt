-- ===== src/Tests/Store.antt =====
-- The worker store at concrete inputs.
use thelight.Common.{
  ◌<◌, List, ◌+◌, ◌≡◌, refl, ◌⊎◌, inr, arith, eq_iff, true, false, none, some, [], ◌∷◌, lookup,
  insert,
}
use thelight.Common.Int.{ℤ}
use thelight.Types.{ClosedBar, pending, submission_attempted, accepted, filled, ExecutionStatus}
use thelight.Order.{projected_broker_status, terminal_status}
use thelight.Order.Monotone.{
  project_all, project_all_forward, live_needs_report, Reported, Advances,
}
use thelight.Store.Data.{
  WorkerLease, RunEvidence, ready, halted, Ownership, Orders, MarketBarObservation, MarketData,
  live_ws, accepted_write, identical, conflict,
}
use thelight.Store.Leases.{acquire_ownership, renew_ownership, update_run, is_current, is_final}
use thelight.Store.Trace.{update, acquire, renew, call, calls}
use thelight.Store.Fencing.{acquire_when_free, IsVacant, token, fenced_out_forever, single_owner}
use thelight.Store.Runs.{final_run_stays, one_live_run, state_of}
use thelight.Store.Intents.{
  claim_intent_for_dispatch, with_dispatch_authority, record_broker_order,
  persist_decision_and_intent, may_dispatch, in_scope,
}
use thelight.Store.Dispatch.{fenced_out_cannot_dispatch, stored_status}
use thelight.Store.Projection.{persist_once, records_forward, Observation, record_all}
use thelight.Store.Bars.{record_market_bar, record_market_bars, bar_at, key_of}
use thelight.Store.Claims.{OrderCall, claiming, recording, order_calls, claim_exclusive}
use thelight.Store.Immutable.{stored_bar_stays, write_result_exact, SameFields}
use thelight.Tests.Numbers.{thousandths}
use thelight.Tests.Sample.{
  lease_of, two_runs, scope, intent_in, bar, evidence, no_orders, one_order, report,
}

-- The lease of the first run has expired, and the second takes over.
abbrev taken_over : Ownership
taken_over = (acquire_ownership 40000 "w" "r2" 30 two_runs).1

fenced_out_forever_example :
    let o' =
      calls
        ((41000, renew (lease_of "r1" 1 31000) 30) ∷ (42000, acquire "w" "r3" 30) ∷ [])
        taken_over in
    (is_current 43000 (lease_of "r1" 1 31000) (lookup "w" o'.leases) ≡ false)
    × (renew_ownership 43000 (lease_of "r1" 1 31000) 30 o' ≡ (none, o'))
unfolding acquire_ownership lookup
fenced_out_forever_example =
    fenced_out_forever 40000 30 "w" "r2" two_runs (lease_of "r2" 2 70000) (lease_of "r1" 1 31000)
      refl refl (ground arith)
      ((41000, renew (lease_of "r1" 1 31000) 30) ∷ (42000, acquire "w" "r3" 30) ∷ []) 43000 30

single_owner_example :
    ((lease_of "r1" 1 31000).run_id ≡ (lease_of "r1" 1 31000).run_id)
    × ((lease_of "r1" 1 31000).fencing_token ≡ (lease_of "r1" 1 31000).fencing_token)
    × (acquire_ownership 20000 "w" "r2" 30 two_runs ≡ (none, two_runs))
unfolding lookup
single_owner_example =
    single_owner 20000 30 "w" "r2" (lease_of "r1" 1 31000) (lease_of "r1" 1 31000) two_runs refl
      refl

acquire_when_free_example :
    ((prior : WorkerLease) × (lookup "w" two_runs.leases ≡ some prior)
      × (40000 < prior.lease_expires_at)
      × (acquire_ownership 40000 "w" "r2" 30 two_runs ≡ (none, two_runs)))
    ⊎ (IsVacant 40000 (lookup "w" two_runs.leases)
        × ((lease : WorkerLease) × ((acquire_ownership 40000 "w" "r2" 30 two_runs).0 ≡ some lease)
            × (lookup "w" (acquire_ownership 40000 "w" "r2" 30 two_runs).1.leases ≡ some lease)
            × (lease.worker_key ≡ "w")
            × (lease.run_id ≡ "r2")
            × (lease.fencing_token ≡ token "w" two_runs + 1)
            × (lease.lease_expires_at ≡ 70000)))
acquire_when_free_example = acquire_when_free 40000 "w" "r2" 30 two_runs

-- The first run has halted.
abbrev halted_run : Ownership
halted_run = (calls ((10000, update "r1" halted none) ∷ []) two_runs)

final_run_stays_example :
    state_of "r1"
      (calls ((40000, acquire "w" "r2" 30) ∷ (41000, update "r1" ready none) ∷ []) halted_run)
    ≡ some halted
unfolding calls call update_run lookup insert
final_run_stays_example =
    final_run_stays "r1" halted
      ((40000, acquire "w" "r2" 30) ∷ (41000, update "r1" ready none) ∷ []) halted_run refl refl
      ((λ e. e), ((λ e. e), tt))

one_live_run_example :
    (r : RunEvidence) × (lookup "r1" (acquire_ownership 40000 "w" "r2" 30 two_runs).1.runs ≡ some r)
    × (is_final r.state ≡ true)
unfolding lookup
one_live_run_example =
    one_live_run 40000 30 "w" "r2" "r1" _ two_runs refl refl refl (λ e. cc ((eq_iff "r1" "r2").1 e))

-- In between, another run tries to claim the intent, and the broker's acceptance is recorded.
abbrev between : List OrderCall
between =
    claiming 30000 (lease_of "r2" 2 70000) (intent_in pending) scope two_runs
    ∷ recording (record {
      now = 20000;
      lease = lease_of "r1" 1 31000;
      scope = scope;
      state = report accepted;
      reason = none;
      ownership = two_runs;
    })
    ∷ []

claim_exclusive_example :
    let r' =
      (claim_intent_for_dispatch 20000
        (lease_of "r1" 1 31000)
        (intent_in pending)
        scope
        two_runs
        one_order).2 in
    (is_current 20000 (lease_of "r1" 1 31000) (lookup "w" two_runs.leases) ≡ true)
    × (stored_status (lookup "d:intent" one_order.intents) ≡ some pending)
    × (stored_status (lookup "d:intent" r'.intents) ≡ some submission_attempted)
    × ((claim_intent_for_dispatch 50000
          (lease_of "r2" 2 70000)
          (intent_in pending)
          scope
          taken_over
          (order_calls between r')).0
        ≡ false)
unfolding claim_intent_for_dispatch renew_ownership may_dispatch in_scope lookup insert
claim_exclusive_example =
    claim_exclusive 20000 (lease_of "r1" 1 31000) (intent_in pending) scope two_runs one_order
      between 50000 (lease_of "r2" 2 70000) (intent_in pending) scope taken_over refl refl

fenced_out_cannot_dispatch_example :
    (claim_intent_for_dispatch 40000
        (lease_of "r1" 1 31000)
        (intent_in pending)
        scope
        two_runs
        one_order
      ≡ (false, two_runs, one_order))
    × (with_dispatch_authority 40000 (lease_of "r1" 1 31000) "d:intent" scope two_runs one_order
        ≡ (false, two_runs))
    × (record_broker_order 40000
          (lease_of "r1" 1 31000)
          scope
          (report filled)
          none
          two_runs
          one_order
        ≡ (none, one_order))
unfolding lookup
fenced_out_cannot_dispatch_example =
    fenced_out_cannot_dispatch 40000 (lease_of "r1" 1 31000) (intent_in pending) scope
      (report filled) none two_runs one_order refl

abbrev observation : ExecutionStatus → Observation
observation status = record {
  now = 20000;
  lease = lease_of "r1" 1 31000;
  scope = scope;
  state = report status;
  reason = none;
  ownership = two_runs;
}

records_forward_example :
    (s' : ExecutionStatus) × (stored_status (
        lookup "d:intent"
          (record_all (observation filled ∷ observation accepted ∷ []) one_order).intents)
      ≡ some s')
    × Advances pending s'
unfolding lookup
records_forward_example =
    records_forward "d:intent" (observation filled ∷ observation accepted ∷ []) one_order pending
      refl

persist_once_example :
    (r' : Orders ℤ) × (persist_decision_and_intent "w" evidence (intent_in pending) none no_orders
      ≡ some (true, r'))
    × (lookup "d" r'.decisions ≡ some evidence)
    × (persist_decision_and_intent "w" evidence (intent_in pending) (some "LATE") r'
        ≡ some (false, r'))
unfolding lookup
persist_once_example =
    persist_once "w" "w" evidence evidence (intent_in pending) (intent_in pending) none
      (some "LATE") no_orders refl refl refl

project_all_forward_example :
    Advances submission_attempted
      (project_all submission_attempted (report filled ∷ report accepted ∷ []))
project_all_forward_example =
    project_all_forward submission_attempted (report filled ∷ report accepted ∷ [])

live_needs_report_example :
    (submission_attempted ≡ filled) ⊎ Reported filled (report accepted ∷ report filled ∷ [])
unfolding project_all projected_broker_status terminal_status
live_needs_report_example =
    live_needs_report filled submission_attempted (report accepted ∷ report filled ∷ [])
      (inr (inr refl)) refl

abbrev seen : MarketBarObservation ℤ
seen = record {
  symbol = "SPY";
  bar = bar;
  provider_event_timestamp_ms = 900000;
  observed_at = 960500;
  origin = live_ws;
  recovery_attempt_id = none;
}

abbrev seen_again : MarketBarObservation ℤ
seen_again = record seen { bar = record bar { close = bar.high } }

abbrev no_data : MarketData ℤ
no_data = record { bars = []; observations = [] }

stored_bar_stays_example :
    bar_at
      ("SPY", 900000)
      (record_market_bars (seen_again ∷ []) (record_market_bar seen no_data).1).1.bars
    ≡ some bar
unfolding record_market_bar bar_at
stored_bar_stays_example =
    stored_bar_stays ("SPY", 900000) (seen_again ∷ []) bar (record_market_bar seen no_data).1 refl

write_result_exact_example :
    let (result, d') = record_market_bar seen no_data in
    ((result ≡ accepted_write)
      × (bar_at (key_of seen) no_data.bars ≡ none)
      × (bar_at (key_of seen) d'.bars ≡ some seen.bar))
    ⊎ ((prior : ClosedBar ℤ) × (bar_at (key_of seen) no_data.bars ≡ some prior)
        × (bar_at (key_of seen) d'.bars ≡ some prior)
        × (((result ≡ identical) × SameFields prior seen.bar)
            ⊎ ((result ≡ conflict) × ¬ SameFields prior seen.bar)))
write_result_exact_example = write_result_exact seen no_data
