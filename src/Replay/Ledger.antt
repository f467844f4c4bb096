-- ===== src/Replay/Ledger.antt =====
-- The class `ReplayExecution`, each method as a function on the state.
use thelight.Common.{
  ℕ, ◌+◌, ◌<◌, ◌≡◌, refl, ◌⊎◌, inl, inr, arith, String, ◌<>◌, Bool, true, false, ◌&&◌, not, Option,
  none, some, List, [], ◌∷◌, ◌++◌, ◌==◌, if◌then◌else◌,
}
use thelight.Number.{Num, ◌+F◌, ◌-F◌, ◌*F◌, ◌/F◌, ◌==F◌, of_int, int, max_num}
use thelight.Types.{
  Action, long, short, flat, Candle, ExecutionIntent, ExecutionStatus, pending, filled, cancelled,
  Fill, PositionTransition, EquityPoint, ExecutionLedger, next_bar_close,
}
use thelight.Order.{status_eq}
use thelight.Common.Int.{ℤ, pos, negsuc, ◌-ℤ◌, leb_ℤ, ◌==ℤ◌, abs_ℤ}

pub record ReplayConfig (F : Type 0) : Type 0 where
  pub transaction_cost_bps : F
  pub slippage_bps : F

-- The private fields of the class
pub record Replay (F : Type 0) : Type 0 where
  pub position : ℤ
  pub equity_value : F
  pub intents : List ExecutionIntent
  pub fills : List (Fill F)
  pub transitions : List PositionTransition
  pub equity : List (EquityPoint F)

-- The argument of `createIntent`
pub record IntentInput : Type 0 where
  pub decision_id : String
  pub created_at_bar : ℕ
  pub created_at_timestamp : ℕ
  pub action : Action

-- What the loop of `advanceBar` leaves: the intents with their new statuses, the position, the sums
-- of the costs, and what it pushes on the ledger.
pub record Pass (F : Type 0) : Type 0 where
  pub intents : List ExecutionIntent
  pub position : ℤ
  pub cost : F
  pub slippage : F
  pub fills : List (Fill F)
  pub transitions : List PositionTransition

unfoldable pub action_to_position : Action → ℤ
action_to_position long = pos 1
action_to_position short = negsuc 0
action_to_position flat = pos 0

abbrev pub with_status : ExecutionStatus → ExecutionIntent → ExecutionIntent
with_status status intent = record {
  intent_id = intent.intent_id;
  decision_id = intent.decision_id;
  created_at_bar = intent.created_at_bar;
  created_at_timestamp = intent.created_at_timestamp;
  desired_action = intent.desired_action;
  desired_position = intent.desired_position;
  status = status;
  execution_model = intent.execution_model;
  client_order_id = intent.client_order_id;
}

-- The loop takes up this intent at this bar.
abbrev pub is_due : ℕ → ExecutionIntent → Bool
is_due bar intent = status_eq intent.status pending && intent.created_at_bar + 1 == bar

abbrev pub turnover_of : ℤ → ExecutionIntent → ℕ
turnover_of position intent = abs_ℤ (intent.desired_position -ℤ position)

-- What the loop does with an intent: nothing, to cancel it, or to fill it.
pub data Settlement : Type 0 where
  skipped dropped moved : Settlement

unfoldable pub settlement : ℕ → ℤ → ExecutionIntent → Settlement
settlement bar position intent =
    if not (is_due bar intent)
    then skipped
    else if turnover_of position intent == 0
    then dropped
    else moved

pub Settlement-cases : (s : Settlement) → (s ≡ skipped) ⊎ (s ≡ dropped) ⊎ (s ≡ moved)
Settlement-cases skipped = inl refl
Settlement-cases dropped = inr (inl refl)
Settlement-cases moved = inr (inr refl)

-- What is filled was due and changes the position; what is left alone was not due.
pub settlement-moved :
    (bar : ℕ) (position : ℤ) (intent : ExecutionIntent)
    → settlement bar position intent ≡ moved
    → (is_due bar intent ≡ true) × (0 < turnover_of position intent)
unfolding settlement
settlement-moved bar position intent h = ground arith

pub settlement-skipped :
    (bar : ℕ) (position : ℤ) (intent : ExecutionIntent)
    → settlement bar position intent ≡ skipped
    → is_due bar intent ≡ false
unfolding settlement
settlement-skipped bar position intent h = ground arith

abbrev pub kept : {F : Type 0} → ExecutionIntent → Pass F → Pass F
kept intent p = record {
  intents = intent ∷ p.intents;
  position = p.position;
  cost = p.cost;
  slippage = p.slippage;
  fills = p.fills;
  transitions = p.transitions;
}

abbrev pub pushed : {F : Type 0} → ExecutionIntent → Fill F → PositionTransition → Pass F → Pass F
pushed intent fill transition p = record {
  intents = intent ∷ p.intents;
  position = p.position;
  cost = p.cost;
  slippage = p.slippage;
  fills = fill ∷ p.fills;
  transitions = transition ∷ p.transitions;
}

abbrev pub transition_of : ℕ → ℕ → ℤ → ExecutionIntent → PositionTransition
transition_of bar t position intent = record {
  transition_id = intent.intent_id <> ":transition";
  intent_id = intent.intent_id;
  decision_id = intent.decision_id;
  bar_index = bar;
  timestamp = t;
  position_before = position;
  position_after = intent.desired_position;
  turnover = turnover_of position intent;
}

abbrev pub new_intent : IntentInput → ExecutionIntent
new_intent input = record {
  intent_id = input.decision_id <> ":intent";
  decision_id = input.decision_id;
  created_at_bar = input.created_at_bar;
  created_at_timestamp = input.created_at_timestamp;
  desired_action = input.action;
  desired_position = action_to_position input.action;
  status = pending;
  execution_model = next_bar_close;
  client_order_id = none;
}

-- `createIntent`: the returned intent and the state
unfoldable pub create_intent :
    {F : Type 0} → IntentInput → Replay F → Option ExecutionIntent × Replay F
create_intent input r =
    if action_to_position input.action ==ℤ r.position
    then (none, r)
    else (some (new_intent input), record r { intents = r.intents ++ new_intent input ∷ [] })

module _ {F : Type 0} ⦃num : Num F⦄ where
  -- the constructor
  unfoldable pub new_replay : Replay F
  new_replay = record {
    position = pos 0;
    equity_value = int 1;
    intents = [];
    fills = [];
    transitions = [];
    equity = [];
  }

  -- `turnover * (bps / 10_000)`
  abbrev pub charge : ℕ → F → F
  charge turnover bps = int turnover *F (bps /F int 10000)

  abbrev pub fill_of : ReplayConfig F → ℕ → Candle F → ℤ → ExecutionIntent → Fill F
  fill_of config bar candle position intent =
      let rate = config.slippage_bps /F int 10000 in
      let direction = if leb_ℤ intent.desired_position position then negsuc 0 else pos 1 in
      record {
        fill_id = intent.intent_id <> ":fill";
        intent_id = intent.intent_id;
        decision_id = intent.decision_id;
        fill_bar_index = bar;
        fill_timestamp = candle.t;
        fill_price = candle.close *F (int 1 +F of_int direction *F rate);
        position_before = position;
        position_after = intent.desired_position;
        transaction_cost = charge (turnover_of position intent) config.transaction_cost_bps;
        slippage = charge (turnover_of position intent) config.slippage_bps;
        action = intent.desired_action;
        status = filled;
        broker_order_id = none;
      }

  -- The loop of `advanceBar`, with the position and the two sums so far
  unfoldable pub fill_pass :
      ReplayConfig F → ℕ → Candle F → List ExecutionIntent → ℤ → F → F → Pass F
  unfolding settlement
  fill_pass config bar candle [] position cost slippage = record {
    intents = [];
    position = position;
    cost = cost;
    slippage = slippage;
    fills = [];
    transitions = [];
  }
  fill_pass config bar candle (intent ∷ rest) position cost slippage =
      elim (settlement bar position intent) [
        | skipped ↦ kept intent (fill_pass config bar candle rest position cost slippage)
        | dropped ↦
            kept (with_status cancelled intent)
              (fill_pass config bar candle rest position cost slippage)
        | moved ↦
            let turnover = turnover_of position intent in
            pushed (with_status filled intent) (fill_of config bar candle position intent)
              (transition_of bar candle.t position intent)
              (fill_pass config bar candle rest intent.desired_position
                (cost +F charge turnover config.transaction_cost_bps)
                (slippage +F charge turnover config.slippage_bps))
      ]

  -- `marketReturn`
  abbrev pub market_return : ℤ → Candle F → Option (Candle F) → F
  market_return position candle none = int 0
  market_return position candle (some previous) =
      of_int position *F num.log (candle.close /F previous.close)

  unfoldable pub advance_bar :
      ReplayConfig F → ℕ → Candle F → Option (Candle F) → Replay F → Replay F
  unfolding fill_pass
  advance_bar config bar candle previous r =
      let p = fill_pass config bar candle r.intents r.position (int 0) (int 0) in
      let period_return = market_return r.position candle previous -F p.cost -F p.slippage in
      let value = r.equity_value *F num.exp period_return in
      record {
        position = p.position;
        equity_value = value;
        intents = p.intents;
        fills = r.fills ++ p.fills;
        transitions = r.transitions ++ p.transitions;
        equity =
            r.equity
            ++ record {
              bar_index = bar;
              timestamp = candle.t;
              equity = value;
              period_return = period_return;
              position_applied = r.position;
              transaction_cost = p.cost;
              slippage = p.slippage;
            }
              ∷ [];
      }

  -- the largest equity of the points, and of `peak`
  abbrev pub peak_of : F → List (EquityPoint F) → F
  peak_of peak [] = peak
  peak_of peak (point ∷ rest) = peak_of (max_num peak point.equity) rest

  unfoldable pub current_drawdown : Replay F → F
  current_drawdown r =
      let peak = peak_of (int 1) r.equity in
      if peak ==F int 0 then int 0 else max_num (int 0) ((peak -F r.equity_value) /F peak)

  -- `reduce` with `+`
  abbrev pub sum : {A : Type 0} → (A → F) → F → List A → F
  sum f total [] = total
  sum f total (x ∷ xs) = sum f (total +F f x) xs

  unfoldable pub snapshot : Replay F → ExecutionLedger F
  snapshot r = record {
    model = next_bar_close;
    intents = r.intents;
    fills = r.fills;
    transitions = r.transitions;
    equity = r.equity;
    final_position = r.position;
    final_equity = r.equity_value;
    total_transaction_cost = sum (λ f. f.transaction_cost) (int 0) r.fills;
    total_slippage = sum (λ f. f.slippage) (int 0) r.fills;
  }
