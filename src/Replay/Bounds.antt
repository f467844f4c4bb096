-- ===== src/Replay/Bounds.antt =====
-- Positions are -1, 0 or 1, so a fill moves by at most 2.
use thelight.Common.{ℕ, ◌≤◌, List, [], ◌∷◌, Bool-cases, inl, inr, arith, All, All-append}
use thelight.Common.Int.{ℤ, ◌-ℤ◌, ◌==ℤ◌, abs_ℤ}
use thelight.Number.{Num}
use thelight.Types.{Action, Candle, ExecutionIntent, PositionTransition}
use thelight.Replay.Ledger.{
  ReplayConfig, Replay, turnover_of, new_replay, action_to_position, create_intent, fill_pass,
  advance_bar, settlement, Settlement-cases,
}
use thelight.Replay.Chain.{Call, bar_closed, decided, call, run}

abbrev pub IsUnit : ℤ → Type 0
IsUnit position = abs_ℤ position ≤ 1

abbrev pub WantsUnit : ExecutionIntent → Type 0
WantsUnit intent = IsUnit intent.desired_position

abbrev pub IsSmall : PositionTransition → Type 0
IsSmall t = t.turnover ≤ 2

-- The positions, the wishes of the intents, and the turnovers are small.
abbrev pub IsBounded : {F : Type 0} → Replay F → Type 0
IsBounded r = All WantsUnit r.intents × IsUnit r.position × All IsSmall r.transitions

action_to_position-IsUnit : (action : Action) → IsUnit (action_to_position action)
unfolding action_to_position
action_to_position-IsUnit action = ground arith

turnover-small :
    (position : ℤ) (intent : ExecutionIntent)
    → IsUnit position
    → WantsUnit intent
    → turnover_of position intent ≤ 2
unfolding ◌-ℤ◌
turnover-small position intent h k = ground arith

module _ {F : Type 0} ⦃num : Num F⦄ where
  fill_pass-IsBounded :
      (config : ReplayConfig F) (bar : ℕ) (candle : Candle F) (intents : List ExecutionIntent)
      (position : ℤ) (cost slippage : F)
      → All WantsUnit intents
      → IsUnit position
      → let p = fill_pass config bar candle intents position cost slippage in
        All WantsUnit p.intents × IsUnit p.position × All IsSmall p.transitions
  unfolding fill_pass
  fill_pass-IsBounded config bar candle [] position cost slippage w h = (tt, h, tt)
  fill_pass-IsBounded config bar candle (intent ∷ rest) position cost slippage (wi, w) h =
      elim (Settlement-cases (settlement bar position intent)) [
        | inl e ↦
            let (ws, h', small) =
              fill_pass-IsBounded config bar candle rest position cost slippage w h in
            rw (e, fill_pass) ((wi, ws), h', small)
        | inr (inl e) ↦
            let (ws, h', small) =
              fill_pass-IsBounded config bar candle rest position cost slippage w h in
            rw (e, fill_pass) ((wi, ws), h', small)
        | inr (inr e) ↦
            let (ws, h', small) =
              fill_pass-IsBounded config bar candle rest intent.desired_position _ _ w wi in
            rw (e, fill_pass) ((wi, ws), h', (turnover-small position intent h wi, small))
      ]

  call-IsBounded :
      (config : ReplayConfig F) (c : Call F) (r : Replay F)
      → IsBounded r
      → IsBounded (call config c r)
  unfolding call advance_bar create_intent
  call-IsBounded config (bar_closed bar candle previous) r (w, h, small) =
      let (ws, h', small') = fill_pass-IsBounded config bar candle r.intents r.position _ _ w h in
      (ws, h', All-append IsSmall r.transitions _ small small')
  call-IsBounded config (decided input) r (w, h, small) =
      elim (Bool-cases (action_to_position input.action ==ℤ r.position)) [
        | inl e ↦ rw (e, call, create_intent) (w, h, small)
        | inr e ↦
            rw (e, call, create_intent)
              (
                All-append WantsUnit r.intents _ w (action_to_position-IsUnit input.action, tt),
                h,
                small,
              )
      ]

  run-IsBounded :
      (config : ReplayConfig F) (cs : List (Call F)) (r : Replay F)
      → IsBounded r
      → IsBounded (run config cs r)
  unfolding run
  run-IsBounded config [] r h = h
  run-IsBounded config (c ∷ cs) r h =
      run-IsBounded config cs (call config c r) (call-IsBounded config c r h)

  -- After any sequence of bars and decisions the position is -1, 0 or 1, every intent wants such a
  -- position, and no transition moves by more than 2.
  pub positions-IsBounded :
      (config : ReplayConfig F) (cs : List (Call F)) → IsBounded (run config cs new_replay)
  unfolding new_replay
  positions-IsBounded config cs = run-IsBounded config cs new_replay (tt, ground arith, tt)
