-- ===== src/Replay/Chain.antt =====
-- The transitions of the ledger lead from one position to the next, from 0 to the current one.
use thelight.Common.{
  ℕ, ◌<◌, String, Option, List, [], ◌∷◌, ◌++◌, ◌≡◌, refl, sym, subst, inl, inr, Bool-cases, map,
}
use thelight.Common.Int.{ℤ, pos, ◌-ℤ◌, ◌==ℤ◌, abs_ℤ}
use mathlib.Core.List.{map-append}
use thelight.Number.{Num}
use thelight.Types.{Candle, ExecutionIntent, Fill, PositionTransition}
use thelight.Replay.Ledger.{
  ReplayConfig, Replay, IntentInput, new_replay, create_intent, fill_pass, advance_bar,
  action_to_position, settlement, Settlement-cases, settlement-moved,
}

-- The calls that change a replay.
pub data Call (F : Type 0) : Type 0 where
  bar_closed : ℕ → Candle F → Option (Candle F) → Call F
  decided : IntentInput → Call F

-- Each transition starts where the one before it ended, and moves by its turnover.
abbrev pub Chain : ℤ → List PositionTransition → ℤ → Type 0
Chain a [] b = a ≡ b
Chain a (t ∷ ts) b =
    (t.position_before ≡ a)
    × (t.turnover ≡ abs_ℤ (t.position_after -ℤ a))
    × (0 < t.turnover)
    × Chain t.position_after ts b

-- The transition that records a fill
abbrev pub ends_of_fill : {F : Type 0} → Fill F → String × ℕ × ℤ × ℤ
ends_of_fill f = (f.intent_id, f.fill_bar_index, f.position_before, f.position_after)

abbrev pub ends_of_transition : PositionTransition → String × ℕ × ℤ × ℤ
ends_of_transition t = (t.intent_id, t.bar_index, t.position_before, t.position_after)

Chain-append :
    (a b c : ℤ) (xs ys : List PositionTransition)
    → Chain a xs b
    → Chain b ys c
    → Chain a (xs ++ ys) c
Chain-append a b c [] ys h k = subst (λ x. Chain x ys c) (sym h) k
Chain-append a b c (x ∷ xs) ys (before, turnover, some_turnover, h) k =
    (before, turnover, some_turnover, Chain-append x.position_after b c xs ys h k)

module _ {F : Type 0} ⦃num : Num F⦄ where
  unfoldable pub call : ReplayConfig F → Call F → Replay F → Replay F
  call config (bar_closed bar candle previous) r = advance_bar config bar candle previous r
  call config (decided input) r = (create_intent input r).1

  unfoldable pub run : ReplayConfig F → List (Call F) → Replay F → Replay F
  run config [] r = r
  run config (c ∷ cs) r = run config cs (call config c r)

  fill_pass-Chain :
      (config : ReplayConfig F) (bar : ℕ) (candle : Candle F) (intents : List ExecutionIntent)
      (position : ℤ) (cost slippage : F)
      → let p = fill_pass config bar candle intents position cost slippage in
        Chain position p.transitions p.position
        × (map ends_of_fill p.fills ≡ map ends_of_transition p.transitions)
  unfolding fill_pass
  fill_pass-Chain config bar candle [] position cost slippage = (refl, refl)
  fill_pass-Chain config bar candle (intent ∷ rest) position cost slippage =
      elim (Settlement-cases (settlement bar position intent)) [
        | inl e ↦ rw (e, fill_pass) (fill_pass-Chain config bar candle rest position cost slippage)
        | inr (inl e) ↦
            rw (e, fill_pass) (fill_pass-Chain config bar candle rest position cost slippage)
        | inr (inr e) ↦
            let (chain, same) =
              fill_pass-Chain config bar candle rest intent.desired_position _ _ in
            rw (e, fill_pass)
              ((refl, refl, (settlement-moved bar position intent e).1, chain), cc same)
      ]

  -- What holds of the ledger after every call.
  abbrev pub IsConsistent : Replay F → Type 0
  IsConsistent r =
      Chain (pos 0) r.transitions r.position
      × (map ends_of_fill r.fills ≡ map ends_of_transition r.transitions)

  map-same :
      (fs : List (Fill F)) (ts : List PositionTransition) (fs' : List (Fill F))
      (ts' : List PositionTransition)
      → map ends_of_fill fs ≡ map ends_of_transition ts
      → map ends_of_fill fs' ≡ map ends_of_transition ts'
      → map ends_of_fill (fs ++ fs') ≡ map ends_of_transition (ts ++ ts')
  map-same fs ts fs' ts' h h' = simp (map-append, h, h')

  call-IsConsistent :
      (config : ReplayConfig F) (c : Call F) (r : Replay F)
      → IsConsistent r
      → IsConsistent (call config c r)
  unfolding call advance_bar create_intent
  call-IsConsistent config (bar_closed bar candle previous) r (chain, same) =
      let (chain', same') = fill_pass-Chain config bar candle r.intents r.position _ _ in
      (
        Chain-append _ _ _ r.transitions _ chain chain',
        map-same r.fills r.transitions _ _ same same',
      )
  call-IsConsistent config (decided input) r h =
      elim (Bool-cases (action_to_position input.action ==ℤ r.position)) [
        | inl e ↦ rw (e, call, create_intent) h
        | inr e ↦ rw (e, call, create_intent) h
      ]

  run-IsConsistent :
      (config : ReplayConfig F) (cs : List (Call F)) (r : Replay F)
      → IsConsistent r
      → IsConsistent (run config cs r)
  unfolding run
  run-IsConsistent config [] r h = h
  run-IsConsistent config (c ∷ cs) r h =
      run-IsConsistent config cs (call config c r) (call-IsConsistent config c r h)

  -- After any sequence of bars and decisions the transitions of a new replay form a chain: the first
  -- starts at 0, each starts where the one before it ended and moves by its turnover, which is not 0,
  -- and the last ends at the current position; and the fills record the same moves, one by one.
  pub transitions_chain :
      (config : ReplayConfig F) (cs : List (Call F)) → IsConsistent (run config cs new_replay)
  unfolding new_replay
  transitions_chain config cs = run-IsConsistent config cs new_replay (refl, refl)
