-- ===== src/Replay/Settle.antt =====
-- When intents are filled: at the bar after the one they were created at, and only then.
use thelight.Common.{
  ℕ, ◌+◌, str_eq, Bool, true, false, ◌&&◌, ◌||◌, Option, none, some, List, [], ◌∷◌, ◌++◌, ◌==◌, ◌≡◌,
  inl, inr, Bool-cases, arith, All, All-map, All-append, any, eq_refl, ◌≢◌,
}
use thelight.Common.Int.{ℤ, ◌==ℤ◌, ==ℤ_refl}
use thelight.Number.{Num, ◌*F◌, ◌/F◌, int, of_int}
use thelight.Types.{Candle, ExecutionIntent, filled, cancelled, Fill}
use thelight.Order.{status_eq}
use thelight.Replay.Ledger.{
  ReplayConfig, Replay, is_due, with_status, fill_of, new_replay, create_intent, fill_pass,
  advance_bar, action_to_position, skipped, settlement, Settlement-cases, settlement-moved,
}
use thelight.Replay.Chain.{Call, bar_closed, decided, call, run}

-- The intent that a fill executes: it is filled, was created at the bar before the fill's, and wanted
-- the position that the fill leads to.
abbrev pub executes : {F : Type 0} → Fill F → ExecutionIntent → Bool
executes f i =
    str_eq i.intent_id f.intent_id
    && status_eq i.status filled
    && i.created_at_bar + 1 == f.fill_bar_index
    && i.desired_position ==ℤ f.position_after

abbrev pub IsExecutedIn : {F : Type 0} → List ExecutionIntent → Fill F → Type 0
IsExecutedIn intents f = any (executes f) intents ≡ true

or_mono :
    (a a' b b' : Bool)
    → (a ≡ true → a' ≡ true)
    → (b ≡ true → b' ≡ true)
    → (a || b) ≡ true
    → (a' || b') ≡ true
or_mono a a' b b' f g h = ground arith

or_true : (a b : Bool) → b ≡ true → (a || b) ≡ true
or_true a b h = ground arith

true_or : (a b : Bool) → a ≡ true → (a || b) ≡ true
true_or a b h = ground arith

any-append :
    {A : Type 0} (p : A → Bool) (xs ys : List A) → any p xs ≡ true → any p (xs ++ ys) ≡ true
any-append p [] ys h = ground (arith, h)
any-append p (x ∷ xs) ys h =
    or_mono (p x) (p x) (any p xs) (any p (xs ++ ys)) (λ e. e) (any-append p xs ys) h

-- An intent that is due is not filled yet.
due-executes :
    {F : Type 0} (bar : ℕ) (intent : ExecutionIntent) (f : Fill F)
    → is_due bar intent ≡ true
    → executes f intent ≡ false
due-executes bar intent f due = ground arith

settled-executes :
    {F : Type 0} (bar : ℕ) (position : ℤ) (intent : ExecutionIntent) (f : Fill F)
    → settlement bar position intent ≢ skipped
    → executes f intent ≡ false
unfolding settlement
settled-executes bar position intent f due = ground arith

false_or :
    (a b c : Bool)
    → a ≡ false
    → (a || b) ≡ true
    → (b ≡ true → c ≡ true)
    → (d : Bool) → (d || c) ≡ true
false_or a b c e h f d = ground arith

module _ {F : Type 0} ⦃num : Num F⦄ where
  -- What was executed stays executed: the loop changes no filled intent.
  fill_pass-executed :
      (config : ReplayConfig F) (bar : ℕ) (candle : Candle F) (intents : List ExecutionIntent)
      (position : ℤ) (cost slippage : F) (f : Fill F)
      → any (executes f) intents ≡ true
      → any (executes f) (fill_pass config bar candle intents position cost slippage).intents ≡ true
  unfolding fill_pass
  fill_pass-executed config bar candle [] position cost slippage f h = h
  fill_pass-executed config bar candle (intent ∷ rest) position cost slippage f h =
      elim (Settlement-cases (settlement bar position intent)) [
        | inl e ↦
            rw (e, fill_pass)
              (or_mono _ (executes f intent) _ _ (λ x. x)
                (fill_pass-executed config bar candle rest position cost slippage f) h)
        | inr (inl e) ↦
            rw (e, fill_pass)
              (false_or _ _ _ (settled-executes bar position intent f (λ s. cc (e, s))) h
                (fill_pass-executed config bar candle rest position cost slippage f) _)
        | inr (inr e) ↦
            rw (e, fill_pass)
              (false_or _ _ _ (settled-executes bar position intent f (λ s. cc (e, s))) h
                (fill_pass-executed config bar candle rest intent.desired_position _ _ f) _)
      ]

  executes-fill_of :
      (config : ReplayConfig F) (bar : ℕ) (candle : Candle F) (position : ℤ)
      (intent : ExecutionIntent)
      → is_due bar intent ≡ true
      → executes (fill_of config bar candle position intent) (with_status filled intent) ≡ true
  executes-fill_of config bar candle position intent due =
      ground (arith, eq_refl intent.intent_id, ==ℤ_refl intent.desired_position)

  -- Every fill that the loop pushes executes an intent of its result.
  fill_pass-fills :
      (config : ReplayConfig F) (bar : ℕ) (candle : Candle F) (intents : List ExecutionIntent)
      (position : ℤ) (cost slippage : F)
      → let p = fill_pass config bar candle intents position cost slippage in
        All (IsExecutedIn p.intents) p.fills
  unfolding fill_pass
  fill_pass-fills config bar candle [] position cost slippage = tt
  fill_pass-fills config bar candle (intent ∷ rest) position cost slippage =
      elim (Settlement-cases (settlement bar position intent)) [
        | inl e ↦
            rw (e, fill_pass)
              (All-map (λ f h. or_true (executes f intent) _ h) _
                (fill_pass-fills config bar candle rest position cost slippage))
        | inr (inl e) ↦
            rw (e, fill_pass)
              (All-map (λ f h. or_true (executes f (with_status cancelled intent)) _ h) _
                (fill_pass-fills config bar candle rest position cost slippage))
        | inr (inr e) ↦
            rw (e, fill_pass)
              (
                true_or _ _ (
                    executes-fill_of config bar candle position intent
                      (settlement-moved bar position intent e).0),
                All-map (λ f h. or_true (executes f (with_status filled intent)) _ h) _
                    (fill_pass-fills config bar candle rest intent.desired_position _ _),
              )
      ]

  abbrev pub IsExecuted : Replay F → Type 0
  IsExecuted r = All (IsExecutedIn r.intents) r.fills

  call-IsExecuted :
      (config : ReplayConfig F) (c : Call F) (r : Replay F)
      → IsExecuted r
      → IsExecuted (call config c r)
  unfolding call advance_bar create_intent
  call-IsExecuted config (bar_closed bar candle previous) r h =
      All-append (IsExecutedIn _) r.fills _
        (All-map (fill_pass-executed config bar candle r.intents r.position _ _) r.fills h)
        (fill_pass-fills config bar candle r.intents r.position _ _)
  call-IsExecuted config (decided input) r h =
      elim (Bool-cases (action_to_position input.action ==ℤ r.position)) [
        | inl e ↦ rw (e, call, create_intent) h
        | inr e ↦
            rw (e, call, create_intent)
              (All-map (λ f. any-append (executes f) r.intents _) r.fills h)
      ]

  run-IsExecuted :
      (config : ReplayConfig F) (cs : List (Call F)) (r : Replay F)
      → IsExecuted r
      → IsExecuted (run config cs r)
  unfolding run
  run-IsExecuted config [] r h = h
  run-IsExecuted config (c ∷ cs) r h =
      run-IsExecuted config cs (call config c r) (call-IsExecuted config c r h)

  -- After any sequence of bars and decisions every fill of the ledger executes an intent of the
  -- ledger: the intent has the fill's intent id and is filled, the fill's bar is the one after the
  -- bar that the intent was created at, and the fill leads to the position that the intent wanted.
  pub fills_next_bar :
      (config : ReplayConfig F) (cs : List (Call F)) → IsExecuted (run config cs new_replay)
  unfolding new_replay
  fills_next_bar config cs = run-IsExecuted config cs new_replay tt

  -- What a position earns between two closes; the first bar earns nothing.
  abbrev pub earned : ℤ → Candle F → Option (Candle F) → F
  earned held candle none = int 0
  earned held candle (some before) = of_int held *F num.log (candle.close /F before.close)
