-- ===== src/Runtime/Backfilled.antt =====
-- A reply that passes the tests of `recoverGap` closes the gap.
use thelight.Common.{
  ℕ, ◌≡◌, refl, sym, ◌∙◌, none, ◌⊎◌, inl, inr, String, Bool, true, false, some, List, [], ◌∷◌, ◌==◌,
  ==_iff, any, all, keep, last?, All, All-map, is_some, Bool-cases, Option-cases, arith, subst,
}
use thelight.Number.{Num}
use thelight.Types.{ClosedBar}
use thelight.Store.Data.{MarketBarObservation, MarketData}
use thelight.Store.Bars.{bar_at, record_market_bar}
use thelight.Store.Immutable.{record-keeps, write_result_exact, SameFields}
use thelight.Worker.Gaps.{Gap}
use thelight.Runtime.World.{Result, ok, World, Setup}
use thelight.Runtime.Actions.{◌>>=◌, pure, gets, modify, if_null}
use thelight.Runtime.Recovery.{
  is_conflict, returned_bar, expected_minutes, is_complete, observation_of, store_bar,
  store_backfill,
}

module _ {F : Type 0} where
  abbrev at_minute : ℕ → ClosedBar F → Bool
  at_minute t bar = bar.t == t

  last?-at :
      (t : ℕ) (bars : List (ClosedBar F)) (bar : ClosedBar F)
      → last? (keep (at_minute t) bars) ≡ some bar
      → bar.t ≡ t
  last?-at t [] bar e = cc
  last?-at t (b ∷ bars) bar e = elim (Bool-cases (at_minute t b)) [
    | inr no_bar ↦ last?-at t bars bar (rw no_bar at e)
    | inl here ↦
        last?-after t b (keep (at_minute t) bars) bar ((==_iff b.t t).0 here) (last?-at t bars)
          (rw here at e)
  ]
    where
      last?-after :
          (t : ℕ) (b : ClosedBar F) (kept : List (ClosedBar F)) (bar : ClosedBar F)
          → b.t ≡ t
          → ((x : ClosedBar F) → last? kept ≡ some x → x.t ≡ t)
          → last? (b ∷ kept) ≡ some bar
          → bar.t ≡ t
      last?-after t b [] bar at later e = cc (at, e)
      last?-after t b (c ∷ kept) bar at later e = later bar e

  any-returned :
      (t : ℕ) (bars : List (ClosedBar F))
      → any (at_minute t) bars ≡ true
      → is_some (returned_bar bars t) ≡ true
  any-returned t [] h = cc
  any-returned t (b ∷ bars) h = elim (Bool-cases (at_minute t b)) [
    | inl here ↦ rw here (last?-some b (keep (at_minute t) bars))
    | inr gone ↦ rw gone (any-returned t bars (rw gone at h))
  ]
    where
      last?-some : (b : ClosedBar F) (kept : List (ClosedBar F)) → is_some (last? (b ∷ kept)) ≡ true
      last?-some b [] = refl
      last?-some b (c ∷ kept) = last?-some c kept

all-All : (p : ℕ → Bool) (ts : List ℕ) → all p ts ≡ true → All (λ t. p t ≡ true) ts
all-All p [] h = tt
all-All p (t ∷ ts) h = (ground (arith, h), all-All p ts (ground (arith, h)))

module _ {F : Type 0} ⦃num : Num F⦄ where
  complete-returned :
      (g : Gap) (bars : List (ClosedBar F))
      → is_complete g bars ≡ true
      → All (λ t. is_some (returned_bar bars t) ≡ true) (expected_minutes g)
  unfolding is_complete
  complete-returned g bars h =
      All-map (λ t. any-returned t bars) (expected_minutes g)
        (all-All (λ t. any (at_minute t) bars) (expected_minutes g) (ground (arith, h)))

  -- A write that is no conflict leaves a bar of its minute in the store: the observed one, or one that
  -- equals it field by field.
  written-bar :
      (o : MarketBarObservation F) (d : MarketData F)
      → is_conflict (record_market_bar o d).0 ≡ false
      → (prior : ClosedBar F) × (bar_at (o.symbol, o.bar.t) (record_market_bar o d).1.bars
          ≡ some prior)
        × ((prior ≡ o.bar) ⊎ SameFields prior o.bar)
  written-bar o d fine = elim (write_result_exact o d) [
    | inl (r, before, after) ↦ (o.bar, after, inl refl)
    | inr (prior, before, after, inl (r, same)) ↦ (prior, after, inr same)
    | inr (prior, before, after, inr (r, other)) ↦ cc (rw r at fine)
  ]

  clashing-bar :
      (o : MarketBarObservation F) (d : MarketData F)
      → is_conflict (record_market_bar o d).0 ≡ true
      → (prior : ClosedBar F) × (bar_at (o.symbol, o.bar.t) (record_market_bar o d).1.bars
          ≡ some prior)
        × ¬ SameFields prior o.bar
  clashing-bar o d clash = elim (write_result_exact o d) [
    | inl (r, before, after) ↦ cc (rw r at clash)
    | inr (prior, before, after, inl (r, same)) ↦ cc (rw r at clash)
    | inr (prior, before, after, inr (r, other)) ↦ (prior, after, other)
  ]

module _ {F S : Type 0} ⦃num : Num F⦄ (env : Setup F S) (bars : List (ClosedBar F)) where
  -- The returned bar of some minute contradicts the stored one.
  abbrev pub Contradicts : World F S → Type 0
  Contradicts w =
      (bar : ClosedBar F) × (prior : ClosedBar F) × (returned_bar bars bar.t ≡ some bar)
      × (bar_at (env.asset.symbol, bar.t) w.market.bars ≡ some prior)
      × ¬ SameFields prior bar

  -- The store has the returned bar of a minute, or one that equals it field by field.
  abbrev pub IsStored : World F S → ℕ → Type 0
  IsStored w t =
      (bar : ClosedBar F) × (prior : ClosedBar F) × (returned_bar bars t ≡ some bar)
      × (bar_at (env.asset.symbol, t) w.market.bars ≡ some prior)
      × ((prior ≡ bar) ⊎ SameFields prior bar)

  abbrev BarsStay : World F S → World F S → Type 0
  BarsStay w w' =
      (u : ℕ) (old : ClosedBar F)
      → bar_at (env.asset.symbol, u) w.market.bars ≡ some old
      → bar_at (env.asset.symbol, u) w'.market.bars ≡ some old

  abbrev Filled : List ℕ → World F S → Result Bool × World F S → Type 0
  Filled minutes w (r, w') =
      (((r ≡ ok true) × Contradicts w') ⊎ ((r ≡ ok false) × All (IsStored w') minutes))
      × BarsStay w w'

  IsStored-stays : (w w' : World F S) (t : ℕ) → BarsStay w w' → IsStored w t → IsStored w' t
  IsStored-stays w w' t stay (bar, prior, there, here, same) =
      (bar, prior, there, stay t prior here, same)

  fill-next :
      (t : ℕ) (rest : List ℕ) (w v : World F S) (x : Result Bool × World F S)
      → Filled rest v x
      → IsStored v t
      → BarsStay w v
      → Filled (t ∷ rest) w x
  fill-next t rest w v (r, w') (inl clash, kept) here before =
      (inl clash, λ u old h. kept u old (before u old h))
  fill-next t rest w v (r, w') (inr (fine, filled), kept) here before = (
    inr (fine, (IsStored-stays v w' t kept here, filled)),
    λ u old h. kept u old (before u old h),
  )

  -- The state after the first bar was written
  abbrev after_first : String → ℕ → ClosedBar F → World F S → World F S
  after_first id time bar w = record w {
    market = (record_market_bar (observation_of env id time bar) w.market).1;
  }

  module _ (id : String) (time t : ℕ) (bar : ClosedBar F) (rest : List ℕ) (w : World F S) where
    backfill-clash :
        returned_bar bars t ≡ some bar
        → is_conflict (record_market_bar (observation_of env id time bar) w.market).0 ≡ true
        → store_backfill env id time bars (t ∷ rest) w ≡ (ok true, after_first id time bar w)
    unfolding store_backfill store_bar ◌>>=◌ pure gets modify if_null
    backfill-clash e clash = rw (e, clash)

    backfill-fine :
        returned_bar bars t ≡ some bar
        → is_conflict (record_market_bar (observation_of env id time bar) w.market).0 ≡ false
        → store_backfill env id time bars (t ∷ rest) w
          ≡ store_backfill env id time bars rest (after_first id time bar w)
    unfolding store_backfill store_bar ◌>>=◌ pure gets modify if_null
    backfill-fine e fine = rw (e, fine)

    first-Contradicts :
        returned_bar bars t ≡ some bar
        → is_conflict (record_market_bar (observation_of env id time bar) w.market).0 ≡ true
        → Contradicts (after_first id time bar w)
    first-Contradicts e clash =
        let (prior, there, other) = clashing-bar (observation_of env id time bar) w.market clash in
        (
          bar,
          prior,
          subst (λ u. returned_bar bars u ≡ some bar) (sym (last?-at t bars bar e)) e,
          there,
          other,
        )

    first-IsStored :
        returned_bar bars t ≡ some bar
        → is_conflict (record_market_bar (observation_of env id time bar) w.market).0 ≡ false
        → IsStored (after_first id time bar w) t
    first-IsStored e fine =
        let (prior, there, same) = written-bar (observation_of env id time bar) w.market fine in
        (
          bar,
          prior,
          e,
          subst
              (λ u.
                bar_at (env.asset.symbol, u) (after_first id time bar w).market.bars ≡ some prior)
              (last?-at t bars bar e) there,
          same,
        )

  backfill-Filled :
      (id : String) (time : ℕ) (minutes : List ℕ) (w : World F S)
      → All (λ t. is_some (returned_bar bars t) ≡ true) minutes
      → Filled minutes w (store_backfill env id time bars minutes w)
  unfolding store_backfill pure
  backfill-Filled id time [] w h = (inr (refl, tt), λ u old x. x)
  backfill-Filled id time (t ∷ rest) w (there, others) = elim (Option-cases (returned_bar bars t)) [
    | inl e ↦ cc (rw e at there)
    | inr (bar, e) ↦
        let o = observation_of env id time bar in
        let v : World F S = after_first id time bar w in
        let before : BarsStay w v = λ u old. record-keeps (env.asset.symbol, u) o old w.market in
        elim (Bool-cases (is_conflict (record_market_bar o w.market).0)) [
          | inl clash ↦
              subst (Filled (t ∷ rest) w) (sym (backfill-clash id time t bar rest w e clash))
                (inl (refl, first-Contradicts id time t bar rest w e clash), before)
          | inr fine ↦
              subst (Filled (t ∷ rest) w) (sym (backfill-fine id time t bar rest w e fine)) (
                fill-next t rest w v (store_backfill env id time bars rest v)
                  (backfill-Filled id time rest v others)
                  (first-IsStored id time t bar rest w e fine) before)
        ]
  ]

  -- When the bars that the broker's history returns for a gap pass the completeness test of `recoverGap`,
  -- writing them comes to an end without an error. Either it reports a conflict, and a returned bar
  -- differs in a field from the bar that the store keeps of its minute; or it reports none, and the
  -- store has a bar of every minute of the gap, the returned one or one that equals it in every field.
  -- No bar that was stored before is replaced.
  pub backfill_completes :
      (g : Gap) (id : String) (time : ℕ) (w : World F S) (t : ℕ)
      → is_complete g bars ≡ true
      → let (result, w') = store_backfill env id time bars (expected_minutes g) w in
        (((result ≡ ok true) × Contradicts w')
          ⊎ ((result ≡ ok false) × All (IsStored w') (expected_minutes g)))
        × ((bar_at (env.asset.symbol, t) w.market.bars ≡ none)
            ⊎ (bar_at (env.asset.symbol, t) w'.market.bars
                ≡ bar_at (env.asset.symbol, t) w.market.bars))
  backfill_completes g id time w t h =
      let r = backfill-Filled id time (expected_minutes g) w (complete-returned g bars h) in
      (
        r.0,
        elim (Option-cases (bar_at (env.asset.symbol, t) w.market.bars)) [
          | inl free ↦ inl free
          | inr (old, there) ↦ inr (r.1 t old there ∙ sym there)
        ],
      )
