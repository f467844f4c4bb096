-- ===== src/Store/Immutable.antt =====
-- The bars of the store are immutable: the first write of a minute wins, and later writes are judged
-- against it.
use thelight.Common.{
  ℕ, ◌≡◌, ◌⊎◌, inl, inr, String, eq_iff, true, false, none, some, List, [], ◌∷◌, Bool-cases,
  Option-cases, arith,
}
use thelight.Number.{Num, ◌==F◌}
use thelight.Types.{ClosedBar}
use thelight.Store.Data.{MarketBarObservation, accepted_write, identical, conflict, MarketData}
use thelight.Store.Bars.{
  BarMap, key_eq, bar_at, add_bar, same_closed_bar, key_of, record_market_bar, record_market_bars,
}

key_eq-eq : (k j : String × ℕ) → key_eq k j ≡ true → k ≡ j
key_eq-eq (s, t) (s', t') h = ground (arith, eq_iff s s')

key_eq_refl : (k : String × ℕ) → key_eq k k ≡ true
key_eq_refl (s, t) = ground (arith, eq_iff s s)

module _ {F : Type 0} where
  bar_at-add_keeps :
      (k j : String × ℕ) (bar old : ClosedBar F) (m : BarMap F)
      → bar_at k m ≡ some old
      → bar_at k (add_bar j bar m) ≡ some old
  unfolding bar_at
  bar_at-add_keeps k j bar old [] h = cc
  bar_at-add_keeps k j bar old ((i, b) ∷ m) h = ground (arith, bar_at-add_keeps k j bar old m)

  bar_at-add_self :
      (k : String × ℕ) (bar : ClosedBar F) (m : BarMap F)
      → bar_at k m ≡ none
      → bar_at k (add_bar k bar m) ≡ some bar
  unfolding bar_at
  bar_at-add_self k bar [] h = rw (key_eq_refl k)
  bar_at-add_self k bar ((i, b) ∷ m) h = ground (arith, bar_at-add_self k bar m)

module _ {F : Type 0} ⦃num : Num F⦄ where
  pub record-keeps :
      (k : String × ℕ) (o : MarketBarObservation F) (old : ClosedBar F) (d : MarketData F)
      → bar_at k d.bars ≡ some old
      → bar_at k (record_market_bar o d).1.bars ≡ some old
  unfolding record_market_bar
  record-keeps k o old d h = elim (Option-cases (bar_at (key_of o) d.bars)) [
    | inl e ↦ rw e (bar_at-add_keeps k (key_of o) o.bar old d.bars h)
    | inr (prior, e) ↦ rw e h
  ]

  -- A stored bar is never replaced, whatever is observed afterwards: live bars, backfills and
  -- contradictions included.
  pub stored_bar_stays :
      (k : String × ℕ) (os : List (MarketBarObservation F)) (old : ClosedBar F) (d : MarketData F)
      → bar_at k d.bars ≡ some old
      → bar_at k (record_market_bars os d).1.bars ≡ some old
  unfolding record_market_bars
  stored_bar_stays k [] old d h = h
  stored_bar_stays k (o ∷ os) old d h =
      stored_bar_stays k os old (record_market_bar o d).1 (record-keeps k o old d h)

  -- Two bars have the same time and equal numbers.
  abbrev pub SameFields : ClosedBar F → ClosedBar F → Type 0
  SameFields a b =
      (a.t ≡ b.t)
      × (a.open_price ==F b.open_price ≡ true)
      × (a.high ==F b.high ≡ true)
      × (a.low ==F b.low ≡ true)
      × (a.close ==F b.close ≡ true)
      × (a.volume ==F b.volume ≡ true)

  same-SameFields : (a b : ClosedBar F) → same_closed_bar a b ≡ true → SameFields a b
  same-SameFields a b h = ground (arith, h)

  other-SameFields : (a b : ClosedBar F) → same_closed_bar a b ≡ false → ¬ SameFields a b
  other-SameFields a b h = ground (arith, h)

  -- The answer of a write says what is stored under its minute afterwards: an accepted bar is stored
  -- and nothing was there before; an identical one equals the bar that was and is there, in its
  -- time and by `===` in its four prices and its volume; and a conflicting one differs from the bar
  -- that was and is there in one of them.
  pub write_result_exact :
      (o : MarketBarObservation F) (d : MarketData F)
      → let (result, d') = record_market_bar o d in
        ((result ≡ accepted_write)
          × (bar_at (key_of o) d.bars ≡ none)
          × (bar_at (key_of o) d'.bars ≡ some o.bar))
        ⊎ ((prior : ClosedBar F) × (bar_at (key_of o) d.bars ≡ some prior)
            × (bar_at (key_of o) d'.bars ≡ some prior)
            × (((result ≡ identical) × SameFields prior o.bar)
                ⊎ ((result ≡ conflict) × ¬ SameFields prior o.bar)))
  unfolding record_market_bar
  write_result_exact o d = elim (Option-cases (bar_at (key_of o) d.bars)) [
    | inl e ↦ inl (rw e, e, rw e (bar_at-add_self (key_of o) o.bar d.bars e))
    | inr (prior, e) ↦ inr (
      prior,
      e,
      rw e e,
      elim (Bool-cases (same_closed_bar prior o.bar)) [
        | inl same ↦ inl (rw (e, same), same-SameFields prior o.bar same)
        | inr other ↦ inr (rw (e, other), other-SameFields prior o.bar other)
      ],
    )
  ]
