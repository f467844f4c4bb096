-- ===== src/Feature/Warmup.antt =====
-- What `computeFeatures` returns: one vector for each candle, and when it counts as warmed up.
use thelight.Common.{
  if◌then◌else◌, ap, suc, Bool-cases, inl, inr, ℕ, ◌+◌, ◌≤◌, ◌≡◌, refl, subst, ◌↔◌, Bool, true,
  ◌&&◌, some, Option-cases, List, [], ◌∷◌, length, leb, map, arith,
}
use thelight.Number.{Num, ◌+F◌, ◌-F◌, ◌*F◌, ◌<F◌, int, is_finite}
use thelight.Types.{Candle, FeatureVector}
use thelight.Feature.Series.{
  in_unit, ema_from, recursive_ema, signal_from, grebenkov_return_signal, rsi_from, rolling_std,
  drawdown_from, running_drawdown, returns_from,
}
use thelight.Feature.Vector.{
  vol_window, rsi_period, vectors, ema_eta, price_lambda, compute_features,
}

some_eq : {A : Type 0} (x y : A) → some x ≡ some y → x ≡ y
some_eq x y h = cc h

length-map : {A B : Type 0} (f : A → B) (xs : List A) → length (map f xs) ≡ length xs
length-map f [] = refl
length-map f (x ∷ xs) = omega (arith, length-map f xs)

ready_iff :
    (i : ℕ) (a b : Bool) → ((leb 20 i && a && b) ≡ true) ↔ ((20 ≤ i) × (a ≡ true) × (b ≡ true))
ready_iff i a b = ground arith

module _ {F : Type 0} ⦃num : Num F⦄ where
  -- One vector for each candle, from index `i` on: it has the candle's time and close, and it counts as
  -- warmed up exactly from index 20 on, where its RSI and its volatility are finite.
  abbrev pub Describes : ℕ → List (Candle F) → List (FeatureVector F) → Type 0
  Describes i [] [] = Unit
  Describes i (c ∷ cs) (f ∷ fs) =
      (f.bar_index ≡ i)
      × (f.timestamp ≡ c.t)
      × (f.close ≡ c.close)
      × ((f.warmup_complete ≡ true)
          ↔ ((20 ≤ i) × (is_finite f.rsi14 ≡ true) × (is_finite f.realized_vol ≡ true)))
      × Describes (i + 1) cs fs
  Describes _ _ _ = ⊥

  length-ema_from : (l p : F) (xs : List F) → length (ema_from l p xs) ≡ length xs
  unfolding ema_from
  length-ema_from l p [] = refl
  length-ema_from l p (x ∷ xs) = ap suc (length-ema_from l ((int 1 -F l) *F p +F l *F x) xs)

  length-signal_from : (g d u b : F) (xs : List F) → length (signal_from g d u b xs) ≡ length xs
  unfolding signal_from
  length-signal_from g d u b [] = refl
  length-signal_from g d u b (x ∷ xs) = ap suc (length-signal_from g d (b +F d *F u) x xs)

  length-rsi_from : (n : ℕ) (seen xs : List F) → length (rsi_from n seen xs) ≡ length xs
  unfolding rsi_from
  length-rsi_from n seen [] = refl
  length-rsi_from n seen (x ∷ xs) = omega (arith, length-rsi_from n (x ∷ seen) xs)

  length-rolling_std : (n : ℕ) (seen xs : List F) → length (rolling_std n seen xs) ≡ length xs
  unfolding rolling_std
  length-rolling_std n seen [] = refl
  length-rolling_std n seen (x ∷ xs) = omega (arith, length-rolling_std n (x ∷ seen) xs)

  length-drawdown_from : (p : F) (xs : List F) → length (drawdown_from p xs) ≡ length xs
  unfolding drawdown_from
  length-drawdown_from p [] = refl
  length-drawdown_from p (x ∷ xs) = ap suc (length-drawdown_from (if p <F x then x else p) xs)

  length-returns_from : (p : F) (xs : List F) → length (returns_from p xs) ≡ length xs
  unfolding returns_from
  length-returns_from p [] = refl
  length-returns_from p (x ∷ xs) = omega (arith, length-returns_from x xs)

  vectors-Describes :
      (i : ℕ) (cs : List (Candle F)) (rs es ss xs vs ds : List F)
      → length rs ≡ length cs
      → length es ≡ length cs
      → length ss ≡ length cs
      → length xs ≡ length cs
      → length vs ≡ length cs
      → length ds ≡ length cs
      → Describes i cs (vectors i cs rs es ss xs vs ds)
  unfolding vectors
  vectors-Describes i [] rs es ss xs vs ds h1 h2 h3 h4 h5 h6 = tt
  vectors-Describes i (c ∷ cs) (r ∷ rs) (e ∷ es) (s ∷ ss) (x ∷ xs) (v ∷ vs) (d ∷ ds) h1 h2 h3 h4 h5
        h6 =
      (
        refl,
        refl,
        refl,
        ready_iff i (is_finite x) (is_finite v),
        vectors-Describes (i + 1) cs rs es ss xs vs ds (omega (arith, h1)) (omega (arith, h2))
            (omega (arith, h3)) (omega (arith, h4)) (omega (arith, h5)) (omega (arith, h6)),
      )
  vectors-Describes i (c ∷ cs) [] es ss xs vs ds h1 h2 h3 h4 h5 h6 = absurd (omega (arith, h1))
  vectors-Describes i (c ∷ cs) rs [] ss xs vs ds h1 h2 h3 h4 h5 h6 = absurd (omega (arith, h2))
  vectors-Describes i (c ∷ cs) rs es [] xs vs ds h1 h2 h3 h4 h5 h6 = absurd (omega (arith, h3))
  vectors-Describes i (c ∷ cs) rs es ss [] vs ds h1 h2 h3 h4 h5 h6 = absurd (omega (arith, h4))
  vectors-Describes i (c ∷ cs) rs es ss xs [] ds h1 h2 h3 h4 h5 h6 = absurd (omega (arith, h5))
  vectors-Describes i (c ∷ cs) rs es ss xs vs [] h1 h2 h3 h4 h5 h6 = absurd (omega (arith, h6))

  length-recursive_ema :
      (l : F) (xs ys : List F) → recursive_ema l xs ≡ some ys → length ys ≡ length xs
  unfolding recursive_ema
  length-recursive_ema l [] ys e = rw⁻¹ (some_eq [] ys e) refl
  length-recursive_ema l (x ∷ xs) ys e = elim (Bool-cases (in_unit l)) [
    | inl fine ↦ rw⁻¹ (some_eq _ ys (rw fine at e)) (ap suc (length-ema_from l x xs))
    | inr bad ↦ cc (rw bad at e)
  ]

  length-signal :
      (eta r : F) (rs ys : List F)
      → grebenkov_return_signal eta (r ∷ rs) ≡ some ys
      → length ys ≡ length (r ∷ rs)
  unfolding grebenkov_return_signal
  length-signal eta r rs ys e = elim (Bool-cases (in_unit eta)) [
    | inl fine ↦ rw⁻¹ (some_eq _ ys (rw fine at e)) (ap suc (length-signal_from _ _ _ r rs))
    | inr bad ↦ cc (rw bad at e)
  ]

  -- Where `computeFeatures` throws no error it gives one vector for each candle, in order: the vector
  -- has the candle's index, time and close, and it counts as warmed up exactly if its index is 20 or
  -- more and its RSI and its volatility are finite numbers.
  pub compute_features-Describes :
      (candles : List (Candle F)) (features : List (FeatureVector F))
      → compute_features candles ≡ some features
      → Describes 0 candles features
  unfolding compute_features running_drawdown
  compute_features-Describes [] features e = subst (Describes 0 []) (some_eq [] features e) tt
  compute_features-Describes (first ∷ rest) features e =
      let candles = first ∷ rest in
      let closes = map (λ c. c.close) candles in
      let later = map (λ c. c.close) rest in
      let returns = int 0 ∷ returns_from first.close later in
      let n = length-map (λ c. c.close) rest in
      let same_returns : length returns ≡ length candles =
        omega (arith, length-returns_from first.close later, n) in
      elim (Option-cases (recursive_ema price_lambda closes)) [
        | inl none_ema ↦ cc (rw (none_ema, compute_features) at e)
        | inr (ema, e1) ↦ elim (Option-cases (grebenkov_return_signal ema_eta returns)) [
          | inl none_signal ↦ cc (rw (e1, none_signal, compute_features) at e)
          | inr (signal, e2) ↦
              subst (Describes 0 candles) (some_eq _ features (rw (e1, e2, compute_features) at e))
                (vectors-Describes 0 candles returns ema signal _ _ _ same_returns
                  (omega (arith, length-recursive_ema price_lambda closes ema e1, n))
                  (omega (arith, length-signal ema_eta (int 0) _ signal e2, same_returns))
                  (omega (arith, length-rsi_from rsi_period [] closes, n))
                  (omega (arith, length-rolling_std vol_window [] returns, same_returns))
                  (omega (arith, length-drawdown_from first.close closes, n)))
        ]
      ]
