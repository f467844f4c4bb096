-- ===== src/Feature/Vector.antt =====
-- `computeFeatures`, and when a feature vector counts as warmed up.
use thelight.Common.{
  ℕ, ◌+◌, Bool, ◌&&◌, Option, none, some, List, [], ◌∷◌, leb, max, map, if◌then◌else◌,
}
use thelight.Number.{Num, ◌-F◌, ◌/F◌, ◌<F◌, ◌==F◌, int, decimal, is_finite}
use thelight.Types.{Candle, FeatureVector}
use thelight.Feature.Series.{
  recursive_ema, grebenkov_return_signal, rsi_from, rolling_std, running_drawdown, returns_from,
}

abbrev pub vol_window : ℕ
vol_window = 20

abbrev pub rsi_period : ℕ
rsi_period = 14

abbrev pub price_ema_span : ℕ
price_ema_span = 20

abbrev pub warmup : ℕ
warmup = max (max vol_window (rsi_period + 1)) price_ema_span

module _ {F : Type 0} ⦃num : Num F⦄ where
  -- `ready`
  abbrev pub is_ready : ℕ → F → F → Bool
  is_ready i rsi rv = leb warmup i && is_finite rsi && is_finite rv

  -- the body of the last loop
  abbrev pub vector_at : ℕ → Candle F → F → F → F → F → F → F → FeatureVector F
  vector_at i candle r ema signal rsi rv dd =
      let ready = is_ready i rsi rv in
      let disp = if ema ==F int 0 then int 0 else (candle.close -F ema) /F ema in
      let disp_z = if int 0 <F rv then disp /F rv else int 0 in
      let z = if int 0 <F rv then r /F rv else int 0 in
      record {
        bar_index = i;
        timestamp = candle.t;
        close = candle.close;
        volume = candle.volume;
        log_return = r;
        normalized_return = if ready then z else num.nan;
        ema_return_signal = signal;
        ema_price = ema;
        displacement_from_ema = disp;
        displacement_z = if ready then disp_z else num.nan;
        rsi14 = rsi;
        realized_vol = rv;
        drawdown = dd;
        warmup_complete = ready;
      }

  -- the last loop, from index `i`: the series have the candles' length
  unfoldable pub vectors :
      ℕ
      → List (Candle F)
      → List F
      → List F
      → List F
      → List F
      → List F
      → List F
      → List (FeatureVector F)
  vectors i (candle ∷ cs) (r ∷ rs) (ema ∷ es) (signal ∷ ss) (rsi ∷ xs) (rv ∷ vs) (dd ∷ ds) =
      vector_at i candle r ema signal rsi rv dd ∷ vectors (i + 1) cs rs es ss xs vs ds
  vectors _ _ _ _ _ _ _ _ = []

  abbrev pub ema_eta : F
  ema_eta = decimal 5 2

  abbrev pub price_lambda : F
  price_lambda = int 2 /F int (price_ema_span + 1)

  -- `computeFeatures`; `none` is an error thrown by a series.
  unfoldable pub compute_features : List (Candle F) → Option (List (FeatureVector F))
  unfolding vectors
  compute_features [] = some []
  compute_features (first ∷ rest) =
      let candles = first ∷ rest in
      let closes = map (λ c. c.close) candles in
      let returns = int 0 ∷ returns_from first.close (map (λ c. c.close) rest) in
      elim (recursive_ema price_lambda closes) [
        | none ↦ none
        | some ema ↦ elim (grebenkov_return_signal ema_eta returns) [
          | none ↦ none
          | some signal ↦ some (
              vectors 0 candles returns ema signal (rsi_from rsi_period [] closes)
                (rolling_std vol_window [] returns) (running_drawdown closes))
        ]
      ]
