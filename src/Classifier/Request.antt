-- ===== src/Classifier/Request.antt =====
-- The request that a classifier of src/lib/lightlight/jev.ts gets. `fixed x n` is
-- `Number(x.toFixed(n))`, which belongs to the JavaScript engine.
use thelight.Common.{ℕ, String, List, [], ◌∷◌, if◌then◌else◌}
use thelight.Number.{Num, int, is_finite}
use thelight.Types.{
  FeatureVector, JevQuestion, choice_question, noul_question, score_question, JevMarketState,
  JevRequest,
}

abbrev jev_questions : List (String × JevQuestion)
jev_questions =
    (
      "REGIME",
      choice_question
          "Classify the current market regime from the supplied quantitative state only. Do not recommend a trade. trend_up: persistent positive ema_return_signal with displacement_from_ema aligned positive. trend_down: persistent negative ema_return_signal with displacement aligned negative. mean_reverting: large |displacement_z| and RSI away from 50 that is more consistent with a snap-back than with continuation. ambiguous: mixed or insufficient evidence."
          ((
            "trend_up",
            "Directional upward environment: ema_return_signal > 0 and price not stretched against the signal.",
          )
            ∷ (
              "trend_down",
              "Directional downward environment: ema_return_signal < 0 and price not stretched against the signal.",
            )
            ∷ (
              "mean_reverting",
              "Mean-reversion environment: displacement from the local EMA is large relative to realized_vol.",
            )
            ∷ ("ambiguous", "No option is clearly supported by the supplied numbers.")
            ∷ []),
    )
    ∷ (
      "LONG_SETUP",
      noul_question
          "Does the supplied quantitative state support the predefined long setup? Predefined long setup: (directional) ema_return_signal is positive and displacement_from_ema is not deeply negative, OR (mean-reversion) rsi_14 is below 30 and displacement_from_ema is negative. Answer from the numbers only. Do not output a trade instruction.",
    )
    ∷ (
      "SHORT_SETUP",
      noul_question
          "Does the supplied quantitative state support the predefined short setup? Predefined short setup: (directional) ema_return_signal is negative and displacement_from_ema is not deeply positive, OR (mean-reversion) rsi_14 is above 70 and displacement_from_ema is positive. Answer from the numbers only. Do not output a trade instruction.",
    )
    ∷ (
      "MEAN_REVERSION",
      noul_question
          "Does the supplied state exhibit the predefined characteristics of a mean-reversion environment: elevated |displacement_z|, RSI away from 50, and a modest |ema_return_signal|? Do not output a trade instruction.",
    )
    ∷ (
      "TREND",
      noul_question
          "Does the supplied state exhibit the predefined characteristics of a directional trend environment: |ema_return_signal| large relative to typical scale, with displacement_from_ema aligned to the signal? Do not output a trade instruction.",
    )
    ∷ (
      "MARKET_QUALITY",
      score_question
          "Score the usability of this state for a predefined quantitative setup. hostile: extreme realized_vol or deep drawdown. weak: noisy, mixed features. usable: features defined, vol not extreme. strong: features aligned and vol moderate. This is not a forecast of P&L."
          ("hostile" ∷ "weak" ∷ "usable" ∷ "strong" ∷ []),
    )
    ∷ []

module _ {F : Type 0} ⦃num : Num F⦄ where
  -- `num(x) ?? 0`
  abbrev number_or_zero : (F → ℕ → F) → F → F
  number_or_zero fixed x = if is_finite x then fixed x 8 else int 0

  unfoldable pub features_to_jev_state : (F → ℕ → F) → FeatureVector F → JevMarketState F
  features_to_jev_state fixed f = record {
    symbol = "SYN.LL1";
    timeframe = "1D";
    close = fixed f.close 6;
    log_return = number_or_zero fixed f.log_return;
    normalized_return = number_or_zero fixed f.normalized_return;
    ema_return_signal = number_or_zero fixed f.ema_return_signal;
    ema_price = fixed f.ema_price 6;
    displacement_from_ema = number_or_zero fixed f.displacement_from_ema;
    displacement_z = number_or_zero fixed f.displacement_z;
    rsi_14 = if is_finite f.rsi14 then fixed f.rsi14 4 else int 50;
    realized_vol = if is_finite f.realized_vol then fixed f.realized_vol 8 else int 0;
    drawdown = fixed f.drawdown 6;
    volume = f.volume;
  }

  unfoldable pub build_jev_request : (F → ℕ → F) → FeatureVector F → String → JevRequest F
  unfolding features_to_jev_state
  build_jev_request fixed f model = record {
    model = model;
    state = features_to_jev_state fixed f;
    questions = jev_questions;
  }
