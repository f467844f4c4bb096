-- ===== src/Classifier/Mock.antt =====
-- `mockClassify` of src/lib/lightlight/jev.ts. `fixed x n` is `Number(x.toFixed(n))`, `rounded` the text
-- of `Math.round` and `show` the text of a number, which belong to the JavaScript engine.
use thelight.Common.{◌%◌, ℕ, ◌+◌, String, ◌<>◌, Bool, not, [], ◌∷◌, map, if◌then◌else◌, str_eq}
use thelight.Common.Int.{negsuc}
use thelight.Number.{
  Num, ◌+F◌, ◌-F◌, ◌*F◌, ◌/F◌, ◌<F◌, int, of_int, decimal, neg, abs, max_num, min_num, is_finite,
}
use thelight.Types.{FeatureVector, Probabilities, JevResponse}
use thelight.Policy.Signals.{rsi_oversold, rsi_overbought}

abbrev pub jev_model_mock : String
jev_model_mock = "mock-jev-not-typesafe"

module _ {F : Type 0} ⦃num : Num F⦄ where
  -- `Math.max` and a sum over the entries of an object. Where an entry is NaN so is the sum, and every
  -- quotient by it.
  abbrev largest : F → Probabilities F → F
  largest x [] = x
  largest x ((key, y) ∷ rest) = largest (max_num x y) rest

  abbrev total_of : F → Probabilities F → F
  total_of z [] = z
  total_of z ((key, e) ∷ rest) = total_of (z +F e) rest

  -- -Infinity
  abbrev minus_infinity : F
  minus_infinity = of_int (negsuc 0) /F int 0

  unfoldable pub softmax : Probabilities F → Probabilities F
  softmax logits =
      let top = largest minus_infinity logits in
      let exps : Probabilities F = map (λ (key, x). (key, num.exp (x -F top))) logits in
      let z = total_of (int 0) exps in map (λ (key, e). (key, e /F z)) exps

  unfoldable pub sigmoid : F → F
  sigmoid x =
      if int 20 <F x
      then int 1
      else if x <F neg (int 20)
      then int 0
      else int 1 /F (int 1 +F num.exp (neg x))

  abbrev argmax_from : String → F → Probabilities F → String × F
  argmax_from best v [] = (best, v)
  argmax_from best v ((key, p) ∷ rest) =
      if v <F p then argmax_from key p rest else argmax_from best v rest

  -- The key of the largest entry, which is "" where no entry is a number. A lookup of "" is NaN in the
  -- arithmetic that follows.
  unfoldable pub argmax : Probabilities F → String
  argmax probs = (argmax_from "" minus_infinity probs).0

  abbrev entry : String → Probabilities F → F
  entry key [] = num.nan
  entry key ((other, p) ∷ rest) = if str_eq key other then p else entry key rest

  -- `Math.sign`
  abbrev sign : F → F
  sign x = if int 0 <F x then int 1 else if x <F int 0 then of_int (negsuc 0) else x

  -- The index in `QUALITY`, or -1
  unfoldable pub quality_index : String → F
  quality_index level =
      if str_eq level "hostile"
      then int 0
      else if str_eq level "weak"
      then int 1
      else if str_eq level "usable"
      then int 2
      else if str_eq level "strong"
      then int 3
      else of_int (negsuc 0)

  -- How sure a choice among four is. The number that may be NaN comes first in a minimum or maximum.
  abbrev confidence_of : F → F
  confidence_of x = min_num (max_num x (decimal 5 2)) (decimal 99 2)

  unfoldable pub regime_logits : F → F → F → Probabilities F
  regime_logits s_z z rsi =
      ("trend_up", decimal 11 1 *F s_z +F decimal 25 2 *F z)
      ∷ ("trend_down", neg (decimal 11 1) *F s_z -F decimal 25 2 *F z)
      ∷ (
        "mean_reverting",
        decimal 45 2 *F abs z +F decimal 3 2 *F abs (rsi -F int 50) -F decimal 9 1 *F abs s_z,
      )
      ∷ ("ambiguous", decimal 7 1 -F decimal 55 2 *F abs s_z -F decimal 2 1 *F abs z)
      ∷ []

  unfoldable pub long_noul : F → F → F → F
  unfolding sigmoid
  long_noul s_z z rsi =
      let trend = decimal 115 2 *F s_z -F decimal 25 2 *F max_num (int 0) (neg z) in
      let reversion =
        decimal 14 2 *F (rsi_oversold -F rsi) +F decimal 35 2 *F max_num (int 0) (neg z) in
      sigmoid (max_num trend reversion)

  unfoldable pub short_noul : F → F → F → F
  unfolding sigmoid
  short_noul s_z z rsi =
      let trend = neg (decimal 115 2) *F s_z -F decimal 25 2 *F max_num (int 0) z in
      let reversion =
        decimal 14 2 *F (rsi -F rsi_overbought) +F decimal 35 2 *F max_num (int 0) z in
      sigmoid (max_num trend reversion)

  unfoldable pub reversion_noul : F → F → F → F
  unfolding sigmoid
  reversion_noul s_z z rsi = sigmoid (
      decimal 55 2 *F abs z
      +F decimal 4 2 *F abs (rsi -F int 50)
      -F decimal 7 1 *F abs s_z
      -F decimal 15 2)

  unfoldable pub trend_noul : F → F → F
  unfolding sigmoid
  trend_noul s_z z =
      sigmoid (decimal 95 2 *F abs s_z +F decimal 2 1 *F sign s_z *F z -F decimal 15 2)

  unfoldable pub quality_logits : F → F → F → Bool → Probabilities F
  quality_logits s rv dd warm =
      let q =
        if not warm
        then neg (int 2)
        else decimal 12 1 -F int 40 *F max_num (int 0) (rv -F decimal 2 2) -F int 4 *F dd in
      (
        "hostile",
        neg q
            +F decimal 14 1 *F max_num (int 0) (rv -F decimal 3 2) *F int 40
            +F int 3 *F max_num (int 0) (dd -F decimal 1 1),
      )
      ∷ ("weak", decimal 6 1 -F decimal 4 1 *F q)
      ∷ ("usable", q)
      ∷ ("strong", q -F decimal 8 1 +F (if decimal 2 1 <F abs s then decimal 4 1 else int 0))
      ∷ []

  unfoldable pub mock_classify :
      (F → ℕ → F) → (F → String) → (ℕ → String) → FeatureVector F → JevResponse F
  unfolding regime_logits softmax argmax long_noul short_noul reversion_noul trend_noul
      quality_logits quality_index
  mock_classify fixed rounded show f =
      let s = f.ema_return_signal in
      let z = if is_finite f.displacement_z then f.displacement_z else int 0 in
      let rsi = if is_finite f.rsi14 then f.rsi14 else int 50 in
      let rv = if is_finite f.realized_vol then f.realized_vol else int 0 in
      let s_z = if int 0 <F rv then s /F rv else s *F int 80 in
      let regime_p = softmax (regime_logits s_z z rsi) in
      let regime = argmax regime_p in
      let quarter = int 1 /F int 4 in
      let quality_p = softmax (quality_logits s rv f.drawdown f.warmup_complete) in
      let level = argmax quality_p in
      record {
        model = jev_model_mock;
        request_id = "mock-" <> show f.bar_index <> "-" <> rounded (f.close *F int 10000);
        latency_ms = 4 + f.bar_index % 9;
        answers = record {
          regime = record {
            choice = regime;
            probabilities = regime_p;
            confidence =
                fixed (confidence_of ((entry regime regime_p -F quarter) /F (int 1 -F quarter))) 4;
          };
          long_setup = record { noul = fixed (long_noul s_z z rsi) 4 };
          short_setup = record { noul = fixed (short_noul s_z z rsi) 4 };
          mean_reversion = record { noul = fixed (reversion_noul s_z z rsi) 4 };
          trend = record { noul = fixed (trend_noul s_z z) 4 };
          market_quality = record {
            score = quality_index level;
            probabilities = quality_p;
            confidence =
                fixed (confidence_of ((entry level quality_p -F decimal 25 2) /F decimal 75 2)) 4;
            level = level;
          };
        };
      }
