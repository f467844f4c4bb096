-- ===== src/Feature/EmaRsi.antt =====
-- The strategy `emaRsiV1Strategy` of src/lib/lightlight/ema-rsi-v1.ts, a target of 0 or 1.
use thelight.Common.{
  ℕ, ◌+◌, ◌≤◌, ◌≡◌, ◌⊎◌, inl, inr, String, true, ◌&&◌, Bool-cases, Option, none, some, List, [],
  ltb, last?, length, map, arith, if◌then◌else◌,
}
use thelight.Number.{Num, ◌/F◌, ◌<F◌, int}
use thelight.Types.{ClosedBar}
use thelight.Feature.Series.{recursive_ema, rsi_from}

pub data TargetPosition : Type 0 where
  target_flat target_long : TargetPosition

-- A decision without its features, which only repeat the three numbers.
pub record StrategyDecision : Type 0 where
  pub target_position : TargetPosition
  pub reason : String

abbrev pub decide : TargetPosition → String → StrategyDecision
decide target reason = record { target_position = target; reason = reason }

abbrev pub warmup_bars : ℕ
warmup_bars = 21

module _ {F : Type 0} ⦃num : Num F⦄ where
  -- the three tests on EMA9, EMA21 and RSI14
  unfoldable pub band : F → F → F → TargetPosition → StrategyDecision
  band ema9 ema21 rsi14 prior =
      if ema21 <F ema9 && int 50 <F rsi14
      then decide target_long "EMA9 > EMA21 and RSI14 > 50."
      else if ema9 <F ema21
      then decide target_flat "EMA9 < EMA21."
      else if rsi14 <F int 45
      then decide target_flat "RSI14 < 45."
      else decide prior "Neutral band: retaining prior target."

  -- `.at(-1)!` of a series
  abbrev pub newest_of : Option (List F) → F
  newest_of none = num.nan
  newest_of (some xs) = elim (last? xs) [ none ↦ num.nan | some x ↦ x ]

  abbrev pub ema_of : ℕ → List F → F
  ema_of span closes = newest_of (recursive_ema (int 2 /F int (span + 1)) closes)

  -- `evaluate`
  unfoldable pub evaluate : List (ClosedBar F) → TargetPosition → StrategyDecision
  unfolding band
  evaluate completed_bars prior =
      let closes = map (λ bar. bar.close) completed_bars in
      if ltb (length completed_bars) warmup_bars
      then decide prior "Warmup incomplete: requires 21 consecutive completed 1-minute bars."
      else band (ema_of 9 closes) (ema_of 21 closes) (newest_of (some (rsi_from 14 [] closes)))
          prior

  band-long :
      (ema9 ema21 rsi14 : F) (prior : TargetPosition)
      → (band ema9 ema21 rsi14 prior).target_position ≡ target_long
      → (prior ≡ target_long) ⊎ ((ema21 <F ema9 ≡ true) × (int 50 <F rsi14 ≡ true))
  unfolding band
  band-long ema9 ema21 rsi14 prior h = ground arith

  -- The strategy goes long only if it was long or if, with 21 bars at least, EMA9 is above EMA21 and
  -- RSI14 above 50.
  pub long_needs_signal :
      (completed_bars : List (ClosedBar F)) (prior : TargetPosition)
      → (evaluate completed_bars prior).target_position ≡ target_long
      → (prior ≡ target_long)
        ⊎ ((warmup_bars ≤ length completed_bars)
            × let closes = map (λ bar. bar.close) completed_bars in
              (ema_of 21 closes <F ema_of 9 closes ≡ true)
              × (int 50 <F newest_of (some (rsi_from 14 [] closes)) ≡ true))
  unfolding evaluate
  long_needs_signal completed_bars prior h =
      let closes = map (λ bar. bar.close) completed_bars in
      elim (Bool-cases (ltb (length completed_bars) warmup_bars)) [
        | inl cold ↦ inl (rw cold at h)
        | inr warm ↦
            elim (band-long (ema_of 9 closes) (ema_of 21 closes)
              (newest_of (some (rsi_from 14 [] closes))) prior (rw warm at h)) [
                | inl was ↦ inl was
                | inr signal ↦ inr (ground (arith, warm), signal)
              ]
      ]
