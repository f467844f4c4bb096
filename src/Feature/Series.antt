-- ===== src/Feature/Series.antt =====
-- The series of features.ts, one function each.
use thelight.Common.{
  ℕ, zero, suc, ◌+◌, ◌-◌, Bool, ◌&&◌, ◌||◌, Option, none, some, List, [], ◌∷◌, ltb, length,
  if◌then◌else◌,
}
use thelight.Number.{Num, ◌+F◌, ◌-F◌, ◌*F◌, ◌/F◌, ◌<F◌, ◌≤F◌, ◌==F◌, int}

-- The newest elements of a history, whose newest comes first, in the order of time and before `out`
unfoldable pub window : {A : Type 0} → ℕ → List A → List A → List A
window zero seen out = out
window (suc n) [] out = out
window (suc n) (x ∷ seen) out = window n seen (x ∷ out)

module _ {F : Type 0} ⦃num : Num F⦄ where
  unfoldable pub log_return : F → F → F
  log_return prev_close close =
      if prev_close ≤F int 0 || close ≤F int 0 then int 0 else num.log (close /F prev_close)

  abbrev pub total : F → List F → F
  total s [] = s
  total s (x ∷ xs) = total (s +F x) xs

  abbrev pub count : List F → F
  count xs = int (length xs)

  unfoldable pub mean : List F → F
  mean [] = int 0
  mean (x ∷ xs) = total (int 0) (x ∷ xs) /F count (x ∷ xs)

  abbrev pub squares : F → F → List F → F
  squares m v [] = v
  squares m v (x ∷ xs) = squares m (v +F (x -F m) *F (x -F m)) xs

  unfoldable pub sample_std : List F → F
  unfolding mean
  sample_std xs =
      if ltb (length xs) 2
      then int 0
      else num.sqrt (squares (mean xs) (int 0) xs /F int (length xs - 1))

  -- `recursiveEma` after its first value
  unfoldable pub ema_from : F → F → List F → List F
  ema_from lambda prev [] = []
  ema_from lambda prev (x ∷ xs) =
      let next = (int 1 -F lambda) *F prev +F lambda *F x in next ∷ ema_from lambda next xs

  abbrev pub in_unit : F → Bool
  in_unit x = int 0 <F x && x ≤F int 1

  -- `recursiveEma`; `none` is the thrown error.
  unfoldable pub recursive_ema : F → List F → Option (List F)
  unfolding ema_from
  recursive_ema lambda [] = some []
  recursive_ema lambda (x ∷ xs) = if in_unit lambda then some (x ∷ ema_from lambda x xs) else none

  -- the loop of `grebenkovReturnSignal`, with `u` and the return before
  unfoldable pub signal_from : F → F → F → F → List F → List F
  signal_from gamma decay u before [] = []
  signal_from gamma decay u before (r ∷ rs) =
      let u' = before +F decay *F u in gamma *F u' ∷ signal_from gamma decay u' r rs

  unfoldable pub grebenkov_return_signal : F → List F → Option (List F)
  unfolding signal_from
  grebenkov_return_signal eta [] = if in_unit eta then some (int 0 ∷ []) else none
  grebenkov_return_signal eta (r ∷ rs) =
      if in_unit eta
      then some (int 0 ∷ signal_from (num.sqrt (eta *F (int 2 -F eta))) (int 1 -F eta) (int 0) r rs)
      else none

  -- the sums of gains and losses over consecutive closes
  unfoldable pub gains : F → F → F → List F → F × F
  gains gain loss prev [] = (gain, loss)
  gains gain loss prev (c ∷ cs) =
      let d = c -F prev in
      if int 0 <F d then gains (gain +F d) loss c cs else gains gain (loss -F d) c cs

  unfoldable pub rsi_value : ℕ → F × F → F
  rsi_value period (gain, loss) =
      let avg_gain = gain /F int period in
      let avg_loss = loss /F int period in
      if avg_loss ==F int 0 && avg_gain ==F int 0
      then int 50
      else if avg_loss ==F int 0
      then int 100
      else if avg_gain ==F int 0
      then int 0
      else int 100 -F int 100 /F (int 1 +F avg_gain /F avg_loss)

  abbrev pub rsi_of : ℕ → List F → F
  rsi_of period [] = num.nan
  rsi_of period (c ∷ cs) = rsi_value period (gains (int 0) (int 0) c cs)

  -- `rsiSma`; `seen` are the closes so far, the newest first
  unfoldable pub rsi_from : ℕ → List F → List F → List F
  unfolding window gains rsi_value
  rsi_from period seen [] = []
  rsi_from period seen (c ∷ cs) =
      (if ltb (length (c ∷ seen)) (period + 1)
        then num.nan
        else rsi_of period (window (period + 1) (c ∷ seen) []))
      ∷ rsi_from period (c ∷ seen) cs

  -- `rollingStd`
  unfoldable pub rolling_std : ℕ → List F → List F → List F
  unfolding window sample_std
  rolling_std width seen [] = []
  rolling_std width seen (x ∷ xs) =
      (if ltb (length (x ∷ seen)) width then num.nan else sample_std (window width (x ∷ seen) []))
      ∷ rolling_std width (x ∷ seen) xs

  -- the loop of `runningDrawdown`, with `peak`
  unfoldable pub drawdown_from : F → List F → List F
  drawdown_from peak [] = []
  drawdown_from peak (c ∷ cs) =
      let peak' = if peak <F c then c else peak in
      (if peak' ==F int 0 then int 0 else (peak' -F c) /F peak') ∷ drawdown_from peak' cs

  unfoldable pub running_drawdown : List F → List F
  unfolding drawdown_from
  running_drawdown [] = []
  running_drawdown (c ∷ cs) = drawdown_from c (c ∷ cs)

  -- `logReturns` of `computeFeatures`
  unfoldable pub returns_from : F → List F → List F
  unfolding log_return
  returns_from prev [] = []
  returns_from prev (c ∷ cs) = log_return prev c ∷ returns_from c cs
