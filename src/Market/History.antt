-- ===== src/Market/History.antt =====
-- src/lib/lightlight/alpaca-crypto-historical.server.ts: the checks on historical bars, and
-- `closedBarFromAlpaca` of src/lib/lightlight/alpaca.server.ts.
use thelight.Common.{
  ℕ, ◌+◌, ◌-◌, ◌*◌, ◌%◌, ◌≡◌, refl, ap, ◌↔◌, String, str_eq, Bool, true, false, ◌||◌, not, Option,
  none, some, List, [], ◌∷◌, ltb, ◌==◌, ==_iff, length, arith, if◌then◌else◌,
}
use thelight.Number.{Num, ◌<F◌, ◌≤F◌, int, is_finite, max_num, min_num}
use thelight.Types.{ClosedBar}

pub record HistoricalInterval : Type 0 where
  pub symbol : String
  pub start_ms : ℕ
  pub end_ms : ℕ

pub data HistoricalFailure : Type 0 where
  authentication_failed timed_out http_failed protocol_failure incomplete_recovery conflicting :
      HistoricalFailure

-- A check either fails or returns.
pub data Checked : Type 0 where
  passed : Checked
  failed : HistoricalFailure → Checked

abbrev pub then_check : Bool → HistoricalFailure → Checked → Checked
then_check true failure rest = failed failure
then_check false failure rest = rest

abbrev pub minute_ms : ℕ
minute_ms = 60000

-- `BTC_RECOVERY_WINDOW_MS`
abbrev pub recovery_window_ms : ℕ
recovery_window_ms = 24 * 60 * 60000

-- `validateHistoricalInterval`, of integers
unfoldable pub validate_historical_interval : HistoricalInterval → ℕ → Checked
validate_historical_interval interval now =
    then_check
      (not (str_eq interval.symbol "BTC/USD")
        || not (interval.start_ms % minute_ms == 0)
        || not (interval.end_ms % minute_ms == 0)
        || ltb interval.end_ms interval.start_ms
        || ltb recovery_window_ms (interval.end_ms - interval.start_ms + minute_ms)
        || ltb now (interval.end_ms + minute_ms))
      protocol_failure passed

then_passed :
    (b : Bool) (e : HistoricalFailure) (rest : Checked)
    → then_check b e rest ≡ passed
    → (b ≡ false) × (rest ≡ passed)
then_passed true e rest h = cc
then_passed false e rest h = (refl, h)

passed_then :
    (b : Bool) (e : HistoricalFailure) (rest : Checked)
    → b ≡ false
    → rest ≡ passed
    → then_check b e rest ≡ passed
passed_then true e rest h k = cc
passed_then false e rest h k = k

not-false : (b : Bool) → not b ≡ false → b ≡ true
not-false b h = ground arith

-- A bar of the stream: `timestamp` is what `Date.parse` makes of its text, `none` if it is no date.
pub record StockBarMessage (F : Type 0) : Type 0 where
  pub kind : String
  pub timestamp : Option ℕ
  pub open_price : F
  pub high : F
  pub low : F
  pub close : F
  pub volume : F

-- `closedBarFromAlpaca`: a bar counts once its own minute has elapsed.
unfoldable pub closed_bar_from_alpaca : {F : Type 0} → StockBarMessage F → ℕ → Option (ClosedBar F)
closed_bar_from_alpaca message now = elim message.timestamp [
  | none ↦ none
  | some t ↦
      if not (str_eq message.kind "b") || ltb now (t + minute_ms)
      then none
      else some (record {
        t = t;
        open_price = message.open_price;
        high = message.high;
        low = message.low;
        close = message.close;
        volume = message.volume;
      })
]

module _ {F : Type 0} ⦃num : Num F⦄ where
  -- the test on the numbers of a bar
  unfoldable pub bad_bar : ClosedBar F → Bool
  bad_bar b =
      not (is_finite b.open_price)
      || not (is_finite b.high)
      || not (is_finite b.low)
      || not (is_finite b.close)
      || not (is_finite b.volume)
      || min_num (min_num b.open_price b.high) (min_num b.low b.close) ≤F int 0
      || b.volume <F int 0
      || b.high <F max_num b.open_price b.close
      || min_num b.open_price b.close <F b.low

  -- the loop of `verifyExactBars`, from the expected time `t`
  unfoldable pub verify_from : ℕ → List (ClosedBar F) → Checked
  unfolding bad_bar
  verify_from t [] = passed
  verify_from t (b ∷ bs) =
      let rest = verify_from (t + minute_ms) bs in
      then_check (not (b.t == t)) incomplete_recovery (then_check (bad_bar b) protocol_failure rest)

  -- `verifyExactBars`. The test on the number of bars, `length !== (end - start) / 60000 + 1` with
  -- fractions and negative numbers, is multiplied out here; below 2^53 the quotient of the source
  -- is a whole number only where this equation holds.
  unfoldable pub verify_exact_bars : List (ClosedBar F) → HistoricalInterval → Checked
  unfolding verify_from
  verify_exact_bars bars interval =
      then_check (not (length bars * minute_ms + interval.start_ms == interval.end_ms + minute_ms))
        incomplete_recovery (verify_from interval.start_ms bars)

  -- The numbers of a bar are finite, its prices are positive and its volume is not negative, and the
  -- opening and the closing price lie between the low and the high.
  abbrev pub IsSound : ClosedBar F → Type 0
  IsSound b =
      (is_finite b.open_price ≡ true)
      × (is_finite b.high ≡ true)
      × (is_finite b.low ≡ true)
      × (is_finite b.close ≡ true)
      × (is_finite b.volume ≡ true)
      × (min_num (min_num b.open_price b.high) (min_num b.low b.close) ≤F int 0 ≡ false)
      × (b.volume <F int 0 ≡ false)
      × (b.high <F max_num b.open_price b.close ≡ false)
      × (min_num b.open_price b.close <F b.low ≡ false)

  bad_bar-IsSound : (b : ClosedBar F) → bad_bar b ≡ false → IsSound b
  unfolding bad_bar
  bad_bar-IsSound b h = ground (arith, h)

  IsSound-bad_bar : (b : ClosedBar F) → IsSound b → bad_bar b ≡ false
  unfolding bad_bar
  IsSound-bad_bar b h = ground (arith, h)

  -- Bars one minute apart from `t`, with sound numbers
  abbrev pub Minutes : ℕ → List (ClosedBar F) → Type 0
  Minutes t [] = Unit
  Minutes t (b ∷ bs) = (b.t ≡ t) × IsSound b × Minutes (t + minute_ms) bs

  verify_from-Minutes :
      (t : ℕ) (bars : List (ClosedBar F)) → verify_from t bars ≡ passed → Minutes t bars
  unfolding verify_from
  verify_from-Minutes t [] h = tt
  verify_from-Minutes t (b ∷ bs) h =
      let (here, later) = then_passed _ _ _ h in
      let (sound, rest) = then_passed _ _ _ later in
      (
        (==_iff _ _).0 (not-false _ here),
        bad_bar-IsSound b sound,
        verify_from-Minutes (t + minute_ms) bs rest,
      )

  Minutes-verify_from :
      (t : ℕ) (bars : List (ClosedBar F)) → Minutes t bars → verify_from t bars ≡ passed
  unfolding verify_from
  Minutes-verify_from t [] h = refl
  Minutes-verify_from t (b ∷ bs) (here, sound, rest) =
      passed_then _ _ _ (ap not ((==_iff _ _).1 here))
        (passed_then _ _ _ (IsSound-bad_bar b sound) (Minutes-verify_from (t + minute_ms) bs rest))

  -- `verifyExactBars` passes exactly the complete, sound histories. The bars are one for each minute of
  -- the interval, both ends included, the first at its start and each a minute after the one before,
  -- so that the interval has whole minutes and does not end before its start minus a minute. The
  -- numbers of each bar are finite, the prices positive, the volume not negative, and the opening and
  -- the closing price lie between the low and the high.
  pub verify_exact :
      (bars : List (ClosedBar F)) (interval : HistoricalInterval)
      → (verify_exact_bars bars interval ≡ passed) ↔ (
          (length bars * minute_ms + interval.start_ms ≡ interval.end_ms + minute_ms)
          × Minutes interval.start_ms bars)
  unfolding verify_exact_bars
  verify_exact bars interval = (
    λ h.
        let (size, loop) = then_passed _ _ _ h in
        ((==_iff _ _).0 (not-false _ size), verify_from-Minutes interval.start_ms bars loop),
    λ (size, minutes).
        passed_then _ _ _ (ap not ((==_iff _ _).1 size))
          (Minutes-verify_from interval.start_ms bars minutes),
  )
