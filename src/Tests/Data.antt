-- ===== src/Tests/Data.antt =====
-- Features, the EMA-RSI strategy, historical bars and the broker's position at concrete inputs.
use thelight.Common.{
  ℕ, zero, suc, ◌+◌, ◌*◌, ◌+◌, ◌≡◌, refl, ◌↔◌, ◌⊎◌, ◌≤◌, true, some, List, [], ◌∷◌, map, length,
  or_else,
}
use thelight.Common.Int.{ℤ, pos}
use thelight.Number.{◌<F◌, int}
use thelight.Types.{Candle}
use thelight.Feature.Series.{recursive_ema, grebenkov_return_signal, rsi_from}
use thelight.Feature.Vector.{compute_features}
use thelight.Feature.Warmup.{compute_features-Describes, Describes}
use thelight.Feature.EmaRsi.{
  evaluate, target_long, warmup_bars, ema_of, newest_of, long_needs_signal,
}
use thelight.Market.History.{
  HistoricalInterval, passed, verify_exact_bars, verify_exact, Minutes, minute_ms,
}
use thelight.Broker.Reply.{reply}
use thelight.Broker.Reads.{
  PositionBody, position, body_of, reconciled, position-IsTrusted, IsTrusted,
}
use thelight.Tests.Numbers.{thousandths}
use thelight.Tests.Sample.{bar}

abbrev candles : List (Candle ℤ)
candles = bar ∷ record bar { t = 960000; close = pos 102000 } ∷ []

-- A candle for each of the minutes from `t` on
abbrev rising : ℕ → ℕ → List (Candle ℤ)
rising zero t = []
rising (suc n) t = record bar { t = t; close = pos (100000 + t) } ∷ rising n (t + 1)

compute_features-Describes_example :
    Describes 0 (rising 22 0) (or_else (compute_features (rising 22 0)) [])
unfolding compute_features recursive_ema grebenkov_return_signal
compute_features-Describes_example =
    compute_features-Describes (rising 22 0) (or_else (compute_features (rising 22 0)) []) refl

long_needs_signal_example :
    (target_long ≡ target_long)
    ⊎ ((warmup_bars ≤ length candles)
        × let closes = map (λ b. b.close) candles in
          (ema_of 21 closes <F ema_of 9 closes ≡ true)
          × (int 50 <F newest_of (some (rsi_from 14 [] closes)) ≡ true))
unfolding evaluate
long_needs_signal_example = long_needs_signal candles target_long refl

abbrev interval : HistoricalInterval
interval = record { symbol = "BTC/USD"; start_ms = 900000; end_ms = 960000 }

verify_exact_example :
    (verify_exact_bars candles interval ≡ passed)
    ↔ ((length candles * minute_ms + 900000 ≡ 960000 + minute_ms) × Minutes 900000 candles)
verify_exact_example = verify_exact candles interval

abbrev body : PositionBody ℤ
body = record { qty = pos 3000; symbol = "SPY" }

position-IsTrusted_example : IsTrusted "SPY" (reconciled "SPY" (pos 3000) 1000)
unfolding position body_of
position-IsTrusted_example =
    position-IsTrusted (λ s. s) "SPY" 1000 (reply 200 (some body))
      (reconciled "SPY" (pos 3000) 1000) refl refl
