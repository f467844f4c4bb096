-- ===== src/Asset.antt =====
-- src/lib/lightlight/assets.ts: the capabilities of an asset, the bounded equity universe, the
-- session test and the mapping of unsupported shorts.
pub mod Identity
pub mod Authority
use thelight.Common.{
  ℕ, ◌+◌, ◌*◌, String, str_eq, Bool, true, false, ◌&&◌, ◌||◌, Option, none, some, List, [], ◌∷◌,
  map, leb, ltb, if◌then◌else◌, find, any,
}
use thelight.Types.{Action, long, short, flat}

pub data AssetClass : Type 0 where
  us_equity crypto : AssetClass

pub data MarketDataKind : Type 0 where
  alpaca_iex alpaca_crypto : MarketDataKind

pub data MarketSession : Type 0 where
  us_regular always_open : MarketSession

pub data QuantityMode : Type 0 where
  whole fractional : QuantityMode

pub data DirectionMode : Type 0 where
  long_short long_only : DirectionMode

pub record AssetSpec : Type 0 where
  pub symbol : String
  pub asset_class : AssetClass
  pub market_data_kind : MarketDataKind
  pub session : MarketSession
  pub quantity_mode : QuantityMode
  pub direction_mode : DirectionMode

-- `equitySpec`
abbrev pub equity_spec : String → AssetSpec
equity_spec s = record {
  symbol = s;
  asset_class = us_equity;
  market_data_kind = alpaca_iex;
  session = us_regular;
  quantity_mode = whole;
  direction_mode = long_only;
}

abbrev pub spy_spec : AssetSpec
spy_spec = equity_spec "SPY"

abbrev pub us_equity_universe : List String
us_equity_universe = "SPY" ∷ "QQQ" ∷ "IWM" ∷ "AAPL" ∷ "MSFT" ∷ []

abbrev pub bounded_us_equity_assets : List AssetSpec
bounded_us_equity_assets =
    spy_spec ∷ equity_spec "QQQ" ∷ equity_spec "IWM" ∷ equity_spec "AAPL" ∷ equity_spec "MSFT" ∷ []

abbrev pub btc_usd_spec : AssetSpec
btc_usd_spec = record {
  symbol = "BTC/USD";
  asset_class = crypto;
  market_data_kind = alpaca_crypto;
  session = always_open;
  quantity_mode = fractional;
  direction_mode = long_only;
}

-- `boundedEquityAsset`; `to_upper` is JavaScript's `toUpperCase`, and `none` is the thrown error.
unfoldable pub bounded_equity_asset : (String → String) → String → Option AssetSpec
bounded_equity_asset to_upper s =
    find (λ candidate. str_eq candidate.symbol (to_upper s)) bounded_us_equity_assets

unfoldable pub is_bounded_equity_symbol : String → Bool
is_bounded_equity_symbol s = any (λ u. str_eq u s) us_equity_universe

-- The New York wall clock of a timestamp: the short name of the weekday, the hour and the minute.
-- The time-zone database is the JavaScript engine's, so the clock is a parameter.
pub record WallClock : Type 0 where
  pub weekday : String
  pub hour : ℕ
  pub minute : ℕ

-- `isUsRegularSession`
unfoldable pub is_us_regular_session : (ℕ → WallClock) → ℕ → Bool
is_us_regular_session new_york timestamp =
    let parts = new_york timestamp in
    let minute_of_day = parts.hour * 60 + parts.minute in
    if str_eq parts.weekday "Sat" || str_eq parts.weekday "Sun"
    then false
    else leb (9 * 60 + 30) minute_of_day && ltb minute_of_day (16 * 60)

abbrev is_us_regular : MarketSession → Bool
is_us_regular us_regular = true
is_us_regular always_open = false

unfoldable pub is_market_session_open : (ℕ → WallClock) → AssetSpec → ℕ → Bool
is_market_session_open new_york asset timestamp =
    if is_us_regular asset.session then is_us_regular_session new_york timestamp else true

-- `applyDirectionalCapability`
unfoldable pub apply_directional_capability : DirectionMode → Action → Action
apply_directional_capability long_only short = flat
apply_directional_capability _ action = action

-- `alpacaEquityFeedFor`: `none` is the thrown error, `some "iex"` the feed.
unfoldable pub alpaca_equity_feed_for : MarketDataKind → Option String
alpaca_equity_feed_for alpaca_iex = some "iex"
alpaca_equity_feed_for alpaca_crypto = none
