-- ===== src/Asset/Identity.antt =====
-- src/lib/lightlight/runtime-identity.ts: the durable identity of a worker and its capability.
use Prim.Native.String.{◌++◌}
use thelight.Common.{String, str_eq, Bool, true, false, ◌&&◌, Option, none, some, if◌then◌else◌}
use thelight.Asset.{
  AssetSpec, AssetClass, us_equity, crypto, MarketDataKind, alpaca_iex, alpaca_crypto,
  MarketSession, us_regular, always_open, QuantityMode, whole, fractional, DirectionMode,
  long_short, long_only, spy_spec,
}

pub data PaperWorkerArm : Type 0 where
  ema_trend_arm_c ema_rsi_v1 : PaperWorkerArm

pub data WorkerRuntimeCapability : Type 0 where
  read_only_durable dispatch_capable : WorkerRuntimeCapability

pub record WorkerRuntimeIdentity : Type 0 where
  pub asset : AssetSpec
  pub decision_timeframe : String
  pub worker_version : String
  pub worker_key : String
  pub capability : WorkerRuntimeCapability

same_class : AssetClass → AssetClass → Bool
same_class us_equity us_equity = true
same_class crypto crypto = true
same_class _ _ = false

same_kind : MarketDataKind → MarketDataKind → Bool
same_kind alpaca_iex alpaca_iex = true
same_kind alpaca_crypto alpaca_crypto = true
same_kind _ _ = false

same_session : MarketSession → MarketSession → Bool
same_session us_regular us_regular = true
same_session always_open always_open = true
same_session _ _ = false

same_quantity : QuantityMode → QuantityMode → Bool
same_quantity whole whole = true
same_quantity fractional fractional = true
same_quantity _ _ = false

same_direction : DirectionMode → DirectionMode → Bool
same_direction long_short long_short = true
same_direction long_only long_only = true
same_direction _ _ = false

-- `sameAsset`
unfoldable pub same_asset : AssetSpec → AssetSpec → Bool
unfolding same_class same_kind same_session same_quantity same_direction
same_asset left right =
    str_eq left.symbol right.symbol
    && same_class left.asset_class right.asset_class
    && same_kind left.market_data_kind right.market_data_kind
    && same_session left.session right.session
    && same_quantity left.quantity_mode right.quantity_mode
    && same_direction left.direction_mode right.direction_mode

-- `runtimeCapabilityForAsset`; the source ignores the arm.
unfoldable pub runtime_capability_for_asset : AssetSpec → PaperWorkerArm → WorkerRuntimeCapability
unfolding same_asset
runtime_capability_for_asset asset arm =
    if same_asset asset spy_spec then dispatch_capable else read_only_durable

abbrev is_ema_rsi : PaperWorkerArm → Bool
is_ema_rsi ema_rsi_v1 = true
is_ema_rsi ema_trend_arm_c = false

-- `workerRuntimeIdentityFor`
unfoldable pub worker_runtime_identity_for : AssetSpec → PaperWorkerArm → WorkerRuntimeIdentity
unfolding runtime_capability_for_asset
worker_runtime_identity_for asset arm =
    let timeframe = if is_ema_rsi arm then "1Min" else "15Min" in
    let version =
      if is_ema_rsi arm then "ema-rsi-v1-paper-worker-v1" else "alpaca-paper-worker-v1" in
    record {
      asset = asset;
      decision_timeframe = timeframe;
      worker_version = version;
      worker_key = "alpaca-paper:" ++ asset.symbol ++ ":" ++ timeframe ++ ":" ++ version;
      capability = runtime_capability_for_asset asset arm;
    }

-- `assertDispatchCapable` and `assertReadOnlyDurable`: `none` is the thrown error.
unfoldable pub assert_dispatch_capable : WorkerRuntimeIdentity → Option (Unit {0})
assert_dispatch_capable identity = elim identity.capability [
  | dispatch_capable ↦ some tt
  | read_only_durable ↦ none
]

unfoldable pub assert_read_only_durable : WorkerRuntimeIdentity → Option (Unit {0})
assert_read_only_durable identity = elim identity.capability [
  | read_only_durable ↦ some tt
  | dispatch_capable ↦ none
]
