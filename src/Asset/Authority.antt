-- ===== src/Asset/Authority.antt =====
-- Who may reach the broker, and what a long-only asset may ask of it: laws of
-- src/lib/lightlight/assets.ts and runtime-identity.ts.
use thelight.Common.{eq_iff, ◌≡◌, refl, ◌≢◌, ◌↔◌, true, false, some, arith, Bool-cases, inl, inr}
use thelight.Asset.{AssetSpec, spy_spec}
use thelight.Asset.Identity.{
  PaperWorkerArm, same_asset, worker_runtime_identity_for, assert_dispatch_capable,
  assert_read_only_durable,
}

same_asset-eq : (a b : AssetSpec) → same_asset a b ≡ true → a ≡ b
unfolding same_asset
same_asset-eq a b h = ground (arith, eq_iff a.symbol b.symbol)

same_asset_refl : (a : AssetSpec) → same_asset a a ≡ true
unfolding same_asset
same_asset_refl a = ground (arith, eq_iff a.symbol a.symbol)

other : {a : AssetSpec} → same_asset a spy_spec ≡ false → a ≢ spy_spec
other e h = cc (rw h at e, same_asset_refl spy_spec)

-- A worker passes the check in front of the broker exactly when its asset is the whole SPY
-- contract, whatever its arm; every other asset passes the read-only check instead.
pub dispatch_only_spy :
    (asset : AssetSpec) (arm : PaperWorkerArm)
    → ((assert_dispatch_capable (worker_runtime_identity_for asset arm) ≡ some tt)
        ↔ (asset ≡ spy_spec))
      × ((assert_read_only_durable (worker_runtime_identity_for asset arm) ≡ some tt)
          ↔ (asset ≢ spy_spec))
unfolding assert_dispatch_capable assert_read_only_durable worker_runtime_identity_for
dispatch_only_spy asset arm = elim (Bool-cases (same_asset asset spy_spec)) [
  | inl e ↦ rw e (
    (λ _. same_asset-eq asset spy_spec e, λ _. refl),
    (λ h. cc, λ h. absurd (h (same_asset-eq asset spy_spec e))),
  )
  | inr e ↦ rw e ((λ h. cc, λ h. absurd (other e h)), (λ _. other e, λ _. refl))
]
