-- ===== src/PoolController/Dispatch/Inert.antt =====
-- pkg/controllers/instancepool/instancepool.go, `wrapper`: the pools that it leaves alone.
use harvester_equinix_addon.Prelude.{String, ◌≡◌, ◌≢◌, none, some, arith, ◌⊎◌, inl, inr}
use harvester_equinix_addon.Prelude.Text.{eq_iff}
use harvester_equinix_addon.Api.{InstancePool}
use harvester_equinix_addon.Services.{Services, State, returned, statements}
use harvester_equinix_addon.PoolController.Dispatch.{dispatch, wrapper}

-- The statuses that the controller acts on.
pub data Active : String → Type 0 where
  fresh : Active ""
  token_ready : Active "tokenReady"
  submitted : Active "submitted"
  ready : Active "ready"
  cleanup : Active "cleanupNodes"

module _ {W : Type 0} (env : Services W) (ip : InstancePool) (s : State W) where
  idle :
      (status : String)
      → (Active status → ⊥)
      → (status ≢ "")
        × (status ≢ "tokenReady")
        × (status ≢ "submitted")
        × (status ≢ "ready")
        × (status ≢ "cleanupNodes")
  idle status h = (
    λ e. h (rw e Active.fresh),
    λ e. h (rw e Active.token_ready),
    λ e. h (rw e Active.submitted),
    λ e. h (rw e Active.ready),
    λ e. h (rw e Active.cleanup),
  )

  dispatch_idle : (Active ip.status.status → ⊥) → dispatch env ip s ≡ (returned (ip, none), s)
  unfolding dispatch statements
  dispatch_idle h =
      let (a, b, c, d, e) = idle ip.status.status h in
      ground (
        arith,
        a,
        b,
        c,
        d,
        e,
        eq_iff ip.status.status "",
        eq_iff ip.status.status "tokenReady",
        eq_iff ip.status.status "submitted",
        eq_iff ip.status.status "ready",
        eq_iff ip.status.status "cleanupNodes",
      )

  -- A pool that is being deleted, or whose status the controller does not act on, comes back as it
  -- was, without an error, and nothing is called.
  pub wrapper_idle :
      (ip.meta.deletion_timestamp ≢ none) ⊎ (Active ip.status.status → ⊥)
      → wrapper env (some ip) s ≡ (returned (some ip, none), s)
  unfolding wrapper statements
  wrapper_idle (inl h) = ground (arith, h)
  wrapper_idle (inr h) = ground (arith, dispatch_idle h)
