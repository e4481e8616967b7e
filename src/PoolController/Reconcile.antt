-- ===== src/PoolController/Reconcile.antt =====
-- pkg/controllers/instancepool/instancepool.go, `reconcileInstances`.
pub mod Counts
use harvester_equinix_addon.Prelude.{
  ℕ, suc, String, Option, some, List, [], ◌∷◌, if◌then◌else◌, ◌&&◌, length,
}
use harvester_equinix_addon.Prelude.Int.{ℤ, pos, ◌-ℤ◌, ltb_ℤ, eqb_ℤ, wrap64}
use harvester_equinix_addon.Prelude.Text.{◌==◌, ◌<>◌}
use harvester_equinix_addon.Api.{Instance, InstancePool, InstancePoolStatus}
use harvester_equinix_addon.Services.{Services, Error, Call, Func, ◌>>=◌, body, invoke, or_leave}
use harvester_equinix_addon.PoolController.Prepare.{with_status}

-- The loop that counts the managed instances. A list in memory has fewer than 2^63 items, so the
-- counters are numbers that do not wrap.
unfoldable pub ready_count : List Instance → ℕ
ready_count [] = 0
ready_count (i ∷ is) =
    let rest = ready_count is in if i.status.status == "managed" then suc rest else rest

-- The status after the counting; the code sets `modified` on both branches.
unfoldable pub reconciled : ℤ → List Instance → InstancePoolStatus → InstancePoolStatus
reconciled count items st =
    let ready = pos (ready_count items) in
    let needed = wrap64 (count -ℤ pos (length items)) in
    if eqb_ℤ st.requested ready && eqb_ℤ st.requested count
    then record st { status = "ready"; needed = pos 0; ready = ready }
    else record st {
      requested = count;
      needed = needed;
      status =
          if ltb_ℤ needed (pos 0)
          then "cleanupNodes"
          else if ltb_ℤ (pos 0) needed
          then "tokenReady"
          else st.status;
      ready = ready;
    }

abbrev pub selector : InstancePool → String
selector ip = "instancePool=" <> ip.meta.name

module _ {W : Type 0} (env : Services W) where
  unfoldable pub reconcile_instances : InstancePool → Func W (InstancePool × Option Error)
  reconcile_instances ip = body do
    items ← or_leave (← invoke env (Call.instance_list (selector ip))) (λ e. (ip, some e))
    invoke env (Call.pool_update_status (with_status (reconciled ip.spec.count items ip.status) ip))
