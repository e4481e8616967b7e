-- ===== src/PoolController/Dispatch.antt =====
-- pkg/controllers/instancepool/instancepool.go, `wrapper` and `ReconcileNodePool`.
pub mod Inert
pub mod Calls
pub mod Watch
use harvester_equinix_addon.Prelude.{
  String, Bool, Option, none, some, List, [], ◌∷◌, ◌||◌, if◌then◌else◌,
}
use harvester_equinix_addon.Prelude.Text.{◌==◌, get}
use harvester_equinix_addon.Api.{Instance, InstancePool}
use harvester_equinix_addon.Services.{Services, Error, Func, ◌>>=◌, pure, body, run}
use harvester_equinix_addon.PoolController.Prepare.{prepare_instance_pool}
use harvester_equinix_addon.PoolController.Submit.{submit_instances}
use harvester_equinix_addon.PoolController.Reconcile.{reconcile_instances}
use harvester_equinix_addon.PoolController.Remove.{remove_instances}

unfoldable pub is_deleted : Instance → Bool
is_deleted i = elim i.meta.deletion_timestamp [ none ↦ Bool.false | some t ↦ Bool.true ]

-- The object of the watch: an instance, or one of another type. The result is the list of the keys
-- of the pools to reconcile; the error is always nil.
unfoldable pub reconcile_node_pool : Option Instance → List String
unfolding is_deleted get
reconcile_node_pool none = []
reconcile_node_pool (some i) =
    if i.status.status == "managed" || is_deleted i
    then get "instancePool" i.meta.labels ∷ []
    else []

module _ {W : Type 0} (env : Services W) where
  -- The `switch` on the status.
  unfoldable pub dispatch : InstancePool → Func W (InstancePool × Option Error)
  dispatch ip =
      if ip.status.status == ""
      then prepare_instance_pool env ip
      else if ip.status.status == "tokenReady"
      then submit_instances env ip
      else if ip.status.status == "submitted" || ip.status.status == "ready"
      then reconcile_instances env ip
      else if ip.status.status == "cleanupNodes"
      then remove_instances env ip
      else body (pure (ip, none))

  unfoldable pub wrapper : Option InstancePool → Func W (Option InstancePool × Option Error)
  wrapper none = body (pure (none, none))
  wrapper (some ip) = body (elim ip.meta.deletion_timestamp [
    | some t ↦ pure (some ip, none)
    | none ↦ do (ip', e) ← run (dispatch ip); pure (some ip', e)
  ])
