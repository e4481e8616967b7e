-- ===== src/InstanceController/Removal/Finalizer.antt =====
-- pkg/controllers/instance/instance.go, `OnInstanceRemove`: the finalizer goes only after the clean-up.
use harvester_equinix_addon.Prelude.{String, ◌≡◌, ◌≢◌, true, false, none, some, ◌∷◌, arith}
use harvester_equinix_addon.Prelude.Int.{ℤ}
use harvester_equinix_addon.Api.{Instance}
use harvester_equinix_addon.Services.{Services, Error, Call, State, returned, statements}
use harvester_equinix_addon.Util.{contains_finalizer, remove_finalizer}
use harvester_equinix_addon.Util.Finalizers.{
  is_nonempty, Sole, remove-Sole, remove-contains, modified-kept,
}
use harvester_equinix_addon.Metal.Devices.{delete_device}
use harvester_equinix_addon.InstanceController.Lifecycle.{finalizer, set_finalizers}
use harvester_equinix_addon.InstanceController.Removal.{
  removal_client, find_and_delete_node, on_instance_remove,
}

module _ {W : Type 0} (env : Services W) (i : Instance) {time : ℤ}
    (deleted : i.meta.deletion_timestamp ≡ some time)
    (held : contains_finalizer i.meta.finalizers finalizer ≡ true) where
  -- If the device cannot be deleted, its error is returned, and neither the node nor the finalizers
  -- are touched; if then the node cannot be deleted, the finalizers are not touched.
  pub failed_cleanup :
      (s t : State W) (e : Error)
      → (delete_device env (removal_client i) i s ≡ (returned (some e), t)
          → on_instance_remove env (some i) s ≡ (returned (some i, some e), t))
        × ((u : State W)
            → delete_device env (removal_client i) i s ≡ (returned none, t)
            → find_and_delete_node env i t ≡ (returned (some e), u)
            → on_instance_remove env (some i) s ≡ (returned (some i, some e), u))
  unfolding on_instance_remove statements
  failed_cleanup s t e = (λ h. ground arith, λ u h k. ground arith)

  -- When both deletions have gone well, an object that has other finalizers as well is updated: the
  -- update has none of this controller's finalizer, keeps the others, and its error is returned.
  pub clean_up-updates :
      (s t u : State W)
      → delete_device env (removal_client i) i s ≡ (returned none, t)
      → find_and_delete_node env i t ≡ (returned none, u)
      → is_nonempty (remove_finalizer i.meta.finalizers finalizer).0 ≡ true
      → (j : Instance) × (contains_finalizer j.meta.finalizers finalizer ≡ false)
        × ((other : String)
            → other ≢ finalizer
            → contains_finalizer j.meta.finalizers other
              ≡ contains_finalizer i.meta.finalizers other)
        × ((on_instance_remove env (some i) s).1.calls ≡ Call.instance_update j ∷ u.calls)
        × ((on_instance_remove env (some i) s).0
            ≡ returned (some j, (env.perform (Call.instance_update j) u.world).0.1))
  unfolding on_instance_remove statements
  clean_up-updates s t u h k other_kept =
      let kept = remove-contains i.meta.finalizers finalizer in
      (
        set_finalizers (remove_finalizer i.meta.finalizers finalizer).0 i,
        (kept finalizer).0,
        λ other ne. (kept other).1 ne,
        ground (arith, modified-kept i.meta.finalizers finalizer),
        ground (arith, modified-kept i.meta.finalizers finalizer),
      )

  -- An object whose finalizers are all this controller's is never updated, so that it keeps them,
  -- although the device and the node are gone and no error is returned.
  pub lone_finalizer_stays :
      (s t u : State W)
      → delete_device env (removal_client i) i s ≡ (returned none, t)
      → find_and_delete_node env i t ≡ (returned none, u)
      → Sole finalizer i.meta.finalizers
      → on_instance_remove env (some i) s ≡ (returned (some i, none), u)
  unfolding on_instance_remove statements
  lone_finalizer_stays s t u h k sole = ground (arith, remove-Sole i.meta.finalizers finalizer sole)
