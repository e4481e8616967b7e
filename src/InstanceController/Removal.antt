-- ===== src/InstanceController/Removal.antt =====
-- pkg/controllers/instance/instance.go, `OnInstanceRemove` and `findAndDeleteNode`.
pub mod Finalizer
pub mod Calls
use harvester_equinix_addon.Prelude.{Option, none, some, if◌then◌else◌}
use harvester_equinix_addon.Prelude.Text.{get}
use harvester_equinix_addon.Api.{Instance}
use harvester_equinix_addon.Services.{
  Services, Error, MetalClient, ok, err, Call, Code, Func, ◌>>=◌, ◌>>◌, pure, body, run, invoke,
  leave_on,
}
use harvester_equinix_addon.Util.{contains_finalizer, remove_finalizer}
use harvester_equinix_addon.Metal.Devices.{new_client, delete_device}
use harvester_equinix_addon.InstanceController.Lifecycle.{finalizer, set_finalizers}

-- `NewClient(i.ObjectMeta.Annotations["token"], i.Spec.ProjectID)`
unfoldable pub removal_client : Instance → MetalClient
unfolding new_client get
removal_client i = new_client (get "token" i.meta.annotations) i.spec.project_id

module _ {W : Type 0} (env : Services W) where
  unfoldable pub find_and_delete_node : Instance → Func W (Option Error)
  find_and_delete_node i = body do
    reply ← invoke env (Call.node_get i.meta.name)
    elim reply [
      | err e ↦ pure (if env.is_not_found e then none else some e)
      | ok node ↦ invoke env (Call.node_delete i.meta.name)
    ]

  -- The block under `if util.ContainsFinalizer(…)`.
  unfoldable pub clean_up : Instance → Code W (Option Instance × Option Error) (Unit {0})
  clean_up i = do
    leave_on (← run (delete_device env (removal_client i) i)) (λ e. (some i, some e))
    leave_on (← run (find_and_delete_node i)) (λ e. (some i, some e))

  -- The end of the function: the object that it returns is `i`, with the new finalizers.
  unfoldable pub drop_finalizer :
      Instance → Code W (Option Instance × Option Error) (Option Instance × Option Error)
  drop_finalizer i =
      let (kept, modified) = remove_finalizer i.meta.finalizers finalizer in
      let j = set_finalizers kept i in
      if modified
      then (do (_, e) ← invoke env (Call.instance_update j); pure (some j, e))
      else pure (some i, none)

  unfoldable pub on_instance_remove : Option Instance → Func W (Option Instance × Option Error)
  unfolding clean_up drop_finalizer
  on_instance_remove none = body (pure (none, none))
  on_instance_remove (some i) = body (elim i.meta.deletion_timestamp [
    | none ↦ pure (some i, none)
    | some t ↦ do
      if contains_finalizer i.meta.finalizers finalizer then clean_up i else pure tt
      drop_finalizer i
  ])
