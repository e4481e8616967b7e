-- ===== src/InstanceController/Lifecycle.antt =====
-- pkg/controllers/instance/instance.go, `OnInstanceChange` and the handler of each status.
pub mod Transitions
pub mod Inert
pub mod Creation
use harvester_equinix_addon.Prelude.{String, Option, none, some, List, [], ◌∷◌, if◌then◌else◌, ◌||◌}
use harvester_equinix_addon.Prelude.Int.{ℤ, pos}
use harvester_equinix_addon.Prelude.Text.{◌==◌, ◌!=◌, get}
use harvester_equinix_addon.Api.{Instance, InstanceStatus}
use harvester_equinix_addon.Services.{
  Services, Error, MetalClient, ok, err, Call, Func, ◌>>=◌, ◌>>◌, pure, body, run, invoke, leave_on,
}
use harvester_equinix_addon.Metal.Devices.{
  new_client, create_new_device, check_device_status, reinstall_device,
}

abbrev pub finalizer : String
finalizer = "equinix.instance.harvesterhci.io"

abbrev pub two_minutes : ℤ
two_minutes = pos 120000000000

-- `NewClient(i.ObjectMeta.Annotations["token"], i.ObjectMeta.Annotations["projectID"])`
unfoldable pub annotated_client : Instance → MetalClient
unfolding new_client get
annotated_client i =
    new_client (get "token" i.meta.annotations) (get "projectID" i.meta.annotations)

abbrev pub set_finalizers : List String → Instance → Instance
set_finalizers fs i = record i { meta = record (i.meta) { finalizers = fs } }

abbrev pub set_status : InstanceStatus → Instance → Instance
set_status status i = record i { status = status }

module _ {W : Type 0} (env : Services W) where
  unfoldable pub submit_request : Instance → Func W (Instance × Option Error)
  submit_request i = body do
    let m = annotated_client i
    (status, e) ← run (create_new_device env m i)
    leave_on e (λ e. (i, some e))
    (j, e') ← invoke env (Call.instance_update_status (set_status status i))
    leave_on e' (λ e. (j, some e))
    invoke env (Call.instance_update (set_finalizers (finalizer ∷ []) j))

  unfoldable pub check_status : String → Instance → Func W (Instance × Option Error)
  check_status key i = body do
    let m = annotated_client i
    (status, e) ← run (check_device_status env m i)
    leave_on e (λ e. (i, some e))
    if status.status != "ready"
        then (do invoke env (Call.instance_enqueue_after key two_minutes); pure (i, none))
        else invoke env (Call.instance_update_status (set_status status i))

  unfoldable pub reinstall : String → Instance → Func W (Instance × Option Error)
  reinstall key i = body do
    let m = annotated_client i
    (status, e) ← run (check_device_status env m i)
    leave_on e (λ e. (i, some e))
    if status.status != "ready"
        then (do invoke env (Call.instance_enqueue_after key two_minutes); pure (i, none))
        else (do
          (status', e') ← run (reinstall_device env m i)
          leave_on e' (λ e. (i, some e))
          invoke env (Call.instance_update_status (set_status status' i)))

  -- The reply to a `Get` that did not fail is an object, so the test `node != nil` always holds.
  unfoldable pub manage_nodes : Instance → Func W (Instance × Option Error)
  manage_nodes i = body do
    reply ← invoke env (Call.node_get i.meta.name)
    elim reply [
      | err e ↦ pure (i, if env.is_not_found e then none else some e)
      | ok node ↦
          invoke env
            (Call.instance_update_status (set_status (record (i.status) { status = "managed" }) i))
    ]

  -- The `switch` on the status.
  unfoldable pub dispatch : String → Instance → Func W (Instance × Option Error)
  dispatch key i =
      if i.status.status == ""
      then submit_request i
      else if i.status.status == "submitted" || i.status.status == "queued"
      then reinstall key i
      else if i.status.status == "reinstalling"
      then check_status key i
      else if i.status.status == "ready"
      then manage_nodes i
      else body (pure (i, none))

  -- `some` stands for a pointer that is not nil.
  unfoldable pub on_instance_change :
      String → Option Instance → Func W (Option Instance × Option Error)
  on_instance_change key none = body (pure (none, none))
  on_instance_change key (some i) = body (elim i.meta.deletion_timestamp [
    | some t ↦ pure (some i, none)
    | none ↦ do (j, e) ← run (dispatch key i); pure (some j, e)
  ])
