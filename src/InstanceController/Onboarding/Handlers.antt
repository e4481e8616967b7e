-- ===== src/InstanceController/Onboarding/Handlers.antt =====
-- pkg/controllers/instance/instance.go: what each handler does for an instance that services let through.
use harvester_equinix_addon.Prelude.{String, ◌≡◌, refl, none, List, [], ◌∷◌, ◌++◌}
use harvester_equinix_addon.Prelude.Text.{get}
use harvester_equinix_addon.Api.{Instance, InstanceStatus}
use harvester_equinix_addon.Services.{
  Services, ok, Call, State, returned, perform_all, bind-Performs, invoke_then-Performs,
  leave_on-Performs, invoke-Performs, run-Performs, body-Performs,
}
use harvester_equinix_addon.InstanceController.Lifecycle.{
  finalizer, annotated_client, set_finalizers, set_status, submit_request, check_status, reinstall,
  manage_nodes,
}
use harvester_equinix_addon.InstanceController.Onboarding.{LetsThrough}
use harvester_equinix_addon.InstanceController.Onboarding.Reinstalled.{
  client, Of, create_call, create_new_device-Performs, get_call, ready,
  check_device_status-Performs, reinstall_calls, reinstall_device-Performs,
}

module _ {W : Type 0} (env : Services W) (i : Instance) (h : LetsThrough env i) where
  same_client : (j : Instance) → Of env i h j → annotated_client j ≡ client env i h
  unfolding annotated_client get
  same_client j (a, b, c) = rw b refl

  abbrev with_device : Instance
  with_device =
      set_status (record (i.status) { instance_id = h.device.id; status = h.device.state }) i

  -- The instance after the first change.
  abbrev pub accepted : Instance
  accepted = set_finalizers (finalizer ∷ []) with_device

  abbrev pub submit_calls : List Call
  submit_calls =
      create_call env i h
      ∷ Call.instance_update_status with_device
      ∷ Call.instance_update accepted
      ∷ []

  pub submit_request-Performs :
      (s : State W)
      → submit_request env i s ≡ (returned (accepted, none), perform_all env submit_calls s)
  unfolding submit_request
  submit_request-Performs = body-Performs env (
      bind-Performs env _ {cs = create_call env i h ∷ []}
        (run-Performs env _ (create_new_device-Performs env i h))
        (bind-Performs env _ {cs = []} (leave_on-Performs env none _ refl) (
          invoke_then-Performs env (Call.instance_update_status with_device) _
            {cs = Call.instance_update accepted ∷ []}
            λ w. rw (h.writes_status with_device w) (
              bind-Performs env _ {cs = []} (leave_on-Performs env none _ refl)
                (invoke-Performs env (Call.instance_update accepted) (h.writes accepted))))))

  -- The last call of a handler that writes a status.
  abbrev pub written : InstanceStatus → Instance → Call
  written st j = Call.instance_update_status (set_status st j)

  pub check_status-Performs :
      (key : String) (j : Instance)
      → Of env i h j
      → (s : State W)
      → check_status env key j s ≡ (
        returned (set_status (ready env i h j.status) j, none),
        perform_all env (get_call env i h ∷ written (ready env i h j.status) j ∷ []) s,
      )
  unfolding check_status
  check_status-Performs key j (a, b, c) = rw (same_client j (a, b, c)) (
      body-Performs env (
        bind-Performs env _ {cs = get_call env i h ∷ []}
          (run-Performs env _ (check_device_status-Performs env i h j c))
          (bind-Performs env _ {cs = []} (leave_on-Performs env none _ refl)
            (invoke-Performs env (written (ready env i h j.status) j) (h.writes_status _)))))

  abbrev pub reinstalling : InstanceStatus → InstanceStatus
  reinstalling st = record st { status = "reinstalling" }

  pub reinstall-Performs :
      (key : String) (j : Instance)
      → Of env i h j
      → (s : State W)
      → reinstall env key j s ≡ (
        returned (set_status (reinstalling j.status) j, none),
        perform_all env
            (get_call env i h ∷ (reinstall_calls env i h ++ written (reinstalling j.status) j ∷ []))
            s,
      )
  unfolding reinstall
  reinstall-Performs key j (a, b, c) = rw (same_client j (a, b, c)) (
      body-Performs env (
        bind-Performs env _ {cs = get_call env i h ∷ []}
          (run-Performs env _ (check_device_status-Performs env i h j c))
          (bind-Performs env _ {cs = []} (leave_on-Performs env none _ refl) (
            bind-Performs env _ {cs = reinstall_calls env i h}
              (run-Performs env _ (reinstall_device-Performs env i h j (a, b, c)))
              (bind-Performs env _ {cs = []} (leave_on-Performs env none _ refl)
                (invoke-Performs env (written (reinstalling j.status) j) (h.writes_status _)))))))

  abbrev pub managed : InstanceStatus → InstanceStatus
  managed st = record st { status = "managed" }

  pub manage_nodes-Performs :
      (j : Instance)
      → ((w : W) → (env.perform (Call.node_get j.meta.name) w).0 ≡ ok h.node)
      → (s : State W)
      → manage_nodes env j s ≡ (
        returned (set_status (managed j.status) j, none),
        perform_all env (Call.node_get j.meta.name ∷ written (managed j.status) j ∷ []) s,
      )
  unfolding manage_nodes
  manage_nodes-Performs j found = body-Performs env (
      invoke_then-Performs env (Call.node_get j.meta.name) _
        {cs = written (managed j.status) j ∷ []}
        λ w. rw (found w) (invoke-Performs env (written (managed j.status) j) (h.writes_status _)))
