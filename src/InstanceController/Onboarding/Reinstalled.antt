-- ===== src/InstanceController/Onboarding/Reinstalled.antt =====
-- pkg/equinix/equinix.go, the methods for a device of an instance that services let through.
use harvester_equinix_addon.Prelude.{
  All, String, ◌≡◌, refl, none, arith, true, List, [], ◌∷◌, map, ◌++◌,
}
use harvester_equinix_addon.Prelude.Text.{get}
use harvester_equinix_addon.Api.{Instance, InstanceStatus}
use harvester_equinix_addon.Services.{
  Services, MetalClient, ok, Call, State, returned, Performs, perform_all, pure-Performs,
  bind-Performs, invoke_then-Performs, leave_on-Performs, or_leave-Performs, run-Performs,
  body-Performs,
}
use harvester_equinix_addon.Metal.CloudInit.{update_cloud_init, cloud_config}
use harvester_equinix_addon.Metal.Devices.{
  generate_device_creation_request, create_new_device, check_device_status, mac_addresses,
  reinstall_device,
}
use harvester_equinix_addon.InstanceController.Lifecycle.{annotated_client}
use harvester_equinix_addon.InstanceController.Onboarding.{
  LetsThrough, update_network_config-Networked,
}

module _ {W : Type 0} (env : Services W) (i : Instance) (h : LetsThrough env i) where
  abbrev pub client : MetalClient
  client = annotated_client i

  -- An instance with the specification and the metadata that count here, and the device.
  abbrev pub Of : Instance → Type 0
  Of j =
      (j.spec ≡ i.spec)
      × (j.meta.annotations ≡ i.meta.annotations)
      × (j.status.instance_id ≡ h.device.id)

  abbrev pub create_call : Call
  create_call = Call.device_create client (generate_device_creation_request env client i)

  pub create_new_device-Performs :
      (s : State W)
      → create_new_device env client i s ≡ (
        returned (record (i.status) { instance_id = h.device.id; status = h.device.state }, none),
        perform_all env (create_call ∷ []) s,
      )
  unfolding create_new_device
  create_new_device-Performs = body-Performs env (
      invoke_then-Performs env create_call _
        λ w. bind-Performs env _ (or_leave-Performs env _ _ (h.creates _ w)) (pure-Performs env _))

  abbrev pub get_call : Call
  get_call = Call.device_get client h.device.id

  -- The status of an instance whose device is active.
  abbrev pub ready : InstanceStatus → InstanceStatus
  ready st =
      let info = env.get_network_info h.active in
      record st { status = "ready"; private_ip = info.private_ipv4; public_ip = info.public_ipv4 }

  pub check_device_status-Performs :
      (j : Instance)
      → j.status.instance_id ≡ h.device.id
      → (s : State W)
      → check_device_status env client j s
        ≡ (returned (ready j.status, none), perform_all env (get_call ∷ []) s)
  unfolding check_device_status
  check_device_status-Performs j e = rw e (
      body-Performs env (
        invoke_then-Performs env get_call _ λ w.
          bind-Performs env _ {cs = []} {ds = []} (or_leave-Performs env _ _ (h.gets w))
            (rw h.is_active (pure-Performs env _))))

  mac_addresses-Performs :
      (st : InstanceStatus) (names : List String)
      → All (λ name. env.get_port_by_name h.active name ≡ ok (h.port_named name)) names
      → Performs env []
          (map (λ name. (h.port_named name).mac) names)
          (mac_addresses env client h.active st names)
  unfolding mac_addresses
  mac_addresses-Performs st [] has = pure-Performs env []
  mac_addresses-Performs st (name ∷ names) has =
      bind-Performs env _ (or_leave-Performs env _ _ has.0)
        (bind-Performs env _ (mac_addresses-Performs st names has.1) (pure-Performs env _))

  abbrev pub macs : List String
  macs = map (λ name. (h.port_named name).mac) i.spec.management_interfaces

  cloud_init :
      update_cloud_init env i.spec.user_data macs i.spec.management_bonding_options
      ≡ ok (cloud_config h.print)
  unfolding update_cloud_init
  cloud_init = ground (arith, h.parses, h.prints)

  abbrev update_call : Call
  update_call = Call.device_update client h.device.id (record {
    ipxe_script_url = get "reconfig_ipxe_url" i.meta.annotations;
    user_data = cloud_config h.print;
  })

  abbrev again_call : Call
  again_call =
      Call.device_reinstall client h.device.id
        (record { preserve_data = true; deprovision_fast = true })

  -- The calls of a reinstallation: the device is read, its network updated, and then its cloud-init and
  -- its script, before it is reinstalled.
  abbrev pub reinstall_calls : List Call
  reinstall_calls = get_call ∷ (h.network_calls ++ (update_call ∷ again_call ∷ []))

  pub reinstall_device-Performs :
      (j : Instance)
      → Of j
      → (s : State W)
      → reinstall_device env client j s ≡ (
        returned (record (j.status) { status = "reinstalling" }, none),
        perform_all env reinstall_calls s,
      )
  unfolding reinstall_device
  reinstall_device-Performs j (a, b, c) =
      rw (a, b, c)
        (body-Performs env (
          invoke_then-Performs env get_call _
            {cs = h.network_calls ++ (update_call ∷ again_call ∷ [])}
            λ w. bind-Performs env _ {cs = []} (or_leave-Performs env _ _ (h.gets w)) (
              bind-Performs env _ {cs = h.network_calls}
                (run-Performs env _ (
                  update_network_config-Networked env client h.active h.port_named _ h.network_calls
                    h.ports h.has_interfaces h.networks))
                (bind-Performs env _ {cs = []} (leave_on-Performs env none _ refl) (
                  bind-Performs env _ {cs = []} (mac_addresses-Performs _ _ h.has_management) (
                    bind-Performs env _ {cs = []} (or_leave-Performs env _ _ cloud_init) (
                      invoke_then-Performs env update_call _ {cs = again_call ∷ []} λ w'.
                        bind-Performs env _ {cs = []} (leave_on-Performs env _ _ (h.updates _ _ w'))
                          (invoke_then-Performs env again_call _ {cs = []} λ w2.
                            bind-Performs env _ {cs = []}
                              (leave_on-Performs env _ _ (h.reinstalls _ _ w2))
                              (pure-Performs env _)))))))))
