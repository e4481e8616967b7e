-- ===== src/Metal/Devices/Calls.antt =====
-- pkg/equinix/equinix.go: which calls the methods of `MetalClient` make, for any predicate that holds
-- of those calls.
use harvester_equinix_addon.Prelude.{String, true, none, some, List, [], ◌∷◌}
use harvester_equinix_addon.Api.{Instance, InstanceStatus}
use harvester_equinix_addon.Services.{
  Services, Device, DeviceUpdateRequest, DeviceReinstallFields, MetalClient, Call, Only, OnlyFunc,
  pure-Only, or_leave-Only, if-Only, leave_on-Only, bind-Only, invoke-Only, body-Only, run-Only,
}
use harvester_equinix_addon.Metal.Network.Calls.{Ports, update_network_config-Only}
use harvester_equinix_addon.Metal.CloudInit.{update_cloud_init}
use harvester_equinix_addon.Metal.Devices.{
  generate_device_creation_request, create_new_device, check_device_status, device_exists,
  delete_device, mac_addresses, reinstall_device,
}

module _ {W : Type 0} (env : Services W) (m : MetalClient) {P : Call → Type 0} where
  pub create_new_device-Only :
      (i : Instance)
      → P (Call.device_create m (generate_device_creation_request env m i))
      → OnlyFunc P (create_new_device env m i)
  unfolding create_new_device
  create_new_device-Only i h =
      body-Only
        (bind-Only (invoke-Only env _ h) λ r. bind-Only (or_leave-Only r _) (λ device. pure-Only _))

  pub check_device_status-Only :
      (i : Instance)
      → P (Call.device_get m i.status.instance_id)
      → OnlyFunc P (check_device_status env m i)
  unfolding check_device_status
  check_device_status-Only i h =
      body-Only
        (bind-Only (invoke-Only env _ h) λ r. bind-Only (or_leave-Only r _) (λ device. pure-Only _))

  mac_addresses-Only :
      (device : Device) (status : InstanceStatus) (names : List String)
      → Only P (mac_addresses env m device status names)
  unfolding mac_addresses
  mac_addresses-Only device status [] = pure-Only []
  mac_addresses-Only device status (name ∷ names) =
      bind-Only (or_leave-Only (env.get_port_by_name device name) _)
        λ port. bind-Only (mac_addresses-Only device status names) (λ macs. pure-Only _)

  pub delete_device-Only :
      (i : Instance)
      → P (Call.device_list m m.project_id)
      → P (Call.device_delete m i.status.instance_id true)
      → OnlyFunc P (delete_device env m i)
  unfolding delete_device device_exists
  delete_device-Only i h h' = body-Only (
      if-Only _ (pure-Only none) (
        bind-Only
          (run-Only (
            body-Only (
              bind-Only (invoke-Only env _ h)
                λ r. bind-Only (or_leave-Only r _) (λ ds. pure-Only _))))
          λ found. bind-Only (leave_on-Only found.1 some) λ _.
            if-Only found.0 (invoke-Only env (Call.device_delete m i.status.instance_id true) h')
              (pure-Only none)))

  pub reinstall_device-Only :
      (i : Instance)
      → Ports m P
      → P (Call.device_get m i.status.instance_id)
      → ((r : DeviceUpdateRequest) → P (Call.device_update m i.status.instance_id r))
      → ((r : DeviceReinstallFields) → P (Call.device_reinstall m i.status.instance_id r))
      → OnlyFunc P (reinstall_device env m i)
  unfolding reinstall_device
  reinstall_device-Only i ports got updated reinstalled = body-Only (
      bind-Only (invoke-Only env _ got) λ r. bind-Only (or_leave-Only r _) λ device.
        bind-Only (run-Only (update_network_config-Only env m ports device _)) λ e.
          bind-Only (leave_on-Only e _) λ _. bind-Only (mac_addresses-Only device _ _) λ macs.
            bind-Only (or_leave-Only (update_cloud_init env _ macs _) _) λ cloud_init.
              bind-Only (invoke-Only env _ (updated _)) λ e'. bind-Only (leave_on-Only e' _) λ _.
                bind-Only (invoke-Only env _ (reinstalled _))
                  λ e''. bind-Only (leave_on-Only e'' _) (λ _. pure-Only _))
