-- ===== src/Metal/Devices.antt =====
-- pkg/equinix/equinix.go, the methods of `MetalClient` that the instance controller calls.
pub mod Calls
pub mod Results
pub mod Deletion
use harvester_equinix_addon.Prelude.{
  String, Bool, true, false, Option, none, some, List, [], ◌∷◌, if◌then◌else◌,
}
use harvester_equinix_addon.Prelude.Text.{◌==◌, get}
use harvester_equinix_addon.Api.{Instance, InstanceStatus}
use harvester_equinix_addon.Services.{
  Services, Error, Device, DeviceCreateRequest, MetalClient, Call, Code, Func, ◌>>=◌, ◌>>◌, pure,
  body, run, invoke, or_leave, leave_on,
}
use harvester_equinix_addon.Metal.Network.{update_network_config}
use harvester_equinix_addon.Metal.CloudInit.{update_cloud_init}

unfoldable pub new_client : String → String → MetalClient
new_client token project_id = record { token = token; project_id = project_id }

-- The scan of `deviceExists`.
has_device : String → List Device → Bool
has_device id [] = false
has_device id (device ∷ devices) = if device.id == id then true else has_device id devices

module _ {W : Type 0} (env : Services W) (m : MetalClient) where
  unfoldable pub generate_device_creation_request : Instance → DeviceCreateRequest
  generate_device_creation_request i =
      let dsr : DeviceCreateRequest = record {
        hostname = i.meta.name;
        plan = spec.plan;
        facility = spec.facility;
        metro = spec.metro;
        project_id = spec.project_id;
        always_pxe = spec.always_pxe;
        tags = spec.tags;
        description = spec.description;
        public_ipv4_subnet_size = spec.public_ipv4_subnet_size;
        hardware_reservation_id = spec.hardware_reservation_id;
        spot_instance = spec.spot_instance;
        spot_price_max = env.as_approximate_float64 spec.spot_price_max;
        custom_data = spec.custom_data;
        user_ssh_keys = spec.user_ssh_keys;
        project_ssh_keys = spec.project_ssh_keys;
        features = spec.features;
        no_ssh_keys = spec.no_ssh_keys;
        os = spec.os;
        billing_cycle = spec.billing_cycle;
        ipxe_script_url = spec.ipxe_script_url;
      } in
      if dsr.project_id == "" then record dsr { project_id = m.project_id } else dsr
    where
      open i use {spec}

  unfoldable pub create_new_device : Instance → Func W (InstanceStatus × Option Error)
  create_new_device i = body do
    let status = i.status
    let dsr = generate_device_creation_request i
    device ←
        or_leave (← invoke env (Call.device_create m dsr))
          (λ e. (status, env.errors_wrap (some e) "error during device creation"))
    pure (record status { instance_id = device.id; status = device.state }, none)

  unfoldable pub check_device_status : Instance → Func W (InstanceStatus × Option Error)
  check_device_status i = body do
    let status = i.status
    device ←
        or_leave (← invoke env (Call.device_get m i.status.instance_id)) (λ e. (status, some e))
    let info = env.get_network_info device
    pure (
      if device.state == "active"
          then record status {
            status = "ready";
            private_ip = info.private_ipv4;
            public_ip = info.public_ipv4;
          }
          else record status { status = device.state },
      none,
    )

  device_exists : String → Func W (Bool × Option Error)
  unfolding has_device
  device_exists id = body do
    devices ← or_leave (← invoke env (Call.device_list m m.project_id)) (λ e. (false, some e))
    pure (has_device id devices, none)

  unfoldable pub delete_device : Instance → Func W (Option Error)
  unfolding device_exists
  delete_device i = body (
      if i.status.instance_id == "" then pure none else (do
        found ← run (device_exists i.status.instance_id)
        leave_on found.1 some
        if found.0 then invoke env (Call.device_delete m i.status.instance_id true) else pure none))

  -- The MAC addresses of the named ports, in order.
  unfoldable pub mac_addresses :
      Device → InstanceStatus → List String → Code W (InstanceStatus × Option Error) (List String)
  mac_addresses device status [] = pure []
  mac_addresses device status (name ∷ names) = do
    port ← or_leave (env.get_port_by_name device name) (λ e. (status, some e))
    macs ← mac_addresses device status names
    pure (port.mac ∷ macs)

  unfoldable pub reinstall_device : Instance → Func W (InstanceStatus × Option Error)
  unfolding update_network_config mac_addresses
  reinstall_device i = body do
    let status = i.status
    let id = i.status.instance_id
    device ← or_leave (← invoke env (Call.device_get m id)) (λ e. (status, some e))
    leave_on (← run (update_network_config env m device i.spec.networking_configuration))
        (λ e. (status, some e))
    macs ← mac_addresses device status i.spec.management_interfaces
    cloud_init ←
        or_leave (update_cloud_init env i.spec.user_data macs i.spec.management_bonding_options)
          (λ e. (status, some e))
    let ipxe_url = get "reconfig_ipxe_url" i.meta.annotations
    leave_on
        (← invoke env
          (Call.device_update m id (record { ipxe_script_url = ipxe_url; user_data = cloud_init })))
        (λ e. (status, some e))
    leave_on
        (← invoke env
          (Call.device_reinstall m id (record { preserve_data = true; deprovision_fast = true })))
        (λ e. (status, some e))
    pure (record status { status = "reinstalling" }, none)
