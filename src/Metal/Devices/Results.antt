-- ===== src/Metal/Devices/Results.antt =====
-- pkg/equinix/equinix.go: the statuses that the methods of `MetalClient` return.
use harvester_equinix_addon.Prelude.{
  String, ◌≡◌, refl, Bool, true, false, Option, none, some, List, [], ◌∷◌, if◌then◌else◌, arith,
}
use harvester_equinix_addon.Prelude.Text.{◌==◌, get}
use harvester_equinix_addon.Api.{Instance, InstanceStatus}
use harvester_equinix_addon.Services.{
  Services, Error, Device, MetalClient, Call, Any, Any-YieldsFunc, Yields, YieldsFunc, pure-Yields,
  invoke_then-Yields, or_leave_then-Yields, leave_on_then-Yields, run_then-Yields, bind-Yields,
  body-Yields,
}
use harvester_equinix_addon.Metal.Network.{update_network_config}
use harvester_equinix_addon.Metal.Devices.{
  generate_device_creation_request, check_device_status, mac_addresses, reinstall_device,
}

absurd_some : {A : Type 0} {a : A} {P : Type 0} → some a ≡ none → P
absurd_some h = cc

if_same_id :
    (b : Bool) (x y : InstanceStatus) {id : String}
    → x.instance_id ≡ id
    → y.instance_id ≡ id
    → (if b then x else y).instance_id ≡ id
if_same_id true x y h k = h
if_same_id false x y h k = k

-- A status that is returned without an error.
abbrev pub Unless : (InstanceStatus → Type 0) → InstanceStatus × Option Error → Type 0
Unless P (status, e) = e ≡ none → P status

module _ {W : Type 0} (env : Services W) (m : MetalClient) (i : Instance) where
  -- A status that is returned without an error is of the same device.
  pub check_device_status-Yields :
      YieldsFunc
        (Unless (λ st. st.instance_id ≡ i.status.instance_id))
        (check_device_status env m i)
  unfolding check_device_status
  check_device_status-Yields = body-Yields (
      invoke_then-Yields env (Call.device_get m i.status.instance_id) λ r.
        or_leave_then-Yields _ _ (λ e h. absurd_some h)
          λ device. pure-Yields _ (λ _. if_same_id (device.state == "active") _ _ refl refl))

  mac_addresses-Yields :
      (Q : InstanceStatus → Type 0) (device : Device) (status : InstanceStatus)
      (names : List String)
      → Yields (Unless Q) Any (mac_addresses env m device status names)
  unfolding mac_addresses
  mac_addresses-Yields Q device status [] = pure-Yields [] tt
  mac_addresses-Yields Q device status (name ∷ names) =
      or_leave_then-Yields _ _ (λ e h. absurd_some h)
        λ port.
          bind-Yields Any (mac_addresses-Yields Q device status names) (λ macs _. pure-Yields _ tt)

  -- A status that is returned without an error is that of the instance, now "reinstalling".
  pub reinstall_device-Yields :
      YieldsFunc
        (Unless (λ st. st ≡ record (i.status) { status = "reinstalling" }))
        (reinstall_device env m i)
  unfolding reinstall_device
  reinstall_device-Yields = body-Yields (
      invoke_then-Yields env (Call.device_get m i.status.instance_id) λ r.
        or_leave_then-Yields _ _ (λ e h. absurd_some h)
          λ device. run_then-Yields (Any-YieldsFunc (update_network_config env m device _)) λ e _.
            leave_on_then-Yields _ _ _ (λ e h. absurd_some h)
              λ _.
                bind-Yields Any
                  (mac_addresses-Yields (λ st. st ≡ record (i.status) { status = "reinstalling" })
                    device _ _)
                  λ macs _.
                    or_leave_then-Yields _ _ (λ e h. absurd_some h)
                      λ cloud_init.
                        invoke_then-Yields env
                          (Call.device_update m i.status.instance_id (record {
                            ipxe_script_url = get "reconfig_ipxe_url" i.meta.annotations;
                            user_data = cloud_init;
                          }))
                          λ e'.
                            leave_on_then-Yields _ _ _ (λ e h. absurd_some h)
                              λ _.
                                invoke_then-Yields env
                                  (Call.device_reinstall m i.status.instance_id
                                    (record { preserve_data = true; deprovision_fast = true }))
                                  λ e''.
                                    leave_on_then-Yields _ _ _ (λ e h. absurd_some h)
                                      λ _. pure-Yields _ (λ _. refl))

  -- The request is for the instance's own name.
  pub request_hostname : (generate_device_creation_request env m i).hostname ≡ i.meta.name
  unfolding generate_device_creation_request
  request_hostname = ground arith
