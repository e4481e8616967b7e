-- ===== src/InstanceController/Onboarding.antt =====
-- What pkg/controllers/instance/instance.go relies on when an instance is taken all the way to a managed
-- node: the interface between its handlers and services that let it through.
pub mod Reinstalled
pub mod Handlers
pub mod Managed
use harvester_equinix_addon.Prelude.{
  String, ◌≡◌, ◌⊎◌, refl, inl, inr, none, some, List, [], ◌∷◌, map, ◌++◌, concat_map, All,
}
use harvester_equinix_addon.Api.{Instance, NetworkingConfiguration}
use harvester_equinix_addon.Harvester.{HarvesterConfig}
use harvester_equinix_addon.Services.{
  Services, Device, DeviceCreateRequest, DeviceUpdateRequest, DeviceReinstallFields, MetalClient,
  Node, Port, ok, Call, State, returned, perform_all, body-Performs, pure-Performs,
}
use harvester_equinix_addon.Metal.Network.{update_network_config}
use harvester_equinix_addon.Metal.Network.Success.{PortsWork, Conversion}
use harvester_equinix_addon.Metal.Network.Vlans.{
  vlan_calls, HasPorts, update_network_config-Conversion,
}
use harvester_equinix_addon.Metal.CloudInit.{with_management}
use harvester_equinix_addon.InstanceController.Lifecycle.{annotated_client}

-- What the update of a network calls: nothing where none is configured.
pub data Networked {W : Type 0} (env : Services W) (m : MetalClient) (d : Device)
    (port_named : String → Port) (n : NetworkingConfiguration) : List Call → Type 0 where
  plain : n.kind ≡ "" → Networked env m d port_named n []
  typed :
      {cs : List Call}
      → Conversion env m d n.kind cs
      → Networked env m d port_named n
          (cs ++ concat_map (vlan_calls m (λ c. port_named c.name)) n.interfaces)

-- Services in which no call for the instance fails: its device is accepted, and then active and
-- reachable by its ports; its cloud-init is read and written; and its node joins.
pub record LetsThrough {W : Type 0} (env : Services W) (i : Instance) : Type 0 where
  pub device : Device
  pub creates :
      (r : DeviceCreateRequest) (w : W)
      → (env.perform (Call.device_create (annotated_client i) r) w).0 ≡ ok device
  pub accepted : (device.state ≡ "queued") ⊎ (device.state ≡ "submitted")
  pub active : Device
  pub gets :
      (w : W) → (env.perform (Call.device_get (annotated_client i) device.id) w).0 ≡ ok active
  pub is_active : active.state ≡ "active"
  pub ports : PortsWork env (annotated_client i)
  pub port_named : String → Port
  -- The active device has the ports that the instance names.
  pub has_interfaces :
      HasPorts env active (λ c. port_named c.name) i.spec.networking_configuration.interfaces
  pub has_management :
      All
        (λ name. env.get_port_by_name active name ≡ ok (port_named name))
        i.spec.management_interfaces
  pub network_calls : List Call
  pub networks :
      Networked env
        (annotated_client i)
        active
        port_named
        i.spec.networking_configuration
        network_calls
  pub config : HarvesterConfig
  pub parses : env.yaml_unmarshal i.spec.user_data ≡ ok config
  pub print : String
  pub prints :
      env.yaml_marshal (
        with_management config
          (map (λ name. (port_named name).mac) i.spec.management_interfaces)
          i.spec.management_bonding_options)
      ≡ ok print
  pub updates :
      (id : String) (r : DeviceUpdateRequest) (w : W)
      → (env.perform (Call.device_update (annotated_client i) id r) w).0 ≡ none
  pub reinstalls :
      (id : String) (r : DeviceReinstallFields) (w : W)
      → (env.perform (Call.device_reinstall (annotated_client i) id r) w).0 ≡ none
  pub writes_status :
      (j : Instance) (w : W) → (env.perform (Call.instance_update_status j) w).0 ≡ (j, none)
  pub writes : (j : Instance) (w : W) → (env.perform (Call.instance_update j) w).0 ≡ (j, none)
  pub node : Node
  pub joins : (w : W) → (env.perform (Call.node_get i.meta.name) w).0 ≡ ok node

-- The network of the active device is updated by the calls of its configuration.
pub update_network_config-Networked :
    {W : Type 0} (env : Services W) (m : MetalClient) (d : Device) (port_named : String → Port)
    (n : NetworkingConfiguration) (cs : List Call)
    → PortsWork env m
    → HasPorts env d (λ k. port_named k.name) n.interfaces
    → Networked env m d port_named n cs
    → (s : State W) → update_network_config env m d n s ≡ (returned none, perform_all env cs s)
unfolding update_network_config
update_network_config-Networked env m d port_named n cs work has (Networked.plain e) s =
    rw e (body-Performs env (pure-Performs env none) s)
update_network_config-Networked env m d port_named n cs work has (Networked.typed c) s =
    update_network_config-Conversion env m work d (λ k. port_named k.name) n c has s
