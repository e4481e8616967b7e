-- ===== src/Metal/Network/Vlans.antt =====
-- pkg/equinix/equinix.go, `UpdateNetworkConfig`: the VLANs of the ports.
use harvester_equinix_addon.Prelude.{
  String, ◌≡◌, refl, false, none, some, List, [], ◌∷◌, ◌++◌, concat_map, All,
}
use harvester_equinix_addon.Prelude.Text.{◌==◌}
use harvester_equinix_addon.Api.{InterfaceConfiguration, NetworkingConfiguration}
use harvester_equinix_addon.Services.{
  Services, Device, Port, MetalClient, ok, Call, State, returned, Performs, perform_all,
  bind-Performs, for_each-Performs, each_last-Performs, invoke_then-Performs, leave_on-Performs,
  or_leave-Performs, run-Performs, body-Performs,
}
use harvester_equinix_addon.Metal.Network.{
  assign_vlan, assign_interface, update_network_config, convert_device,
}
use harvester_equinix_addon.Metal.Network.Success.{PortsWork, Conversion, convert_device-Conversion}

abbrev pub assign_call : MetalClient → Port → String → List Call
assign_call m port vlan = Call.port_assign m port.id vlan ∷ []

-- The calls for the interfaces, where `port_of` is the port that the device has for each.
abbrev pub vlan_calls :
    MetalClient → (InterfaceConfiguration → Port) → InterfaceConfiguration → List Call
vlan_calls m port_of n = concat_map (assign_call m (port_of n)) n.vlan_ids

-- The device has a port for each of the interfaces.
abbrev pub HasPorts :
    {W : Type 0}
    → Services W
    → Device
    → (InterfaceConfiguration → Port)
    → List InterfaceConfiguration
    → Type 0
HasPorts env d port_of ns = All (λ n. env.get_port_by_name d n.name ≡ ok (port_of n)) ns

module _ {W : Type 0} (env : Services W) (m : MetalClient) (work : PortsWork env m) (d : Device)
    (port_of : InterfaceConfiguration → Port) where
  assign_vlan-Performs :
      (port : Port) (vlan : String)
      → Performs env (assign_call m port vlan) tt (assign_vlan env m port vlan)
  unfolding assign_vlan
  assign_vlan-Performs port vlan =
      invoke_then-Performs env _ _ (λ w. leave_on-Performs env _ _ (work.assigns port.id vlan w))

  assign_interface-Performs :
      (n : InterfaceConfiguration)
      → env.get_port_by_name d n.name ≡ ok (port_of n)
      → Performs env (vlan_calls m port_of n) tt (assign_interface env m d n)
  unfolding assign_interface
  assign_interface-Performs n has = bind-Performs env _ (or_leave-Performs env _ some has) (
      for_each-Performs env (assign_call m (port_of n)) (assign_vlan-Performs (port_of n))
        n.vlan_ids)

  assign_interfaces-Perform :
      (ns : List InterfaceConfiguration)
      → HasPorts env d port_of ns
      → All (λ n. Performs env (vlan_calls m port_of n) tt (assign_interface env m d n)) ns
  assign_interfaces-Perform [] has = tt
  assign_interfaces-Perform (n ∷ ns) has =
      (assign_interface-Performs n has.0, assign_interfaces-Perform ns has.1)

  filled : {kind : String} {cs : List Call} → Conversion env m d kind cs → (kind == "") ≡ false
  filled (Conversion.layer3 b h) = refl
  filled Conversion.hybrid = refl
  filled (Conversion.layer2_individual b h) = refl
  filled Conversion.layer2_bonded = refl
  filled Conversion.hybrid_bonded = refl

  -- If no change of a port fails, and the device has those ports that the type asks for and a port for
  -- each interface of the configuration, the network of a device is updated by the calls of the
  -- conversion and then by one assignment for each VLAN of each interface, in order, and no error is
  -- returned.
  pub update_network_config-Conversion :
      (n : NetworkingConfiguration) {cs : List Call}
      → Conversion env m d n.kind cs
      → HasPorts env d port_of n.interfaces
      → (s : State W)
      → update_network_config env m d n s
        ≡ (returned none, perform_all env (cs ++ concat_map (vlan_calls m port_of) n.interfaces) s)
  unfolding update_network_config
  update_network_config-Conversion n {cs = cs} c has s = rw (filled c) (
      body-Performs env
        (bind-Performs env _ {cs = cs}
          (run-Performs env (convert_device env m d n.kind)
            (convert_device-Conversion env m work d c))
          (bind-Performs env _ (leave_on-Performs env none some refl) (
            each_last-Performs env (assign_interface env m d) (vlan_calls m port_of) n.interfaces
              none (assign_interfaces-Perform n.interfaces has))))
        s)
