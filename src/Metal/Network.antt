-- ===== src/Metal/Network.antt =====
-- pkg/equinix/equinix.go, `UpdateNetworkConfig` and `ConvertDevice`. A Go map is the list of its
-- entries in the order in which a `range` over it meets them.
pub mod Calls
pub mod Types
pub mod Success
pub mod Vlans
use harvester_equinix_addon.Prelude.{
  String, Bool, true, false, Option, none, some, List, [], ◌∷◌, if◌then◌else◌,
}
use harvester_equinix_addon.Prelude.Text.{◌==◌, ◌<>◌, lookup}
use harvester_equinix_addon.Api.{InterfaceConfiguration, NetworkingConfiguration}
use harvester_equinix_addon.Services.{
  Services, Error, errorf, Device, Port, AddressRequest, MetalClient, Call, Code, Func, ◌>>=◌, ◌>>◌,
  pure, or_crash, for_each, body, run, invoke, or_leave, leave_on,
}

-- The loop that collects the odd-numbered ports that the device has.
unfoldable pub odd_eth_ports : List String → List (String × Port) → List Port
odd_eth_ports [] all_eth_ports = []
odd_eth_ports (name ∷ names) all_eth_ports =
    let rest = odd_eth_ports names all_eth_ports in
    elim (lookup name all_eth_ports) [ none ↦ rest | some port ↦ port ∷ rest ]

abbrev pub odd_names : List String
odd_names = "eth1" ∷ "eth3" ∷ "eth5" ∷ "eth7" ∷ "eth9" ∷ []

abbrev pub layer_three_addresses : List AddressRequest
layer_three_addresses =
    record { address_family = 4; is_public = true }
    ∷ record { address_family = 4; is_public = false }
    ∷ record { address_family = 6; is_public = true }
    ∷ []

module _ {W : Type 0} (env : Services W) (m : MetalClient) where
  -- `_, _, err := m.Client.Ports.Bond(p.ID, false); if err != nil { return err }`
  bond : String × Port → Code W (Option Error) (Unit {0})
  bond (name, p) = do leave_on (← invoke env (Call.port_bond m p.id false)) some

  unfoldable pub disbond_supported : Bool → Port → Code W (Option Error) (Unit {0})
  disbond_supported bulk p =
      if p.disbond_operation_supported
      then (do leave_on (← invoke env (Call.port_disbond m p.id bulk)) some)
      else pure tt

  to_layer_two : Port → Code W (Option Error) (Unit {0})
  to_layer_two p = do leave_on (← invoke env (Call.port_to_layer_two m p.id)) some

  convert_layer3 : Device → Code W (Option Error) (Option Error)
  unfolding for_each bond
  convert_layer3 d = do
    let bond_ports = env.get_bond_ports d
    for_each bond_ports bond
    bond0 ← or_crash (lookup "bond0" bond_ports)
    leave_on (← invoke env (Call.port_to_layer_three m bond0.id layer_three_addresses)) some
    for_each (env.get_physical_ports d) bond
    pure none

  unfoldable pub convert_hybrid : Device → Code W (Option Error) (Option Error)
  unfolding for_each disbond_supported odd_eth_ports
  convert_hybrid d = do
    for_each (odd_eth_ports odd_names (env.get_physical_ports d)) (disbond_supported false)
    pure none

  unfoldable pub convert_layer2_individual : Device → Code W (Option Error) (Option Error)
  unfolding for_each disbond_supported to_layer_two
  convert_layer2_individual d = do
    bond0 ← or_crash (lookup "bond0" (env.get_bond_ports d))
    to_layer_two bond0
    for_each (env.get_physical_ports d) (λ p. disbond_supported true p.1)
    pure none

  convert_layer2_bonded : Device → Code W (Option Error) (Option Error)
  unfolding for_each bond to_layer_two
  convert_layer2_bonded d = do
    for_each (env.get_bond_ports d) (λ p. to_layer_two p.1)
    for_each (env.get_physical_ports d) bond
    pure none

  unfoldable pub convert_device : Device → String → Func W (Option Error)
  unfolding convert_layer3 convert_hybrid convert_layer2_individual convert_layer2_bonded
  convert_device d target = body (
      if target == "layer3"
      then convert_layer3 d
      else if target == "hybrid"
      then convert_hybrid d
      else if target == "layer2-individual"
      then convert_layer2_individual d
      else if target == "layer2-bonded"
      then convert_layer2_bonded d
      else if target == "hybrid-bonded"
      then pure none
      else pure (some (errorf ("invalid network type " <> target <> " in instance"))))

  assign_vlan : Port → String → Code W (Option Error) (Unit {0})
  assign_vlan port vlan = do leave_on (← invoke env (Call.port_assign m port.id vlan)) some

  assign_interface : Device → InterfaceConfiguration → Code W (Option Error) (Unit {0})
  unfolding for_each assign_vlan
  assign_interface d net = do
    port ← or_leave (env.get_port_by_name d net.name) some
    for_each net.vlan_ids (assign_vlan port)

  unfoldable pub update_network_config : Device → NetworkingConfiguration → Func W (Option Error)
  unfolding convert_device for_each assign_interface
  update_network_config d network = body (
      if network.kind == "" then pure none else (do
        leave_on (← run (convert_device d network.kind)) some
        for_each network.interfaces (assign_interface d)
        pure none))
