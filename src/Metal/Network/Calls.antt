-- ===== src/Metal/Network/Calls.antt =====
-- pkg/equinix/equinix.go: the network conversion calls nothing but the port service.
use harvester_equinix_addon.Prelude.{String, Bool, true, false, none, some, List, [], ◌∷◌, All}
use harvester_equinix_addon.Prelude.Text.{lookup}
use harvester_equinix_addon.Api.{NetworkingConfiguration, InterfaceConfiguration}
use harvester_equinix_addon.Services.{
  Services, Device, Port, AddressRequest, MetalClient, Call, Only, OnlyFunc, pure-Only,
  or_crash-Only, or_leave-Only, if-Only, leave_on-Only, bind-Only, invoke-Only, body-Only, run-Only,
  for_each-Only,
}
use harvester_equinix_addon.Metal.Network.{
  odd_names, odd_eth_ports, layer_three_addresses, bond, disbond_supported, to_layer_two,
  convert_layer3, convert_hybrid, convert_layer2_individual, convert_layer2_bonded, convert_device,
  assign_vlan, assign_interface, update_network_config,
}

-- A predicate that every change of a port by the client satisfies.
pub record Ports (m : MetalClient) (P : Call → Type 0) : Type 0 where
  pub may_bond : (id : String) (bulk : Bool) → P (Call.port_bond m id bulk)
  pub may_disbond : (id : String) (bulk : Bool) → P (Call.port_disbond m id bulk)
  pub may_layer_two : (id : String) → P (Call.port_to_layer_two m id)
  pub may_layer_three :
      (id : String) (rs : List AddressRequest) → P (Call.port_to_layer_three m id rs)
  pub may_assign : (id vlan : String) → P (Call.port_assign m id vlan)

All-every {ℓ} : {A : Type ℓ} {Q : A → Type 0} → ((x : A) → Q x) → (xs : List A) → All Q xs
All-every h [] = tt
All-every h (x ∷ xs) = (h x, All-every h xs)

module _ {W : Type 0} (env : Services W) (m : MetalClient) {P : Call → Type 0} where
  module _ (ports : Ports m P) where
    bond-Only : (p : String × Port) → Only P (bond env m p)
    unfolding bond
    bond-Only (name, p) =
        bind-Only (invoke-Only env _ (ports.may_bond p.id false)) (λ e. leave_on-Only e some)

    disbond-Only : (bulk : Bool) (p : Port) → Only P (disbond_supported env m bulk p)
    unfolding disbond_supported
    disbond-Only bulk p =
        if-Only p.disbond_operation_supported
          (bind-Only (invoke-Only env _ (ports.may_disbond p.id bulk)) (λ e. leave_on-Only e some))
          (pure-Only tt)

    to_layer_two-Only : (p : Port) → Only P (to_layer_two env m p)
    unfolding to_layer_two
    to_layer_two-Only p =
        bind-Only (invoke-Only env _ (ports.may_layer_two p.id)) (λ e. leave_on-Only e some)

    layer3-Only : (d : Device) → Only P (convert_layer3 env m d)
    unfolding convert_layer3
    layer3-Only d =
        bind-Only (for_each-Only (bond env m) (env.get_bond_ports d) (All-every bond-Only _)) λ _.
          bind-Only (or_crash-Only (lookup "bond0" (env.get_bond_ports d))) λ b.
            bind-Only (invoke-Only env _ (ports.may_layer_three b.id layer_three_addresses)) λ e.
              bind-Only (leave_on-Only e some) λ _.
                bind-Only
                  (for_each-Only (bond env m) (env.get_physical_ports d) (All-every bond-Only _))
                  (λ _. pure-Only none)

    hybrid-Only : (d : Device) → Only P (convert_hybrid env m d)
    unfolding convert_hybrid
    hybrid-Only d =
        bind-Only
          (for_each-Only (disbond_supported env m false)
            (odd_eth_ports odd_names (env.get_physical_ports d)) (All-every (disbond-Only false) _))
          (λ _. pure-Only none)

    layer2_individual-Only : (d : Device) → Only P (convert_layer2_individual env m d)
    unfolding convert_layer2_individual
    layer2_individual-Only d =
        bind-Only (or_crash-Only (lookup "bond0" (env.get_bond_ports d))) λ b.
          bind-Only (to_layer_two-Only b) λ _.
            bind-Only
              (for_each-Only (λ p. disbond_supported env m true p.1) (env.get_physical_ports d)
                (All-every (λ p. disbond-Only true p.1) _))
              (λ _. pure-Only none)

    layer2_bonded-Only : (d : Device) → Only P (convert_layer2_bonded env m d)
    unfolding convert_layer2_bonded
    layer2_bonded-Only d =
        bind-Only
          (for_each-Only (λ p. to_layer_two env m p.1) (env.get_bond_ports d)
            (All-every (λ p. to_layer_two-Only p.1) _))
          λ _.
            bind-Only
              (for_each-Only (bond env m) (env.get_physical_ports d) (All-every bond-Only _))
              (λ _. pure-Only none)

    convert_device-Only : (d : Device) (kind : String) → OnlyFunc P (convert_device env m d kind)
    unfolding convert_device
    convert_device-Only d kind = body-Only (
        if-Only _ (layer3-Only d) (
          if-Only _ (hybrid-Only d) (
            if-Only _ (layer2_individual-Only d)
              (if-Only _ (layer2_bonded-Only d) (if-Only _ (pure-Only _) (pure-Only _))))))

    assign_vlan-Only : (port : Port) (vlan : String) → Only P (assign_vlan env m port vlan)
    unfolding assign_vlan
    assign_vlan-Only port vlan =
        bind-Only (invoke-Only env _ (ports.may_assign port.id vlan)) (λ e. leave_on-Only e some)

    assign_interface-Only :
        (d : Device) (n : InterfaceConfiguration) → Only P (assign_interface env m d n)
    unfolding assign_interface
    assign_interface-Only d n =
        bind-Only (or_leave-Only (env.get_port_by_name d n.name) some) λ port.
          for_each-Only (assign_vlan env m port) n.vlan_ids (All-every (assign_vlan-Only port) _)

    pub update_network_config-Only :
        (d : Device) (n : NetworkingConfiguration) → OnlyFunc P (update_network_config env m d n)
    unfolding update_network_config
    update_network_config-Only d n = body-Only (
        if-Only _ (pure-Only none) (
          bind-Only (run-Only (convert_device-Only d n.kind)) λ e.
            bind-Only (leave_on-Only e some) λ _.
              bind-Only
                (for_each-Only (assign_interface env m d) n.interfaces
                  (All-every (assign_interface-Only d) _))
                (λ _. pure-Only none)))
