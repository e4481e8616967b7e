-- ===== src/Metal/Network/Success.antt =====
-- pkg/equinix/equinix.go, `ConvertDevice` and `UpdateNetworkConfig`: the calls that are made when none
-- of them fails, in their order.
use harvester_equinix_addon.Prelude.{
  String, ◌≡◌, Bool, true, false, none, some, List, [], ◌∷◌, ◌++◌, concat_map, if◌then◌else◌,
}
use harvester_equinix_addon.Prelude.Text.{lookup}
use harvester_equinix_addon.Services.{
  Services, Device, Port, AddressRequest, MetalClient, Call, State, returned, Performs, perform_all,
  pure-Performs, bind-Performs, for_each-Performs, or_crash-Performs, invoke_then-Performs,
  leave_on-Performs, if_cases-Performs, for_each_last-Performs, body-Performs,
}
use harvester_equinix_addon.Metal.Network.{
  odd_names, odd_eth_ports, layer_three_addresses, bond, disbond_supported, to_layer_two,
  convert_layer3, convert_hybrid, convert_layer2_individual, convert_layer2_bonded, convert_device,
}

-- No change of a port fails.
pub record PortsWork {W : Type 0} (env : Services W) (m : MetalClient) : Type 0 where
  pub bonds :
      (id : String) (bulk : Bool) (w : W) → (env.perform (Call.port_bond m id bulk) w).0 ≡ none
  pub disbonds :
      (id : String) (bulk : Bool) (w : W) → (env.perform (Call.port_disbond m id bulk) w).0 ≡ none
  pub to_two : (id : String) (w : W) → (env.perform (Call.port_to_layer_two m id) w).0 ≡ none
  pub to_three :
      (id : String) (rs : List AddressRequest) (w : W)
      → (env.perform (Call.port_to_layer_three m id rs) w).0 ≡ none
  pub assigns : (id vlan : String) (w : W) → (env.perform (Call.port_assign m id vlan) w).0 ≡ none

module _ (m : MetalClient) where
  abbrev pub bond_calls : String × Port → List Call
  bond_calls p = Call.port_bond m p.1.id false ∷ []

  abbrev pub layer_two_calls : String × Port → List Call
  layer_two_calls p = Call.port_to_layer_two m p.1.id ∷ []

  abbrev pub disbond_calls : Bool → Port → List Call
  disbond_calls bulk p =
      if p.disbond_operation_supported then Call.port_disbond m p.id bulk ∷ [] else []

module _ {W : Type 0} (env : Services W) (m : MetalClient) (work : PortsWork env m) where
  bond-Performs : (p : String × Port) → Performs env (bond_calls m p) tt (bond env m p)
  unfolding bond
  bond-Performs (name, p) =
      invoke_then-Performs env _ _ (λ w. leave_on-Performs env _ _ (work.bonds p.id false w))

  to_layer_two-Performs :
      (p : Port) → Performs env (Call.port_to_layer_two m p.id ∷ []) tt (to_layer_two env m p)
  unfolding to_layer_two
  to_layer_two-Performs p =
      invoke_then-Performs env _ _ (λ w. leave_on-Performs env _ _ (work.to_two p.id w))

  disbond-Performs :
      (bulk : Bool) (p : Port)
      → Performs env (disbond_calls m bulk p) tt (disbond_supported env m bulk p)
  unfolding disbond_supported
  disbond-Performs bulk p =
      if_cases-Performs env p.disbond_operation_supported
        (invoke_then-Performs env _ _ (λ w. leave_on-Performs env _ _ (work.disbonds p.id bulk w)))
        (pure-Performs env tt)

  layer3-Performs :
      (d : Device) (bond0 : Port)
      → lookup "bond0" (env.get_bond_ports d) ≡ some bond0
      → Performs env
          (concat_map (bond_calls m) (env.get_bond_ports d)
            ++ (Call.port_to_layer_three m bond0.id layer_three_addresses
                ∷ concat_map (bond_calls m) (env.get_physical_ports d)))
          none
          (convert_layer3 env m d)
  unfolding convert_layer3
  layer3-Performs d bond0 h =
      bind-Performs env _
        (for_each-Performs env (bond_calls m) bond-Performs (env.get_bond_ports d))
        (bind-Performs env _ (or_crash-Performs env _ h) (
          invoke_then-Performs env _ _ λ w.
            bind-Performs env _
              (leave_on-Performs env _ _ (work.to_three bond0.id layer_three_addresses w))
              (for_each_last-Performs env (bond_calls m) bond-Performs (env.get_physical_ports d)
                none)))

  hybrid-Performs :
      (d : Device)
      → Performs env
          (concat_map (disbond_calls m false) (odd_eth_ports odd_names (env.get_physical_ports d)))
          none
          (convert_hybrid env m d)
  unfolding convert_hybrid
  hybrid-Performs d =
      for_each_last-Performs env (disbond_calls m false) (disbond-Performs false) _ none

  individual-Performs :
      (d : Device) (bond0 : Port)
      → lookup "bond0" (env.get_bond_ports d) ≡ some bond0
      → Performs env
          (Call.port_to_layer_two m bond0.id
            ∷ concat_map (λ p. disbond_calls m true p.1) (env.get_physical_ports d))
          none
          (convert_layer2_individual env m d)
  unfolding convert_layer2_individual
  individual-Performs d bond0 h = bind-Performs env _ (or_crash-Performs env _ h) (
      bind-Performs env _ (to_layer_two-Performs bond0) (
        for_each_last-Performs env (λ p. disbond_calls m true p.1) (λ p. disbond-Performs true p.1)
          (env.get_physical_ports d) none))

  bonded-Performs :
      (d : Device)
      → Performs env
          (concat_map (layer_two_calls m) (env.get_bond_ports d)
            ++ concat_map (bond_calls m) (env.get_physical_ports d))
          none
          (convert_layer2_bonded env m d)
  unfolding convert_layer2_bonded
  bonded-Performs d =
      bind-Performs env _
        (for_each-Performs env (layer_two_calls m) (λ p. to_layer_two-Performs p.1)
          (env.get_bond_ports d))
        (for_each_last-Performs env (bond_calls m) bond-Performs (env.get_physical_ports d) none)

-- What a conversion of the device to a type calls.
pub data Conversion {W : Type 0} (env : Services W) (m : MetalClient) (d : Device)
    : String → List Call → Type 0 where
  -- All bond ports are bonded, "bond0" becomes a layer 3 port, and all physical ports are bonded.
  layer3 :
      (bond0 : Port)
      → lookup "bond0" (env.get_bond_ports d) ≡ some bond0
      → Conversion env m d "layer3" (
          concat_map (bond_calls m) (env.get_bond_ports d)
          ++ (Call.port_to_layer_three m bond0.id layer_three_addresses
              ∷ concat_map (bond_calls m) (env.get_physical_ports d)))
  -- The odd-numbered physical ports that support it leave their bond.
  hybrid :
      Conversion env m d "hybrid"
        (concat_map (disbond_calls m false) (odd_eth_ports odd_names (env.get_physical_ports d)))
  -- "bond0" becomes a layer 2 port, and the physical ports that support it leave their bond.
  layer2_individual :
      (bond0 : Port)
      → lookup "bond0" (env.get_bond_ports d) ≡ some bond0
      → Conversion env m d "layer2-individual" (
          Call.port_to_layer_two m bond0.id
          ∷ concat_map (λ p. disbond_calls m true p.1) (env.get_physical_ports d))
  -- All bond ports become layer 2 ports, and all physical ports are bonded.
  layer2_bonded : Conversion env m d "layer2-bonded" (
      concat_map (layer_two_calls m) (env.get_bond_ports d)
      ++ concat_map (bond_calls m) (env.get_physical_ports d))
  hybrid_bonded : Conversion env m d "hybrid-bonded" []

module _ {W : Type 0} (env : Services W) (m : MetalClient) (work : PortsWork env m)
    (d : Device) where
  -- If no change of a port fails, and the device has the port "bond0" where the type needs it, a
  -- conversion makes exactly the calls of its type, in order, and returns no error.
  pub convert_device-Conversion :
      {kind : String} {cs : List Call}
      → Conversion env m d kind cs
      → (s : State W) → convert_device env m d kind s ≡ (returned none, perform_all env cs s)
  unfolding convert_device
  convert_device-Conversion (Conversion.layer3 bond0 h) s =
      body-Performs env (layer3-Performs env m work d bond0 h) s
  convert_device-Conversion Conversion.hybrid s = body-Performs env (hybrid-Performs env m work d) s
  convert_device-Conversion (Conversion.layer2_individual bond0 h) s =
      body-Performs env (individual-Performs env m work d bond0 h) s
  convert_device-Conversion Conversion.layer2_bonded s =
      body-Performs env (bonded-Performs env m work d) s
  convert_device-Conversion Conversion.hybrid_bonded s =
      body-Performs env (pure-Performs env none) s
