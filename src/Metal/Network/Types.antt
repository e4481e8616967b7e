-- ===== src/Metal/Network/Types.antt =====
-- pkg/equinix/equinix.go, `ConvertDevice` and `UpdateNetworkConfig`: what each network type does and
-- does not touch.
use harvester_equinix_addon.Prelude.{
  String, ◌≡◌, refl, ap, true, false, Option, none, some, List, [], ◌∷◌, ◌++◌, All, arith,
}
use harvester_equinix_addon.Prelude.Text.{◌<>◌, lookup}
use harvester_equinix_addon.Api.{NetworkingConfiguration, is_empty, is_valid_type}
use harvester_equinix_addon.Services.{
  Services, errorf, Device, Port, MetalClient, Call, State, returned, Only, OnlyFunc, pure-Only,
  leave_on-Only, bind-Only, invoke-Only, body-Only, if_cases-Only, for_each-Only, statements,
}
use harvester_equinix_addon.Metal.Network.{
  odd_names, odd_eth_ports, disbond_supported, convert_hybrid, convert_device,
  update_network_config,
}

-- One of the names is that of the port.
pub record OddPort (names : List String) (ports : List (String × Port)) (p : Port) : Type 0 where
  pub name : String
  pub before : List String
  pub after : List String
  pub listed : names ≡ before ++ name ∷ after
  pub found : lookup name ports ≡ some p

odd_after :
    (x : String) (names : List String) (ports : List (String × Port)) (ps : List Port)
    → All (OddPort names ports) ps
    → All (OddPort (x ∷ names) ports) ps
odd_after x names ports [] h = tt
odd_after x names ports (p ∷ ps) (o, h) = (
  record {
    name = o.name;
    before = x ∷ o.before;
    after = o.after;
    listed = ap (λ ns. x ∷ ns) o.listed;
    found = o.found;
  },
  odd_after x names ports ps h,
)

odd_eth_ports-All :
    (names : List String) (ports : List (String × Port))
    → All (OddPort names ports) (odd_eth_ports names ports)
unfolding odd_eth_ports
odd_eth_ports-All [] ports = tt
odd_eth_ports-All (x ∷ names) ports =
    add (odd_after x names ports (odd_eth_ports names ports) (odd_eth_ports-All names ports))
      (lookup x ports) refl
  where
    add :
        All (OddPort (x ∷ names) ports) (odd_eth_ports names ports)
        → (o : Option Port) → lookup x ports ≡ o
        → All (OddPort (x ∷ names) ports) (elim o [
          | none ↦ odd_eth_ports names ports
          | some port ↦ port ∷ odd_eth_ports names ports
        ])
    add rest none h = rest
    add rest (some p) h =
        (record { name = x; before = []; after = names; listed = refl; found = h }, rest)

module _ {W : Type 0} (env : Services W) (m : MetalClient) (d : Device) where
  -- A call that takes an odd-numbered physical port out of its bond, of the kind that can be.
  pub record Disbonds (c : Call) : Type 0 where
    pub port : Port
    pub odd : OddPort odd_names (env.get_physical_ports d) port
    pub supported : port.disbond_operation_supported ≡ true
    pub call : c ≡ Call.port_disbond m port.id false

  disbond-Disbonds :
      (p : Port)
      → OddPort odd_names (env.get_physical_ports d) p
      → Only Disbonds (disbond_supported env m false p)
  unfolding disbond_supported
  disbond-Disbonds p odd =
      if_cases-Only p.disbond_operation_supported
        (λ h.
          bind-Only
            (invoke-Only {P = Disbonds} env _
              (record { port = p; odd = odd; supported = h; call = refl }))
            (λ e. leave_on-Only e some))
        (λ h. pure-Only tt)

  each_disbond :
      (ps : List Port)
      → All (OddPort odd_names (env.get_physical_ports d)) ps
      → All (λ p. Only Disbonds (disbond_supported env m false p)) ps
  each_disbond [] h = tt
  each_disbond (p ∷ ps) h = (disbond-Disbonds p h.0, each_disbond ps h.1)

  -- All that a conversion to "hybrid" calls is to take odd-numbered physical ports of the device, of
  -- those that support it, out of their bond.
  pub hybrid-Disbonds : OnlyFunc Disbonds (convert_device env m d "hybrid")
  unfolding convert_device convert_hybrid
  hybrid-Disbonds = body-Only (
      bind-Only
        (for_each-Only (disbond_supported env m false)
          (odd_eth_ports odd_names (env.get_physical_ports d))
          (each_disbond _ (odd_eth_ports-All odd_names (env.get_physical_ports d))))
        (λ _. pure-Only none))

  -- A type that is neither blank nor valid for a pool is an error, and no port is touched.
  pub unknown_type :
      (n : NetworkingConfiguration) (s : State W)
      → is_empty n ≡ false
      → is_valid_type n ≡ false
      → update_network_config env m d n s
        ≡ (returned (some (errorf ("invalid network type " <> n.kind <> " in instance"))), s)
  unfolding is_empty is_valid_type update_network_config convert_device statements
  unknown_type n s filled unknown = ground (arith, filled, unknown)
