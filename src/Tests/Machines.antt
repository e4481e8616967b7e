-- ===== src/Tests/Machines.antt =====
-- The theorems on pkg/equinix/equinix.go and pkg/harvester/config.go at concrete devices.
use harvester_equinix_addon.Prelude.{◌≡◌, refl, ◌≢◌, inl, true, none, [], ◌∷◌}
use harvester_equinix_addon.Api.{Instance, NetworkingConfiguration}
use harvester_equinix_addon.Harvester.{HarvesterConfig}
use harvester_equinix_addon.Harvester.Copy.{
  new_harvester_config, to_string, Sanitized, to_string-Sanitized,
}
use harvester_equinix_addon.Services.{MetalClient, Call, returned}
use harvester_equinix_addon.Metal.Network.{update_network_config}
use harvester_equinix_addon.Metal.Network.Success.{PortsWork, Conversion}
use harvester_equinix_addon.Services.{perform_all}
use harvester_equinix_addon.Metal.Network.Vlans.{update_network_config-Conversion}
use harvester_equinix_addon.Metal.Devices.{delete_device}
use harvester_equinix_addon.Metal.Devices.Deletion.{delete_device_lem}
use harvester_equinix_addon.Tests.Data.{instance_in, device, port, services, start_state}

abbrev client : MetalClient
client = record { token = "t0"; project_id = "p0" }

abbrev submitted : Instance
submitted = instance_in "submitted"

has_id : submitted.status.instance_id ≢ ""
has_id h = cc

delete_device_lem_example :
    ((delete_device services client submitted start_state).0 ≡ returned none)
    × ((delete_device services client submitted start_state).1.calls
        ≡ Call.device_delete client "d1" true ∷ Call.device_list client "p0" ∷ [])
delete_device_lem_example =
    ((delete_device_lem services client submitted start_state).2 (device ∷ []) has_id refl).0
      (inl refl)

abbrev secret_config : HarvesterConfig
secret_config = record new_harvester_config { token = "t0" }

to_string-Sanitized_example :
    (d : HarvesterConfig) × Sanitized secret_config d
    × (to_string services "0xc000" (λ c. c.token) secret_config ≡ d.token)
to_string-Sanitized_example =
    to_string-Sanitized services "0xc000" (λ c. c.token) (λ c. refl) secret_config

ports_work : PortsWork services client
ports_work = record {
  bonds = λ id bulk w. refl;
  disbonds = λ id bulk w. refl;
  to_two = λ id w. refl;
  to_three = λ id rs w. refl;
  assigns = λ id vlan w. refl;
}

abbrev tagged_network : NetworkingConfiguration
tagged_network = record {
  kind = "hybrid-bonded";
  interfaces = record { name = "bond0"; vlan_ids = "v1" ∷ "v2" ∷ [] } ∷ [];
}

update_network_config-Conversion_example :
    update_network_config services client device tagged_network start_state ≡ (
      returned none,
      perform_all services
          (Call.port_assign client "bond0" "v1" ∷ Call.port_assign client "bond0" "v2" ∷ [])
          start_state,
    )
update_network_config-Conversion_example =
    update_network_config-Conversion services client ports_work device (λ n. port n.name)
      tagged_network Conversion.hybrid_bonded (refl, tt) start_state
