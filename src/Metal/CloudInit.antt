-- ===== src/Metal/CloudInit.antt =====
-- pkg/equinix/equinix.go, `updateCloudInit`: the management network is put into the cloud-init of a
-- device whose MAC addresses are known.
pub mod Networks
use harvester_equinix_addon.Prelude.{String, true, Option, none, some, List, [], map}
use harvester_equinix_addon.Prelude.Text.{◌<>◌, insert}
use harvester_equinix_addon.Api.{StringMap}
use harvester_equinix_addon.Harvester.{Network, HarvesterConfig}
use harvester_equinix_addon.Services.{Services, Result, ok, err}

abbrev pub management_network : List String → Option StringMap → Network
management_network macs options = record {
  interfaces = map (λ mac. record { name = ""; hw_addr = mac }) macs;
  method = "dhcp";
  ip = "";
  subnet_mask = "";
  gateway = "";
  default_route = true;
  bond_options = elim options [ none ↦ none | some o ↦ some o ];
}

unfoldable pub or_empty : Option (List (String × Network)) → List (String × Network)
or_empty none = []
or_empty (some networks) = networks

-- `hc` with `hc.Networks["harvester-mgmt"]` written; `Networks` is a field of the embedded `Install`.
unfoldable pub with_management : HarvesterConfig → List String → Option StringMap → HarvesterConfig
unfolding or_empty insert
with_management hc macs options =
    let networks =
      insert "harvester-mgmt" (management_network macs options) (or_empty hc.install.networks) in
    record hc { install = record (hc.install) { networks = some networks } }

abbrev pub cloud_config : String → String
cloud_config s = "#cloud-config\n" <> s

unfoldable pub update_cloud_init :
    {W : Type 0} → Services W → String → List String → Option StringMap → Result String
update_cloud_init env base macs options = elim (env.yaml_unmarshal base) [
  | err e ↦ err e
  | ok hc ↦ elim (env.yaml_marshal (with_management hc macs options)) [
    | err e ↦ err e
    | ok s ↦ ok (cloud_config s)
  ]
]
