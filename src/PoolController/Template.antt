-- ===== src/PoolController/Template.antt =====
-- pkg/controllers/instancepool/instancepool.go, `submitInstances` and `generateCloudInit`: what an
-- instance of a pool consists of.
use harvester_equinix_addon.Prelude.{String, true, false, none, List, [], ◌∷◌, if◌then◌else◌}
use harvester_equinix_addon.Prelude.Int.{pos}
use harvester_equinix_addon.Prelude.Text.{◌!=◌, ◌<>◌, insert, get}
use harvester_equinix_addon.Api.{ObjectMeta, InstanceSpec, InstancePool}
use harvester_equinix_addon.Harvester.{HarvesterConfig}

abbrev pub default_iso_url : String
default_iso_url = "https://releases.rancher.com/harvester/master/harvester-master-amd64.iso"

abbrev pub default_ipxe_script_url : String
default_ipxe_script_url =
    "https://raw.githubusercontent.com/ibrokethecloud/custom_pxe/master/master.ipxe"

abbrev pub initial_ipxe_script_url : String
initial_ipxe_script_url =
    "https://raw.githubusercontent.com/ibrokethecloud/custom_pxe/master/shell.ipxe"

abbrev pub default_interface : String
default_interface = "eth0"

-- What the instances of one round share.
pub record Credentials : Type 0 where
  pub token : String
  pub project_id : String
  pub join_address : String

-- The management interfaces of an instance: those of the pool, or else the default.
management : List String → List String
management [] = default_interface ∷ []
management (x ∷ xs) = x ∷ xs

unfoldable pub instance_spec : InstancePool → String → InstanceSpec
unfolding management
instance_spec ip project_id = record {
  os = "custom_ipxe";
  plan = spec.plan;
  billing_cycle = spec.billing_cycle;
  metro = spec.metro;
  facility = spec.facility;
  spot_instance = spec.spot_instance;
  spot_price_max = spec.spot_price_max;
  user_ssh_keys = spec.user_ssh_keys;
  project_ssh_keys = spec.project_ssh_keys;
  project_id = project_id;
  ipxe_script_url = initial_ipxe_script_url;
  management_bonding_options = spec.management_bonding_options;
  node_cleanup_wait_interval = spec.node_cleanup_wait_interval;
  management_interfaces = management spec.management_interfaces;
  networking_configuration = record { kind = ""; interfaces = [] };
  user_data = "";
  tags = [];
  description = "";
  public_ipv4_subnet_size = pos 0;
  always_pxe = false;
  hardware_reservation_id = "";
  custom_data = "";
  features = [];
  no_ssh_keys = false;
}
  where
    open ip use {spec}

unfoldable pub instance_meta : InstancePool → String → String → String → ObjectMeta
unfolding insert
instance_meta ip suffix token password = record {
  name = ip.meta.name <> "-" <> suffix;
  uid = "";
  deletion_timestamp = none;
  finalizers = [];
  labels = insert "instancePool" ip.meta.name [];
  annotations =
      insert "reconfig_ipxe_url"
        (if ip.spec.ipxe_script_url != "" then ip.spec.ipxe_script_url else default_ipxe_script_url)
        (insert "password" password (insert "token" token []));
  owner_references =
      record {
        api_version = "equinix.harvesterhci.io/v1";
        kind = "InstancePool";
        name = ip.meta.name;
        uid = ip.meta.uid;
      }
      ∷ [];
}

-- The configuration that `generateCloudInit` marshals, for an instance's metadata.
unfoldable pub join_config : InstancePool → ObjectMeta → String → HarvesterConfig
unfolding get
join_config ip meta join_address = record {
  server_url = "https://" <> join_address <> ":8443";
  token = ip.status.token;
  os = record {
    ssh_authorized_keys = [];
    write_files = [];
    hostname = meta.name;
    modules = [];
    sysctls = [];
    ntp_servers = [];
    dns_nameservers = [];
    wifi = [];
    password = get "password" meta.annotations;
    environment = [];
  };
  install = record {
    automatic = true;
    mode = "join";
    networks = none;
    vip = "";
    vip_hw_addr = "";
    vip_mode = "";
    force_efi = false;
    device = "/dev/sda";
    config_url = "";
    silent = false;
    iso_url = if ip.spec.iso_url != "" then ip.spec.iso_url else default_iso_url;
    power_off = false;
    no_format = false;
    debug = false;
    tty = "ttyS1,115200n8";
    force_gpt = false;
    webhooks = [];
  };
  runtime_version = "";
}
