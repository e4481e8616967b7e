-- ===== src/Tests/Data.antt =====
-- Concrete services, an instance and a pool for the tests.
use harvester_equinix_addon.Prelude.{if◌then◌else◌, String, true, false, none, some, List, [], ◌∷◌}
use harvester_equinix_addon.Prelude.Int.{ℤ, pos}
use harvester_equinix_addon.Prelude.Text.{◌==◌}
use harvester_equinix_addon.Api.{
  ObjectMeta, NetworkingConfiguration, InstanceSpec, InstanceStatus, Instance, InstancePoolStatus,
  InstancePool,
}
use harvester_equinix_addon.Harvester.Copy.{new_harvester_config}
use harvester_equinix_addon.Services.{
  Services, Error, Result, remote, ok, err, Port, Device, Node, text, Call, Reply, State,
}

abbrev pub blank_meta : ObjectMeta
blank_meta = record {
  name = "node-1";
  uid = "u1";
  deletion_timestamp = none;
  finalizers = [];
  labels = [];
  annotations = ("token", "t0") ∷ [];
  owner_references = [];
}

abbrev pub blank_network : NetworkingConfiguration
blank_network = record { kind = ""; interfaces = [] }

abbrev pub blank_spec : InstanceSpec
blank_spec = record {
  os = "custom_ipxe";
  plan = "c3.small.x86";
  billing_cycle = "hourly";
  metro = "SG";
  facility = [];
  spot_instance = false;
  spot_price_max = "0";
  user_ssh_keys = [];
  project_ssh_keys = [];
  project_id = "p0";
  ipxe_script_url = "";
  management_bonding_options = none;
  node_cleanup_wait_interval = some (pos 10);
  management_interfaces = "eth0" ∷ [];
  networking_configuration = blank_network;
  user_data = "";
  tags = [];
  description = "";
  public_ipv4_subnet_size = pos 0;
  always_pxe = false;
  hardware_reservation_id = "";
  custom_data = "";
  features = [];
  no_ssh_keys = false;
}

abbrev pub status_of : String → InstanceStatus
status_of s = record { status = s; instance_id = "d1"; public_ip = ""; private_ip = "" }

abbrev pub instance_in : String → Instance
instance_in s = record { meta = blank_meta; spec = blank_spec; status = status_of s }

abbrev pub with_finalizers : List String → Instance → Instance
with_finalizers fs i = record i {
  meta = record (i.meta) { finalizers = fs; deletion_timestamp = some (pos 1) };
}

abbrev pub pool_status : String → ℤ → ℤ → InstancePoolStatus
pool_status s requested needed = record {
  status = s;
  ready = pos 0;
  requested = requested;
  needed = needed;
  token = "join";
}

abbrev pub pool : InstancePoolStatus → InstancePool
pool status = record {
  meta = record blank_meta { name = "pool" };
  spec = record {
    count = pos 1;
    billing_cycle = "hourly";
    spot_instance = false;
    spot_price_max = "0";
    custom_data = "";
    user_ssh_keys = [];
    project_ssh_keys = [];
    features = [];
    no_ssh_keys = false;
    management_interfaces = [];
    management_bonding_options = none;
    ipxe_script_url = "";
    iso_url = "";
    plan = "c3.small.x86";
    metro = "SG";
    facility = [];
    node_cleanup_wait_interval = none;
    networking_configuration = blank_network;
  };
  status = status;
}

abbrev pub port : String → Port
port name = record { id = name; name = name; mac = "00:00"; disbond_operation_supported = true }

-- A device has the ports in its list, by their names.
abbrev port_in : List Port → String → Result Port
port_in [] name = err (remote "no such port")
port_in (p ∷ ps) name = if p.name == name then ok p else port_in ps name

abbrev pub device : Device
device = record {
  id = "d1";
  state = "active";
  network = record { private_ipv4 = "10.0.0.1"; public_ipv4 = "1.1.1.1" };
  network_ports = port "eth0" ∷ port "bond0" ∷ [];
}

abbrev pub sick_node : Node
sick_node = record {
  name = "node-1";
  deletion_timestamp = none;
  conditions = record { kind = "Ready"; status = "False"; last_heartbeat_time = pos 0 } ∷ [];
}

-- Everything is there and every call succeeds; the clock stands at 100.
abbrev pub replies : (c : Call) → Unit {0} → Reply c × Unit {0}
replies (Call.device_create m r) w = (ok device, w)
replies (Call.device_get m id) w = (ok device, w)
replies (Call.device_list m project) w = (ok (device ∷ []), w)
replies (Call.device_delete m id force) w = (none, w)
replies (Call.device_update m id r) w = (none, w)
replies (Call.device_reinstall m id r) w = (none, w)
replies (Call.port_assign m p vlan) w = (none, w)
replies (Call.port_bond m p bulk) w = (none, w)
replies (Call.port_disbond m p bulk) w = (none, w)
replies (Call.port_to_layer_two m p) w = (none, w)
replies (Call.port_to_layer_three m p rs) w = (none, w)
replies (Call.instance_get name) w = (ok (instance_in "managed"), w)
replies (Call.instance_delete name) w = (none, w)
replies (Call.instance_enqueue name) w = (tt, w)
replies (Call.instance_list selector) w = (ok (instance_in "managed" ∷ []), w)
replies (Call.instance_create i) w = (none, w)
replies (Call.instance_update i) w = ((i, none), w)
replies (Call.instance_update_status i) w = ((i, none), w)
replies (Call.instance_enqueue_after name d) w = (tt, w)
replies (Call.node_enqueue_after name d) w = (tt, w)
replies (Call.node_get name) w = (ok sick_node, w)
replies (Call.node_delete name) w = (none, w)
replies (Call.node_list selector) w = (ok (sick_node ∷ []), w)
replies (Call.pool_update_status p) w = ((p, none), w)
replies (Call.secret_get namespace name) w =
    (ok (("METAL_AUTH_TOKEN", "t0") ∷ ("PROJECT_ID", "p0") ∷ []), w)
replies (Call.service_get namespace name) w = (ok (record { ingress = "2.2.2.2" ∷ [] }), w)
replies Call.now w = (pos 100, w)
replies (Call.rand_intn n) w = (0, w)
replies (Call.rand_seed t) w = (tt, w)

abbrev pub services : Services (Unit {0})
services = record {
  perform = replies;
  is_not_found = λ e. false;
  errors_wrap = λ e message. e;
  lookup_env = λ name. none;
  read_file = λ path. ok "role: server";
  yaml_marshal = λ c. ok c.token;
  yaml_unmarshal = λ s. ok new_harvester_config;
  yaml_unmarshal_map = λ s. ok (("role", text "server") ∷ []);
  mergo_merge = λ a b. ok b;
  as_approximate_float64 = λ s. 0;
  get_port_by_name = λ d name. port_in d.network_ports name;
  get_bond_ports = λ d. [];
  get_physical_ports = λ d. ("eth0", port "eth0") ∷ ("eth1", port "eth1") ∷ [];
  get_network_info = λ d. d.network;
}

-- The same services, with no secret to be read.
abbrev pub unauthorized : Error
unauthorized = remote "forbidden"

abbrev pub secretless_replies : (c : Call) → Unit {0} → Reply c × Unit {0}
secretless_replies (Call.secret_get namespace name) w = (err unauthorized, w)
secretless_replies c w = replies c w

abbrev pub secretless : Services (Unit {0})
secretless = record services { perform = secretless_replies }

abbrev pub start_state : State (Unit {0})
start_state = record { world = tt; calls = []; locked = false }
