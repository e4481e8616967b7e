-- ===== src/Services/Calls.antt =====
-- The calls that reach outside, the reply to each, and the pure functions of the libraries.
-- A (value, error) pair whose value the program ignores when there is an error is a `Result`.
use harvester_equinix_addon.Prelude.{ℕ, String, Bool, Option, List}
use harvester_equinix_addon.Prelude.Int.{ℤ}
use harvester_equinix_addon.Api.{StringMap, Instance, InstancePool}
use harvester_equinix_addon.Harvester.{HarvesterConfig}

-- A Go `error` that is not nil: one that a library returned, or one of `fmt.Errorf`.
pub data Error : Type 0 where
  remote : String → Error
  errorf : String → Error

pub data Result (A : Type 0) : Type 0 where
  ok : A → Result A
  err : Error → Result A

-- The client of one project, made from an API token.
pub record MetalClient : Type 0 where
  pub token : String
  pub project_id : String

pub record Port : Type 0 where
  pub id : String
  pub name : String
  pub mac : String
  pub disbond_operation_supported : Bool

pub record NetworkInfo : Type 0 where
  pub private_ipv4 : String
  pub public_ipv4 : String

pub record Device : Type 0 where
  pub id : String
  pub state : String
  pub network : NetworkInfo
  pub network_ports : List Port

pub record DeviceCreateRequest : Type 0 where
  pub hostname : String
  pub plan : String
  pub facility : List String
  pub metro : String
  pub project_id : String
  pub always_pxe : Bool
  pub tags : List String
  pub description : String
  pub public_ipv4_subnet_size : ℤ
  pub hardware_reservation_id : String
  pub spot_instance : Bool
  pub spot_price_max : ℕ
  pub custom_data : String
  pub user_ssh_keys : List String
  pub project_ssh_keys : List String
  pub features : StringMap
  pub no_ssh_keys : Bool
  pub os : String
  pub billing_cycle : String
  pub ipxe_script_url : String

pub record DeviceUpdateRequest : Type 0 where
  pub ipxe_script_url : String
  pub user_data : String

pub record DeviceReinstallFields : Type 0 where
  pub preserve_data : Bool
  pub deprovision_fast : Bool

pub record AddressRequest : Type 0 where
  pub address_family : ℕ
  pub is_public : Bool

pub record NodeCondition : Type 0 where
  pub kind : String
  pub status : String
  pub last_heartbeat_time : ℤ

pub record Node : Type 0 where
  pub name : String
  pub deletion_timestamp : Option ℤ
  pub conditions : List NodeCondition

-- The addresses of a service's load balancer, one for each ingress.
pub record Service : Type 0 where
  pub ingress : List String

-- A value of a YAML mapping: text, or anything else.
pub data YamlValue : Type 0 where
  text : String → YamlValue
  other : YamlValue

pub data Call : Type 0 where
  device_create : MetalClient → DeviceCreateRequest → Call
  device_get : MetalClient → String → Call
  device_list : MetalClient → String → Call
  device_delete : MetalClient → String → Bool → Call
  device_update : MetalClient → String → DeviceUpdateRequest → Call
  device_reinstall : MetalClient → String → DeviceReinstallFields → Call
  port_assign : MetalClient → String → String → Call
  port_bond port_disbond : MetalClient → String → Bool → Call
  port_to_layer_two : MetalClient → String → Call
  port_to_layer_three : MetalClient → String → List AddressRequest → Call
  instance_get instance_delete instance_enqueue : String → Call
  instance_list : String → Call
  instance_create instance_update instance_update_status : Instance → Call
  instance_enqueue_after node_enqueue_after : String → ℤ → Call
  node_get node_delete : String → Call
  node_list : String → Call
  pool_update_status : InstancePool → Call
  secret_get service_get : String → String → Call
  now : Call
  rand_intn : ℕ → Call
  rand_seed : ℤ → Call

-- An update returns the server's object, and the program returns it with the error too.
abbrev pub Reply : Call → Type 0
Reply (Call.device_create m r) = Result Device
Reply (Call.device_get m id) = Result Device
Reply (Call.device_list m project) = Result (List Device)
Reply (Call.device_delete m id force) = Option Error
Reply (Call.device_update m id r) = Option Error
Reply (Call.device_reinstall m id r) = Option Error
Reply (Call.port_assign m port vlan) = Option Error
Reply (Call.port_bond m port bulk) = Option Error
Reply (Call.port_disbond m port bulk) = Option Error
Reply (Call.port_to_layer_two m port) = Option Error
Reply (Call.port_to_layer_three m port rs) = Option Error
Reply (Call.instance_get name) = Result Instance
Reply (Call.instance_delete name) = Option Error
Reply (Call.instance_enqueue name) = Unit
Reply (Call.instance_list selector) = Result (List Instance)
Reply (Call.instance_create i) = Option Error
Reply (Call.instance_update i) = Instance × Option Error
Reply (Call.instance_update_status i) = Instance × Option Error
Reply (Call.instance_enqueue_after name d) = Unit
Reply (Call.node_enqueue_after name d) = Unit
Reply (Call.node_get name) = Result Node
Reply (Call.node_delete name) = Option Error
Reply (Call.node_list selector) = Result (List Node)
Reply (Call.pool_update_status p) = InstancePool × Option Error
Reply (Call.secret_get namespace name) = Result StringMap
Reply (Call.service_get namespace name) = Result Service
Reply Call.now = ℤ
Reply (Call.rand_intn n) = ℕ
Reply (Call.rand_seed t) = Unit

-- The environment: `W` is the state of everything outside, of which the program knows nothing.
pub record Services (W : Type 0) : Type 0 where
  pub perform : (c : Call) → W → Reply c × W
  pub is_not_found : Error → Bool
  pub errors_wrap : Option Error → String → Option Error
  pub lookup_env : String → Option String
  pub read_file : String → Result String
  pub yaml_marshal : HarvesterConfig → Result String
  pub yaml_unmarshal : String → Result HarvesterConfig
  pub yaml_unmarshal_map : String → Result (List (String × YamlValue))
  pub mergo_merge : HarvesterConfig → HarvesterConfig → Result HarvesterConfig
  pub as_approximate_float64 : String → ℕ
  pub get_port_by_name : Device → String → Result Port
  pub get_bond_ports : Device → List (String × Port)
  pub get_physical_ports : Device → List (String × Port)
  pub get_network_info : Device → NetworkInfo
