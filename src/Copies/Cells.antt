-- ===== src/Copies/Cells.antt =====
-- The custom resources as they lie in memory: a slice, a map or a pointer is nil or an address. A slice
-- spans the whole of its array.
use harvester_equinix_addon.Prelude.{ℕ, String, Bool, Option, none, some, List}
use harvester_equinix_addon.Prelude.Int.{ℤ}
use harvester_equinix_addon.Api.{StringMap, InstanceStatus, InstancePoolStatus}

abbrev pub Address : Type 0
Address = Option ℕ

pub record InterfaceRef : Type 0 where
  pub name : String
  pub vlan_ids : Address

pub record NetworkingRef : Type 0 where
  pub kind : String
  pub interfaces : Address

pub record InstanceSpecRef : Type 0 where
  pub plan : String
  pub facility : Address
  pub metro : String
  pub os : String
  pub billing_cycle : String
  pub project_id : String
  pub user_data : String
  pub tags : Address
  pub description : String
  pub ipxe_script_url : String
  pub public_ipv4_subnet_size : ℤ
  pub always_pxe : Bool
  pub hardware_reservation_id : String
  pub spot_instance : Bool
  pub spot_price_max : String
  pub custom_data : String
  pub user_ssh_keys : Address
  pub project_ssh_keys : Address
  pub features : Address
  pub no_ssh_keys : Bool
  pub node_cleanup_wait_interval : Address
  pub management_interfaces : Address
  pub management_bonding_options : Address
  pub networking_configuration : NetworkingRef

pub record InstancePoolSpecRef : Type 0 where
  pub count : ℤ
  pub billing_cycle : String
  pub spot_instance : Bool
  pub spot_price_max : String
  pub custom_data : String
  pub user_ssh_keys : Address
  pub project_ssh_keys : Address
  pub features : Address
  pub no_ssh_keys : Bool
  pub management_interfaces : Address
  pub management_bonding_options : Address
  pub ipxe_script_url : String
  pub iso_url : String
  pub plan : String
  pub metro : String
  pub facility : Address
  pub node_cleanup_wait_interval : Address
  pub networking_configuration : NetworkingRef

pub record TypeMeta : Type 0 where
  pub kind : String
  pub api_version : String

-- An object: `M` is the metadata as Kubernetes lays them out, `S` the specification and `T` the status.
pub record ObjectRef (M S T : Type 0) : Type 0 where
  pub type_meta : TypeMeta
  pub meta : M
  pub spec : S
  pub status : T

-- A list of objects, with the metadata `N` of lists.
pub record ListRef (N : Type 0) : Type 0 where
  pub type_meta : TypeMeta
  pub meta : N
  pub items : Address

module _ (M : Type 0) where
  abbrev pub InstanceRef : Type 0
  InstanceRef = ObjectRef M InstanceSpecRef InstanceStatus

  abbrev pub InstancePoolRef : Type 0
  InstancePoolRef = ObjectRef M InstancePoolSpecRef InstancePoolStatus

-- What lies at an address: an array, a map, or what a pointer points to. `F` is what Kubernetes puts
-- into memory for its metadata.
pub data Cell (F M N : Type 0) : Type 0 where
  strings : List String → Cell F M N
  string_map : StringMap → Cell F M N
  duration : ℤ → Cell F M N
  interfaces : List InterfaceRef → Cell F M N
  instances : List (InstanceRef M) → Cell F M N
  instance_pools : List (InstancePoolRef M) → Cell F M N
  interface_configuration : InterfaceRef → Cell F M N
  networking_configuration : NetworkingRef → Cell F M N
  instance_spec : InstanceSpecRef → Cell F M N
  instance_status : InstanceStatus → Cell F M N
  instance : InstanceRef M → Cell F M N
  instance_list : ListRef N → Cell F M N
  instance_pool_spec : InstancePoolSpecRef → Cell F M N
  instance_pool_status : InstancePoolStatus → Cell F M N
  instance_pool : InstancePoolRef M → Cell F M N
  instance_pool_list : ListRef N → Cell F M N
  foreign : F → Cell F M N

module _ {F M N : Type 0} where
  abbrev pub open_strings : Cell F M N → Option (List String)
  open_strings (Cell.strings x) = some x
  open_strings _ = none

  abbrev pub open_string_map : Cell F M N → Option StringMap
  open_string_map (Cell.string_map x) = some x
  open_string_map _ = none

  abbrev pub open_duration : Cell F M N → Option ℤ
  open_duration (Cell.duration x) = some x
  open_duration _ = none

  abbrev pub open_interfaces : Cell F M N → Option (List InterfaceRef)
  open_interfaces (Cell.interfaces x) = some x
  open_interfaces _ = none

  abbrev pub open_instances : Cell F M N → Option (List (InstanceRef M))
  open_instances (Cell.instances x) = some x
  open_instances _ = none

  abbrev pub open_instance_pools : Cell F M N → Option (List (InstancePoolRef M))
  open_instance_pools (Cell.instance_pools x) = some x
  open_instance_pools _ = none

  abbrev pub open_interface_configuration : Cell F M N → Option InterfaceRef
  open_interface_configuration (Cell.interface_configuration x) = some x
  open_interface_configuration _ = none

  abbrev pub open_networking_configuration : Cell F M N → Option NetworkingRef
  open_networking_configuration (Cell.networking_configuration x) = some x
  open_networking_configuration _ = none

  abbrev pub open_instance_spec : Cell F M N → Option InstanceSpecRef
  open_instance_spec (Cell.instance_spec x) = some x
  open_instance_spec _ = none

  abbrev pub open_instance_status : Cell F M N → Option InstanceStatus
  open_instance_status (Cell.instance_status x) = some x
  open_instance_status _ = none

  abbrev pub open_instance : Cell F M N → Option (InstanceRef M)
  open_instance (Cell.instance x) = some x
  open_instance _ = none

  abbrev pub open_instance_list : Cell F M N → Option (ListRef N)
  open_instance_list (Cell.instance_list x) = some x
  open_instance_list _ = none

  abbrev pub open_instance_pool_spec : Cell F M N → Option InstancePoolSpecRef
  open_instance_pool_spec (Cell.instance_pool_spec x) = some x
  open_instance_pool_spec _ = none

  abbrev pub open_instance_pool_status : Cell F M N → Option InstancePoolStatus
  open_instance_pool_status (Cell.instance_pool_status x) = some x
  open_instance_pool_status _ = none

  abbrev pub open_instance_pool : Cell F M N → Option (InstancePoolRef M)
  open_instance_pool (Cell.instance_pool x) = some x
  open_instance_pool _ = none

  abbrev pub open_instance_pool_list : Cell F M N → Option (ListRef N)
  open_instance_pool_list (Cell.instance_pool_list x) = some x
  open_instance_pool_list _ = none
