-- ===== src/Api.antt =====
-- The custom resources: pkg/apis/equinix.harvesterhci.io/v1/instance.go and instancepool.go, with the
-- object metadata of Kubernetes that the program reads and writes. A map that the program tests for
-- nil is an `Option`; a `resource.Quantity` is kept as its text, and a time or a duration as an
-- integer of nanoseconds.
use harvester_equinix_addon.Prelude.{String, Bool, Option, List, ◌||◌}
use harvester_equinix_addon.Prelude.Int.{ℤ}
use harvester_equinix_addon.Prelude.Text.{◌==◌}

abbrev pub StringMap : Type 0
StringMap = List (String × String)

pub record OwnerReference : Type 0 where
  pub api_version : String
  pub kind : String
  pub name : String
  pub uid : String

pub record ObjectMeta : Type 0 where
  pub name : String
  pub uid : String
  pub deletion_timestamp : Option ℤ
  pub finalizers : List String
  pub labels : StringMap
  pub annotations : StringMap
  pub owner_references : List OwnerReference

pub record InterfaceConfiguration : Type 0 where
  pub name : String
  pub vlan_ids : List String

pub record NetworkingConfiguration : Type 0 where
  pub kind : String
  pub interfaces : List InterfaceConfiguration

unfoldable pub is_empty : NetworkingConfiguration → Bool
is_empty n = n.kind == ""

unfoldable pub is_valid_type : NetworkingConfiguration → Bool
is_valid_type n =
    n.kind == "layer2-bonded"
    || n.kind == "layer2-individual"
    || n.kind == "layer3"
    || n.kind == "hybrid"
    || n.kind == "hybrid-bonded"

pub record InstanceSpec : Type 0 where
  pub plan : String
  pub facility : List String
  pub metro : String
  pub os : String
  pub billing_cycle : String
  pub project_id : String
  pub user_data : String
  pub tags : List String
  pub description : String
  pub ipxe_script_url : String
  pub public_ipv4_subnet_size : ℤ
  pub always_pxe : Bool
  pub hardware_reservation_id : String
  pub spot_instance : Bool
  pub spot_price_max : String
  pub custom_data : String
  pub user_ssh_keys : List String
  pub project_ssh_keys : List String
  pub features : StringMap
  pub no_ssh_keys : Bool
  pub node_cleanup_wait_interval : Option ℤ
  pub management_interfaces : List String
  pub management_bonding_options : Option StringMap
  pub networking_configuration : NetworkingConfiguration

pub record InstanceStatus : Type 0 where
  pub status : String
  pub instance_id : String
  pub public_ip : String
  pub private_ip : String

pub record Instance : Type 0 where
  pub meta : ObjectMeta
  pub spec : InstanceSpec
  pub status : InstanceStatus

pub record InstancePoolSpec : Type 0 where
  pub count : ℤ
  pub billing_cycle : String
  pub spot_instance : Bool
  pub spot_price_max : String
  pub custom_data : String
  pub user_ssh_keys : List String
  pub project_ssh_keys : List String
  pub features : StringMap
  pub no_ssh_keys : Bool
  pub management_interfaces : List String
  pub management_bonding_options : Option StringMap
  pub ipxe_script_url : String
  pub iso_url : String
  pub plan : String
  pub metro : String
  pub facility : List String
  pub node_cleanup_wait_interval : Option ℤ
  pub networking_configuration : NetworkingConfiguration

pub record InstancePoolStatus : Type 0 where
  pub status : String
  pub ready : ℤ
  pub requested : ℤ
  pub needed : ℤ
  pub token : String

pub record InstancePool : Type 0 where
  pub meta : ObjectMeta
  pub spec : InstancePoolSpec
  pub status : InstancePoolStatus
