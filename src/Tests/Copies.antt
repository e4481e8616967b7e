-- ===== src/Tests/Copies.antt =====
-- Copies of concrete objects in a concrete memory.
use harvester_equinix_addon.Prelude.{
  String, false, ◌≡◌, refl, inl, Option, none, some, List, [], ◌∷◌, arith,
}
use harvester_equinix_addon.Prelude.Int.{pos}
use harvester_equinix_addon.Api.{ObjectMeta, Instance, InstancePool}
use harvester_equinix_addon.Copies.Cells.{Address, TypeMeta, Cell}
use harvester_equinix_addon.Copies.Memory.{put}
use harvester_equinix_addon.Copies.Copier.{Copier}
use harvester_equinix_addon.Copies.Slices.{look_map}
use harvester_equinix_addon.Copies.Rules.{value, value-IsDeep}
use harvester_equinix_addon.Copies.InstanceSpecs.{zero_instance_spec}
use harvester_equinix_addon.Copies.PoolSpecs.{zero_instance_pool_spec}
use harvester_equinix_addon.Copies.Statuses.{zero_instance_status, zero_instance_pool_status}
use harvester_equinix_addon.Copies.Apart.{Writes}
use harvester_equinix_addon.Copies.Instances.{instance_pointer}
use harvester_equinix_addon.Copies.Pools.{instance_pool_list_pointer}
use harvester_equinix_addon.Copies.Objects.{instance_copy-Apart, instance_pool_list_copy-Apart}
use harvester_equinix_addon.Tests.Data.{blank_meta, blank_network}

-- Memory in which the metadata of an object is one value, and that of a list nothing.
abbrev Place : Type 0
Place = Cell (Unit {0}) ObjectMeta (Unit {0})

abbrev kind_of : String → TypeMeta
kind_of kind = record { kind = kind; api_version = "equinix.harvesterhci.io/v1" }

-- An instance at the address 1, with its interfaces at 0.
abbrev memory : List Place
memory =
    Cell.strings ("eth0" ∷ [])
    ∷ Cell.instance (record {
      type_meta = kind_of "Instance";
      meta = blank_meta;
      spec = record zero_instance_spec { management_interfaces = some 0 };
      status = record zero_instance_status { status = "managed" };
    })
    ∷ []

abbrev pointer : Copier Place Address (Option (TypeMeta × Instance))
pointer = instance_pointer (λ q. q) blank_meta value tt value

abbrev seen : Option (TypeMeta × Instance)
seen = some (
  kind_of "Instance",
  record {
    meta = blank_meta;
    spec = record {
      plan = "";
      facility = [];
      metro = "";
      os = "";
      billing_cycle = "";
      project_id = "";
      user_data = "";
      tags = [];
      description = "";
      ipxe_script_url = "";
      public_ipv4_subnet_size = pos 0;
      always_pxe = false;
      hardware_reservation_id = "";
      spot_instance = false;
      spot_price_max = "";
      custom_data = "";
      user_ssh_keys = [];
      project_ssh_keys = [];
      features = [];
      no_ssh_keys = false;
      node_cleanup_wait_interval = none;
      management_interfaces = "eth0" ∷ [];
      management_bonding_options = none;
      networking_configuration = blank_network;
    };
    status = record zero_instance_status { status = "managed" };
  },
)

abbrev after : List Place
after = (pointer.copy (some 1) memory).1

-- The interfaces of the copy are at 3.
abbrev copy_changed : List Place
copy_changed = put 3 (Cell.strings ("eth1" ∷ [])) after

abbrev original_changed : List Place
original_changed = put 0 (Cell.strings []) after

instance_copy-Apart_example :
    (pointer.read copy_changed (some 1) ≡ some seen)
    × (pointer.read original_changed (pointer.copy (some 1) memory).0 ≡ some seen)
instance_copy-Apart_example =
    instance_copy-Apart (λ q. q) blank_meta value tt value (λ q. refl) value-IsDeep value-IsDeep
      (some 1) memory copy_changed original_changed refl
      (Writes.write 3 (Cell.strings ("eth1" ∷ [])) (omega arith) Writes.done)
      (Writes.write 0 (Cell.strings []) (inl (omega arith)) Writes.done)

-- A list at the address 2, whose one pool is at 1, with its features at 0.
abbrev pools : List Place
pools =
    Cell.string_map (("tpm", "required") ∷ [])
    ∷ Cell.instance_pools (
        record {
          type_meta = kind_of "InstancePool";
          meta = blank_meta;
          spec = record zero_instance_pool_spec { features = some 0 };
          status = zero_instance_pool_status;
        }
        ∷ [])
    ∷ Cell.instance_pool_list
        (record { type_meta = kind_of "InstancePoolList"; meta = tt; items = some 1 })
    ∷ []

abbrev list_pointer :
    Copier Place Address (Option (TypeMeta × (Unit {0} × List (TypeMeta × InstancePool))))
list_pointer = instance_pool_list_pointer (λ q. q) blank_meta value tt value

abbrev pools_seen : Option (TypeMeta × (Unit {0} × List (TypeMeta × InstancePool)))
pools_seen = some (
  kind_of "InstancePoolList",
  (
    tt,
    (
      kind_of "InstancePool",
      record {
        meta = blank_meta;
        spec = record {
          count = pos 0;
          billing_cycle = "";
          spot_instance = false;
          spot_price_max = "";
          custom_data = "";
          user_ssh_keys = [];
          project_ssh_keys = [];
          features = ("tpm", "required") ∷ [];
          no_ssh_keys = false;
          management_interfaces = [];
          management_bonding_options = none;
          ipxe_script_url = "";
          iso_url = "";
          plan = "";
          metro = "";
          facility = [];
          node_cleanup_wait_interval = none;
          networking_configuration = blank_network;
        };
        status = zero_instance_pool_status;
      },
    )
        ∷ [],
  ),
)

abbrev pools_after : List Place
pools_after = (list_pointer.copy (some 2) pools).1

-- The features of the copy are at 5.
abbrev pools_copy_changed : List Place
pools_copy_changed = put 5 (Cell.string_map []) pools_after

abbrev pools_changed : List Place
pools_changed = put 0 (Cell.string_map []) pools_after

instance_pool_list_copy-Apart_example :
    (list_pointer.read pools_copy_changed (some 2) ≡ some pools_seen)
    × (list_pointer.read pools_changed (list_pointer.copy (some 2) pools).0 ≡ some pools_seen)
unfolding look_map
instance_pool_list_copy-Apart_example =
    instance_pool_list_copy-Apart (λ q. q) blank_meta value tt value (λ q. refl) value-IsDeep
      value-IsDeep (some 2) pools pools_copy_changed pools_changed refl
      (Writes.write 5 (Cell.string_map []) (omega arith) Writes.done)
      (Writes.write 0 (Cell.string_map []) (inl (omega arith)) Writes.done)
