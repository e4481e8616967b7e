-- ===== src/Generated/Resources.antt =====
-- The two types that pkg/generated is generated for, and the constructors of zz_generated_list_types.go.
use harvester_equinix_addon.Prelude.{false, Option, none, []}
use harvester_equinix_addon.Prelude.Int.{pos}
use harvester_equinix_addon.Api.{
  ObjectMeta, NetworkingConfiguration, InstanceSpec, Instance, InstanceStatus, InstancePoolSpec,
  InstancePool, InstancePoolStatus,
}
use harvester_equinix_addon.Services.{Exit, returned, panicked}
use harvester_equinix_addon.Copies.Statuses.{zero_instance_status, zero_instance_pool_status}
use harvester_equinix_addon.Generated.Objects.{Stored, RuntimeObject, Resource}

abbrev zero_meta : ObjectMeta
zero_meta = record {
  name = "";
  uid = "";
  deletion_timestamp = none;
  finalizers = [];
  labels = [];
  annotations = [];
  owner_references = [];
}

abbrev zero_networking : NetworkingConfiguration
zero_networking = record { kind = ""; interfaces = [] }

abbrev zero_spec : InstanceSpec
zero_spec = record {
  plan = "";
  facility = [];
  metro = "";
  os = "";
  billing_cycle = "";
  project_id = "";
  user_data = "";
  tags = [];
  description = "";
  ipxe_script_url = "";
  public_ipv4_subnet_size = pos 0;
  always_pxe = false;
  hardware_reservation_id = "";
  spot_instance = false;
  spot_price_max = "";
  custom_data = "";
  user_ssh_keys = [];
  project_ssh_keys = [];
  features = [];
  no_ssh_keys = false;
  node_cleanup_wait_interval = none;
  management_interfaces = [];
  management_bonding_options = none;
  networking_configuration = zero_networking;
}

abbrev zero_pool_spec : InstancePoolSpec
zero_pool_spec = record {
  count = pos 0;
  billing_cycle = "";
  spot_instance = false;
  spot_price_max = "";
  custom_data = "";
  user_ssh_keys = [];
  project_ssh_keys = [];
  features = [];
  no_ssh_keys = false;
  management_interfaces = [];
  management_bonding_options = none;
  ipxe_script_url = "";
  iso_url = "";
  plan = "";
  metro = "";
  facility = [];
  node_cleanup_wait_interval = none;
  networking_configuration = zero_networking;
}

abbrev pub zero_instance : Instance
zero_instance = record { meta = zero_meta; spec = zero_spec; status = zero_instance_status }

abbrev pub zero_instance_pool : InstancePool
zero_instance_pool = record {
  meta = zero_meta;
  spec = zero_pool_spec;
  status = zero_instance_pool_status;
}

-- `obj.(*v1.Instance)`
abbrev pub assert_instance : RuntimeObject → Exit (Option (Stored Instance))
assert_instance (RuntimeObject.instance obj) = returned obj
assert_instance _ = panicked

abbrev pub assert_instance_pool : RuntimeObject → Exit (Option (Stored InstancePool))
assert_instance_pool (RuntimeObject.instance_pool obj) = returned obj
assert_instance_pool _ = panicked

abbrev pub instance_resource : Resource Instance InstanceStatus
instance_resource = record {
  meta = λ o. o.meta;
  with_name = λ name o. record o { meta = record (o.meta) { name = name } };
  status = λ o. o.status;
  with_status = λ status o. record o { status = status };
  empty = zero_instance;
  as_object = RuntimeObject.instance;
  assert = assert_instance;
}

abbrev pub instance_pool_resource : Resource InstancePool InstancePoolStatus
instance_pool_resource = record {
  meta = λ o. o.meta;
  with_name = λ name o. record o { meta = record (o.meta) { name = name } };
  status = λ o. o.status;
  with_status = λ status o. record o { status = status };
  empty = zero_instance_pool;
  as_object = RuntimeObject.instance_pool;
  assert = assert_instance_pool;
}
