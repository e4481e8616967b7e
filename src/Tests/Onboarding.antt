-- ===== src/Tests/Onboarding.antt =====
-- The theorem on a new instance, at services that let it through.
use harvester_equinix_addon.Prelude.{◌≡◌, refl, none, some, inl, [], ◌∷◌}
use harvester_equinix_addon.Api.{Instance}
use harvester_equinix_addon.Harvester.Copy.{new_harvester_config}
use harvester_equinix_addon.Services.{Services, Device, ok, Call, Reply, returned, perform_all}
use harvester_equinix_addon.Metal.CloudInit.{with_management}
use harvester_equinix_addon.InstanceController.Lifecycle.{finalizer}
use harvester_equinix_addon.InstanceController.Onboarding.{LetsThrough, Networked}
use harvester_equinix_addon.InstanceController.Onboarding.Managed.{
  changes, onboarding_calls, onboarded,
}
use harvester_equinix_addon.Tests.Data.{
  instance_in, port, device, sick_node, services, replies, start_state,
}

-- A device is queued when it has been made, and active when it is read.
abbrev queued_device : Device
queued_device = record device { state = "queued" }

abbrev queued_replies : (c : Call) → Unit {0} → Reply c × Unit {0}
queued_replies (Call.device_create m r) w = (ok queued_device, w)
queued_replies c w = replies c w

abbrev queue : Services (Unit {0})
queue = record services { perform = queued_replies }

abbrev new_instance : Instance
new_instance = instance_in ""

abbrev open_way : LetsThrough queue new_instance
unfolding with_management
open_way = record {
  device = queued_device;
  creates = λ r w. refl;
  accepted = inl refl;
  active = device;
  gets = λ w. refl;
  is_active = refl;
  ports = record {
    bonds = λ id bulk w. refl;
    disbonds = λ id bulk w. refl;
    to_two = λ id w. refl;
    to_three = λ id rs w. refl;
    assigns = λ id vlan w. refl;
  };
  port_named = port;
  has_interfaces = tt;
  has_management = (refl, tt);
  network_calls = [];
  networks = Networked.plain refl;
  config = new_harvester_config;
  parses = refl;
  print = "";
  prints = refl;
  updates = λ id r w. refl;
  reinstalls = λ id r w. refl;
  writes_status = λ j w. refl;
  writes = λ j w. refl;
  node = sick_node;
  joins = λ w. refl;
}

onboarded_example : changes queue "node-1" 4 new_instance start_state ≡ (
  returned (
    some (record new_instance {
      meta = record (new_instance.meta) { finalizers = finalizer ∷ [] };
      status = record {
        status = "managed";
        instance_id = "d1";
        public_ip = "1.1.1.1";
        private_ip = "10.0.0.1";
      };
    }),
    none,
  ),
  perform_all queue (onboarding_calls queue "node-1" new_instance open_way) start_state,
)
unfolding open_way
onboarded_example = onboarded queue "node-1" new_instance open_way start_state refl refl
