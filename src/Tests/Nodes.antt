-- ===== src/Tests/Nodes.antt =====
-- The theorems on `ResolveNode` of pkg/controllers/instance/instance.go at a concrete node.
use harvester_equinix_addon.Prelude.{refl, ◌≢◌, some}
use harvester_equinix_addon.Api.{Instance}
use harvester_equinix_addon.InstanceController.Nodes.{resolve_node}
use harvester_equinix_addon.InstanceController.Nodes.Resolved.{Resolved, resolve_node-Resolved}
use harvester_equinix_addon.Tests.Data.{instance_in, sick_node, services, start_state}

abbrev managed : Instance
managed = instance_in "managed"

named : managed.meta.name ≢ ""
named h = cc

resolve_node-Resolved_example :
    let (r, t) = resolve_node services (some sick_node) start_state in
    Resolved services sick_node start_state "node-1" r t.calls
resolve_node-Resolved_example =
    resolve_node-Resolved services sick_node start_state managed refl refl named
