-- ===== src/Controllers.antt =====
-- pkg/controllers/controllers.go with the `Register` functions of the two controllers: which handler
-- runs for which event, and the histories of the program.
pub mod Justified
pub mod Steps
pub mod Mutex
pub mod Trail
use harvester_equinix_addon.Prelude.{String, Option}
use harvester_equinix_addon.Api.{Instance, InstancePool}
use harvester_equinix_addon.Services.{Services, Node, State}
use harvester_equinix_addon.InstanceController.Lifecycle.{on_instance_change}
use harvester_equinix_addon.InstanceController.Removal.{on_instance_remove}
use harvester_equinix_addon.InstanceController.Nodes.{resolve_node}
use harvester_equinix_addon.PoolController.Dispatch.{wrapper}

-- What the work queues hand to a handler; the object may be nil. The watch that maps an instance to
-- its pool makes no call, and is in `PoolController.Dispatch`.
pub data Event : Type 0 where
  node_change : Option Node → Event
  instance_change : String → Option Instance → Event
  instance_remove : Option Instance → Event
  pool_change : Option InstancePool → Event

module _ {W : Type 0} (env : Services W) where
  -- The state after the handler that is registered for the event.
  unfoldable pub handle : Event → State W → State W
  handle (Event.node_change node) s = (resolve_node env node s).1
  handle (Event.instance_change key i) s = (on_instance_change env key i s).1
  handle (Event.instance_remove i) s = (on_instance_remove env i s).1
  handle (Event.pool_change ip) s = (wrapper env ip s).1

  -- A history from `s`: handlers run one after the other, on whatever objects the queues hand them,
  -- and between them anything may change outside.
  pub data History (s : State W) : State W → Type 0 where
    start : History s s
    handled : {t : State W} → History s t → (e : Event) → History s (handle e t)
    elsewhere : {t : State W} → History s t → (w : W) → History s (record t { world = w })
