-- ===== src/Tests/Histories.antt =====
-- The theorems on histories at three events, with a change outside between them.
use harvester_equinix_addon.Prelude.{some}
use harvester_equinix_addon.Prelude.Int.{pos}
use harvester_equinix_addon.Services.{State}
use harvester_equinix_addon.Controllers.{Event, handle, History}
use harvester_equinix_addon.Controllers.Mutex.{Balance, demanded, history-Balance}
use harvester_equinix_addon.Controllers.Trail.{Trail, history_justified}
use harvester_equinix_addon.Tests.Data.{instance_in, pool, pool_status, services, start_state}

-- A pool that is to submit two instances, then a new instance.
abbrev submission : Event
submission = Event.pool_change (some (pool (pool_status "tokenReady" (pos 2) (pos 2))))

abbrev creation : Event
creation = Event.instance_change "node-1" (some (instance_in ""))

abbrev last_state : State (Unit {0})
last_state =
    handle services creation (record (handle services submission start_state) { world = tt })

abbrev two_events : History services start_state last_state
two_events =
    History.handled (History.elsewhere (History.handled History.start submission) tt) creation

history-Balance_example : Balance (demanded services two_events) start_state last_state
history-Balance_example = history-Balance services two_events

history_justified_example : Trail services two_events
history_justified_example = history_justified services two_events
