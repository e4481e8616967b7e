-- ===== src/Tests/Instances.antt =====
-- The theorems on pkg/controllers/instance/instance.go and pkg/util/util.go at concrete instances.
use harvester_equinix_addon.Prelude.{String, ◌≡◌, refl, ◌≢◌, true, false, none, some, [], ◌∷◌}
use harvester_equinix_addon.Prelude.{arith}
use harvester_equinix_addon.Api.{Instance}
use harvester_equinix_addon.Services.{
  Services, Error, remote, err, Call, Reply, State, OnlyFunc, returned, statements,
}
use harvester_equinix_addon.Util.{contains_finalizer, remove_finalizer, rand_string_runes}
use harvester_equinix_addon.Util.Finalizers.{is_nonempty, remove-contains}
use harvester_equinix_addon.Metal.Devices.{delete_device}
use harvester_equinix_addon.InstanceController.Lifecycle.{
  finalizer, set_finalizers, submit_request, on_instance_change,
}
use harvester_equinix_addon.InstanceController.Lifecycle.Creation.{
  with_device, creation, submit_request_lem,
}
use harvester_equinix_addon.Util.Letters.{SpeltOut, rand_string_runes-SpeltOut}
use harvester_equinix_addon.InstanceController.Lifecycle.Transitions.{Allowed, change-Allowed}
use harvester_equinix_addon.InstanceController.Removal.{
  removal_client, find_and_delete_node, on_instance_remove,
}
use harvester_equinix_addon.InstanceController.Removal.Finalizer.{
  failed_cleanup, clean_up-updates, lone_finalizer_stays,
}
use harvester_equinix_addon.Tests.Data.{
  instance_in, with_finalizers, device, services, start_state, replies,
}

abbrev key_a : String
key_a = "a"

abbrev key_b : String
key_b = "b"

remove-contains_example :
    (contains_finalizer (remove_finalizer (key_a ∷ key_b ∷ []) key_a).0 key_a ≡ false)
    × (key_b ≢ key_a
        → contains_finalizer (remove_finalizer (key_a ∷ key_b ∷ []) key_a).0 key_b
          ≡ contains_finalizer (key_a ∷ key_b ∷ []) key_b)
remove-contains_example = remove-contains (key_a ∷ key_b ∷ []) key_a key_b

change-Allowed_example :
    OnlyFunc
      (Allowed (instance_in "submitted"))
      (on_instance_change services "node-1" (some (instance_in "submitted")))
change-Allowed_example = change-Allowed services "node-1" (instance_in "submitted")

abbrev finalized : Instance
finalized = with_finalizers (finalizer ∷ "other" ∷ []) (instance_in "managed")

abbrev device_gone : State (Unit {0})
device_gone = (delete_device services (removal_client finalized) finalized start_state).1

abbrev node_gone : State (Unit {0})
node_gone = (find_and_delete_node services finalized device_gone).1

device_goes :
    delete_device services (removal_client finalized) finalized start_state
    ≡ (returned none, device_gone)
unfolding delete_device statements
device_goes = refl

node_goes : find_and_delete_node services finalized device_gone ≡ (returned none, node_gone)
unfolding find_and_delete_node statements
node_goes = refl

abbrev refused : Error
refused = remote "refused"

holds_finalizer : contains_finalizer (finalizer ∷ "other" ∷ []) finalizer ≡ true
unfolding contains_finalizer
holds_finalizer = refl

abbrev listless_replies : (c : Call) → Unit {0} → Reply c × Unit {0}
listless_replies (Call.device_list m project) w = (err refused, w)
listless_replies c w = replies c w

-- The services when the devices cannot be listed.
abbrev listless : Services (Unit {0})
listless = record services { perform = listless_replies }

abbrev listing_refused : State (Unit {0})
listing_refused = (delete_device listless (removal_client finalized) finalized start_state).1

listing_fails :
    delete_device listless (removal_client finalized) finalized start_state
    ≡ (returned (some refused), listing_refused)
unfolding delete_device statements
listing_fails = refl

failed_cleanup_example :
    on_instance_remove listless (some finalized) start_state
    ≡ (returned (some finalized, some refused), listing_refused)
failed_cleanup_example =
    (failed_cleanup listless finalized refl holds_finalizer start_state listing_refused refused).0
      listing_fails

keeps_other : is_nonempty (remove_finalizer finalized.meta.finalizers finalizer).0 ≡ true
unfolding remove_finalizer
keeps_other = refl

clean_up-updates_example :
    (j : Instance) × (contains_finalizer j.meta.finalizers finalizer ≡ false)
    × ((other : String)
        → other ≢ finalizer
        → contains_finalizer j.meta.finalizers other
          ≡ contains_finalizer finalized.meta.finalizers other)
    × ((on_instance_remove services (some finalized) start_state).1.calls
        ≡ Call.instance_update j ∷ node_gone.calls)
    × ((on_instance_remove services (some finalized) start_state).0 ≡ returned (some j, none))
clean_up-updates_example =
    clean_up-updates services finalized refl holds_finalizer start_state device_gone node_gone
      device_goes node_goes keeps_other

abbrev solely_finalized : Instance
solely_finalized = with_finalizers (finalizer ∷ []) (instance_in "managed")

holds_sole : contains_finalizer solely_finalized.meta.finalizers finalizer ≡ true
unfolding contains_finalizer
holds_sole = refl

abbrev sole_device_gone : State (Unit {0})
sole_device_gone =
    (delete_device services (removal_client solely_finalized) solely_finalized start_state).1

abbrev sole_node_gone : State (Unit {0})
sole_node_gone = (find_and_delete_node services solely_finalized sole_device_gone).1

sole_device_goes :
    delete_device services (removal_client solely_finalized) solely_finalized start_state
    ≡ (returned none, sole_device_gone)
unfolding delete_device statements
sole_device_goes = refl

sole_node_goes :
    find_and_delete_node services solely_finalized sole_device_gone
    ≡ (returned none, sole_node_gone)
unfolding find_and_delete_node statements
sole_node_goes = refl

lone_finalizer_stays_example :
    on_instance_remove services (some solely_finalized) start_state
    ≡ (returned (some solely_finalized, none), sole_node_gone)
lone_finalizer_stays_example =
    lone_finalizer_stays services solely_finalized refl holds_sole start_state sole_device_gone
      sole_node_gone sole_device_goes sole_node_goes (refl, tt)

abbrev new_instance : Instance
new_instance = instance_in ""

submit_request_lem_example :
    ((submit_request services new_instance start_state).0
      ≡ returned (
        set_finalizers (finalizer ∷ []) (with_device services new_instance start_state device),
        none,
      ))
    × ((submit_request services new_instance start_state).1.calls
        ≡ Call.instance_update
            (set_finalizers (finalizer ∷ []) (with_device services new_instance start_state device))
          ∷ Call.instance_update_status (with_device services new_instance start_state device)
          ∷ creation services new_instance start_state
          ∷ [])
submit_request_lem_example =
    (submit_request_lem services new_instance start_state).2 device
      (with_device services new_instance start_state device) refl refl

rand_string_runes-SpeltOut_example : SpeltOut 8 (rand_string_runes services 8 start_state)
rand_string_runes-SpeltOut_example =
    rand_string_runes-SpeltOut services (λ w. omega arith) 8 start_state
