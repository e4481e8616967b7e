-- ===== src/Tests/Generated.antt =====
-- The generated handlers with concrete libraries, on a concrete object.
use harvester_equinix_addon.Prelude.{
  ℕ, ◌+◌, String, Bool, ◌≡◌, refl, Option, none, some, List, [], ◌∷◌, ◌++◌, false, arith,
}
use harvester_equinix_addon.Prelude.Text.{◌==◌}
use harvester_equinix_addon.Api.{Instance, InstanceStatus}
use harvester_equinix_addon.Services.{remote}
use harvester_equinix_addon.Copies.Statuses.{zero_type_meta}
use harvester_equinix_addon.Generated.Objects.{Stored, RuntimeObject, Answer}
use harvester_equinix_addon.Generated.Resources.{instance_resource}
use harvester_equinix_addon.Generated.Handlers.{TypedHandler, from_handler}
use harvester_equinix_addon.Generated.Handlers.Adapted.{Adapted, from_handler-Adapted}
use harvester_equinix_addon.Generated.Status.{
  Statuses, StatusHandler, with_status, new_status, sync,
}
use harvester_equinix_addon.Generated.Status.Failed.{sync_failed}
use harvester_equinix_addon.Generated.Status.Settled.{sync_settles}
use harvester_equinix_addon.Generated.Generating.{Applier, GeneratingHandler, handle}
use harvester_equinix_addon.Generated.Generating.Applied.{Applied, sync_handle-Applied}
use harvester_equinix_addon.Generated.Changes.{ChangeHandler, update_deep_copy_on_change}
use harvester_equinix_addon.Copies.Cells.{Address}
use harvester_equinix_addon.Copies.Memory.{put}
use harvester_equinix_addon.Copies.Copier.{Copier}
use harvester_equinix_addon.Copies.Rules.{value, value-IsDeep}
use harvester_equinix_addon.Copies.Box.{box, box-IsDeep}
use harvester_equinix_addon.Copies.Apart.{Writes}
use harvester_equinix_addon.Generated.Changes.Pointers.{
  Refines, update_in_memory, update_in_memory-Refines,
}
use harvester_equinix_addon.Tests.Data.{instance_in, status_of as status_in}

abbrev stored : String → Stored Instance
stored status = record {
  type_meta = zero_type_meta;
  namespace = "";
  resource_version = "1";
  object = instance_in status;
}

-- The condition is kept in the address, and its time in the private one. The world counts the updates.
abbrev statuses : Statuses InstanceStatus ℕ
statuses = record {
  set_error = λ c s reason err. record s { public_ip = c };
  last_updated = λ c s time. record s { private_ip = time };
  deep_equal = λ s t. s.status == t.status;
  is_conflict = λ err. false;
  now = λ w. "noon";
}

abbrev update : Option (Stored Instance) → ℕ → Answer (Option (Stored Instance)) × ℕ
update obj w = ((obj, none), w + 1)

-- A handler that makes every status "managed".
abbrev manages : StatusHandler Instance InstanceStatus ℕ
manages obj status w = (((record status { status = "managed" }, none), obj), w)

abbrev settled_status : InstanceStatus
settled_status = record (status_in "created") {
  status = "managed";
  public_ip = "Ready";
  private_ip = "noon";
}

abbrev settled : Stored Instance
settled = with_status instance_resource settled_status (stored "created")

sync_settles_example :
    (sync instance_resource statuses "Ready" update manages "a" (some (stored "created")) 0
      ≡ ((some settled, none), 1))
    × (sync instance_resource statuses "Ready" update manages "b" (some settled) 1
        ≡ ((some settled, none), 1))
unfolding new_status
sync_settles_example =
    sync_settles instance_resource statuses "Ready" update manages "a" "b" (stored "created")
      (stored "created") settled 0 0 1 refl refl refl refl refl refl (λ u time. refl)

abbrev fails : String → StatusHandler Instance InstanceStatus ℕ
fails s obj status w = (((status_in s, some (remote "down")), obj), w)

sync_failed_example :
    ((sync instance_resource statuses "Ready" update
        (fails "x")
        "a"
        (some (stored "created"))
        0).0.1
      ≡ some (remote "down"))
    × (sync instance_resource statuses "Ready" update (fails "x") "a" (some (stored "created")) 0
        ≡ sync instance_resource statuses "Ready" update
            (fails "y")
            "a"
            (some (stored "created"))
            0)
sync_failed_example =
    sync_failed instance_resource statuses "Ready" update (fails "x") (stored "created")
      (stored "created") 0 0 refl (fails "y") "a" refl

-- What is applied succeeds, and counts as an update.
abbrev applier : Applier Instance (Unit {0}) ℕ
applier = record {
  apply = λ call w. (none, w + 1);
  no_options = tt;
  r_split = λ key by. ("", key);
  to_api_version = λ gvk. gvk.version;
}

abbrev generates : GeneratingHandler Instance InstanceStatus ℕ
generates obj status w = ((([], (record status { status = "managed" }, none)), obj), w)

sync_handle-Applied_example :
    Applied instance_resource statuses applier "objects" tt update generates (stored "created") 0 (
      sync instance_resource statuses "" update
        (handle instance_resource applier "objects" tt generates)
        "a"
        (some (stored "created"))
        0)
sync_handle-Applied_example =
    sync_handle-Applied instance_resource statuses applier "objects" tt update generates
      (stored "created") 0 refl "a"

abbrev same_status : Stored Instance → Stored Instance → Bool
same_status a b = a.object.status.status == b.object.status.status

-- It changes the copy in its place, and fails.
abbrev changes : ChangeHandler Instance ℕ
changes obj w = (((none, some (remote "down")), stored "managed"), w)

-- Memory of instances alone, with one at the address 0.
abbrev cells : Copier (Stored Instance) Address (Option (Stored Instance))
cells = box value (λ o. o) (λ o. some o) (λ o. o)

-- A handler that changes the copy, which is at 1.
abbrev changes_in_memory :
    Address → List (Stored Instance) × ℕ → Answer Address × (List (Stored Instance) × ℕ)
changes_in_memory p (h, w) = ((none, some (remote "down")), (put 1 (stored "managed") h, w))

abbrev update_in_place :
    Address → List (Stored Instance) × ℕ → Answer Address × (List (Stored Instance) × ℕ)
update_in_place p (h, w) = ((some 2, none), (h ++ stored "managed" ∷ [], w + 1))

abbrev one_instance : List (Stored Instance)
one_instance = stored "created" ∷ []

abbrev copy_changed : List (Stored Instance)
copy_changed = put 1 (stored "managed") (cells.copy (some 0) one_instance).1

update_in_memory-Refines_example :
    Refines same_status cells update_in_place 0
      (stored "created")
      (update_in_memory same_status cells update_in_place
        (some 0)
        changes_in_memory
        (one_instance, 0))
      (update_deep_copy_on_change same_status update (some (stored "created")) changes 0)
update_in_memory-Refines_example =
    update_in_memory-Refines same_status cells update_in_place
      (box-IsDeep value (λ o. o) (λ o. some o) (λ o. o) value-IsDeep (λ o. refl)) update
      changes_in_memory changes 0 one_instance copy_changed (copy_changed ++ stored "managed" ∷ [])
      0 0 1 refl refl (Writes.write 1 (stored "managed") (omega arith) Writes.done) refl refl refl
      (Writes.allocate (stored "managed") Writes.done) refl refl

abbrev forgets : TypedHandler Instance ℕ
forgets key obj w = ((none, none), w + 1)

from_handler-Adapted_example :
    Adapted forgets "a" 0 (RuntimeObject.instance (some (stored "created"))) (
      from_handler instance_resource forgets "a"
        (RuntimeObject.instance (some (stored "created")))
        0)
from_handler-Adapted_example =
    from_handler-Adapted forgets "a" 0 (RuntimeObject.instance (some (stored "created")))
