-- ===== src/Generated/Handlers.antt =====
-- pkg/generated/controllers/equinix.harvesterhci.io/v1, `From…HandlerToHandler` and `Updater`: handlers
-- for one type as handlers for objects of any type.
pub mod Adapted
use harvester_equinix_addon.Prelude.{String, Option, none, some}
use harvester_equinix_addon.Services.{Error, Exit, returned, panicked, waiting}
use harvester_equinix_addon.Generated.Objects.{Stored, RuntimeObject, Answer, Resource}

-- `InstanceHandler`, `generic.Handler` and `generic.Updater`. A call of the latter two may panic.
abbrev pub TypedHandler : Type 0 → Type 0 → Type 0
TypedHandler O W = String → Option (Stored O) → W → Answer (Option (Stored O)) × W

abbrev pub GenericHandler : Type 0 → Type 0
GenericHandler W = String → RuntimeObject → W → Exit (Answer RuntimeObject × W)

abbrev pub Updater : Type 0 → Type 0
Updater W = RuntimeObject → W → Exit (Answer RuntimeObject × W)

module _ {O T W : Type 0} (r : Resource O T) where
  -- A pointer that is nil becomes the interface that is nil.
  unfoldable pub without_nil : Answer (Option (Stored O)) × W → Answer RuntimeObject × W
  without_nil ((none, err), w) = ((RuntimeObject.nil_object, err), w)
  without_nil ((some v, err), w) = ((r.as_object (some v), err), w)

  -- `obj.(*v1.Instance)` as an argument.
  unfoldable pub with_asserted :
      (Option (Stored O) → W → Answer (Option (Stored O)) × W)
      → Exit (Option (Stored O))
      → W
      → Exit (Answer RuntimeObject × W)
  unfolding without_nil
  with_asserted f (returned v) w = returned (without_nil (f v w))
  with_asserted f panicked w = panicked
  with_asserted f waiting w = waiting

  unfoldable pub from_handler : TypedHandler O W → GenericHandler W
  unfolding with_asserted
  from_handler sync key RuntimeObject.nil_object w = returned (without_nil (sync key none w))
  from_handler sync key obj w = with_asserted (sync key) (r.assert obj) w

  unfoldable pub updater : (Option (Stored O) → W → Answer (Option (Stored O)) × W) → Updater W
  unfolding with_asserted
  updater update obj w = with_asserted update (r.assert obj) w
