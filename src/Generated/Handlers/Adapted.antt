-- ===== src/Generated/Handlers/Adapted.antt =====
-- What a handler of instances is as a handler of objects of any type.
use harvester_equinix_addon.Prelude.{String, Option, none, some, ◌≡◌, refl}
use harvester_equinix_addon.Api.{Instance, InstancePool}
use harvester_equinix_addon.Services.{Error, Exit, returned, panicked}
use harvester_equinix_addon.Generated.Objects.{Stored, RuntimeObject, Answer}
use harvester_equinix_addon.Generated.Handlers.{
  TypedHandler, without_nil, with_asserted, from_handler,
}
use harvester_equinix_addon.Generated.Resources.{instance_resource}

-- The interface for a pointer: nil for nil, never a pointer that is nil.
abbrev pub object_of : Option (Stored Instance) → RuntimeObject
object_of none = RuntimeObject.nil_object
object_of (some i) = RuntimeObject.instance (some i)

module _ {W : Type 0} (sync : TypedHandler Instance W) (key : String) (w : W) where
  -- How the handler ends on an object.
  pub data Adapted : RuntimeObject → Exit (Answer RuntimeObject × W) → Type 0 where
    -- The nil interface: it has run on the nil pointer.
    absent :
        {v : Option (Stored Instance)} {err : Option Error} {w1 : W}
        → sync key none w ≡ ((v, err), w1)
        → Adapted RuntimeObject.nil_object (returned ((object_of v, err), w1))
    -- A pointer to an instance, which may be nil: it has run on that.
    present :
        {p v : Option (Stored Instance)} {err : Option Error} {w1 : W}
        → sync key p w ≡ ((v, err), w1)
        → Adapted (RuntimeObject.instance p) (returned ((object_of v, err), w1))
    -- An object of another type: it has not run.
    pool : {p : Option (Stored InstancePool)} → Adapted (RuntimeObject.instance_pool p) panicked
    foreign : {t : String} → Adapted (RuntimeObject.foreign t) panicked

  absent-Adapted :
      (a : Answer (Option (Stored Instance)) × W)
      → sync key none w ≡ a
      → Adapted RuntimeObject.nil_object (returned (without_nil instance_resource a))
  unfolding without_nil
  absent-Adapted ((none, err), w1) k = Adapted.absent k
  absent-Adapted ((some i, err), w1) k = Adapted.absent k

  present-Adapted :
      (p : Option (Stored Instance)) (a : Answer (Option (Stored Instance)) × W)
      → sync key p w ≡ a
      → Adapted (RuntimeObject.instance p) (returned (without_nil instance_resource a))
  unfolding without_nil
  present-Adapted p ((none, err), w1) k = Adapted.present k
  present-Adapted p ((some i, err), w1) k = Adapted.present k

  -- A handler of instances, as a handler of objects, runs on the nil pointer for the nil interface and
  -- on the pointer for a pointer to an instance, and panics before it runs for a pool or another
  -- object; what it returns is the nil interface for a nil pointer and the pointer otherwise, so that it
  -- is never an interface with a nil pointer in it.
  pub from_handler-Adapted :
      (obj : RuntimeObject) → Adapted obj (from_handler instance_resource sync key obj w)
  unfolding from_handler with_asserted
  from_handler-Adapted RuntimeObject.nil_object = absent-Adapted (sync key none w) refl
  from_handler-Adapted (RuntimeObject.instance p) = present-Adapted p (sync key p w) refl
  from_handler-Adapted (RuntimeObject.instance_pool p) = Adapted.pool
  from_handler-Adapted (RuntimeObject.foreign t) = Adapted.foreign
