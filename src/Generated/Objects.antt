-- ===== src/Generated/Objects.antt =====
-- The objects that pass through the generated controllers: as Kubernetes stores them, and as values of
-- the interface `runtime.Object`.
use harvester_equinix_addon.Prelude.{String, Bool, true, false, Option}
use harvester_equinix_addon.Api.{ObjectMeta, Instance, InstancePool}
use harvester_equinix_addon.Services.{Error, Exit}
use harvester_equinix_addon.Copies.Cells.{TypeMeta}
use harvester_equinix_addon.Copies.Statuses.{zero_type_meta}

-- An object with the metadata that only the generated code reads.
pub record Stored (O : Type 0) : Type 0 where
  pub type_meta : TypeMeta
  pub namespace : String
  pub resource_version : String
  pub object : O

-- What stands in a variable of type `runtime.Object`: nil, a pointer to one of the two types, which may
-- itself be nil, or a value of another type.
pub data RuntimeObject : Type 0 where
  nil_object : RuntimeObject
  instance : Option (Stored Instance) → RuntimeObject
  instance_pool : Option (Stored InstancePool) → RuntimeObject
  foreign : String → RuntimeObject

-- A result with Go's second result, an error that may be nil.
abbrev pub Answer : Type 0 → Type 0
Answer A = A × Option Error

-- What the code that is generated for a type `O` with the status `T` does with its values.
pub record Resource (O T : Type 0) : Type 0 where
  pub meta : O → ObjectMeta
  pub with_name : String → O → O
  pub status : O → T
  pub with_status : T → O → O
  -- `O{}`
  pub empty : O
  -- A pointer as an interface, and back: `obj.(*O)`, which panics for another type and for nil.
  pub as_object : Option (Stored O) → RuntimeObject
  pub assert : RuntimeObject → Exit (Option (Stored O))

abbrev pub zero_stored : {O T : Type 0} → Resource O T → Stored O
zero_stored r = record {
  type_meta = zero_type_meta;
  namespace = "";
  resource_version = "";
  object = r.empty;
}

unfoldable pub is_nil : RuntimeObject → Bool
is_nil RuntimeObject.nil_object = true
is_nil _ = false
