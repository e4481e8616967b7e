-- ===== src/Generated/Changes.antt =====
-- pkg/generated/controllers/equinix.harvesterhci.io/v1, `Update…DeepCopyOnChange`.
pub mod Changed
pub mod Pointers
use harvester_equinix_addon.Prelude.{
  String, Bool, true, false, ◌&&◌, not, Option, none, some, List, if◌then◌else◌,
}
use harvester_equinix_addon.Prelude.Text.{◌==◌}
use harvester_equinix_addon.Services.{Error}
use harvester_equinix_addon.Generated.Objects.{Stored, Answer}

-- A handler that is given a pointer to a copy: the object and the error that it returns, and the copy as
-- it leaves it.
abbrev pub ChangeHandler : Type 0 → Type 0 → Type 0
ChangeHandler O W = Stored O → W → (Answer (Option (Stored O)) × Stored O) × W

abbrev pub object_or : {O : Type 0} → Stored O → Option (Stored O) → Stored O
object_or obj none = obj
object_or obj (some new) = new

module _ {O W : Type 0} (deep_equal : Stored O → Stored O → Bool)
    (update : Option (Stored O) → W → Answer (Option (Stored O)) × W) where
  unfoldable pub update_deep_copy_on_change :
      Option (Stored O) → ChangeHandler O W → W → Answer (Option (Stored O)) × W
  update_deep_copy_on_change none handler w = ((none, none), w)
  update_deep_copy_on_change (some obj) handler w =
      let (((new, err), copied), w1) = handler obj w in
      let copy_obj = object_or copied new in
      if obj.resource_version == copy_obj.resource_version && not (deep_equal obj copy_obj)
      then update (some copy_obj) w1
      else ((some copy_obj, err), w1)
