-- ===== src/Generated/Changes/Changed.antt =====
-- When `Update…DeepCopyOnChange` updates an object.
use harvester_equinix_addon.Prelude.{
  Bool, true, false, not, ◌&&◌, Option, some, ◌≡◌, ◌≢◌, ◌⊎◌, inl, inr, refl, if◌then◌else◌,
}
use harvester_equinix_addon.Prelude.Text.{◌==◌, eq_iff}
use harvester_equinix_addon.Services.{Error}
use harvester_equinix_addon.Generated.Objects.{Stored, Answer}
use harvester_equinix_addon.Generated.Changes.{ChangeHandler, object_or, update_deep_copy_on_change}

module _ {O W : Type 0} (deep_equal : Stored O → Stored O → Bool)
    (update : Option (Stored O) → W → Answer (Option (Stored O)) × W) where
  -- How it ends for `obj`, of which the handler makes `changed`, with `err`, in the world `w`.
  pub data Changed (obj changed : Stored O) (err : Option Error) (w : W)
      : Answer (Option (Stored O)) × W → Type 0 where
    -- The object has been updated in the meantime, or nothing of it is changed.
    kept :
        (obj.resource_version ≢ changed.resource_version) ⊎ (deep_equal obj changed ≡ true)
        → Changed obj changed err w ((some changed, err), w)
    -- The answer to the update takes the place of what the handler returned, its error too.
    updated :
        obj.resource_version ≡ changed.resource_version
        → deep_equal obj changed ≡ false
        → Changed obj changed err w (update (some changed) w)

  decided :
      (obj changed : Stored O) (err : Option Error) (w : W) (b c : Bool)
      → obj.resource_version == changed.resource_version ≡ b
      → deep_equal obj changed ≡ c
      → Changed obj changed err w
          (if b && not c then update (some changed) w else ((some changed, err), w))
  decided obj changed err w false c k j =
      Changed.kept
        (inl (λ e. let q = (eq_iff obj.resource_version changed.resource_version).1 e in cc))
  decided obj changed err w true true k j = Changed.kept (inr j)
  decided obj changed err w true false k j =
      Changed.updated ((eq_iff obj.resource_version changed.resource_version).0 k) j

  -- What the handler makes of the copy, or returns in its place, is sent exactly if its version is that of
  -- the object and it differs from it; then the answer to the update is returned, and otherwise the
  -- handler's object with its error.
  pub update_deep_copy-Changed :
      (handler : ChangeHandler O W) (obj copied : Stored O) (new : Option (Stored O))
      (err : Option Error) (w w1 : W)
      → handler obj w ≡ (((new, err), copied), w1)
      → Changed obj
          (object_or copied new)
          err
          w1
          (update_deep_copy_on_change deep_equal update (some obj) handler w)
  unfolding update_deep_copy_on_change
  update_deep_copy-Changed handler obj copied new err w w1 k =
      rw k (decided obj (object_or copied new) err w1 _ _ refl refl)
