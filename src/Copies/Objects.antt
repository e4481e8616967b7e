-- ===== src/Copies/Objects.antt =====
-- What the copies of zz_generated_deepcopy.go are worth to a controller: it changes the copy of an
-- object of the cache, and nobody who reads the cache sees it.
use harvester_equinix_addon.Prelude.{String, ◌≤◌, ◌<◌, ◌≡◌, ◌⊎◌, Option, some, List, length}
use harvester_equinix_addon.Api.{ObjectMeta, Instance, InstancePool}
use harvester_equinix_addon.Copies.Cells.{Address, TypeMeta, Cell}
use harvester_equinix_addon.Copies.Copier.{Copier, IsDeep}
use harvester_equinix_addon.Copies.Instances.{
  instance_pointer, instance_pointer-IsDeep, instance_list_pointer, instance_list_pointer-IsDeep,
}
use harvester_equinix_addon.Copies.Pools.{
  instance_pool_pointer, instance_pool_pointer-IsDeep, instance_pool_list_pointer,
  instance_pool_list_pointer-IsDeep,
}
use harvester_equinix_addon.Copies.Apart.{Writes, original_stays, copy_stays}

module _ {F M N L : Type 0} (copy_quantity : String → String) (zero_meta : M)
    (object_meta : Copier (Cell F M N) M ObjectMeta) (zero_list_meta : N)
    (list_meta : Copier (Cell F M N) N L) (quantities : (q : String) → copy_quantity q ≡ q)
    (meta : IsDeep object_meta) (meta_of_list : IsDeep list_meta) where
  -- For a pointer to an `Instance`, nil or one that can be read in memory, a metadata copy that is
  -- deep, and a copy of quantities that changes no text: whatever a program then writes to addresses that
  -- were not there before `DeepCopy`, and allocates, the original reads as before; and whatever it writes
  -- to addresses that were there before, or that it allocated afterwards, the copy reads as the original
  -- did.
  pub instance_copy-Apart :
      (a : Address) (h g g' : List (Cell F M N)) {v : Option (TypeMeta × Instance)}
      → let c : Copier (Cell F M N) Address (Option (TypeMeta × Instance)) =
          instance_pointer copy_quantity zero_meta object_meta zero_list_meta list_meta in
        c.read h a ≡ some v
        → Writes (λ b. length h ≤ b) (c.copy a h).1 g
        → Writes (λ b. (b < length h) ⊎ (length (c.copy a h).1 ≤ b)) (c.copy a h).1 g'
        → (c.read g a ≡ some v) × (c.read g' (c.copy a h).0 ≡ some v)
  instance_copy-Apart a h g g' e w w' =
      let c : Copier (Cell F M N) Address (Option (TypeMeta × Instance)) =
        instance_pointer copy_quantity zero_meta object_meta zero_list_meta list_meta in
      let d : IsDeep c =
        instance_pointer-IsDeep copy_quantity zero_meta object_meta zero_list_meta list_meta
          quantities meta meta_of_list in
      (original_stays c d a h g e w, copy_stays c d a h g' e w')

  -- For a pointer to an `InstancePool`, nil or one that can be read in memory, a metadata copy that is
  -- deep, and a copy of quantities that changes no text: whatever a program then writes to addresses that
  -- were not there before `DeepCopy`, and allocates, the original reads as before; and whatever it writes
  -- to addresses that were there before, or that it allocated afterwards, the copy reads as the original
  -- did.
  pub instance_pool_copy-Apart :
      (a : Address) (h g g' : List (Cell F M N)) {v : Option (TypeMeta × InstancePool)}
      → let c : Copier (Cell F M N) Address (Option (TypeMeta × InstancePool)) =
          instance_pool_pointer copy_quantity zero_meta object_meta zero_list_meta list_meta in
        c.read h a ≡ some v
        → Writes (λ b. length h ≤ b) (c.copy a h).1 g
        → Writes (λ b. (b < length h) ⊎ (length (c.copy a h).1 ≤ b)) (c.copy a h).1 g'
        → (c.read g a ≡ some v) × (c.read g' (c.copy a h).0 ≡ some v)
  instance_pool_copy-Apart a h g g' e w w' =
      let c : Copier (Cell F M N) Address (Option (TypeMeta × InstancePool)) =
        instance_pool_pointer copy_quantity zero_meta object_meta zero_list_meta list_meta in
      let d : IsDeep c =
        instance_pool_pointer-IsDeep copy_quantity zero_meta object_meta zero_list_meta list_meta
          quantities meta meta_of_list in
      (original_stays c d a h g e w, copy_stays c d a h g' e w')

  -- For a pointer to an `InstanceList`, nil or one that can be read in memory, a metadata copy that is
  -- deep, and a copy of quantities that changes no text: whatever a program then writes to addresses that
  -- were not there before `DeepCopy`, and allocates, the original reads as before; and whatever it writes
  -- to addresses that were there before, or that it allocated afterwards, the copy reads as the original
  -- did.
  pub instance_list_copy-Apart :
      (a : Address) (h g g' : List (Cell F M N))
      {v : Option (TypeMeta × (L × List (TypeMeta × Instance)))}
      → let c : Copier (Cell F M N) Address (Option (TypeMeta × (L × List (TypeMeta × Instance)))) =
          instance_list_pointer copy_quantity zero_meta object_meta zero_list_meta list_meta in
        c.read h a ≡ some v
        → Writes (λ b. length h ≤ b) (c.copy a h).1 g
        → Writes (λ b. (b < length h) ⊎ (length (c.copy a h).1 ≤ b)) (c.copy a h).1 g'
        → (c.read g a ≡ some v) × (c.read g' (c.copy a h).0 ≡ some v)
  instance_list_copy-Apart a h g g' e w w' =
      let c : Copier (Cell F M N) Address (Option (TypeMeta × (L × List (TypeMeta × Instance)))) =
        instance_list_pointer copy_quantity zero_meta object_meta zero_list_meta list_meta in
      let d : IsDeep c =
        instance_list_pointer-IsDeep copy_quantity zero_meta object_meta zero_list_meta list_meta
          quantities meta meta_of_list in
      (original_stays c d a h g e w, copy_stays c d a h g' e w')

  -- For a pointer to an `InstancePoolList`, nil or one that can be read in memory, a metadata copy that is
  -- deep, and a copy of quantities that changes no text: whatever a program then writes to addresses that
  -- were not there before `DeepCopy`, and allocates, the original reads as before; and whatever it writes
  -- to addresses that were there before, or that it allocated afterwards, the copy reads as the original
  -- did.
  pub instance_pool_list_copy-Apart :
      (a : Address) (h g g' : List (Cell F M N))
      {v : Option (TypeMeta × (L × List (TypeMeta × InstancePool)))}
      → let c : Copier
            (Cell F M N)
            Address
            (Option (TypeMeta × (L × List (TypeMeta × InstancePool)))) =
          instance_pool_list_pointer copy_quantity zero_meta object_meta zero_list_meta list_meta in
        c.read h a ≡ some v
        → Writes (λ b. length h ≤ b) (c.copy a h).1 g
        → Writes (λ b. (b < length h) ⊎ (length (c.copy a h).1 ≤ b)) (c.copy a h).1 g'
        → (c.read g a ≡ some v) × (c.read g' (c.copy a h).0 ≡ some v)
  instance_pool_list_copy-Apart a h g g' e w w' =
      let c : Copier (Cell F M N) Address
          (Option (TypeMeta × (L × List (TypeMeta × InstancePool)))) =
        instance_pool_list_pointer copy_quantity zero_meta object_meta zero_list_meta list_meta in
      let d : IsDeep c =
        instance_pool_list_pointer-IsDeep copy_quantity zero_meta object_meta zero_list_meta
          list_meta quantities meta meta_of_list in
      (original_stays c d a h g e w, copy_stays c d a h g' e w')
