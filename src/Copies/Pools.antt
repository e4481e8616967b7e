-- ===== src/Copies/Pools.antt =====
-- zz_generated_deepcopy.go, the copies of `InstancePool` and `InstancePoolList`. The copies of the
-- metadata are those of Kubernetes, and parameters here.
use harvester_equinix_addon.Prelude.{String, refl, ◌≡◌, Option, none, List, [], ◌∷◌}
use harvester_equinix_addon.Api.{ObjectMeta, InstancePool}
use harvester_equinix_addon.Copies.Cells.{
  Address, TypeMeta, ListRef, InstancePoolRef, Cell, open_instance_pool, open_instance_pools,
  open_instance_pool_list,
}
use harvester_equinix_addon.Copies.Copier.{Copier, IsDeep}
use harvester_equinix_addon.Copies.Rules.{pair, pair-IsDeep, struct, struct-IsDeep}
use harvester_equinix_addon.Copies.Sequence.{sequence, sequence-IsDeep}
use harvester_equinix_addon.Copies.Box.{box, box-IsDeep}
use harvester_equinix_addon.Copies.Networks.{or_nil}
use harvester_equinix_addon.Copies.PoolSpecs.{
  zero_instance_pool_spec, instance_pool_spec, instance_pool_spec-IsDeep,
}
use harvester_equinix_addon.Copies.Statuses.{zero_type_meta, zero_instance_pool_status}

module _ {F M N L : Type 0} (copy_quantity : String → String) (zero_meta : M)
    (object_meta : Copier (Cell F M N) M ObjectMeta) (zero_list_meta : N)
    (list_meta : Copier (Cell F M N) N L) where
  abbrev zero_list : ListRef N
  zero_list = record { type_meta = zero_type_meta; meta = zero_list_meta; items = none }

  -- `DeepCopyInto`
  abbrev pub copy_instance_pool :
      InstancePoolRef M → List (Cell F M N) → InstancePoolRef M × List (Cell F M N)
  copy_instance_pool o h =
      let (meta, h1) = object_meta.copy o.meta h in
      let (spec, h2) = (instance_pool_spec copy_quantity).copy o.spec h1 in
      (record o { meta = meta; spec = spec }, h2)

  abbrev pub instance_pool : Copier (Cell F M N) (InstancePoolRef M) (TypeMeta × InstancePool)
  instance_pool =
      record (struct (pair object_meta (instance_pool_spec copy_quantity)) (λ o. (o.meta, o.spec))
        (λ o p. record o { meta = p.0; spec = p.1 })
        (λ o p. (o.type_meta, record { meta = p.0; spec = p.1; status = o.status }))) {
          copy = copy_instance_pool;
        }

  abbrev pub zero_instance_pool : InstancePoolRef M
  zero_instance_pool = record {
    type_meta = zero_type_meta;
    meta = zero_meta;
    spec = zero_instance_pool_spec;
    status = zero_instance_pool_status;
  }

  -- `DeepCopy`, and `DeepCopyObject`
  abbrev pub instance_pool_pointer : Copier (Cell F M N) Address (Option (TypeMeta × InstancePool))
  instance_pool_pointer =
      box instance_pool Cell.instance_pool open_instance_pool (λ o. zero_instance_pool)

  abbrev zero_instance_pools : List (InstancePoolRef M) → List (InstancePoolRef M)
  zero_instance_pools [] = []
  zero_instance_pools (o ∷ os) = zero_instance_pool ∷ zero_instance_pools os

  abbrev instance_pools : Copier (Cell F M N) Address (Option (List (TypeMeta × InstancePool)))
  instance_pools =
      box (sequence instance_pool) Cell.instance_pools open_instance_pools zero_instance_pools

  -- `DeepCopyInto` of a list
  abbrev pub copy_instance_pool_list : ListRef N → List (Cell F M N) → ListRef N × List (Cell F M N)
  copy_instance_pool_list o h =
      let (meta, h1) = list_meta.copy o.meta h in
      let (items, h2) = instance_pools.copy o.items h1 in
      (record o { meta = meta; items = items }, h2)

  abbrev pub instance_pool_list :
      Copier (Cell F M N) (ListRef N) (TypeMeta × (L × List (TypeMeta × InstancePool)))
  instance_pool_list =
      record (struct (pair list_meta instance_pools) (λ o. (o.meta, o.items))
        (λ o p. record o { meta = p.0; items = p.1 }) (λ o p. (o.type_meta, (p.0, or_nil p.1)))) {
          copy = copy_instance_pool_list;
        }

  -- `DeepCopy` of a list, and `DeepCopyObject`
  abbrev pub instance_pool_list_pointer :
      Copier (Cell F M N) Address (Option (TypeMeta × (L × List (TypeMeta × InstancePool))))
  instance_pool_list_pointer =
      box instance_pool_list Cell.instance_pool_list open_instance_pool_list (λ o. zero_list)

  module _ (quantities : (q : String) → copy_quantity q ≡ q) (p : IsDeep object_meta)
      (q : IsDeep list_meta) where
    pub instance_pool-IsDeep : IsDeep instance_pool
    instance_pool-IsDeep =
        struct-IsDeep (pair object_meta (instance_pool_spec copy_quantity)) (λ o. (o.meta, o.spec))
          (λ o p. record o { meta = p.0; spec = p.1 })
          (λ o p. (o.type_meta, record { meta = p.0; spec = p.1; status = o.status })) (λ r s. refl)
          (λ r s u. refl) (pair-IsDeep _ _ p (instance_pool_spec-IsDeep copy_quantity quantities))

    pub instance_pool_pointer-IsDeep : IsDeep instance_pool_pointer
    instance_pool_pointer-IsDeep =
        box-IsDeep instance_pool Cell.instance_pool open_instance_pool (λ o. zero_instance_pool)
          instance_pool-IsDeep (λ e. refl)

    instance_pools-IsDeep : IsDeep instance_pools
    instance_pools-IsDeep =
        box-IsDeep (sequence instance_pool) Cell.instance_pools open_instance_pools
          zero_instance_pools (sequence-IsDeep instance_pool instance_pool-IsDeep) (λ e. refl)

    pub instance_pool_list-IsDeep : IsDeep instance_pool_list
    instance_pool_list-IsDeep =
        struct-IsDeep (pair list_meta instance_pools) (λ o. (o.meta, o.items))
          (λ o p. record o { meta = p.0; items = p.1 }) (λ o p. (o.type_meta, (p.0, or_nil p.1)))
          (λ r s. refl) (λ r s u. refl) (pair-IsDeep _ _ q instance_pools-IsDeep)

    pub instance_pool_list_pointer-IsDeep : IsDeep instance_pool_list_pointer
    instance_pool_list_pointer-IsDeep =
        box-IsDeep instance_pool_list Cell.instance_pool_list open_instance_pool_list
          (λ o. zero_list) instance_pool_list-IsDeep (λ e. refl)
