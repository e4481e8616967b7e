-- ===== src/Copies/Instances.antt =====
-- zz_generated_deepcopy.go, the copies of `Instance` and `InstanceList`. The copies of the
-- metadata are those of Kubernetes, and parameters here.
use harvester_equinix_addon.Prelude.{String, refl, ◌≡◌, Option, none, List, [], ◌∷◌}
use harvester_equinix_addon.Api.{ObjectMeta, Instance}
use harvester_equinix_addon.Copies.Cells.{
  Address, TypeMeta, ListRef, InstanceRef, Cell, open_instance, open_instances, open_instance_list,
}
use harvester_equinix_addon.Copies.Copier.{Copier, IsDeep}
use harvester_equinix_addon.Copies.Rules.{pair, pair-IsDeep, struct, struct-IsDeep}
use harvester_equinix_addon.Copies.Sequence.{sequence, sequence-IsDeep}
use harvester_equinix_addon.Copies.Box.{box, box-IsDeep}
use harvester_equinix_addon.Copies.Networks.{or_nil}
use harvester_equinix_addon.Copies.InstanceSpecs.{
  zero_instance_spec, instance_spec, instance_spec-IsDeep,
}
use harvester_equinix_addon.Copies.Statuses.{zero_type_meta, zero_instance_status}

module _ {F M N L : Type 0} (copy_quantity : String → String) (zero_meta : M)
    (object_meta : Copier (Cell F M N) M ObjectMeta) (zero_list_meta : N)
    (list_meta : Copier (Cell F M N) N L) where
  abbrev zero_list : ListRef N
  zero_list = record { type_meta = zero_type_meta; meta = zero_list_meta; items = none }

  -- `DeepCopyInto`
  abbrev pub copy_instance : InstanceRef M → List (Cell F M N) → InstanceRef M × List (Cell F M N)
  copy_instance o h =
      let (meta, h1) = object_meta.copy o.meta h in
      let (spec, h2) = (instance_spec copy_quantity).copy o.spec h1 in
      (record o { meta = meta; spec = spec }, h2)

  abbrev pub instance : Copier (Cell F M N) (InstanceRef M) (TypeMeta × Instance)
  instance =
      record (struct (pair object_meta (instance_spec copy_quantity)) (λ o. (o.meta, o.spec))
        (λ o p. record o { meta = p.0; spec = p.1 })
        (λ o p. (o.type_meta, record { meta = p.0; spec = p.1; status = o.status }))) {
          copy = copy_instance;
        }

  abbrev pub zero_instance : InstanceRef M
  zero_instance = record {
    type_meta = zero_type_meta;
    meta = zero_meta;
    spec = zero_instance_spec;
    status = zero_instance_status;
  }

  -- `DeepCopy`, and `DeepCopyObject`
  abbrev pub instance_pointer : Copier (Cell F M N) Address (Option (TypeMeta × Instance))
  instance_pointer = box instance Cell.instance open_instance (λ o. zero_instance)

  abbrev zero_instances : List (InstanceRef M) → List (InstanceRef M)
  zero_instances [] = []
  zero_instances (o ∷ os) = zero_instance ∷ zero_instances os

  abbrev instances : Copier (Cell F M N) Address (Option (List (TypeMeta × Instance)))
  instances = box (sequence instance) Cell.instances open_instances zero_instances

  -- `DeepCopyInto` of a list
  abbrev pub copy_instance_list : ListRef N → List (Cell F M N) → ListRef N × List (Cell F M N)
  copy_instance_list o h =
      let (meta, h1) = list_meta.copy o.meta h in
      let (items, h2) = instances.copy o.items h1 in (record o { meta = meta; items = items }, h2)

  abbrev pub instance_list :
      Copier (Cell F M N) (ListRef N) (TypeMeta × (L × List (TypeMeta × Instance)))
  instance_list =
      record (struct (pair list_meta instances) (λ o. (o.meta, o.items))
        (λ o p. record o { meta = p.0; items = p.1 }) (λ o p. (o.type_meta, (p.0, or_nil p.1)))) {
          copy = copy_instance_list;
        }

  -- `DeepCopy` of a list, and `DeepCopyObject`
  abbrev pub instance_list_pointer :
      Copier (Cell F M N) Address (Option (TypeMeta × (L × List (TypeMeta × Instance))))
  instance_list_pointer = box instance_list Cell.instance_list open_instance_list (λ o. zero_list)

  module _ (quantities : (q : String) → copy_quantity q ≡ q) (p : IsDeep object_meta)
      (q : IsDeep list_meta) where
    pub instance-IsDeep : IsDeep instance
    instance-IsDeep =
        struct-IsDeep (pair object_meta (instance_spec copy_quantity)) (λ o. (o.meta, o.spec))
          (λ o p. record o { meta = p.0; spec = p.1 })
          (λ o p. (o.type_meta, record { meta = p.0; spec = p.1; status = o.status })) (λ r s. refl)
          (λ r s u. refl) (pair-IsDeep _ _ p (instance_spec-IsDeep copy_quantity quantities))

    pub instance_pointer-IsDeep : IsDeep instance_pointer
    instance_pointer-IsDeep =
        box-IsDeep instance Cell.instance open_instance (λ o. zero_instance) instance-IsDeep
          (λ e. refl)

    instances-IsDeep : IsDeep instances
    instances-IsDeep =
        box-IsDeep (sequence instance) Cell.instances open_instances zero_instances
          (sequence-IsDeep instance instance-IsDeep) (λ e. refl)

    pub instance_list-IsDeep : IsDeep instance_list
    instance_list-IsDeep =
        struct-IsDeep (pair list_meta instances) (λ o. (o.meta, o.items))
          (λ o p. record o { meta = p.0; items = p.1 }) (λ o p. (o.type_meta, (p.0, or_nil p.1)))
          (λ r s. refl) (λ r s u. refl) (pair-IsDeep _ _ q instances-IsDeep)

    pub instance_list_pointer-IsDeep : IsDeep instance_list_pointer
    instance_list_pointer-IsDeep =
        box-IsDeep instance_list Cell.instance_list open_instance_list (λ o. zero_list)
          instance_list-IsDeep (λ e. refl)
