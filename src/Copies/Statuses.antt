-- ===== src/Copies/Statuses.antt =====
-- zz_generated_deepcopy.go, the copies of `InstanceStatus` and `InstancePoolStatus`.
use harvester_equinix_addon.Prelude.{refl, Option}
use harvester_equinix_addon.Prelude.Int.{pos}
use harvester_equinix_addon.Api.{InstanceStatus, InstancePoolStatus}
use harvester_equinix_addon.Copies.Cells.{
  Address, TypeMeta, Cell, open_instance_status, open_instance_pool_status,
}
use harvester_equinix_addon.Copies.Copier.{Copier, IsDeep}
use harvester_equinix_addon.Copies.Rules.{value, value-IsDeep}
use harvester_equinix_addon.Copies.Box.{box, box-IsDeep}

abbrev pub zero_type_meta : TypeMeta
zero_type_meta = record { kind = ""; api_version = "" }

abbrev pub zero_instance_status : InstanceStatus
zero_instance_status = record { status = ""; instance_id = ""; public_ip = ""; private_ip = "" }

abbrev pub zero_instance_pool_status : InstancePoolStatus
zero_instance_pool_status = record {
  status = "";
  ready = pos 0;
  requested = pos 0;
  needed = pos 0;
  token = "";
}

module _ {F M N : Type 0} where
  -- `DeepCopyInto`: `*out = *in` is all there is to do.
  abbrev pub instance_status : Copier (Cell F M N) InstanceStatus InstanceStatus
  instance_status = value

  abbrev pub instance_pool_status : Copier (Cell F M N) InstancePoolStatus InstancePoolStatus
  instance_pool_status = value

  -- `DeepCopy`
  abbrev pub instance_status_pointer : Copier (Cell F M N) Address (Option InstanceStatus)
  instance_status_pointer =
      box instance_status Cell.instance_status open_instance_status (λ s. zero_instance_status)

  pub instance_status_pointer-IsDeep : IsDeep instance_status_pointer
  instance_status_pointer-IsDeep =
      box-IsDeep instance_status Cell.instance_status open_instance_status
        (λ s. zero_instance_status) value-IsDeep (λ e. refl)

  abbrev pub instance_pool_status_pointer : Copier (Cell F M N) Address (Option InstancePoolStatus)
  instance_pool_status_pointer =
      box instance_pool_status Cell.instance_pool_status open_instance_pool_status
        (λ s. zero_instance_pool_status)

  pub instance_pool_status_pointer-IsDeep : IsDeep instance_pool_status_pointer
  instance_pool_status_pointer-IsDeep =
      box-IsDeep instance_pool_status Cell.instance_pool_status open_instance_pool_status
        (λ s. zero_instance_pool_status) value-IsDeep (λ e. refl)
