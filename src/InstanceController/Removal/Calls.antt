-- ===== src/InstanceController/Removal/Calls.antt =====
-- pkg/controllers/instance/instance.go, `OnInstanceRemove` and `findAndDeleteNode`: the calls that the
-- removal of an instance can lead to.
use harvester_equinix_addon.Prelude.{◌≡◌, refl, ◌≢◌, true, false, none, some}
use harvester_equinix_addon.Prelude.Int.{ℤ}
use harvester_equinix_addon.Api.{Instance}
use harvester_equinix_addon.Services.{
  Services, ok, err, Call, Only, OnlyFunc, pure-Only, leave_on-Only, bind-Only, invoke-Only,
  if-Only, if_cases-Only, option_cases-Only, body-Only, run-Only,
}
use harvester_equinix_addon.Util.{contains_finalizer}
use harvester_equinix_addon.Util.Finalizers.{remove-contains}
use harvester_equinix_addon.Metal.Devices.Calls.{delete_device-Only}
use harvester_equinix_addon.InstanceController.Lifecycle.{finalizer}
use harvester_equinix_addon.InstanceController.Removal.{
  removal_client, find_and_delete_node, clean_up, drop_finalizer, on_instance_remove,
}

-- The instance is being deleted, and this controller has not let go of it yet.
abbrev pub IsLeaving : Instance → Type 0
IsLeaving i =
    (i.meta.deletion_timestamp ≢ none) × (contains_finalizer i.meta.finalizers finalizer ≡ true)

-- What the removal of `i` may call.
abbrev pub Removing : Instance → Call → Type 0
Removing i (Call.device_list m project) = IsLeaving i × (m ≡ removal_client i)
Removing i (Call.device_delete m id force) =
    IsLeaving i × (m ≡ removal_client i) × (id ≡ i.status.instance_id) × (force ≡ true)
Removing i (Call.node_get name) = IsLeaving i × (name ≡ i.meta.name)
Removing i (Call.node_delete name) = IsLeaving i × (name ≡ i.meta.name)
Removing i (Call.instance_update j) =
    (i.meta.deletion_timestamp ≢ none)
    × (j.spec ≡ i.spec)
    × (j.status ≡ i.status)
    × (contains_finalizer j.meta.finalizers finalizer ≡ false)
Removing i _ = ⊥

module _ {W : Type 0} (env : Services W) (i : Instance) where
  find_and_delete_node-Removing : IsLeaving i → OnlyFunc (Removing i) (find_and_delete_node env i)
  unfolding find_and_delete_node
  find_and_delete_node-Removing h = body-Only (
      bind-Only (invoke-Only env (Call.node_get i.meta.name) (h, refl)) elim [
        | err e ↦ pure-Only _
        | ok node ↦ invoke-Only env (Call.node_delete i.meta.name) (h, refl)
      ])

  clean_up-Removing : IsLeaving i → Only (Removing i) (clean_up env i)
  unfolding clean_up
  clean_up-Removing h =
      bind-Only
        (run-Only (delete_device-Only env (removal_client i) i (h, refl) (h, refl, refl, refl)))
        λ e.
          bind-Only (leave_on-Only e _)
            λ _. bind-Only (run-Only (find_and_delete_node-Removing h)) (λ e'. leave_on-Only e' _)

  drop_finalizer-Removing :
      i.meta.deletion_timestamp ≢ none → Only (Removing i) (drop_finalizer env i)
  unfolding drop_finalizer
  drop_finalizer-Removing h =
      if-Only _
        (bind-Only
          (invoke-Only env (Call.instance_update _)
            (h, refl, refl, (remove-contains i.meta.finalizers finalizer finalizer).0))
          (λ u. pure-Only _))
        (pure-Only _)

  some_ne_none : {t : ℤ} → i.meta.deletion_timestamp ≡ some t → i.meta.deletion_timestamp ≢ none
  some_ne_none e h = cc

  -- The removal of an instance calls only for one that is being deleted: while it holds the finalizer,
  -- its own device is deleted, and its own node, and whatever is written lacks the finalizer.
  pub removal-Removing : OnlyFunc (Removing i) (on_instance_remove env (some i))
  unfolding on_instance_remove
  removal-Removing = body-Only (
      option_cases-Only i.meta.deletion_timestamp
        (λ t e.
          bind-Only
            (if_cases-Only (contains_finalizer i.meta.finalizers finalizer)
              (λ held. clean_up-Removing (some_ne_none e, held)) (λ _. pure-Only tt))
            (λ _. drop_finalizer-Removing (some_ne_none e)))
        (λ _. pure-Only _))
