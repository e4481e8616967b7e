-- ===== src/InstanceController/Lifecycle/Inert.antt =====
-- pkg/controllers/instance/instance.go, `OnInstanceChange`: the instances that it leaves alone.
use harvester_equinix_addon.Prelude.{String, ◌≡◌, ◌≢◌, ◌⊎◌, none, some, arith}
use harvester_equinix_addon.Prelude.Text.{eq_iff}
use harvester_equinix_addon.Api.{Instance}
use harvester_equinix_addon.Services.{Services, State, returned, statements}
use harvester_equinix_addon.InstanceController.Lifecycle.{dispatch, on_instance_change}

-- A status with a handler of its own that makes calls.
abbrev pub IsActive : String → Type 0
IsActive status =
    (status ≡ "")
    ⊎ (status ≡ "submitted")
    ⊎ (status ≡ "queued")
    ⊎ (status ≡ "reinstalling")
    ⊎ (status ≡ "ready")

-- An instance that is being deleted, or whose status is none of the five, is returned as it is, and
-- nothing is called: so for "managed", and for every state of a device that is not in the switch.
pub inactive_untouched :
    {W : Type 0} (env : Services W) (key : String) (i : Instance) (s : State W)
    → (i.meta.deletion_timestamp ≢ none) ⊎ (¬ (IsActive i.status.status))
    → on_instance_change env key (some i) s ≡ (returned (some i, none), s)
unfolding on_instance_change dispatch statements
inactive_untouched env key i s h = ground (
  arith,
  eq_iff i.status.status "",
  eq_iff i.status.status "submitted",
  eq_iff i.status.status "queued",
  eq_iff i.status.status "reinstalling",
  eq_iff i.status.status "ready",
)
