-- ===== src/Generated/Status.antt =====
-- pkg/generated/controllers/equinix.harvesterhci.io/v1, the generated status handler. A handler is given
-- a pointer to a copy of the object, and what it leaves there is part of its result.
pub mod Answered
pub mod Failed
pub mod Settled
use harvester_equinix_addon.Prelude.{
  String, Bool, true, false, Option, none, some, List, [], ◌∷◌, if◌then◌else◌,
}
use harvester_equinix_addon.Prelude.Text.{◌==◌}
use harvester_equinix_addon.Services.{Error}
use harvester_equinix_addon.Generated.Objects.{Stored, Answer, Resource}

-- `InstanceStatusHandler`: the status, the error, and the object as the handler leaves it.
abbrev pub StatusHandler : Type 0 → Type 0 → Type 0 → Type 0
StatusHandler O T W = Stored O → T → W → (Answer T × Stored O) × W

-- The operations of `condition.Cond` on a status, the comparison of Kubernetes, and the clock.
pub record Statuses (T W : Type 0) : Type 0 where
  -- `SetError(&status, reason, err)`
  pub set_error : String → T → String → Option Error → T
  -- `LastUpdated(&status, time)`
  pub last_updated : String → T → String → T
  -- `equality.Semantic.DeepEqual`
  pub deep_equal : T → T → Bool
  -- `errors.IsConflict`
  pub is_conflict : Option Error → Bool
  -- `time.Now().UTC().Format(time.RFC3339)`
  pub now : W → String

module _ {O T : Type 0} (r : Resource O T) where
  abbrev pub status_of : Stored O → T
  status_of obj = r.status obj.object

  abbrev pub with_status : T → Stored O → Stored O
  with_status status obj = record obj { object = r.with_status status obj.object }

abbrev pub reverted : {T : Type 0} → T → Answer T → T
reverted orig (status, none) = status
reverted orig (status, some e) = orig

abbrev pub first_error : Option Error → Option Error → Option Error
first_error none new_err = new_err
first_error (some e) new_err = some e

abbrev pub updated_or : {O : Type 0} → Stored O → Answer (Option (Stored O)) → Option (Stored O)
updated_or obj (new, none) = new
updated_or obj (new, some e) = some obj

module _ {O T W : Type 0} (r : Resource O T) (lib : Statuses T W) (condition : String) where
  -- The status that the handler gives, or after an error the old one, with the condition set.
  unfoldable pub new_status : T → Answer T → T
  new_status orig (status, err) =
      let new = reverted orig (status, err) in
      if condition == ""
      then new
      else if lib.is_conflict err
      then lib.set_error condition new "" none
      else lib.set_error condition new "" err

  -- A status that has changed has the time of the change.
  abbrev pub stamped : T → W → T
  stamped status w =
      if condition == "" then status else lib.last_updated condition status (lib.now w)

  unfoldable pub send_status :
      (Option (Stored O) → W → Answer (Option (Stored O)) × W)
      → T
      → Option Error
      → Stored O
      → W
      → Answer (Option (Stored O)) × W
  send_status update_status status err obj w =
      let status' = stamped status w in
      let obj' = with_status r status' obj in
      let ((new, new_err), w1) = update_status (some obj') w in
      ((updated_or obj' (new, new_err), first_error err new_err), w1)

  unfoldable pub sync :
      (Option (Stored O) → W → Answer (Option (Stored O)) × W)
      → StatusHandler O T W
      → String
      → Option (Stored O)
      → W
      → Answer (Option (Stored O)) × W
  unfolding new_status send_status
  sync update_status handler key none w = ((none, none), w)
  sync update_status handler key (some obj) w =
      let orig = status_of r obj in
      let (((status, err), obj'), w1) = handler obj (status_of r obj) w in
      let new = new_status orig (status, err) in
      if lib.deep_equal orig new
      then ((some obj', err), w1)
      else send_status update_status new err obj' w1
