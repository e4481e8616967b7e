-- ===== src/Generated/Status/Answered.antt =====
-- The generated status handler, by what the handler gives.
use harvester_equinix_addon.Prelude.{String, Option, some, ◌≡◌, ap, if◌then◌else◌}
use harvester_equinix_addon.Generated.Objects.{Stored, Answer, Resource}
use harvester_equinix_addon.Generated.Status.{
  StatusHandler, Statuses, status_of, new_status, send_status, sync,
}

module _ {O T W : Type 0} (r : Resource O T) (lib : Statuses T W) (condition : String)
    (update_status : Option (Stored O) → W → Answer (Option (Stored O)) × W) where
  -- The end of `sync`, from what the handler gives.
  unfoldable pub answered : T → (Answer T × Stored O) × W → Answer (Option (Stored O)) × W
  answered orig (((status, err), obj), w) =
      let new = new_status r lib condition orig (status, err) in
      if lib.deep_equal orig new
      then ((some obj, err), w)
      else send_status r lib condition update_status new err obj w

  pub sync-answered :
      (handler : StatusHandler O T W) (key : String) (obj : Stored O) (w : W)
      {a : (Answer T × Stored O) × W}
      → handler obj (status_of r obj) w ≡ a
      → sync r lib condition update_status handler key (some obj) w ≡ answered (status_of r obj) a
  unfolding sync answered
  sync-answered handler key obj w e = ap (answered (status_of r obj)) e
