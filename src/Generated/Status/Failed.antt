-- ===== src/Generated/Status/Failed.antt =====
-- The generated status handler after an error of the handler.
use harvester_equinix_addon.Prelude.{
  String, true, Option, some, ◌≡◌, refl, sym, ◌∙◌, inl, inr, Bool-cases,
}
use harvester_equinix_addon.Prelude.Text.{◌==◌}
use harvester_equinix_addon.Services.{Error}
use harvester_equinix_addon.Generated.Objects.{Stored, Answer, Resource}
use harvester_equinix_addon.Generated.Status.{
  StatusHandler, Statuses, status_of, new_status, send_status, sync,
}
use harvester_equinix_addon.Generated.Status.Answered.{answered, sync-answered}

module _ {O T W : Type 0} (r : Resource O T) (lib : Statuses T W) (condition : String)
    (update_status : Option (Stored O) → W → Answer (Option (Stored O)) × W)
    (handler : StatusHandler O T W) (obj obj' : Stored O) (w w1 : W) {status : T} {e : Error}
    (failed : handler obj (status_of r obj) w ≡ (((status, some e), obj'), w1)) where
  -- Whatever the condition is, an error of the handler is returned.
  failed_error :
      (key : String) → (sync r lib condition update_status handler key (some obj) w).0.1 ≡ some e
  unfolding answered send_status
  failed_error key =
      let orig = status_of r obj in
      rw (sync-answered r lib condition update_status handler key obj w failed)
        (elim (Bool-cases
          (lib.deep_equal orig (new_status r lib condition orig (status, some e)))) [
            | inl k ↦ rw k refl
            | inr k ↦ rw k refl
          ])

  pub failed_quiet :
      (key : String)
      → lib.deep_equal (status_of r obj) (status_of r obj) ≡ true
      → (condition == "") ≡ true
      → sync r lib condition update_status handler key (some obj) w ≡ ((some obj', some e), w1)
  unfolding answered new_status
  failed_quiet key same bare =
      rw (sync-answered r lib condition update_status handler key obj w failed, bare, same) refl

  -- What a failing handler says of the status has no influence.
  failed_ignored :
      (handler' : StatusHandler O T W) (key : String) {status' : T}
      → handler' obj (status_of r obj) w ≡ (((status', some e), obj'), w1)
      → sync r lib condition update_status handler key (some obj) w
        ≡ sync r lib condition update_status handler' key (some obj) w
  unfolding answered new_status
  failed_ignored handler' key failed' =
      sync-answered r lib condition update_status handler key obj w failed
      ∙ sym (sync-answered r lib condition update_status handler' key obj w failed')

  -- For a handler that fails on an object that is there, and any other that fails with the same error and
  -- leaves the same object and world: the generated status handler returns that error, and does the same
  -- for both, whatever statuses they give.
  pub sync_failed :
      (handler' : StatusHandler O T W) (key : String) {status' : T}
      → handler' obj (status_of r obj) w ≡ (((status', some e), obj'), w1)
      → ((sync r lib condition update_status handler key (some obj) w).0.1 ≡ some e)
        × (sync r lib condition update_status handler key (some obj) w
            ≡ sync r lib condition update_status handler' key (some obj) w)
  sync_failed handler' key failed' = (failed_error key, failed_ignored handler' key failed')
