-- ===== src/Generated/Status/Settled.antt =====
-- The generated status handler comes to rest.
use harvester_equinix_addon.Prelude.{
  String, true, false, Option, none, some, ◌≡◌, refl, ap, inl, inr, Bool-cases,
}
use harvester_equinix_addon.Prelude.Text.{◌==◌}
use harvester_equinix_addon.Generated.Objects.{Stored, Answer, Resource}
use harvester_equinix_addon.Generated.Status.{
  StatusHandler, Statuses, status_of, with_status, stamped, new_status, send_status, sync,
}
use harvester_equinix_addon.Generated.Status.Answered.{answered, sync-answered}

module _ {O T W : Type 0} (r : Resource O T) (lib : Statuses T W) (condition : String) where
  -- A status that has been sent stays as it is, if a condition that is set and has its time does.
  new_status_kept :
      (orig s : T) (w : W)
      → ((u : T) (time : String)
          → let v : T = lib.last_updated condition (lib.set_error condition u "" none) time in
            lib.set_error condition v "" none ≡ v)
      → let t : T = stamped r lib condition (new_status r lib condition orig (s, none)) w in
        new_status r lib condition t (t, none) ≡ t
  unfolding new_status
  new_status_kept orig s w kept = elim (Bool-cases (condition == "")) [
    | inl k ↦ rw k refl
    | inr k ↦ elim (Bool-cases (lib.is_conflict none)) [
      | inl j ↦ rw (k, j) (kept s (lib.now w))
      | inr j ↦ rw (k, j) (kept s (lib.now w))
    ]
  ]

  module _ (update_status : Option (Stored O) → W → Answer (Option (Stored O)) × W)
      (handler : StatusHandler O T W) where
    sync_quiet :
        (key : String) (obj : Stored O) (w : W)
        → let t : T = status_of r obj in
          handler obj t w ≡ (((t, none), obj), w)
          → new_status r lib condition t (t, none) ≡ t
          → lib.deep_equal t t ≡ true
          → sync r lib condition update_status handler key (some obj) w ≡ ((some obj, none), w)
    unfolding answered
    sync_quiet key obj w steady kept same =
        rw (sync-answered r lib condition update_status handler key obj w steady, kept, same) refl

    sync_sent :
        (key : String) (obj obj' obj1 : Stored O) (w w1 w2 : W) {s : T}
        → let t : T = new_status r lib condition (status_of r obj) (s, none) in
          handler obj (status_of r obj) w ≡ (((s, none), obj'), w1)
          → lib.deep_equal (status_of r obj) t ≡ false
          → update_status (some (with_status r (stamped r lib condition t w1) obj')) w1
            ≡ ((some obj1, none), w2)
          → sync r lib condition update_status handler key (some obj) w ≡ ((some obj1, none), w2)
    unfolding answered send_status
    sync_sent key obj obj' obj1 w w1 w2 gives differs stores =
        rw (sync-answered r lib condition update_status handler key obj w gives, differs, stores)
          (ap (λ x. ((x.0.0, none), w2)) stores)

    -- If the handler gives a status that differs from the one of the object, the update stores it and
    -- returns the stored object, the handler then finds nothing to change, an equal status is found
    -- equal, and a condition that is set stays as it is when it is set again: the first run returns the
    -- stored object without an error, and a second run on that returns it again, without an update.
    pub sync_settles :
        (key key' : String) (obj obj' obj1 : Stored O) (w w1 w2 : W) {s : T}
        → let t : T = new_status r lib condition (status_of r obj) (s, none) in
          let t1 : T = status_of r obj1 in
          handler obj (status_of r obj) w ≡ (((s, none), obj'), w1)
          → lib.deep_equal (status_of r obj) t ≡ false
          → update_status (some (with_status r (stamped r lib condition t w1) obj')) w1
            ≡ ((some obj1, none), w2)
          → t1 ≡ stamped r lib condition t w1
          → handler obj1 t1 w2 ≡ (((t1, none), obj1), w2)
          → lib.deep_equal t1 t1 ≡ true
          → ((u : T) (time : String)
              → let v : T = lib.last_updated condition (lib.set_error condition u "" none) time in
                lib.set_error condition v "" none ≡ v)
          → (sync r lib condition update_status handler key (some obj) w ≡ ((some obj1, none), w2))
            × (sync r lib condition update_status handler key' (some obj1) w2
                ≡ ((some obj1, none), w2))
    sync_settles key key' obj obj' obj1 w w1 w2 {s} gives differs stores stored steady same kept =
        let t : T = new_status r lib condition (status_of r obj) (s, none) in
        let rest : new_status r lib condition (status_of r obj1) (status_of r obj1, none)
            ≡ status_of r obj1 =
          rw stored (new_status_kept (status_of r obj) s w1 kept) in
        (
          sync_sent key obj obj' obj1 w w1 w2 gives differs stores,
          sync_quiet key' obj1 w2 steady rest same,
        )
