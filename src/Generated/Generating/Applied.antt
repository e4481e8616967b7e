-- ===== src/Generated/Generating/Applied.antt =====
-- The generated handler that applies objects, under the generated status handler, without a condition.
use harvester_equinix_addon.Prelude.{
  String, true, false, Option, none, some, List, ◌≡◌, ◌≢◌, refl, inl, inr, Bool-cases,
}
use harvester_equinix_addon.Prelude.Int.{ℤ}
use harvester_equinix_addon.Services.{Error}
use harvester_equinix_addon.Generated.Objects.{Stored, RuntimeObject, Answer, Resource}
use harvester_equinix_addon.Generated.Status.{
  Statuses, status_of, with_status, new_status, send_status, updated_or, sync,
}
use harvester_equinix_addon.Generated.Status.Answered.{answered, sync-answered}
use harvester_equinix_addon.Generated.Generating.{
  GeneratingHandler, Applier, apply_call, apply_objects, handle_at, handle,
}

module _ {O T X W : Type 0} (r : Resource O T) (statuses : Statuses T W) (lib : Applier O X W)
    (name : String) (opts : X)
    (update_status : Option (Stored O) → W → Answer (Option (Stored O)) × W)
    (generate : GeneratingHandler O T W) (obj : Stored O) (w : W) where
  -- How a run ends on an object that is there.
  pub data Applied : Answer (Option (Stored O)) × W → Type 0 where
    -- It is being deleted.
    deleted : (r.meta obj.object).deletion_timestamp ≢ none → Applied ((some obj, none), w)
    -- The handler fails: nothing is applied or sent.
    failed :
        {objs : List RuntimeObject} {s : T} {e : Error} {obj' : Stored O} {w1 : W}
        → generate obj (status_of r obj) w ≡ (((objs, (s, some e)), obj'), w1)
        → Applied ((some obj', some e), w1)
    -- The objects are applied with an error: no status is sent.
    unapplied :
        {objs : List RuntimeObject} {s : T} {e : Error} {obj' : Stored O} {w1 w2 : W}
        → generate obj (status_of r obj) w ≡ (((objs, (s, none)), obj'), w1)
        → lib.apply (apply_call r lib name opts obj' objs) w1 ≡ (some e, w2)
        → Applied ((some obj', some e), w2)
    -- They are applied, and the status is as it was.
    kept :
        {objs : List RuntimeObject} {s : T} {obj' : Stored O} {w1 w2 : W}
        → generate obj (status_of r obj) w ≡ (((objs, (s, none)), obj'), w1)
        → lib.apply (apply_call r lib name opts obj' objs) w1 ≡ (none, w2)
        → statuses.deep_equal (status_of r obj) s ≡ true
        → Applied ((some obj', none), w2)
    -- They are applied, and then the status is sent.
    sent :
        {objs : List RuntimeObject} {s : T} {obj' : Stored O} {w1 w2 w3 : W}
        {new : Option (Stored O)} {new_err : Option Error}
        → generate obj (status_of r obj) w ≡ (((objs, (s, none)), obj'), w1)
        → lib.apply (apply_call r lib name opts obj' objs) w1 ≡ (none, w2)
        → statuses.deep_equal (status_of r obj) s ≡ false
        → update_status (some (with_status r s obj')) w2 ≡ ((new, new_err), w3)
        → Applied ((updated_or (with_status r s obj') (new, new_err), new_err), w3)

  module _ (same : statuses.deep_equal (status_of r obj) (status_of r obj) ≡ true) where
    abbrev finish : (Answer T × Stored O) × W → Answer (Option (Stored O)) × W
    finish = answered r statuses "" update_status (status_of r obj)

    -- After the objects have been applied.
    applied_objects :
        {objs : List RuntimeObject} {s : T} {obj' : Stored O} {w1 : W}
        → generate obj (status_of r obj) w ≡ (((objs, (s, none)), obj'), w1)
        → (b : Option Error × W) → lib.apply (apply_call r lib name opts obj' objs) w1 ≡ b
        → Applied (finish (((s, b.0), obj'), b.1))
    unfolding answered new_status send_status
    applied_objects gives (some e, w2) k = rw same (Applied.unapplied gives k)
    applied_objects {objs} {s} gives (none, w2) k =
        elim (Bool-cases (statuses.deep_equal (status_of r obj) s)) [
          | inl j ↦ rw j (Applied.kept gives k j)
          | inr j ↦ rw j (Applied.sent gives k j refl)
        ]

    generated :
        (a : ((List RuntimeObject × (T × Option Error)) × Stored O) × W)
        → generate obj (status_of r obj) w ≡ a
        → Applied (finish (apply_objects r lib name opts a))
    unfolding answered new_status apply_objects
    generated (((objs, (s, some e)), obj'), w1) k = rw same (Applied.failed k)
    generated (((objs, (s, none)), obj'), w1) k =
        applied_objects k (lib.apply (apply_call r lib name opts obj' objs) w1) refl

    handled :
        (t : Option ℤ)
        → (r.meta obj.object).deletion_timestamp ≡ t
        → Applied (finish (handle_at r lib name opts t generate obj (status_of r obj) w))
    unfolding handle_at answered new_status
    handled none k = generated (generate obj (status_of r obj) w) refl
    handled (some time) k = rw same (Applied.deleted (λ n. cc))

    -- If the status of the object is found equal to itself, a run of the generated handlers without a
    -- condition on an object that is there ends in one of five ways: it is being deleted, and nothing is
    -- done; the handler fails, and its error is returned with nothing applied; the objects are applied
    -- with an error, which is returned with no status sent; they are applied and the status is as it was;
    -- or they are applied and then the status is sent.
    pub sync_handle-Applied :
        (key : String)
        → Applied
            (sync r statuses "" update_status (handle r lib name opts generate) key (some obj) w)
    unfolding handle
    sync_handle-Applied key =
        rw
          (sync-answered r statuses "" update_status (handle r lib name opts generate) key obj w
            refl)
          (handled (r.meta obj.object).deletion_timestamp refl)
