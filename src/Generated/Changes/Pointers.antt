-- ===== src/Generated/Changes/Pointers.antt =====
-- `Update…DeepCopyOnChange` on pointers into memory, and that it is the one on values.
use harvester_equinix_addon.Prelude.{
  ℕ, Bool, false, not, ◌&&◌, ◌≤◌, ◌≡◌, refl, ap, inl, inr, Option, none, some, List, length,
  Bool-cases, if◌then◌else◌,
}
use harvester_equinix_addon.Prelude.Text.{◌==◌}
use harvester_equinix_addon.Services.{Error}
use harvester_equinix_addon.Copies.Cells.{Address}
use harvester_equinix_addon.Copies.Copier.{Copier, IsDeep}
use harvester_equinix_addon.Copies.Apart.{Writes, Writes-trans, original_stays}
use harvester_equinix_addon.Generated.Objects.{Stored, Answer}
use harvester_equinix_addon.Generated.Changes.{ChangeHandler, object_or, update_deep_copy_on_change}

abbrev pub pointer_or : Address → Address → Address
pointer_or copied none = copied
pointer_or copied (some a) = some a

module _ {O : Type 0} (deep_equal : Stored O → Stored O → Bool) where
  abbrev pub is_to_send : Stored O → Stored O → Bool
  is_to_send obj new = obj.resource_version == new.resource_version && not (deep_equal obj new)

  -- The test on what the pointers show. Neither of them dangles or is nil.
  abbrev differs : Option (Option (Stored O)) → Option (Option (Stored O)) → Bool
  differs (some (some obj)) (some (some new)) = is_to_send obj new
  differs _ _ = false

  module _ {K W : Type 0} (c : Copier K Address (Option (Stored O)))
      (update : Address → List K × W → Answer Address × (List K × W)) where
    unfoldable pub update_in_memory :
        Address
        → (Address → List K × W → Answer Address × (List K × W))
        → List K × W
        → Answer Address × (List K × W)
    update_in_memory none handler m = ((none, none), m)
    update_in_memory (some a) handler (h, w) =
        let (copied, h1) = c.copy (some a) h in
        let ((new, err), (h2, w1)) = handler copied (h1, w) in
        let copy_obj = pointer_or copied new in
        if differs (c.read h2 (some a)) (c.read h2 copy_obj)
        then update copy_obj (h2, w1)
        else ((copy_obj, err), (h2, w1))

    -- What is done after the handler.
    abbrev finish : ℕ → Address → Answer Address × (List K × W) → Answer Address × (List K × W)
    finish a copied ((new, err), (h, w)) =
        let copy_obj = pointer_or copied new in
        if differs (c.read h (some a)) (c.read h copy_obj)
        then update copy_obj (h, w)
        else ((copy_obj, err), (h, w))

    finished :
        (handler : Address → List K × W → Answer Address × (List K × W)) (a : ℕ) (h : List K)
        (w : W) {x : Answer Address × (List K × W)}
        → handler (c.copy (some a) h).0 ((c.copy (some a) h).1, w) ≡ x
        → update_in_memory (some a) handler (h, w) ≡ finish a (c.copy (some a) h).0 x
    unfolding update_in_memory
    finished handler a h w e = ap (finish a (c.copy (some a) h).0) e

    -- What is shown in memory is the value, and the original is as it was.
    pub record Refines (a : ℕ) (obj : Stored O) (r : Answer Address × (List K × W))
        (v : Answer (Option (Stored O)) × W) : Type 0 where
      pub shows : c.read r.1.0 r.0.0 ≡ some v.0.0
      pub fails : r.0.1 ≡ v.0.1
      pub leaves : r.1.1 ≡ v.1
      pub keeps : c.read r.1.0 (some a) ≡ some (some obj)

    module _ (d : IsDeep c)
        (update_value : Option (Stored O) → W → Answer (Option (Stored O)) × W) where
      abbrev finish_value :
          Stored O → (Answer (Option (Stored O)) × Stored O) × W → Answer (Option (Stored O)) × W
      finish_value obj (((new, err), copied), w) =
          let copy_obj = object_or copied new in
          if is_to_send obj copy_obj
          then update_value (some copy_obj) w
          else ((some copy_obj, err), w)

      finished_value :
          (handler : ChangeHandler O W) (obj : Stored O) (w : W)
          {x : (Answer (Option (Stored O)) × Stored O) × W}
          → handler obj w ≡ x
          → update_deep_copy_on_change deep_equal update_value (some obj) handler w
            ≡ finish_value obj x
      unfolding update_deep_copy_on_change
      finished_value handler obj w e = ap (finish_value obj) e

      -- For a copier that is deep, a pointer to an object, a handler that writes only to what was not in
      -- memory before the copy, and of which the result shows what the handler on values gives, and an
      -- update that writes only there and shows what the one on values gives: the pointer that comes back
      -- shows the object that comes back on values, the error and the outside are the same, and the
      -- original reads as before.
      pub update_in_memory-Refines :
          (handler : Address → List K × W → Answer Address × (List K × W))
          (handler_value : ChangeHandler O W) (a : ℕ) (h h2 h3 : List K) (w w1 w2 : W)
          {obj copied : Stored O} {new : Address} {new_value : Option (Stored O)}
          {err err' : Option Error} {q : Address} {sent : Option (Stored O)}
          → let p : Address = (c.copy (some a) h).0 in
            let h1 : List K = (c.copy (some a) h).1 in
            c.read h (some a) ≡ some (some obj)
            → handler p (h1, w) ≡ ((new, err), (h2, w1))
            → Writes (λ b. length h ≤ b) h1 h2
            → handler_value obj w ≡ (((new_value, err), copied), w1)
            → c.read h2 (pointer_or p new) ≡ some (some (object_or copied new_value))
            → update (pointer_or p new) (h2, w1) ≡ ((q, err'), (h3, w2))
            → Writes (λ b. length h ≤ b) h2 h3
            → update_value (some (object_or copied new_value)) w1 ≡ ((sent, err'), w2)
            → c.read h3 q ≡ some sent
            → Refines a obj
                (update_in_memory (some a) handler (h, w))
                (update_deep_copy_on_change deep_equal update_value (some obj) handler_value w)
      update_in_memory-Refines handler handler_value a h h2 h3 w w1 w2 {obj} {copied} {new}
            {new_value} e runs writes runs_value reads sends writes' sends_value reads' =
          let kept = original_stays c d (some a) h h2 e writes in
          let kept' = original_stays c d (some a) h h3 e (Writes-trans writes writes') in
          let n = object_or copied new_value in
          rw
            (
              finished handler a h w runs,
              finished_value handler_value obj w runs_value,
              kept,
              reads,
            )
            (elim (Bool-cases (is_to_send obj n)) [
              | inl k ↦
                  rw (k, sends, sends_value)
                    (record { shows = reads'; fails = refl; leaves = refl; keeps = kept' })
              | inr k ↦ rw k (record { shows = reads; fails = refl; leaves = refl; keeps = kept })
            ])
