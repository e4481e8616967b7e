-- ===== src/Copies/Slices.antt =====
-- The copies of the slices and maps that stand in the custom resources.
use harvester_equinix_addon.Prelude.{
  String, Bool, true, false, ◌&&◌, not, ◌≡◌, refl, ◌∙◌, sym, Option, none, some, List, [], ◌∷◌,
  ◌++◌, if◌then◌else◌, arith,
}
use mathlib.Core.List.{append_assoc, append-nil}
use harvester_equinix_addon.Prelude.Int.{ℤ, pos}
use harvester_equinix_addon.Prelude.Text.{◌==◌, insert}
use harvester_equinix_addon.Api.{StringMap}
use harvester_equinix_addon.Copies.Cells.{
  Address, Cell, open_strings, open_string_map, open_duration,
}
use harvester_equinix_addon.Copies.Copier.{Copier, IsDeep}
use harvester_equinix_addon.Copies.Rules.{plain, plain-IsDeep, value, value-IsDeep}
use harvester_equinix_addon.Copies.Box.{box, box-IsDeep}

-- `make([]string, len(in))`
abbrev zeros : List String → List String
zeros [] = []
zeros (x ∷ xs) = "" ∷ zeros xs

unfoldable pub has_key : String → StringMap → Bool
has_key key [] = false
has_key key ((k, v) ∷ m) = if k == key then true else has_key key m

-- No key of the map stands in front of it, in `seen` or in the map itself.
unfoldable pub is_map_after : StringMap → StringMap → Bool
unfolding has_key
is_map_after seen [] = true
is_map_after seen ((k, v) ∷ m) = not (has_key k seen) && is_map_after (seen ++ (k, v) ∷ []) m

-- A list of entries is a map if no key stands in it twice.
unfoldable pub look_map : StringMap → Option StringMap
unfolding is_map_after
look_map m = if is_map_after [] m then some m else none

-- `for key, val := range in { out[key] = val }`
unfoldable pub insert_all : StringMap → StringMap → StringMap
unfolding insert
insert_all out [] = out
insert_all out ((key, val) ∷ m) = insert_all (insert key val out) m

insert_new : (k v : String) (m : StringMap) → has_key k m ≡ false → insert k v m ≡ m ++ (k, v) ∷ []
unfolding insert has_key
insert_new k v [] h = refl
insert_new k v ((j, w) ∷ m) h = ground (arith, insert_new k v m)

insert_all-append :
    (seen m : StringMap) → is_map_after seen m ≡ true → insert_all seen m ≡ seen ++ m
unfolding insert_all is_map_after
insert_all-append seen [] h = sym (append-nil seen)
insert_all-append seen ((k, v) ∷ m) h =
    let new : has_key k seen ≡ false = ground arith in
    let others : is_map_after (seen ++ (k, v) ∷ []) m ≡ true = ground arith in
    rw (insert_new k v seen new)
      (insert_all-append (seen ++ (k, v) ∷ []) m others ∙ append_assoc seen ((k, v) ∷ []) m)

look_map-insert_all : (m n : StringMap) → look_map m ≡ some n → look_map (insert_all [] m) ≡ some n
unfolding look_map
look_map-insert_all m n e =
    let fits : is_map_after [] m ≡ true = ground arith in rw (insert_all-append [] m fits) e

module _ {F M N : Type 0} where
  -- A slice of texts: `make` and `copy`.
  abbrev pub strings : Copier (Cell F M N) Address (Option (List String))
  strings = box value Cell.strings open_strings zeros

  pub strings-IsDeep : IsDeep strings
  strings-IsDeep = box-IsDeep value Cell.strings open_strings zeros value-IsDeep (λ e. refl)

  -- A map of texts: `make`, and a range that fills it.
  abbrev pub string_map : Copier (Cell F M N) Address (Option StringMap)
  string_map = box (plain look_map (insert_all [])) Cell.string_map open_string_map (λ m. [])

  pub string_map-IsDeep : IsDeep string_map
  string_map-IsDeep =
      box-IsDeep (plain look_map (insert_all [])) Cell.string_map open_string_map (λ m. [])
        (plain-IsDeep look_map (insert_all []) look_map-insert_all) (λ e. refl)

  -- A pointer to a duration.
  abbrev pub duration : Copier (Cell F M N) Address (Option ℤ)
  duration = box value Cell.duration open_duration (λ d. pos 0)

  pub duration-IsDeep : IsDeep duration
  duration-IsDeep =
      box-IsDeep value Cell.duration open_duration (λ d. pos 0) value-IsDeep (λ e. refl)
