-- ===== src/Util/Finalizers.antt =====
-- pkg/util/util.go, `ContainsFinalizer` and `RemoveFinalizer` together.
use harvester_equinix_addon.Prelude.{
  String, ◌≡◌, refl, ◌≢◌, Bool, true, false, List, [], ◌∷◌, if◌then◌else◌, arith, All,
}
use harvester_equinix_addon.Prelude.Text.{◌!=◌, eq_iff}
use harvester_equinix_addon.Util.{contains_finalizer, remove_from, remove_finalizer}

abbrev pub is_nonempty : List String → Bool
is_nonempty [] = false
is_nonempty (v ∷ arr) = true

remove_from-absent :
    (arr : List String) (key : String) (m : Bool)
    → contains_finalizer (remove_from arr key m).0 key ≡ false
unfolding remove_from contains_finalizer
remove_from-absent [] key m = refl
remove_from-absent (v ∷ arr) key m =
    ground (arith, remove_from-absent arr key (if v != key then true else m))

remove_from-others :
    (arr : List String) (key other : String) (m : Bool)
    → other ≢ key
    → contains_finalizer (remove_from arr key m).0 other ≡ contains_finalizer arr other
unfolding remove_from contains_finalizer
remove_from-others [] key other m h = refl
remove_from-others (v ∷ arr) key other m h = ground (
  arith,
  eq_iff v key,
  eq_iff v other,
  remove_from-others arr key other (if v != key then true else m) h,
)

remove_from-modified :
    (arr : List String) (key : String) (m : Bool)
    → (remove_from arr key m).1 ≡ (if is_nonempty (remove_from arr key m).0 then true else m)
unfolding remove_from
remove_from-modified [] key m = refl
remove_from-modified (v ∷ arr) key m =
    ground (arith, remove_from-modified arr key (if v != key then true else m))

-- Removing a finalizer leaves a list without it, in which every other finalizer is found exactly if
-- it was found before.
pub remove-contains :
    (arr : List String) (key other : String)
    → (contains_finalizer (remove_finalizer arr key).0 key ≡ false)
      × (other ≢ key
          → contains_finalizer (remove_finalizer arr key).0 other ≡ contains_finalizer arr other)
unfolding remove_finalizer
remove-contains arr key other =
    (remove_from-absent arr key false, remove_from-others arr key other false)

-- The second result says that a finalizer was kept, not that one was removed.
pub modified-kept :
    (arr : List String) (key : String)
    → (remove_finalizer arr key).1 ≡ is_nonempty (remove_finalizer arr key).0
unfolding remove_finalizer
modified-kept arr key = ground (arith, remove_from-modified arr key false)

-- A list that holds the key alone.
abbrev pub Sole : String → List String → Type 0
Sole key arr = All (λ v. v ≡ key) arr

remove_from-Sole :
    (arr : List String) (key : String) (m : Bool) → Sole key arr → remove_from arr key m ≡ ([], m)
unfolding remove_from
remove_from-Sole [] key m h = refl
remove_from-Sole (v ∷ arr) key m h = ground (arith, eq_iff v key, remove_from-Sole arr key m h.1)

-- From a list that holds the key alone everything is removed, and `modified` is not set.
pub remove-Sole :
    (arr : List String) (key : String) → Sole key arr → remove_finalizer arr key ≡ ([], false)
unfolding remove_finalizer
remove-Sole arr key h = remove_from-Sole arr key false h
