-- ===== src/Prelude/Text.antt =====
-- Texts that are compared whole, and Go's `map[string]string` as an association list.
use Prim.Native.String.{String}
use mathlib.Core.Path.{◌≡◌, refl}
use mathlib.Core.Logic.{◌↔◌}
use mathlib.Core.Bool.{Bool, true, not}
use mathlib.Core.Option.{Option, none, some}
use mathlib.Core.List.{List, [], ◌∷◌}
use text.Mathlib.Text.{◌==◌ as str_eq}
use text.Mathlib.TextEquality
use harvester_equinix_addon.Prelude.Tests.{if◌then◌else◌}

infix 50 ◌==◌ ◌!=◌
abbrev pub ◌==◌ : String → String → Bool
a == b = str_eq a b

abbrev pub ◌!=◌ : String → String → Bool
a != b = not (a == b)

infixl 65 ◌<>◌
abbrev pub ◌<>◌ : String → String → String
a <> b = Prim.Native.String.◌++◌ a b

pub eq_iff : (s t : String) → ((s == t) ≡ true) ↔ (s ≡ t)
eq_iff s t = TextEquality.eq_iff s t

pub eq_refl : (s : String) → (s == s) ≡ true
eq_refl s = (eq_iff s s).1 refl

module _ {ℓ} {V : Type ℓ} where
  unfoldable pub lookup : String → List (String × V) → Option V
  lookup k [] = none
  lookup k ((j, v) ∷ m) = if j == k then some v else lookup k m

  -- `m[k] = v`
  unfoldable pub insert : String → V → List (String × V) → List (String × V)
  insert k v [] = (k, v) ∷ []
  insert k v ((j, w) ∷ m) = if j == k then (k, v) ∷ m else (j, w) ∷ insert k v m

-- `m[k]` of a `map[string]string`: the zero value where the key is missing.
unfoldable pub get : String → List (String × String) → String
get k [] = ""
get k ((j, v) ∷ m) = if j == k then v else get k m
