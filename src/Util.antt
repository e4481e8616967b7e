-- ===== src/Util.antt =====
-- pkg/util/util.go: the finalizer lists and the random names. `strings.ToLower` is written out for the
-- ASCII letters, the only characters that the program hands to it.
pub mod Finalizers
pub mod Calls
pub mod Letters
use Prim.Native.Char.{Char, code}
use harvester_equinix_addon.Prelude.{
  ℕ, zero, suc, String, Bool, true, false, List, [], ◌∷◌, Option, none, some, if◌then◌else◌,
}
use harvester_equinix_addon.Prelude.Int.{eqb_ℕ}
use harvester_equinix_addon.Prelude.Text.{◌==◌, ◌!=◌}
use harvester_equinix_addon.Services.{
  Services, Call, Code, Func, ◌>>=◌, ◌>>◌, pure, or_crash, body, run, invoke,
}

unfoldable pub contains_finalizer : List String → String → Bool
contains_finalizer [] key = false
contains_finalizer (v ∷ arr) key = if v == key then true else contains_finalizer arr key

-- The loop of `RemoveFinalizer`, with the value of `modified` that it starts from.
remove_from : List String → String → Bool → List String × Bool
remove_from [] key modified = ([], modified)
remove_from (v ∷ arr) key modified =
    let (out, m) = remove_from arr key (if v != key then true else modified) in
    (if v != key then v ∷ out else out, m)

unfoldable pub remove_finalizer : List String → String → List String × Bool
unfolding remove_from
remove_finalizer arr key = remove_from arr key false

abbrev pub letter_runes : String
letter_runes = "abcdefghijklmnopqrstuvwxyzABCDEFGHIJKLMNOPQRSTUVWXYZ"

-- `s[i]` of a slice of runes; `none` is an index out of range.
unfoldable pub rune_at : String → ℕ → Option Char
rune_at String.[] i = none
rune_at (String.◌∷◌ c s) zero = some c
rune_at (String.◌∷◌ c s) (suc i) = rune_at s i

-- `c`, or the character that stands in `to` where `c` stands in `from`.
translate : String → String → Char → Char
translate (String.◌∷◌ a from) (String.◌∷◌ b to) c =
    if eqb_ℕ (code a) (code c) then b else translate from to c
translate _ _ c = c

to_lower : String → String
unfolding translate
to_lower String.[] = ""
to_lower (String.◌∷◌ c s) =
    String.◌∷◌ (translate "ABCDEFGHIJKLMNOPQRSTUVWXYZ" "abcdefghijklmnopqrstuvwxyz" c) (to_lower s)

module _ {W : Type 0} (env : Services W) where
  -- The loop over the `n` runes that are left.
  unfoldable pub rand_loop : {R : Type 0} → ℕ → Code W R String
  rand_loop zero = pure ""
  rand_loop (suc n) = do
    i ← invoke env (Call.rand_intn 52)
    c ← or_crash (rune_at letter_runes i)
    rest ← rand_loop n
    pure (String.◌∷◌ c rest)

  unfoldable pub rand_string_runes : ℕ → Func W String
  unfolding rand_loop rune_at
  rand_string_runes n = body do t ← invoke env Call.now; invoke env (Call.rand_seed t); rand_loop n

  unfoldable pub lower_rand_string_runes : ℕ → Func W String
  unfolding rand_string_runes to_lower
  lower_rand_string_runes n = body do s ← run (rand_string_runes n); pure (to_lower s)
