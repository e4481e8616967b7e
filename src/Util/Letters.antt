-- ===== src/Util/Letters.antt =====
-- pkg/util/util.go, `RandStringRunes`: the strings that it makes.
use Prim.Native.Char.{Char}
use harvester_equinix_addon.Prelude.{ℕ, zero, suc, ◌<◌, String, ◌≡◌, refl, ap, some, ◌∷◌, arith}
use harvester_equinix_addon.Services.{
  Services, Call, State, Flow, next, return, panic, blocked, Exit, returned, panicked, waiting,
  finish, ◌>>=◌, pure, statements,
}
use harvester_equinix_addon.Util.{letter_runes, rune_at, rand_loop, rand_string_runes}

-- The number of runes of a text.
abbrev pub runes : String → ℕ
runes String.[] = 0
runes (String.◌∷◌ c s) = suc (runes s)

-- A letter of the alphabet of the names.
abbrev pub IsLetter : Char → Type 0
IsLetter c = (i : ℕ) × (rune_at letter_runes i ≡ some c)

abbrev pub Letters : String → Type 0
Letters String.[] = Unit
Letters (String.◌∷◌ c s) = IsLetter c × Letters s

pub rune_at-within : (s : String) (i : ℕ) → i < runes s → (c : Char) × (rune_at s i ≡ some c)
unfolding rune_at
rune_at-within String.[] i h = absurd (omega arith)
rune_at-within (String.◌∷◌ c s) zero h = (c, refl)
rune_at-within (String.◌∷◌ c s) (suc i) h = rune_at-within s i (omega arith)

-- Code that goes on with `n` letters.
abbrev Spelt : {W R : Type 0} → ℕ → Flow R String × State W → Type 0
Spelt n (next str, t) = (runes str ≡ n) × Letters str
Spelt n (return r, t) = ⊥
Spelt n (panic, t) = ⊥
Spelt n (blocked, t) = ⊥

-- What a function has returned is `n` letters.
abbrev pub SpeltOut : {W : Type 0} → ℕ → Exit String × State W → Type 0
SpeltOut n (returned str, t) = (runes str ≡ n) × Letters str
SpeltOut n (panicked, t) = ⊥
SpeltOut n (waiting, t) = ⊥

module _ {W : Type 0} (env : Services W)
    (drawn : (w : W) → (env.perform (Call.rand_intn 52) w).0 < 52) where
  spell_more :
      {R : Type 0} (n : ℕ) (c : Char) (r : Flow R String × State W)
      → IsLetter c
      → Spelt n r
      → Spelt (suc n) (◌>>=◌ (λ (_ : State W). r) (λ rest. pure (String.◌∷◌ c rest)) r.1)
  unfolding ◌>>=◌ pure
  spell_more n c (next str, t) l (h, k) = (ap suc h, (l, k))
  spell_more n c (return r, t) l h = h
  spell_more n c (panic, t) l h = h
  spell_more n c (blocked, t) l h = h

  rand_loop-Spelt : (R : Type 0) (n : ℕ) (s : State W) → Spelt n (rand_loop env {R = R} n s)
  unfolding rand_loop statements
  rand_loop-Spelt R zero s = (refl, tt)
  rand_loop-Spelt R (suc n) s =
      let (i, w) = env.perform (Call.rand_intn 52) s.world in
      let (c, h) = rune_at-within letter_runes i (drawn s.world) in
      let s' = record s { world = w; calls = Call.rand_intn 52 ∷ s.calls } in
      rw h (spell_more n c (rand_loop env n s') (i, h) (rand_loop-Spelt R n s'))

  finish-Spelt :
      (n : ℕ) (r : Flow String String × State W) → Spelt n r → SpeltOut n (finish r.0, r.1)
  finish-Spelt n (next str, t) h = h
  finish-Spelt n (return str, t) h = absurd h
  finish-Spelt n (panic, t) h = absurd h
  finish-Spelt n (blocked, t) h = absurd h

  -- If the random source draws below its bound of 52, the function always returns, and what it returns
  -- is as many letters as are asked for.
  pub rand_string_runes-SpeltOut : (n : ℕ) (s : State W) → SpeltOut n (rand_string_runes env n s)
  unfolding rand_string_runes statements
  rand_string_runes-SpeltOut n s =
      let (t, w) = env.perform Call.now s.world in
      let s' = record s {
        world = (env.perform (Call.rand_seed t) w).1;
        calls = Call.rand_seed t ∷ Call.now ∷ s.calls;
      } in
      finish-Spelt n (rand_loop env n s') (rand_loop-Spelt String n s')
