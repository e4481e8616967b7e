-- ===== src/Prelude/Int.antt =====
-- Go's `int` on a 64-bit machine: an integer, brought back into range by `wrap64` after every
-- addition and subtraction.
use Prim.Native.Nat.{ℕ, suc, ◌+◌, ◌-◌, ◌%◌, ◌≤◌, ◌<◌, compare, Ordering}
use mathlib.Core.Path.{◌≡◌, refl}
use mathlib.Core.Logic.{◌⊎◌, inl, inr}
use mathlib.Core.Bool.{Bool, true, false}
use native.Mathlib.Omega.{arith}
use harvester_equinix_addon.Prelude.Tests.{ltb, leb, if◌then◌else◌}

-- `negsuc n` is -(n + 1).
pub data ℤ : Type 0 where
  pos : ℕ → ℤ
  negsuc : ℕ → ℤ

abbrev pub pos_part : ℤ → ℕ
pos_part (pos n) = n
pos_part (negsuc n) = 0

abbrev pub neg_part : ℤ → ℕ
neg_part (pos n) = 0
neg_part (negsuc n) = suc n

abbrev pub sub_ℕ : ℕ → ℕ → ℤ
sub_ℕ a b = if leb b a then pos (a - b) else negsuc (b - a - 1)

infixl 65 ◌+ℤ◌ ◌-ℤ◌
infix 50 ◌≤ℤ◌ ◌<ℤ◌
unfoldable pub ◌+ℤ◌ : ℤ → ℤ → ℤ
a +ℤ b = sub_ℕ (pos_part a + pos_part b) (neg_part a + neg_part b)

unfoldable pub ◌-ℤ◌ : ℤ → ℤ → ℤ
a -ℤ b = sub_ℕ (pos_part a + neg_part b) (neg_part a + pos_part b)

abbrev pub ◌≤ℤ◌ : ℤ → ℤ → Type 0
a ≤ℤ b = pos_part a + neg_part b ≤ pos_part b + neg_part a

abbrev pub ◌<ℤ◌ : ℤ → ℤ → Type 0
a <ℤ b = pos_part a + neg_part b < pos_part b + neg_part a

abbrev pub ltb_ℤ : ℤ → ℤ → Bool
ltb_ℤ a b = ltb (pos_part a + neg_part b) (pos_part b + neg_part a)

abbrev pub eqb_ℕ : ℕ → ℕ → Bool
eqb_ℕ a b = elim (compare a b) [ Ordering.eq ↦ true | _ ↦ false ]

unfoldable pub eqb_ℤ : ℤ → ℤ → Bool
eqb_ℤ a b = eqb_ℕ (pos_part a + neg_part b) (pos_part b + neg_part a)

-- The value of the low 64 bits, and the signed reading of a 64-bit pattern.
low64 : ℤ → ℕ
low64 z =
    (pos_part z + (18446744073709551616 - neg_part z % 18446744073709551616)) % 18446744073709551616

signed64 : ℕ → ℤ
signed64 u = if ltb u 9223372036854775808 then pos u else negsuc (18446744073709551615 - u)

unfoldable pub wrap64 : ℤ → ℤ
unfolding low64 signed64
wrap64 z = signed64 (low64 z)

-- An integer that an `int` holds.
abbrev pub IsInt64 : ℤ → Type 0
IsInt64 z = (pos_part z < 9223372036854775808) × (neg_part z ≤ 9223372036854775808)

pub wrap64_id : (z : ℤ) → IsInt64 z → wrap64 z ≡ z
unfolding wrap64
wrap64_id (pos n) h = ground arith
wrap64_id (negsuc n) h = ground arith

pub wrap64-IsInt64 : (z : ℤ) → IsInt64 (wrap64 z)
unfolding wrap64
wrap64-IsInt64 z = ground arith

pub +ℤ_parts :
    (a b : ℤ)
    → pos_part (a +ℤ b) + neg_part a + neg_part b ≡ neg_part (a +ℤ b) + pos_part a + pos_part b
unfolding ◌+ℤ◌
+ℤ_parts a b = ground arith

pub -ℤ_parts :
    (a b : ℤ)
    → pos_part (a -ℤ b) + neg_part a + pos_part b ≡ neg_part (a -ℤ b) + pos_part a + neg_part b
unfolding ◌-ℤ◌
-ℤ_parts a b = ground arith

-- One of the two parts is zero.
pub parts_exclusive : (a : ℤ) → (pos_part a ≡ 0) ⊎ (neg_part a ≡ 0)
parts_exclusive (pos n) = inr refl
parts_exclusive (negsuc n) = inl refl

pub eq_of_parts : (a b : ℤ) → pos_part a + neg_part b ≡ pos_part b + neg_part a → a ≡ b
eq_of_parts a b h = ground arith

pub eqb_ℤ_of_eq : (a b : ℤ) → a ≡ b → eqb_ℤ a b ≡ true
unfolding eqb_ℤ
eqb_ℤ_of_eq a b h = ground arith

pub eqb_ℤ→eq : (a b : ℤ) → eqb_ℤ a b ≡ true → a ≡ b
unfolding eqb_ℤ
eqb_ℤ→eq a b h = ground arith
