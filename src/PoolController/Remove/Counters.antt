-- ===== src/PoolController/Remove/Counters.antt =====
-- pkg/controllers/instancepool/instancepool.go, `removeInstances`: the counters after some rounds.
use harvester_equinix_addon.Prelude.{ℕ, zero, suc, ◌+◌, ◌≤◌, ◌<◌, ◌≡◌, refl, ◌∙◌, arith}
use harvester_equinix_addon.Prelude.Int.{
  ℤ, pos, negsuc, pos_part, neg_part, ◌-ℤ◌, ◌+ℤ◌, IsInt64, wrap64_id, -ℤ_parts, eq_of_parts,
}
use harvester_equinix_addon.Api.{InstancePool}
use harvester_equinix_addon.PoolController.Remove.{one_removed, many_removed}

-- The integer -n.
abbrev pub neg : ℕ → ℤ
neg zero = pos 0
neg (suc n) = negsuc n

one_up : (n : ℕ) → neg (suc n) +ℤ pos 1 ≡ neg n
unfolding ◌+ℤ◌
one_up zero = refl
one_up (suc n) = ground arith

neg_room : (n : ℕ) → n < 9223372036854775808 → IsInt64 (neg n)
neg_room zero h = omega arith
neg_room (suc n) h = omega arith

needed-one_removed :
    (ip : InstancePool) (n : ℕ)
    → ip.status.needed ≡ neg (suc n)
    → n < 9223372036854775808
    → (one_removed ip).status.needed ≡ neg n
unfolding one_removed
needed-one_removed ip n h b = rw (h, one_up n) (wrap64_id (neg n) (neg_room n b))

pub needed-many_removed :
    (n : ℕ) (ip : InstancePool)
    → ip.status.needed ≡ neg n
    → n ≤ 9223372036854775808
    → (many_removed n ip).status.needed ≡ pos 0
needed-many_removed zero ip h b = h
needed-many_removed (suc n) ip h b =
    needed-many_removed n (one_removed ip) (needed-one_removed ip n h (omega arith)) (omega arith)

-- A number from which `n` can be taken with no wrap.
abbrev pub HasRoom : ℕ → ℤ → Type 0
HasRoom n a = (pos_part a < 9223372036854775808) × (neg_part a + n ≤ 9223372036854775808)

requested-one_removed :
    (ip : InstancePool) (n : ℕ)
    → HasRoom (suc n) ip.status.requested
    → (one_removed ip).status.requested ≡ ip.status.requested -ℤ pos 1
unfolding one_removed ◌-ℤ◌
requested-one_removed ip n h = wrap64_id _ (ground arith)

minus_one : (a : ℤ) (n : ℕ) → a -ℤ pos 1 -ℤ pos n ≡ a -ℤ pos (suc n)
minus_one a n = omega (arith, -ℤ_parts, eq_of_parts)

minus_room : (a : ℤ) (n : ℕ) → HasRoom (suc n) a → HasRoom n (a -ℤ pos 1)
unfolding ◌-ℤ◌
minus_room (pos zero) n h = ground arith
minus_room (pos (suc k)) n h = ground arith
minus_room (negsuc k) n h = ground arith

pub requested-many_removed :
    (n : ℕ) (ip : InstancePool)
    → HasRoom n ip.status.requested
    → (many_removed n ip).status.requested ≡ ip.status.requested -ℤ pos n
requested-many_removed zero ip h = unfold ◌-ℤ◌ in ground arith
requested-many_removed (suc n) ip h =
    let step = requested-one_removed ip n h in
    requested-many_removed n (one_removed ip) (rw step (minus_room _ n h))
    ∙ rw step (minus_one ip.status.requested n)
