-- ===== src/PoolController/Reconcile/Counts.antt =====
-- pkg/controllers/instancepool/instancepool.go, `reconcileInstances`: the numbers that it writes.
use harvester_equinix_addon.Prelude.{
  ◌≤◌, ◌≡◌, ◌⊎◌, refl, inl, inr, Bool, true, false, ◌&&◌, List, [], ◌∷◌, arith, length, Bool-cases,
  sym, ap, ◌∙◌,
}
use harvester_equinix_addon.Prelude.Int.{
  ℤ, pos, negsuc, pos_part, neg_part, ◌-ℤ◌, ◌+ℤ◌, ◌<ℤ◌, eqb_ℤ, wrap64, wrap64_id, -ℤ_parts,
  eqb_ℤ→eq, eqb_ℤ_of_eq,
}
use harvester_equinix_addon.Prelude.Text.{eq_iff}
use harvester_equinix_addon.Api.{Instance, InstancePoolStatus}
use harvester_equinix_addon.PoolController.Reconcile.{ready_count, reconciled}

-- Every instance of the list is managed.
abbrev pub AllManaged : List Instance → Type 0
AllManaged [] = Unit
AllManaged (i ∷ is) = (i.status.status ≡ "managed") × AllManaged is

pub ready_count-le-length : (is : List Instance) → ready_count is ≤ length is
unfolding ready_count
ready_count-le-length [] = omega arith
ready_count-le-length (i ∷ is) = ground (arith, ready_count-le-length is)

pub AllManaged-ready_count : (is : List Instance) → AllManaged is → ready_count is ≡ length is
unfolding ready_count
AllManaged-ready_count [] h = refl
AllManaged-ready_count (i ∷ is) h =
    ground (arith, eq_iff i.status.status "managed", AllManaged-ready_count is h.1)

-- A count of a pool that fits the subtraction of the code: the instances are fewer than 2^62, and
-- the count lies between -2^62 and 2^62.
abbrev pub IsModest : ℤ → List Instance → Type 0
IsModest count items =
    (pos_part count ≤ 4611686018427387904)
    × (neg_part count ≤ 4611686018427387904)
    × (length items ≤ 4611686018427387904)

needed_exact :
    (count : ℤ) (items : List Instance)
    → IsModest count items
    → wrap64 (count -ℤ pos (length items)) ≡ count -ℤ pos (length items)
unfolding ◌-ℤ◌
needed_exact (pos n) items h = wrap64_id _ (ground arith)
needed_exact (negsuc n) items h = wrap64_id _ (ground arith)

needed-plus-present :
    (count : ℤ) (items : List Instance) → count -ℤ pos (length items) +ℤ pos (length items) ≡ count
unfolding ◌-ℤ◌ ◌+ℤ◌
needed-plus-present count items = ground arith

both-true : (a b : Bool) → (a && b) ≡ true → (a ≡ true) × (b ≡ true)
both-true a b h = ground arith

module _ (count : ℤ) (items : List Instance) (st : InstancePoolStatus) where
  abbrev pub Converged : Type 0
  Converged = (st.requested ≡ count) × (pos (ready_count items) ≡ count)

  abbrev test : Bool
  test = eqb_ℤ st.requested (pos (ready_count items)) && eqb_ℤ st.requested count

  Converged-test : Converged → test ≡ true
  Converged-test (r, c) = rw (eqb_ℤ_of_eq _ _ (r ∙ sym c), eqb_ℤ_of_eq _ _ r) refl

  test-Converged : test ≡ true → Converged
  test-Converged h =
      let (r, c) = both-true (eqb_ℤ st.requested (pos (ready_count items))) _ h in
      let c' = eqb_ℤ→eq st.requested count c in (c', sym (eqb_ℤ→eq st.requested _ r) ∙ c')

  not-Converged-test : ¬ Converged → test ≡ false
  not-Converged-test h = elim (Bool-cases test) [
    | inl e ↦ absurd (h (test-Converged e))
    | inr e ↦ e
  ]

  -- If as many instances are managed as are wanted, and as many were requested, the pool is ready
  -- and needs none. Otherwise the instances needed and those present add up to those wanted, and
  -- the status says whether some are to be removed or created. The managed ones are counted.
  pub reconciled_lem :
      IsModest count items
      → let st' = reconciled count items st in
        (Converged → (st'.status ≡ "ready") × (st'.needed ≡ pos 0) × (st'.requested ≡ count))
        × (¬ Converged
            → (st'.requested ≡ count)
              × (st'.needed +ℤ pos (length items) ≡ count)
              × (count <ℤ pos (length items) → st'.status ≡ "cleanupNodes")
              × (pos (length items) <ℤ count → st'.status ≡ "tokenReady")
              × (count ≡ pos (length items) → st'.status ≡ st.status))
        × (st'.ready ≡ pos (ready_count items))
        × (st'.token ≡ st.token)
  unfolding reconciled
  reconciled_lem h = (
    λ c. rw (Converged-test c) (refl, refl, c.0),
    λ c.
        rw (not-Converged-test c, needed_exact count items h)
          (
            refl,
            needed-plus-present count items,
            λ k. ground (arith, -ℤ_parts count (pos (length items))),
            λ k. ground (arith, -ℤ_parts count (pos (length items))),
            λ k. ground (arith, -ℤ_parts count (pos (length items))),
          ),
    ground arith,
    ground arith,
  )

  reconciled_of_Converged :
      Converged
      → reconciled count items st
        ≡ record st { status = "ready"; needed = pos 0; ready = pos (ready_count items) }
  unfolding reconciled
  reconciled_of_Converged c = rw (Converged-test c) refl

  -- With as many instances as wanted the status becomes "ready", or stays.
  pub reconciled_status :
      IsModest count items
      → pos (length items) ≡ count
      → ((reconciled count items st).status ≡ "ready")
        ⊎ ((reconciled count items st).status ≡ st.status)
  reconciled_status h e = elim (Bool-cases test) [
    | inl k ↦ inl ((reconciled_lem h).0 (test-Converged k)).0
    | inr k ↦
        let (_, _, _, _, same) = (reconciled_lem h).1 (λ c. absurd (cc (Converged-test c))) in
        inr (same (sym e))
  ]

  requested-reconciled : (reconciled count items st).requested ≡ count
  unfolding reconciled
  requested-reconciled = elim (Bool-cases test) [
    | inl e ↦ rw e (test-Converged e).0
    | inr e ↦ rw e refl
  ]

-- With every instance managed and as many as wanted, two rounds make the pool ready with these
-- numbers, and from there on nothing changes.
pub reconciled_settles :
    (count : ℤ) (items : List Instance) (st : InstancePoolStatus)
    → AllManaged items
    → pos (length items) ≡ count
    → let twice = reconciled count items (reconciled count items st) in
      (twice.status ≡ "ready")
      × (twice.needed ≡ pos 0)
      × (twice.requested ≡ count)
      × (twice.ready ≡ count)
      × (reconciled count items twice ≡ twice)
reconciled_settles count items st h e =
    let all_ready : pos (ready_count items) ≡ count = ap pos (AllManaged-ready_count items h) ∙ e in
    let once : InstancePoolStatus = reconciled count items st in
    let asked : once.requested ≡ count = requested-reconciled count items st in
    let twice : InstancePoolStatus = record once {
      status = "ready";
      needed = pos 0;
      ready = pos (ready_count items);
    } in
    rw (reconciled_of_Converged count items once (asked, all_ready))
      (refl, refl, asked, all_ready, reconciled_of_Converged count items twice (asked, all_ready))
