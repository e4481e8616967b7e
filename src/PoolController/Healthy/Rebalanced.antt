-- ===== src/PoolController/Healthy/Rebalanced.antt =====
-- pkg/controllers/instancepool/instancepool.go, `wrapper`: a pool out of balance, on a cluster where
-- nothing fails.
use harvester_equinix_addon.Prelude.{
  ℕ, true, ◌+◌, ◌<◌, ◌≤◌, ◌≡◌, ◌⊎◌, refl, sym, ap, ◌∙◌, inl, inr, false, Option, none, List, ◌∷◌,
  arith, length, Bool-cases,
}
use harvester_equinix_addon.Prelude.Int.{
  ℤ, pos, pos_part, neg_part, ◌+ℤ◌, +ℤ_parts, parts_exclusive,
}
use harvester_equinix_addon.Prelude.Tests.{ltb}
use harvester_equinix_addon.Api.{Instance, InstancePool}
use harvester_equinix_addon.Services.{Services, Error, Call, State, Exit, returned, statements}
use harvester_equinix_addon.PoolController.Prepare.{with_status}
use harvester_equinix_addon.PoolController.Reconcile.{selector, reconciled, reconcile_instances}
use harvester_equinix_addon.PoolController.Reconcile.Counts.{IsModest, Converged, reconciled_lem}
use harvester_equinix_addon.PoolController.Submit.{submit_instances}
use harvester_equinix_addon.PoolController.Submit.Lock.{all_submitted}
use harvester_equinix_addon.PoolController.Submit.Filled.{Filled, submit_instances-Filled}
use harvester_equinix_addon.PoolController.Remove.{remove_instances}
use harvester_equinix_addon.PoolController.Dispatch.{dispatch}
use harvester_equinix_addon.PoolController.Healthy.{Healthy}
use harvester_equinix_addon.PoolController.Healthy.Deleted.{Trimmed, remove_instances-Trimmed}

-- How a count compares with the number of instances.
data Size (c l : ℕ) : Type 0 where
  below : c < l → Size c l
  above : l < c → Size c l
  level : c ≡ l → Size c l

compare_counts : (c l : ℕ) → Size c l
compare_counts c l = elim (Bool-cases (ltb c l)) [
  | inl e ↦ below (ground arith)
  | inr e ↦ elim (Bool-cases (ltb l c)) [
    | inl e' ↦ above (ground arith)
    | inr e' ↦ level (ground arith)
  ]
]

more_parts :
    (z : ℤ) (l c : ℕ)
    → z +ℤ pos l ≡ pos c
    → (l ≤ c → pos_part z + l ≡ c) × (c ≤ l → c + neg_part z ≡ l)
unfolding ◌+ℤ◌
more_parts z l c e = (
  λ k. ground (arith, +ℤ_parts z (pos l), parts_exclusive z),
  λ k. ground (arith, +ℤ_parts z (pos l), parts_exclusive z),
)

module _ {W : Type 0} (env : Services W) (ip : InstancePool) (h : Healthy env ip)
    (s : State W) where
  -- The pool with the status that `reconcileInstances` writes.
  abbrev pub counted : InstancePool
  counted = with_status (reconciled ip.spec.count (h.present s.world) ip.status) ip

  abbrev pub counting : State W
  counting =
      let v = (env.perform (Call.instance_list (selector ip)) s.world).1 in
      record s {
        world = (env.perform (Call.pool_update_status counted) v).1;
        calls = Call.pool_update_status counted ∷ Call.instance_list (selector ip) ∷ s.calls;
      }

  pub reconcile_instances-counting :
      h.settled s.world ≡ true → reconcile_instances env ip s ≡ (returned (counted, none), counting)
  unfolding reconcile_instances statements
  reconcile_instances-counting calm = ground (
    arith,
    h.lists s.world calm,
    h.writes counted (env.perform (Call.instance_list (selector ip)) s.world).1,
  )

  pub present-counting : h.present counting.world ≡ h.present s.world
  present-counting =
      (h.keeps (Call.pool_update_status counted) _ refl).0
      ∙ (h.keeps (Call.instance_list (selector ip)) s.world refl).0

  pub settled-counting : h.settled counting.world ≡ h.settled s.world
  settled-counting =
      (h.keeps (Call.pool_update_status counted) _ refl).1
      ∙ (h.keeps (Call.instance_list (selector ip)) s.world refl).1

  pub dispatch_reconcile :
      (ip.status.status ≡ "submitted") ⊎ (ip.status.status ≡ "ready")
      → dispatch env ip s ≡ reconcile_instances env ip s
  unfolding dispatch
  dispatch_reconcile (inl e) = rw e refl
  dispatch_reconcile (inr e) = rw e refl

  dispatch_submit : ip.status.status ≡ "tokenReady" → dispatch env ip s ≡ submit_instances env ip s
  unfolding dispatch
  dispatch_submit e = rw e refl

  dispatch_remove :
      ip.status.status ≡ "cleanupNodes" → dispatch env ip s ≡ remove_instances env ip s
  unfolding dispatch
  dispatch_remove e = rw e refl

  -- A handler has returned a pool and no error, `c` instances stay in the cluster, and the mutex is free.
  abbrev Balanced : ℕ → Exit (InstancePool × Option Error) × State W → Type 0
  Balanced c (r, t) =
      ((q : InstancePool) × r ≡ returned (q, none))
      × (length (h.present t.world) ≡ c)
      × (t.locked ≡ false)

  Filled-Balanced :
      (c : ℕ) (x : Exit (InstancePool × Option Error) × State W)
      → pos_part ip.status.needed + length (h.present s.world) ≡ c
      → Filled env ip h s x
      → Balanced c x
  Filled-Balanced c (r, t) e (a, b, l) = ((all_submitted ip, a), omega arith, l)

  Trimmed-Balanced :
      (c : ℕ) (x : Exit (InstancePool × Option Error) × State W)
      → c + neg_part ip.status.needed ≡ length (h.present s.world)
      → s.locked ≡ false
      → Trimmed env ip h s x
      → Balanced c x
  Trimmed-Balanced c (r, t) e free (a, b, l) = (a, omega arith, l ∙ free)

  Balanced_submit :
      (c : ℕ)
      → ip.status.status ≡ "tokenReady"
      → pos_part ip.status.needed + length (h.present s.world) ≡ c
      → s.locked ≡ false
      → Balanced c (dispatch env ip s)
  Balanced_submit c k e free =
      rw (dispatch_submit k)
        (Filled-Balanced c (submit_instances env ip s) e (submit_instances-Filled env ip h s free))

  Balanced_remove :
      (c : ℕ)
      → ip.status.status ≡ "cleanupNodes"
      → c + neg_part ip.status.needed ≡ length (h.present s.world)
      → c < length (h.present s.world)
      → h.settled s.world ≡ true
      → s.locked ≡ false
      → Balanced c (dispatch env ip s)
  Balanced_remove c k e some_left calm free = rw (dispatch_remove k) (
      Trimmed-Balanced c (remove_instances env ip s) e free
        (remove_instances-Trimmed env ip h s calm (omega arith) (omega arith)))

  Balanced_reconcile :
      (c : ℕ)
      → (ip.status.status ≡ "submitted") ⊎ (ip.status.status ≡ "ready")
      → length (h.present s.world) ≡ c
      → h.settled s.world ≡ true
      → s.locked ≡ false
      → Balanced c (dispatch env ip s)
  Balanced_reconcile c k e calm free =
      rw (dispatch_reconcile k, reconcile_instances-counting calm)
        ((counted, refl), ap length present-counting ∙ e, free)

module _ {W : Type 0} (env : Services W) (ip : InstancePool) (h : Healthy env ip) (s : State W)
    (c : ℕ) (wanted : ip.spec.count ≡ pos c)
    (known : (ip.status.status ≡ "submitted") ⊎ (ip.status.status ≡ "ready"))
    (modest : IsModest (pos c) (h.present s.world)) (calm : h.settled s.world ≡ true)
    (off : ¬ Converged (pos c) (h.present s.world) ip.status) (free : s.locked ≡ false) where
  abbrev present : List Instance
  present = h.present s.world

  abbrev pool : InstancePool
  pool = counted env ip h s

  abbrev after : State W
  after = counting env ip h s

  status_eq : pool.status ≡ reconciled (pos c) present ip.status
  status_eq = ap (λ n. reconciled n present ip.status) wanted

  size_eq : length (h.present after.world) ≡ length present
  size_eq = ap length (present-counting env ip h s)

  needs : pool.status.needed +ℤ pos (length present) ≡ pos c
  needs = rw status_eq ((reconciled_lem (pos c) present ip.status modest).1 off).1

  still :
      (reconciled (pos c) present ip.status).status ≡ ip.status.status
      → (pool.status.status ≡ "submitted") ⊎ (pool.status.status ≡ "ready")
  still same = rw (status_eq, same) known

  second : Balanced env pool h after c (dispatch env pool after)
  second =
      let (_, _, few, many, same) = (reconciled_lem (pos c) present ip.status modest).1 off in
      let (up, down) = more_parts pool.status.needed (length present) c needs in
      elim (compare_counts c (length present)) [
        | below k ↦
            Balanced_remove env pool h after c (ap (λ st. st.status) status_eq ∙ few (omega arith))
              (down (omega arith) ∙ sym size_eq) (omega (arith, size_eq))
              (settled-counting env ip h s ∙ calm) free
        | above k ↦
            Balanced_submit env pool h after c (ap (λ st. st.status) status_eq ∙ many (omega arith))
              (ap (λ n. pos_part pool.status.needed + n) size_eq ∙ up (omega arith)) free
        | level k ↦
            Balanced_reconcile env pool h after c (still (same (ap pos k))) (size_eq ∙ sym k)
              (settled-counting env ip h s ∙ calm) free
      ]

  -- A pool that is submitted or ready, on a cluster where nothing fails, no instance is being deleted, and
  -- an instance that is created is listed if it has the label of the pool, with the mutex free: if not as many instances are managed and were requested as are wanted, and the
  -- numbers are in a range where the subtraction does not wrap, two rounds of the controller end without
  -- an error, with exactly as many instances that stay in the cluster as are wanted, and the mutex free.
  pub rebalanced :
      let first = dispatch env ip s in
      (first ≡ (returned (pool, none), after))
      × (let (r, t) = dispatch env pool after in
          ((q : InstancePool) × r ≡ returned (q, none))
          × (length (h.present t.world) ≡ c)
          × (t.locked ≡ false))
  rebalanced =
      (dispatch_reconcile env ip h s known ∙ reconcile_instances-counting env ip h s calm, second)
