-- ===== src/PoolController/Healthy/Deleted.antt =====
-- pkg/controllers/instancepool/instancepool.go, `removeInstances` on a cluster where nothing fails.
use harvester_equinix_addon.Prelude.{
  ℕ, true, zero, suc, ◌+◌, ◌≤◌, ◌≡◌, refl, ap, ◌∙◌, inl, inr, Option, none, List, [], ◌∷◌, arith,
  length, Option-cases,
}
use harvester_equinix_addon.Prelude.Int.{neg_part}
use harvester_equinix_addon.Api.{Instance, InstancePool}
use harvester_equinix_addon.Services.{
  Services, Error, Call, State, Flow, next, return, panic, blocked, Exit, returned, panicked,
  waiting, statements,
}
use harvester_equinix_addon.PoolController.Prepare.{with_status}
use harvester_equinix_addon.PoolController.Reconcile.{selector}
use harvester_equinix_addon.PoolController.Remove.{
  last_item, drop_last, one_removed, many_removed, remove_rounds, remove_instances,
}
use harvester_equinix_addon.PoolController.Remove.Rounds.{
  last_split, length-drop_last, deleted, step_deleted,
}
use harvester_equinix_addon.PoolController.Healthy.{Healthy}

last_none-length {ℓ} : {A : Type ℓ} (xs : List A) → last_item xs ≡ none → length xs ≡ 0
unfolding last_item
last_none-length [] h = refl
last_none-length (a ∷ []) h = cc
last_none-length (a ∷ b ∷ xs) h = cc (last_none-length (b ∷ xs) h)

nonempty {ℓ} :
    {A : Type ℓ} (xs : List A) → 1 ≤ length xs → (x : A) × (rest : List A) × (xs ≡ x ∷ rest)
nonempty [] h = absurd (omega arith)
nonempty (x ∷ xs) h = (x, xs, refl)

module _ {W : Type 0} (env : Services W) (ip : InstancePool) (h : Healthy env ip) where
  -- The rounds go on with the pool less `n`, the cluster has lost `n` of `m` instances, and the mutex
  -- is as it was.
  abbrev Deleted :
      ℕ
      → ℕ
      → InstancePool
      → State W
      → Flow (InstancePool × Option Error) InstancePool × State W
      → Type 0
  Deleted n m p s (next q, t) =
      (q ≡ many_removed n p) × (length (h.present t.world) + n ≡ m) × (t.locked ≡ s.locked)
  Deleted n m p s (return r, t) = ⊥
  Deleted n m p s (panic, t) = ⊥
  Deleted n m p s (blocked, t) = ⊥

  one_more-Deleted :
      (n m : ℕ) (p : InstancePool) (s t : State W)
      (r : Flow (InstancePool × Option Error) InstancePool × State W)
      → t.locked ≡ s.locked
      → Deleted n m (one_removed p) t r
      → Deleted (suc n) (suc m) p s r
  one_more-Deleted n m p s t (next q, u) e (a, b, c) = (a, omega arith, c ∙ e)
  one_more-Deleted n m p s t (return r, u) e d = d
  one_more-Deleted n m p s t (panic, u) e d = d
  one_more-Deleted n m p s t (blocked, u) e d = d

  remove_rounds-Deleted :
      (n : ℕ) (p : InstancePool) (items : List Instance) (s : State W)
      → h.present s.world ≡ items
      → n ≤ length items
      → Deleted n (length items) p s (remove_rounds env n p items s)
  remove_rounds-Deleted zero p items s e l =
      unfold remove_rounds statements in (refl, omega (arith, ap length e), refl)
  remove_rounds-Deleted (suc n) p items s e l = elim (Option-cases (last_item items)) [
    | inl k ↦ absurd (omega (arith, last_none-length items k))
    | inr (x, k) ↦
        rw
          (
            step_deleted env n p items s x k (h.deletes x.meta.name s.world),
            length-drop_last items x k,
          )
          (one_more-Deleted n (length (drop_last items)) p s (deleted env x s) _ refl (
            remove_rounds-Deleted n (one_removed p) (drop_last items) (deleted env x s)
              (h.shrinks (drop_last items) x s.world (e ∙ last_split items x k))
              (omega (arith, length-drop_last items x k))))
  ]

  -- `remove_instances` returns a pool and no error, leaves the mutex, and has deleted as many instances
  -- as there were too many.
  abbrev pub Trimmed : State W → Exit (InstancePool × Option Error) × State W → Type 0
  Trimmed s (r, t) =
      ((q : InstancePool) × r ≡ returned (q, none))
      × (length (h.present t.world) + neg_part ip.status.needed ≡ length (h.present s.world))
      × (t.locked ≡ s.locked)

  module _ (s : State W) (calm : h.settled s.world ≡ true) where
    abbrev listing : State W
    listing = record s {
      world = (env.perform (Call.instance_list (selector ip)) s.world).1;
      calls = Call.instance_list (selector ip) ∷ s.calls;
    }

    -- What comes after the loop.
    abbrev finishing :
        Flow (InstancePool × Option Error) InstancePool × State W
        → Exit (InstancePool × Option Error) × State W
    finishing (next p, t) =
        let q = with_status (record (p.status) { status = "submitted" }) p in
        let (x, w) = env.perform (Call.pool_update_status q) t.world in
        (returned x, record t { world = w; calls = Call.pool_update_status q ∷ t.calls })
    finishing (return r, t) = (returned r, t)
    finishing (panic, t) = (panicked, t)
    finishing (blocked, t) = (waiting, t)

    remove_instances-finishing :
        (x : Instance) (xs : List Instance)
        → h.present s.world ≡ x ∷ xs
        → remove_instances env ip s
          ≡ finishing (remove_rounds env (neg_part ip.status.needed) ip (x ∷ xs) listing)
    unfolding remove_instances statements
    remove_instances-finishing x xs e = ground (arith, h.lists s.world calm)

    finishing-Trimmed :
        (r : Flow (InstancePool × Option Error) InstancePool × State W)
        → Deleted (neg_part ip.status.needed) (length (h.present s.world)) ip listing r
        → Trimmed s (finishing r)
    finishing-Trimmed (next p, t) (a, b, c) =
        let q = with_status (record (p.status) { status = "submitted" }) p in
        (
          (q, ap returned (h.writes q t.world)),
          ap (λ is. length is + neg_part ip.status.needed)
                (h.keeps (Call.pool_update_status q) t.world refl).0
              ∙ b,
          c,
        )
    finishing-Trimmed (return r, t) d = absurd d
    finishing-Trimmed (panic, t) d = absurd d
    finishing-Trimmed (blocked, t) d = absurd d

    pub remove_instances-Trimmed :
        1 ≤ length (h.present s.world)
        → neg_part ip.status.needed ≤ length (h.present s.world)
        → Trimmed s (remove_instances env ip s)
    remove_instances-Trimmed some_left enough =
        let (x, xs, e) = nonempty (h.present s.world) some_left in
        rw (remove_instances-finishing x xs e) (
          finishing-Trimmed (remove_rounds env (neg_part ip.status.needed) ip (x ∷ xs) listing) (
            rw e (
              remove_rounds-Deleted (neg_part ip.status.needed) ip (x ∷ xs) listing
                ((h.keeps (Call.instance_list (selector ip)) s.world refl).0 ∙ e)
                (omega (arith, ap length e)))))
