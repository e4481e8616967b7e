-- ===== src/PoolController/Healthy/Settled.antt =====
-- pkg/controllers/instancepool/instancepool.go, `reconcileInstances`: a pool in balance, on a cluster
-- where nothing fails.
use harvester_equinix_addon.Prelude.{◌≡◌, ◌⊎◌, ap, ◌∙◌, inl, inr, true, none, List, length}
use harvester_equinix_addon.Prelude.Int.{pos}
use harvester_equinix_addon.Api.{Instance, InstancePool, InstancePoolStatus}
use harvester_equinix_addon.Services.{Services, State, returned}
use harvester_equinix_addon.PoolController.Prepare.{with_status}
use harvester_equinix_addon.PoolController.Reconcile.{reconciled}
use harvester_equinix_addon.PoolController.Reconcile.Counts.{
  IsModest, AllManaged, reconciled_status, reconciled_settles,
}
use harvester_equinix_addon.PoolController.Dispatch.{dispatch}
use harvester_equinix_addon.PoolController.Healthy.{Healthy}
use harvester_equinix_addon.PoolController.Healthy.Rebalanced.{
  counting, reconcile_instances-counting, present-counting, settled-counting, dispatch_reconcile,
}

-- The statuses that are handed to `reconcileInstances`.
abbrev Known : InstancePool → Type 0
Known p = (p.status.status ≡ "submitted") ⊎ (p.status.status ≡ "ready")

-- The pool when these instances have been counted.
abbrev pub recounted : List Instance → InstancePool → InstancePool
recounted items p = with_status (reconciled p.spec.count items p.status) p

module _ {W : Type 0} (env : Services W) (ip : InstancePool) (h : Healthy env ip)
    (items : List Instance) where
  -- The cluster holds just these instances, and none is being deleted.
  abbrev pub Holds : State W → Type 0
  Holds s = (h.present s.world ≡ items) × (h.settled s.world ≡ true)

  one_round :
      (st : InstancePoolStatus) (s : State W)
      → Known (with_status st ip)
      → Holds s
      → (t : State W) × (dispatch env (with_status st ip) s
          ≡ (returned (recounted items (with_status st ip), none), t))
        × Holds t
  one_round st s known (e, calm) =
      let p = with_status st ip in
      (
        counting env p h s,
        dispatch_reconcile env p h s known
            ∙ reconcile_instances-counting env p h s calm
            ∙ ap
                (λ is. (
                  returned (with_status (reconciled ip.spec.count is st) ip, none),
                  counting env p h s,
                ))
                e,
        (present-counting env p h s ∙ e, settled-counting env p h s ∙ calm),
      )

  still_handled :
      Known ip
      → IsModest ip.spec.count items
      → pos (length items) ≡ ip.spec.count
      → Known (recounted items ip)
  still_handled known modest e = elim (reconciled_status ip.spec.count items ip.status modest e) [
    | inl k ↦ inr k
    | inr k ↦ elim known [ inl k' ↦ inl (k ∙ k') | inr k' ↦ inr (k ∙ k') ]
  ]

  -- On a cluster where no call fails and no instance is being deleted, with every instance managed and
  -- as many as a modest count wants, a pool that is submitted or ready is ready after two rounds of the
  -- controller, with as many requested and ready as are wanted and none needed; every later round on
  -- such a cluster leaves it as it is.
  pub settles :
      (s : State W)
      → Known ip
      → Holds s
      → IsModest ip.spec.count items
      → AllManaged items
      → pos (length items) ≡ ip.spec.count
      → let once = recounted items ip in
        let twice = recounted items once in
        ((t : State W) × (u : State W) × (dispatch env ip s ≡ (returned (once, none), t))
          × (dispatch env once t ≡ (returned (twice, none), u))
          × Holds u)
        × ((v : State W) → Holds v → (dispatch env twice v).0 ≡ returned (twice, none))
        × (twice.status.status ≡ "ready")
        × (twice.status.needed ≡ pos 0)
        × (twice.status.requested ≡ ip.spec.count)
        × (twice.status.ready ≡ ip.spec.count)
  settles s known holds modest all e =
      let (is_ready, none_needed, asked, all_ready, fixed) =
        reconciled_settles ip.spec.count items ip.status all e in
      let once : InstancePool = recounted items ip in
      let (t, d, k) = one_round ip.status s known holds in
      let (u, d', k') = one_round once.status t (still_handled known modest e) k in
      (
        (t, u, d, d', k'),
        (λ v k''.
            let (w, d'', _) = one_round (recounted items once).status v (inr is_ready) k'' in
            ap (λ x. x.0) d'' ∙ ap (λ st. returned (with_status st ip, none)) fixed),
        is_ready,
        none_needed,
        asked,
        all_ready,
      )
