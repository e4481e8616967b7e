-- ===== src/Controllers/Steps.antt =====
-- pkg/controllers: how each event changes the state, by the mutex and by what it calls.
use harvester_equinix_addon.Prelude.{
  ℕ, ◌≡◌, refl, ap, ◌∙◌, ◌≢◌, ◌⊎◌, inl, inr, true, false, Option, none, some, arith, if◌then◌else◌,
  Bool-cases, Option-cases, ◌||◌,
}
use harvester_equinix_addon.Prelude.Int.{pos_part}
use harvester_equinix_addon.Prelude.Text.{◌==◌, eq_iff}
use harvester_equinix_addon.Api.{Instance, InstancePool}
use harvester_equinix_addon.Services.{
  Services, Error, Node, Call, State, Exit, OnlyFunc, OnlyFunc-mono, Makes, Makes-refl, pure-Only,
  body-Only, bind-Only, run-Only, if_cases-OnlyFunc, option_cases-Only, statements,
}
use harvester_equinix_addon.InstanceController.Lifecycle.{on_instance_change}
use harvester_equinix_addon.InstanceController.Lifecycle.Transitions.{Allowed, change-Allowed}
use harvester_equinix_addon.InstanceController.Removal.{on_instance_remove}
use harvester_equinix_addon.InstanceController.Removal.Calls.{Removing, removal-Removing}
use harvester_equinix_addon.InstanceController.Nodes.{resolve_node}
use harvester_equinix_addon.InstanceController.Nodes.Calls.{Resolving, resolve_node-Resolving}
use harvester_equinix_addon.PoolController.Submit.{submit_instances}
use harvester_equinix_addon.PoolController.Submit.Count.{Quiet}
use harvester_equinix_addon.PoolController.Submit.Lock.{
  Submission, submit_waits, submit_instances-Submission,
}
use harvester_equinix_addon.PoolController.Dispatch.{dispatch, wrapper}
use harvester_equinix_addon.PoolController.Dispatch.Calls.{
  Keeping, prepare-Keeping, reconcile-Keeping, remove-Keeping,
}
use harvester_equinix_addon.Controllers.Justified.{
  HandsInstance, HandsNode, HandsPool, Justified, Allowed-Justified, Removing-Justified,
  Resolving-Justified, Keeping-Justified,
}
use harvester_equinix_addon.Controllers.{Event, handle}

-- A justified call that creates no instance.
abbrev pub Calm : Event → Call → Type 0
Calm e c = Justified e c × Quiet c

Allowed-Calm : (e : Event) (i : Instance) → HandsInstance e i → (c : Call) → Allowed i c → Calm e c
Allowed-Calm e i given c h = (Allowed-Justified e i given c h, quiet c h)
  where
    quiet : (c : Call) → Allowed i c → Quiet c
    quiet (Call.instance_create j) h = absurd h
    quiet (Call.device_create m r) h = refl
    quiet _ h = refl

Removing-Calm :
    (e : Event) (i : Instance) → HandsInstance e i → (c : Call) → Removing i c → Calm e c
Removing-Calm e i given c h = (Removing-Justified e i given c h, quiet c h)
  where
    quiet : (c : Call) → Removing i c → Quiet c
    quiet (Call.instance_create j) h = absurd h
    quiet (Call.device_create m r) h = refl
    quiet _ h = refl

Resolving-Calm : (e : Event) (n : Node) → HandsNode e n → (c : Call) → Resolving n c → Calm e c
Resolving-Calm e n given c h = (Resolving-Justified e n given c h, quiet c h)
  where
    quiet : (c : Call) → Resolving n c → Quiet c
    quiet (Call.instance_create j) h = absurd h
    quiet (Call.device_create m r) h = refl
    quiet _ h = refl

Keeping-Calm :
    (e : Event) (ip : InstancePool) → HandsPool e ip → (c : Call) → Keeping ip c → Calm e c
Keeping-Calm e ip given c h = (Keeping-Justified e ip given c h, quiet c h)
  where
    quiet : (c : Call) → Keeping ip c → Quiet c
    quiet (Call.instance_create j) h = absurd h
    quiet (Call.device_create m r) h = refl
    quiet _ h = refl

-- The number of instances that the event asks for.
unfoldable pub demand : Event → ℕ
demand (Event.pool_change (some ip)) = elim ip.meta.deletion_timestamp [
  | some t ↦ 0
  | none ↦ if ip.status.status == "tokenReady" then pos_part ip.status.needed else 0
]
demand _ = 0

-- How the handler of an event changes the state.
pub data Handled {W : Type 0} (e : Event) (s t : State W) : Type 0 where
  calm : Makes (Calm e) s t → demand e ≡ 0 → Handled e s t
  waited : s.locked ≡ true → t ≡ s → Handled e s t
  submitted :
      (ip : InstancePool) (r : Exit (InstancePool × Option Error))
      → s.locked ≡ false
      → demand e ≡ pos_part ip.status.needed
      → HandsPool e ip
      → Submission ip s r t
      → Handled e s t

module _ {W : Type 0} (env : Services W) (ip : InstancePool) where
  dispatch-Keeping :
      (ip.status.status == "tokenReady") ≡ false → OnlyFunc (Keeping ip) (dispatch env ip)
  unfolding dispatch
  dispatch-Keeping h =
      if_cases-OnlyFunc (ip.status.status == "") (λ _. prepare-Keeping env ip)
        λ _.
          if_cases-OnlyFunc (ip.status.status == "tokenReady") (λ k. absurd (cc))
            λ _.
              if_cases-OnlyFunc (ip.status.status == "submitted" || ip.status.status == "ready")
                (λ _. reconcile-Keeping env ip)
                λ _.
                  if_cases-OnlyFunc (ip.status.status == "cleanupNodes")
                    (λ _. remove-Keeping env ip) (λ _. body-Only (pure-Only _))

  wrapper-Keeping :
      (ip.meta.deletion_timestamp ≢ none) ⊎ ((ip.status.status == "tokenReady") ≡ false)
      → OnlyFunc (Keeping ip) (wrapper env (some ip))
  unfolding wrapper
  wrapper-Keeping (inl deleted) =
      body-Only (
        option_cases-Only ip.meta.deletion_timestamp (λ t _. pure-Only _) (λ e. absurd (deleted e)))
  wrapper-Keeping (inr h) = body-Only (
      option_cases-Only ip.meta.deletion_timestamp (λ t _. pure-Only _)
        (λ e. bind-Only (run-Only (dispatch-Keeping h)) (λ r. pure-Only _)))

  not_fresh : (ip.status.status == "tokenReady") ≡ true → (ip.status.status == "") ≡ false
  not_fresh h = ap (λ t. t == "") ((eq_iff ip.status.status "tokenReady").0 h)

  dispatch-submit :
      (ip.status.status == "tokenReady") ≡ true → dispatch env ip ≡ submit_instances env ip
  unfolding dispatch
  dispatch-submit h = rw (not_fresh h, h) refl

  -- What is left of a submission by the switch around it is its state.
  wrapper-submit :
      (s : State W)
      → ip.meta.deletion_timestamp ≡ none
      → (ip.status.status == "tokenReady") ≡ true
      → (wrapper env (some ip) s).1 ≡ (submit_instances env ip s).1
  unfolding wrapper statements
  wrapper-submit s h k = ground (arith, ap (λ f. (f s).1) (dispatch-submit k))

  pool_change-Handled :
      (s : State W) → Handled (Event.pool_change (some ip)) s (wrapper env (some ip) s).1
  unfolding demand
  pool_change-Handled s = elim (Option-cases ip.meta.deletion_timestamp) [
    | inr (t, h) ↦ Handled.calm (keeping (inl (λ e. cc)) s) (rw h refl)
    | inl h ↦ elim (Bool-cases (ip.status.status == "tokenReady")) [
      | inr k ↦ Handled.calm (keeping (inr k) s) (rw (h, k) refl)
      | inl k ↦ elim (Bool-cases s.locked) [
        | inl held ↦
            Handled.waited held (wrapper-submit s h k ∙ ap (λ r. r.1) (submit_waits env ip s held))
        | inr free ↦ rw (wrapper-submit s h k) (
            Handled.submitted ip (submit_instances env ip s).0 free (rw (h, k) refl) refl
              (submit_instances-Submission env ip s free))
      ]
    ]
  ]
    where
      keeping :
          (ip.meta.deletion_timestamp ≢ none) ⊎ ((ip.status.status == "tokenReady") ≡ false)
          → (s : State W) → Makes (Calm (Event.pool_change (some ip))) s (wrapper env (some ip) s).1
      keeping k s =
          (OnlyFunc-mono (Keeping-Calm (Event.pool_change (some ip)) ip refl)
              (wrapper-Keeping k)).makes
            s

module _ {W : Type 0} (env : Services W) where
  -- Every event is handled in one of three ways.
  pub handle-Handled : (e : Event) (s : State W) → Handled e s (handle env e s)
  unfolding handle demand
  handle-Handled (Event.node_change none) s =
      Handled.calm (unfold resolve_node statements in Makes-refl s) refl
  handle-Handled (Event.node_change (some n)) s =
      Handled.calm
        ((OnlyFunc-mono (Resolving-Calm (Event.node_change (some n)) n refl)
            (resolve_node-Resolving env n)).makes
          s)
        refl
  handle-Handled (Event.instance_change key none) s =
      Handled.calm (unfold on_instance_change statements in Makes-refl s) refl
  handle-Handled (Event.instance_change key (some i)) s =
      Handled.calm
        ((OnlyFunc-mono (Allowed-Calm (Event.instance_change key (some i)) i refl)
            (change-Allowed env key i)).makes
          s)
        refl
  handle-Handled (Event.instance_remove none) s =
      Handled.calm (unfold on_instance_remove statements in Makes-refl s) refl
  handle-Handled (Event.instance_remove (some i)) s =
      Handled.calm
        ((OnlyFunc-mono (Removing-Calm (Event.instance_remove (some i)) i refl)
            (removal-Removing env i)).makes
          s)
        refl
  handle-Handled (Event.pool_change none) s =
      Handled.calm (unfold wrapper statements in Makes-refl s) refl
  handle-Handled (Event.pool_change (some ip)) s = pool_change-Handled env ip s
