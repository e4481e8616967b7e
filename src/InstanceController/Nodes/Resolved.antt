-- ===== src/InstanceController/Nodes/Resolved.antt =====
-- pkg/controllers/instance/instance.go, `ResolveNode`: what becomes of a node with an instance, by what the
-- API server replies.
use harvester_equinix_addon.Prelude.{
  String, ◌≡◌, refl, ◌≢◌, ◌⊎◌, inl, inr, true, false, Option, none, some, List, [], ◌∷◌, arith,
  Bool-cases, Option-cases,
}
use harvester_equinix_addon.Prelude.Int.{ℤ, ◌+ℤ◌, ◌<ℤ◌, ltb_ℤ}
use harvester_equinix_addon.Prelude.Text.{◌==◌, eq_iff}
use harvester_equinix_addon.Api.{Instance}
use harvester_equinix_addon.Services.{
  Services, Error, Node, NodeCondition, Result, ok, err, Call, State, Exit, returned, statements,
}
use harvester_equinix_addon.InstanceController.Nodes.{
  health, managed_node_not_ready, find_instance_node_mapping, resolve_node,
}
use harvester_equinix_addon.InstanceController.Nodes.Cleanup.{Failing, health-Failing}

Failing-cases : (cs : List NodeCondition) → Failing cs ⊎ (¬ Failing cs)
Failing-cases [] = inr (λ h. h)
Failing-cases (c ∷ cs) = elim (Failing-cases cs) [
  | inl h ↦ inl (inr h)
  | inr h ↦ elim (Bool-cases (c.kind == "Ready")) [
    | inr k ↦
        inr (λ x. elim x [ inl y ↦ let q = (eq_iff c.kind "Ready").1 y.0 in cc | inr y ↦ h y ])
    | inl k ↦ elim (Bool-cases (c.status == "True")) [
      | inl t ↦ inr (λ x. elim x [ inl y ↦ y.1 ((eq_iff c.status "True").0 t) | inr y ↦ h y ])
      | inr t ↦
          inl (inl ((eq_iff c.kind "Ready").0 k, λ e. let q = (eq_iff c.status "True").1 e in cc))
    ]
  ]
]

module _ {W : Type 0} (env : Services W) (node : Node) (s : State W) where
  abbrev get_call : Call
  get_call = Call.instance_get node.name

  -- The world after the first read of the instance, the second read, and the time.
  abbrev found : W
  found = (env.perform get_call s.world).1

  abbrev again : Result Instance
  again = (env.perform get_call found).0

  abbrev read : W
  read = (env.perform get_call found).1

  abbrev time : ℤ
  time = (env.perform Call.now read).0

  abbrev timed : W
  timed = (env.perform Call.now read).1

  -- How the handler ends for a node whose instance has the name `name`, and the calls made by then.
  pub data Resolved (name : String) : Exit (Option Node × Option Error) → List Call → Type 0 where
    healthy :
        ¬ Failing node.conditions
        → Resolved name
            (returned (some node, none))
            (Call.instance_enqueue name ∷ get_call ∷ s.calls)
    unread :
        {e : Error}
        → Failing node.conditions
        → again ≡ err e
        → env.is_not_found e ≡ false
        → Resolved name (returned (none, some e)) (get_call ∷ get_call ∷ s.calls)
    gone :
        {e : Error}
        → Failing node.conditions
        → again ≡ err e
        → env.is_not_found e ≡ true
        → Resolved name
            (returned (some node, none))
            (Call.instance_enqueue name ∷ get_call ∷ get_call ∷ s.calls)
    unmanaged :
        {j : Instance}
        → Failing node.conditions
        → again ≡ ok j
        → (j.status.status ≢ "managed") ⊎ (j.spec.node_cleanup_wait_interval ≡ none)
        → Resolved name
            (returned (some node, none))
            (Call.instance_enqueue name ∷ get_call ∷ get_call ∷ s.calls)
    early :
        {j : Instance} {interval : ℤ}
        → Failing node.conditions
        → again ≡ ok j
        → j.status.status ≡ "managed"
        → j.spec.node_cleanup_wait_interval ≡ some interval
        → ¬ ((health node).1 +ℤ interval <ℤ time)
        → Resolved name (returned (some node, none)) (
            Call.instance_enqueue name
            ∷ Call.node_enqueue_after node.name interval
            ∷ Call.now
            ∷ get_call
            ∷ get_call
            ∷ s.calls)
    replaced :
        {j : Instance} {interval : ℤ}
        → Failing node.conditions
        → again ≡ ok j
        → j.status.status ≡ "managed"
        → j.spec.node_cleanup_wait_interval ≡ some interval
        → (health node).1 +ℤ interval <ℤ time
        → Resolved name
            (returned (none, (env.perform (Call.instance_delete j.meta.name) timed).0))
            (Call.instance_delete j.meta.name ∷ Call.now ∷ get_call ∷ get_call ∷ s.calls)

  module _ (i : Instance) (live : node.deletion_timestamp ≡ none)
      (first : (env.perform get_call s.world).0 ≡ ok i) (named : i.meta.name ≢ "") where
    abbrev Ends : Type 0
    Ends = let (r, t) = resolve_node env (some node) s in Resolved i.meta.name r t.calls

    ends :
        (r : Exit (Option Node × Option Error)) (cs : List Call)
        → ((resolve_node env (some node) s).0 ≡ r) × ((resolve_node env (some node) s).1.calls ≡ cs)
        → Resolved i.meta.name r cs
        → Ends
    ends r cs (e0, e1) h = rw (e0, e1) h

    -- The state after the first read.
    abbrev mapped_state : State W
    mapped_state = record { world = found; calls = get_call ∷ s.calls; locked = s.locked }

    maps : find_instance_node_mapping env node s ≡ (returned (i.meta.name, none), mapped_state)
    unfolding find_instance_node_mapping statements
    maps = rw first refl

    keeps :
        (u : State W) (f : Option Instance)
        → managed_node_not_ready env node mapped_state ≡ (returned (f, false, none), u)
        → ((resolve_node env (some node) s).0 ≡ returned (some node, none))
          × ((resolve_node env (some node) s).1.calls ≡ Call.instance_enqueue i.meta.name ∷ u.calls)
    unfolding resolve_node statements
    keeps u f h =
        (ground (arith, eq_iff i.meta.name "", maps), ground (arith, eq_iff i.meta.name "", maps))

    ends_healthy :
        (health node).0 ≡ false
        → managed_node_not_ready env node mapped_state
          ≡ (returned (none, false, none), mapped_state)
    unfolding managed_node_not_ready statements
    ends_healthy well = rw well refl

    -- The state after the second read.
    abbrev read_state : State W
    read_state = record { world = read; calls = get_call ∷ mapped_state.calls; locked = s.locked }

    module _ (sick : (health node).0 ≡ true) where
      ends_unread :
          (e : Error)
          → again ≡ err e
          → env.is_not_found e ≡ false
          → ((resolve_node env (some node) s).0 ≡ returned (none, some e))
            × ((resolve_node env (some node) s).1.calls ≡ get_call ∷ get_call ∷ s.calls)
      unfolding resolve_node find_instance_node_mapping managed_node_not_ready statements
      ends_unread e k n =
          (ground (arith, eq_iff i.meta.name ""), ground (arith, eq_iff i.meta.name ""))

      ends_gone :
          (e : Error)
          → again ≡ err e
          → env.is_not_found e ≡ true
          → managed_node_not_ready env node mapped_state
            ≡ (returned (none, false, none), read_state)
      unfolding managed_node_not_ready statements
      ends_gone e k n = rw (sick, k, n) refl

      module _ (j : Instance) (k : again ≡ ok j) where
        ends_other :
            (j.status.status == "managed") ≡ false
            → managed_node_not_ready env node mapped_state
              ≡ (returned (none, false, none), read_state)
        unfolding managed_node_not_ready statements
        ends_other n = rw (sick, k, n) refl

        module _ (managed : (j.status.status == "managed") ≡ true) where
          ends_endless :
              j.spec.node_cleanup_wait_interval ≡ none
              → managed_node_not_ready env node mapped_state
                ≡ (returned (none, false, none), read_state)
          unfolding managed_node_not_ready statements
          ends_endless n = rw (sick, k, managed, n) refl

          ends_early :
              (interval : ℤ)
              → j.spec.node_cleanup_wait_interval ≡ some interval
              → ltb_ℤ ((health node).1 +ℤ interval) time ≡ false
              → managed_node_not_ready env node mapped_state ≡ (
                returned (some j, false, none),
                record {
                  world = (env.perform (Call.node_enqueue_after node.name interval) timed).1;
                  calls = Call.node_enqueue_after node.name interval ∷ Call.now ∷ read_state.calls;
                  locked = s.locked;
                },
              )
          unfolding managed_node_not_ready statements
          ends_early interval n l = ground arith

          ends_replaced :
              (interval : ℤ)
              → j.spec.node_cleanup_wait_interval ≡ some interval
              → ltb_ℤ ((health node).1 +ℤ interval) time ≡ true
              → ((resolve_node env (some node) s).0
                  ≡ returned (none, (env.perform (Call.instance_delete j.meta.name) timed).0))
                × ((resolve_node env (some node) s).1.calls
                    ≡ Call.instance_delete j.meta.name ∷ Call.now ∷ get_call ∷ get_call ∷ s.calls)
          unfolding resolve_node find_instance_node_mapping managed_node_not_ready statements
          ends_replaced interval n l =
              (ground (arith, eq_iff i.meta.name ""), ground (arith, eq_iff i.meta.name ""))

    read_again : Failing node.conditions → (r : Result Instance) → again ≡ r → Ends
    read_again h (err e) k =
        let sick = (health-Failing node).0 h in
        elim (Bool-cases (env.is_not_found e)) [
          | inl n ↦ ends _ _ (keeps _ _ (ends_gone sick e k n)) (Resolved.gone h k n)
          | inr n ↦ ends _ _ (ends_unread sick e k n) (Resolved.unread h k n)
        ]
    read_again h (ok j) k =
        let sick = (health-Failing node).0 h in
        elim (Bool-cases (j.status.status == "managed")) [
          | inr m ↦ ends _ _ (keeps _ _ (ends_other sick j k m)) (
              Resolved.unmanaged h k
                (inl (λ q. let q' = (eq_iff j.status.status "managed").1 q in cc)))
          | inl m ↦ elim (Option-cases j.spec.node_cleanup_wait_interval) [
            | inl n ↦
                ends _ _ (keeps _ _ (ends_endless sick j k m n)) (Resolved.unmanaged h k (inr n))
            | inr (interval, n) ↦
                let managed = (eq_iff j.status.status "managed").0 m in
                elim (Bool-cases (ltb_ℤ ((health node).1 +ℤ interval) time)) [
                  | inl l ↦
                      ends _ _ (ends_replaced sick j k m interval n l)
                        (Resolved.replaced h k managed n (ground arith))
                  | inr l ↦
                      ends _ _ (keeps _ _ (ends_early sick j k m interval n l))
                        (Resolved.early h k managed n (λ q. ground arith))
                ]
          ]
        ]

  -- A node that is not being deleted, and whose instance is found with a name, ends in one of six ways:
  -- it is healthy, and its instance is put back on the queue; the instance cannot be read again, and that
  -- error is returned with no node and no further call; the instance is gone, or not managed or without
  -- an interval, and is put back on the queue; its interval has not passed since the last heartbeat of the
  -- failing condition, and the node is put on the queue for when it has, and the instance too; or it has,
  -- and the instance is deleted, with the error of that returned and no node.
  pub resolve_node-Resolved :
      (i : Instance)
      → node.deletion_timestamp ≡ none
      → (env.perform get_call s.world).0 ≡ ok i
      → i.meta.name ≢ ""
      → let (r, t) = resolve_node env (some node) s in Resolved i.meta.name r t.calls
  resolve_node-Resolved i live first named = elim (Failing-cases node.conditions) [
    | inl h ↦ read_again i live first named h again refl
    | inr h ↦
        ends i live first named _ _
          (keeps i live first named _ _
            (ends_healthy i live first named ((health-Failing node).1 h)))
          (Resolved.healthy h)
  ]
