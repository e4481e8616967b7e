-- ===== src/InstanceController/Nodes/Calls.antt =====
-- pkg/controllers/instance/instance.go, `ResolveNode` and its helpers: the calls that a change of a
-- node can lead to.
use harvester_equinix_addon.Prelude.{◌≡◌, refl, ◌⊎◌, inl, inr, none, some}
use harvester_equinix_addon.Prelude.Int.{ℤ}
use harvester_equinix_addon.Prelude.Text.{◌==◌, ◌!=◌}
use harvester_equinix_addon.Api.{Instance}
use harvester_equinix_addon.Services.{
  Services, Node, ok, err, Call, Only, OnlyFunc, pure-Only, leave-Only, leave_on-Only, bind-Only,
  invoke-Only, or_crash-Only, if-Only, option-Only, option_cases-Only, body-Only, run-Only,
}
use harvester_equinix_addon.InstanceController.Nodes.{
  health, find_instance_node_mapping, check_interval, check_managed, managed_node_not_ready,
  find_and_delete_instance, resolve_live, resolve_node,
}

-- What a change of the node may call: nothing is written but the deletion of an instance, and a queue.
abbrev pub Resolving : Node → Call → Type 0
Resolving node (Call.instance_get name) = name ≡ node.name
Resolving node (Call.instance_delete name) = (node.deletion_timestamp ≡ none) ⊎ (name ≡ node.name)
Resolving node (Call.instance_enqueue name) = node.deletion_timestamp ≡ none
Resolving node (Call.node_enqueue_after name d) = name ≡ node.name
Resolving node Call.now = Unit
Resolving node _ = ⊥

module _ {W : Type 0} (env : Services W) (node : Node) where
  find_mapping-Resolving : OnlyFunc (Resolving node) (find_instance_node_mapping env node)
  unfolding find_instance_node_mapping
  find_mapping-Resolving = body-Only (
      bind-Only (invoke-Only env (Call.instance_get node.name) refl)
        elim [ err e ↦ pure-Only _ | ok i ↦ pure-Only _ ])

  check_interval-Resolving :
      (last : ℤ) (i : Instance) (interval : ℤ)
      → Only (Resolving node) (check_interval env node last i interval)
  unfolding check_interval
  check_interval-Resolving last i interval = bind-Only (invoke-Only env Call.now tt) λ now.
      if-Only _ (pure-Only _) (
        bind-Only (invoke-Only env (Call.node_enqueue_after node.name interval) refl)
          (λ _. pure-Only _))

  check_managed-Resolving :
      (last : ℤ) (i : Instance) → Only (Resolving node) (check_managed env node last i)
  unfolding check_managed
  check_managed-Resolving last i =
      if-Only (i.status.status == "managed")
        (option-Only i.spec.node_cleanup_wait_interval (check_interval-Resolving last i)
          (pure-Only _))
        (pure-Only _)

  not_ready-Resolving : OnlyFunc (Resolving node) (managed_node_not_ready env node)
  unfolding managed_node_not_ready
  not_ready-Resolving = body-Only (
      if-Only (health node).0
        (bind-Only (invoke-Only env (Call.instance_get node.name) refl)
          elim [ err e ↦ pure-Only _ | ok i ↦ check_managed-Resolving (health node).1 i ])
        (pure-Only _))

  find_and_delete-Resolving : OnlyFunc (Resolving node) (find_and_delete_instance env (some node))
  unfolding find_and_delete_instance
  find_and_delete-Resolving = body-Only (
      bind-Only (invoke-Only env (Call.instance_get node.name) refl) elim [
        | err e ↦ pure-Only _
        | ok i ↦ invoke-Only env (Call.instance_delete node.name) (inr refl)
      ])

  resolve_live-Resolving :
      node.deletion_timestamp ≡ none → Only (Resolving node) (resolve_live env node)
  unfolding resolve_live
  resolve_live-Resolving live = bind-Only (run-Only find_mapping-Resolving) λ (name, e).
      bind-Only (leave_on-Only e _) λ _.
        if-Only (name != "")
          (bind-Only (run-Only not_ready-Resolving) λ (i, due, e').
            bind-Only (leave_on-Only e' _) λ _.
              if-Only due
                (bind-Only (or_crash-Only i) λ j.
                  bind-Only (invoke-Only env (Call.instance_delete j.meta.name) (inl live))
                    (λ e''. leave-Only _))
                (bind-Only (invoke-Only env (Call.instance_enqueue name) live) (λ _. leave-Only _)))
          (pure-Only tt)

  -- A change of a node leads to nothing but look-ups, queue entries, and deletions of instances: of the
  -- one of its own name once it is being deleted.
  pub resolve_node-Resolving : OnlyFunc (Resolving node) (resolve_node env (some node))
  unfolding resolve_node
  resolve_node-Resolving = body-Only (
      option_cases-Only node.deletion_timestamp
        (λ t e. bind-Only (run-Only find_and_delete-Resolving) (λ e'. pure-Only _))
        (λ live. bind-Only (resolve_live-Resolving live) (λ _. pure-Only _)))
