-- ===== src/InstanceController/Nodes.antt =====
-- pkg/controllers/instance/instance.go, `ResolveNode` and its helpers.
pub mod Cleanup
pub mod Resolved
pub mod Calls
use harvester_equinix_addon.Prelude.{
  String, Bool, true, false, Option, none, some, List, [], ◌∷◌, ◌&&◌, if◌then◌else◌,
}
use harvester_equinix_addon.Prelude.Int.{ℤ, negsuc, ◌+ℤ◌, ltb_ℤ}
use harvester_equinix_addon.Prelude.Text.{◌==◌, ◌!=◌}
use harvester_equinix_addon.Api.{Instance}
use harvester_equinix_addon.Services.{
  Services, Error, ok, err, Node, NodeCondition, Call, Code, Func, ◌>>=◌, ◌>>◌, pure, leave,
  or_crash, body, run, invoke, leave_on,
}

-- The zero `metav1.Time`, the start of year 1, in nanoseconds from the start of 1970.
abbrev pub zero_time : ℤ
zero_time = negsuc 62135596799999999999

-- The loop over the conditions, on `nodeUnhealthy` and `lastHealthyTime`.
scan_conditions : Bool × ℤ → List NodeCondition → Bool × ℤ
scan_conditions acc [] = acc
scan_conditions acc (c ∷ cs) =
    scan_conditions
      (if c.kind == "Ready" && c.status != "True" then (true, c.last_heartbeat_time) else acc) cs

unfoldable pub health : Node → Bool × ℤ
unfolding scan_conditions
health node = scan_conditions (false, zero_time) node.conditions

-- The three results of `managedNodeNotReady`.
abbrev pub Found : Type 0
Found = Option Instance × Bool × Option Error

module _ {W : Type 0} (env : Services W) where
  unfoldable pub find_instance_node_mapping : Node → Func W (String × Option Error)
  find_instance_node_mapping node = body do
    reply ← invoke env (Call.instance_get node.name)
    elim reply [
      | err e ↦ pure ("", if env.is_not_found e then none else some e)
      | ok i ↦ pure (i.meta.name, none)
    ]

  -- The test of a managed instance's wait interval, at a time `last` of the node's last heartbeat.
  check_interval : Node → ℤ → Instance → ℤ → Code W Found Found
  check_interval node last i interval = do
    now ← invoke env Call.now
    if ltb_ℤ (last +ℤ interval) now then pure (some i, true, none) else (do
      invoke env (Call.node_enqueue_after node.name interval)
      pure (some i, false, none))

  check_managed : Node → ℤ → Instance → Code W Found Found
  unfolding check_interval
  check_managed node last i =
      if i.status.status == "managed"
      then elim i.spec.node_cleanup_wait_interval [
        | none ↦ pure (none, false, none)
        | some interval ↦ check_interval node last i interval
      ]
      else pure (none, false, none)

  unfoldable pub managed_node_not_ready : Node → Func W Found
  unfolding check_managed health
  managed_node_not_ready node = body (
      let (unhealthy, last) = health node in
      if unhealthy
      then (do
        reply ← invoke env (Call.instance_get node.name)
        elim reply [
          | err e ↦ pure (none, false, if env.is_not_found e then none else some e)
          | ok i ↦ check_managed node last i
        ])
      else pure (none, false, none))

  unfoldable pub find_and_delete_instance : Option Node → Func W (Option Error)
  find_and_delete_instance none = body (pure none)
  find_and_delete_instance (some node) = body do
    reply ← invoke env (Call.instance_get node.name)
    elim reply [
      | err e ↦ pure (if env.is_not_found e then none else some e)
      | ok i ↦ invoke env (Call.instance_delete node.name)
    ]

  -- The first `if` of `ResolveNode`, on a node that is not being deleted.
  resolve_live : Node → Code W (Option Node × Option Error) (Unit {0})
  resolve_live node = do
    (name, e) ← run (find_instance_node_mapping node)
    leave_on e (λ e. (some node, some e))
    if name != ""
        then (do
          (i, due, e') ← run (managed_node_not_ready node)
          leave_on e' (λ e. (none, some e))
          if due
              then (do
                j ← or_crash i
                e'' ← invoke env (Call.instance_delete j.meta.name)
                leave (none, e''))
              else (do invoke env (Call.instance_enqueue name); leave (some node, none)))
        else pure tt

  unfoldable pub resolve_node : Option Node → Func W (Option Node × Option Error)
  unfolding resolve_live
  resolve_node none = body (pure (none, none))
  resolve_node (some node) = body (elim node.deletion_timestamp [
    | none ↦ do resolve_live node; pure (some node, none)
    | some t ↦ do e ← run (find_and_delete_instance (some node)); pure (some node, e)
  ])
