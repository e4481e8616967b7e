-- ===== src/InstanceController/Nodes/Cleanup.antt =====
-- pkg/controllers/instance/instance.go, `managedNodeNotReady`: for which nodes a clean-up is due.
use harvester_equinix_addon.Prelude.{
  ◌≡◌, refl, ◌≢◌, ◌⊎◌, inl, inr, Bool, true, false, ◌&&◌, List, [], ◌∷◌, arith, if◌then◌else◌,
}
use harvester_equinix_addon.Prelude.Int.{ℤ}
use harvester_equinix_addon.Prelude.Text.{◌==◌, ◌!=◌, eq_iff}
use harvester_equinix_addon.Services.{Services, Node, NodeCondition}
use harvester_equinix_addon.InstanceController.Nodes.{scan_conditions, health}

-- A condition that makes a node unhealthy.
abbrev pub IsFailing : NodeCondition → Type 0
IsFailing c = (c.kind ≡ "Ready") × (c.status ≢ "True")

-- Some condition of the list is failing.
abbrev pub Failing : List NodeCondition → Type 0
Failing [] = ⊥
Failing (c ∷ cs) = IsFailing c ⊎ Failing cs

scan_conditions-true :
    (acc : Bool × ℤ) (cs : List NodeCondition)
    → (acc.0 ≡ true) ⊎ Failing cs
    → (scan_conditions acc cs).0 ≡ true
unfolding scan_conditions
scan_conditions-true acc [] (inl h) = h
scan_conditions-true acc [] (inr h) = absurd h
scan_conditions-true acc (c ∷ cs) h = ground (
  arith,
  eq_iff c.kind "Ready",
  eq_iff c.status "True",
  scan_conditions-true
      (if c.kind == "Ready" && c.status != "True" then (true, c.last_heartbeat_time) else acc) cs,
)

scan_conditions-false :
    (acc : Bool × ℤ) (cs : List NodeCondition)
    → acc.0 ≡ false
    → ¬ (Failing cs)
    → (scan_conditions acc cs).0 ≡ false
unfolding scan_conditions
scan_conditions-false acc [] a h = a
scan_conditions-false acc (c ∷ cs) a h = ground (
  arith,
  eq_iff c.kind "Ready",
  eq_iff c.status "True",
  scan_conditions-false
      (if c.kind == "Ready" && c.status != "True" then (true, c.last_heartbeat_time) else acc) cs,
)

-- A node is taken as unhealthy exactly if it has a condition "Ready" whose status is not "True".
pub health-Failing :
    (node : Node)
    → (Failing node.conditions → (health node).0 ≡ true)
      × (¬ (Failing node.conditions) → (health node).0 ≡ false)
unfolding health
health-Failing node = (
  λ h. scan_conditions-true _ node.conditions (inr h),
  λ h. scan_conditions-false _ node.conditions refl h,
)
