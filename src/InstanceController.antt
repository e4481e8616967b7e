-- ===== src/InstanceController.antt =====
-- pkg/controllers/instance/instance.go: the controller of instances, which also watches the nodes.
-- `Lifecycle` holds what follows a change of an instance, `Removal` its deletion, `Nodes` the
-- watch on the nodes.
pub mod Lifecycle
pub mod Removal
pub mod Nodes
pub mod Onboarding
