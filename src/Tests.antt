-- ===== src/Tests.antt =====
-- Tests: concrete services, instances and pools, and the theorems applied to them.
pub mod Data
mod Instances
mod Pools
mod Rebalance
mod Journey
mod Watch
mod Histories
mod Starting
mod Nodes
mod Onboarding
mod Machines
mod Copies
mod Generated
