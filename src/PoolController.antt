-- ===== src/PoolController.antt =====
-- pkg/controllers/instancepool/instancepool.go: the controller of instance pools. `Prepare`, `Submit`,
-- `Reconcile` and `Remove` hold the handler of each status, `Dispatch` the switch on it and the
-- mapping from a changed instance to its pool.
pub mod Prepare
pub mod Template
pub mod Submit
pub mod Reconcile
pub mod Remove
pub mod Dispatch
pub mod Healthy
