-- ===== src/Generated.antt =====
-- pkg/generated/controllers/equinix.harvesterhci.io, and the names and constructors that are generated
-- into pkg/apis/equinix.harvesterhci.io: the code that stands between the handlers and the cluster.
-- v1/instance.go and v1/instancepool.go are one text for two types; it is written once here, for the
-- operations of a type (Objects, Resources), and Pools gives its functions for pools.
pub mod Objects
pub mod Handlers
pub mod Client
pub mod Cache
pub mod Status
pub mod Generating
pub mod Changes
pub mod Resources
pub mod Scheme
pub mod Factory
pub mod Pools
