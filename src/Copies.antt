-- ===== src/Copies.antt =====
-- pkg/apis/equinix.harvesterhci.io/v1/zz_generated_deepcopy.go: the copies of the custom resources, in a
-- memory of cells. Cells has the resources as they lie in it, Copier what a deep copy is; Rules,
-- Sequence and Box make deep copies of parts into those of pairs, records, arrays and what is behind an
-- address; and the other files have the functions of the source, type by type.
--
-- Memory is a list that grows at its end. A slice spans the whole of its array, and an array, a map or
-- a pointer's target is one cell: what `make` or `new` allocates is blank first, and gets its elements
-- at the end of the copy. A map is a list of entries without a key twice, in the order of the range. A
-- quantity is its text; its copy, and those of the metadata of Kubernetes, are parameters.
pub mod Cells
pub mod Memory
pub mod Copier
pub mod Rules
pub mod Sequence
pub mod Box
pub mod Slices
pub mod Networks
pub mod InstanceSpecs
pub mod PoolSpecs
pub mod Statuses
pub mod Instances
pub mod Pools
pub mod Apart
pub mod Objects
