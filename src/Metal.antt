-- ===== src/Metal.antt =====
-- The client of Equinix Metal: pkg/equinix/equinix.go, `MetalClient` and its methods. The network
-- conversion is in `Network`, the cloud-init in `CloudInit`.
pub mod Network
pub mod CloudInit
pub mod Devices
