-- ===== src/Backend.antt =====
-- csi/backend: the backends that the driver knows, their storage pools, and the choice of a pool for a
-- volume.
pub mod Model
pub mod Quota
pub mod Filter
pub mod Topology
pub mod Capacity
pub mod Select
pub mod Cache
pub mod Build
pub mod Sample
