-- ===== src/Storage.antt =====
-- v2/src/footballai_v2/storage/object_storage: the keys of stored objects and the storage in memory.
pub mod Paths
pub mod Keys
pub mod Memory
pub mod Lookup
pub mod Inputs
pub mod WriteOnce
pub mod Confinement
pub mod Separation
pub mod RoundTrip
