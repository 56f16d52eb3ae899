-- ===== src/Spawn.antt =====
-- util_sync_map.go and elementAtomSpawn of element_local.go: the map that counts its users, and the lock
-- under a name that a spawn takes from it.
pub mod RefMap
pub mod Family
pub mod Locks
pub mod Exclusion
pub mod Examples
