-- ===== src/Eviction.antt =====
-- src/eviction: the memory account, the eviction policy and the manager that joins them.
pub mod Memory
pub mod Policy
pub mod Manager
