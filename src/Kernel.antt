-- ===== src/Kernel.antt =====
-- The kernel server under src/kernel, and kernel modules under labmods.
pub mod ModuleManager
pub mod Server
pub mod SecureShmem
pub mod WorkOrchestrator
pub mod IpcManager
pub mod BlkdevTable
