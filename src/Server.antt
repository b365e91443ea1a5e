-- ===== src/Server.antt =====
-- The userspace runtime: the server under src/userspace/server and the types under
-- include/labstor/userspace/types that it shares with the clients.
pub mod QueuePool
pub mod Namespace
pub mod Worker
pub mod IpcManager
pub mod ModuleManager
