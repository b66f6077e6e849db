-- ===== src/Tools.antt =====
-- internal/tools: running an action again, a transaction around a function, and a worker pool.
pub mod Repeater
pub mod Transaction
pub mod WorkerPool
