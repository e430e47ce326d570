-- ===== src/Ipc.antt =====
-- Semaphores and message queues between processes: src/harlin/proc/ipc.c.
pub mod Sem
pub mod Msg
mod Examples
