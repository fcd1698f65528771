-- ===== src/Queue.antt =====
-- The queues of processes that the kernel links through the `next` field of the process table.
pub mod Chain
pub mod Walk
pub mod Valid
pub mod Same
