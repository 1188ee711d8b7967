-- ===== src/Locks.antt =====
-- The locks of atomic/: the read-modify-write instructions, and the three locks built on them. Threads
-- interleave, one access to shared memory at a time, in a total order (the instructions are locked
-- and the fences of the source stand between them).
pub mod Atomic
pub mod Threads
pub mod RwLock
pub mod SeqLock
mod Tests
