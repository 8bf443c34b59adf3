-- ===== src/Concurrency/LockedList.antt =====
-- os-three-easy-pieces/concurrency/lock_coupling.c: a linked list with a mutex in every node, walked
-- hand over hand. One call at a time; `Heap` says what its steps are.
pub mod Heap
pub mod Chain
pub mod Insert
pub mod Delete
pub mod Walk
mod Examples
