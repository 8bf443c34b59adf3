-- ===== src/Concurrency.antt =====
-- The programs of os-three-easy-pieces/concurrency and of the thread chapters.
pub mod Rendezvous
pub mod Threads
pub mod Zemaphore
pub mod ApproxCounter
pub mod Basename
pub mod SignalMask
pub mod Barrier
pub mod Buffer
pub mod Counter
pub mod FairReadersWriters
pub mod Increment
pub mod LockedList
pub mod OnceInit
pub mod QueueMutex
pub mod ReadersWriters
