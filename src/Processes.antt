-- ===== src/Processes.antt =====
-- The programs of linux-api-kerrisk that run other programs and catch signals.
pub mod Execlp
pub mod SigReceiver
pub mod FdUsers
pub mod UserProcs
pub mod GroupChange
pub mod RtSched
