-- ===== src/Pipes.antt =====
-- The programs of linux-api-kerrisk/pipesFIFOs.
pub mod Uppercase
pub mod SeqNum
pub mod MsgExchange
pub mod Transfer
pub mod SeqExchange
