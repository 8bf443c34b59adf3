-- ===== src/Memory.antt =====
-- The programs of os-three-easy-pieces/mem_api, and linux-api-kerrisk/proc/envmanip.c.
pub mod Vector
pub mod Environment
