-- ===== src/Pcb.antt =====
-- The process control block of shared_libs/PCB.h and how it travels between processes.
pub mod Stream
pub mod Defs
pub mod Ronda
