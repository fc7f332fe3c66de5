-- ===== src/Kernel.antt =====
-- The scheduler, Kernel/Kernel.c.
pub mod Archivos
pub mod Semaforos
pub mod Compartidas
