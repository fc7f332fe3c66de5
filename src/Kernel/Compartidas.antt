-- ===== src/Kernel/Compartidas.antt =====
-- The shared variables of Kernel/Kernel.c.
pub mod Defs
pub mod Vuelta
