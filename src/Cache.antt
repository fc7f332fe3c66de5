-- ===== src/Cache.antt =====
-- The page cache of Memoria/Memoria.c.
pub mod Defs
pub mod Victima
pub mod Insertar
pub mod Referencias
