-- ===== src/Paginas.antt =====
-- The reads and writes of Memoria/Memoria.c, over the frames and the cache.
pub mod Defs
pub mod Lectura
pub mod Escritura
pub mod Vuelta
