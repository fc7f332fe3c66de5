-- ===== src/Heap.antt =====
-- The heap of a page, as Memoria/Memoria.c keeps it in the bytes of a frame.
pub mod Defs
pub mod Cabecera
pub mod Trozos
pub mod Reparto
pub mod Limpieza
pub mod Vuelta
