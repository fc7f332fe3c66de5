-- ===== src/Memoria.antt =====
-- The memory server, Memoria/Memoria.c.
pub mod Defs
pub mod Indice
pub mod Marcos
pub mod Busqueda
pub mod Reserva
pub mod Liberar
pub mod Inicio
