-- ===== src/Kernel/Semaforos.antt =====
-- The semaphores of Kernel/Kernel.c.
pub mod Defs
pub mod Lista
pub mod Balance
pub mod Cambios
pub mod Atencion
pub mod Espera
pub mod Mensajes
pub mod Respuestas
pub mod Corrida
pub mod Quitar
