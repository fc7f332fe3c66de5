-- ===== src/Cpu.antt =====
-- The primitives of the processor, CPU/CPU.c.
pub mod Defs
pub mod Pila
pub mod Contexto
pub mod Llamada
