-- ===== src/Kernel/Archivos.antt =====
-- The open files of Kernel/Kernel.c: the global table and the tables of the processes.
pub mod Tablas
pub mod Operaciones
pub mod Cuentas
pub mod Globales
pub mod Cierre
pub mod Invariante
pub mod Descriptores
pub mod Abierto
pub mod Cerrado
pub mod Cursor
pub mod Apertura
pub mod Mensajes
pub mod Vuelta
