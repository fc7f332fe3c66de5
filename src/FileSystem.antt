-- ===== src/FileSystem.antt =====
-- The file server, FileSystem/fs.h and FileSystem/FileSystem.c.
pub mod Bloques
pub mod Datos
pub mod Defs
pub mod Contenido
pub mod Escritura
pub mod Bitmap
pub mod Invariante
pub mod Asignacion
pub mod Lectura
pub mod Celdas
pub mod Guardar
pub mod Servidor
pub mod Ciclo
pub mod Sesion
