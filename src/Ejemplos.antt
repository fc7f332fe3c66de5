-- ===== src/Ejemplos.antt =====
-- Concrete runs: a small disk, a control block, a table of few frames, a page, a cache, a memory, shared variables.
pub mod Archivos
pub mod Descriptores
pub mod Semaforos
pub mod Pila
pub mod Bloque
pub mod Tabla
pub mod Pagina
pub mod Cache
pub mod Lecturas
pub mod Compartidas
