-- ===== src/Lib.antt =====
-- A model of a small operating system of four programs that talk over sockets: the scheduler
-- (Kernel/Kernel.c), the processors (CPU/CPU.c), the memory (Memoria/Memoria.c) and the file server
-- (FileSystem/FileSystem.c, FileSystem/fs.h), with the control block that they pass on
-- (shared_libs/PCB.h).
--
-- FileSystem: the file server. `Estado` is what it works on: the tree of metadata files, the bitmap
-- and the block files. `Datos` has it and the functions on single blocks, `Defs` one function for
-- each function of fs.h that changes or reads that state: create_archivo, delete_archivo,
-- validar_archivo, obtener_datos, guardar_datos and what they call; `Bloques` cuts a range into
-- pieces (bloque_offset, blocks_to_process); `Servidor` has the request loop of FileSystem.c. A
-- write of 0 bytes, which ends the server (exit(6)), and one of fewer have no result there.
-- `Contenido`, `Escritura`, `Bitmap`, `Invariante`, `Asignacion`, `Lectura`, `Celdas`, `Guardar`,
-- `Ciclo` and `Sesion` hold the proofs. `commons/bitarray` is not in the repository: it is the
-- parameter `BitArray`, with what its documentation promises of the bits inside the array. A
-- metadata file is what `config_create` finds in it; its text is not modelled, nor are the
-- directories of a path, the log and the sockets. `fopen` for writing may fail; a block file opens
-- exactly if it exists.
--
-- Pcb: the second serialisation of a control block (PCB_cerealV2, send_PCBV2, recibirPCBV2).
-- `Stream` has the bytes on a socket, `Defs` the structures and the two directions, `Ronda` the
-- round trip. The first version (PCB_cereal, recibirPCB) is not modelled.
--
-- Memoria: the page table and the hash index. `Marcos` is the global `tabla` and `hash_index`;
-- `Defs` has inicializar_tabla, calcular_posicion, buscar_en_indice, agregar_frame_en_indice,
-- borrar_de_indice, marcos_libres, paginas_de_proceso, buscar_espacioV2, asignar_nueva_pagina,
-- finalizar_proceso and liberar_pagina. `Indice` has the invariant that ties the table to the
-- index, `Marcos`, `Busqueda`, `Reserva`, `Liberar` and `Inicio` the proofs. What finalizar_proceso
-- and liberar_pagina do to the cache is not modelled. inicializar_tabla has no result where it
-- divides by 0 or writes past the table. A position is computed through `atoi` of the digits of the
-- PID and the page: it is modelled where the number fits an `int`, and has no value elsewhere.
--
-- Heap: the heap that Memoria.c keeps in the bytes of a page, a chain of blocks behind headers of 5
-- bytes. `Defs` has buscar_espacio_libre, clean_heap and the part of liberar on the page, over the
-- bytes of the memory; `Trozos` says what they promise on the list of the blocks, `Cabecera`,
-- `Reparto`, `Limpieza` and `Vuelta` prove it of the bytes. alocar, which looks through the pages
-- of a process, is not modelled.
--
-- Cache: the page cache of Memoria.c. `Defs` has `cache` and `admin_cache` as one list of slots,
-- the lookups, the two searches for a victim, insertar_entrada, aumentar_referencias and
-- flush_process; `Victima`, `Insertar` and `Referencias` have the proofs. An index that never got a
-- value is no result.
--
-- Paginas: the bytes of the frames behind the page table and the cache. `Defs` has lecturaV2,
-- escritura, buscar_entrada and set_zero_ref of Memoria.c over the three together, a memcpy being a
-- read or a write of bytes; `Lectura`, `Escritura` and `Vuelta` have the proofs. The delay of the
-- memory is left out. An address below the memory, of the frame -1, has no result.
--
-- Kernel: `Archivos` has the file tables of Kernel.c. `Tablas` has `tabla_global_de_archivos` and
-- `tabla_de_archivos_por_proceso` and what changes only them: execute_close, borrarTablaDeArchivos,
-- move_cursor and the end of execute_open; `Operaciones` has execute_open, execute_read,
-- execute_write and execute_delete over the tables and the file server together, a message to the
-- server being one round of its loop. The `bool` that execute_write receives four bytes into is
-- tested as compile.sh's compiler does it: only a first byte of 1 is true. `Invariante` says when
-- the tables are consistent and what a descriptor stands for (permissions, path, position);
-- `Cuentas`, `Globales`, `Cierre`, `Descriptores`, `Abierto`, `Cerrado`, `Cursor`, `Apertura`,
-- `Mensajes` and `Vuelta` hold the proofs. `Semaforos` has the semaphores of Kernel.c: `Defs` has
-- wait, signal, cancelar_wait, the answers to WAIT and SIGNAL in main, remove_from_semaphore and
-- remove_from_queue over the lists and queues of the kernel; `Mensajes` has sequences of WAIT and
-- SIGNAL with their answers; `Lista`, `Balance`, `Cambios`, `Atencion`, `Espera`, `Respuestas`,
-- `Corrida` and `Quitar` hold the proofs. A PCB of todos_los_procesos stands there with its PID and
-- state only; the ends of a process (abort_process, end_process) are an outcome. A list_get out of
-- bounds and a pointer without a value have no result. The count of instances, an `int32_t`, is an
-- integer without bounds. `Compartidas` has the shared variables with the answers to the requests
-- that set and read one.
--
-- Cpu: the primitives of CPU.c on the stack of the program that runs. `Defs` has
-- twt_definirVariable, twt_obtenerPosicionVariable, twt_asignar, twt_dereferenciar, twt_irAlLabel,
-- twt_llamarConRetorno, twt_finalizar and twt_retornar over the control block, the flags and the
-- messages sent to the memory; `Pila`, `Contexto` and `Llamada` hold the proofs.
-- `metadata_buscar_etiqueta` is not in the repository and is an argument.
--
-- Bounds and fuel: `bloque_offset` counts blocks up to the offset, which at most offset + 2 rounds
-- do; `blocks_to_process` adds at least one byte in each round, so size + 1 rounds are enough; an
-- `int` has at most 10 digits; a page of n bytes has at most n / 5 blocks, so n + 1 rounds are
-- enough for the loops over them. Both scans for a free frame are written with the rounds that the
-- table has: the second one of the code has no bound, and a scan that would leave the table has no
-- value here. A number of fs.h that would leave `int32_t` gives no result, which holds for the
-- cutting of a range into pieces, the test of a read and the new size of a file: C leaves that
-- overflow undefined, and by wrap-around the loop of bloque_offset need not end. A range whose end
-- plus a block is at most 2^31 has none. Elsewhere numbers that the code keeps in 32 bits are
-- natural numbers, with `% 2 ^ 32` where the code can pass the bound; an `int32_t` PID is kept as
-- its bits.
--
-- Ejemplos: small concrete states of each part, and runs on them.
--
-- Not modelled: the planners, the console and the heap pages of Kernel/Kernel.c, the main loop and
-- the requests to the kernel of CPU/CPU.c, Consola/Consola.c, the threads and the sockets.
pub mod Prelude
pub mod FileSystem
pub mod Pcb
pub mod Memoria
pub mod Heap
pub mod Cache
pub mod Kernel
pub mod Paginas
pub mod Cpu
pub mod Ejemplos
