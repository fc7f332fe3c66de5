-- ===== src/Kernel/Archivos/Vuelta.antt =====
-- A write through a descriptor of Kernel/Kernel.c and a read after it, and what the two say when the
-- file server refuses.
use Prim.Native.String.{String}
use native.Mathlib.Omega.{arith}
use tp_so_2017_twt.Prelude.{
  ℕ, ◌+◌, ◌*◌, ◌<◌, ◌≤◌, ◌^◌, ◌≡◌, inl, inr, refl, sym, ap, ◌∙◌, true, false, Option, none, some,
  List, length, ◌>>=◌, ℤ, pos, neg, ltb_ℤ,
}
use tp_so_2017_twt.FileSystem.Datos.{BitArray, Archivo, Entrada, con_formato, Estado}
use tp_so_2017_twt.FileSystem.Defs.{
  obtener_datos, guardar_datos, cantidad_bloques_libres, delete_archivo,
}
use tp_so_2017_twt.FileSystem.Guardar.{IsValid, guardar_datos-full}
use tp_so_2017_twt.FileSystem.Sesion.{guardar_datos-obtener_datos}
use tp_so_2017_twt.FileSystem.Ciclo.{delete_archivo-IsDeleted}
use tp_so_2017_twt.FileSystem.Servidor.{atender, leer, escribir, borrar, Respuesta}
use tp_so_2017_twt.Kernel.Archivos.Tablas.{u32}
use tp_so_2017_twt.Kernel.Archivos.Operaciones.{
  Sistema, pedir, execute_read, execute_write, execute_delete,
}
use tp_so_2017_twt.Kernel.Archivos.Invariante.{Descriptor, descriptor}
use tp_so_2017_twt.Kernel.Archivos.Mensajes.{
  descriptor-Ubicado, execute_write-pedir, execute_read-pedir, execute_delete-pedir, tras_escribir,
  tras_leer, tras_borrar, Ubicado,
}

module _ (B : BitArray) (size_bloque : ℕ) (pos_s : 0 < size_bloque) where
  open B use {Bits}

  escribir_run :
      (path : String) (o n : ℤ) (message : List ℕ) (s : Sistema B size_bloque) (code : ℤ)
      (fs : Estado Bits)
      → ltb_ℤ n (pos 1) ≡ false
      → guardar_datos B size_bloque s.fs path o n message ≡ some (code, fs)
      → pedir B size_bloque (escribir path o n message) s
        ≡ some ((code, none), record s { fs = fs })
  unfolding pedir atender
  escribir_run path o n message s code fs some_byte e =
      rw (pedir, atender, some_byte, e, ◌>>=◌) refl

  not_empty : (n : ℕ) → 0 < n → ltb_ℤ (pos n) (pos 1) ≡ false
  not_empty n l = ground (arith, l)

  leer_run :
      (path : String) (o n : ℤ) (s : Sistema B size_bloque) (r : Respuesta)
      → obtener_datos B size_bloque s.fs path o n ≡ some r
      → pedir B size_bloque (leer path o n) s ≡ some (r, s)
  unfolding pedir atender
  leer_run path o n s r e = rw (pedir, atender, e, ◌>>=◌) refl

  tras_escribir_ok :
      (o : Option (Respuesta × Sistema B size_bloque)) (s : Sistema B size_bloque)
      → o ≡ some ((pos 1, none), s)
      → tras_escribir B size_bloque o ≡ some (pos 1, s)
  unfolding u32
  tras_escribir_ok o s e = rw (e, ◌>>=◌) refl

  tras_escribir_full :
      (o : Option (Respuesta × Sistema B size_bloque)) (s : Sistema B size_bloque)
      → o ≡ some ((neg 16, none), s)
      → tras_escribir B size_bloque o ≡ some (neg 14, s)
  unfolding u32
  tras_escribir_full o s e = rw (e, ◌>>=◌) refl

  -- With blocks of more than 0 bytes and a valid file server, on a descriptor between 4 and 2^31 -
  -- 1 that is open with permission to write at a position below 2^31, whose file is well formed,
  -- `execute_write` of a message of more than 0 bytes, whose end there plus the size of a block is
  -- at most 2^31 and that the blocks of the file and the free ones can hold at that position
  -- answers 1, and `execute_read` of as many bytes afterwards answers 1 and the message.
  pub execute_write-execute_read :
      (pid fd : ℕ) (d : Descriptor) (a : Archivo) (message : List ℕ) (s : Sistema B size_bloque)
      → descriptor s.tablas pid fd ≡ some d
      → 3 < fd
      → fd < 2 ^ 31
      → d.posicion < 2 ^ 31
      → d.permisos.escritura ≡ true
      → IsValid B size_bloque s.fs
      → s.fs.archivos d.ruta ≡ some (con_formato a)
      → 0 < length message
      → d.posicion + length message + size_bloque ≤ 2 ^ 31
      → d.posicion + length message
        ≤ (length a.array + cantidad_bloques_libres B s.fs.bitmap) * size_bloque
      → (s' : Sistema B size_bloque) × (execute_write B size_bloque pid
            (pos fd)
            message
            (pos (length message))
            s
          ≡ some (pos 1, s'))
        × (execute_read B size_bloque pid (pos fd) (pos (length message)) s'
            ≡ some ((pos 1, some message), s'))
  execute_write-execute_read pid fd d a message s e l h p w v f n fit room =
      let (fs, saved, read_back) =
        guardar_datos-obtener_datos B size_bloque pos_s s.fs d.ruta a d.posicion (length message)
          message v f n refl fit room in
      let u = descriptor-Ubicado s.tablas pid fd d h e in
      let s' : Sistema B size_bloque = record s { fs = fs } in
      (
        s',
        execute_write-pedir B size_bloque pid fd d message (pos (length message)) s u l p w
            ∙ tras_escribir_ok
                (pedir B size_bloque
                  (escribir d.ruta (pos d.posicion) (pos (length message)) message) s)
                s'
                (escribir_run d.ruta (pos d.posicion) (pos (length message)) message s (pos 1) fs
                  (not_empty (length message) n) saved),
        execute_read-pedir B size_bloque pid fd d (pos (length message)) s' u p
            ∙ ap (tras_leer B size_bloque) (
                leer_run d.ruta (pos d.posicion) (pos (length message)) s' (pos 1, some message)
                  read_back),
      )

  -- With blocks of more than 0 bytes and a valid file server, on a descriptor between 4 and 2^31 -
  -- 1 that is open with permission to write at a position below 2^31, whose file is well formed,
  -- `execute_write` of a message of more than 0 bytes, whose end plus the size of a block is at
  -- most 2^31 and whose end lies past the blocks of the file and the free ones together, answers
  -- -14, not the -16 of the file server, and changes nothing.
  pub execute_write-full :
      (pid fd : ℕ) (d : Descriptor) (a : Archivo) (message : List ℕ) (s : Sistema B size_bloque)
      → descriptor s.tablas pid fd ≡ some d
      → 3 < fd
      → fd < 2 ^ 31
      → d.posicion < 2 ^ 31
      → d.permisos.escritura ≡ true
      → IsValid B size_bloque s.fs
      → s.fs.archivos d.ruta ≡ some (con_formato a)
      → 0 < length message
      → d.posicion + length message + size_bloque ≤ 2 ^ 31
      → (length a.array + cantidad_bloques_libres B s.fs.bitmap) * size_bloque
        < d.posicion + length message
      → execute_write B size_bloque pid (pos fd) message (pos (length message)) s ≡ some (neg 14, s)
  execute_write-full pid fd d a message s e l h p w v f n fit over =
      execute_write-pedir B size_bloque pid fd d message (pos (length message)) s
        (descriptor-Ubicado s.tablas pid fd d h e) l p w
      ∙ tras_escribir_full
          (pedir B size_bloque (escribir d.ruta (pos d.posicion) (pos (length message)) message) s)
          s
          (escribir_run d.ruta (pos d.posicion) (pos (length message)) message s (neg 16) s.fs
            (not_empty (length message) n)
            (guardar_datos-full B size_bloque s.fs d.ruta a d.posicion (length message) message
              pos_s v f n refl fit over))

  borrar_run :
      (path : String) (s : Sistema B size_bloque)
      → (delete_archivo B path s.fs).0 ≡ pos 1
      → pedir B size_bloque (borrar path) s
        ≡ some ((pos 1, none), record s { fs = (delete_archivo B path s.fs).1 })
  unfolding pedir atender
  borrar_run path s e =
      ap (λ (code : ℤ). some ((code, none), record s { fs = (delete_archivo B path s.fs).1 })) e

  no_archivo :
      (path : String) (o n : ℤ) (s : Sistema B size_bloque)
      → s.fs.archivos path ≡ none
      → obtener_datos B size_bloque s.fs path o n ≡ some (neg 20, none)
  unfolding obtener_datos
  no_archivo path o n s e = rw (e, obtener_datos) refl

  tras_borrar_ok :
      (o : Option (Respuesta × Sistema B size_bloque)) (s : Sistema B size_bloque)
      → o ≡ some ((pos 1, none), s)
      → tras_borrar B size_bloque o ≡ some (pos 1, s)
  unfolding u32
  tras_borrar_ok o s e = rw (e, ◌>>=◌) refl

  -- With a valid file server, on an open descriptor at a position below 2^31 whose entry of the
  -- global table counts one instance and whose path holds a file, `execute_delete` answers 1,
  -- changes no table, leaves a valid server with nothing at the path, and a read through the
  -- descriptor, which is still open, answers -14 and no bytes.
  pub execute_delete-execute_read :
      (pid fd : ℕ) (d : Descriptor) (entrada : Entrada) (n : ℤ) (s : Sistema B size_bloque)
      (u : Ubicado s.tablas pid (pos fd) d)
      → u.global.instancias_abiertas ≡ pos 1
      → IsValid B size_bloque s.fs
      → s.fs.archivos d.ruta ≡ some entrada
      → d.posicion < 2 ^ 31
      → (fs : Estado Bits) × (execute_delete B size_bloque pid (pos fd) s
          ≡ some (pos 1, record s { fs = fs }))
        × (fs.archivos d.ruta ≡ none)
        × IsValid B size_bloque fs
        × (execute_read B size_bloque pid (pos fd) n (record s { fs = fs })
            ≡ some ((neg 14, none), record s { fs = fs }))
  execute_delete-execute_read pid fd d entrada n s u one v e p =
      elim (delete_archivo-IsDeleted B size_bloque s.fs d.ruta v) [
        | inl (code, gone) ↦
            let fs = (delete_archivo B d.ruta s.fs).1 in
            let s' : Sistema B size_bloque = record s { fs = fs } in
            let u' : Ubicado s'.tablas pid (pos fd) d = u in
            (
              fs,
              execute_delete-pedir B size_bloque pid fd d s u one
                  ∙ tras_borrar_ok (pedir B size_bloque (borrar d.ruta) s) s'
                      (borrar_run d.ruta s code),
              gone.absent,
              gone.valid,
              execute_read-pedir B size_bloque pid fd d n s' u' p
                  ∙ ap (tras_leer B size_bloque) (
                      leer_run d.ruta (pos d.posicion) n s' (neg 20, none)
                        (no_archivo d.ruta (pos d.posicion) n s' gone.absent)),
            )
        | inr (absent, same) ↦ ground (arith, sym absent ∙ e)
      ]
