-- ===== src/Kernel/Archivos/Operaciones.antt =====
-- The calls on files of Kernel/Kernel.c: `execute_open`, `execute_read`, `execute_write` and
-- `execute_delete`. A message to the file server is one round of its loop. `none` is a pointer that is
-- followed without having been found, or an access of the file server out of bounds.
use Prim.Native.String.{String}
use tp_so_2017_twt.Prelude.{
  ℕ, ◌%◌, Bool, false, Option, none, some, List, ◌||◌, ◌==◌, ltb, if◌then◌else◌, get_elem?, ◌>>=◌,
  ℤ, pos, negsuc, neg, ltb_ℤ,
}
use tp_so_2017_twt.FileSystem.Datos.{BitArray, Estado}
use tp_so_2017_twt.FileSystem.Servidor.{
  atender, Pedido, validar, crear, leer, escribir, borrar, Respuesta,
}
use tp_so_2017_twt.Kernel.Archivos.Tablas.{
  Banderas, Tablas, u32, i32, is_one, buscar_tabla, buscar_archivo, abrir,
}

-- `puede_escribir_archivos`, with the values of `READ`, `WRITE`, `CREATE` and their sums
unfoldable pub puede_escribir_archivos : ℕ → Bool
puede_escribir_archivos flag = flag == 2 || flag == 4 || flag == 6 || flag == 7

unfoldable pub puede_crear_archivos : ℕ → Bool
puede_crear_archivos flag = flag == 3 || flag == 5 || flag == 6 || flag == 7

unfoldable pub puede_leer_archivos : ℕ → Bool
puede_leer_archivos flag = flag == 1 || flag == 5 || flag == 4 || flag == 7

abbrev pub is_fd : ℕ → ℤ → Bool
is_fd n (pos m) = m == n
is_fd n (negsuc m) = false

module _ (B : BitArray) (size_bloque : ℕ) where
  open B use {Bits}

  -- The tables of the kernel and the state of the file server it is connected to
  pub record Sistema : Type 0 where
    pub tablas : Tablas
    pub fs : Estado Bits

  -- `enviar` to the file server and `recibir` of its reply
  unfoldable pub pedir : Pedido → Sistema → Option (Respuesta × Sistema)
  unfolding atender
  pedir p s = do (r, fs) ← atender B size_bloque p s.fs; some (r, record s { fs = fs })

  -- What `execute_open` does before the tables: the code it returns at once, if any. `opens` is
  -- whether the file server can open a new file for writing.
  unfoldable pub pedir_archivo : Banderas → String → Bool → Sistema → Option (Option ℤ × Sistema)
  unfolding pedir
  pedir_archivo permisos path opens s = do
    ((code, texto), s') ← pedir (validar path) s
    if u32 code == 1
        then some (none, s')
        else if permisos.creacion
        then (do
          ((code', texto'), s'') ← pedir (crear path opens) s'
          if ltb 0 (u32 code') then some (none, s'') else some (some (neg 2), s''))
        else some (some (neg 1), s')

  -- `execute_open`
  unfoldable pub execute_open : ℕ → Banderas → String → Bool → Sistema → Option (ℤ × Sistema)
  unfolding pedir_archivo abrir
  execute_open pid permisos path opens s = do
    (stop, s') ← pedir_archivo permisos path opens s
    elim stop [
      | some code ↦ some (code, s')
      | none ↦ do
        (code, tablas) ← abrir pid permisos path s'.tablas
        some (code, record s' { tablas = tablas })
    ]

  -- `execute_read`: the bytes of `readText` that the reply filled, and `*error`. The codes -2, -12 and
  -- -3 that it stores on the way are overwritten at its end.
  unfoldable pub execute_read : ℕ → ℤ → ℤ → Sistema → Option ((ℤ × Option (List ℕ)) × Sistema)
  unfolding buscar_tabla buscar_archivo pedir
  execute_read pid fd messageLength s = do
    tabla ← buscar_tabla pid s.tablas.procesos
    arch_posta ← buscar_archivo (u32 fd) tabla.lista_de_archivos
    arch ← get_elem? s.tablas.globales arch_posta.referencia_a_tabla_global
    ((code, texto), s') ← pedir (leer arch.ruta_del_archivo (i32 arch_posta.offset) messageLength) s
    if is_one code then some ((pos 1, texto), s') else some ((neg 14, none), s')

  -- The branch of `execute_write` for a file: `escritura_correcta` is a `bool` that four bytes are
  -- received into. Its test is the one that the compiler of compile.sh makes (gcc, which does not
  -- optimise there): it holds where the first byte is 1, and for no other byte.
  unfoldable pub escribir_en_archivo : ℕ → ℤ → List ℕ → ℤ → Sistema → Option (ℤ × Sistema)
  unfolding buscar_tabla buscar_archivo pedir
  escribir_en_archivo pid archivo message messageLength s = do
    tabla ← buscar_tabla pid s.tablas.procesos
    elim (buscar_archivo (u32 archivo) tabla.lista_de_archivos) [
      | none ↦ some (neg 12, s)
      | some arch_aux ↦
          if arch_aux.flags.escritura
          then (do
            arch ← get_elem? s.tablas.globales arch_aux.referencia_a_tabla_global
            ((code, texto), s') ←
                pedir (escribir arch.ruta_del_archivo (i32 arch_aux.offset) messageLength message) s
            if u32 code % 256 == 1 then some (pos 1, s') else some (neg 14, s'))
          else some (neg 4, s)
    ]

  -- `execute_write`, without the message to the console of the process when `archivo` is 1
  unfoldable pub execute_write : ℕ → ℤ → List ℕ → ℤ → Sistema → Option (ℤ × Sistema)
  unfolding escribir_en_archivo
  execute_write pid archivo message messageLength s =
      if is_fd 0 archivo || is_fd 2 archivo
      then some (neg 2, s)
      else if ltb_ℤ (pos 3) archivo
      then escribir_en_archivo pid archivo message messageLength s
      else some (pos 1, s)

  -- `execute_delete`
  unfoldable pub execute_delete : ℕ → ℤ → Sistema → Option (ℤ × Sistema)
  unfolding buscar_tabla buscar_archivo pedir
  execute_delete pid fd s = elim (buscar_tabla pid s.tablas.procesos) [
    | none ↦ some (neg 2, s)
    | some tabla ↦ elim (buscar_archivo (u32 fd) tabla.lista_de_archivos) [
      | none ↦ some (neg 12, s)
      | some arch_aux ↦ do
        arch ← get_elem? s.tablas.globales arch_aux.referencia_a_tabla_global
        if is_one arch.instancias_abiertas
            then (do
              ((code, texto), s') ← pedir (borrar arch.ruta_del_archivo) s
              if u32 code == 0 then some (neg 15, s') else some (code, s'))
            else some (neg 16, s)
    ]
  ]
