-- ===== src/Kernel/Archivos/Tablas.antt =====
-- `tabla_global_de_archivos` and `tabla_de_archivos_por_proceso` of Kernel/Kernel.c, and what changes
-- only them. `none` is a `list_get` out of bounds or a table that is not there, which the code then
-- follows as a pointer.
use Prim.Native.String.{String}
use text.Mathlib.Text.{◌==◌ as str_eq}
use tp_so_2017_twt.Prelude.{
  ℕ, zero, suc, ◌+◌, ◌-◌, ◌%◌, ◌^◌, ltb, Bool, false, Option, none, some, List, [], ◌∷◌, ◌++◌, ◌==◌,
  if◌then◌else◌, length, get_elem?, set, ◌>>=◌, ℤ, pos, negsuc, neg, ltb_ℤ,
}

-- `t_banderas`
pub record Banderas : Type 0 where
  pub creacion : Bool
  pub lectura : Bool
  pub escritura : Bool

-- `archivo_de_proceso`
pub record ArchivoDeProceso : Type 0 where
  pub fd : ℕ
  pub flags : Banderas
  pub referencia_a_tabla_global : ℕ
  pub offset : ℕ

-- `tabla_de_archivos_de_proceso`
pub record TablaDeProceso : Type 0 where
  pub pid : ℕ
  pub lista_de_archivos : List ArchivoDeProceso
  pub current_fd : ℕ

-- `archivo_global`
pub record ArchivoGlobal : Type 0 where
  pub ruta_del_archivo : String
  pub instancias_abiertas : ℤ

pub record Tablas : Type 0 where
  pub globales : List ArchivoGlobal
  pub procesos : List TablaDeProceso

-- An `int` as the `uint32_t` that it is compared with
unfoldable pub u32 : ℤ → ℕ
u32 (pos n) = n % 2 ^ 32
u32 (negsuc n) = 2 ^ 32 - 1 - n % 2 ^ 32

-- A `uint32_t` as the `int` that it is copied into
unfoldable pub i32 : ℕ → ℤ
i32 n = if ltb n (2 ^ 31) then pos n else neg (2 ^ 32 - n)

abbrev pub inc : ℤ → ℤ
inc (pos n) = pos (n + 1)
inc (negsuc zero) = pos 0
inc (negsuc (suc n)) = negsuc n

abbrev pub dec : ℤ → ℤ
dec (pos zero) = negsuc 0
dec (pos (suc n)) = pos n
dec (negsuc n) = negsuc (n + 1)

abbrev pub is_one : ℤ → Bool
is_one (pos n) = n == 1
is_one (negsuc n) = false

-- The loop that looks for the table of a process, also `obtener_tabla_archivos_proceso`
unfoldable pub buscar_tabla : ℕ → List TablaDeProceso → Option TablaDeProceso
buscar_tabla pid [] = none
buscar_tabla pid (t ∷ ts) = if t.pid == pid then some t else buscar_tabla pid ts

-- A write through the pointer that the loop found
unfoldable pub poner_tabla : TablaDeProceso → List TablaDeProceso → List TablaDeProceso
poner_tabla t [] = []
poner_tabla t (u ∷ us) = if u.pid == t.pid then t ∷ us else u ∷ poner_tabla t us

-- The loop that looks for a descriptor in the table of a process
unfoldable pub buscar_archivo : ℕ → List ArchivoDeProceso → Option ArchivoDeProceso
buscar_archivo fd [] = none
buscar_archivo fd (a ∷ as') = if a.fd == fd then some a else buscar_archivo fd as'

-- `list_remove` of the entry that the loop found
unfoldable pub sacar_archivo : ℕ → List ArchivoDeProceso → List ArchivoDeProceso
sacar_archivo fd [] = []
sacar_archivo fd (a ∷ as') = if a.fd == fd then as' else a ∷ sacar_archivo fd as'

-- A write through the pointer that the loop found
unfoldable pub poner_archivo : ArchivoDeProceso → List ArchivoDeProceso → List ArchivoDeProceso
poner_archivo a [] = []
poner_archivo a (b ∷ bs) = if b.fd == a.fd then a ∷ bs else b ∷ poner_archivo a bs

-- The loop of `execute_open` over the global table, from place `i` on
unfoldable pub buscar_ruta : String → List ArchivoGlobal → ℕ → Option ℕ
buscar_ruta path [] i = none
buscar_ruta path (g ∷ gs) i =
    if str_eq g.ruta_del_archivo path then some i else buscar_ruta path gs (i + 1)

-- `list_remove` at a place
unfoldable pub remove_at : ℕ → List ArchivoGlobal → List ArchivoGlobal
remove_at i [] = []
remove_at zero (g ∷ gs) = gs
remove_at (suc i) (g ∷ gs) = g ∷ remove_at i gs

abbrev pub una_mas : ArchivoGlobal → ArchivoGlobal
una_mas g = record g { instancias_abiertas = inc g.instancias_abiertas }

abbrev pub una_menos : ArchivoGlobal → ArchivoGlobal
una_menos g = record g { instancias_abiertas = dec g.instancias_abiertas }

-- The part of `execute_open` that works on the global table: the table and the reference to the file
unfoldable pub abrir_global : String → List ArchivoGlobal → Option (ℕ × List ArchivoGlobal)
unfolding buscar_ruta
abrir_global path gs = elim (buscar_ruta path gs 0) [
  | some i ↦ do g ← get_elem? gs i; some (i, set gs i (una_mas g))
  | none ↦
      some (length gs, gs ++ (record { ruta_del_archivo = path; instancias_abiertas = pos 1 } ∷ []))
]

-- The part of `execute_open` after the file server has the file
unfoldable pub abrir : ℕ → Banderas → String → Tablas → Option (ℤ × Tablas)
unfolding abrir_global buscar_tabla poner_tabla
abrir pid permisos path t = do
  (referencia, globales) ← abrir_global path t.globales
  tabla ← buscar_tabla pid t.procesos
  let fd = (tabla.current_fd + 1) % 2 ^ 32
  let abierto : ArchivoDeProceso = record {
    fd = fd;
    flags = permisos;
    referencia_a_tabla_global = referencia;
    offset = 0;
  }
  some (
    i32 fd,
    record {
      globales = globales;
      procesos =
          poner_tabla
            (record tabla {
              lista_de_archivos = tabla.lista_de_archivos ++ (abierto ∷ []);
              current_fd = fd;
            })
            t.procesos;
    },
  )

-- The end of `execute_close`: the global table loses one instance of the file.
unfoldable pub cerrar_global : ℕ → List ArchivoGlobal → Option (List ArchivoGlobal)
unfolding remove_at
cerrar_global referencia gs = do
  g ← get_elem? gs referencia
  if is_one g.instancias_abiertas
      then some (remove_at referencia gs)
      else some (set gs referencia (una_menos g))

-- `execute_close`
unfoldable pub execute_close : ℕ → ℤ → Tablas → Option (ℤ × Tablas)
unfolding buscar_tabla poner_tabla buscar_archivo sacar_archivo cerrar_global
execute_close pid fd t = elim (buscar_tabla pid t.procesos) [
  | none ↦ some (neg 2, t)
  | some tabla ↦ elim (buscar_archivo (u32 fd) tabla.lista_de_archivos) [
    | none ↦ some (neg 12, t)
    | some a ↦ do
      globales ← cerrar_global a.referencia_a_tabla_global t.globales
      some (
        pos 1,
        record {
          globales = globales;
          procesos =
              poner_tabla
                (record tabla {
                  lista_de_archivos = sacar_archivo (u32 fd) tabla.lista_de_archivos;
                })
                t.procesos;
        },
      )
  ]
]

-- The loop of `borrarTablaDeArchivos`, from place `j` of the table of `pid` on, which loses an entry
-- in a round if it is also the table of `proceso`. The outer `none` is fuel that has run out too.
unfoldable pub cerrar_desde : ℕ → ℕ → ℕ → ℕ → Tablas → Option Tablas
unfolding execute_close
cerrar_desde zero pid proceso j t = none
cerrar_desde (suc fuel) pid proceso j t = do
  tabla ← buscar_tabla pid t.procesos
  elim (get_elem? tabla.lista_de_archivos j) [
    | none ↦ some t
    | some a ↦ do
      (code, t') ← execute_close proceso (pos a.fd) t
      cerrar_desde fuel pid proceso (j + 1) t'
  ]

unfoldable pub sacar_tabla : ℕ → List TablaDeProceso → List TablaDeProceso
sacar_tabla pid [] = []
sacar_tabla pid (t ∷ ts) = if t.pid == pid then ts else t ∷ sacar_tabla pid ts

-- `borrarTablaDeArchivos`: `pid` is the global variable, which the code compares with in place of its
-- parameter.
unfoldable pub borrar_tabla_de_archivos : ℕ → ℕ → Tablas → Option Tablas
unfolding cerrar_desde sacar_tabla
borrar_tabla_de_archivos pid proceso t = elim (buscar_tabla pid t.procesos) [
  | none ↦ some t
  | some tabla ↦ do
    t' ← cerrar_desde (length tabla.lista_de_archivos + 1) pid proceso 0 t
    some (record t' { procesos = sacar_tabla pid t'.procesos })
]

-- `move_cursor`
unfoldable pub move_cursor : ℕ → ℤ → ℤ → Tablas → Option (ℤ × Tablas)
unfolding buscar_tabla poner_tabla buscar_archivo poner_archivo
move_cursor pid fd position t = if ltb_ℤ fd (pos 3) then some (neg 2, t) else do
  tabla ← buscar_tabla pid t.procesos
  elim (buscar_archivo (u32 fd) tabla.lista_de_archivos) [
    | none ↦ some (neg 2, t)
    | some a ↦ some (
      pos 1,
      record t {
        procesos =
            poner_tabla
              (record tabla {
                lista_de_archivos =
                    poner_archivo (record a { offset = u32 position }) tabla.lista_de_archivos;
              })
              t.procesos;
      },
    )
  ]
