-- ===== src/Kernel/Archivos/Invariante.antt =====
-- The invariant of the file tables of Kernel/Kernel.c, and what a descriptor stands for.
use Prim.Native.String.{String}
use native.Mathlib.Omega.{arith}
use tp_so_2017_twt.Prelude.{
  ℕ, ◌<◌, ◌≤◌, ◌≡◌, refl, ◌∙◌, Option, some, List, [], ◌∷◌, ◌>>=◌, get_elem?, get_elem?-lt-some,
  All, length, dec_lt,
}
use tp_so_2017_twt.Kernel.Archivos.Tablas.{
  Banderas, ArchivoDeProceso, TablaDeProceso, ArchivoGlobal, Tablas, buscar_tabla, buscar_archivo,
}
use tp_so_2017_twt.Kernel.Archivos.Cuentas.{refs, cuenta, HasOrden}
use tp_so_2017_twt.Kernel.Archivos.Globales.{ruta_en, IsContada}

-- The counts of the global table are those of the descriptors of all processes, and the descriptors
-- of a process ascend up to its `current_fd`.
pub record IsConsistente (t : Tablas) : Type 0 where
  pub contada : IsContada (λ r. cuenta r t.procesos) t.globales
  pub ordenadas : All HasOrden t.procesos

-- What a descriptor stands for
pub record Descriptor : Type 0 where
  pub permisos : Banderas
  pub ruta : String
  pub posicion : ℕ

abbrev pub de_archivo : List ArchivoGlobal → ArchivoDeProceso → Option Descriptor
de_archivo gs a = do
  path ← ruta_en gs a.referencia_a_tabla_global
  some (record { permisos = a.flags; ruta = path; posicion = a.offset })

-- What the descriptor `fd` of a process stands for, if it is open
unfoldable pub descriptor : Tablas → ℕ → ℕ → Option Descriptor
descriptor t pid fd = do
  tabla ← buscar_tabla pid t.procesos
  a ← buscar_archivo fd tabla.lista_de_archivos
  de_archivo t.globales a

pub IsContada-congr :
    (c c' : ℕ → ℕ) (gs : List ArchivoGlobal)
    → ((i : ℕ) → c' i ≡ c i)
    → IsContada c gs
    → IsContada c' gs
IsContada-congr c c' gs same v = record {
  instancias = λ i g e. rw (same i) (v.instancias i g e);
  fuera = λ i le. same i ∙ v.fuera i le;
  sin_repetir = v.sin_repetir;
}

pub refs_pos :
    (fd : ℕ) (a : ArchivoDeProceso) (as' : List ArchivoDeProceso)
    → buscar_archivo fd as' ≡ some a
    → 0 < refs a.referencia_a_tabla_global as'
unfolding refs buscar_archivo
refs_pos fd a [] e = ground (arith, e)
refs_pos fd a (b ∷ bs) e = ground (arith, refs_pos fd a bs)

pub refs-cuenta :
    (r pid : ℕ) (t : TablaDeProceso) (ts : List TablaDeProceso)
    → buscar_tabla pid ts ≡ some t
    → refs r t.lista_de_archivos ≤ cuenta r ts
unfolding buscar_tabla cuenta
refs-cuenta r pid t [] e = ground (arith, e)
refs-cuenta r pid t (u ∷ us) e = ground (arith, refs-cuenta r pid t us)

pub cuenta_pos :
    (pid fd : ℕ) (t : TablaDeProceso) (a : ArchivoDeProceso) (ts : List TablaDeProceso)
    → buscar_tabla pid ts ≡ some t
    → buscar_archivo fd t.lista_de_archivos ≡ some a
    → 0 < cuenta a.referencia_a_tabla_global ts
cuenta_pos pid fd t a ts e f =
    omega (
      arith,
      refs_pos fd a t.lista_de_archivos f,
      refs-cuenta a.referencia_a_tabla_global pid t ts e,
    )

-- A place that is counted is in the table.
pub IsContada-ruta_en :
    (c : ℕ → ℕ) (gs : List ArchivoGlobal) (r : ℕ)
    → IsContada c gs
    → 0 < c r
    → (g : ArchivoGlobal) × (get_elem? gs r ≡ some g) × (ruta_en gs r ≡ some g.ruta_del_archivo)
unfolding ruta_en
IsContada-ruta_en c gs r v p = elim (dec_lt r (length gs)) [
  | yes lt ↦ let (g, here) = get_elem?-lt-some gs r lt in (g, here, rw here refl)
  | no ge ↦ absurd (omega (arith, v.fuera r (omega arith)))
]
