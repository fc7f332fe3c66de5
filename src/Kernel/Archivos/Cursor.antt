-- ===== src/Kernel/Archivos/Cursor.antt =====
-- What `move_cursor` of Kernel/Kernel.c does to the descriptors.
use Prim.Native.String.{String}
use native.Mathlib.Omega.{arith}
use mathlib.Core.Option.{some-injective}
use tp_so_2017_twt.Prelude.{
  ℕ, ◌^◌, ◌<◌, ◌≡◌, ◌≢◌, ◌⊎◌, refl, sym, ap, ◌∙◌, Option, none, some, List, [], ◌∷◌, ◌>>=◌, false,
  ℤ, pos, ltb_ℤ,
}
use tp_so_2017_twt.Kernel.Archivos.Tablas.{
  ArchivoDeProceso, TablaDeProceso, ArchivoGlobal, Tablas, buscar_tabla, buscar_archivo,
  poner_archivo, move_cursor, u32,
}
use tp_so_2017_twt.Kernel.Archivos.Cuentas
use tp_so_2017_twt.Kernel.Archivos.Cuentas.{refs, cuenta, HasOrden}
use tp_so_2017_twt.Kernel.Archivos.Globales.{ruta_en}
use tp_so_2017_twt.Kernel.Archivos.Invariante.{IsConsistente, Descriptor, de_archivo, descriptor}
use tp_so_2017_twt.Kernel.Archivos.Cerrado.{small_u32}
use tp_so_2017_twt.Kernel.Archivos.Descriptores.{
  cambiar, descriptor-cambiar, descriptor-at, cambiar-IsConsistente,
}

-- The table of a process with another entry for a descriptor
abbrev con_posicion : TablaDeProceso → ArchivoDeProceso → TablaDeProceso
con_posicion tabla b = record tabla { lista_de_archivos = poner_archivo b tabla.lista_de_archivos }

move_cursor_at :
    (pid : ℕ) (fd position : ℤ) (t : Tablas) (tabla : TablaDeProceso) (a : ArchivoDeProceso)
    → ltb_ℤ fd (pos 3) ≡ false
    → buscar_tabla pid t.procesos ≡ some tabla
    → buscar_archivo (u32 fd) tabla.lista_de_archivos ≡ some a
    → move_cursor pid fd position t
      ≡ some (pos 1, cambiar t t.globales (con_posicion tabla (record a { offset = u32 position })))
unfolding move_cursor
move_cursor_at pid fd position t tabla a l e f = rw (move_cursor, l, e, f, ◌>>=◌) refl

-- `t'` is consistent, and differs from `t` only in the position of one descriptor.
pub record IsMovido (t t' : Tablas) (pid fd position : ℕ) : Type 0 where
  pub consistente : IsConsistente t'
  pub movido :
      (d : Descriptor)
      → descriptor t pid fd ≡ some d
      → descriptor t' pid fd ≡ some (record d { posicion = position })
  pub otros : (p f : ℕ) → (p ≢ pid) ⊎ (f ≢ fd) → descriptor t' p f ≡ descriptor t p f

buscar_archivo-fd :
    (fd : ℕ) (a : ArchivoDeProceso) (as' : List ArchivoDeProceso)
    → buscar_archivo fd as' ≡ some a
    → a.fd ≡ fd
unfolding buscar_archivo
buscar_archivo-fd fd a [] e = ground (arith, e)
buscar_archivo-fd fd a (b ∷ bs) e = ground (arith, buscar_archivo-fd fd a bs)

de_archivo-moved :
    (gs : List ArchivoGlobal) (a : ArchivoDeProceso) (position : ℕ) (d : Descriptor)
    → de_archivo gs a ≡ some d
    → de_archivo gs (record a { offset = position }) ≡ some (record d { posicion = position })
de_archivo-moved gs a position d e = go (ruta_en gs a.referencia_a_tabla_global) e
  where
    go :
        (o : Option String)
        → (o >>= λ path. some (record { permisos = a.flags; ruta = path; posicion = a.offset }))
          ≡ some d
        → (o >>= λ path. some (record { permisos = a.flags; ruta = path; posicion = position }))
          ≡ some (record d { posicion = position })
    go none e = ground (arith, e)
    go (some path) e = ap some (
        ap (λ (x : Descriptor). record x { posicion = position })
          (some-injective (record { permisos = a.flags; ruta = path; posicion = a.offset }) d e))

-- In consistent tables, on a descriptor between 3 and 2^31 - 1 that the process has open,
-- `move_cursor` answers 1, the descriptor stands for the same path and permissions at the new
-- position, as 32 bits, every other descriptor for what it stood for, and the tables are
-- consistent.
pub move_cursor-IsMovido :
    (pid fd : ℕ) (position : ℤ) (t : Tablas) (tabla : TablaDeProceso) (a : ArchivoDeProceso)
    → IsConsistente t
    → buscar_tabla pid t.procesos ≡ some tabla
    → buscar_archivo fd tabla.lista_de_archivos ≡ some a
    → 2 < fd
    → fd < 2 ^ 31
    → (t' : Tablas) × (move_cursor pid (pos fd) position t ≡ some (pos 1, t'))
      × IsMovido t t' pid fd (u32 position)
move_cursor-IsMovido pid fd position t tabla a v e f l h =
    let b : ArchivoDeProceso = record a { offset = u32 position } in
    let named = Cuentas.buscar_tabla-pid pid tabla t.procesos e in
    let o = Cuentas.buscar_tabla-HasOrden pid tabla t.procesos e v.ordenadas in
    let a_fd = buscar_archivo-fd fd a tabla.lista_de_archivos f in
    let t' = cambiar t t.globales (con_posicion tabla b) in
    (
      t',
      move_cursor_at pid (pos fd) position t tabla a (ground arith) e
          (ap (λ x. buscar_archivo x tabla.lista_de_archivos) (small_u32 fd h) ∙ f),
      record {
        consistente =
            cambiar-IsConsistente t t.globales pid tabla (con_posicion tabla b)
              (λ r. cuenta r t.procesos) v e named
              (Cuentas.EnOrden-poner_archivo 2 tabla.current_fd b tabla.lista_de_archivos o)
              v.contada
              (λ i.
                omega
                  (arith, Cuentas.refs-poner_archivo i fd a b tabla.lista_de_archivos f a_fd refl));
        movido = λ d k.
            descriptor-at t' pid fd (con_posicion tabla b) b
              (Cuentas.buscar_tabla-poner_tabla pid tabla (con_posicion tabla b) t.procesos e named)
              (Cuentas.buscar_archivo-poner_archivo fd a b tabla.lista_de_archivos f a_fd)
            ∙ de_archivo-moved t.globales a (u32 position) d
                (sym (descriptor-at t pid fd tabla a e f) ∙ k);
        otros = λ p g n.
            descriptor-cambiar t t.globales pid tabla (con_posicion tabla b) p g e named
              (λ q.
                Cuentas.buscar_archivo-poner_other g b tabla.lista_de_archivos
                  (ground (arith, n, q, a_fd)))
              (λ i c c'. refl);
      },
    )
