-- ===== src/Kernel/Archivos/Cerrado.antt =====
-- What `execute_close` of Kernel/Kernel.c does to the descriptors.
use Prim.Native.String.{String}
use native.Mathlib.Omega.{arith}
use mathlib.Core.Option.{some-injective}
use tp_so_2017_twt.Prelude.{
  ℕ, ◌+◌, ◌^◌, ◌<◌, ◌≡◌, ◌≢◌, ◌⊎◌, refl, sym, ap, subst, ◌∙◌, Option, none, some, List, ◌>>=◌,
  get_elem?, length, ℤ, pos,
}
use tp_so_2017_twt.Kernel.Archivos.Tablas.{
  ArchivoDeProceso, TablaDeProceso, ArchivoGlobal, Tablas, buscar_tabla, poner_tabla,
  buscar_archivo, sacar_archivo, cerrar_global, remove_at, execute_close, u32,
}
use tp_so_2017_twt.Kernel.Archivos.Cuentas
use tp_so_2017_twt.Kernel.Archivos.Cuentas.{refs, cuenta, HasOrden}
use tp_so_2017_twt.Kernel.Archivos.Globales.{ruta_en, IsContada}
use tp_so_2017_twt.Kernel.Archivos.Cierre.{cerrar_global-IsCerrada, ruta_en-remove_at, sin_una}
use tp_so_2017_twt.Kernel.Archivos.Invariante.{
  IsConsistente, Descriptor, de_archivo, descriptor, cuenta_pos, IsContada-ruta_en, refs-cuenta,
}
use tp_so_2017_twt.Kernel.Archivos.Descriptores.{
  cambiar, descriptor-cambiar, descriptor-found, descriptor-at, cambiar-IsConsistente,
}

-- `t'` is consistent, and has the descriptors of `t` without `fd` of `pid`.
pub record IsCerrado (t t' : Tablas) (pid fd : ℕ) : Type 0 where
  pub consistente : IsConsistente t'
  pub cerrado : descriptor t' pid fd ≡ none
  pub otros : (p f : ℕ) → (p ≢ pid) ⊎ (f ≢ fd) → descriptor t' p f ≡ descriptor t p f

pub small_u32 : (n : ℕ) → n < 2 ^ 31 → u32 (pos n) ≡ n
unfolding u32
small_u32 n l = omega arith

-- The table of a process with one descriptor less
abbrev pub sin_archivo : TablaDeProceso → ℕ → TablaDeProceso
sin_archivo tabla fd = record tabla { lista_de_archivos = sacar_archivo fd tabla.lista_de_archivos }

execute_close_at :
    (pid : ℕ) (k : ℤ) (t : Tablas) (tabla : TablaDeProceso) (a : ArchivoDeProceso)
    (gs : List ArchivoGlobal)
    → buscar_tabla pid t.procesos ≡ some tabla
    → buscar_archivo (u32 k) tabla.lista_de_archivos ≡ some a
    → cerrar_global a.referencia_a_tabla_global t.globales ≡ some gs
    → execute_close pid k t ≡ some (pos 1, cambiar t gs (sin_archivo tabla (u32 k)))
unfolding execute_close
execute_close_at pid k t tabla a gs e f g = rw (execute_close, e, f, g, ◌>>=◌) refl

execute_close_runs :
    (pid fd : ℕ) (k : ℤ) (t : Tablas) (tabla : TablaDeProceso) (a : ArchivoDeProceso)
    (gs : List ArchivoGlobal)
    → buscar_tabla pid t.procesos ≡ some tabla
    → buscar_archivo fd tabla.lista_de_archivos ≡ some a
    → u32 k ≡ fd
    → cerrar_global a.referencia_a_tabla_global t.globales ≡ some gs
    → execute_close pid k t ≡ some (pos 1, cambiar t gs (sin_archivo tabla fd))
execute_close_runs pid fd k t tabla a gs e f l g =
    subst
      (λ x.
        buscar_archivo x tabla.lista_de_archivos ≡ some a
        → execute_close pid k t ≡ some (pos 1, cambiar t gs (sin_archivo tabla x)))
      l (λ h. execute_close_at pid k t tabla a gs e h g) f

restan :
    (pid fd : ℕ) (tabla : TablaDeProceso) (a : ArchivoDeProceso) (ts : List TablaDeProceso)
    → buscar_tabla pid ts ≡ some tabla
    → buscar_archivo fd tabla.lista_de_archivos ≡ some a
    → (i : ℕ)
    → refs i (sacar_archivo fd tabla.lista_de_archivos) + cuenta i ts
      ≡ sin_una a.referencia_a_tabla_global (λ r. cuenta r ts) i + refs i tabla.lista_de_archivos
restan pid fd tabla a ts e f i = ground (
  arith,
  Cuentas.refs-sacar_archivo i fd a tabla.lista_de_archivos f,
  refs-cuenta i pid tabla ts e,
)

quedan :
    (pid fd : ℕ) (tabla : TablaDeProceso) (a : ArchivoDeProceso) (ts : List TablaDeProceso)
    → buscar_tabla pid ts ≡ some tabla
    → buscar_archivo fd tabla.lista_de_archivos ≡ some a
    → (i : ℕ) → 0 < cuenta i (poner_tabla (sin_archivo tabla fd) ts)
    → 0 < sin_una a.referencia_a_tabla_global (λ r. cuenta r ts) i
quedan pid fd tabla a ts e f i c = omega (
  arith,
  c,
  restan pid fd tabla a ts e f i,
  Cuentas.cuenta-poner_tabla i pid tabla (sin_archivo tabla fd) ts e
      (Cuentas.buscar_tabla-pid pid tabla ts e),
)

-- In consistent tables, if the process has the descriptor open and either another descriptor
-- refers to the same entry of the global table or that entry is the last one, `execute_close`
-- answers 1, the descriptor is not open any more, every other descriptor of every process stands
-- for the same path, permissions and position as before, and the tables are consistent.
pub execute_close-IsCerrado :
    (pid fd : ℕ) (t : Tablas) (tabla : TablaDeProceso) (a : ArchivoDeProceso)
    → IsConsistente t
    → buscar_tabla pid t.procesos ≡ some tabla
    → buscar_archivo fd tabla.lista_de_archivos ≡ some a
    → fd < 2 ^ 31
    → (1 < cuenta a.referencia_a_tabla_global t.procesos)
      ⊎ (length t.globales ≡ a.referencia_a_tabla_global + 1)
    → (t' : Tablas) × (execute_close pid (pos fd) t ≡ some (pos 1, t')) × IsCerrado t t' pid fd
execute_close-IsCerrado pid fd t tabla a v e f l cond =
    let r = a.referencia_a_tabla_global in
    let counted = cuenta_pos pid fd tabla a t.procesos e f in
    let (g, here, at) =
      IsContada-ruta_en (λ i. cuenta i t.procesos) t.globales r v.contada counted in
    let (gs, run, ce) =
      cerrar_global-IsCerrada (λ i. cuenta i t.procesos) t.globales r g v.contada here cond in
    let named = Cuentas.buscar_tabla-pid pid tabla t.procesos e in
    let o = Cuentas.buscar_tabla-HasOrden pid tabla t.procesos e v.ordenadas in
    let same = restan pid fd tabla a t.procesos e f in
    (
      cambiar t gs (sin_archivo tabla fd),
      execute_close_runs pid fd (pos fd) t tabla a gs e f (small_u32 fd l) run,
      record {
        consistente =
            cambiar-IsConsistente t gs pid tabla (sin_archivo tabla fd)
              (sin_una r (λ i. cuenta i t.procesos)) v e named
              (Cuentas.EnOrden-sacar_archivo 2 tabla.current_fd fd tabla.lista_de_archivos o)
              ce.contada same;
        cerrado =
            descriptor-found (cambiar t gs (sin_archivo tabla fd)) pid fd (sin_archivo tabla fd)
              (Cuentas.buscar_tabla-poner_tabla pid tabla (sin_archivo tabla fd) t.procesos e named)
            ∙ rw
                (
                  Cuentas.buscar_archivo-sacar_archivo 2 tabla.current_fd fd tabla.lista_de_archivos
                      o,
                  ◌>>=◌,
                )
                refl;
        otros = λ p f' n.
            descriptor-cambiar t gs pid tabla (sin_archivo tabla fd) p f' e named
              (λ q.
                Cuentas.buscar_archivo-sacar_other fd f' tabla.lista_de_archivos
                  (ground (arith, n, q)))
              (λ i c c'. ce.rutas i (quedan pid fd tabla a t.procesos e f i c'));
      },
    )

cerrar_global-one :
    (r : ℕ) (gs : List ArchivoGlobal) (g : ArchivoGlobal)
    → get_elem? gs r ≡ some g
    → g.instancias_abiertas ≡ pos 1
    → cerrar_global r gs ≡ some (remove_at r gs)
unfolding cerrar_global
cerrar_global-one r gs g e f = rw (cerrar_global, e, ◌>>=◌, f) refl

de_archivo-ruta :
    (gs : List ArchivoGlobal) (b : ArchivoDeProceso) (d : Descriptor)
    → de_archivo gs b ≡ some d
    → ruta_en gs b.referencia_a_tabla_global ≡ some d.ruta
de_archivo-ruta gs b d e = go (ruta_en gs b.referencia_a_tabla_global) e
  where
    go :
        (o : Option String)
        → (o >>= λ path. some (record { permisos = b.flags; ruta = path; posicion = b.offset }))
          ≡ some d
        → o ≡ some d.ruta
    go none e = ground (arith, e)
    go (some path) e = ap some (
        ap (λ x. x.ruta)
          (some-injective (record { permisos = b.flags; ruta = path; posicion = b.offset }) d e))

-- Behind an entry that is removed no reference keeps its path.
ruta_en-shifts :
    (c : ℕ → ℕ) (gs : List ArchivoGlobal) (r i : ℕ) (path : String)
    → IsContada c gs
    → r < i
    → ruta_en gs i ≡ some path
    → ruta_en (remove_at r gs) i ≢ some path
ruta_en-shifts c gs r i path v l e =
    λ f. ground (arith, ruta_en-remove_at gs r i, f, v.sin_repetir (i + 1) i path, e)

-- In consistent tables, if the process has a descriptor open that is the only one to refer to its
-- entry of the global table, and another process has one open that refers to an entry behind it,
-- `execute_close` of the first answers 1, and the second then stands for something else than
-- before.
pub execute_close-shifts :
    (pid fd p f : ℕ) (t : Tablas) (tabla tabla₂ : TablaDeProceso) (a b : ArchivoDeProceso)
    → IsConsistente t
    → buscar_tabla pid t.procesos ≡ some tabla
    → buscar_archivo fd tabla.lista_de_archivos ≡ some a
    → fd < 2 ^ 31
    → cuenta a.referencia_a_tabla_global t.procesos ≡ 1
    → p ≢ pid
    → buscar_tabla p t.procesos ≡ some tabla₂
    → buscar_archivo f tabla₂.lista_de_archivos ≡ some b
    → a.referencia_a_tabla_global < b.referencia_a_tabla_global
    → (t' : Tablas) × (execute_close pid (pos fd) t ≡ some (pos 1, t'))
      × (descriptor t' p f ≢ descriptor t p f)
execute_close-shifts pid fd p f t tabla tabla₂ a b v e k l one n e₂ k₂ lt =
    let r = a.referencia_a_tabla_global in
    let (g, here, at) =
      IsContada-ruta_en (λ i. cuenta i t.procesos) t.globales r v.contada (omega arith) in
    let (h, there, path) =
      IsContada-ruta_en (λ i. cuenta i t.procesos) t.globales b.referencia_a_tabla_global v.contada
        (cuenta_pos p f tabla₂ b t.procesos e₂ k₂) in
    let named = Cuentas.buscar_tabla-pid pid tabla t.procesos e in
    let t' = cambiar t (remove_at r t.globales) (sin_archivo tabla fd) in
    (
      t',
      execute_close_runs pid fd (pos fd) t tabla a (remove_at r t.globales) e k (small_u32 fd l)
          (cerrar_global-one r t.globales g here ((v.contada.instancias r g here).0 ∙ ap pos one)),
      λ same.
          ruta_en-shifts (λ i. cuenta i t.procesos) t.globales r b.referencia_a_tabla_global
            h.ruta_del_archivo v.contada lt path
            (de_archivo-ruta (remove_at r t.globales) b
              (record { permisos = b.flags; ruta = h.ruta_del_archivo; posicion = b.offset })
              (sym (
                  descriptor-at t' p f tabla₂ b
                    (Cuentas.buscar_tabla-poner_other p (sin_archivo tabla fd) t.procesos
                        (λ q. n (sym q ∙ named))
                      ∙ e₂)
                    k₂)
                ∙ same
                ∙ descriptor-at t p f tabla₂ b e₂ k₂
                ∙ rw (path, ◌>>=◌) refl)),
    )
