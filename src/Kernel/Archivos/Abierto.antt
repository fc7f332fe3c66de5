-- ===== src/Kernel/Archivos/Abierto.antt =====
-- What the tables part of `execute_open` in Kernel/Kernel.c does to the descriptors.
use Prim.Native.String.{String}
use native.Mathlib.Omega.{arith}
use tp_so_2017_twt.Prelude.{
  ℕ, ◌+◌, ◌%◌, ◌^◌, ◌<◌, ◌≡◌, ◌≢◌, ◌⊎◌, inr, refl, sym, ◌∙◌, none, some, List, [], ◌∷◌, ◌++◌, ◌>>=◌,
  pos,
}
use tp_so_2017_twt.Kernel.Archivos.Tablas.{
  Banderas, ArchivoDeProceso, TablaDeProceso, ArchivoGlobal, Tablas, buscar_tabla, abrir_global,
  abrir, i32,
}
use tp_so_2017_twt.Kernel.Archivos.Cuentas
use tp_so_2017_twt.Kernel.Archivos.Cuentas.{refs, cuenta, HasOrden}
use tp_so_2017_twt.Kernel.Archivos.Globales.{abrir_global-IsAbierta, con_una}
use tp_so_2017_twt.Kernel.Archivos.Invariante.{
  IsConsistente, Descriptor, descriptor, IsContada-ruta_en,
}
use tp_so_2017_twt.Kernel.Archivos.Descriptores.{
  cambiar, descriptor-cambiar, descriptor-found, cambiar-IsConsistente,
}

-- `t'` is consistent, and has besides the descriptors of `t` the descriptor `fd` of `pid`.
pub record IsNuevo (t t' : Tablas) (pid fd : ℕ) (d : Descriptor) : Type 0 where
  pub consistente : IsConsistente t'
  pub libre : descriptor t pid fd ≡ none
  pub nuevo : descriptor t' pid fd ≡ some d
  pub otros : (p f : ℕ) → (p ≢ pid) ⊎ (f ≢ fd) → descriptor t' p f ≡ descriptor t p f

small_i32 : (n : ℕ) → n < 2 ^ 31 → i32 n ≡ pos n
unfolding i32
small_i32 n l = ground arith

small_mod : (n : ℕ) → n < 2 ^ 31 → n % 2 ^ 32 ≡ n
small_mod n l = omega arith

-- The table of a process with one descriptor more
abbrev con_archivo : TablaDeProceso → ArchivoDeProceso → TablaDeProceso
con_archivo tabla a = record tabla {
  lista_de_archivos = tabla.lista_de_archivos ++ (a ∷ []);
  current_fd = a.fd;
}

abbrev archivo_abierto : Banderas → ℕ → ℕ → ArchivoDeProceso
archivo_abierto permisos r fd = record {
  fd = fd;
  flags = permisos;
  referencia_a_tabla_global = r;
  offset = 0;
}

abrir_runs :
    (pid : ℕ) (permisos : Banderas) (path : String) (t : Tablas) (tabla : TablaDeProceso) (r fd : ℕ)
    (gs : List ArchivoGlobal)
    → abrir_global path t.globales ≡ some (r, gs)
    → buscar_tabla pid t.procesos ≡ some tabla
    → (tabla.current_fd + 1) % 2 ^ 32 ≡ fd
    → i32 fd ≡ pos fd
    → abrir pid permisos path t
      ≡ some (pos fd, cambiar t gs (con_archivo tabla (archivo_abierto permisos r fd)))
unfolding abrir
abrir_runs pid permisos path t tabla r fd gs e f m s = rw (e, ◌>>=◌, f, m, s) refl

pub abrir-IsNuevo :
    (pid : ℕ) (permisos : Banderas) (path : String) (t : Tablas) (tabla : TablaDeProceso)
    → IsConsistente t
    → buscar_tabla pid t.procesos ≡ some tabla
    → tabla.current_fd + 1 < 2 ^ 31
    → (t' : Tablas) × (abrir pid permisos path t ≡ some (pos (tabla.current_fd + 1), t'))
      × IsNuevo t t' pid
          (tabla.current_fd + 1)
          (record { permisos = permisos; ruta = path; posicion = 0 })
abrir-IsNuevo pid permisos path t tabla v e l =
    let fd = tabla.current_fd + 1 in
    let (r, gs, run, ab) =
      abrir_global-IsAbierta (λ r. cuenta r t.procesos) path t.globales v.contada in
    let a = archivo_abierto permisos r fd in
    let named = Cuentas.buscar_tabla-pid pid tabla t.procesos e in
    let o = Cuentas.buscar_tabla-HasOrden pid tabla t.procesos e v.ordenadas in
    let absent =
      Cuentas.buscar_archivo-none 2 tabla.current_fd fd tabla.lista_de_archivos o
        (inr (omega arith)) in
    (
      cambiar t gs (con_archivo tabla a),
      abrir_runs pid permisos path t tabla r fd gs run e (small_mod fd l) (small_i32 fd l),
      record {
        consistente =
            cambiar-IsConsistente t gs pid tabla (con_archivo tabla a)
              (con_una r (λ r. cuenta r t.procesos)) v e named
              (Cuentas.EnOrden-append_one 2 tabla.current_fd a tabla.lista_de_archivos (omega arith)
                o)
              ab.contada (λ i. ground (arith, Cuentas.refs-append_one i a tabla.lista_de_archivos));
        libre = descriptor-found t pid fd tabla e ∙ rw (absent, ◌>>=◌) refl;
        nuevo =
            descriptor-found (cambiar t gs (con_archivo tabla a)) pid fd (con_archivo tabla a)
              (Cuentas.buscar_tabla-poner_tabla pid tabla (con_archivo tabla a) t.procesos e named)
            ∙ rw
                (
                  Cuentas.buscar_archivo-append_one fd a tabla.lista_de_archivos absent refl,
                  ◌>>=◌,
                  ab.aqui,
                )
                refl;
        otros = λ p f n.
            descriptor-cambiar t gs pid tabla (con_archivo tabla a) p f e named
              (λ q.
                Cuentas.buscar_archivo-append_other f a tabla.lista_de_archivos
                  (ground (arith, n, q)))
              (λ i c c'.
                let (g, here, at) =
                  IsContada-ruta_en (λ r. cuenta r t.procesos) t.globales i v.contada c in
                ab.rutas i g.ruta_del_archivo at ∙ sym at);
      },
    )
