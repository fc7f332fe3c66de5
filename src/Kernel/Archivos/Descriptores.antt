-- ===== src/Kernel/Archivos/Descriptores.antt =====
-- What `execute_open`, `execute_close` and `move_cursor` of Kernel/Kernel.c do to what the
-- descriptors of the processes stand for.
use native.Mathlib.Omega.{arith}
use tp_so_2017_twt.Prelude.{
  ℕ, ◌+◌, ◌<◌, ◌≡◌, inl, inr, refl, sym, ap, ◌∙◌, Option, none, some, List, ◌>>=◌, Option-cases,
  ℕ_discrete,
}
use tp_so_2017_twt.Kernel.Archivos.Tablas.{
  ArchivoDeProceso, TablaDeProceso, ArchivoGlobal, Tablas, buscar_tabla, poner_tabla,
  buscar_archivo,
}
use tp_so_2017_twt.Kernel.Archivos.Cuentas
use tp_so_2017_twt.Kernel.Archivos.Cuentas.{refs, cuenta, HasOrden}
use tp_so_2017_twt.Kernel.Archivos.Globales.{ruta_en, IsContada}
use tp_so_2017_twt.Kernel.Archivos.Invariante.{
  IsConsistente, de_archivo, descriptor, IsContada-congr, cuenta_pos,
}

-- The tables with another table for one process, and another global table
abbrev pub cambiar : Tablas → List ArchivoGlobal → TablaDeProceso → Tablas
cambiar t gs tabla = record { globales = gs; procesos = poner_tabla tabla t.procesos }

de_archivo-same :
    (gs gs' : List ArchivoGlobal) (o o' : Option ArchivoDeProceso)
    → o' ≡ o
    → ((a : ArchivoDeProceso)
        → o ≡ some a
        → ruta_en gs' a.referencia_a_tabla_global ≡ ruta_en gs a.referencia_a_tabla_global)
    → (o' >>= de_archivo gs') ≡ (o >>= de_archivo gs)
de_archivo-same gs gs' none o' e s = rw (e, ◌>>=◌) refl
de_archivo-same gs gs' (some a) o' e s = rw (e, ◌>>=◌, s a refl) refl

pub descriptor-found :
    (t : Tablas) (pid fd : ℕ) (tabla : TablaDeProceso)
    → buscar_tabla pid t.procesos ≡ some tabla
    → descriptor t pid fd ≡ (buscar_archivo fd tabla.lista_de_archivos >>= de_archivo t.globales)
unfolding descriptor
descriptor-found t pid fd tabla e = rw (e, ◌>>=◌) refl

pub descriptor-at :
    (t : Tablas) (p f : ℕ) (tabla : TablaDeProceso) (b : ArchivoDeProceso)
    → buscar_tabla p t.procesos ≡ some tabla
    → buscar_archivo f tabla.lista_de_archivos ≡ some b
    → descriptor t p f ≡ de_archivo t.globales b
descriptor-at t p f tabla b e k =
    descriptor-found t p f tabla e ∙ ap (λ o. o >>= de_archivo t.globales) k

pub descriptor-cambiar :
    (t : Tablas) (gs : List ArchivoGlobal) (pid : ℕ) (tabla tabla' : TablaDeProceso) (p fd : ℕ)
    → buscar_tabla pid t.procesos ≡ some tabla
    → tabla'.pid ≡ pid
    → (p ≡ pid
        → buscar_archivo fd tabla'.lista_de_archivos ≡ buscar_archivo fd tabla.lista_de_archivos)
    → ((i : ℕ)
        → 0 < cuenta i t.procesos
        → 0 < cuenta i (poner_tabla tabla' t.procesos)
        → ruta_en gs i ≡ ruta_en t.globales i)
    → descriptor (cambiar t gs tabla') p fd ≡ descriptor t p fd
unfolding descriptor
descriptor-cambiar t gs pid tabla tabla' p fd e f same rutas = elim (ℕ_discrete p pid) [
  | yes q ↦
      let found = Cuentas.buscar_tabla-poner_tabla pid tabla tabla' t.procesos e f in
      rw q (
        descriptor-found (cambiar t gs tabla') pid fd tabla' found
        ∙ de_archivo-same t.globales gs (buscar_archivo fd tabla.lista_de_archivos)
            (buscar_archivo fd tabla'.lista_de_archivos) (same q)
            (λ a h.
              rutas a.referencia_a_tabla_global (cuenta_pos pid fd tabla a t.procesos e h)
                (cuenta_pos pid fd tabla' a (poner_tabla tabla' t.procesos) found (same q ∙ h)))
        ∙ sym (descriptor-found t pid fd tabla e))
  | no n ↦
      let other = Cuentas.buscar_tabla-poner_other p tabla' t.procesos (λ q. n (sym q ∙ f)) in
      elim (Option-cases (buscar_tabla p t.procesos)) [
        | inl h ↦ rw (descriptor, other, h, ◌>>=◌) refl
        | inr (u, h) ↦
            descriptor-found (cambiar t gs tabla') p fd u (other ∙ h)
            ∙ de_archivo-same t.globales gs (buscar_archivo fd u.lista_de_archivos)
                (buscar_archivo fd u.lista_de_archivos) refl
                (λ a k.
                  rutas a.referencia_a_tabla_global (cuenta_pos p fd u a t.procesos h k)
                    (cuenta_pos p fd u a (poner_tabla tabla' t.procesos) (other ∙ h) k))
            ∙ sym (descriptor-found t p fd u h)
      ]
]

pub cambiar-IsConsistente :
    (t : Tablas) (gs : List ArchivoGlobal) (pid : ℕ) (tabla tabla' : TablaDeProceso) (c : ℕ → ℕ)
    → IsConsistente t
    → buscar_tabla pid t.procesos ≡ some tabla
    → tabla'.pid ≡ pid
    → HasOrden tabla'
    → IsContada c gs
    → ((i : ℕ)
        → refs i tabla'.lista_de_archivos + cuenta i t.procesos
          ≡ c i + refs i tabla.lista_de_archivos)
    → IsConsistente (cambiar t gs tabla')
cambiar-IsConsistente t gs pid tabla tabla' c v e f o w same = record {
  contada =
      IsContada-congr c (λ r. cuenta r (poner_tabla tabla' t.procesos)) gs
        (λ i. omega (arith, same i, Cuentas.cuenta-poner_tabla i pid tabla tabla' t.procesos e f))
        w;
  ordenadas = Cuentas.poner_tabla-HasOrden tabla' t.procesos o v.ordenadas;
}
