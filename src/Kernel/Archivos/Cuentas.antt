-- ===== src/Kernel/Archivos/Cuentas.antt =====
-- The tables of the processes in Kernel/Kernel.c: how often a place of the global table is referred
-- to, the order of the descriptors, and what the loops find after a change.
use native.Mathlib.Omega.{arith}
use mathlib.Core.Option.{some-injective}
use tp_so_2017_twt.Prelude.{
  ℕ, ◌+◌, ◌<◌, ◌≤◌, ◌≡◌, refl, none, some, List, [], ◌∷◌, ◌++◌, ◌==◌, if◌then◌else◌, All,
  Bool-cases, ==_iff, ◌≢◌, ◌⊎◌, sym, ◌∙◌, subst, inl, inr,
}
use tp_so_2017_twt.Kernel.Archivos.Tablas.{
  ArchivoDeProceso, TablaDeProceso, buscar_tabla, poner_tabla, buscar_archivo, sacar_archivo,
  poner_archivo,
}

-- The descriptors of a process that refer to the place `r` of the global table
unfoldable pub refs : ℕ → List ArchivoDeProceso → ℕ
refs r [] = 0
refs r (a ∷ as') = (if a.referencia_a_tabla_global == r then 1 else 0) + refs r as'

unfoldable pub cuenta : ℕ → List TablaDeProceso → ℕ
unfolding refs
cuenta r [] = 0
cuenta r (t ∷ ts) = refs r t.lista_de_archivos + cuenta r ts

-- The descriptors ascend, above `lo` and up to `hi`.
unfoldable pub EnOrden : ℕ → ℕ → List ArchivoDeProceso → Type 0
EnOrden lo hi [] = lo ≤ hi
EnOrden lo hi (a ∷ as') = (lo < a.fd) × EnOrden a.fd hi as'

abbrev pub HasOrden : TablaDeProceso → Type 0
HasOrden t = EnOrden 2 t.current_fd t.lista_de_archivos

pub refs-append_one :
    (r : ℕ) (a : ArchivoDeProceso) (as' : List ArchivoDeProceso)
    → refs r (as' ++ (a ∷ [])) ≡ refs r as' + (if a.referencia_a_tabla_global == r then 1 else 0)
unfolding refs
refs-append_one r a [] = omega arith
refs-append_one r a (b ∷ bs) = ground (arith, refs-append_one r a bs)

pub refs-sacar_archivo :
    (r fd : ℕ) (a : ArchivoDeProceso) (as' : List ArchivoDeProceso)
    → buscar_archivo fd as' ≡ some a
    → refs r (sacar_archivo fd as') + (if a.referencia_a_tabla_global == r then 1 else 0)
      ≡ refs r as'
unfolding refs buscar_archivo sacar_archivo
refs-sacar_archivo r fd a [] e = ground (arith, e)
refs-sacar_archivo r fd a (b ∷ bs) e = ground (arith, refs-sacar_archivo r fd a bs)

pub refs-poner_archivo :
    (r fd : ℕ) (a b : ArchivoDeProceso) (as' : List ArchivoDeProceso)
    → buscar_archivo fd as' ≡ some a
    → b.fd ≡ fd
    → b.referencia_a_tabla_global ≡ a.referencia_a_tabla_global
    → refs r (poner_archivo b as') ≡ refs r as'
unfolding refs buscar_archivo poner_archivo
refs-poner_archivo r fd a b [] e f g = refl
refs-poner_archivo r fd a b (c ∷ cs) e f g = ground (arith, refs-poner_archivo r fd a b cs)

pub EnOrden-low : (lo hi : ℕ) (as' : List ArchivoDeProceso) → EnOrden lo hi as' → lo ≤ hi
unfolding EnOrden
EnOrden-low lo hi [] o = o
EnOrden-low lo hi (a ∷ as') o = omega (arith, o.0, EnOrden-low a.fd hi as' o.1)

pub EnOrden-lower :
    (lo lo' hi : ℕ) (as' : List ArchivoDeProceso)
    → lo' ≤ lo
    → EnOrden lo hi as'
    → EnOrden lo' hi as'
unfolding EnOrden
EnOrden-lower lo lo' hi [] l o = omega arith
EnOrden-lower lo lo' hi (a ∷ as') l o = (omega (arith, o.0), o.1)

pub EnOrden-append_one :
    (lo hi : ℕ) (a : ArchivoDeProceso) (as' : List ArchivoDeProceso)
    → hi < a.fd
    → EnOrden lo hi as'
    → EnOrden lo a.fd (as' ++ (a ∷ []))
unfolding EnOrden
EnOrden-append_one lo hi a [] l o = (omega arith, omega arith)
EnOrden-append_one lo hi a (b ∷ bs) l o = (o.0, EnOrden-append_one b.fd hi a bs l o.1)

pub EnOrden-sacar_archivo :
    (lo hi fd : ℕ) (as' : List ArchivoDeProceso)
    → EnOrden lo hi as'
    → EnOrden lo hi (sacar_archivo fd as')
unfolding EnOrden sacar_archivo
EnOrden-sacar_archivo lo hi fd [] o = o
EnOrden-sacar_archivo lo hi fd (a ∷ as') o = elim (Bool-cases (a.fd == fd)) [
  | inl e ↦ rw e (EnOrden-lower a.fd lo hi as' (omega (arith, o.0)) o.1)
  | inr e ↦ rw e (o.0, EnOrden-sacar_archivo a.fd hi fd as' o.1)
]

pub EnOrden-poner_archivo :
    (lo hi : ℕ) (b : ArchivoDeProceso) (as' : List ArchivoDeProceso)
    → EnOrden lo hi as'
    → EnOrden lo hi (poner_archivo b as')
unfolding EnOrden poner_archivo
EnOrden-poner_archivo lo hi b [] o = o
EnOrden-poner_archivo lo hi b (a ∷ as') o = elim (Bool-cases (a.fd == b.fd)) [
  | inl e ↦ rw e (
    omega (arith, o.0, (==_iff a.fd b.fd).0 e),
    EnOrden-lower a.fd b.fd hi as' (omega (arith, (==_iff a.fd b.fd).0 e)) o.1,
  )
  | inr e ↦ rw e (o.0, EnOrden-poner_archivo a.fd hi b as' o.1)
]

-- A descriptor outside the order is not there.
pub buscar_archivo-none :
    (lo hi fd : ℕ) (as' : List ArchivoDeProceso)
    → EnOrden lo hi as'
    → (fd ≤ lo) ⊎ (hi < fd)
    → buscar_archivo fd as' ≡ none
unfolding EnOrden buscar_archivo
buscar_archivo-none lo hi fd [] o s = refl
buscar_archivo-none lo hi fd (a ∷ as') o (inl s) =
    ground (arith, o.0, buscar_archivo-none a.fd hi fd as' o.1 (inl (omega (arith, o.0))))
buscar_archivo-none lo hi fd (a ∷ as') o (inr s) =
    ground (arith, o.0, EnOrden-low a.fd hi as' o.1, buscar_archivo-none a.fd hi fd as' o.1 (inr s))

pub buscar_archivo-sacar_archivo :
    (lo hi fd : ℕ) (as' : List ArchivoDeProceso)
    → EnOrden lo hi as'
    → buscar_archivo fd (sacar_archivo fd as') ≡ none
unfolding EnOrden buscar_archivo sacar_archivo
buscar_archivo-sacar_archivo lo hi fd [] o = refl
buscar_archivo-sacar_archivo lo hi fd (a ∷ as') o = ground (
  arith,
  buscar_archivo-sacar_archivo a.fd hi fd as' o.1,
  λ (l : fd ≤ a.fd). buscar_archivo-none a.fd hi fd as' o.1 (inl l),
)

pub buscar_archivo-sacar_other :
    (fd fd' : ℕ) (as' : List ArchivoDeProceso)
    → fd' ≢ fd
    → buscar_archivo fd' (sacar_archivo fd as') ≡ buscar_archivo fd' as'
unfolding buscar_archivo sacar_archivo
buscar_archivo-sacar_other fd fd' [] n = refl
buscar_archivo-sacar_other fd fd' (a ∷ as') n =
    ground (arith, buscar_archivo-sacar_other fd fd' as' n)

pub buscar_archivo-append_one :
    (fd : ℕ) (a : ArchivoDeProceso) (as' : List ArchivoDeProceso)
    → buscar_archivo fd as' ≡ none
    → a.fd ≡ fd
    → buscar_archivo fd (as' ++ (a ∷ [])) ≡ some a
unfolding buscar_archivo
buscar_archivo-append_one fd a [] e f = ground arith
buscar_archivo-append_one fd a (b ∷ bs) e f = ground (arith, buscar_archivo-append_one fd a bs)

pub buscar_archivo-append_other :
    (fd : ℕ) (a : ArchivoDeProceso) (as' : List ArchivoDeProceso)
    → a.fd ≢ fd
    → buscar_archivo fd (as' ++ (a ∷ [])) ≡ buscar_archivo fd as'
unfolding buscar_archivo
buscar_archivo-append_other fd a [] n = ground arith
buscar_archivo-append_other fd a (b ∷ bs) n = ground (arith, buscar_archivo-append_other fd a bs n)

pub buscar_archivo-poner_archivo :
    (fd : ℕ) (a b : ArchivoDeProceso) (as' : List ArchivoDeProceso)
    → buscar_archivo fd as' ≡ some a
    → b.fd ≡ fd
    → buscar_archivo fd (poner_archivo b as') ≡ some b
unfolding buscar_archivo poner_archivo
buscar_archivo-poner_archivo fd a b [] e f = ground (arith, e)
buscar_archivo-poner_archivo fd a b (c ∷ cs) e f =
    ground (arith, buscar_archivo-poner_archivo fd a b cs)

pub buscar_archivo-poner_other :
    (fd : ℕ) (b : ArchivoDeProceso) (as' : List ArchivoDeProceso)
    → b.fd ≢ fd
    → buscar_archivo fd (poner_archivo b as') ≡ buscar_archivo fd as'
unfolding buscar_archivo poner_archivo
buscar_archivo-poner_other fd b [] n = refl
buscar_archivo-poner_other fd b (c ∷ cs) n = ground (arith, buscar_archivo-poner_other fd b cs n)

pub buscar_tabla-pid :
    (pid : ℕ) (t : TablaDeProceso) (ts : List TablaDeProceso)
    → buscar_tabla pid ts ≡ some t
    → t.pid ≡ pid
unfolding buscar_tabla
buscar_tabla-pid pid t [] e = ground (arith, e)
buscar_tabla-pid pid t (u ∷ us) e = ground (arith, buscar_tabla-pid pid t us)

pub buscar_tabla-poner_tabla :
    (pid : ℕ) (t t' : TablaDeProceso) (ts : List TablaDeProceso)
    → buscar_tabla pid ts ≡ some t
    → t'.pid ≡ pid
    → buscar_tabla pid (poner_tabla t' ts) ≡ some t'
unfolding buscar_tabla poner_tabla
buscar_tabla-poner_tabla pid t t' [] e f = ground (arith, e)
buscar_tabla-poner_tabla pid t t' (u ∷ us) e f =
    ground (arith, buscar_tabla-poner_tabla pid t t' us)

pub buscar_tabla-poner_other :
    (pid : ℕ) (t' : TablaDeProceso) (ts : List TablaDeProceso)
    → t'.pid ≢ pid
    → buscar_tabla pid (poner_tabla t' ts) ≡ buscar_tabla pid ts
unfolding buscar_tabla poner_tabla
buscar_tabla-poner_other pid t' [] n = refl
buscar_tabla-poner_other pid t' (u ∷ us) n = ground (arith, buscar_tabla-poner_other pid t' us n)

pub cuenta-poner_tabla :
    (r pid : ℕ) (t t' : TablaDeProceso) (ts : List TablaDeProceso)
    → buscar_tabla pid ts ≡ some t
    → t'.pid ≡ pid
    → cuenta r (poner_tabla t' ts) + refs r t.lista_de_archivos
      ≡ cuenta r ts + refs r t'.lista_de_archivos
unfolding cuenta buscar_tabla poner_tabla
cuenta-poner_tabla r pid t t' [] e f = ground (arith, e)
cuenta-poner_tabla r pid t t' (u ∷ us) e f = ground (arith, cuenta-poner_tabla r pid t t' us)

pub buscar_tabla-HasOrden :
    (pid : ℕ) (t : TablaDeProceso) (ts : List TablaDeProceso)
    → buscar_tabla pid ts ≡ some t
    → All HasOrden ts
    → HasOrden t
unfolding buscar_tabla
buscar_tabla-HasOrden pid t [] e o = ground (arith, e)
buscar_tabla-HasOrden pid t (u ∷ us) e o = elim (Bool-cases (u.pid == pid)) [
  | inl f ↦ subst HasOrden (some-injective u t (sym (rw f refl) ∙ e)) o.0
  | inr f ↦ buscar_tabla-HasOrden pid t us (sym (rw f refl) ∙ e) o.1
]

pub poner_tabla-HasOrden :
    (t : TablaDeProceso) (ts : List TablaDeProceso)
    → HasOrden t
    → All HasOrden ts
    → All HasOrden (poner_tabla t ts)
unfolding poner_tabla
poner_tabla-HasOrden t [] h o = o
poner_tabla-HasOrden t (u ∷ us) h o = elim (Bool-cases (u.pid == t.pid)) [
  | inl f ↦ rw f (h, o.1)
  | inr f ↦ rw f (o.0, poner_tabla-HasOrden t us h o.1)
]
