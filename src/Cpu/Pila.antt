-- ===== src/Cpu/Pila.antt =====
-- The last record of the stack in CPU/CPU.c, and what the primitives find after it changes.
use native.Mathlib.Omega.{arith}
use tp_so_2017_twt.Prelude.{
  ℕ, zero, suc, ◌+◌, ◌-◌, ◌*◌, ◌%◌, ◌^◌, ◌<◌, ◌≤◌, ◌≡◌, ◌≢◌, refl, sym, ap, ◌∙◌, Bool, false, some,
  List, [], ◌∷◌, ◌++◌, ◌==◌, ==_self, ==_ne, Bool-cases, inl, inr, dec_lt, lt→ltb, ◌||◌,
}
use tp_so_2017_twt.Pcb.Defs.{Variable, RegistroStack}
use tp_so_2017_twt.Cpu.Defs.{
  pagina_loop, ultimo, poner_ultimo, sin_ultimo, agregar_variable, con_variable, buscar_variable,
}

pub ultimo-append_one :
    (rs : List RegistroStack) (r : RegistroStack) → ultimo (rs ++ (r ∷ [])) ≡ some r
unfolding ultimo
ultimo-append_one [] r = refl
ultimo-append_one (q ∷ []) r = refl
ultimo-append_one (q ∷ q' ∷ rs) r = ultimo-append_one (q' ∷ rs) r

pub sin_ultimo-append_one :
    (rs : List RegistroStack) (r : RegistroStack) → sin_ultimo (rs ++ (r ∷ [])) ≡ rs
unfolding sin_ultimo
sin_ultimo-append_one [] r = refl
sin_ultimo-append_one (q ∷ []) r = refl
sin_ultimo-append_one (q ∷ q' ∷ rs) r = ap (λ t. q ∷ t) (sin_ultimo-append_one (q' ∷ rs) r)

pub poner_ultimo-append_one :
    (rs : List RegistroStack) (r s : RegistroStack)
    → poner_ultimo s (rs ++ (r ∷ [])) ≡ rs ++ (s ∷ [])
unfolding poner_ultimo
poner_ultimo-append_one [] r s = refl
poner_ultimo-append_one (q ∷ []) r s = refl
poner_ultimo-append_one (q ∷ q' ∷ rs) r s = ap (λ t. q ∷ t) (poner_ultimo-append_one (q' ∷ rs) r s)

pub con_variable-append_one :
    (vacio : RegistroStack) (v : Variable) (rs : List RegistroStack) (r : RegistroStack)
    → con_variable vacio v (rs ++ (r ∷ [])) ≡ rs ++ (agregar_variable v r ∷ [])
unfolding con_variable
con_variable-append_one vacio v rs r =
    rw (con_variable, ultimo-append_one rs r) (poner_ultimo-append_one rs r (agregar_variable v r))

plus_one : (a b : ℕ) → (a + 1) * b ≡ a * b + b
plus_one a b = omega arith

-- The loop over the pages keeps the address.
pub pagina_loop-address :
    (fuel tamanio page offset : ℕ)
    → 0 < tamanio
    → offset < fuel
    → (p o : ℕ) × (pagina_loop fuel tamanio page offset ≡ some (p, o))
      × (p * tamanio + o ≡ page * tamanio + offset)
      × (o ≤ tamanio)
unfolding pagina_loop
pagina_loop-address zero tamanio page offset l f = absurd (omega arith)
pagina_loop-address (suc fuel) tamanio page offset l f = elim (dec_lt tamanio offset) [
  | yes big ↦
      let (p, o, run, same, small) =
        pagina_loop-address fuel tamanio (page + 1) (offset - tamanio) l (omega arith) in
      (p, o, rw (lt→ltb tamanio offset big) run, omega (arith, same, plus_one page tamanio), small)
  | no fits ↦ (page, offset, ground (arith, fits), refl, omega arith)
]

-- A variable of this name is in the list.
unfoldable pub hay_variable : ℕ → List Variable → Bool
hay_variable id [] = false
hay_variable id (v ∷ vs) = v.id == id || hay_variable id vs

pub buscar_variable-append_one :
    (tamanio id : ℕ) (vs : List Variable) (v : Variable)
    → hay_variable id vs ≡ false
    → v.id ≡ id
    → buscar_variable tamanio id (vs ++ (v ∷ [])) ≡ (v.page * tamanio + v.offset) % 2 ^ 32
unfolding buscar_variable hay_variable
buscar_variable-append_one tamanio id [] v e f = rw (f, ==_self id) refl
buscar_variable-append_one tamanio id (w ∷ ws) v e f = elim (Bool-cases (w.id == id)) [
  | inl g ↦ ground (arith, e, g)
  | inr g ↦ rw g (buscar_variable-append_one tamanio id ws v (sym (rw g refl) ∙ e) f)
]

pub buscar_variable-append_other :
    (tamanio id : ℕ) (vs : List Variable) (v : Variable)
    → v.id ≢ id
    → buscar_variable tamanio id (vs ++ (v ∷ [])) ≡ buscar_variable tamanio id vs
unfolding buscar_variable
buscar_variable-append_other tamanio id [] v n = rw (==_ne v.id id n) refl
buscar_variable-append_other tamanio id (w ∷ ws) v n = elim (Bool-cases (w.id == id)) [
  | inl g ↦ rw g refl
  | inr g ↦ rw g (buscar_variable-append_other tamanio id ws v n)
]
