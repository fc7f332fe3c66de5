-- ===== src/Cpu/Contexto.antt =====
-- The contexts of CPU/CPU.c: definitions of variables, calls and their end.
use native.Mathlib.Omega.{arith}
use tp_so_2017_twt.Prelude.{
  ℕ, ◌+◌, ◌*◌, ◌%◌, ◌^◌, ◌<◌, ◌≤◌, ◌≡◌, ◌≢◌, refl, sym, ap, ◌∙◌, true, false, some, List, [], ◌∷◌,
  ◌++◌, ltb, if◌then◌else◌, ◌>>=◌, Bool-cases, inl, inr,
}
use tp_so_2017_twt.Pcb.Defs.{Variable, RegistroStack}
use tp_so_2017_twt.Cpu.Defs.{
  Cpu, isdigit, pagina_loop, agregar_variable, con_variable, buscar_variable, definir_variable,
  obtener_posicion_variable,
}
use tp_so_2017_twt.Cpu.Pila.{
  ultimo-append_one, con_variable-append_one, pagina_loop-address, hay_variable,
  buscar_variable-append_one, buscar_variable-append_other,
}

-- The variables or the arguments of a record, as the name says
abbrev pub lista_de : ℕ → RegistroStack → List Variable
lista_de id r = if isdigit id then r.args else r.vars

-- The state after a definition of `v` in the record `r`, above the records `rs`
abbrev pub definida : Cpu → List RegistroStack → RegistroStack → Variable → Cpu
definida c rs r v = record c {
  pcb = record (c.pcb) {
    stack_index = rs ++ (agregar_variable v r ∷ []);
    stack_pointer = c.pcb.stack_pointer + 4;
  };
}

ltb-false : (a b : ℕ) → b ≤ a → ltb a b ≡ false
ltb-false a b l = ground arith

pub small_mod : (n : ℕ) → n < 2 ^ 32 → n % 2 ^ 32 ≡ n
small_mod n l = omega arith

definir_run :
    (vacio : RegistroStack) (tamanio id p o : ℕ) (c : Cpu) (rs : List RegistroStack)
    (r : RegistroStack)
    → pagina_loop (c.pcb.stack_pointer + 1) tamanio c.pcb.primer_pagina_stack c.pcb.stack_pointer
      ≡ some (p, o)
    → con_variable vacio (record { id = id; page = p; offset = o; size = 4 }) c.pcb.stack_index
      ≡ rs ++ (agregar_variable (record { id = id; page = p; offset = o; size = 4 }) r ∷ [])
    → ltb (c.pcb.tamanio_stack * tamanio % 2 ^ 32) (c.pcb.stack_pointer + 4) ≡ false
    → (c.pcb.stack_pointer + 4) % 2 ^ 32 ≡ c.pcb.stack_pointer + 4
    → definir_variable vacio tamanio id c
      ≡ some (
        (c.pcb.primer_pagina_stack * tamanio + c.pcb.stack_pointer) % 2 ^ 32,
        definida c rs r (record { id = id; page = p; offset = o; size = 4 }),
      )
unfolding definir_variable
definir_run vacio tamanio id p o c rs r e f g h = rw (definir_variable, e, ◌>>=◌, g, f, h) refl

-- What a definition of `id` leaves: the variable `v` in the record `r` at the top
pub record IsDefinida (vacio : RegistroStack) (tamanio id : ℕ) (c : Cpu) (rs : List RegistroStack)
    (r : RegistroStack) (v : Variable) : Type 0 where
  pub llamada : v.id ≡ id
  pub direccion :
      v.page * tamanio + v.offset ≡ c.pcb.primer_pagina_stack * tamanio + c.pcb.stack_pointer
  pub en_pagina : v.offset ≤ tamanio
  pub corre :
      definir_variable vacio tamanio id c
      ≡ some
          ((c.pcb.primer_pagina_stack * tamanio + c.pcb.stack_pointer) % 2 ^ 32, definida c rs r v)

pub definir_variable-IsDefinida :
    (vacio : RegistroStack) (tamanio id : ℕ) (c : Cpu) (rs : List RegistroStack) (r : RegistroStack)
    → 0 < tamanio
    → c.pcb.stack_index ≡ rs ++ (r ∷ [])
    → c.pcb.stack_pointer + 4 ≤ c.pcb.tamanio_stack * tamanio % 2 ^ 32
    → (v : Variable) × IsDefinida vacio tamanio id c rs r v
definir_variable-IsDefinida vacio tamanio id c rs r l e room =
    let (p, o, run, same, small) =
      pagina_loop-address (c.pcb.stack_pointer + 1) tamanio c.pcb.primer_pagina_stack
        c.pcb.stack_pointer l (omega arith) in
    let v : Variable = record { id = id; page = p; offset = o; size = 4 } in
    (
      v,
      record {
        llamada = refl;
        direccion = same;
        en_pagina = small;
        corre =
            definir_run vacio tamanio id p o c rs r run
              (ap (con_variable vacio v) e ∙ con_variable-append_one vacio v rs r)
              (ltb-false _ _ room) (omega (arith, room));
      },
    )

obtener_at :
    (tamanio id : ℕ) (c : Cpu) (rs : List RegistroStack) (r : RegistroStack)
    → c.pcb.stack_index ≡ rs ++ (r ∷ [])
    → obtener_posicion_variable tamanio id c ≡ some (buscar_variable tamanio id (lista_de id r))
unfolding obtener_posicion_variable
obtener_at tamanio id c rs r e =
    rw (obtener_posicion_variable, e, ultimo-append_one rs r, ◌>>=◌) refl

agregada_found :
    (tamanio id : ℕ) (v : Variable) (r : RegistroStack)
    → v.id ≡ id
    → hay_variable id (lista_de id r) ≡ false
    → buscar_variable tamanio id (lista_de id (agregar_variable v r))
      ≡ (v.page * tamanio + v.offset) % 2 ^ 32
unfolding agregar_variable
agregada_found tamanio id v r e f = elim (Bool-cases (isdigit v.id)) [
  | inl g ↦
      let h : isdigit id ≡ true = ap isdigit (sym e) ∙ g in
      rw (g, h) (buscar_variable-append_one tamanio id r.args v (rw h at f) e)
  | inr g ↦
      let h : isdigit id ≡ false = ap isdigit (sym e) ∙ g in
      rw (g, h) (buscar_variable-append_one tamanio id r.vars v (rw h at f) e)
]

agregada_other :
    (tamanio j : ℕ) (v : Variable) (r : RegistroStack)
    → v.id ≢ j
    → buscar_variable tamanio j (lista_de j (agregar_variable v r))
      ≡ buscar_variable tamanio j (lista_de j r)
unfolding agregar_variable
agregada_other tamanio j v r n = elim (Bool-cases (isdigit v.id)) [
  | inl g ↦ elim (Bool-cases (isdigit j)) [
    | inl h ↦ rw (g, h) (buscar_variable-append_other tamanio j r.args v n)
    | inr h ↦ rw (g, h) refl
  ]
  | inr g ↦ elim (Bool-cases (isdigit j)) [
    | inl h ↦ rw (g, h) refl
    | inr h ↦ rw (g, h) (buscar_variable-append_other tamanio j r.vars v n)
  ]
]

-- With pages of more than 0 bytes, if the stack has room for 4 bytes and the last context has no
-- variable, or argument for a digit, of the name, `twt_definirVariable` answers a position, which
-- `twt_obtenerPosicionVariable` of the name answers afterwards; the positions of all other names
-- are as before, and the stack pointer has grown by 4.
pub definir_variable-obtener_posicion_variable :
    (vacio : RegistroStack) (tamanio id : ℕ) (c : Cpu) (rs : List RegistroStack) (r : RegistroStack)
    → 0 < tamanio
    → c.pcb.stack_index ≡ rs ++ (r ∷ [])
    → c.pcb.stack_pointer + 4 ≤ c.pcb.tamanio_stack * tamanio % 2 ^ 32
    → hay_variable id (lista_de id r) ≡ false
    → (posicion : ℕ) × (c' : Cpu) × (definir_variable vacio tamanio id c ≡ some (posicion, c'))
      × (obtener_posicion_variable tamanio id c' ≡ some posicion)
      × ((j : ℕ)
          → j ≢ id
          → obtener_posicion_variable tamanio j c' ≡ obtener_posicion_variable tamanio j c)
      × (c'.pcb.stack_pointer ≡ c.pcb.stack_pointer + 4)
definir_variable-obtener_posicion_variable vacio tamanio id c rs r l e room new =
    let (v, d) = definir_variable-IsDefinida vacio tamanio id c rs r l e room in
    let c' = definida c rs r v in
    (
      (c.pcb.primer_pagina_stack * tamanio + c.pcb.stack_pointer) % 2 ^ 32,
      c',
      d.corre,
      obtener_at tamanio id c' rs (agregar_variable v r) refl
          ∙ ap some
              (agregada_found tamanio id v r d.llamada new ∙ ap (λ a. a % 2 ^ 32) d.direccion),
      λ j n.
          obtener_at tamanio j c' rs (agregar_variable v r) refl
          ∙ ap some (agregada_other tamanio j v r (λ f. n (sym f ∙ d.llamada)))
          ∙ sym (obtener_at tamanio j c rs r e),
      refl,
    )
