-- ===== src/Cpu/Llamada.antt =====
-- A call of CPU/CPU.c: twt_llamarConRetorno, the definitions of the function, twt_retornar and
-- twt_finalizar.
use Prim.Native.String.{String}
use native.Mathlib.Omega.{arith}
use tp_so_2017_twt.Prelude.{
  ℕ, ◌+◌, ◌-◌, ◌*◌, ◌/◌, ◌%◌, ◌^◌, ◌<◌, ◌≤◌, ◌≡◌, refl, sym, ap, ◌∙◌, Option, some, List, [], ◌∷◌,
  ◌++◌, if◌then◌else◌, length, length-append, ◌>>=◌, Bool-cases, inl, inr, ℤ,
}
use tp_so_2017_twt.Pcb.Defs.{Variable, RegistroStack, Pagoffsize}
use tp_so_2017_twt.Cpu.Defs.{
  Cpu, isdigit, agregar_variable, definir_variable, asignar, ir_al_label, llamar_con_retorno,
  finalizar, retornar,
}
use tp_so_2017_twt.Cpu.Pila.{ultimo-append_one, sin_ultimo-append_one}
use tp_so_2017_twt.Cpu.Contexto.{definida, definir_variable-IsDefinida, small_mod}

-- The definitions of a function, one after the other
unfoldable pub definir_todas : RegistroStack → ℕ → List ℕ → Cpu → Option Cpu
definir_todas vacio tamanio [] c = some c
definir_todas vacio tamanio (id ∷ ids) c = do
  (posicion, c') ← definir_variable vacio tamanio id c
  definir_todas vacio tamanio ids c'

-- How many of them are arguments
unfoldable pub argumentos : List ℕ → ℕ
argumentos [] = 0
argumentos (id ∷ ids) = (if isdigit id then 1 else 0) + argumentos ids

-- What the definitions keep, above the records `rs`
pub record IsEnFuncion (c c' : Cpu) (rs : List RegistroStack) (r : RegistroStack) (ids : List ℕ)
    : Type 0 where
  pub arriba : RegistroStack
  pub pila : c'.pcb.stack_index ≡ rs ++ (arriba ∷ [])
  pub vuelve : arriba.ret_pos ≡ r.ret_pos
  pub a_donde : arriba.ret_var ≡ r.ret_var
  pub variables : length arriba.vars + argumentos ids ≡ length r.vars + length ids
  pub puntero : c'.pcb.stack_pointer ≡ c.pcb.stack_pointer + 4 * length ids
  pub resto :
      (c'.enviados ≡ c.enviados)
      × (c'.pcb.pid ≡ c.pcb.pid)
      × (c'.programa_terminado ≡ c.programa_terminado)
      × (c'.pcb.tamanio_stack ≡ c.pcb.tamanio_stack)

agregada_vars :
    (v : Variable) (r : RegistroStack)
    → length (agregar_variable v r).vars + (if isdigit v.id then 1 else 0) ≡ length r.vars + 1
unfolding agregar_variable
agregada_vars v r = elim (Bool-cases (isdigit v.id)) [
  | inl g ↦ rw g (omega arith)
  | inr g ↦ rw g (omega (arith, length-append r.vars (v ∷ [])))
]

agregada_ret :
    (v : Variable) (r : RegistroStack)
    → ((agregar_variable v r).ret_pos ≡ r.ret_pos) × ((agregar_variable v r).ret_var ≡ r.ret_var)
unfolding agregar_variable
agregada_ret v r = elim (Bool-cases (isdigit v.id)) [
  | inl g ↦ rw g (refl, refl)
  | inr g ↦ rw g (refl, refl)
]

IsEnFuncion-cons :
    (c : Cpu) (c' : Cpu) (rs : List RegistroStack) (r : RegistroStack) (v : Variable) (id : ℕ)
    (ids : List ℕ)
    → v.id ≡ id
    → IsEnFuncion (definida c rs r v) c' rs (agregar_variable v r) ids
    → IsEnFuncion c c' rs r (id ∷ ids)
unfolding argumentos
IsEnFuncion-cons c c' rs r v id ids same f = record {
  arriba = f.arriba;
  pila = f.pila;
  vuelve = f.vuelve ∙ (agregada_ret v r).0;
  a_donde = f.a_donde ∙ (agregada_ret v r).1;
  variables =
      omega
        (arith, f.variables, agregada_vars v r, ap {B = ℕ} (λ i. if isdigit i then 1 else 0) same);
  puntero = omega (arith, f.puntero);
  resto = f.resto;
}

pub definir_todas-IsEnFuncion :
    (ids : List ℕ) (vacio : RegistroStack) (tamanio : ℕ) (c : Cpu) (rs : List RegistroStack)
    (r : RegistroStack)
    → 0 < tamanio
    → c.pcb.stack_index ≡ rs ++ (r ∷ [])
    → c.pcb.stack_pointer + 4 * length ids ≤ c.pcb.tamanio_stack * tamanio % 2 ^ 32
    → (c' : Cpu) × (definir_todas vacio tamanio ids c ≡ some c') × IsEnFuncion c c' rs r ids
unfolding definir_todas argumentos
definir_todas-IsEnFuncion [] vacio tamanio c rs r l e room = (
  c,
  refl,
  record {
    arriba = r;
    pila = e;
    vuelve = refl;
    a_donde = refl;
    variables = omega arith;
    puntero = omega arith;
    resto = (refl, refl, refl, refl);
  },
)
definir_todas-IsEnFuncion (id ∷ ids) vacio tamanio c rs r l e room =
    let (v, d) = definir_variable-IsDefinida vacio tamanio id c rs r l e (omega (arith, room)) in
    let (c', run, f) =
      definir_todas-IsEnFuncion ids vacio tamanio (definida c rs r v) rs (agregar_variable v r) l
        refl (omega (arith, room)) in
    (c', rw (d.corre, ◌>>=◌) run, IsEnFuncion-cons c c' rs r v id ids d.llamada f)

-- The record that a call adds
abbrev registro_de : ℕ → ℕ → Cpu → RegistroStack
registro_de tamanio donde c = record {
  args = [];
  vars = [];
  ret_pos = c.pcb.program_counter;
  ret_var = record { page = donde / tamanio; offset = donde % tamanio; size = 4 };
}

finalizar_run :
    (c : Cpu) (q : RegistroStack) (rs : List RegistroStack) (r : RegistroStack) (n : ℕ)
    → c.pcb.stack_index ≡ (q ∷ rs) ++ (r ∷ [])
    → (c.pcb.stack_pointer + (2 ^ 32 - 4 * length r.vars % 2 ^ 32)) % 2 ^ 32 ≡ n
    → finalizar c
      ≡ some (record c {
        pcb = record (c.pcb) {
          stack_index = q ∷ rs;
          stack_pointer = n;
          program_counter = r.ret_pos;
        };
      })
unfolding finalizar
finalizar_run c q rs r n e s =
    rw (finalizar, e, ultimo-append_one (q ∷ rs) r, ◌>>=◌, sin_ultimo-append_one (q ∷ rs) r, s) refl

retornar_run :
    (c : Cpu) (tamanio : ℕ) (v : ℤ) (rs : List RegistroStack) (r : RegistroStack) (donde : ℕ)
    → c.pcb.stack_index ≡ rs ++ (r ∷ [])
    → (r.ret_var.page * tamanio + r.ret_var.offset) % 2 ^ 32 ≡ donde
    → retornar tamanio v c ≡ some (asignar tamanio donde v c)
unfolding retornar
retornar_run c tamanio v rs r donde e s = rw (retornar, e, ultimo-append_one rs r, ◌>>=◌, s) refl

div_mod : (a b : ℕ) → 0 < b → a / b * b + a % b ≡ a
div_mod a b l = omega arith

sp_lem :
    (sp v n a : ℕ)
    → v + a ≡ n
    → sp + 4 * n < 2 ^ 32
    → (sp + 4 * n + (2 ^ 32 - 4 * v % 2 ^ 32)) % 2 ^ 32 ≡ sp + 4 * a
sp_lem sp v n a e l = omega arith

-- A call, its definitions and its end
pub record IsLlamada (c c' : Cpu) (retorno : Option Cpu) (fin : Option Cpu) (tamanio donde : ℕ)
    (v : ℤ) (ids : List ℕ) : Type 0 where
  pub retorna : retorno ≡ some (asignar tamanio donde v c')
  pub mensajes : c'.enviados ≡ c.enviados
  pub termina :
      (c'' : Cpu) × (fin ≡ some c'')
      × (c''.pcb.stack_index ≡ c.pcb.stack_index)
      × (c''.pcb.program_counter ≡ c.pcb.program_counter)
      × (c''.pcb.stack_pointer ≡ c.pcb.stack_pointer + 4 * argumentos ids)
      × (c''.programa_terminado ≡ c.programa_terminado)

-- With pages of more than 0 bytes, from a program that has a context, with an address below 2^32
-- for the result and room on the stack for 4 bytes for each definition: after
-- `twt_llamarConRetorno` all the definitions of the function succeed and send nothing; then
-- `twt_retornar` sends the value to the page and offset of the address, and `twt_finalizar` brings
-- back the contexts and the program counter of before the call and does not end the program, with
-- a stack pointer that is higher than before by 4 for each argument.
pub llamar_con_retorno-IsLlamada :
    (buscar_etiqueta : String → List ℕ → ℕ → ℕ) (vacio : RegistroStack) (tamanio donde : ℕ)
    (etiqueta : String) (v : ℤ) (ids : List ℕ) (c : Cpu) (q : RegistroStack)
    (rs : List RegistroStack)
    → 0 < tamanio
    → donde < 2 ^ 32
    → c.pcb.stack_index ≡ q ∷ rs
    → c.pcb.stack_pointer + 4 * length ids ≤ c.pcb.tamanio_stack * tamanio % 2 ^ 32
    → (c' : Cpu) × (definir_todas vacio tamanio ids
          (llamar_con_retorno buscar_etiqueta tamanio etiqueta donde c)
        ≡ some c')
      × IsLlamada c c' (retornar tamanio v c') (finalizar c') tamanio donde v ids
unfolding llamar_con_retorno ir_al_label
llamar_con_retorno-IsLlamada buscar_etiqueta vacio tamanio donde etiqueta v ids c q rs l d e room =
    let c₁ = llamar_con_retorno buscar_etiqueta tamanio etiqueta donde c in
    let r = registro_de tamanio donde c in
    let (c', run, f) =
      definir_todas-IsEnFuncion ids vacio tamanio c₁ (q ∷ rs) r l (ap (λ t. t ++ (r ∷ [])) e)
        room in
    (
      c',
      run,
      record {
        retorna = retornar_run c' tamanio v (q ∷ rs) f.arriba donde f.pila (
            ap (λ (x : Pagoffsize). (x.page * tamanio + x.offset) % 2 ^ 32) f.a_donde
            ∙ ap (λ a. a % 2 ^ 32) (div_mod donde tamanio l)
            ∙ small_mod donde d);
        mensajes = f.resto.0;
        termina = (
          _,
          finalizar_run c' q rs f.arriba (c.pcb.stack_pointer + 4 * argumentos ids) f.pila (
              ap (λ s. (s + (2 ^ 32 - 4 * length f.arriba.vars % 2 ^ 32)) % 2 ^ 32) f.puntero
              ∙ sp_lem c.pcb.stack_pointer (length f.arriba.vars) (length ids) (argumentos ids)
                  (omega (arith, f.variables)) (omega (arith, room))),
          sym e,
          f.vuelve,
          refl,
          f.resto.2,
        );
      },
    )
