-- ===== src/Cpu/Defs.antt =====
-- The primitives of CPU/CPU.c on the stack of the program that runs: the control block `nuevaPCB`, the
-- flags, and the messages sent to the memory. `metadata_buscar_etiqueta` is not part of the
-- repository: it is the argument `buscar_etiqueta`. `none` is a NULL that is followed, or fuel that
-- has run out.
use Prim.Native.String.{String}
use tp_so_2017_twt.Prelude.{
  ℕ, zero, suc, ◌+◌, ◌-◌, ◌*◌, ◌/◌, ◌%◌, ◌^◌, Bool, true, ◌&&◌, Option, none, some, List, [], ◌∷◌,
  ◌++◌, ltb, leb, ◌==◌, if◌then◌else◌, length, ◌>>=◌, ℤ, neg,
}
use tp_so_2017_twt.Pcb.Defs.{Variable, RegistroStack, Pcb}

-- A message that asks the memory to store a value
pub record Asignacion : Type 0 where
  pub pid : ℕ
  pub pagina : ℕ
  pub offset : ℕ
  pub valor : ℤ

pub record Cpu : Type 0 where
  pub pcb : Pcb
  pub excepcion_memoria : Bool
  pub programa_terminado : Bool
  pub codigo_error : ℤ
  pub enviados : List Asignacion

-- `isdigit`
abbrev pub isdigit : ℕ → Bool
isdigit c = leb 48 c && leb c 57

-- The loop of `twt_definirVariable` over the pages
unfoldable pub pagina_loop : ℕ → ℕ → ℕ → ℕ → Option (ℕ × ℕ)
pagina_loop zero tamanio_pagina var_pagina var_offset = none
pagina_loop (suc fuel) tamanio_pagina var_pagina var_offset =
    let rest = pagina_loop fuel tamanio_pagina (var_pagina + 1) (var_offset - tamanio_pagina) in
    if ltb tamanio_pagina var_offset then rest else some (var_pagina, var_offset)

-- `list_get` at the last place: NULL for an empty list
unfoldable pub ultimo : List RegistroStack → Option RegistroStack
ultimo [] = none
ultimo (r ∷ []) = some r
ultimo (r ∷ q ∷ rs) = ultimo (q ∷ rs)

-- A write through that pointer
unfoldable pub poner_ultimo : RegistroStack → List RegistroStack → List RegistroStack
poner_ultimo r [] = []
poner_ultimo r (q ∷ []) = r ∷ []
poner_ultimo r (q ∷ q' ∷ rs) = q ∷ poner_ultimo r (q' ∷ rs)

-- `list_remove` at the last place
unfoldable pub sin_ultimo : List RegistroStack → List RegistroStack
sin_ultimo [] = []
sin_ultimo (r ∷ []) = []
sin_ultimo (r ∷ q ∷ rs) = r ∷ sin_ultimo (q ∷ rs)

-- `list_add` of a variable to the arguments or to the variables of a record
unfoldable pub agregar_variable : Variable → RegistroStack → RegistroStack
agregar_variable v r =
    if isdigit v.id
    then record r { args = r.args ++ (v ∷ []) }
    else record r { vars = r.vars ++ (v ∷ []) }

-- The stack with the variable: a stack without records gets one, whose `ret_pos` and `ret_var` are
-- what `malloc` left there.
unfoldable pub con_variable : RegistroStack → Variable → List RegistroStack → List RegistroStack
unfolding ultimo poner_ultimo agregar_variable
con_variable vacio v rs = elim (ultimo rs) [
  | none ↦ rs ++ (agregar_variable v vacio ∷ [])
  | some r ↦ poner_ultimo (agregar_variable v r) rs
]

-- `twt_definirVariable`
unfoldable pub definir_variable : RegistroStack → ℕ → ℕ → Cpu → Option (ℕ × Cpu)
unfolding pagina_loop con_variable
definir_variable vacio tamanio_pagina id c = do
  (var_pagina, var_offset) ←
      pagina_loop (c.pcb.stack_pointer + 1) tamanio_pagina c.pcb.primer_pagina_stack
        c.pcb.stack_pointer
  let new_var : Variable = record { id = id; page = var_pagina; offset = var_offset; size = 4 }
  if ltb (c.pcb.tamanio_stack * tamanio_pagina % 2 ^ 32) (c.pcb.stack_pointer + 4)
      then some (2 ^ 32 - 1, record c { excepcion_memoria = true; codigo_error = neg 20 })
      else some (
        (c.pcb.primer_pagina_stack * tamanio_pagina + c.pcb.stack_pointer) % 2 ^ 32,
        record c {
          pcb = record (c.pcb) {
            stack_index = con_variable vacio new_var c.pcb.stack_index;
            stack_pointer = (c.pcb.stack_pointer + 4) % 2 ^ 32;
          };
        },
      )

-- The loops of `twt_obtenerPosicionVariable`
unfoldable pub buscar_variable : ℕ → ℕ → List Variable → ℕ
buscar_variable tamanio_pagina id [] = 2 ^ 32 - 1
buscar_variable tamanio_pagina id (v ∷ vs) =
    if v.id == id
    then (v.page * tamanio_pagina + v.offset) % 2 ^ 32
    else buscar_variable tamanio_pagina id vs

-- `twt_obtenerPosicionVariable`
unfoldable pub obtener_posicion_variable : ℕ → ℕ → Cpu → Option ℕ
unfolding ultimo buscar_variable
obtener_posicion_variable tamanio_pagina id c = do
  r ← ultimo c.pcb.stack_index
  some (buscar_variable tamanio_pagina id (if isdigit id then r.args else r.vars))

-- `twt_asignar`
unfoldable pub asignar : ℕ → ℕ → ℤ → Cpu → Cpu
asignar tamanio_pagina direccion valor c = record c {
  enviados =
      c.enviados
      ++ (record {
        pid = c.pcb.pid;
        pagina = direccion / tamanio_pagina;
        offset = direccion % tamanio_pagina;
        valor = valor;
      }
          ∷ []);
}

-- `twt_dereferenciar`: `leer` is what the memory answers about a page and an offset, where `none` is an
-- error.
unfoldable pub dereferenciar : (ℕ → ℕ → Option ℤ) → ℕ → ℕ → Cpu → ℤ × Cpu
dereferenciar leer tamanio_pagina direccion c =
    if c.excepcion_memoria
    then (neg 1, c)
    else elim (leer (direccion / tamanio_pagina) (direccion % tamanio_pagina)) [
      | some valor ↦ (valor, c)
      | none ↦ (neg 1, record c { excepcion_memoria = true })
    ]

-- `twt_irAlLabel`
unfoldable pub ir_al_label : (String → List ℕ → ℕ → ℕ) → String → Cpu → Cpu
ir_al_label buscar_etiqueta etiqueta c = record c {
  pcb = record (c.pcb) {
    program_counter =
        buscar_etiqueta etiqueta c.pcb.lista_de_etiquetas c.pcb.lista_de_etiquetas_length;
  };
}

-- `twt_llamarConRetorno`
unfoldable pub llamar_con_retorno : (String → List ℕ → ℕ → ℕ) → ℕ → String → ℕ → Cpu → Cpu
unfolding ir_al_label
llamar_con_retorno buscar_etiqueta tamanio_pagina etiqueta donde_retornar c =
    let nuevo_reg : RegistroStack = record {
      args = [];
      vars = [];
      ret_pos = c.pcb.program_counter;
      ret_var = record {
        page = donde_retornar / tamanio_pagina;
        offset = donde_retornar % tamanio_pagina;
        size = 4;
      };
    } in
    ir_al_label buscar_etiqueta etiqueta
      (record c { pcb = record (c.pcb) { stack_index = c.pcb.stack_index ++ (nuevo_reg ∷ []) } })

-- `twt_finalizar`, with `liberar_registro_stack`
unfoldable pub finalizar : Cpu → Option Cpu
unfolding ultimo sin_ultimo
finalizar c = do
  r ← ultimo c.pcb.stack_index
  let stack = sin_ultimo c.pcb.stack_index
  let sp = (c.pcb.stack_pointer + (2 ^ 32 - 4 * length r.vars % 2 ^ 32)) % 2 ^ 32
  elim stack [
    | [] ↦ some (record c {
      programa_terminado = true;
      pcb = record (c.pcb) { stack_index = []; stack_pointer = sp };
    })
    | q ∷ rs ↦ some (record c {
      pcb = record (c.pcb) {
        stack_index = q ∷ rs;
        stack_pointer = sp;
        program_counter = r.ret_pos;
      };
    })
  ]

-- `twt_retornar`
unfoldable pub retornar : ℕ → ℤ → Cpu → Option Cpu
unfolding ultimo asignar
retornar tamanio_pagina retorno c = do
  r ← ultimo c.pcb.stack_index
  some (
      asignar tamanio_pagina ((r.ret_var.page * tamanio_pagina + r.ret_var.offset) % 2 ^ 32) retorno
        c)
