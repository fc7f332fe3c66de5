-- ===== src/Ejemplos/Pila.antt =====
-- A program of CPU/CPU.c with one context, a definition and a call.
use native.Mathlib.Omega.{arith}
use tp_so_2017_twt.Prelude.{ℕ, ◌+◌, ◌≡◌, ◌≢◌, refl, false, some, [], ◌∷◌, pos}
use tp_so_2017_twt.Pcb.Defs.{RegistroStack}
use tp_so_2017_twt.Cpu.Defs.{
  Cpu, definir_variable, obtener_posicion_variable, llamar_con_retorno, retornar, finalizar,
}
use tp_so_2017_twt.Cpu.Pila.{hay_variable}
use tp_so_2017_twt.Cpu.Contexto.{definir_variable-obtener_posicion_variable}
use tp_so_2017_twt.Cpu.Llamada.{definir_todas, IsLlamada, llamar_con_retorno-IsLlamada}

abbrev contexto : RegistroStack
contexto = record {
  args = [];
  vars = [];
  ret_pos = 0;
  ret_var = record { page = 0; offset = 0; size = 0 };
}

abbrev programa : Cpu
programa = record {
  pcb = record {
    pid = 1;
    page_counter = 4;
    direccion_inicio_codigo = 0;
    program_counter = 7;
    cantidad_de_instrucciones = 20;
    indice_de_codigo = [];
    lista_de_etiquetas = [];
    lista_de_etiquetas_length = 0;
    exit_code = 0;
    estado = [];
    stack_index = contexto ∷ [];
    primer_pagina_stack = 2;
    stack_pointer = 30;
    tamanio_stack = 2;
  };
  excepcion_memoria = false;
  programa_terminado = false;
  codigo_error = pos 0;
  enviados = [];
}

sin_variables : hay_variable 97 [] ≡ false
unfolding hay_variable
sin_variables = refl

-- The variable `a`, in pages of 32 bytes
definir_variable-obtener_posicion_variable_example :
    (posicion : ℕ) × (c' : Cpu) × (definir_variable contexto 32 97 programa ≡ some (posicion, c'))
    × (obtener_posicion_variable 32 97 c' ≡ some posicion)
    × ((j : ℕ)
        → j ≢ 97
        → obtener_posicion_variable 32 j c' ≡ obtener_posicion_variable 32 j programa)
    × (c'.pcb.stack_pointer ≡ 30 + 4)
definir_variable-obtener_posicion_variable_example =
    definir_variable-obtener_posicion_variable contexto 32 97 programa [] contexto (omega arith)
      refl (omega arith) sin_variables

-- A call with the argument `0` and the variable `a`, from instruction 7 to instruction 12
llamar_con_retorno-IsLlamada_example :
    (c' : Cpu) × (definir_todas contexto 32
        (48 ∷ 97 ∷ [])
        (llamar_con_retorno (λ etiqueta etiquetas n. 12) 32 "doble" 94 programa)
      ≡ some c')
    × IsLlamada programa c' (retornar 32 (pos 5) c') (finalizar c') 32 94 (pos 5) (48 ∷ 97 ∷ [])
llamar_con_retorno-IsLlamada_example =
    llamar_con_retorno-IsLlamada (λ etiqueta etiquetas n. 12) contexto 32 94 "doble" (pos 5)
      (48 ∷ 97 ∷ []) programa contexto [] (omega arith) (omega arith) refl (omega arith)
