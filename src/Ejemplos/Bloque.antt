-- ===== src/Ejemplos/Bloque.antt =====
-- A control block with one stack record, sent and received by shared_libs/PCB.h.
use tp_so_2017_twt.Prelude.{◌≡◌, refl, some, [], ◌∷◌, ◌++◌, length, arith}
use tp_so_2017_twt.Pcb.Defs.{RegistroStack, Pcb, pcb_cereal, recibir_pcb, tamanio_total}
use tp_so_2017_twt.Pcb.Ronda.{IsPcb, recibir_pcb-pcb_cereal, length-pcb_cereal}

abbrev registro : RegistroStack
registro = record {
  args = record { id = 97; page = 2; offset = 4; size = 4 } ∷ [];
  vars =
      record { id = 98; page = 2; offset = 8; size = 4 }
      ∷ record { id = 99; page = 2; offset = 300; size = 4 }
      ∷ [];
  ret_pos = 5;
  ret_var = record { page = 2; offset = 0; size = 4 };
}

abbrev un_pcb : Pcb
un_pcb = record {
  pid = 1;
  page_counter = 3;
  direccion_inicio_codigo = 0;
  program_counter = 1;
  cantidad_de_instrucciones = 2;
  indice_de_codigo = record { inicio = 0; offset = 12 } ∷ record { inicio = 12; offset = 7 } ∷ [];
  lista_de_etiquetas = 102 ∷ 0 ∷ 1 ∷ [];
  lista_de_etiquetas_length = 3;
  exit_code = 4294967295;
  estado = 78 ∷ 69 ∷ 87 ∷ [];
  stack_index = registro ∷ [];
  primer_pagina_stack = 2;
  stack_pointer = 12;
  tamanio_stack = 2;
}

un_pcb-IsPcb : IsPcb un_pcb
un_pcb-IsPcb = record {
  pid = omega arith;
  page_counter = omega arith;
  direccion = omega arith;
  program_counter = omega arith;
  cantidad = omega arith;
  indice = refl;
  entradas = ((omega arith, omega arith), ((omega arith, omega arith), tt));
  etiquetas = refl;
  etiquetas_fit = omega arith;
  estado = (omega arith, (omega arith, (omega arith, tt)));
  estado_fits = omega arith;
  exit_code = omega arith;
  primera = omega arith;
  stack_pointer = omega arith;
  tamanio_stack = omega arith;
  registros = (ground arith, tt);
  registros_fit = omega arith;
}

recibir_pcb-pcb_cereal_example :
    recibir_pcb (pcb_cereal un_pcb ++ (42 ∷ [])) ≡ some (un_pcb, 42 ∷ [])
recibir_pcb-pcb_cereal_example = recibir_pcb-pcb_cereal un_pcb (42 ∷ []) un_pcb-IsPcb

length-pcb_cereal_example : length (pcb_cereal un_pcb) ≡ tamanio_total un_pcb
length-pcb_cereal_example = length-pcb_cereal un_pcb refl refl
