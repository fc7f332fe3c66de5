-- ===== src/Pcb/Defs.antt =====
-- The structures of shared_libs/PCB.h, and their second serialisation (`PCB_cerealV2`,
-- `send_PCBV2`, `recibirPCBV2`).
use tp_so_2017_twt.Prelude.{
  ℕ, ◌+◌, ◌*◌, ◌/◌, ◌^◌, List, [], ◌∷◌, ◌++◌, length, ltb, ◌==◌, if◌then◌else◌, take,
}
use tp_so_2017_twt.Pcb.Stream.{
  Reader, ◌>>=◌, pure, put_u32, recv_u32, recv_char, recv_bytes, recv_list, put_list,
}

-- `entrada_indice_de_codigo`
pub record EntradaIndice : Type 0 where
  pub inicio : ℕ
  pub offset : ℕ

-- `pagoffsize`
pub record Pagoffsize : Type 0 where
  pub page : ℕ
  pub offset : ℕ
  pub size : ℕ

-- `variable`
pub record Variable : Type 0 where
  pub id : ℕ
  pub page : ℕ
  pub offset : ℕ
  pub size : ℕ

-- `registroStack`
pub record RegistroStack : Type 0 where
  pub args : List Variable
  pub vars : List Variable
  pub ret_pos : ℕ
  pub ret_var : Pagoffsize

-- `PCB`. `estado` is the text before its final zero byte; `exit_code` is an `int32_t` as its bits.
pub record Pcb : Type 0 where
  pub pid : ℕ
  pub page_counter : ℕ
  pub direccion_inicio_codigo : ℕ
  pub program_counter : ℕ
  pub cantidad_de_instrucciones : ℕ
  pub indice_de_codigo : List EntradaIndice
  pub lista_de_etiquetas : List ℕ
  pub lista_de_etiquetas_length : ℕ
  pub exit_code : ℕ
  pub estado : List ℕ
  pub stack_index : List RegistroStack
  pub primer_pagina_stack : ℕ
  pub stack_pointer : ℕ
  pub tamanio_stack : ℕ

-- `serializarVariablesV2`
unfoldable pub serializar_variable : Variable → List ℕ
serializar_variable v = v.id ∷ (put_u32 v.offset ++ (put_u32 v.page ++ put_u32 v.size))

-- `serializarElestacV2`
unfoldable pub serializar_registro : RegistroStack → List ℕ
unfolding serializar_variable
serializar_registro r =
    put_u32 (length r.args)
    ++ (put_list serializar_variable r.args
        ++ (put_u32 (length r.vars)
            ++ (put_list serializar_variable r.vars
                ++ (put_u32 r.ret_pos
                    ++ (put_u32 r.ret_var.offset
                        ++ (put_u32 r.ret_var.page ++ put_u32 r.ret_var.size))))))

unfoldable pub put_entrada : EntradaIndice → List ℕ
put_entrada e = put_u32 e.inicio ++ put_u32 e.offset

-- `sumar_tamanio_registroV2`, for one record: 13 is sizeof(variable), 12 sizeof(pagoffsize).
abbrev pub tamanio_registro : RegistroStack → ℕ
tamanio_registro r = 13 * length r.args + 13 * length r.vars + (12 + 4) + 4 * 2

-- `list_iterate(pcb->stack_index, sumar_tamanio_registroV2)` from `tamanio_stack = 0`
abbrev pub tamanio_registros : List RegistroStack → ℕ
tamanio_registros [] = 0
tamanio_registros (r ∷ rs) = tamanio_registro r + tamanio_registros rs

-- The size that `PCB_cerealV2` asks of `malloc`, and that `send_PCBV2` sends after the code
abbrev pub tamanio_total : Pcb → ℕ
tamanio_total p =
    4 * 9
    + 4
    + 4
    + p.cantidad_de_instrucciones * 8
    + p.lista_de_etiquetas_length
    + 4
    + (length p.estado + 1)
    + 4
    + tamanio_registros p.stack_index

-- `PCB_cerealV2` with FULLPCB
unfoldable pub pcb_cereal : Pcb → List ℕ
unfolding serializar_registro put_entrada
pcb_cereal p =
    put_u32 p.pid
    ++ (put_u32 p.page_counter
        ++ (put_u32 p.direccion_inicio_codigo
            ++ (put_u32 p.program_counter
                ++ (put_u32 p.cantidad_de_instrucciones
                    ++ (put_u32 (p.cantidad_de_instrucciones * 8)
                        ++ (take (p.cantidad_de_instrucciones * 8)
                              (put_list put_entrada p.indice_de_codigo)
                            ++ (put_u32 p.lista_de_etiquetas_length
                                ++ (take p.lista_de_etiquetas_length p.lista_de_etiquetas
                                    ++ (put_u32 (length p.estado + 1)
                                        ++ ((p.estado ++ (0 ∷ []))
                                            ++ (put_u32 p.exit_code
                                                ++ (put_u32 p.primer_pagina_stack
                                                    ++ (put_u32 p.stack_pointer
                                                        ++ (put_u32 p.tamanio_stack
                                                            ++ (put_u32 (length p.stack_index)
                                                            ++ put_list serializar_registro
                                                            p.stack_index)))))))))))))))

-- `send_PCBV2`
unfoldable pub send_pcb : Pcb → ℕ → List ℕ
unfolding pcb_cereal
send_pcb p codigo = put_u32 codigo ++ pcb_cereal p

-- A `uint32_t` count that is received into an `int` and must be greater than 0 for its loop
abbrev pub rounds : ℕ → ℕ
rounds n = if ltb n (2 ^ 31) then n else 0

-- The text of a buffer: its bytes before the first zero
unfoldable pub c_string : List ℕ → List ℕ
c_string [] = []
c_string (c ∷ cs) = let rest = c_string cs in if c == 0 then [] else c ∷ rest

unfoldable pub recv_variable : Reader Variable
recv_variable = do
  id ← recv_char
  offset ← recv_u32
  page ← recv_u32
  size ← recv_u32
  pure (record { id = id; page = page; offset = offset; size = size })

unfoldable pub recv_registro : Reader RegistroStack
unfolding recv_variable
recv_registro = do
  cant_argumentos ← recv_u32
  args ← recv_list recv_variable (rounds cant_argumentos)
  cant_variables ← recv_u32
  vars ← recv_list recv_variable (rounds cant_variables)
  ret_pos ← recv_u32
  offset ← recv_u32
  page ← recv_u32
  size ← recv_u32
  pure (record {
    args = args;
    vars = vars;
    ret_pos = ret_pos;
    ret_var = record { page = page; offset = offset; size = size };
  })

unfoldable pub recv_entrada : Reader EntradaIndice
recv_entrada = do
  inicio ← recv_u32
  offset ← recv_u32
  pure (record { inicio = inicio; offset = offset })

-- The control block that `recibirPCBV2` fills; the function ends without returning it. The array of entries that is received as `tamanio` bytes has `tamanio / 8` of them.
unfoldable pub recibir_pcb : Reader Pcb
unfolding recv_registro recv_entrada c_string
recibir_pcb = do
  pid ← recv_u32
  page_counter ← recv_u32
  direccion ← recv_u32
  program_counter ← recv_u32
  cantidad ← recv_u32
  tamanio ← recv_u32
  indice ← recv_list recv_entrada (tamanio / 8)
  tamanio_etiquetas ← recv_u32
  etiquetas ← recv_bytes tamanio_etiquetas
  tamanio_estado ← recv_u32
  estado ← recv_bytes tamanio_estado
  exit_code ← recv_u32
  primera ← recv_u32
  stack_pointer ← recv_u32
  stack_size ← recv_u32
  cant_registros ← recv_u32
  registros ← recv_list recv_registro cant_registros
  pure (record {
    pid = pid;
    page_counter = page_counter;
    direccion_inicio_codigo = direccion;
    program_counter = program_counter;
    cantidad_de_instrucciones = cantidad;
    indice_de_codigo = indice;
    lista_de_etiquetas = etiquetas;
    lista_de_etiquetas_length = tamanio_etiquetas;
    exit_code = exit_code;
    estado = c_string estado;
    stack_index = registros;
    primer_pagina_stack = primera;
    stack_pointer = stack_pointer;
    tamanio_stack = stack_size;
  })
