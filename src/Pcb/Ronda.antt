-- ===== src/Pcb/Ronda.antt =====
-- A control block of shared_libs/PCB.h sent by one process and received by another.
use tp_so_2017_twt.Prelude.{
  ℕ, zero, suc, ◌+◌, ◌*◌, ◌/◌, ◌^◌, ◌<◌, ◌≡◌, refl, ap, ◌∙◌, some, List, [], ◌∷◌, ◌++◌, arith,
  append_assoc, length, length-append, take, All,
}
use tp_so_2017_twt.Pcb.Stream.{
  ◌>>=◌, put_u32, recv_char, recv_bytes, recv_list, put_list, length-put_u32, recv_u32-put_u32,
  recv_bytes-append, recv_list-put_list,
}
use tp_so_2017_twt.Pcb.Defs.{
  EntradaIndice, Variable, RegistroStack, Pcb, serializar_variable, serializar_registro,
  put_entrada, tamanio_registro, tamanio_registros, tamanio_total, pcb_cereal, rounds, c_string,
  recv_variable, recv_registro, recv_entrada, recibir_pcb,
}

-- Values that a `uint32_t` holds
abbrev pub IsVariable : Variable → Type 0
IsVariable v = (v.page < 2 ^ 32) × (v.offset < 2 ^ 32) × (v.size < 2 ^ 32)

abbrev pub IsEntrada : EntradaIndice → Type 0
IsEntrada e = (e.inicio < 2 ^ 32) × (e.offset < 2 ^ 32)

-- The counts of a record are received into an `int`.
abbrev pub IsRegistro : RegistroStack → Type 0
IsRegistro r =
    (length r.args < 2 ^ 31)
    × All IsVariable r.args
    × (length r.vars < 2 ^ 31)
    × All IsVariable r.vars
    × (r.ret_pos < 2 ^ 32)
    × (r.ret_var.page < 2 ^ 32)
    × (r.ret_var.offset < 2 ^ 32)
    × (r.ret_var.size < 2 ^ 32)

-- A control block whose counts are those of its lists, and whose numbers fit their fields
pub record IsPcb (p : Pcb) : Type 0 where
  pub pid : p.pid < 2 ^ 32
  pub page_counter : p.page_counter < 2 ^ 32
  pub direccion : p.direccion_inicio_codigo < 2 ^ 32
  pub program_counter : p.program_counter < 2 ^ 32
  pub cantidad : p.cantidad_de_instrucciones * 8 < 2 ^ 32
  pub indice : length p.indice_de_codigo ≡ p.cantidad_de_instrucciones
  pub entradas : All IsEntrada p.indice_de_codigo
  pub etiquetas : length p.lista_de_etiquetas ≡ p.lista_de_etiquetas_length
  pub etiquetas_fit : p.lista_de_etiquetas_length < 2 ^ 32
  pub estado : All (λ c. 0 < c) p.estado
  pub estado_fits : length p.estado + 1 < 2 ^ 32
  pub exit_code : p.exit_code < 2 ^ 32
  pub primera : p.primer_pagina_stack < 2 ^ 32
  pub stack_pointer : p.stack_pointer < 2 ^ 32
  pub tamanio_stack : p.tamanio_stack < 2 ^ 32
  pub registros : All IsRegistro p.stack_index
  pub registros_fit : length p.stack_index < 2 ^ 32

recv_variable_lem :
    (v : Variable) (rest : List ℕ)
    → IsVariable v
    → recv_variable (serializar_variable v ++ rest) ≡ some (v, rest)
unfolding recv_variable serializar_variable recv_char
recv_variable_lem v rest h = rw (
  append_assoc (put_u32 v.offset) (put_u32 v.page ++ put_u32 v.size) rest,
  append_assoc (put_u32 v.page) (put_u32 v.size) rest,
  recv_u32-put_u32 v.offset _ h.1,
  ◌>>=◌,
  recv_u32-put_u32 v.page _ h.0,
  recv_u32-put_u32 v.size _ h.2,
)

recv_entrada_lem :
    (e : EntradaIndice) (rest : List ℕ)
    → IsEntrada e
    → recv_entrada (put_entrada e ++ rest) ≡ some (e, rest)
unfolding recv_entrada put_entrada
recv_entrada_lem e rest h = rw (
  append_assoc (put_u32 e.inicio) (put_u32 e.offset) rest,
  recv_u32-put_u32 e.inicio _ h.0,
  ◌>>=◌,
  recv_u32-put_u32 e.offset _ h.1,
)

rounds_lem : (n : ℕ) → n < 2 ^ 31 → rounds n ≡ n
rounds_lem n h = ground arith

recv_variables_lem :
    (vs : List Variable) (rest : List ℕ)
    → length vs < 2 ^ 31
    → All IsVariable vs
    → recv_list recv_variable (rounds (length vs)) (put_list serializar_variable vs ++ rest)
      ≡ some (vs, rest)
recv_variables_lem vs rest h a =
    rw (rounds_lem (length vs) h)
      (recv_list-put_list recv_variable serializar_variable IsVariable recv_variable_lem vs rest a)

widen : (n : ℕ) → n < 2 ^ 31 → n < 2 ^ 32
widen n h = omega arith

recv_registro_lem :
    (r : RegistroStack) (rest : List ℕ)
    → IsRegistro r
    → recv_registro (serializar_registro r ++ rest) ≡ some (r, rest)
unfolding recv_registro serializar_registro
recv_registro_lem r rest h = simp append_assoc (
    rw (
      recv_u32-put_u32 (length r.args) _ (widen _ h.0),
      ◌>>=◌,
      recv_variables_lem r.args _ h.0 h.1,
      recv_u32-put_u32 (length r.vars) _ (widen _ h.2),
      recv_variables_lem r.vars _ h.2 h.3,
      recv_u32-put_u32 r.ret_pos _ h.4,
      recv_u32-put_u32 r.ret_var.offset _ h.6,
      recv_u32-put_u32 r.ret_var.page _ h.5,
      recv_u32-put_u32 r.ret_var.size _ h.7,
    ))

take_all : {A : Type 0} (n : ℕ) (xs : List A) → length xs ≡ n → take n xs ≡ xs
take_all zero [] e = refl
take_all zero (x ∷ xs) e = absurd (omega arith)
take_all (suc n) [] e = absurd (omega arith)
take_all (suc n) (x ∷ xs) e = ap (λ t. x ∷ t) (take_all n xs (omega arith))

length-put_entradas : (es : List EntradaIndice) → length (put_list put_entrada es) ≡ length es * 8
unfolding put_list put_entrada put_u32
length-put_entradas [] = refl
length-put_entradas (e ∷ es) = omega (arith, length-put_entradas es)

c_string_lem : (cs : List ℕ) → All (λ c. 0 < c) cs → c_string (cs ++ (0 ∷ [])) ≡ cs
unfolding c_string
c_string_lem [] h = refl
c_string_lem (c ∷ cs) h = ground (arith, c_string_lem cs h.1)

recv_estado :
    (cs rest : List ℕ) → recv_bytes (length cs + 1) (cs ++ (0 ∷ rest)) ≡ some (cs ++ (0 ∷ []), rest)
recv_estado cs rest =
    rw (← length-append cs (0 ∷ []), ← append_assoc cs (0 ∷ []) rest)
      (recv_bytes-append (cs ++ (0 ∷ [])) rest)

recv_bytes_of :
    (n : ℕ) (xs rest : List ℕ) → length xs ≡ n → recv_bytes n (xs ++ rest) ≡ some (xs, rest)
recv_bytes_of n xs rest e = rw (← e) (recv_bytes-append xs rest)

recv_entradas_lem :
    (n : ℕ) (es : List EntradaIndice) (rest : List ℕ)
    → length es ≡ n
    → All IsEntrada es
    → recv_list recv_entrada (n * 8 / 8) (put_list put_entrada es ++ rest) ≡ some (es, rest)
recv_entradas_lem n es rest e a =
    let same : n * 8 / 8 ≡ length es = omega arith in
    rw same (recv_list-put_list recv_entrada put_entrada IsEntrada recv_entrada_lem es rest a)

-- For a control block whose counts are those of its lists, whose numbers fit their fields and
-- whose state text has no zero byte, `recibirPCBV2` fills the same control block out of the bytes
-- of `PCB_cerealV2`, and leaves what comes after them on the socket.
pub recibir_pcb-pcb_cereal :
    (p : Pcb) (rest : List ℕ) → IsPcb p → recibir_pcb (pcb_cereal p ++ rest) ≡ some (p, rest)
unfolding recibir_pcb pcb_cereal
recibir_pcb-pcb_cereal p rest h =
    rw
      (
        take_all (p.cantidad_de_instrucciones * 8) (put_list put_entrada p.indice_de_codigo)
            (length-put_entradas p.indice_de_codigo ∙ ap (λ n. n * 8) h.indice),
        take_all p.lista_de_etiquetas_length p.lista_de_etiquetas h.etiquetas,
      )
      (simp append_assoc (
        rw (
          recv_u32-put_u32 p.pid _ h.pid,
          ◌>>=◌,
          recv_u32-put_u32 p.page_counter _ h.page_counter,
          recv_u32-put_u32 p.direccion_inicio_codigo _ h.direccion,
          recv_u32-put_u32 p.program_counter _ h.program_counter,
          recv_u32-put_u32 p.cantidad_de_instrucciones _ (omega arith),
          recv_u32-put_u32 (p.cantidad_de_instrucciones * 8) _ h.cantidad,
          recv_entradas_lem p.cantidad_de_instrucciones p.indice_de_codigo _ h.indice h.entradas,
          recv_u32-put_u32 p.lista_de_etiquetas_length _ h.etiquetas_fit,
          recv_bytes_of p.lista_de_etiquetas_length p.lista_de_etiquetas _ h.etiquetas,
          recv_u32-put_u32 (length p.estado + 1) _ h.estado_fits,
          recv_estado p.estado _,
          recv_u32-put_u32 p.exit_code _ h.exit_code,
          recv_u32-put_u32 p.primer_pagina_stack _ h.primera,
          recv_u32-put_u32 p.stack_pointer _ h.stack_pointer,
          recv_u32-put_u32 p.tamanio_stack _ h.tamanio_stack,
          recv_u32-put_u32 (length p.stack_index) _ h.registros_fit,
          recv_list-put_list recv_registro serializar_registro IsRegistro recv_registro_lem
              p.stack_index rest h.registros,
          c_string_lem p.estado h.estado,
        )))

length-put_variables :
    (vs : List Variable) → length (put_list serializar_variable vs) ≡ 13 * length vs
unfolding put_list serializar_variable put_u32
length-put_variables [] = omega arith
length-put_variables (v ∷ vs) = omega (arith, length-put_variables vs)

length-serializar_registro :
    (r : RegistroStack) → length (serializar_registro r) ≡ tamanio_registro r
unfolding serializar_registro
length-serializar_registro r =
    simp (length-append, length-put_u32, length-put_variables) (omega arith)

length-put_registros :
    (rs : List RegistroStack) → length (put_list serializar_registro rs) ≡ tamanio_registros rs
unfolding put_list
length-put_registros [] = refl
length-put_registros (r ∷ rs) =
    simp (length-append, length-serializar_registro r, length-put_registros rs) (omega arith)

-- For a control block whose counts are those of its lists, `PCB_cerealV2` writes exactly as many
-- bytes as it allocates and as `send_PCBV2` sends.
pub length-pcb_cereal :
    (p : Pcb)
    → length p.indice_de_codigo ≡ p.cantidad_de_instrucciones
    → length p.lista_de_etiquetas ≡ p.lista_de_etiquetas_length
    → length (pcb_cereal p) ≡ tamanio_total p
unfolding pcb_cereal
length-pcb_cereal p hi he =
    rw
      (
        take_all (p.cantidad_de_instrucciones * 8) (put_list put_entrada p.indice_de_codigo)
            (length-put_entradas p.indice_de_codigo ∙ ap (λ n. n * 8) hi),
        take_all p.lista_de_etiquetas_length p.lista_de_etiquetas he,
      )
      (simp (length-append, length-put_u32, length-put_entradas, length-put_registros)
        (omega arith))
