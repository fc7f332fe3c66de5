-- ===== src/Memoria/Defs.antt =====
-- The page table and the hash index of Memoria/Memoria.c.
--
-- An `int32_t` PID is kept as its bits, so that comparing it with a `uint32_t` is comparing numbers:
-- a free frame has the PID -2, a frame of the table itself -1. The lists of `commons` are lists.
-- `none` is an access out of bounds, a read of a variable that has no value, or a text of digits
-- that no `int` holds.
use tp_so_2017_twt.Prelude.{
  ℕ, zero, suc, ◌+◌, ◌-◌, ◌*◌, ◌/◌, ◌%◌, ◌^◌, Bool, true, false, ◌&&◌, Option, none, some, List, [],
  ◌∷◌, ◌++◌, ltb, leb, ◌==◌, if◌then◌else◌, get_elem?, set, replicate, count_if, ◌>>=◌, ℤ, pos,
  negsuc, neg,
}

-- `entrada_tabla`
pub record EntradaTabla : Type 0 where
  pub frame : ℕ
  pub pid : ℕ
  pub pagina : ℕ

-- -2 and -1 as 32 bits
abbrev pub libre : ℕ
libre = 2 ^ 32 - 2

abbrev pub de_admin : ℕ
de_admin = 2 ^ 32 - 1

-- `tabla` and `hash_index`; `marcos` of `data_config` is a parameter.
pub record Marcos : Type 0 where
  pub tabla : List EntradaTabla
  pub hash_index : List (List ℕ)

-- The frames that the table takes, of `marco_size` bytes each: 12 is sizeof(entrada_tabla).
unfoldable pub paginas_de_admin : ℕ → ℕ → ℕ
paginas_de_admin marcos marco_size =
    let total = marcos * 12 in
    if ltb 0 (total % marco_size) then total / marco_size + 1 else total / marco_size

-- The frames from `i` on, in `inicializar_tabla`
unfoldable pub entradas_desde : ℕ → ℕ → ℕ → List EntradaTabla
entradas_desde admin i zero = []
entradas_desde admin i (suc n) =
    (if ltb i admin
      then record { frame = i; pid = de_admin; pagina = i }
      else record { frame = i; pid = libre; pagina = libre })
    ∷ entradas_desde admin (i + 1) n

-- `inicializar_tabla` and `inicializar_indice`. `none`: the bytes of the table overflow an `int`, the
-- division is by 0, or the second loop writes past the end of the table.
unfoldable pub inicializar : ℕ → ℕ → Option Marcos
unfolding paginas_de_admin entradas_desde
inicializar marcos marco_size =
    if ltb (marcos * 12) (2 ^ 31)
      && ltb 0 marco_size
      && leb (paginas_de_admin marcos marco_size) marcos
    then some (record {
      tabla = entradas_desde (paginas_de_admin marcos marco_size) 0 marcos;
      hash_index = replicate marcos [];
    })
    else none

-- `marcos_libres`
unfoldable pub marcos_libres : List EntradaTabla → ℕ
marcos_libres t = count_if (λ e. e.pid == libre) t

-- `paginas_de_proceso`; `process_size` counts the same.
unfoldable pub paginas_de_proceso : List EntradaTabla → ℕ → ℕ
paginas_de_proceso t pid = count_if (λ e. e.pid == pid) t

-- 10 to the number of decimal digits of `n`; the fuel is the most digits of an `int`.
unfoldable pub potencia_de_digitos : ℕ → ℕ → ℕ
potencia_de_digitos zero n = 10
potencia_de_digitos (suc fuel) n =
    let rest = potencia_de_digitos fuel (n / 10) * 10 in if ltb n 10 then 10 else rest

-- `calcular_posicion`: the digits of the PID and then those of the page, as one number.
unfoldable pub calcular_posicion : ℕ → ℕ → ℕ → Option ℕ
unfolding potencia_de_digitos
calcular_posicion marcos pid pagina =
    let n = pid * potencia_de_digitos 10 pagina + pagina in
    if ltb n (2 ^ 31) && ltb 0 marcos then some (n % marcos) else none

-- `es_pagina_correcta`
unfoldable pub es_pagina_correcta : List EntradaTabla → ℕ → ℕ → ℕ → Option Bool
es_pagina_correcta t candidata pid pagina = do
  e ← get_elem? t candidata
  some (e.pid == pid && e.pagina == pagina)

-- The loop of `buscar_en_indice` over one list; the inner `none` is -1.
unfoldable pub buscar_en_lista : List EntradaTabla → List ℕ → ℕ → ℕ → Option (Option ℕ)
unfolding es_pagina_correcta
buscar_en_lista t [] pid pagina = some none
buscar_en_lista t (f ∷ fs) pid pagina = do
  correcta ← es_pagina_correcta t f pid pagina
  let rest = buscar_en_lista t fs pid pagina
  if correcta then some (some f) else rest

-- `buscar_en_indice`
unfoldable pub buscar_en_indice : Marcos → ℕ → ℕ → ℕ → Option (Option ℕ)
unfolding buscar_en_lista
buscar_en_indice m indice pid pagina = do
  fs ← get_elem? m.hash_index indice
  buscar_en_lista m.tabla fs pid pagina

-- `agregar_frame_en_indice`
unfoldable pub agregar_frame_en_indice : List (List ℕ) → ℕ → ℕ → Option (List (List ℕ))
agregar_frame_en_indice ix posicion frame = do
  fs ← get_elem? ix posicion
  some (set ix posicion (fs ++ (frame ∷ [])))

-- `list_remove` at the first place of `frame`; `index_frame` has no value if there is none.
unfoldable pub quitar : ℕ → List ℕ → Option (List ℕ)
quitar frame [] = none
quitar frame (f ∷ fs) =
    let rest = (do fs' ← quitar frame fs; some (f ∷ fs')) in if frame == f then some fs else rest

-- `borrar_de_indice`
unfoldable pub borrar_de_indice : List (List ℕ) → ℕ → ℕ → Option (List (List ℕ))
unfolding quitar
borrar_de_indice ix posicion frame = do
  fs ← get_elem? ix posicion
  fs' ← quitar frame fs
  some (set ix posicion fs')

-- A scan for a free frame from `j` on, for `n` rounds at most; the inner `none`: not found.
unfoldable pub libre_desde : List EntradaTabla → ℕ → ℕ → Option (Option ℕ)
libre_desde t j zero = some none
libre_desde t j (suc n) = do
  e ← get_elem? t j
  let rest = libre_desde t (j + 1) n
  if e.pid == libre then some (some j) else rest

-- The two scans of `buscar_espacioV2` and of `asignar_nueva_pagina`. The second one has no bound: at
-- the end of the table it goes on past it.
unfoldable pub buscar_libre : ℕ → List EntradaTabla → ℕ → Option ℕ
unfolding libre_desde
buscar_libre marcos t posicion = do
  r ← libre_desde t posicion (marcos - posicion)
  elim r [ some j ↦ some j | none ↦ do r' ← libre_desde t 0 marcos; r' ]

-- The body of the loop of `buscar_espacioV2`, which `asignar_nueva_pagina` repeats: one page gets a
-- free frame and a place in the index. The frame is returned too.
unfoldable pub ocupar_frame : ℕ → ℕ → ℕ → Marcos → Option (ℕ × Marcos)
unfolding buscar_libre agregar_frame_en_indice
ocupar_frame marcos pid pagina m = do
  posicion ← calcular_posicion marcos pid pagina
  f ← buscar_libre marcos m.tabla posicion
  e ← get_elem? m.tabla f
  ix ← agregar_frame_en_indice m.hash_index posicion f
  some (
    f,
    record { tabla = set m.tabla f (record e { pid = pid; pagina = pagina }); hash_index = ix },
  )

-- The loop of `buscar_espacioV2`, with `n` pages left from page `i` on
unfoldable pub ocupar_paginas : ℕ → ℕ → ℕ → ℕ → Marcos → Option Marcos
ocupar_paginas marcos pid i zero m = some m
ocupar_paginas marcos pid i (suc n) m = do
  (f, m') ← ocupar_frame marcos pid i m
  ocupar_paginas marcos pid (i + 1) n m'

-- `espacio_reservado`
pub record EspacioReservado : Type 0 where
  pub page_counter : ℤ
  pub direccion : ℤ

abbrev pub sin_espacio : EspacioReservado
sin_espacio = record { page_counter = negsuc 0; direccion = negsuc 0 }

-- `frame * marco_size`, where the frame -1 is `none`
abbrev pub direccion_de : Option ℕ → ℕ → ℤ
direccion_de none marco_size = neg marco_size
direccion_de (some f) marco_size = pos (f * marco_size)

-- `buscar_espacioV2`
unfoldable pub buscar_espacio : ℕ → ℕ → ℕ → ℕ → Marcos → Option (EspacioReservado × Marcos)
unfolding marcos_libres buscar_en_indice ocupar_paginas
buscar_espacio marcos marco_size pid paginas m =
    if leb paginas (marcos_libres m.tabla)
    then (do
      m' ← ocupar_paginas marcos pid 0 paginas m
      posicion ← calcular_posicion marcos pid 0
      frame ← buscar_en_indice m' posicion pid 0
      some (record { page_counter = pos paginas; direccion = direccion_de frame marco_size }, m'))
    else some (sin_espacio, m)

-- The part of `asignar_nueva_pagina` that gives the process its page: the number of the page and
-- its frame, or `none` for -1
unfoldable pub asignar_nueva_pagina : ℕ → ℕ → Marcos → Option (Option (ℕ × ℕ) × Marcos)
unfolding marcos_libres paginas_de_proceso
asignar_nueva_pagina marcos pid m =
    if leb 1 (marcos_libres m.tabla)
    then (do
      let numero_de_pagina = paginas_de_proceso m.tabla pid
      (f, m') ← ocupar_frame marcos pid numero_de_pagina m
      some (some (numero_de_pagina, f), m'))
    else some (none, m)

abbrev pub liberada : EntradaTabla → EntradaTabla
liberada e = record e { pid = libre; pagina = libre }

-- The loop of `finalizar_proceso`, with `n` frames left from frame `i` on
unfoldable pub finalizar_desde : ℕ → ℕ → ℕ → ℕ → Marcos → Option Marcos
unfolding borrar_de_indice
finalizar_desde marcos pid i zero m = some m
finalizar_desde marcos pid i (suc n) m = do
  e ← get_elem? m.tabla i
  m' ← elim (e.pid == pid) [
    | true ↦ do
      posicion ← calcular_posicion marcos e.pid e.pagina
      ix ← borrar_de_indice m.hash_index posicion e.frame
      some (record { tabla = set m.tabla i (liberada e); hash_index = ix })
    | false ↦ some m
  ]
  finalizar_desde marcos pid (i + 1) n m'

-- `finalizar_proceso`, without `flush_process`
unfoldable pub finalizar_proceso : ℕ → ℕ → Marcos → Option Marcos
unfolding finalizar_desde
finalizar_proceso marcos pid m = finalizar_desde marcos pid 0 marcos m

-- `liberar_pagina`, without its part on the cache
unfoldable pub liberar_pagina : ℕ → ℕ → ℕ → Marcos → Option Marcos
unfolding buscar_en_indice borrar_de_indice
liberar_pagina marcos pid pagina m = do
  posicion ← calcular_posicion marcos pid pagina
  r ← buscar_en_indice m posicion pid pagina
  f ← r
  e ← get_elem? m.tabla f
  ix ← borrar_de_indice m.hash_index posicion e.frame
  some (record { tabla = set m.tabla f (liberada e); hash_index = ix })
