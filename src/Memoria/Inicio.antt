-- ===== src/Memoria/Inicio.antt =====
-- `inicializar_tabla`, `inicializar_indice` and `asignar_nueva_pagina` of Memoria/Memoria.c.
use tp_so_2017_twt.Prelude.{
  ℕ, zero, suc, ◌+◌, ◌-◌, ◌*◌, ◌/◌, ◌%◌, ◌^◌, ◌≤◌, ◌<◌, ◌≡◌, refl, ap, none, some, List, [], arith,
  ltb, if◌then◌else◌, length, get_elem?, replicate, inl, inr, ◌⊎◌, dec_lt, length-replicate,
}
use tp_so_2017_twt.Memoria.Defs.{
  EntradaTabla, libre, de_admin, Marcos, paginas_de_admin, entradas_desde, inicializar,
  marcos_libres, paginas_de_proceso, calcular_posicion, asignar_nueva_pagina,
}
use tp_so_2017_twt.Memoria.Indice.{cuenta, esperada, esperada-libre, IsCoherent}
use tp_so_2017_twt.Memoria.Marcos.{IsPid, IsOcupado, ocupar_frame-IsOcupado}

get_elem?-replicate : (n i : ℕ) (fs : List ℕ) → get_elem? (replicate n []) i ≡ some fs → fs ≡ []
get_elem?-replicate zero i fs e = ground arith
get_elem?-replicate (suc n) zero fs e = ground arith
get_elem?-replicate (suc n) (suc i) fs e = get_elem?-replicate n i fs e

length-entradas_desde : (admin i n : ℕ) → length (entradas_desde admin i n) ≡ n
unfolding entradas_desde
length-entradas_desde admin i zero = refl
length-entradas_desde admin i (suc n) = ap suc (length-entradas_desde admin (i + 1) n)

entradas_desde_lem :
    (admin i n k : ℕ) (e : EntradaTabla)
    → get_elem? (entradas_desde admin i n) k ≡ some e
    → (e.frame ≡ i + k) × (e.pid ≡ (if ltb (i + k) admin then de_admin else libre))
unfolding entradas_desde
entradas_desde_lem admin i zero k e at = absurd (ground arith)
entradas_desde_lem admin i (suc n) zero e at = ground arith
entradas_desde_lem admin i (suc n) (suc k) e at =
    ground (arith, entradas_desde_lem admin (i + 1) n k e at)

libres-entradas_desde : (admin i n : ℕ) → marcos_libres (entradas_desde admin i n) ≡ n - (admin - i)
unfolding entradas_desde marcos_libres
libres-entradas_desde admin i zero = omega arith
libres-entradas_desde admin i (suc n) = ground (arith, libres-entradas_desde admin (i + 1) n)

esperada-de_admin :
    (marcos : ℕ) (e : EntradaTabla) (k : ℕ) → e.pid ≡ de_admin → esperada marcos e k ≡ 0
unfolding esperada
esperada-de_admin marcos e k own = ground arith

quotient_and_rest : (n s : ℕ) → 0 < s → (n / s * s + n % s ≡ n) × (n % s < s)
quotient_and_rest n s h = (grind arith, grind arith)

-- One frame more where the division leaves a rest
rounded_up :
    (n s : ℕ)
    → 0 < s
    → (n ≤ (if ltb 0 (n % s) then n / s + 1 else n / s) * s)
      × ((if ltb 0 (n % s) then n / s + 1 else n / s) * s < n + s)
rounded_up n s h =
    let (whole, rest) = quotient_and_rest n s h in
    let more : (n / s + 1) * s ≡ n / s * s + s = grind arith in (ground arith, ground arith)

-- For frames of more than 0 bytes, the frames that `inicializar_tabla` keeps for the table hold
-- its entries of 12 bytes each, and would not with one frame less.
pub paginas_de_admin-fit :
    (marcos marco_size : ℕ)
    → 0 < marco_size
    → (marcos * 12 ≤ paginas_de_admin marcos marco_size * marco_size)
      × (paginas_de_admin marcos marco_size * marco_size < marcos * 12 + marco_size)
unfolding paginas_de_admin
paginas_de_admin-fit marcos marco_size pos_s = rounded_up (marcos * 12) marco_size pos_s

-- The table and the index at the start
abbrev pub marcos_iniciales : ℕ → ℕ → Marcos
marcos_iniciales marcos marco_size = record {
  tabla = entradas_desde (paginas_de_admin marcos marco_size) 0 marcos;
  hash_index = replicate marcos [];
}

pub marcos_iniciales-IsCoherent :
    (marcos marco_size : ℕ)
    → IsCoherent marcos (marcos_iniciales marcos marco_size)
      × (marcos_libres (marcos_iniciales marcos marco_size).tabla
          ≡ marcos - paginas_de_admin marcos marco_size)
unfolding cuenta
marcos_iniciales-IsCoherent marcos marco_size = (
  record {
    frames = length-entradas_desde (paginas_de_admin marcos marco_size) 0 marcos;
    listas = length-replicate marcos [];
    numbered = λ i e at.
        ground (arith, entradas_desde_lem (paginas_de_admin marcos marco_size) 0 marcos i e at);
    placed = λ i e at proc.
        absurd
          (ground (arith, entradas_desde_lem (paginas_de_admin marcos marco_size) 0 marcos i e at));
    indexed = λ i e h fs at list_at. rw (get_elem?-replicate marcos h fs list_at) (
        ground (
          arith,
          entradas_desde_lem (paginas_de_admin marcos marco_size) 0 marcos i e at,
          esperada-de_admin marcos e h,
          esperada-libre marcos e h,
        ));
    known = λ i h fs le list_at. rw (get_elem?-replicate marcos h fs list_at) refl;
  },
  ground (arith, libres-entradas_desde (paginas_de_admin marcos marco_size) 0 marcos),
)

-- If the frames have more than 0 bytes, the table has less than 2^31 bytes and the frames that it
-- takes itself are no more than there are, then `inicializar_tabla` and `inicializar_indice` write
-- inside their bounds and leave a coherent table and index, where the frames that the table does
-- not take itself are free.
pub inicializar-IsCoherent :
    (marcos marco_size : ℕ)
    → marcos * 12 < 2 ^ 31
    → 0 < marco_size
    → paginas_de_admin marcos marco_size ≤ marcos
    → (m : Marcos) × (inicializar marcos marco_size ≡ some m)
      × IsCoherent marcos m
      × (marcos_libres m.tabla ≡ marcos - paginas_de_admin marcos marco_size)
unfolding inicializar
inicializar-IsCoherent marcos marco_size small some_byte room =
    let (coherent, libres) = marcos_iniciales-IsCoherent marcos marco_size in
    (marcos_iniciales marcos marco_size, ground (arith, small, some_byte, room), coherent, libres)

module _ (marcos pid : ℕ) (p : IsPid pid) where
  -- In a coherent table, for a PID that is neither -2 nor -1 whose next page has a position in the
  -- index, `asignar_nueva_pagina` either gives the process a page in a frame that was free,
  -- numbered by the count of pages it had, and keeps the table and the index coherent and every
  -- other entry as it was; or no frame is free, and it answers -1 and changes nothing.
  pub asignar_nueva_pagina-IsOcupado :
      (m : Marcos) (h : ℕ)
      → IsCoherent marcos m
      → calcular_posicion marcos pid (paginas_de_proceso m.tabla pid) ≡ some h
      → ((f : ℕ) × (m' : Marcos) × (asignar_nueva_pagina marcos pid m
            ≡ some (some (paginas_de_proceso m.tabla pid, f), m'))
          × IsOcupado marcos pid (paginas_de_proceso m.tabla pid) m m' f)
        ⊎ ((marcos_libres m.tabla ≡ 0) × (asignar_nueva_pagina marcos pid m ≡ some (none, m)))
  unfolding asignar_nueva_pagina
  asignar_nueva_pagina-IsOcupado m h v place = elim (dec_lt 0 (marcos_libres m.tabla)) [
    | yes lt ↦
        let (f, m', run, o) = ocupar_frame-IsOcupado marcos pid _ h m v p place lt in
        inl (f, m', ground (arith, run), o)
    | no ge ↦ inr (omega arith, ground arith)
  ]
