-- ===== src/Heap/Defs.antt =====
-- `buscar_espacio_libre`, `clean_heap` and the part of `liberar` that works on the heap of a page, in
-- Memoria/Memoria.c.
--
-- The memory is its bytes by address. A `heapMetadata` is packed: a `uint32_t`, low byte first, and a
-- `_Bool`, 5 bytes in all. `direccion` is where the frame begins. `none` is fuel that has run out.
use tp_so_2017_twt.Prelude.{
  ℕ, zero, suc, ◌+◌, ◌-◌, ◌*◌, ◌/◌, ◌%◌, Bool, true, false, ◌&&◌, Option, none, some, ltb, leb,
  ◌==◌, if◌then◌else◌,
}

abbrev pub Bytes : Type 0
Bytes = ℕ → ℕ

-- `->size`
unfoldable pub leer_size : Bytes → ℕ → ℕ
leer_size m a = m a + 256 * m (a + 1) + 65536 * m (a + 2) + 16777216 * m (a + 3)

-- `->isFree == true`
unfoldable pub leer_free : Bytes → ℕ → Bool
leer_free m a = m (a + 4) == 1

-- `->size = n`
unfoldable pub poner_size : Bytes → ℕ → ℕ → Bytes
poner_size m a n x =
    if x == a
    then n % 256
    else if x == a + 1
    then n / 256 % 256
    else if x == a + 2
    then n / 65536 % 256
    else if x == a + 3
    then n / 16777216 % 256
    else m x

-- `->isFree = b`
unfoldable pub poner_free : Bytes → ℕ → Bool → Bytes
poner_free m a b x = if x == a + 4 then (if b then 1 else 0) else m x

-- What `buscar_espacio_libre` writes: the header of the block that it gives, and that of the rest
unfoldable pub partir_en : Bytes → ℕ → ℕ → Bytes
unfolding leer_size poner_size poner_free
partir_en m a espacio =
    let aux = leer_size m a - (espacio + 5) in
    let m₁ = poner_size (poner_free m a false) a espacio in
    poner_free (poner_size m₁ (a + 5 + espacio) aux) (a + 5 + espacio) true

-- The loop of `buscar_espacio_libre`; the inner `none` is -1.
unfoldable pub buscar_desde : ℕ → ℕ → ℕ → ℕ → Bytes → ℕ → Option (Option ℕ × Bytes)
unfolding leer_free partir_en
buscar_desde zero marco_size espacio direccion m corrimiento = none
buscar_desde (suc fuel) marco_size espacio direccion m corrimiento =
    let a = direccion + corrimiento in
    let rest = buscar_desde fuel marco_size espacio direccion m (corrimiento + 5 + leer_size m a) in
    if ltb corrimiento marco_size
    then (if leer_free m a && leb (espacio + 5) (leer_size m a)
        then some (some (corrimiento + 5), partir_en m a espacio)
        else rest)
    else some (none, m)

-- `buscar_espacio_libre`
unfoldable pub buscar_espacio_libre : ℕ → ℕ → ℕ → Bytes → Option (Option ℕ × Bytes)
unfolding buscar_desde
buscar_espacio_libre marco_size espacio direccion m =
    buscar_desde (marco_size + 1) marco_size espacio direccion m 0

-- The loop of `clean_heap`
unfoldable pub limpiar_desde : ℕ → ℕ → ℕ → Bytes → ℕ → Option Bytes
unfolding leer_size leer_free poner_size
limpiar_desde zero marco_size direccion m corrimiento = none
limpiar_desde (suc fuel) marco_size direccion m corrimiento =
    let a = direccion + corrimiento in
    let size = leer_size m a in
    let otro = a + (size + 5) in
    let rest = limpiar_desde fuel marco_size direccion m (corrimiento + 5 + size) in
    let merged =
      limpiar_desde fuel marco_size direccion (poner_size m a (size + leer_size m otro + 5))
        corrimiento in
    if ltb corrimiento marco_size
    then (if leer_free m a && ltb (corrimiento + 5 + size) marco_size && leer_free m otro
        then merged
        else rest)
    else some m

-- `clean_heap`
unfoldable pub clean_heap : ℕ → ℕ → Bytes → Option Bytes
unfolding limpiar_desde
clean_heap marco_size direccion m = limpiar_desde (marco_size + 1) marco_size direccion m 0

-- `liberar`, after it has found the frame and before it updates the cache
unfoldable pub liberar : ℕ → ℕ → ℕ → Bytes → Option Bytes
unfolding clean_heap
liberar marco_size direccion puntero m =
    clean_heap marco_size direccion (poner_free m (direccion + puntero - 5) true)
