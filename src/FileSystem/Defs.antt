-- ===== src/FileSystem/Defs.antt =====
-- The functions of FileSystem/fs.h over the state of the server. `none` of an operation is an access
-- out of bounds, which the code makes without a check, or an `int32_t` that would leave its range.
use Prim.Native.String.{String}
use tp_so_2017_twt.Prelude.{
  ℕ, zero, suc, ◌+◌, ◌-◌, ◌^◌, max, Bool, ◌&&◌, Option, none, some, List, [], ◌∷◌, ltb,
  if◌then◌else◌, length, ◌>>=◌, ℤ, pos, neg, ltb_ℤ, is_neg, pos_part,
}
use tp_so_2017_twt.FileSystem.Bloques.{Bloque, int32, blocks_to_process}
use tp_so_2017_twt.FileSystem.Datos.{
  BitArray, Archivo, sin_formato, con_formato, poner, leer_bloques, escribir_bloques, ultimo_id,
  agregar_bloque, Estado,
}

module _ (B : BitArray) where
  open B use {Bits, max_bit, test_bit, set_bit, clean_bit}

  -- `for (i = 0; i < bitarray_get_max_bit(miBit); i++)`, with `n` rounds left at `i`
  unfoldable pub primer_libre_loop : Bits → ℕ → ℕ → Option ℕ
  primer_libre_loop b zero i = none
  primer_libre_loop b (suc n) i =
      let rest = primer_libre_loop b n (i + 1) in if test_bit b i then rest else some i

  -- `primer_bloque_libre`; `none` is -1
  unfoldable pub primer_bloque_libre : Bits → Option ℕ
  unfolding primer_libre_loop
  primer_bloque_libre b = primer_libre_loop b (max_bit b) 0

  unfoldable pub libres_loop : Bits → ℕ → ℕ → ℕ
  libres_loop b zero i = 0
  libres_loop b (suc n) i = (if test_bit b i then 0 else 1) + libres_loop b n (i + 1)

  -- `cantidadBloquesLibres`
  unfoldable pub cantidad_bloques_libres : Bits → ℕ
  unfolding libres_loop
  cantidad_bloques_libres b = libres_loop b (max_bit b) 0

  -- The loop of `guardar_datos` that gives the file `n` more blocks
  unfoldable pub asignar_bloques : ℕ → Archivo → Bits → Option (Archivo × Bits)
  asignar_bloques zero a b = some (a, b)
  asignar_bloques (suc n) a b = do
    block ← primer_bloque_libre b
    asignar_bloques n (agregar_bloque a block) (set_bit b block)

  -- `cleanBloques`
  unfoldable pub clean_bloques : List ℕ → Bits → Bits
  clean_bloques [] b = b
  clean_bloques (n ∷ ns) b = clean_bloques ns (clean_bit b n)

  -- `create_archivo`. `opens` is whether `fopen(fullPath, "w")` succeeds.
  unfoldable pub create_archivo : String → Bool → Estado Bits → ℤ × Estado Bits
  create_archivo path opens s = elim (s.archivos path) [
    | some e ↦ (pos 0, s)
    | none ↦ elim (primer_bloque_libre s.bitmap) [
      | none ↦ (pos 0, s)
      | some block ↦
          if opens
          then (
            pos 1,
            record {
              archivos =
                  poner s.archivos path
                    (some (con_formato (record { tamanio = 0; array = block ∷ [] })));
              bitmap = set_bit s.bitmap block;
              bloques = s.bloques;
            },
          )
          else (pos 0, s)
    ]
  ]

  -- `delete_archivo`
  unfoldable pub delete_archivo : String → Estado Bits → ℤ × Estado Bits
  delete_archivo path s = elim (s.archivos path) [
    | none ↦ (pos 0, s)
    | some sin_formato ↦ (pos 1, record s { archivos = poner s.archivos path none })
    | some (con_formato a) ↦ (
      pos 1,
      record {
        archivos = poner s.archivos path none;
        bitmap = clean_bloques a.array s.bitmap;
        bloques = s.bloques;
      },
    )
  ]

  -- The part of `obtener_datos` after its checks on the arguments. `none` of the first test is an
  -- overflow of `tamanio - size - offset`.
  unfoldable pub obtener_rango : ℕ → Estado Bits → Archivo → ℕ → ℕ → Option (ℤ × Option (List ℕ))
  unfolding leer_bloques
  obtener_rango size_bloque s a offset size =
      if ltb (a.tamanio + 2 ^ 31) (size + offset)
      then none
      else if ltb a.tamanio (size + offset)
      then some (neg 16, none)
      else (do
        bs ← blocks_to_process size_bloque offset size
        r ← leer_bloques s.bloques a.array bs
        elim r [ none ↦ some (neg 19, none) | some xs ↦ some (pos 1, some xs) ])

  -- `obtener_datos`: the code that `*error` gets, and the data (`none` is NULL)
  unfoldable pub obtener_datos : ℕ → Estado Bits → String → ℤ → ℤ → Option (ℤ × Option (List ℕ))
  unfolding obtener_rango
  obtener_datos size_bloque s path offset size = elim (s.archivos path) [
    | some (con_formato a) ↦
        if ltb_ℤ size (pos 1)
        then some (neg 14, none)
        else if is_neg offset
        then some (neg 15, none)
        else obtener_rango size_bloque s a (pos_part offset) (pos_part size)
    | some sin_formato ↦ some (neg 20, none)
    | none ↦ some (neg 20, none)
  ]

  -- The end of `guardar_datos`: the pieces are written, and then the metadata file.
  unfoldable pub guardar_bloques :
      Estado Bits
      → String
      → Archivo
      → Bits
      → List Bloque
      → ℕ
      → ℕ
      → List ℕ
      → Option (ℤ × Estado Bits)
  unfolding escribir_bloques int32
  guardar_bloques s path a bitmap bs offset size buffer = do
    (done, d) ← escribir_bloques s.bloques a.array bs buffer
    if done
        then (do
          fin ← int32 (offset + size)
          some (
            pos 1,
            record {
              archivos =
                  poner s.archivos path
                    (some (con_formato (record a { tamanio = max a.tamanio fin })));
              bitmap = bitmap;
              bloques = d;
            },
          ))
        else some (pos 0, record s { bitmap = bitmap; bloques = d })

  -- The part of `guardar_datos` after its checks on the arguments
  unfoldable pub guardar_rango :
      ℕ → Estado Bits → String → Archivo → ℕ → ℕ → List ℕ → Option (ℤ × Estado Bits)
  unfolding guardar_bloques
  guardar_rango size_bloque s path a offset size buffer = do
    bs ← blocks_to_process size_bloque offset size
    last ← ultimo_id bs
    let necesarios = last + 1 - length a.array
    if ltb 0 necesarios && ltb (cantidad_bloques_libres s.bitmap) necesarios
        then some (neg 16, s)
        else do
          (a', bitmap) ← asignar_bloques necesarios a s.bitmap
          guardar_bloques s path a' bitmap bs offset size buffer

  -- `guardar_datos`: the code that it returns, and the state that it leaves
  unfoldable pub guardar_datos :
      ℕ → Estado Bits → String → ℤ → ℤ → List ℕ → Option (ℤ × Estado Bits)
  unfolding guardar_rango
  guardar_datos size_bloque s path offset size buffer = elim (s.archivos path) [
    | some (con_formato a) ↦
        if ltb_ℤ size (pos 1)
        then some (neg 14, s)
        else if is_neg offset
        then some (neg 15, s)
        else guardar_rango size_bloque s path a (pos_part offset) (pos_part size) buffer
    | some sin_formato ↦ some (neg 20, s)
    | none ↦ some (neg 20, s)
  ]
