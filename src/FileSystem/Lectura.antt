-- ===== src/FileSystem/Lectura.antt =====
-- `obtener_datos` of FileSystem/fs.h over the bytes of a file.
use Prim.Native.String.{String}
use tp_so_2017_twt.Prelude.{
  ℕ, ◌+◌, ◌*◌, ◌≤◌, ◌<◌, ◌^◌, ◌≡◌, refl, Option, none, some, List, [], ◌∷◌, arith, length,
  get_elem?, ◌>>=◌, Option-cases, inl, inr, ℤ, pos, neg, pos_part,
}
use tp_so_2017_twt.FileSystem.Bloques.{Bloque, blocks_to_process, blocks_to_process-Covers}
use tp_so_2017_twt.FileSystem.Datos.{
  BitArray, Disco, Archivo, Entrada, sin_formato, con_formato, Estado, read, leer_bloques,
  read_from_block,
}
use tp_so_2017_twt.FileSystem.Defs.{obtener_rango, obtener_datos}
use tp_so_2017_twt.FileSystem.Contenido.{IsMapped, Holds, leer_bloques-read}
use tp_so_2017_twt.FileSystem.Asignacion.{Covers-IsIn}

module _ (B : BitArray) (size_bloque : ℕ) where
  open B use {Bits}

  -- At `path` stands a file of `tamanio` bytes `g`: `obtener_datos` answers each range inside it
  -- with its bytes and the code 1, and each other range with -16, for numbers of 32 bits.
  pub record Contiene (s : Estado Bits) (path : String) (g : ℕ → ℕ) (tamanio : ℕ) : Type 0 where
    pub inside :
        (o n : ℕ)
        → 0 < n
        → o + n + size_bloque ≤ 2 ^ 31
        → o + n ≤ tamanio
        → obtener_datos B size_bloque s path (pos o) (pos n) ≡ some (pos 1, some (read g o n))
    pub outside :
        (o n : ℕ)
        → 0 < n
        → o + n + size_bloque ≤ 2 ^ 31
        → tamanio < o + n
        → obtener_datos B size_bloque s path (pos o) (pos n) ≡ some (neg 16, none)

  pub obtener_datos-Contiene :
      (s : Estado Bits) (path : String) (a : Archivo) (g : ℕ → ℕ)
      → 0 < size_bloque
      → s.archivos path ≡ some (con_formato a)
      → a.tamanio ≤ length a.array * size_bloque
      → IsMapped s.bloques a.array
      → Holds s.bloques a.array size_bloque g
      → Contiene s path g a.tamanio
  unfolding obtener_datos
  obtener_datos-Contiene s path a g pos_s e fits m h = record {
    inside = λ o n p fit le.
        let (bs, cut, cover) = blocks_to_process-Covers size_bloque o n pos_s fit in
        let bytes =
          leer_bloques-read s.bloques a.array size_bloque o n bs g cover
            (Covers-IsIn size_bloque o n bs a.array cover (omega arith)) m h in
        rw (e, obtener_datos, cut, bytes) (ground arith);
    outside = λ o n p fit lt. rw (e, obtener_datos) (ground arith);
  }

  read_from_block_congr :
      (d d' : Disco) (n o z : ℕ) → d' n ≡ d n → read_from_block d' n o z ≡ read_from_block d n o z
  unfolding read_from_block
  read_from_block_congr d d' n o z e = rw (e, read_from_block)

  leer_bloques_congr :
      (d d' : Disco) (array : List ℕ) (bs : List Bloque)
      → ((i n : ℕ) → get_elem? array i ≡ some n → d' n ≡ d n)
      → leer_bloques d' array bs ≡ leer_bloques d array bs
  unfolding leer_bloques
  leer_bloques_congr d d' array [] h = refl
  leer_bloques_congr d d' array (b ∷ bs) h = elim (Option-cases (get_elem? array b.id)) [
    | inl e ↦ rw (e, ◌>>=◌)
    | inr (n, e) ↦
        rw (e, ◌>>=◌, read_from_block_congr d d' n b.offset b.size (h b.id n e))
          (ground (arith, leer_bloques_congr d d' array bs h))
  ]

  obtener_rango_congr :
      (s s' : Estado Bits) (a : Archivo) (o n : ℕ)
      → ((i m : ℕ) → get_elem? a.array i ≡ some m → s'.bloques m ≡ s.bloques m)
      → obtener_rango B size_bloque s' a o n ≡ obtener_rango B size_bloque s a o n
  unfolding obtener_rango
  obtener_rango_congr s s' a o n h = elim (Option-cases (blocks_to_process size_bloque o n)) [
    | inl e ↦ rw (e, ◌>>=◌)
    | inr (bs, e) ↦ rw (e, leer_bloques_congr s.bloques s'.bloques a.array bs h)
  ]

  -- Where neither the metadata nor the blocks of a file change, no answer about it changes.
  pub obtener_datos_congr :
      (s s' : Estado Bits) (path : String) (o n : ℤ)
      → s'.archivos path ≡ s.archivos path
      → ((a : Archivo)
          → s.archivos path ≡ some (con_formato a)
          → (i m : ℕ) → get_elem? a.array i ≡ some m
          → s'.bloques m ≡ s.bloques m)
      → obtener_datos B size_bloque s' path o n ≡ obtener_datos B size_bloque s path o n
  unfolding obtener_datos
  obtener_datos_congr s s' path o n same h = go (s.archivos path) refl
    where
      go :
          (e : Option Entrada)
          → s.archivos path ≡ e
          → obtener_datos B size_bloque s' path o n ≡ obtener_datos B size_bloque s path o n
      go none e = rw (same, e, obtener_datos)
      go (some sin_formato) e = rw (same, e, obtener_datos)
      go (some (con_formato a)) e =
          rw (same, e, obtener_datos, obtener_rango_congr s s' a (pos_part o) (pos_part n) (h a e))
