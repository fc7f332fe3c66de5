-- ===== src/FileSystem/Asignacion.antt =====
-- Giving a file more blocks: the loop of `guardar_datos` over `agregarBloque` and
-- `bitarray_set_bit`, and which pieces lie inside the blocks of a file.
use Prim.Native.String.{String}
use text.Mathlib.Text.{◌==◌ as str_eq}
use tp_so_2017_twt.Prelude.{
  ℕ, zero, suc, ◌+◌, ◌-◌, ◌*◌, ◌≤◌, ◌<◌, ◌≡◌, refl, sym, ap, ◌∙◌, some, List, [], ◌∷◌, ◌&&◌, arith,
  ◌==◌, if◌then◌else◌, length, get_elem?, get_or, ◌>>=◌, get_elem?-append_one, length-append,
  get_or-append_left, get_elem?-eq-get_or,
}
use tp_so_2017_twt.FileSystem.Bloques.{Bloque, Covers}
use tp_so_2017_twt.FileSystem.Datos.{
  BitArray, Arbol, Disco, Archivo, con_formato, poner, agregar_bloque, ultimo_id,
}
use tp_so_2017_twt.FileSystem.Defs.{asignar_bloques, cantidad_bloques_libres}
use tp_so_2017_twt.FileSystem.Bitmap.{
  primer_bloque_libre-some, primer_bloque_libre-found, cantidad-set_bit,
}
use tp_so_2017_twt.FileSystem.Contenido.{IsIn, IsMapped}
use tp_so_2017_twt.FileSystem.Invariante.{
  bloque_en, bloque_de, bloque_de-poner, IsSane, IsSane-grow,
}

-- An archive `a'` that has the blocks of `a`, and `n` more
pub record IsLonger (n : ℕ) (a a' : Archivo) : Type 0 where
  pub size : length a'.array ≡ length a.array + n
  pub tamanio : a'.tamanio ≡ a.tamanio
  pub same : (i : ℕ) → i < length a.array → get_or a'.array i 0 ≡ get_or a.array i 0

length-agregar_bloque :
    (a : Archivo) (k : ℕ) → length (agregar_bloque a k).array ≡ length a.array + 1
length-agregar_bloque a k = length-append a.array (k ∷ [])

bloque_de-agregar :
    (t : Arbol) (path : String) (a : Archivo) (k : ℕ) (q : String) (j : ℕ)
    → bloque_de (poner t path (some (con_formato (agregar_bloque a k)))) q j ≡ (
        if str_eq path q && j == length a.array
        then some k
        else bloque_de (poner t path (some (con_formato a))) q j)
unfolding bloque_en
bloque_de-agregar t path a k q j = ground (
  arith,
  bloque_de-poner t path (some (con_formato (agregar_bloque a k))) q j,
  bloque_de-poner t path (some (con_formato a)) q j,
  get_elem?-append_one a.array k j,
)

module _ (B : BitArray) (t : Arbol) (path : String) (d : Disco) where
  open B use {Bits, max_bit, test_bit, set_bit}

  abbrev IsSaneWith : Archivo → Bits → Type 0
  IsSaneWith a b = IsSane B (poner t path (some (con_formato a))) b d

  -- With `n` free blocks the loop gives the file `n` blocks, which were free, and keeps the
  -- invariant.
  pub asignar_bloques-IsLonger :
      (n : ℕ) (a : Archivo) (b : Bits)
      → IsSaneWith a b
      → n ≤ cantidad_bloques_libres B b
      → (a' : Archivo) × (b' : Bits) × (asignar_bloques B n a b ≡ some (a', b'))
        × IsSaneWith a' b'
        × IsLonger n a a'
  unfolding asignar_bloques
  asignar_bloques-IsLonger zero a b v le =
      (a, b, refl, v, record { size = omega arith; tamanio = refl; same = λ i lt. refl })
  asignar_bloques-IsLonger (suc n) a b v le =
      let (k, found) = primer_bloque_libre-found B b (omega arith) in
      let (lt, free) = primer_bloque_libre-some B b found in
      let a₁ = agregar_bloque a k in
      let v₁ =
        IsSane-grow B v (poner t path (some (con_formato a₁))) path (length a.array) k lt free
          (bloque_de-agregar t path a k) in
      let (a', b', run, v', longer) =
        asignar_bloques-IsLonger n a₁ (set_bit b k) v₁
          (omega (arith, cantidad-set_bit B b k lt free)) in
      (
        a',
        b',
        rw (found, ◌>>=◌) run,
        v',
        record {
          size = omega (arith, longer.size, length-agregar_bloque a k);
          tamanio = longer.tamanio;
          same = λ i h.
              longer.same i (omega (arith, length-agregar_bloque a k))
              ∙ get_or-append_left a.array (k ∷ []) i 0 h;
        },
      )

id_below : (s i o z n : ℕ) → i * s + o < n * s → i < n
id_below s i o z n h = grind arith

-- A range that ends inside the blocks of a file has its pieces in those blocks.
pub Covers-IsIn :
    (s start size : ℕ) (bs : List Bloque) (array : List ℕ)
    → Covers s start size bs
    → start + size ≤ length array * s
    → IsIn array bs
Covers-IsIn s start size [] array c h = tt
Covers-IsIn s start size (b ∷ bs) array c h = (
  id_below s b.id b.offset 0 (length array) (omega (arith, c.0, c.1, c.3)),
  Covers-IsIn s (start + b.size) (size - b.size) bs array c.4 (omega (arith, c.3)),
)

-- The last piece lies in the block where the range ends.
pub ultimo_id_lem :
    (s start size : ℕ) (bs : List Bloque)
    → Covers s start size bs
    → 0 < size
    → (last : ℕ) × (ultimo_id bs ≡ some last)
      × (last * s < start + size)
      × (start + size ≤ (last + 1) * s)
ultimo_id_lem s start size [] c h = absurd (omega arith)
ultimo_id_lem s start size (b ∷ []) c h = (b.id, refl, omega arith, omega arith)
ultimo_id_lem s start size (b ∷ b₂ ∷ bs) c h =
    let (last, e, lo, hi) =
      ultimo_id_lem s (start + b.size) (size - b.size) (b₂ ∷ bs) c.4 (omega arith) in
    (last, e, omega (arith, c.3), omega (arith, c.3))

-- The invariant gives every block of a file its block file.
pub IsSane-IsMapped :
    (B : BitArray) (t : Arbol) (b : B.Bits) (d : Disco) (path : String) (array : List ℕ)
    → IsSane B t b d
    → ((i : ℕ) → bloque_de t path i ≡ get_elem? array i)
    → IsMapped d array
IsSane-IsMapped B t b d path array v held = record {
  present = λ i lt.
      v.disk (get_or array i 0)
        (v.marked path i (get_or array i 0) (held i ∙ get_elem?-eq-get_or array i 0 lt)).0;
  apart = λ i j li lj e.
      (v.apart path path i j (get_or array i 0) (held i ∙ get_elem?-eq-get_or array i 0 li)
        (held j ∙ get_elem?-eq-get_or array j 0 lj ∙ ap some (sym e))).1;
}
