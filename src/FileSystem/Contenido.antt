-- ===== src/FileSystem/Contenido.antt =====
-- The pieces of a file and its bytes as one sequence: `readFromBlock` and the loop of `obtener_datos`
-- in FileSystem/fs.h.
use mathlib.Core.Option
use mathlib.Core.Path.{ap₂}
use tp_so_2017_twt.Prelude.{
  ℕ, zero, suc, ◌+◌, ◌-◌, ◌*◌, ◌≤◌, ◌<◌, ◌≡◌, refl, sym, ap, ◌∙◌, none, some, List, [], ◌∷◌, ◌++◌,
  arith, length, get_or, take, drop, get_elem?-eq-get_or, get_or-take, get_or-drop, length-take,
  length-drop, All, ◌>>=◌,
}
use tp_so_2017_twt.FileSystem.Bloques.{Bloque, Covers}
use tp_so_2017_twt.FileSystem.Datos.{Disco, read, write, read_from_block, leer_bloques}

-- Byte `o` of the `i`-th block of a file
unfoldable pub cell : Disco → List ℕ → ℕ → ℕ → ℕ
cell d array i o = elim (d (get_or array i 0)) [ none ↦ 0 | some f ↦ f o ]

-- Every block of the file has its block file, and no block occurs twice.
pub record IsMapped (d : Disco) (array : List ℕ) : Type 0 where
  pub present : (i : ℕ) → i < length array → (f : ℕ → ℕ) × (d (get_or array i 0) ≡ some f)
  pub apart :
      (i j : ℕ) → i < length array → j < length array → get_or array i 0 ≡ get_or array j 0 → i ≡ j

-- The blocks of the file, of `s` bytes each, hold the bytes `g`.
abbrev pub Holds : Disco → List ℕ → ℕ → (ℕ → ℕ) → Type 0
Holds d array s g = (i o : ℕ) → i < length array → o < s → cell d array i o ≡ g (i * s + o)

abbrev pub IsIn : List ℕ → List Bloque → Type 0
IsIn array bs = All (λ b. b.id < length array) bs

pub length-read : (g : ℕ → ℕ) (a n : ℕ) → length (read g a n) ≡ n
unfolding read
length-read g a zero = refl
length-read g a (suc n) = ap suc (length-read g (a + 1) n)

pub read_congr :
    (f g : ℕ → ℕ) (a b n : ℕ)
    → ((k x y : ℕ) → k < n → x ≡ a + k → y ≡ b + k → f x ≡ g y)
    → read f a n ≡ read g b n
unfolding read
read_congr f g a b zero h = refl
read_congr f g a b (suc n) h = ap₂ ◌∷◌ (h 0 a b (omega arith) (omega arith) (omega arith)) (
    read_congr f g (a + 1) (b + 1) n
      (λ k x y lt ex ey. h (suc k) x y (omega arith) (omega arith) (omega arith)))

read_start : (g : ℕ → ℕ) (a b n : ℕ) → a ≡ b → read g a n ≡ read g b n
read_start g a b n e = ap (λ t. read g t n) e

pub read_count : (g : ℕ → ℕ) (a m n : ℕ) → m ≡ n → read g a m ≡ read g a n
read_count g a m n e = ap (λ t. read g a t) e

pub read-append : (g : ℕ → ℕ) (a m n : ℕ) → read g a m ++ read g (a + m) n ≡ read g a (m + n)
unfolding read
read-append g a zero n =
    read_start g (a + 0) a n (omega arith) ∙ read_count g a n (0 + n) (omega arith)
read-append g a (suc m) n =
    ap (λ t. g a ∷ (read g (a + 1) m ++ t)) (read_start g (a + suc m) (a + 1 + m) n (omega arith))
    ∙ ap (λ t. g a ∷ t) (read-append g (a + 1) m n)
    ∙ read_count g a (suc (m + n)) (suc m + n) (omega arith)

pub get_or_index : (xs : List ℕ) (i j : ℕ) → i ≡ j → get_or xs i 0 ≡ get_or xs j 0
get_or_index xs i j e = ap (λ k. get_or xs k 0) e

-- Writing the first `k` bytes and then the others is writing them all.
pub write-take-drop :
    (g : ℕ → ℕ) (start k : ℕ) (xs : List ℕ) (a : ℕ)
    → k ≤ length xs
    → write (write g start (take k xs)) (start + k) (drop k xs) a ≡ write g start xs a
unfolding write
write-take-drop g start k xs a h = ground (
  arith,
  length-take k xs,
  length-drop k xs,
  get_or-take k (a - start) xs 0,
  get_or-drop k (a - (start + k)) xs 0,
  get_or_index xs (k + (a - (start + k))) (a - start),
)

-- Two blocks have no address in common.
pub other_block : (s i j o : ℕ) → o < s → i < j → i * s + o < j * s
other_block s i j o h k = grind arith

pub cell-some :
    (d : Disco) (array : List ℕ) (i o : ℕ) {f : ℕ → ℕ}
    → d (get_or array i 0) ≡ some f
    → cell d array i o ≡ f o
unfolding cell
cell-some d array i o e = rw (e, cell)

read_from_block-some :
    (d : Disco) (block offset size : ℕ) {f : ℕ → ℕ}
    → d block ≡ some f
    → read_from_block d block offset size ≡ some (read f offset size)
unfolding read_from_block
read_from_block-some d block offset size e = rw (e, Option.map)

-- The pieces are read as the bytes that the file holds.
pub leer_bloques-read :
    (d : Disco) (array : List ℕ) (s start size : ℕ) (bs : List Bloque) (g : ℕ → ℕ)
    → Covers s start size bs
    → IsIn array bs
    → IsMapped d array
    → Holds d array s g
    → leer_bloques d array bs ≡ some (some (read g start size))
unfolding leer_bloques read
leer_bloques-read d array s start size [] g c i m h = rw c
leer_bloques-read d array s start size (b ∷ bs) g c i m h =
    let (f, e) = m.present b.id i.0 in
    let ih = leer_bloques-read d array s (start + b.size) (size - b.size) bs g c.4 i.1 m h in
    let piece : read f b.offset b.size ≡ read g start b.size =
      read_congr f g b.offset start b.size (λ k x y lt ex ey.
        sym (cell-some d array b.id x e)
        ∙ h b.id x i.0 (omega (arith, c.2))
        ∙ ap g (omega (arith, c.0))) in
    rw
      (
        get_elem?-eq-get_or array b.id 0 i.0,
        ◌>>=◌,
        read_from_block-some d (get_or array b.id 0) b.offset b.size e,
        ih,
        piece,
      )
      (ap (λ t. some (some t))
        (read-append g start b.size (size - b.size)
          ∙ read_count g start (b.size + (size - b.size)) size (omega (arith, c.3))))
