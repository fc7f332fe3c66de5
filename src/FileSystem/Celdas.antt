-- ===== src/FileSystem/Celdas.antt =====
-- The bytes of a file as one sequence over its blocks, and the tree of files after a file's own
-- metadata has been written again.
use Prim.Native.String.{String}
use text.Mathlib.Text.{◌==◌ as str_eq}
use text.Mathlib.TextPositions.{eq_refl}
use text.Mathlib.TextEquality.{eq_iff}
use native.Mathlib.Nat.{le-div_iff_mul-le, div-lt_iff_lt-mul, mod-eq-sub-div-mul}
use tp_so_2017_twt.Prelude.{
  ℕ, ◌+◌, ◌*◌, ◌/◌, ◌%◌, ◌≤◌, ◌<◌, ◌≡◌, sym, ap, ◌∙◌, true, false, some, List, arith, if◌then◌else◌,
  get_elem?, get_or, Bool-cases, ◌⊎◌, inl, inr,
}
use tp_so_2017_twt.FileSystem.Datos.{Arbol, Disco, Archivo, con_formato, poner}
use tp_so_2017_twt.FileSystem.Contenido.{cell, Holds}
use tp_so_2017_twt.FileSystem.Invariante.{
  bloque_en, bloque_de, bloque_de-poner, bloque_de-con_formato,
}
use tp_so_2017_twt.FileSystem.Asignacion.{IsLonger}

-- The bytes of a file as one sequence, from its blocks
pub contenido : ℕ → Disco → List ℕ → ℕ → ℕ
contenido size_bloque d array x = cell d array (x / size_bloque) (x % size_bloque)

div_at : (s i o : ℕ) → o < s → (i * s + o) / s ≡ i
div_at s i o h = omega (
  arith,
  (le-div_iff_mul-le {k = s} {x = i} {y = i * s + o} (omega arith)).1 (omega arith),
  (div-lt_iff_lt-mul {k = s} {x = i * s + o} {y = i + 1} (omega arith)).1 (omega arith),
)

mod_at : (s i o : ℕ) → o < s → (i * s + o) % s ≡ o
mod_at s i o h = rw (mod-eq-sub-div-mul, div_at s i o h) (omega arith)

pub contenido-Holds : (s : ℕ) (d : Disco) (array : List ℕ) → Holds d array s (contenido s d array)
unfolding contenido
contenido-Holds s d array i o li lo = rw (div_at s i o lo, mod_at s i o lo)

cell_at :
    (d : Disco) (array array' : List ℕ) (i o : ℕ)
    → get_or array i 0 ≡ get_or array' i 0
    → cell d array i o ≡ cell d array' i o
unfolding cell
cell_at d array array' i o e = rw (e, cell)

pub longer-Holds :
    (s : ℕ) (d : Disco) (n : ℕ) (a a' : Archivo)
    → IsLonger n a a'
    → Holds d a.array s (contenido s d a'.array)
longer-Holds s d n a a' l i o li lo =
    cell_at d a.array a'.array i o (sym (l.same i li))
    ∙ contenido-Holds s d a'.array i o (omega (arith, l.size)) lo

pub times_lt : (s a b : ℕ) → a * s < b * s → a < b
times_lt s a b h = grind arith

pub times_le : (s a b : ℕ) → a ≤ b → a * s ≤ b * s
times_le s a b h = grind arith

pub bloque_de-poner_self :
    (t : Arbol) (path : String) (a : Archivo) (i : ℕ)
    → bloque_de (poner t path (some (con_formato a))) path i ≡ get_elem? a.array i
unfolding bloque_en
bloque_de-poner_self t path a i =
    bloque_de-poner t path (some (con_formato a)) path i ∙ rw (eq_refl path)

-- Writing a file's own metadata back, or a new size into it, moves no block.
pub bloque_de-poner_same :
    (t : Arbol) (path : String) (a a' : Archivo)
    → t path ≡ some (con_formato a)
    → a'.array ≡ a.array
    → (q : String) (i : ℕ) → bloque_de (poner t path (some (con_formato a'))) q i ≡ bloque_de t q i
unfolding bloque_en
bloque_de-poner_same t path a a' e same q i =
    bloque_de-poner t path (some (con_formato a')) q i ∙ go (Bool-cases (str_eq path q))
  where
    go :
        (str_eq path q ≡ true) ⊎ (str_eq path q ≡ false)
        → (if str_eq path q then get_elem? a'.array i else bloque_de t q i) ≡ bloque_de t q i
    go (inl h) =
        rw (h, same)
          (sym (bloque_de-con_formato t path a i e)
            ∙ ap (λ p. bloque_de t p i) ((eq_iff path q).0 h))
    go (inr h) = rw h
