-- ===== src/FileSystem/Invariante.antt =====
-- The invariant of the file server: a block belongs to one place of one file, is marked in the
-- bitmap as long as it does, and has its block file.
use Prim.Native.String.{String}
use text.Mathlib.Text.{◌==◌ as str_eq}
use text.Mathlib.TextEquality.{eq_iff}
use tp_so_2017_twt.Prelude.{
  ℕ, ◌<◌, ◌≡◌, sym, ◌∙◌, ap, true, false, Option, none, some, List, ◌&&◌, arith, ◌==◌,
  if◌then◌else◌, get_elem?,
}
use tp_so_2017_twt.FileSystem.Datos.{
  BitArray, Arbol, Disco, Archivo, Entrada, sin_formato, con_formato, poner,
}
use tp_so_2017_twt.FileSystem.Defs.{clean_bloques}
use tp_so_2017_twt.FileSystem.Bitmap.{max_bit-clean_bloques, test_bit-clean_bloques}

unfoldable pub bloque_en : Option Entrada → ℕ → Option ℕ
bloque_en none i = none
bloque_en (some sin_formato) i = none
bloque_en (some (con_formato a)) i = get_elem? a.array i

-- The `i`-th block of the file at a path
unfoldable pub bloque_de : Arbol → String → ℕ → Option ℕ
unfolding bloque_en
bloque_de t p i = bloque_en (t p) i

module _ (B : BitArray) where
  open B use {Bits, max_bit, test_bit, set_bit, clean_bit}

  pub record IsSane (t : Arbol) (b : Bits) (d : Disco) : Type 0 where
    pub marked :
        (p : String) (i n : ℕ) → bloque_de t p i ≡ some n → (n < max_bit b) × (test_bit b n ≡ true)
    pub apart :
        (p q : String) (i j n : ℕ)
        → bloque_de t p i ≡ some n
        → bloque_de t q j ≡ some n
        → (p ≡ q) × (i ≡ j)
    pub disk : (n : ℕ) → n < max_bit b → (f : ℕ → ℕ) × (d n ≡ some f)

  -- A tree with the same blocks is as sane.
  pub IsSane-same_blocks :
      {t : Arbol} {b : Bits} {d : Disco} (t' : Arbol)
      → IsSane t b d
      → ((p : String) (i : ℕ) → bloque_de t' p i ≡ bloque_de t p i)
      → IsSane t' b d
  IsSane-same_blocks t' v same = record {
    marked = λ p i n e. v.marked p i n (sym (same p i) ∙ e);
    apart = λ p q i j n e e'. v.apart p q i j n (sym (same p i) ∙ e) (sym (same q j) ∙ e');
    disk = v.disk;
  }

  -- So is a disk where no block file is gone.
  pub IsSane-kept :
      {t : Arbol} {b : Bits} {d : Disco} (d' : Disco)
      → IsSane t b d
      → ((n : ℕ) (f : ℕ → ℕ) → d n ≡ some f → (f' : ℕ → ℕ) × (d' n ≡ some f'))
      → IsSane t b d'
  IsSane-kept d' v kept = record {
    marked = v.marked;
    apart = v.apart;
    disk = λ n lt. let (f, e) = v.disk n lt in kept n f e;
  }

  module _ {t : Arbol} {b : Bits} {d : Disco} (v : IsSane t b d) (t' : Arbol) (path : String)
      (m k : ℕ) (lt : k < max_bit b) (free : test_bit b k ≡ false)
      (grown : (q : String) (j : ℕ)
        → bloque_de t' q j ≡ (if str_eq path q && j == m then some k else bloque_de t q j)) where
    grow_marked :
        (p : String) (i n : ℕ)
        → bloque_de t' p i ≡ some n
        → (n < max_bit (set_bit b k)) × (test_bit (set_bit b k) n ≡ true)
    grow_marked p i n e =
        rw (B.max_bit-set_bit b k, B.test_bit-set_bit b k n lt)
          (ground (arith, grown p i, v.marked p i n))

    grow_apart :
        (p q : String) (i j n : ℕ)
        → bloque_de t' p i ≡ some n
        → bloque_de t' q j ≡ some n
        → (p ≡ q) × (i ≡ j)
    grow_apart p q i j n e e' = ground (
      arith,
      grown p i,
      grown q j,
      v.marked p i k,
      v.marked q j k,
      v.apart p q i j n,
      eq_iff path p,
      eq_iff path q,
    )

    -- One free block more for one file
    pub IsSane-grow : IsSane t' (set_bit b k) d
    IsSane-grow = record {
      marked = grow_marked;
      apart = grow_apart;
      disk = λ n h. v.disk n (rw (B.max_bit-set_bit b k) at h);
    }

  module _ {t : Arbol} {b : Bits} {d : Disco} (v : IsSane t b d) (t' : Arbol) (path : String)
      (array : List ℕ) (held : (i : ℕ) → bloque_de t path i ≡ get_elem? array i)
      (gone : (q : String) (j : ℕ)
        → bloque_de t' q j ≡ (if str_eq path q then none else bloque_de t q j)) where
    held_marked : (i n : ℕ) → get_elem? array i ≡ some n → (n < max_bit b) × (test_bit b n ≡ true)
    held_marked i n e = v.marked path i n (held i ∙ e)

    shrink_marked :
        (p : String) (i n : ℕ)
        → bloque_de t' p i ≡ some n
        → (n < max_bit (clean_bloques B array b)) × (test_bit (clean_bloques B array b) n ≡ true)
    shrink_marked p i n e =
        let (old, other) : (bloque_de t p i ≡ some n) × (str_eq path p ≡ false) =
          ground (arith, gone p i) in
        rw
          (
            max_bit-clean_bloques B array b,
            test_bit-clean_bloques B array b n (λ j k ej. (
              (held_marked j k ej).0,
              λ same.
                  let ek : get_elem? array j ≡ some n = ej ∙ ap some same in
                  ground (arith, v.apart path p j i n (held j ∙ ek) old, eq_iff path p),
            )),
          )
          (v.marked p i n old)

    -- One file less
    pub IsSane-shrink : IsSane t' (clean_bloques B array b) d
    IsSane-shrink = record {
      marked = shrink_marked;
      apart =
          λ p q i j n e e'. v.apart p q i j n (ground (arith, gone p i)) (ground (arith, gone q j));
      disk = λ n h. v.disk n (rw (max_bit-clean_bloques B array b) at h);
    }

pub bloque_de-poner :
    (t : Arbol) (path : String) (e : Option Entrada) (q : String) (i : ℕ)
    → bloque_de (poner t path e) q i ≡ (if str_eq path q then bloque_en e i else bloque_de t q i)
unfolding bloque_de
bloque_de-poner t path e q i = ground arith

pub bloque_de-con_formato :
    (t : Arbol) (path : String) (a : Archivo) (i : ℕ)
    → t path ≡ some (con_formato a)
    → bloque_de t path i ≡ get_elem? a.array i
unfolding bloque_de
bloque_de-con_formato t path a i e = rw (e, bloque_de)
