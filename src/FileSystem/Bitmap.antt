-- ===== src/FileSystem/Bitmap.antt =====
-- The bitmap of blocks: looking for a free block, counting the free ones, giving blocks to a file
-- and taking them back (`primer_bloque_libre`, `cantidadBloquesLibres`, the loop of `guardar_datos`
-- and `cleanBloques` of FileSystem/fs.h).
use tp_so_2017_twt.Prelude.{
  ℕ, zero, suc, ◌+◌, ◌≤◌, ◌<◌, ◌≡◌, refl, ◌∙◌, ◌≢◌, ◌⊎◌, inl, inr, false, some, List, [], ◌∷◌,
  arith, get_elem?, Bool-cases,
}
use tp_so_2017_twt.FileSystem.Datos.{BitArray}
use tp_so_2017_twt.FileSystem.Defs.{
  primer_libre_loop, primer_bloque_libre, libres_loop, cantidad_bloques_libres, clean_bloques,
}

module _ (B : BitArray) where
  open B use {Bits, max_bit, test_bit, set_bit, clean_bit}

  primer_libre_loop-some :
      (b : Bits) (n i k : ℕ)
      → primer_libre_loop B b n i ≡ some k
      → (i ≤ k) × (k < i + n) × (test_bit b k ≡ false)
  unfolding primer_libre_loop
  primer_libre_loop-some b zero i k e = ground arith
  primer_libre_loop-some b (suc n) i k e = ground (arith, primer_libre_loop-some b n (i + 1) k)

  -- What `primer_bloque_libre` finds is inside the bitmap and free.
  pub primer_bloque_libre-some :
      (b : Bits) {k : ℕ}
      → primer_bloque_libre B b ≡ some k
      → (k < max_bit b) × (test_bit b k ≡ false)
  unfolding primer_bloque_libre
  primer_bloque_libre-some b {k} e =
      let (lo, hi, free) = primer_libre_loop-some b (max_bit b) 0 k e in (omega arith, free)

  -- If a free block is counted, one is found.
  primer_libre_loop-found :
      (b : Bits) (n i : ℕ)
      → 0 < libres_loop B b n i
      → (k : ℕ) × (primer_libre_loop B b n i ≡ some k)
  unfolding libres_loop primer_libre_loop
  primer_libre_loop-found b zero i h = absurd (omega arith)
  primer_libre_loop-found b (suc n) i h = elim (Bool-cases (test_bit b i)) [
    | inr free ↦ (i, rw free)
    | inl used ↦ let (k, e) = primer_libre_loop-found b n (i + 1) (ground arith) in (k, rw used e)
  ]

  pub primer_bloque_libre-found :
      (b : Bits) → 0 < cantidad_bloques_libres B b → (k : ℕ) × (primer_bloque_libre B b ≡ some k)
  unfolding cantidad_bloques_libres primer_bloque_libre
  primer_bloque_libre-found b h = primer_libre_loop-found b (max_bit b) 0 h

  -- Marking one free block takes one from the count.
  libres_loop-set_bit :
      (b : Bits) (n i k : ℕ)
      → k < max_bit b
      → test_bit b k ≡ false
      → ((k < i) ⊎ (i + n ≤ k) → libres_loop B (set_bit b k) n i ≡ libres_loop B b n i)
        × (i ≤ k → k < i + n → libres_loop B (set_bit b k) n i + 1 ≡ libres_loop B b n i)
  unfolding libres_loop
  libres_loop-set_bit b zero i k lt free = (λ h. refl, λ h h'. absurd (omega arith))
  libres_loop-set_bit b (suc n) i k lt free =
      let (out, here) = libres_loop-set_bit b n (i + 1) k lt free in
      let bit = B.test_bit-set_bit b k i lt in (λ h. ground arith, λ h h'. ground arith)

  pub cantidad-set_bit :
      (b : Bits) (k : ℕ)
      → k < max_bit b
      → test_bit b k ≡ false
      → cantidad_bloques_libres B (set_bit b k) + 1 ≡ cantidad_bloques_libres B b
  unfolding cantidad_bloques_libres
  cantidad-set_bit b k lt free =
      rw (B.max_bit-set_bit b k)
        ((libres_loop-set_bit b (max_bit b) 0 k lt free).1 (omega arith) (omega arith))

  pub max_bit-clean_bloques : (ns : List ℕ) (b : Bits) → max_bit (clean_bloques B ns b) ≡ max_bit b
  unfolding clean_bloques
  max_bit-clean_bloques [] b = refl
  max_bit-clean_bloques (n ∷ ns) b =
      max_bit-clean_bloques ns (clean_bit b n) ∙ B.max_bit-clean_bit b n

  -- A block that is not on the list keeps its bit.
  pub test_bit-clean_bloques :
      (ns : List ℕ) (b : Bits) (j : ℕ)
      → ((i n : ℕ) → get_elem? ns i ≡ some n → (n < max_bit b) × (n ≢ j))
      → test_bit (clean_bloques B ns b) j ≡ test_bit b j
  unfolding clean_bloques
  test_bit-clean_bloques [] b j h = refl
  test_bit-clean_bloques (n ∷ ns) b j h =
      let (lt, ne) = h 0 n refl in
      test_bit-clean_bloques ns (clean_bit b n) j
        (λ i m e. rw (B.max_bit-clean_bit b n) (h (suc i) m e))
      ∙ B.test_bit-clean_bit b n j lt
      ∙ ground arith

  -- A block on the list is free afterwards.
  pub clean_bloques-free :
      (ns : List ℕ) (b : Bits) (j i : ℕ)
      → ((i n : ℕ) → get_elem? ns i ≡ some n → n < max_bit b)
      → (get_elem? ns i ≡ some j) ⊎ (test_bit b j ≡ false)
      → test_bit (clean_bloques B ns b) j ≡ false
  unfolding clean_bloques
  clean_bloques-free [] b j i h (inl e) = ground arith
  clean_bloques-free [] b j i h (inr e) = e
  clean_bloques-free (n ∷ ns) b j zero h (inl e) =
      clean_bloques-free ns (clean_bit b n) j 0
        (λ k m e'. rw (B.max_bit-clean_bit b n) (h (suc k) m e'))
        (inr (B.test_bit-clean_bit b n j (h 0 n refl) ∙ ground arith))
  clean_bloques-free (n ∷ ns) b j (suc i) h (inl e) =
      clean_bloques-free ns (clean_bit b n) j i
        (λ k m e'. rw (B.max_bit-clean_bit b n) (h (suc k) m e')) (inl e)
  clean_bloques-free (n ∷ ns) b j i h (inr e) =
      clean_bloques-free ns (clean_bit b n) j i
        (λ k m e'. rw (B.max_bit-clean_bit b n) (h (suc k) m e'))
        (inr (B.test_bit-clean_bit b n j (h 0 n refl) ∙ ground arith))
