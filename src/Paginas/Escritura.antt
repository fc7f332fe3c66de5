-- ===== src/Paginas/Escritura.antt =====
-- `escritura` of Memoria/Memoria.c: the bytes of the frame, the slot of the page, and the other slots.
use native.Mathlib.Omega.{arith}
use mathlib.Core.Option.{some-injective}
use tp_so_2017_twt.Prelude.{
  ℕ, zero, suc, ◌+◌, ◌-◌, ◌*◌, ◌<◌, ◌≤◌, ◌≡◌, ◌≢◌, refl, sym, ap, subst, ◌∙◌, ◌&&◌, some, List, [],
  ◌∷◌, ◌==◌, if◌then◌else◌, length, get_elem?, take, drop, Bool-cases, inl, inr, ℕ_discrete, ◌⊎◌,
  ◌++◌, >>=-eq-some, dec_lt,
}
use tp_so_2017_twt.Memoria.Defs.{Marcos}
use tp_so_2017_twt.Heap.Defs.{Bytes}
use tp_so_2017_twt.FileSystem.Datos.{read, write}
use tp_so_2017_twt.Paginas.Defs.{Config, buscar_frame}
use tp_so_2017_twt.Memoria.Defs.{
  EntradaTabla, buscar_en_lista, buscar_en_indice, es_pagina_correcta, calcular_posicion,
}
use tp_so_2017_twt.FileSystem.Contenido.{read_congr, read-append}
use tp_so_2017_twt.FileSystem.Sesion.{read-write}
use tp_so_2017_twt.Paginas.Lectura.{take-read, drop-read, read_place}

-- The frame that is found holds the page.
buscar_en_lista-found :
    (t : List EntradaTabla) (fs : List ℕ) (pid pagina f : ℕ)
    → buscar_en_lista t fs pid pagina ≡ some (some f)
    → (e : EntradaTabla) × (get_elem? t f ≡ some e) × (e.pid ≡ pid) × (e.pagina ≡ pagina)
unfolding buscar_en_lista es_pagina_correcta
buscar_en_lista-found t [] pid pagina f e = ground (arith, e)
buscar_en_lista-found t (g ∷ gs) pid pagina f e =
    let (b, test, rest) =
      >>=-eq-some (es_pagina_correcta t g pid pagina)
        (λ b. if b then some (some g) else buscar_en_lista t gs pid pagina) e in
    let (x, at, same) =
      >>=-eq-some (get_elem? t g) (λ (x : EntradaTabla). some (x.pid == pid && x.pagina == pagina))
        test in
    elim (Bool-cases b) [
      | inl yes_b ↦
          let found : g ≡ f =
            some-injective g f (some-injective (some g) (some f) (sym (rw yes_b refl) ∙ rest)) in
          (
            x,
            subst (λ i. get_elem? t i ≡ some x) found at,
            ground (arith, same, yes_b),
            ground (arith, same, yes_b),
          )
      | inr no_b ↦ buscar_en_lista-found t gs pid pagina f (sym (rw no_b refl) ∙ rest)
    ]

buscar_frame-found :
    (k : Config) (t : Marcos) (pid pagina f : ℕ)
    → buscar_frame k t pid pagina ≡ some (some f)
    → (e : EntradaTabla) × (get_elem? t.tabla f ≡ some e) × (e.pid ≡ pid) × (e.pagina ≡ pagina)
unfolding buscar_frame buscar_en_indice
buscar_frame-found k t pid pagina f e =
    let (h, place, rest) =
      >>=-eq-some (calcular_posicion k.marcos pid pagina) (λ h. buscar_en_indice t h pid pagina)
        e in
    let (fs, list, found) =
      >>=-eq-some (get_elem? t.hash_index h) (λ fs. buscar_en_lista t.tabla fs pid pagina) rest in
    buscar_en_lista-found t.tabla fs pid pagina f found

-- Two pages in one frame are the same.
pub buscar_frame-one :
    (k : Config) (t : Marcos) (p g q h f : ℕ)
    → buscar_frame k t p g ≡ some (some f)
    → buscar_frame k t q h ≡ some (some f)
    → (p ≡ q) × (g ≡ h)
buscar_frame-one k t p g q h f a b =
    let (e, at, ep, eg) = buscar_frame-found k t p g f a in
    let (e', at', ep', eg') = buscar_frame-found k t q h f b in
    let same : e ≡ e' = some-injective e e' (sym at ∙ at') in
    (
      sym ep ∙ ap (λ (x : EntradaTabla). x.pid) same ∙ ep',
      sym eg ∙ ap (λ (x : EntradaTabla). x.pagina) same ∙ eg',
    )

plus_one : (a b : ℕ) → (a + 1) * b ≡ a * b + b
plus_one a b = omega arith

frame_below : (f g size : ℕ) → g < f → g * size + size ≤ f * size
frame_below zero g size l = absurd (omega arith)
frame_below (suc f) g size l = elim (ℕ_discrete g f) [
  | yes same ↦ rw same (omega (arith, plus_one f size))
  | no ne ↦ omega (arith, frame_below f g size (omega (arith, ne)), plus_one f size)
]

write_outside :
    (m : Bytes) (b : ℕ) (xs : List ℕ) (x : ℕ) → (x < b) ⊎ (b + length xs ≤ x) → write m b xs x ≡ m x
unfolding write
write_outside m b xs x o = ground (arith, o)

-- The bytes of another frame stay.
pub other_frame :
    (m : Bytes) (f g size offset : ℕ) (xs : List ℕ)
    → g ≢ f
    → offset + length xs ≤ size
    → read (write m (f * size + offset) xs) (g * size) size ≡ read m (g * size) size
other_frame m f g size offset xs n fits =
    read_congr (write m (f * size + offset) xs) m (g * size) (g * size) size (λ k x y lt ex ey.
      write_outside m (f * size + offset) xs x (away k x lt ex) ∙ ap m (ex ∙ sym ey))
  where
    away :
        (k x : ℕ)
        → k < size
        → x ≡ g * size + k
        → (x < f * size + offset) ⊎ (f * size + offset + length xs ≤ x)
    away k x lt ex = elim (dec_lt g f) [
      | yes below ↦ inl (omega (arith, frame_below f g size below))
      | no above ↦ inr (omega (arith, frame_below g f size (omega (arith, n, above))))
    ]

-- The bytes of the frame that is written
pub this_frame :
    (m : Bytes) (a size offset : ℕ) (xs contenido : List ℕ)
    → offset + length xs ≤ size
    → contenido ≡ read m a size
    → take offset contenido ++ (xs ++ drop (offset + length xs) contenido)
      ≡ read (write m (a + offset) xs) a size
this_frame m a size offset xs contenido fits e =
    let m' = write m (a + offset) xs in
    let n = length xs in
    let first : take offset contenido ≡ read m' a offset =
      ap (take offset) e
      ∙ take-read m a offset size (omega arith)
      ∙ sym (
          read_congr m' m a a offset (λ k x y lt ex ey.
            write_outside m (a + offset) xs x (inl (omega arith)) ∙ ap m (ex ∙ sym ey))) in
    let middle : xs ≡ read m' (a + offset) n = sym (read-write m (a + offset) xs n refl) in
    let last : drop (offset + n) contenido ≡ read m' (a + offset + n) (size - (offset + n)) =
      ap (drop (offset + n)) e
      ∙ drop-read m a (offset + n) size fits
      ∙ sym (
          read_congr m' m (a + offset + n) (a + (offset + n)) (size - (offset + n))
            (λ k x y lt ex ey.
              write_outside m (a + offset) xs x (inr (omega arith)) ∙ ap m (omega arith))) in
    ap (λ t. t ++ (xs ++ drop (offset + n) contenido)) first
    ∙ ap (λ t. read m' a offset ++ (t ++ drop (offset + n) contenido)) middle
    ∙ ap (λ t. read m' a offset ++ (read m' (a + offset) n ++ t)) last
    ∙ ap (λ t. read m' a offset ++ t) (read-append m' (a + offset) n (size - (offset + n)))
    ∙ read-append m' a offset (n + (size - (offset + n)))
    ∙ read_place m' a a (offset + (n + (size - (offset + n)))) size refl (omega arith)
