-- ===== src/Heap/Trozos.antt =====
-- The heap of a page as the list of its blocks, with the counterparts of `buscar_espacio_libre`,
-- `clean_heap` and `liberar` of Memoria/Memoria.c on that list.
use tp_so_2017_twt.Prelude.{
  ℕ, ◌+◌, ◌-◌, ◌*◌, ◌≤◌, ◌<◌, ◌≡◌, refl, ap, ◌∙◌, Bool, true, false, ◌&&◌, Option, none, some,
  Option-cases, List, [], ◌∷◌, arith, leb, ltb, if◌then◌else◌, Bool-cases, inl, inr, ◌⊎◌, length,
}
use tp_so_2017_twt.Heap.Defs.{Bytes, leer_size, leer_free}

-- A block: the bytes that it holds, and whether it is free
pub record Trozo : Type 0 where
  pub size : ℕ
  pub free : Bool

-- The bytes from `a` to `fin` are the blocks `ts`, each behind its header.
abbrev pub Tiles : Bytes → ℕ → ℕ → List Trozo → Type 0
Tiles m a fin [] = a ≡ fin
Tiles m a fin (t ∷ ts) =
    (leer_size m a ≡ t.size) × (leer_free m a ≡ t.free) × Tiles m (a + 5 + t.size) fin ts

pub Tiles-le :
    (m : Bytes) (a fin : ℕ) (ts : List Trozo) → Tiles m a fin ts → a + 5 * length ts ≤ fin
Tiles-le m a fin [] h = omega arith
Tiles-le m a fin (t ∷ ts) h = omega (arith, Tiles-le m (a + 5 + t.size) fin ts h.2)

-- A byte in a block that is in use
abbrev pub IsUsed : ℕ → List Trozo → ℕ → Type 0
IsUsed a [] x = ⊥
IsUsed a (t ∷ ts) x =
    ((t.free ≡ false) × (a + 5 ≤ x) × (x < a + 5 + t.size)) ⊎ IsUsed (a + 5 + t.size) ts x

abbrev pub usado : ℕ → Trozo
usado n = record { size = n; free = false }

abbrev pub hueco : ℕ → Trozo
hueco n = record { size = n; free = true }

abbrev pub after : Trozo → Option (ℕ × List Trozo) → Option (ℕ × List Trozo)
after t none = none
after t (some (o, ts)) = some (5 + t.size + o, t ∷ ts)

-- First fit: where the block begins, from the begin of the first header on, and the blocks then
unfoldable pub partir : ℕ → List Trozo → Option (ℕ × List Trozo)
partir espacio [] = none
partir espacio (t ∷ ts) =
    let rest = partir espacio ts in
    if t.free && leb (espacio + 5) t.size
    then some (5, usado espacio ∷ hueco (t.size - (espacio + 5)) ∷ ts)
    else after t rest

-- The block that begins `o` bytes after the first header begins is free.
unfoldable pub soltar : ℕ → List Trozo → List Trozo
soltar o [] = []
soltar o (t ∷ ts) =
    let rest = soltar (o - (5 + t.size)) ts in if ltb 5 o then t ∷ rest else hueco t.size ∷ ts

-- `t` and what follows, with free blocks that touch made one
unfoldable pub juntar_con : Trozo → List Trozo → List Trozo
juntar_con t [] = t ∷ []
juntar_con t (u ∷ us) =
    let merged = juntar_con (hueco (t.size + u.size + 5)) us in
    let rest = juntar_con u us in if t.free && u.free then merged else t ∷ rest

unfoldable pub juntar : List Trozo → List Trozo
unfolding juntar_con
juntar [] = []
juntar (t ∷ ts) = juntar_con t ts

-- No two free blocks touch.
abbrev pub IsJoined : List Trozo → Type 0
IsJoined [] = Unit
IsJoined (t ∷ []) = Unit
IsJoined (t ∷ u ∷ us) = ((t.free && u.free) ≡ false) × IsJoined (u ∷ us)

first_free : List Trozo → Bool
first_free [] = false
first_free (t ∷ ts) = t.free

juntar_con-IsJoined :
    (t : Trozo) (us : List Trozo)
    → IsJoined (juntar_con t us)
      × ((u : Trozo) → (u.free && t.free) ≡ false → IsJoined (u ∷ juntar_con t us))
unfolding juntar_con
juntar_con-IsJoined t [] = (tt, λ u h. (h, tt))
juntar_con-IsJoined t (u ∷ us) = elim (Bool-cases (t.free && u.free)) [
  | inl both ↦
      let (joined, before) = juntar_con-IsJoined (hueco (t.size + u.size + 5)) us in
      (rw both joined, λ w h. rw both (before w (ground arith)))
  | inr apart ↦
      let (joined, before) = juntar_con-IsJoined u us in
      (rw apart (before t apart), λ w h. rw apart (h, before t apart))
]

pub juntar-IsJoined : (ts : List Trozo) → IsJoined (juntar ts)
unfolding juntar
juntar-IsJoined [] = tt
juntar-IsJoined (t ∷ ts) = (juntar_con-IsJoined t ts).0

-- Where no free blocks touch, there is nothing to join.
pub juntar_con_joined : (t : Trozo) (us : List Trozo) → IsJoined (t ∷ us) → juntar_con t us ≡ t ∷ us
unfolding juntar_con
juntar_con_joined t [] h = refl
juntar_con_joined t (u ∷ us) h = rw h.0 (ap (λ ws. t ∷ ws) (juntar_con_joined u us h.1))

pub partir_cases :
    (espacio : ℕ) (t : Trozo) (ts : List Trozo) (o : ℕ) (ts' : List Trozo)
    → partir espacio (t ∷ ts) ≡ some (o, ts')
    → ((t.free ≡ true)
        × (espacio + 5 ≤ t.size)
        × (o ≡ 5)
        × (ts' ≡ usado espacio ∷ hueco (t.size - (espacio + 5)) ∷ ts))
      ⊎ ((o₁ : ℕ) × (ts₁ : List Trozo) × (partir espacio ts ≡ some (o₁, ts₁))
          × (o ≡ 5 + t.size + o₁)
          × (ts' ≡ t ∷ ts₁))
unfolding partir
partir_cases espacio t ts o ts' e = elim (Bool-cases (t.free && leb (espacio + 5) t.size)) [
  | inl fits ↦ inl (ground arith, ground arith, ground arith, ground arith)
  | inr other ↦ elim (Option-cases (partir espacio ts)) [
    | inl missing ↦ absurd (ground (arith, missing))
    | inr ((o₁, ts₁), found) ↦ inr (o₁, ts₁, found, ground (arith, found), ground (arith, found))
  ]
]

pub partir-le :
    (espacio : ℕ) (ts : List Trozo) (o : ℕ) (ts' : List Trozo)
    → partir espacio ts ≡ some (o, ts')
    → 5 ≤ o
unfolding partir
partir-le espacio [] o ts' e = absurd (ground arith)
partir-le espacio (t ∷ ts) o ts' e = elim (partir_cases espacio t ts o ts' e) [
  | inl (free, fits, at, is) ↦ omega arith
  | inr (o₁, ts₁, found, at, is) ↦ omega (arith, partir-le espacio ts o₁ ts₁ found)
]

pub soltar_here : (t : Trozo) (ts : List Trozo) → soltar 5 (t ∷ ts) ≡ hueco t.size ∷ ts
unfolding soltar
soltar_here t ts = refl

pub soltar_further :
    (o : ℕ) (t : Trozo) (ts : List Trozo)
    → 5 ≤ o
    → soltar (5 + t.size + o) (t ∷ ts) ≡ t ∷ soltar o ts
unfolding soltar
soltar_further o t ts h = rw (same (5 + t.size + o - (5 + t.size)) (omega arith)) (ground arith)
  where
    same : (k : ℕ) → k ≡ o → soltar k ts ≡ soltar o ts
    same k e = rw e refl

first_free-soltar-partir :
    (espacio o : ℕ) (ts ts' : List Trozo)
    → partir espacio ts ≡ some (o, ts')
    → first_free (soltar o ts') ≡ first_free ts
unfolding partir first_free
first_free-soltar-partir espacio o [] ts' e = absurd (ground arith)
first_free-soltar-partir espacio o (t ∷ ts) ts' e = elim (partir_cases espacio t ts o ts' e) [
  | inl (free, fits, at, is) ↦
      rw (at, is, soltar_here (usado espacio) (hueco (t.size - (espacio + 5)) ∷ ts), free) refl
  | inr (o₁, ts₁, found, at, is) ↦
      rw (at, is, soltar_further o₁ t ts₁ (partir-le espacio ts o₁ ts₁ found)) refl
]

IsJoined-tail :
    (t : Trozo) (ts : List Trozo)
    → IsJoined (t ∷ ts)
    → ((t.free && first_free ts) ≡ false) × IsJoined ts
unfolding first_free
IsJoined-tail t [] h = (ground arith, tt)
IsJoined-tail t (u ∷ us) h = h

juntar_con_apart :
    (t : Trozo) (us : List Trozo)
    → (t.free && first_free us) ≡ false
    → juntar_con t us ≡ t ∷ juntar us
unfolding juntar juntar_con first_free
juntar_con_apart t [] h = refl
juntar_con_apart t (u ∷ us) h = rw h refl

-- A block that is split off and given back at once leaves the blocks as they were.
pub juntar-soltar-partir :
    (espacio o : ℕ) (ts ts' : List Trozo)
    → IsJoined ts
    → partir espacio ts ≡ some (o, ts')
    → juntar (soltar o ts') ≡ ts
unfolding juntar partir juntar_con
juntar-soltar-partir espacio o [] ts' j e = absurd (ground arith)
juntar-soltar-partir espacio o (t ∷ ts) ts' j e = elim (partir_cases espacio t ts o ts' e) [
  | inl (free, fits, at, is) ↦
      rw (at, is, soltar_here (usado espacio) (hueco (t.size - (espacio + 5)) ∷ ts))
        (whole (espacio + (t.size - (espacio + 5)) + 5) (omega arith) free)
  | inr (o₁, ts₁, found, at, is) ↦
      let (apart, rest) = IsJoined-tail t ts j in
      rw (at, is, soltar_further o₁ t ts₁ (partir-le espacio ts o₁ ts₁ found))
        (juntar_con_apart t (soltar o₁ ts₁)
            (rw (first_free-soltar-partir espacio o₁ ts ts₁ found) apart)
          ∙ ap (λ ws. t ∷ ws) (juntar-soltar-partir espacio o₁ ts ts₁ rest found))
]
  where
    whole : (n : ℕ) → n ≡ t.size → t.free ≡ true → juntar_con (hueco n) ts ≡ t ∷ ts
    whole n e free =
        let same : hueco n ≡ t = rw (e, ← free) refl in rw same (juntar_con_joined t ts j)
