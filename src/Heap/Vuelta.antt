-- ===== src/Heap/Vuelta.antt =====
-- The part of `liberar` of Memoria/Memoria.c on a page, alone and after `buscar_espacio_libre`.
use tp_so_2017_twt.Prelude.{
  ℕ, ◌+◌, ◌-◌, ◌^◌, ◌≤◌, ◌<◌, ◌≡◌, ap, ◌∙◌, true, some, List, [], ◌∷◌, arith, inl, inr, ◌⊎◌,
}
use tp_so_2017_twt.Heap.Defs.{Bytes, leer_free, poner_free, buscar_espacio_libre, liberar}
use tp_so_2017_twt.Heap.Cabecera.{
  poner_free-away, leer_size_congr, leer_free_congr, leer_free-poner_free,
}
use tp_so_2017_twt.Heap.Trozos.{
  Trozo, Tiles, IsUsed, usado, hueco, partir, partir_cases, partir-le, soltar, soltar_here,
  soltar_further, juntar, juntar-IsJoined, IsJoined, juntar-soltar-partir,
}
use tp_so_2017_twt.Heap.Reparto.{Tiles-cast, Tiles-same, IsPartido, buscar_espacio_libre-IsPartido}
use tp_so_2017_twt.Heap.Limpieza.{IsUsed-le, IsUsed-cast, clean_heap-IsLimpio}

-- A block begins `p` bytes after the first header does.
abbrev pub IsTrozo : ℕ → List Trozo → Type 0
IsTrozo p [] = ⊥
IsTrozo p (t ∷ ts) = (p ≡ 5) ⊎ ((o : ℕ) × (p ≡ 5 + t.size + o) × (5 ≤ o) × IsTrozo o ts)

pub partir-IsTrozo :
    (espacio : ℕ) (ts : List Trozo) (o : ℕ) (ts' : List Trozo)
    → partir espacio ts ≡ some (o, ts')
    → IsTrozo o ts'
unfolding partir
partir-IsTrozo espacio [] o ts' e = absurd (ground arith)
partir-IsTrozo espacio (t ∷ ts) o ts' e = elim (partir_cases espacio t ts o ts' e) [
  | inl (free, fits, at, is) ↦ rw is (inl at)
  | inr (o₁, ts₁, found, at, is) ↦
      rw is
        (inr (o₁, at, partir-le espacio ts o₁ ts₁ found, partir-IsTrozo espacio ts o₁ ts₁ found))
]

-- To mark a block as free changes its block of the list.
poner_free-Tiles :
    (m : Bytes) (a fin p h : ℕ) (ts : List Trozo)
    → Tiles m a fin ts
    → IsTrozo p ts
    → h + 5 ≡ a + p
    → Tiles (poner_free m h true) a fin (soltar p ts)
poner_free-Tiles m a fin p h [] tiles at e = absurd at
poner_free-Tiles m a fin p h (t ∷ ts) tiles (inl at) e =
    let same : a ≡ h = omega arith in
    rw (at, soltar_here t ts)
      (
        leer_size_congr m (poner_free m h true) a
              (λ x lo hi. poner_free-away m h x true (λ s. absurd (omega arith)))
            ∙ tiles.0,
        ap (λ k. leer_free (poner_free m h true) k) same ∙ leer_free-poner_free m h true,
        Tiles-same m (poner_free m h true) (a + 5 + t.size) fin ts
            (λ x lo hi. poner_free-away m h x true (λ s. absurd (omega arith))) tiles.2,
      )
poner_free-Tiles m a fin p h (t ∷ ts) tiles (inr (o, at, le, rest)) e =
    rw (at, soltar_further o t ts le)
      (
        leer_size_congr m (poner_free m h true) a
              (λ x lo hi. poner_free-away m h x true (λ s. absurd (omega arith)))
            ∙ tiles.0,
        leer_free_congr m (poner_free m h true) a
              (poner_free-away m h (a + 4) true (λ s. absurd (omega arith)))
            ∙ tiles.1,
        poner_free-Tiles m (a + 5 + t.size) fin o h ts tiles.2 rest (omega arith),
      )

-- A header is not in a block in use.
used_away :
    (a p x : ℕ) (ts : List Trozo)
    → IsTrozo p ts
    → IsUsed a (soltar p ts) x
    → (x + 5 < a + p) ⊎ (a + p ≤ x)
used_away a p x [] at u = absurd at
used_away a p x (t ∷ ts) (inl at) u = inr (omega (arith, IsUsed-le a (soltar p (t ∷ ts)) x u))
used_away a p x (t ∷ ts) (inr (o, at, le, rest)) u =
    go (rw (at, soltar_further o t ts le) at u)
      (λ later. used_away (a + 5 + t.size) o x ts rest later)
  where
    go :
        IsUsed a (t ∷ soltar o ts) x
        → (IsUsed (a + 5 + t.size) (soltar o ts) x
            → (x + 5 < a + 5 + t.size + o) ⊎ (a + 5 + t.size + o ≤ x))
        → (x + 5 < a + p) ⊎ (a + p ≤ x)
    go (inl own) later_away = inl (omega (arith, own.2))
    go (inr later) later_away = ground (arith, later_away later)

module _ (marco_size direccion : ℕ) (small : marco_size < 2 ^ 32) where
  -- In a page of less than 2^32 bytes that consists of blocks, one of which begins at `p`,
  -- `liberar` ends: the page then consists of the blocks with that one free and free neighbours
  -- joined, no two free blocks touch, the bytes of the other blocks in use are as they were, and
  -- so are those outside the page.
  pub liberar-IsLimpio :
      (m : Bytes) (ts : List Trozo) (p : ℕ)
      → Tiles m direccion (direccion + marco_size) ts
      → IsTrozo p ts
      → 5 ≤ p
      → p ≤ marco_size
      → (m' : Bytes) × (liberar marco_size direccion p m ≡ some m')
        × Tiles m' direccion (direccion + marco_size) (juntar (soltar p ts))
        × IsJoined (juntar (soltar p ts))
        × ((x : ℕ) → IsUsed direccion (soltar p ts) x → m' x ≡ m x)
        × ((x : ℕ) → (x < direccion) ⊎ (direccion + marco_size ≤ x) → m' x ≡ m x)
  unfolding liberar
  liberar-IsLimpio m ts p h at le inside =
      let head = direccion + p - 5 in
      let m₁ = poner_free m head true in
      let tiles =
        poner_free-Tiles m direccion (direccion + marco_size) p head ts h at (omega arith) in
      let (m', run, r) = clean_heap-IsLimpio marco_size direccion small m₁ (soltar p ts) tiles in
      (
        m',
        run,
        Tiles-cast m' (direccion + 0) direccion _ (juntar (soltar p ts)) (omega arith) r.tiles,
        juntar-IsJoined (soltar p ts),
        λ x u.
            r.used x (IsUsed-cast direccion (direccion + 0) (soltar p ts) x (omega arith) u)
            ∙ poner_free-away m head x true (λ s. ground (arith, used_away direccion p x ts at u)),
        λ x out. r.outside x (ground arith) ∙ poner_free-away m head x true (λ s. ground arith),
      )

-- A block in use is in use as well after a split whose block is given back, and not where it wrote.
IsUsed-partir :
    (espacio a x o : ℕ) (ts ts' : List Trozo)
    → partir espacio ts ≡ some (o, ts')
    → IsUsed a ts x
    → IsUsed a (soltar o ts') x × ((x + 5 < a + o) ⊎ (a + o + espacio + 5 ≤ x))
unfolding partir
IsUsed-partir espacio a x o [] ts' e u = absurd u
IsUsed-partir espacio a x o (t ∷ ts) ts' e u = elim (partir_cases espacio t ts o ts' e) [
  | inl (free, fits, at, is) ↦
      rw (at, is, soltar_here (usado espacio) (hueco (t.size - (espacio + 5)) ∷ ts))
        (here free fits u)
  | inr (o₁, ts₁, found, at, is) ↦
      rw (at, is, soltar_further o₁ t ts₁ (partir-le espacio ts o₁ ts₁ found))
        (further o₁ ts₁ found u
          (λ later. IsUsed-partir espacio (a + 5 + t.size) x o₁ ts ts₁ found later))
]
  where
    here :
        t.free ≡ true
        → espacio + 5 ≤ t.size
        → IsUsed a (t ∷ ts) x
        → IsUsed a (hueco espacio ∷ hueco (t.size - (espacio + 5)) ∷ ts) x
          × ((x + 5 < a + 5) ⊎ (a + 5 + espacio + 5 ≤ x))
    here free fits (inl own) = absurd (ground arith)
    here free fits (inr later) = (
      inr (inr (IsUsed-cast _ _ ts x (omega arith) later)),
      inr (omega (arith, IsUsed-le (a + 5 + t.size) ts x later)),
    )

    further :
        (o₁ : ℕ) (ts₁ : List Trozo)
        → partir espacio ts ≡ some (o₁, ts₁)
        → IsUsed a (t ∷ ts) x
        → (IsUsed (a + 5 + t.size) ts x
            → IsUsed (a + 5 + t.size) (soltar o₁ ts₁) x
              × ((x + 5 < a + 5 + t.size + o₁) ⊎ (a + 5 + t.size + o₁ + espacio + 5 ≤ x)))
        → IsUsed a (t ∷ soltar o₁ ts₁) x
          × ((x + 5 < a + (5 + t.size + o₁)) ⊎ (a + (5 + t.size + o₁) + espacio + 5 ≤ x))
    further o₁ ts₁ found (inl own) later_away =
        (inl own, inl (omega (arith, own.2, partir-le espacio ts o₁ ts₁ found)))
    further o₁ ts₁ found (inr later) later_away =
        let (still, away) = later_away later in (inr still, ground (arith, away))

module _ (marco_size direccion espacio : ℕ) (small : marco_size < 2 ^ 32) where
  -- In a page of less than 2^32 bytes that consists of blocks, no two free ones of which touch, if
  -- the first free block of at least 5 bytes more than are asked for is at `p`, then
  -- `buscar_espacio_libre` answers `p`, and `liberar` of `p` ends and leaves the page with the
  -- same blocks as before, and the bytes of the blocks in use as they were.
  pub liberar-buscar_espacio_libre :
      (m : Bytes) (ts : List Trozo) (p : ℕ) (ts' : List Trozo)
      → Tiles m direccion (direccion + marco_size) ts
      → IsJoined ts
      → partir espacio ts ≡ some (p, ts')
      → (m₁ : Bytes) × (m₂ : Bytes) × (buscar_espacio_libre marco_size espacio direccion m
          ≡ some (some p, m₁))
        × (liberar marco_size direccion p m₁ ≡ some m₂)
        × Tiles m₂ direccion (direccion + marco_size) ts
        × ((x : ℕ) → IsUsed direccion ts x → m₂ x ≡ m x)
  liberar-buscar_espacio_libre m ts p ts' h j e =
      elim (buscar_espacio_libre-IsPartido marco_size espacio direccion small m ts h) [
        | inl (q, m₁, run, le, r) ↦ given q m₁ run le r
        | inr (run, missing) ↦ absurd (ground (arith, missing))
      ]
    where
      given :
          (q : ℕ) (m₁ : Bytes)
          → buscar_espacio_libre marco_size espacio direccion m ≡ some (some q, m₁)
          → 5 ≤ q
          → IsPartido marco_size espacio direccion m 0 ts q m₁
          → (m₁ : Bytes) × (m₂ : Bytes) × (buscar_espacio_libre marco_size espacio direccion m
              ≡ some (some p, m₁))
            × (liberar marco_size direccion p m₁ ≡ some m₂)
            × Tiles m₂ direccion (direccion + marco_size) ts
            × ((x : ℕ) → IsUsed direccion ts x → m₂ x ≡ m x)
      given q m₁ run le r =
          let same : q ≡ p = ground (arith, r.spec) in
          let list : r.trozos ≡ ts' = ground (arith, r.spec) in
          let (m₂, freed, tiles, joined, used, outside) =
            liberar-IsLimpio marco_size direccion small m₁ ts' p
              (Tiles-cast m₁ (direccion + 0) direccion _ ts' (omega arith) (rw list at r.tiles))
              (partir-IsTrozo espacio ts p ts' e) (omega arith) (omega (arith, r.inside)) in
          (
            m₁,
            m₂,
            run ∙ ap (λ k. some (some k, m₁)) same,
            freed,
            rw (juntar-soltar-partir espacio p ts ts' j e) at tiles,
            λ x u.
                let (still, away) = IsUsed-partir espacio direccion x p ts ts' e u in
                used x still ∙ r.kept x (ground arith),
          )
