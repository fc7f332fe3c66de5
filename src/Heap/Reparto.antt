-- ===== src/Heap/Reparto.antt =====
-- The bytes that `buscar_espacio_libre` of Memoria/Memoria.c writes.
use tp_so_2017_twt.Prelude.{
  ℕ, zero, suc, ◌+◌, ◌-◌, ◌*◌, ◌^◌, ◌≤◌, ◌<◌, ◌≡◌, refl, ap, ◌∙◌, true, false, ◌&&◌, Option, none,
  some, List, [], ◌∷◌, arith, leb, Bool-cases, inl, inr, ◌⊎◌, length,
}
use tp_so_2017_twt.Heap.Defs.{
  Bytes, leer_size, leer_free, poner_size, poner_free, partir_en, buscar_desde,
  buscar_espacio_libre,
}
use tp_so_2017_twt.Heap.Cabecera.{
  poner_size-away, poner_free-away, leer_size_congr, leer_free_congr, leer_size-poner_size,
  leer_free-poner_free,
}
use tp_so_2017_twt.Heap.Trozos.{Trozo, Tiles, Tiles-le, usado, hueco, partir}

pub Tiles-cast :
    (m : Bytes) (a b fin : ℕ) (ts : List Trozo) → a ≡ b → Tiles m a fin ts → Tiles m b fin ts
Tiles-cast m a b fin ts e h = rw (← e) h

-- The blocks of bytes that have not changed
pub Tiles-same :
    (m m' : Bytes) (a fin : ℕ) (ts : List Trozo)
    → ((x : ℕ) → a ≤ x → x < fin → m' x ≡ m x)
    → Tiles m a fin ts
    → Tiles m' a fin ts
Tiles-same m m' a fin [] same h = h
Tiles-same m m' a fin (t ∷ ts) same h =
    let le = Tiles-le m (a + 5 + t.size) fin ts h.2 in
    (
      leer_size_congr m m' a (λ x lo hi. same x lo (omega arith)) ∙ h.0,
      leer_free_congr m m' a (same (a + 4) (omega arith) (omega arith)) ∙ h.1,
      Tiles-same m m' (a + 5 + t.size) fin ts (λ x lo hi. same x (omega arith) hi) h.2,
    )

-- The bytes that a split at the block `p` keeps: all but the two headers
abbrev pub Kept : Bytes → Bytes → ℕ → ℕ → Type 0
Kept m m' p espacio =
    (x : ℕ) → (x + 5 < p) ⊎ (((p ≤ x) × (x < p + espacio)) ⊎ (p + espacio + 5 ≤ x)) → m' x ≡ m x

module _ (m : Bytes) (a espacio : ℕ) where
  partir_en-away :
      (x : ℕ)
      → (x < a) ⊎ (((a + 5 ≤ x) × (x < a + 5 + espacio)) ⊎ (a + 10 + espacio ≤ x))
      → partir_en m a espacio x ≡ m x
  unfolding partir_en poner_size poner_free
  partir_en-away x h = ground arith

  partir_en-header :
      (leer_size m a < 2 ^ 32)
      → espacio + 5 ≤ leer_size m a
      → (leer_size (partir_en m a espacio) a ≡ espacio)
        × (leer_free (partir_en m a espacio) a ≡ false)
        × (leer_size (partir_en m a espacio) (a + 5 + espacio) ≡ leer_size m a - (espacio + 5))
        × (leer_free (partir_en m a espacio) (a + 5 + espacio) ≡ true)
  unfolding partir_en
  partir_en-header small fits =
      let aux = leer_size m a - (espacio + 5) in
      let b = a + 5 + espacio in
      let m₁ = poner_size (poner_free m a false) a espacio in
      let m₂ = poner_size m₁ b aux in
      (
        leer_size_congr m₁ (poner_free m₂ b true) a (λ x lo hi.
              poner_free-away m₂ b x true (λ t. absurd (omega arith))
              ∙ poner_size-away m₁ b aux x (inl (omega arith)))
            ∙ leer_size-poner_size (poner_free m a false) a espacio (omega arith),
        leer_free_congr (poner_free m a false) (poner_free m₂ b true) a (
              poner_free-away m₂ b (a + 4) true (λ t. absurd (omega arith))
              ∙ poner_size-away m₁ b aux (a + 4) (inl (omega arith))
              ∙ poner_size-away (poner_free m a false) a espacio (a + 4) (inr (omega arith)))
            ∙ leer_free-poner_free m a false,
        leer_size_congr m₂ (poner_free m₂ b true) b
              (λ x lo hi. poner_free-away m₂ b x true (λ t. absurd (omega arith)))
            ∙ leer_size-poner_size m₁ b aux (omega arith),
        leer_free-poner_free m₂ b true,
      )

module _ (marco_size espacio direccion : ℕ) where
  -- The state after a split in the blocks `ts` that begin at `c`
  pub record IsPartido (m : Bytes) (c : ℕ) (ts : List Trozo) (o : ℕ) (m' : Bytes) : Type 0 where
    pub trozos : List Trozo
    pub spec : partir espacio ts ≡ some (o, trozos)
    pub tiles : Tiles m' (direccion + c) (direccion + marco_size) trozos
    pub inside : c + o + espacio + 5 ≤ marco_size
    pub kept : Kept m m' (direccion + c + o) espacio

  module _ (small : marco_size < 2 ^ 32) where
    here-IsPartido :
        (m : Bytes) (c : ℕ) (t : Trozo) (ts : List Trozo)
        → Tiles m (direccion + c) (direccion + marco_size) (t ∷ ts)
        → t.free ≡ true
        → espacio + 5 ≤ t.size
        → IsPartido m c (t ∷ ts) 5 (partir_en m (direccion + c) espacio)
    unfolding partir
    here-IsPartido m c t ts h free fits =
        let le = Tiles-le m (direccion + c + 5 + t.size) (direccion + marco_size) ts h.2 in
        let (s₁, f₁, s₂, f₂) =
          partir_en-header m (direccion + c) espacio (omega (arith, h.0)) (omega (arith, h.0)) in
        record {
          trozos = usado espacio ∷ hueco (t.size - (espacio + 5)) ∷ ts;
          spec = ground arith;
          tiles = (
            s₁,
            f₁,
            (
              omega (arith, s₂, h.0),
              f₂,
              Tiles-cast (partir_en m (direccion + c) espacio) (direccion + c + 5 + t.size) _ _ ts
                  (omega arith)
                  (Tiles-same m (partir_en m (direccion + c) espacio) _ _ ts
                    (λ x lo hi.
                      partir_en-away m (direccion + c) espacio x (inr (inr (omega arith))))
                    h.2),
            ),
          );
          inside = omega arith;
          kept = λ x away. partir_en-away m (direccion + c) espacio x (ground arith);
        }

    later-IsPartido :
        (m : Bytes) (c : ℕ) (t : Trozo) (ts : List Trozo) (o : ℕ) (m' : Bytes)
        → Tiles m (direccion + c) (direccion + marco_size) (t ∷ ts)
        → (t.free && leb (espacio + 5) t.size) ≡ false
        → 5 ≤ o
        → IsPartido m (c + 5 + t.size) ts o m'
        → IsPartido m c (t ∷ ts) (5 + t.size + o) m'
    unfolding partir
    later-IsPartido m c t ts o m' h other le r =
        let keep : (x : ℕ) → x < direccion + c + 5 + t.size → m' x ≡ m x =
          λ x lt. r.kept x (inl (omega arith)) in
        record {
          trozos = t ∷ r.trozos;
          spec = rw (other, r.spec) refl;
          tiles = (
            leer_size_congr m m' (direccion + c) (λ x lo hi. keep x (omega arith)) ∙ h.0,
            leer_free_congr m m' (direccion + c) (keep (direccion + c + 4) (omega arith)) ∙ h.1,
            Tiles-cast m' _ _ _ r.trozos (omega arith) r.tiles,
          );
          inside = omega (arith, r.inside);
          kept = λ x away. r.kept x (ground arith);
        }

    buscar_desde-IsPartido :
        (fuel c : ℕ) (m : Bytes) (ts : List Trozo)
        → Tiles m (direccion + c) (direccion + marco_size) ts
        → length ts < fuel
        → ((o : ℕ) × (m' : Bytes) × (buscar_desde fuel marco_size espacio direccion m c
              ≡ some (some (c + o), m'))
            × (5 ≤ o)
            × IsPartido m c ts o m')
          ⊎ ((buscar_desde fuel marco_size espacio direccion m c ≡ some (none, m))
              × (partir espacio ts ≡ none))
    unfolding buscar_desde partir
    buscar_desde-IsPartido zero c m ts h enough = absurd (omega arith)
    buscar_desde-IsPartido (suc fuel) c m [] h enough = inr (ground arith, refl)
    buscar_desde-IsPartido (suc fuel) c m (t ∷ ts) h enough =
        let le = Tiles-le m (direccion + c + 5 + t.size) (direccion + marco_size) ts h.2 in
        elim (Bool-cases (t.free && leb (espacio + 5) t.size)) [
          | inl fits ↦ inl (
            5,
            partir_en m (direccion + c) espacio,
            ground (arith, h.0, h.1),
            omega arith,
            here-IsPartido m c t ts h (ground arith) (ground arith),
          )
          | inr other ↦
              let next = Tiles-cast m _ (direccion + (c + 5 + t.size)) _ ts (omega arith) h.2 in
              elim (buscar_desde-IsPartido fuel (c + 5 + t.size) m ts next (omega arith)) [
                | inl (o, m', run, le5, r) ↦ inl (
                  5 + t.size + o,
                  m',
                  skip m c t ts fuel (some (some (c + 5 + t.size + o), m'))
                      (some (some (c + (5 + t.size + o)), m')) h le other run
                      (ap (λ k. some (some k, m')) (omega arith)),
                  omega arith,
                  later-IsPartido m c t ts o m' h other le5 r,
                )
                | inr (run, missing) ↦ inr (
                  skip m c t ts fuel (some (none, m)) (some (none, m)) h le other run refl,
                  rw (other, missing) refl,
                )
              ]
        ]
      where
        skip :
            (m : Bytes) (c : ℕ) (t : Trozo) (ts : List Trozo) (fuel : ℕ)
            (r r' : Option (Option ℕ × Bytes))
            → Tiles m (direccion + c) (direccion + marco_size) (t ∷ ts)
            → direccion + c + 5 + t.size + 5 * length ts ≤ direccion + marco_size
            → (t.free && leb (espacio + 5) t.size) ≡ false
            → buscar_desde fuel marco_size espacio direccion m (c + 5 + t.size) ≡ r
            → r ≡ r'
            → buscar_desde (suc fuel) marco_size espacio direccion m c ≡ r'
        skip m c t ts fuel r r' h le other run e = rw (h.0, h.1, other) (ground (arith, run))

    -- In a page of less than 2^32 bytes that consists of blocks, `buscar_espacio_libre` ends.
    -- Either it answers where the first free block begins that has at least 5 bytes more than are
    -- asked for, and the page then consists of the blocks that `partir` gives, with that block
    -- split inside the page and only its two headers written; or no block is free and as big, and
    -- it answers -1 and changes nothing.
    pub buscar_espacio_libre-IsPartido :
        (m : Bytes) (ts : List Trozo)
        → Tiles m direccion (direccion + marco_size) ts
        → ((p : ℕ) × (m' : Bytes) × (buscar_espacio_libre marco_size espacio direccion m
              ≡ some (some p, m'))
            × (5 ≤ p)
            × IsPartido m 0 ts p m')
          ⊎ ((buscar_espacio_libre marco_size espacio direccion m ≡ some (none, m))
              × (partir espacio ts ≡ none))
    unfolding buscar_espacio_libre
    buscar_espacio_libre-IsPartido m ts h =
        let le = Tiles-le m direccion (direccion + marco_size) ts h in
        elim (buscar_desde-IsPartido (marco_size + 1) 0 m ts
          (Tiles-cast m direccion (direccion + 0) _ ts (omega arith) h) (omega arith)) [
            | inl (o, m', run, le5, r) ↦
                inl (o, m', run ∙ ap (λ k. some (some k, m')) (omega arith), le5, r)
            | inr missing ↦ inr missing
          ]
