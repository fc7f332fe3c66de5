-- ===== src/Heap/Limpieza.antt =====
-- The bytes that `clean_heap` of Memoria/Memoria.c writes.
use tp_so_2017_twt.Prelude.{
  ℕ, zero, suc, ◌+◌, ◌^◌, ◌≤◌, ◌<◌, ◌≡◌, refl, ◌∙◌, true, false, ◌&&◌, some, List, [], ◌∷◌, arith,
  Bool-cases, inl, inr, ◌⊎◌, length,
}
use tp_so_2017_twt.Heap.Defs.{Bytes, leer_size, leer_free, poner_size, limpiar_desde, clean_heap}
use tp_so_2017_twt.Heap.Cabecera.{
  poner_size-away, leer_size_congr, leer_free_congr, leer_size-poner_size,
}
use tp_so_2017_twt.Heap.Trozos.{Trozo, Tiles, Tiles-le, IsUsed, hueco, juntar, juntar_con}
use tp_so_2017_twt.Heap.Reparto.{Tiles-cast, Tiles-same}

pub IsUsed-le : (a : ℕ) (ts : List Trozo) (x : ℕ) → IsUsed a ts x → a + 5 ≤ x
IsUsed-le a [] x u = absurd u
IsUsed-le a (t ∷ ts) x (inl u) = u.1
IsUsed-le a (t ∷ ts) x (inr u) = omega (arith, IsUsed-le (a + 5 + t.size) ts x u)

pub IsUsed-cast : (a b : ℕ) (ts : List Trozo) (x : ℕ) → a ≡ b → IsUsed a ts x → IsUsed b ts x
IsUsed-cast a b ts x e h = rw (← e) h

module _ (marco_size direccion : ℕ) where
  -- The state after the blocks `ts` from `c` on have become `ts'`: the bytes before them, behind the
  -- page and in blocks in use are as they were.
  pub record IsLimpio (m : Bytes) (c : ℕ) (ts ts' : List Trozo) (m' : Bytes) : Type 0 where
    pub tiles : Tiles m' (direccion + c) (direccion + marco_size) ts'
    pub outside : (x : ℕ) → (x < direccion + c) ⊎ (direccion + marco_size ≤ x) → m' x ≡ m x
    pub used : (x : ℕ) → IsUsed (direccion + c) ts x → m' x ≡ m x

  module _ (small : marco_size < 2 ^ 32) where
    limpiar_end :
        (fuel c : ℕ) (m : Bytes)
        → 0 < fuel
        → marco_size ≤ c
        → limpiar_desde fuel marco_size direccion m c ≡ some m
    unfolding limpiar_desde
    limpiar_end zero c m h le = absurd (omega arith)
    limpiar_end (suc fuel) c m h le = ground arith

    limpiar_merge :
        (fuel c : ℕ) (m : Bytes) (size other : ℕ)
        → leer_size m (direccion + c) ≡ size
        → leer_free m (direccion + c) ≡ true
        → leer_size m (direccion + c + (size + 5)) ≡ other
        → leer_free m (direccion + c + (size + 5)) ≡ true
        → c + 5 + size < marco_size
        → limpiar_desde (suc fuel) marco_size direccion m c
          ≡ limpiar_desde fuel marco_size direccion
              (poner_size m (direccion + c) (size + other + 5))
              c
    unfolding limpiar_desde
    limpiar_merge fuel c m size other es ef eo eof lt = rw (es, ef, eo, eof) (ground arith)

    limpiar_pass :
        (fuel c : ℕ) (m : Bytes) (size : ℕ)
        → leer_size m (direccion + c) ≡ size
        → (leer_free m (direccion + c) && leer_free m (direccion + c + (size + 5))) ≡ false
        → c < marco_size
        → limpiar_desde (suc fuel) marco_size direccion m c
          ≡ limpiar_desde fuel marco_size direccion m (c + 5 + size)
    unfolding limpiar_desde
    limpiar_pass fuel c m size es apart lt = rw es (ground arith)

    next_header :
        (m : Bytes) (c : ℕ) (t u : Trozo) (us : List Trozo)
        → Tiles m (direccion + c) (direccion + marco_size) (t ∷ u ∷ us)
        → (leer_size m (direccion + c + (t.size + 5)) ≡ u.size)
          × (leer_free m (direccion + c + (t.size + 5)) ≡ u.free)
    next_header m c t u us h =
        let n =
          Tiles-cast m (direccion + c + 5 + t.size) (direccion + c + (t.size + 5)) _ (u ∷ us)
            (omega arith) h.2 in
        (n.0, n.1)

    -- The block that two free ones become
    merged-Tiles :
        (m : Bytes) (c : ℕ) (t u : Trozo) (us : List Trozo)
        → Tiles m (direccion + c) (direccion + marco_size) (t ∷ u ∷ us)
        → t.free ≡ true
        → Tiles
            (poner_size m (direccion + c) (t.size + u.size + 5))
            (direccion + c)
            (direccion + marco_size)
            (hueco (t.size + u.size + 5) ∷ us)
    merged-Tiles m c t u us h free =
        let le =
          Tiles-le m (direccion + c + 5 + t.size + 5 + u.size) (direccion + marco_size) us h.2.2 in
        let m₁ = poner_size m (direccion + c) (t.size + u.size + 5) in
        (
          leer_size-poner_size m (direccion + c) (t.size + u.size + 5) (omega arith),
          leer_free_congr m m₁ (direccion + c) (
                poner_size-away m (direccion + c) (t.size + u.size + 5) (direccion + c + 4)
                  (inr (omega arith)))
              ∙ h.1
              ∙ free,
          Tiles-cast m₁ (direccion + c + 5 + t.size + 5 + u.size) _ _ us (omega arith) (
              Tiles-same m m₁ (direccion + c + 5 + t.size + 5 + u.size) (direccion + marco_size) us
                (λ x lo hi.
                  poner_size-away m (direccion + c) (t.size + u.size + 5) x (inr (omega arith)))
                h.2.2),
        )

    merged-IsUsed :
        (a : ℕ) (t u : Trozo) (us : List Trozo) (x : ℕ)
        → t.free ≡ true
        → u.free ≡ true
        → IsUsed a (t ∷ u ∷ us) x
        → IsUsed a (hueco (t.size + u.size + 5) ∷ us) x
    merged-IsUsed a t u us x ft fu (inl h) = absurd (ground arith)
    merged-IsUsed a t u us x ft fu (inr (inl h)) = absurd (ground arith)
    merged-IsUsed a t u us x ft fu (inr (inr h)) = inr (IsUsed-cast _ _ us x (omega arith) h)

    merge-IsLimpio :
        (m : Bytes) (c : ℕ) (t u : Trozo) (us ts' : List Trozo) (m' : Bytes)
        → t.free ≡ true
        → u.free ≡ true
        → IsLimpio
            (poner_size m (direccion + c) (t.size + u.size + 5))
            c
            (hueco (t.size + u.size + 5) ∷ us)
            ts'
            m'
        → direccion + c + 5 ≤ direccion + marco_size
        → IsLimpio m c (t ∷ u ∷ us) ts' m'
    merge-IsLimpio m c t u us ts' m' ft fu r le = record {
      tiles = r.tiles;
      outside = λ x out.
          r.outside x out
          ∙ poner_size-away m (direccion + c) (t.size + u.size + 5) x (ground arith);
      used = λ x h.
          r.used x (merged-IsUsed (direccion + c) t u us x ft fu h)
          ∙ poner_size-away m (direccion + c) (t.size + u.size + 5) x
              (inr (omega (arith, IsUsed-le (direccion + c) (t ∷ u ∷ us) x h)));
    }

    pass-IsLimpio :
        (m : Bytes) (c : ℕ) (t : Trozo) (ts ts' : List Trozo) (m' : Bytes)
        → Tiles m (direccion + c) (direccion + marco_size) (t ∷ ts)
        → IsLimpio m (c + 5 + t.size) ts ts' m'
        → IsLimpio m c (t ∷ ts) (t ∷ ts') m'
    pass-IsLimpio m c t ts ts' m' h r =
        let keep : (x : ℕ) → x < direccion + c + 5 + t.size → m' x ≡ m x =
          λ x lt. r.outside x (inl (omega arith)) in
        record {
          tiles = (
            leer_size_congr m m' (direccion + c) (λ x lo hi. keep x (omega arith)) ∙ h.0,
            leer_free_congr m m' (direccion + c) (keep (direccion + c + 4) (omega arith)) ∙ h.1,
            Tiles-cast m' _ _ _ ts' (omega arith) r.tiles,
          );
          outside = λ x out. r.outside x (ground arith);
          used = λ x h. go x h;
        }
      where
        go : (x : ℕ) → IsUsed (direccion + c) (t ∷ ts) x → m' x ≡ m x
        go x (inl u) = r.outside x (inl (omega (arith, u.2)))
        go x (inr u) = r.used x (IsUsed-cast _ _ ts x (omega arith) u)

    limpiar_desde-IsLimpio :
        (fuel c : ℕ) (m : Bytes) (t : Trozo) (us : List Trozo)
        → Tiles m (direccion + c) (direccion + marco_size) (t ∷ us)
        → length us + 1 < fuel
        → (m' : Bytes) × (limpiar_desde fuel marco_size direccion m c ≡ some m')
          × IsLimpio m c (t ∷ us) (juntar_con t us) m'
    unfolding limpiar_desde juntar_con
    limpiar_desde-IsLimpio zero c m t us h enough = absurd (omega arith)
    limpiar_desde-IsLimpio (suc fuel) c m t [] h enough =
        let e : c + 5 + leer_size m (direccion + c) ≡ marco_size = omega (arith, h.0, h.2) in
        (
          m,
          ground (arith, limpiar_end fuel (c + 5 + leer_size m (direccion + c)) m),
          record { tiles = h; outside = λ x out. refl; used = λ x u. refl },
        )
    limpiar_desde-IsLimpio (suc fuel) c m t (u ∷ us) h enough =
        let le =
          Tiles-le m (direccion + c + 5 + t.size + 5 + u.size) (direccion + marco_size) us h.2.2 in
        let next = next_header m c t u us h in
        elim (Bool-cases (t.free && u.free)) [
          | inl both ↦
              let (m', run, r) =
                limpiar_desde-IsLimpio fuel c _ (hueco (t.size + u.size + 5)) us
                  (merged-Tiles m c t u us h (ground arith)) (omega arith) in
              (
                m',
                limpiar_merge fuel c m t.size u.size h.0 (h.1 ∙ ground arith) next.0
                      (next.1 ∙ ground arith) (omega arith)
                    ∙ run,
                rw both
                    (merge-IsLimpio m c t u us _ m' (ground arith) (ground arith) r (omega arith)),
              )
          | inr apart ↦
              let (m', run, r) =
                limpiar_desde-IsLimpio fuel (c + 5 + t.size) m u us
                  (Tiles-cast m _ _ _ (u ∷ us) (omega arith) h.2) (omega arith) in
              (
                m',
                limpiar_pass fuel c m t.size h.0 (rw (h.1, next.1) apart) (omega arith) ∙ run,
                rw apart (pass-IsLimpio m c t (u ∷ us) _ m' h r),
              )
        ]

    -- In a page of less than 2^32 bytes that consists of blocks, `clean_heap` ends: the page then
    -- consists of the blocks with free neighbours joined, and the bytes of the blocks in use and
    -- those outside the page are as they were.
    pub clean_heap-IsLimpio :
        (m : Bytes) (ts : List Trozo)
        → Tiles m direccion (direccion + marco_size) ts
        → (m' : Bytes) × (clean_heap marco_size direccion m ≡ some m')
          × IsLimpio m 0 ts (juntar ts) m'
    unfolding clean_heap juntar
    clean_heap-IsLimpio m [] h = (
      m,
      limpiar_end (marco_size + 1) 0 m (omega arith) (omega arith),
      record { tiles = omega arith; outside = λ x out. refl; used = λ x u. refl },
    )
    clean_heap-IsLimpio m (t ∷ ts) h =
        let le = Tiles-le m (direccion + 5 + t.size) (direccion + marco_size) ts h.2 in
        limpiar_desde-IsLimpio (marco_size + 1) 0 m t ts
          (Tiles-cast m direccion (direccion + 0) _ (t ∷ ts) (omega arith) h) (omega arith)
