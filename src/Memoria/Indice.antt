-- ===== src/Memoria/Indice.antt =====
-- The invariant between the page table and the hash index of Memoria/Memoria.c, the scans for a free
-- frame, and the lists of the index.
use tp_so_2017_twt.Prelude.{
  ℕ, zero, suc, ◌+◌, ◌-◌, ◌≤◌, ◌<◌, ◌≡◌, ◌≢◌, refl, ap, Bool, true, false, ◌&&◌, not, none, some,
  List, [], ◌∷◌, ◌++◌, arith, ◌==◌, if◌then◌else◌, length, get_elem?, ◌>>=◌, Bool-cases, inl, inr,
  ◌⊎◌, get_elem?-lt-some, get_elem?-some-lt, count_if_pos, ℕ_discrete,
}
use tp_so_2017_twt.Memoria.Defs.{
  EntradaTabla, libre, de_admin, Marcos, marcos_libres, calcular_posicion, quitar, libre_desde,
  buscar_libre,
}

-- How often a frame stands in a list
unfoldable pub cuenta : ℕ → List ℕ → ℕ
cuenta f [] = 0
cuenta f (x ∷ xs) = (if f == x then 1 else 0) + cuenta f xs

abbrev pub es_proceso : EntradaTabla → Bool
es_proceso e = not (e.pid == libre) && not (e.pid == de_admin)

unfoldable pub en_posicion : ℕ → EntradaTabla → ℕ → Bool
en_posicion marcos e h = elim (calcular_posicion marcos e.pid e.pagina) [
  | none ↦ false
  | some k ↦ k == h
]

-- How often a frame with entry `e` stands in the list `h`
unfoldable pub esperada : ℕ → EntradaTabla → ℕ → ℕ
unfolding en_posicion
esperada marcos e h = if es_proceso e && en_posicion marcos e h then 1 else 0

pub record IsCoherent (marcos : ℕ) (m : Marcos) : Type 0 where
  pub frames : length m.tabla ≡ marcos
  pub listas : length m.hash_index ≡ marcos
  pub numbered : (i : ℕ) (e : EntradaTabla) → get_elem? m.tabla i ≡ some e → e.frame ≡ i
  pub placed :
      (i : ℕ) (e : EntradaTabla)
      → get_elem? m.tabla i ≡ some e
      → es_proceso e ≡ true
      → (h : ℕ) × (calcular_posicion marcos e.pid e.pagina ≡ some h)
  pub indexed :
      (i : ℕ) (e : EntradaTabla) (h : ℕ) (fs : List ℕ)
      → get_elem? m.tabla i ≡ some e
      → get_elem? m.hash_index h ≡ some fs
      → cuenta i fs ≡ esperada marcos e h
  pub known :
      (i h : ℕ) (fs : List ℕ) → marcos ≤ i → get_elem? m.hash_index h ≡ some fs → cuenta i fs ≡ 0

pub cuenta-append_one :
    (f : ℕ) (xs : List ℕ) (g : ℕ)
    → cuenta f (xs ++ (g ∷ [])) ≡ cuenta f xs + (if f == g then 1 else 0)
unfolding cuenta
cuenta-append_one f [] g = omega arith
cuenta-append_one f (x ∷ xs) g = omega (arith, cuenta-append_one f xs g)

-- `quitar` takes one place of a frame that is listed.
pub quitar-cuenta :
    (g : ℕ) (xs : List ℕ)
    → 0 < cuenta g xs
    → (ys : List ℕ) × (quitar g xs ≡ some ys)
      × ((f : ℕ) → cuenta f ys + (if f == g then 1 else 0) ≡ cuenta f xs)
unfolding cuenta quitar
quitar-cuenta g [] h = absurd (omega arith)
quitar-cuenta g (x ∷ xs) h = elim (Bool-cases (g == x)) [
  | inl t ↦ (xs, rw t, λ f. ground arith)
  | inr t ↦
      let (ys, run, count) = quitar-cuenta g xs (ground arith) in
      (x ∷ ys, rw (t, run), λ f. ground (arith, count f))
]

pub calcular_posicion-lt :
    (marcos pid pagina h : ℕ) → calcular_posicion marcos pid pagina ≡ some h → h < marcos
unfolding calcular_posicion
calcular_posicion-lt marcos pid pagina h e = ground arith

-- A scan that stays inside the table ends with a free frame, or has seen that there is none.
pub libre_desde_lem :
    (t : List EntradaTabla) (j n : ℕ)
    → j + n ≤ length t
    → ((k : ℕ) × (e : EntradaTabla) × (libre_desde t j n ≡ some (some k))
        × (get_elem? t k ≡ some e)
        × (e.pid ≡ libre))
      ⊎ ((libre_desde t j n ≡ some none)
          × ((k : ℕ) (e : EntradaTabla)
              → j ≤ k
              → k < j + n
              → get_elem? t k ≡ some e
              → e.pid ≢ libre))
unfolding libre_desde
libre_desde_lem t j zero h = inr (refl, λ k e lo hi. absurd (omega arith))
libre_desde_lem t j (suc n) h =
    let (e, at) = get_elem?-lt-some t j (omega arith) in
    elim (Bool-cases (e.pid == libre)) [
      | inl free ↦ inl (j, e, rw (at, ◌>>=◌, free), at, ground arith)
      | inr used ↦ elim (libre_desde_lem t (j + 1) n (omega arith)) [
        | inl (k, e', run, at', free) ↦ inl (k, e', rw (at, ◌>>=◌, used) run, at', free)
        | inr (run, seen) ↦ inr (
          rw (at, ◌>>=◌, used) run,
          λ k c lo hi ec fc. go k c lo hi ec fc e at used seen (ℕ_discrete k j),
        )
      ]
    ]
  where
    go :
        (k : ℕ) (c : EntradaTabla)
        → j ≤ k
        → k < j + suc n
        → get_elem? t k ≡ some c
        → c.pid ≡ libre
        → (e : EntradaTabla) → get_elem? t j ≡ some e
        → (e.pid == libre) ≡ false
        → ((k : ℕ) (e : EntradaTabla)
            → j + 1 ≤ k
            → k < j + 1 + n
            → get_elem? t k ≡ some e
            → e.pid ≢ libre)
        → Dec (k ≡ j)
        → ⊥
    go k c lo hi ec fc e at used seen (yes same) = ground (arith, ap (get_elem? t) same)
    go k c lo hi ec fc e at used seen (no ne) = seen k c (omega arith) (omega arith) ec fc

-- With a free frame in the table both scans together find one, inside the table.
pub buscar_libre-found :
    (marcos : ℕ) (t : List EntradaTabla) (posicion : ℕ)
    → length t ≡ marcos
    → posicion < marcos
    → 0 < marcos_libres t
    → (f : ℕ) × (e : EntradaTabla) × (buscar_libre marcos t posicion ≡ some f)
      × (get_elem? t f ≡ some e)
      × (e.pid ≡ libre)
unfolding buscar_libre marcos_libres
buscar_libre-found marcos t posicion len lt free =
    elim (libre_desde_lem t posicion (marcos - posicion) (omega arith)) [
      | inl (k, e, run, at, is_free) ↦ (k, e, rw (run, ◌>>=◌), at, is_free)
      | inr (run, seen) ↦ elim (libre_desde_lem t 0 marcos (omega arith)) [
        | inl (k, e, run', at, is_free) ↦ (k, e, rw (run, ◌>>=◌, run'), at, is_free)
        | inr (run', none_free) ↦
            let (i, x, at, p) = count_if_pos (λ (e : EntradaTabla). e.pid == libre) t free in
            absurd (
              none_free i x (omega arith) (omega (arith, get_elem?-some-lt t i at)) at
                (ground arith))
      ]
    ]

-- A frame that no process has stands in no list.
pub esperada-libre :
    (marcos : ℕ) (e : EntradaTabla) (k : ℕ) → e.pid ≡ libre → esperada marcos e k ≡ 0
unfolding esperada
esperada-libre marcos e k free = ground arith

-- That of a process stands once in the list of its page.
pub esperada-proceso :
    (marcos : ℕ) (e : EntradaTabla) (h k : ℕ)
    → es_proceso e ≡ true
    → calcular_posicion marcos e.pid e.pagina ≡ some h
    → esperada marcos e k ≡ (if h == k then 1 else 0)
unfolding esperada en_posicion
esperada-proceso marcos e h k p at = rw (p, en_posicion, at) (ground arith)
