-- ===== src/Memoria/Busqueda.antt =====
-- `buscar_en_indice` of Memoria/Memoria.c against the page table.
use tp_so_2017_twt.Prelude.{
  ℕ, ◌<◌, ◌≡◌, refl, true, false, ◌&&◌, none, some, List, [], ◌∷◌, arith, ◌==◌, get_elem?, length,
  ◌>>=◌, Bool-cases, inl, inr, ◌⊎◌, dec_lt, get_elem?-lt-some, ℕ_discrete,
}
use tp_so_2017_twt.Memoria.Defs.{
  EntradaTabla, Marcos, calcular_posicion, es_pagina_correcta, buscar_en_lista, buscar_en_indice,
}
use tp_so_2017_twt.Memoria.Indice.{
  cuenta, es_proceso, esperada-proceso, IsCoherent, calcular_posicion-lt,
}
use tp_so_2017_twt.Memoria.Marcos.{IsPid, es_proceso-IsPid}

-- A frame whose entry is that of the page
pub record HasPagina (t : List EntradaTabla) (pid pagina k : ℕ) : Type 0 where
  pub entry : EntradaTabla
  pub at : get_elem? t k ≡ some entry
  pub same_pid : entry.pid ≡ pid
  pub same_pagina : entry.pagina ≡ pagina

-- The search in one list ends with a frame of the page, or has seen that the list has none.
buscar_en_lista_lem :
    (t : List EntradaTabla) (fs : List ℕ) (pid pagina : ℕ)
    → ((i : ℕ) → 0 < cuenta i fs → i < length t)
    → ((k : ℕ) × (buscar_en_lista t fs pid pagina ≡ some (some k)) × HasPagina t pid pagina k)
      ⊎ ((buscar_en_lista t fs pid pagina ≡ some none)
          × ((i : ℕ) → 0 < cuenta i fs → HasPagina t pid pagina i → ⊥))
unfolding buscar_en_lista cuenta
buscar_en_lista_lem t [] pid pagina inside = inr (refl, λ i h p. absurd (omega arith))
buscar_en_lista_lem t (f ∷ fs) pid pagina inside =
    let (e, at) = get_elem?-lt-some t f (inside f (ground arith)) in
    elim (Bool-cases (e.pid == pid && e.pagina == pagina)) [
      | inl yes_it_is ↦ inl (
        f,
        rw (es_pagina_correcta, at, ◌>>=◌, yes_it_is),
        record { entry = e; at = at; same_pid = ground arith; same_pagina = ground arith },
      )
      | inr other ↦ elim (buscar_en_lista_lem t fs pid pagina (λ i h. inside i (ground arith))) [
        | inl (k, run, p) ↦ inl (k, rw (es_pagina_correcta, at, ◌>>=◌, other) run, p)
        | inr (run, unseen) ↦ inr (
          rw (es_pagina_correcta, at, ◌>>=◌, other) run,
          λ i h p. go i h p e at other unseen (ℕ_discrete i f),
        )
      ]
    ]
  where
    go :
        (i : ℕ)
        → 0 < cuenta i (f ∷ fs)
        → HasPagina t pid pagina i
        → (e : EntradaTabla) → get_elem? t f ≡ some e
        → (e.pid == pid && e.pagina == pagina) ≡ false
        → ((i : ℕ) → 0 < cuenta i fs → HasPagina t pid pagina i → ⊥)
        → Dec (i ≡ f)
        → ⊥
    go i h p e at other unseen (yes same) = ground (arith, p.at, p.same_pid, p.same_pagina)
    go i h p e at other unseen (no ne) = unseen i (ground arith) p

module _ (marcos pid pagina h : ℕ) (m : Marcos) (v : IsCoherent marcos m) (p : IsPid pid)
    (place : calcular_posicion marcos pid pagina ≡ some h) where
  -- The frame of a page is in the list of the page.
  pagina-listed :
      (i : ℕ) (fs : List ℕ)
      → HasPagina m.tabla pid pagina i
      → get_elem? m.hash_index h ≡ some fs
      → cuenta i fs ≡ 1
  pagina-listed i fs q list_at =
      let e = q.entry in
      let proc : es_proceso e ≡ true = es_proceso-IsPid e (rw q.same_pid p) in
      rw
        (
          v.indexed i e h fs q.at list_at,
          esperada-proceso marcos e h h proc (rw (q.same_pid, q.same_pagina) place),
        )
        (ground arith)

  -- In a coherent table, for a PID that is neither -2 nor -1, `buscar_en_indice` at the position
  -- of a page either answers a frame whose entry in the table is that of the page, or answers -1,
  -- and then no frame of the table is the page's.
  pub buscar_en_indice-HasPagina :
      ((k : ℕ) × (buscar_en_indice m h pid pagina ≡ some (some k)) × HasPagina m.tabla pid pagina k)
      ⊎ ((buscar_en_indice m h pid pagina ≡ some none)
          × ((k : ℕ) → HasPagina m.tabla pid pagina k → ⊥))
  unfolding buscar_en_indice
  buscar_en_indice-HasPagina =
      let lt = calcular_posicion-lt marcos pid pagina h place in
      let (fs, list_at) = get_elem?-lt-some m.hash_index h (omega (arith, v.listas)) in
      elim (buscar_en_lista_lem m.tabla fs pid pagina
        (λ i c. inside i fs list_at c (dec_lt i marcos))) [
          | inl (k, run, found) ↦ inl (k, rw (list_at, ◌>>=◌) run, found)
          | inr (run, unseen) ↦ inr (
            rw (list_at, ◌>>=◌) run,
            λ k q. unseen k (omega (arith, pagina-listed k fs q list_at)) q,
          )
        ]
    where
      inside :
          (i : ℕ) (fs : List ℕ)
          → get_elem? m.hash_index h ≡ some fs
          → 0 < cuenta i fs
          → Dec (i < marcos)
          → i < length m.tabla
      inside i fs list_at c (yes lt) = omega (arith, v.frames)
      inside i fs list_at c (no ge) = absurd (omega (arith, v.known i h fs (omega arith) list_at))
