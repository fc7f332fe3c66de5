-- ===== src/Memoria/Liberar.antt =====
-- `finalizar_proceso` and `liberar_pagina` of Memoria/Memoria.c.
use tp_so_2017_twt.Prelude.{
  ℕ, zero, suc, ◌+◌, ◌≤◌, ◌<◌, ◌≡◌, ◌≢◌, refl, ap, ◌∙◌, true, some, List, arith, ◌==◌,
  if◌then◌else◌, get_elem?, set, count_if, ◌>>=◌, inl, inr, Bool-cases, ℕ_discrete, get_elem?-set,
  get_elem?-lt-some, get_elem?-some-lt, count_if-set, count_if_pos, dec_lt,
}
use tp_so_2017_twt.Memoria.Defs.{
  EntradaTabla, libre, Marcos, marcos_libres, paginas_de_proceso, calcular_posicion, quitar,
  borrar_de_indice, liberada, finalizar_desde, finalizar_proceso, liberar_pagina,
}
use tp_so_2017_twt.Memoria.Indice.{
  cuenta, es_proceso, esperada-libre, esperada-proceso, IsCoherent, quitar-cuenta,
  calcular_posicion-lt,
}
use tp_so_2017_twt.Memoria.Marcos.{IsPid, es_proceso-IsPid, changed-IsCoherent}
use tp_so_2017_twt.Memoria.Busqueda.{HasPagina, buscar_en_indice-HasPagina}

-- The state after a process gave frame `f` back: one free frame more, and no other entry changed.
pub record IsSoltado (marcos pid f : ℕ) (m m' : Marcos) : Type 0 where
  pub coherent : IsCoherent marcos m'
  pub freed : (c : EntradaTabla) × (get_elem? m'.tabla f ≡ some c) × (c.pid ≡ libre)
  pub others : (i : ℕ) → i ≢ f → get_elem? m'.tabla i ≡ get_elem? m.tabla i
  pub libres : marcos_libres m'.tabla ≡ marcos_libres m.tabla + 1
  pub propias : paginas_de_proceso m'.tabla pid + 1 ≡ paginas_de_proceso m.tabla pid
  pub ajenas :
      (q : ℕ) → q ≢ pid → q ≢ libre → paginas_de_proceso m'.tabla q ≡ paginas_de_proceso m.tabla q

-- The state after the frames from `i` on have been looked at: the process has none of them, and
-- the frames of other processes are as they were.
pub record IsFinalizado (marcos pid i : ℕ) (m m' : Marcos) : Type 0 where
  pub coherent : IsCoherent marcos m'
  pub gone : (k : ℕ) (c : EntradaTabla) → i ≤ k → get_elem? m'.tabla k ≡ some c → c.pid ≢ pid
  pub kept :
      (k : ℕ) (c : EntradaTabla)
      → get_elem? m.tabla k ≡ some c
      → c.pid ≢ pid
      → get_elem? m'.tabla k ≡ some c
  pub libres :
      marcos_libres m'.tabla + paginas_de_proceso m'.tabla pid
      ≡ marcos_libres m.tabla + paginas_de_proceso m.tabla pid

calcular_posicion_congr :
    (marcos h a b pid pagina : ℕ)
    → calcular_posicion marcos a b ≡ some h
    → a ≡ pid
    → b ≡ pagina
    → calcular_posicion marcos pid pagina ≡ some h
calcular_posicion_congr marcos h a b pid pagina e ea eb = rw (← ea, ← eb) e

borrar_de_indice-run :
    (ix : List (List ℕ)) (h frame f : ℕ) (fs fs' : List ℕ)
    → get_elem? ix h ≡ some fs
    → frame ≡ f
    → quitar f fs ≡ some fs'
    → borrar_de_indice ix h frame ≡ some (set ix h fs')
unfolding borrar_de_indice
borrar_de_indice-run ix h frame f fs fs' at number run =
    ground (arith, at, run, ap (λ g. quitar g fs) number)

module _ (marcos pid : ℕ) (p : IsPid pid) where
  module _ (m : Marcos) (v : IsCoherent marcos m) (f : ℕ) (e : EntradaTabla)
      (at : get_elem? m.tabla f ≡ some e) (same_pid : e.pid ≡ pid) where
    freed-IsSoltado :
        (h : ℕ) (fs fs' : List ℕ)
        → es_proceso e ≡ true
        → calcular_posicion marcos e.pid e.pagina ≡ some h
        → get_elem? m.hash_index h ≡ some fs
        → ((i : ℕ) → cuenta i fs' + (if i == f then 1 else 0) ≡ cuenta i fs)
        → IsSoltado marcos pid f m
            (record { tabla = set m.tabla f (liberada e); hash_index = set m.hash_index h fs' })
    unfolding marcos_libres paginas_de_proceso
    freed-IsSoltado h fs fs' proc place list_at count =
        let lt = get_elem?-some-lt m.tabla f at in
        record {
          coherent =
              changed-IsCoherent marcos m v f h e (liberada e) fs fs' at list_at (v.numbered f e at)
                (λ i ne. ground (arith, count i))
                (ground (
                  arith,
                  count f,
                  esperada-libre marcos (liberada e) h refl,
                  v.indexed f e h fs at list_at,
                  esperada-proceso marcos e h h proc place,
                ))
                (λ k ne. ground (
                  arith,
                  esperada-libre marcos (liberada e) k refl,
                  esperada-proceso marcos e h k proc place,
                ))
                (λ t. absurd (ground arith));
          freed = (liberada e, ground (arith, get_elem?-set m.tabla f (liberada e) f lt), refl);
          others = λ i ne. ground (arith, get_elem?-set m.tabla f (liberada e) i lt);
          libres = ground (
            arith,
            p.0,
            count_if-set (λ (c : EntradaTabla). c.pid == libre) m.tabla f (liberada e) e at,
          );
          propias = ground (
            arith,
            p.0,
            count_if-set (λ (c : EntradaTabla). c.pid == pid) m.tabla f (liberada e) e at,
          );
          ajenas = λ q ne nl.
              ground (
                arith,
                count_if-set (λ (c : EntradaTabla). c.pid == q) m.tabla f (liberada e) e at,
              );
        }

    soltar_at :
        (h : ℕ)
        → es_proceso e ≡ true
        → calcular_posicion marcos e.pid e.pagina ≡ some h
        → (ix : List (List ℕ)) × (borrar_de_indice m.hash_index h e.frame ≡ some ix)
          × IsSoltado marcos pid f m
              (record { tabla = set m.tabla f (liberada e); hash_index = ix })
    soltar_at h proc place =
        let (fs, list_at) =
          get_elem?-lt-some m.hash_index h
            (omega (arith, v.listas, calcular_posicion-lt marcos e.pid e.pagina h place)) in
        let once : 0 < cuenta f fs =
          ground (arith, v.indexed f e h fs at list_at, esperada-proceso marcos e h h proc place) in
        let (fs', run, count) = quitar-cuenta f fs once in
        (
          set m.hash_index h fs',
          borrar_de_indice-run m.hash_index h e.frame f fs fs' list_at (v.numbered f e at) run,
          freed-IsSoltado h fs fs' proc place list_at count,
        )

    -- The index lets the frame of a process go.
    pub soltar-IsSoltado :
        (h : ℕ) × (ix : List (List ℕ)) × (calcular_posicion marcos e.pid e.pagina ≡ some h)
        × (borrar_de_indice m.hash_index h e.frame ≡ some ix)
        × IsSoltado marcos pid f m (record { tabla = set m.tabla f (liberada e); hash_index = ix })
    soltar-IsSoltado =
        let proc : es_proceso e ≡ true = es_proceso-IsPid e (rw same_pid p) in
        let (h, place) = v.placed f e at proc in
        let (ix, run, gone) = soltar_at h proc place in (h, ix, place, run, gone)

  -- In a coherent table, for a PID that is neither -2 nor -1 and a page that the process has,
  -- `liberar_pagina` frees one frame of that page: there is one free frame more, no other entry
  -- has changed, and the table and the index stay coherent.
  pub liberar_pagina-IsSoltado :
      (pagina k : ℕ) (m : Marcos)
      → IsCoherent marcos m
      → HasPagina m.tabla pid pagina k
      → (f : ℕ) × (m' : Marcos) × (liberar_pagina marcos pid pagina m ≡ some m')
        × HasPagina m.tabla pid pagina f
        × IsSoltado marcos pid f m m'
  unfolding liberar_pagina
  liberar_pagina-IsSoltado pagina k m v has =
      let (h, place) =
        v.placed k has.entry has.at (es_proceso-IsPid has.entry (rw has.same_pid p)) in
      let here : calcular_posicion marcos pid pagina ≡ some h =
        calcular_posicion_congr marcos h has.entry.pid has.entry.pagina pid pagina place
          has.same_pid has.same_pagina in
      elim (buscar_en_indice-HasPagina marcos pid pagina h m v p here) [
        | inl (f, found, page) ↦
            let (h', ix, place', run, gone) =
              soltar-IsSoltado m v f page.entry page.at page.same_pid in
            let same : h' ≡ h = ground (
              arith,
              calcular_posicion_congr marcos h' page.entry.pid page.entry.pagina pid pagina place'
                  page.same_pid page.same_pagina,
            ) in
            (f, _, rw (here, ◌>>=◌, found, page.at, (rw same at run)), page, gone)
        | inr (missing, none_has) ↦ absurd (none_has k has)
      ]

  -- A frame before those that are looked at stays.
  finalizar_desde-IsFinalizado :
      (n i : ℕ) (m : Marcos)
      → IsCoherent marcos m
      → i + n ≡ marcos
      → (m' : Marcos) × (finalizar_desde marcos pid i n m ≡ some m')
        × IsFinalizado marcos pid i m m'
        × ((k : ℕ) → k < i → get_elem? m'.tabla k ≡ get_elem? m.tabla k)
  unfolding finalizar_desde
  finalizar_desde-IsFinalizado zero i m v all = (
    m,
    refl,
    record {
      coherent = v;
      gone = λ k c le at. absurd (omega (arith, get_elem?-some-lt m.tabla k at, v.frames));
      kept = λ k c at ne. at;
      libres = refl;
    },
    λ k lt. refl,
  )
  finalizar_desde-IsFinalizado (suc n) i m v all =
      let (e, at) = get_elem?-lt-some m.tabla i (omega (arith, v.frames)) in
      elim (Bool-cases (e.pid == pid)) [
        | inl own ↦
            let (h, ix, place, run, s) = soltar-IsSoltado m v i e at (ground arith) in
            let (c, at_c, free_c) = s.freed in
            let (m', runs, r, before) =
              finalizar_desde-IsFinalizado n (i + 1) _ s.coherent (omega arith) in
            (
              m',
              rw (at, ◌>>=◌, own, place, run) runs,
              record {
                coherent = r.coherent;
                gone = λ k d le ed. elim (ℕ_discrete k i) [
                  | yes same ↦ ground (arith, p.0, at_c, before i (omega arith), (rw same at ed))
                  | no ne ↦ r.gone k d (omega arith) ed
                ];
                kept = λ k d ed ne.
                    r.kept k d (s.others k (λ same. ne (ground (arith, (rw same at ed)))) ∙ ed) ne;
                libres = omega (arith, r.libres, s.libres, s.propias);
              },
              λ k lt. before k (omega arith) ∙ s.others k (λ same. absurd (omega arith)),
            )
        | inr other ↦
            let (m', runs, r, before) = finalizar_desde-IsFinalizado n (i + 1) m v (omega arith) in
            (
              m',
              rw (at, ◌>>=◌, other) runs,
              record {
                coherent = r.coherent;
                gone = λ k d le ed. elim (ℕ_discrete k i) [
                  | yes same ↦ ground (arith, at, before i (omega arith), (rw same at ed))
                  | no ne ↦ r.gone k d (omega arith) ed
                ];
                kept = r.kept;
                libres = r.libres;
              },
              λ k lt. before k (omega arith),
            )
      ]

  -- In a coherent table, for a PID that is neither -2 nor -1, the loop of `finalizar_proceso` ends
  -- inside its bounds: then the process has no page, the count of free frames has grown by the
  -- pages it had, each entry of another PID is as it was, and the table and the index are
  -- coherent.
  pub finalizar_proceso-IsFinalizado :
      (m : Marcos)
      → IsCoherent marcos m
      → (m' : Marcos) × (finalizar_proceso marcos pid m ≡ some m')
        × IsFinalizado marcos pid 0 m m'
        × (paginas_de_proceso m'.tabla pid ≡ 0)
        × (marcos_libres m'.tabla ≡ marcos_libres m.tabla + paginas_de_proceso m.tabla pid)
  unfolding finalizar_proceso paginas_de_proceso
  finalizar_proceso-IsFinalizado m v =
      let (m', run, r, before) = finalizar_desde-IsFinalizado marcos 0 m v (omega arith) in
      let none_left = no_pages m' r in (m', run, r, none_left, omega (arith, r.libres))
    where
      no_pages :
          (m' : Marcos) → IsFinalizado marcos pid 0 m m' → paginas_de_proceso m'.tabla pid ≡ 0
      no_pages m' r = elim (dec_lt 0 (count_if (λ (c : EntradaTabla). c.pid == pid) m'.tabla)) [
        | yes lt ↦
            let (k, c, at, own) = count_if_pos (λ (c : EntradaTabla). c.pid == pid) m'.tabla lt in
            absurd (r.gone k c (omega arith) at (ground arith))
        | no ge ↦ omega arith
      ]
