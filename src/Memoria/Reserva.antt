-- ===== src/Memoria/Reserva.antt =====
-- `buscar_espacioV2` of Memoria/Memoria.c.
use tp_so_2017_twt.Prelude.{
  ℕ, zero, suc, ◌+◌, ◌*◌, ◌≤◌, ◌<◌, ◌≡◌, ◌≢◌, refl, ◌∙◌, some, arith, get_elem?, ◌>>=◌, inl, inr,
  ◌⊎◌, dec_lt, ℕ_discrete, pos,
}
use tp_so_2017_twt.Memoria.Defs.{
  EntradaTabla, libre, Marcos, marcos_libres, paginas_de_proceso, calcular_posicion, ocupar_paginas,
  buscar_espacio, sin_espacio,
}
use tp_so_2017_twt.Memoria.Indice.{IsCoherent}
use tp_so_2017_twt.Memoria.Marcos.{IsPid, IsOcupado, ocupar_frame-IsOcupado}
use tp_so_2017_twt.Memoria.Busqueda.{HasPagina, buscar_en_indice-HasPagina}

-- The state after a process got `n` frames, for its pages from `i` on: each of these pages has a
-- frame, and no frame that was in use has changed.
pub record IsReservado (marcos pid i n : ℕ) (m m' : Marcos) : Type 0 where
  pub coherent : IsCoherent marcos m'
  pub libres : marcos_libres m'.tabla + n ≡ marcos_libres m.tabla
  pub propias : paginas_de_proceso m'.tabla pid ≡ paginas_de_proceso m.tabla pid + n
  pub ajenas :
      (q : ℕ) → q ≢ pid → q ≢ libre → paginas_de_proceso m'.tabla q ≡ paginas_de_proceso m.tabla q
  pub kept :
      (k : ℕ) (c : EntradaTabla)
      → get_elem? m.tabla k ≡ some c
      → c.pid ≢ libre
      → get_elem? m'.tabla k ≡ some c
  pub paginas :
      (j : ℕ)
      → i ≤ j
      → j < i + n
      → (f : ℕ) × (get_elem? m'.tabla f ≡ some (record { frame = f; pid = pid; pagina = j }))

module _ (marcos pid : ℕ) (p : IsPid pid) where
  -- An entry that was in use is not the one that a step takes.
  kept-IsOcupado :
      {pagina f : ℕ} {m m' : Marcos} {c : EntradaTabla} (k : ℕ)
      → IsOcupado marcos pid pagina m m' f
      → get_elem? m.tabla k ≡ some c
      → c.pid ≢ libre
      → get_elem? m'.tabla k ≡ some c
  kept-IsOcupado {f = f} k o at used =
      let (e, at_f, free) = o.was_free in
      o.others k (λ same. used (ground (arith, rw same at at))) ∙ at

  pub ocupar_paginas-IsReservado :
      (i n : ℕ) (m : Marcos)
      → IsCoherent marcos m
      → n ≤ marcos_libres m.tabla
      → ((j : ℕ) → i ≤ j → j < i + n → (h : ℕ) × (calcular_posicion marcos pid j ≡ some h))
      → (m' : Marcos) × (ocupar_paginas marcos pid i n m ≡ some m')
        × IsReservado marcos pid i n m m'
  unfolding ocupar_paginas
  ocupar_paginas-IsReservado i zero m v room places = (
    m,
    refl,
    record {
      coherent = v;
      libres = omega arith;
      propias = omega arith;
      ajenas = λ q ne nl. refl;
      kept = λ k c at used. at;
      paginas = λ j lo hi. absurd (omega arith);
    },
  )
  ocupar_paginas-IsReservado i (suc n) m v room places =
      let (h, place) = places i (omega arith) (omega arith) in
      let (f, m₁, run, o) = ocupar_frame-IsOcupado marcos pid i h m v p place (omega arith) in
      let (m₂, runs, r) =
        ocupar_paginas-IsReservado (i + 1) n m₁ o.coherent (omega (arith, o.libres))
          (λ j lo hi. places j (omega arith) (omega arith)) in
      (
        m₂,
        rw (run, ◌>>=◌) runs,
        record {
          coherent = r.coherent;
          libres = omega (arith, r.libres, o.libres);
          propias = omega (arith, r.propias, o.propias);
          ajenas = λ q ne nl. r.ajenas q ne nl ∙ o.ajenas q ne nl;
          kept = λ k c at used. r.kept k c (kept-IsOcupado k o at used) used;
          paginas = λ j lo hi. elim (ℕ_discrete j i) [
            | yes same ↦ (f, rw same (r.kept f _ o.taken p.0))
            | no ne ↦ r.paginas j (omega arith) (omega arith)
          ];
        },
      )

  -- In a coherent table, for a PID that is neither -2 nor -1 and more than 0 pages, all of which
  -- have a position in the index, `buscar_espacioV2` either finds as many free frames: then it
  -- answers the count of pages and the address of a frame whose entry is that of page 0, each page
  -- has a frame, the count of free frames sinks by the count of pages, no frame in use has changed
  -- and the table and the index stay coherent. Or there are fewer free frames: then it answers -1
  -- twice and changes nothing.
  pub buscar_espacio-IsReservado :
      (marco_size paginas : ℕ) (m : Marcos)
      → IsCoherent marcos m
      → 0 < paginas
      → ((j : ℕ) → j < paginas → (h : ℕ) × (calcular_posicion marcos pid j ≡ some h))
      → ((k : ℕ) × (m' : Marcos) × (buscar_espacio marcos marco_size pid paginas m
            ≡ some (record { page_counter = pos paginas; direccion = pos (k * marco_size) }, m'))
          × IsReservado marcos pid 0 paginas m m'
          × HasPagina m'.tabla pid 0 k)
        ⊎ ((marcos_libres m.tabla < paginas)
            × (buscar_espacio marcos marco_size pid paginas m ≡ some (sin_espacio, m)))
  unfolding buscar_espacio
  buscar_espacio-IsReservado marco_size paginas m v some_page places =
      elim (dec_lt (marcos_libres m.tabla) paginas) [
        | yes lt ↦ inr (lt, ground arith)
        | no ge ↦ inl (reserved (omega arith))
      ]
    where
      reserved :
          paginas ≤ marcos_libres m.tabla
          → (k : ℕ) × (m' : Marcos) × (buscar_espacio marcos marco_size pid paginas m
              ≡ some (record { page_counter = pos paginas; direccion = pos (k * marco_size) }, m'))
            × IsReservado marcos pid 0 paginas m m'
            × HasPagina m'.tabla pid 0 k
      reserved room =
          let (m', run, r) =
            ocupar_paginas-IsReservado 0 paginas m v room (λ j lo hi. places j (omega arith)) in
          let (h, place) = places 0 some_page in
          let (f, at) = r.paginas 0 (omega arith) (omega arith) in
          elim (buscar_en_indice-HasPagina marcos pid 0 h m' r.coherent p place) [
            | inl (k, found, page) ↦ (k, m', ground (arith, run, place, found), r, page)
            | inr (missing, none_has) ↦
                absurd
                  (none_has f (record { entry = _; at = at; same_pid = refl; same_pagina = refl }))
          ]
