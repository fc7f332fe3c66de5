-- ===== src/Cache/Insertar.antt =====
-- `insertar_entrada` of Memoria/Memoria.c.
use tp_so_2017_twt.Prelude.{
  ℕ, ◌≤◌, ◌<◌, ◌≡◌, ◌≢◌, refl, ap, ◌∙◌, true, none, some, List, arith, ◌==◌, length, get_elem?, set,
  ◌>>=◌, Bool-cases, inl, inr, ◌⊎◌, length-set, get_elem?-set, get_elem?-lt-some, get_elem?-some-lt,
  count_if-set, count_if_pos, dec_lt,
}
use tp_so_2017_twt.Cache.Defs.{
  Ranura, cantidad_de_entradas, hay_espacio_en_cache, entrada_libre, buscar_victima_global,
  buscar_victima_local, elegir, insertar_entrada,
}
use tp_so_2017_twt.Cache.Victima.{IsCache, libre_loop-found, victima_loop-some}

-- What `insertar_entrada` gives its page: a slot, which is one of the same process unless the process
-- may have one more.
record IsElegida (cache_x_proceso pid : ℕ) (c : List Ranura) (k : ℕ) : Type 0 where
  ranura : Ranura
  at : get_elem? c k ≡ some ranura
  allowed : (cantidad_de_entradas c pid < cache_x_proceso) ⊎ (ranura.pid ≡ pid)

-- The state after the page got slot `k`
pub record IsInsertada (cache_x_proceso pid : ℕ) (c : List Ranura) (pagina : ℕ) (contenido : List ℕ)
    (k : ℕ) (c' : List Ranura) : Type 0 where
  pub slot :
      get_elem? c' k
      ≡ some (record {
        pid = pid;
        pagina = pagina;
        contenido = contenido;
        admin_pid = pid;
        t_last_ref = 0;
      })
  pub others : (i : ℕ) → i ≢ k → get_elem? c' i ≡ get_elem? c i
  pub size : length c' ≡ length c
  pub propias :
      cantidad_de_entradas c pid ≤ cache_x_proceso → cantidad_de_entradas c' pid ≤ cache_x_proceso
  pub ajenas : (q : ℕ) → q ≢ pid → cantidad_de_entradas c' q ≤ cantidad_de_entradas c q

module _ (cache_x_proceso pid : ℕ) (c : List Ranura) (v : IsCache c) where
  local-IsElegida :
      0 < cantidad_de_entradas c pid
      → (k : ℕ) × (buscar_victima_local c pid ≡ some k) × IsElegida cache_x_proceso pid c k
  unfolding buscar_victima_local cantidad_de_entradas
  local-IsElegida some_entry =
      let (i, r, at, own) = count_if_pos (λ (r : Ranura). r.pid == pid) c some_entry in
      elim (victima_loop-some (λ (r : Ranura). r.admin_pid == pid) c 0 0 none) [
        | inl (k, q, run, at_k, admitted, more, most) ↦ (
          k,
          run ∙ ap some (omega arith),
          record { ranura = q; at = at_k; allowed = inr (ground (arith, v.agree k q at_k)) },
        )
        | inr (run, most) ↦ absurd (ground (arith, most i r at, v.agree i r at, v.aged i r at))
      ]

  global-IsElegida :
      0 < length c
      → cantidad_de_entradas c pid < cache_x_proceso
      → (k : ℕ) × (buscar_victima_global c ≡ some k) × IsElegida cache_x_proceso pid c k
  unfolding buscar_victima_global
  global-IsElegida some_slot fewer =
      let (r, at) = get_elem?-lt-some c 0 some_slot in
      elim (victima_loop-some (λ (r : Ranura). true) c 0 0 none) [
        | inl (k, q, run, at_k, admitted, more, most) ↦
            (k, run ∙ ap some (omega arith), record { ranura = q; at = at_k; allowed = inl fewer })
        | inr (run, most) ↦ absurd (omega (arith, most 0 r at refl, v.aged 0 r at))
      ]

  elegir-IsElegida :
      0 < length c
      → 0 < cache_x_proceso
      → (k : ℕ) × (elegir cache_x_proceso c pid ≡ some k) × IsElegida cache_x_proceso pid c k
  unfolding elegir entrada_libre
  elegir-IsElegida some_slot limit = elim (dec_lt (cantidad_de_entradas c pid) cache_x_proceso) [
    | yes fewer ↦ elim (Bool-cases (hay_espacio_en_cache c)) [
      | inl room ↦
          let (k, r, run, at, free) = libre_loop-found c 0 room in
          (k, rw room (ground (arith, run)), record { ranura = r; at = at; allowed = inl fewer })
      | inr full ↦
          let (k, run, chosen) = global-IsElegida some_slot fewer in
          (k, rw full (ground (arith, run)), chosen)
    ]
    | no all ↦
        let (k, run, chosen) = local-IsElegida (omega arith) in (k, ground (arith, run), chosen)
  ]

  pub insertar_entrada-IsInsertada :
      (pagina : ℕ) (contenido : List ℕ)
      → 0 < length c
      → 0 < cache_x_proceso
      → (k : ℕ) × (c' : List Ranura) × (insertar_entrada cache_x_proceso pid pagina contenido c
          ≡ some c')
        × IsInsertada cache_x_proceso pid c pagina contenido k c'
  unfolding insertar_entrada cantidad_de_entradas
  insertar_entrada-IsInsertada pagina contenido some_slot limit =
      let (k, run, chosen) = elegir-IsElegida some_slot limit in
      let lt = get_elem?-some-lt c k chosen.at in
      let new : Ranura = record {
        pid = pid;
        pagina = pagina;
        contenido = contenido;
        admin_pid = pid;
        t_last_ref = 0;
      } in
      (
        k,
        set c k new,
        rw (run, ◌>>=◌, chosen.at) (ground arith),
        record {
          slot = ground (arith, get_elem?-set c k new k lt);
          others = λ i ne. ground (arith, get_elem?-set c k new i lt);
          size = length-set c k new;
          propias = λ le. ground (
            arith,
            chosen.allowed,
            count_if-set (λ (r : Ranura). r.pid == pid) c k new chosen.ranura chosen.at,
          );
          ajenas = λ q ne.
              ground
                (arith, count_if-set (λ (r : Ranura). r.pid == q) c k new chosen.ranura chosen.at);
        },
      )
