-- ===== src/Cache/Referencias.antt =====
-- A page that is read and not in the cache of Memoria/Memoria.c: `aumentar_referencias` and then
-- `insertar_entrada`.
use tp_so_2017_twt.Prelude.{
  ℕ, zero, suc, ◌+◌, ◌%◌, ◌^◌, ◌≤◌, ◌<◌, ◌≡◌, ◌≢◌, refl, sym, ap, ◌∙◌, true, some, List, [], ◌∷◌,
  arith, ◌==◌, if◌then◌else◌, length, get_elem?, ℕ_discrete, Bool-cases, inl, inr,
}
use tp_so_2017_twt.Cache.Defs.{
  Ranura, nadie, esta_en_cache, cantidad_de_entradas, insertar_entrada, aumentar_referencias,
}
use tp_so_2017_twt.Cache.Victima.{IsCache}
use tp_so_2017_twt.Cache.Insertar.{IsInsertada, insertar_entrada-IsInsertada}

-- A slot after `aumentar_referencias`
pub envejecida : Ranura → Ranura
envejecida r =
    if r.t_last_ref == nadie then r else record r { t_last_ref = (r.t_last_ref + 1) % 2 ^ 32 }

pub aumentar_referencias-at :
    (c : List Ranura) (i : ℕ) (q : Ranura)
    → get_elem? (aumentar_referencias c) i ≡ some q
    → (r : Ranura) × (get_elem? c i ≡ some r) × (q ≡ envejecida r)
unfolding aumentar_referencias envejecida
aumentar_referencias-at [] i q e = absurd (ground arith)
aumentar_referencias-at (r ∷ rs) zero q e = (r, refl, ground arith)
aumentar_referencias-at (r ∷ rs) (suc i) q e = aumentar_referencias-at rs i q e

envejecida_lem :
    (r : Ranura)
    → r.t_last_ref < 2 ^ 32
    → ((envejecida r).pid ≡ r.pid)
      × ((envejecida r).admin_pid ≡ r.admin_pid)
      × (0 < (envejecida r).t_last_ref)
unfolding envejecida
envejecida_lem r h = ground arith

pub envejecida_same :
    (r : Ranura)
    → ((envejecida r).pid ≡ r.pid)
      × ((envejecida r).pagina ≡ r.pagina)
      × ((envejecida r).contenido ≡ r.contenido)
unfolding envejecida
envejecida_same r = elim (Bool-cases (r.t_last_ref == nadie)) [
  | inl e ↦ rw e (refl, refl, refl)
  | inr e ↦ rw e (refl, refl, refl)
]

-- One reference more, modulo 2^32, for a slot that has a count
aumentar_referencias-other :
    (c : List Ranura) (i : ℕ) (r : Ranura)
    → get_elem? c i ≡ some r
    → get_elem? (aumentar_referencias c) i
      ≡ some (record r {
        t_last_ref = if r.t_last_ref == nadie then nadie else (r.t_last_ref + 1) % 2 ^ 32;
      })
unfolding aumentar_referencias
aumentar_referencias-other [] i r e = absurd (ground (arith, e))
aumentar_referencias-other (q ∷ qs) zero r e = ground (arith, e)
aumentar_referencias-other (q ∷ qs) (suc i) r e = aumentar_referencias-other qs i r e

pub length-aumentar_referencias : (c : List Ranura) → length (aumentar_referencias c) ≡ length c
unfolding aumentar_referencias
length-aumentar_referencias [] = refl
length-aumentar_referencias (r ∷ rs) = ap suc (length-aumentar_referencias rs)

-- The two arrays agree on the process of each slot, and the counts fit their fields.
pub record IsPareja (c : List Ranura) : Type 0 where
  pub agree : (i : ℕ) (r : Ranura) → get_elem? c i ≡ some r → r.admin_pid ≡ r.pid
  pub fits : (i : ℕ) (r : Ranura) → get_elem? c i ≡ some r → r.t_last_ref < 2 ^ 32

aumentar_referencias-IsCache : (c : List Ranura) → IsPareja c → IsCache (aumentar_referencias c)
aumentar_referencias-IsCache c v = record {
  agree = λ i q e.
      let (r, at, is) = aumentar_referencias-at c i q e in
      let (same_pid, same_admin, aged) = envejecida_lem r (v.fits i r at) in
      rw is (same_admin ∙ v.agree i r at ∙ sym same_pid);
  aged = λ i q e.
      let (r, at, is) = aumentar_referencias-at c i q e in
      let (same_pid, same_admin, aged) = envejecida_lem r (v.fits i r at) in rw is aged;
}

pub esta_en_cache-at :
    (c : List Ranura) (k pid pagina : ℕ) (r : Ranura)
    → get_elem? c k ≡ some r
    → r.pid ≡ pid
    → r.pagina ≡ pagina
    → esta_en_cache c pid pagina ≡ true
unfolding esta_en_cache
esta_en_cache-at [] k pid pagina r e ep eq = absurd (ground arith)
esta_en_cache-at (q ∷ qs) zero pid pagina r e ep eq = ground arith
esta_en_cache-at (q ∷ qs) (suc k) pid pagina r e ep eq =
    ground (arith, esta_en_cache-at qs k pid pagina r e ep eq)

insertada-IsPareja :
    (cache_x_proceso pid pagina k : ℕ) (contenido : List ℕ) (c c' : List Ranura)
    → IsPareja c
    → IsInsertada cache_x_proceso pid (aumentar_referencias c) pagina contenido k c'
    → IsPareja c'
unfolding envejecida
insertada-IsPareja cache_x_proceso pid pagina k contenido c c' v r = record {
  agree = λ i q e. elim (ℕ_discrete i k) [
    | yes same ↦ ground (arith, r.slot, (rw same at e))
    | no ne ↦ (aumentar_referencias-IsCache c v).agree i q (sym (r.others i ne) ∙ e)
  ];
  fits = λ i q e. elim (ℕ_discrete i k) [
    | yes same ↦ ground (arith, r.slot, (rw same at e))
    | no ne ↦
        let (w, at, is) = aumentar_referencias-at c i q (sym (r.others i ne) ∙ e) in
        rw is (ground (arith, v.fits i w at))
  ];
}

cantidad-aumentar_referencias :
    (c : List Ranura) (q : ℕ)
    → cantidad_de_entradas (aumentar_referencias c) q ≡ cantidad_de_entradas c q
unfolding aumentar_referencias cantidad_de_entradas
cantidad-aumentar_referencias [] q = refl
cantidad-aumentar_referencias (r ∷ rs) q = ground (arith, cantidad-aumentar_referencias rs q)

-- In a cache of at least one slot, where both arrays agree on the process of each slot, the counts
-- of references fit 32 bits, a process may have more than 0 slots and the process has no more than
-- it may, `aumentar_referencias` and then `insertar_entrada` put the page into one slot with its
-- content and 0 references and leave every other slot with its process, page and content, and with
-- one reference more (modulo 2^32) unless its count is -1; the page is then in the cache, both
-- arrays still agree, the process still has no more slots than it may and no other process has
-- more than before.
pub insertar_entrada-aumentar_referencias :
    (cache_x_proceso pid pagina : ℕ) (contenido : List ℕ) (c : List Ranura)
    → IsPareja c
    → 0 < length c
    → 0 < cache_x_proceso
    → cantidad_de_entradas c pid ≤ cache_x_proceso
    → (k : ℕ) × (c' : List Ranura) × (insertar_entrada cache_x_proceso pid pagina contenido
          (aumentar_referencias c)
        ≡ some c')
      × IsInsertada cache_x_proceso pid (aumentar_referencias c) pagina contenido k c'
      × ((i : ℕ) (r : Ranura)
          → i ≢ k
          → get_elem? c i ≡ some r
          → get_elem? c' i
            ≡ some (record r {
              t_last_ref = if r.t_last_ref == nadie then nadie else (r.t_last_ref + 1) % 2 ^ 32;
            }))
      × (length c' ≡ length c)
      × IsPareja c'
      × (esta_en_cache c' pid pagina ≡ true)
      × (cantidad_de_entradas c' pid ≤ cache_x_proceso)
      × ((q : ℕ) → q ≢ pid → cantidad_de_entradas c' q ≤ cantidad_de_entradas c q)
insertar_entrada-aumentar_referencias cache_x_proceso pid pagina contenido c v some_slot limit few =
    let (k, c', run, r) =
      insertar_entrada-IsInsertada cache_x_proceso pid (aumentar_referencias c)
        (aumentar_referencias-IsCache c v) pagina contenido
        (omega (arith, length-aumentar_referencias c)) limit in
    (
      k,
      c',
      run,
      r,
      λ i q ne at. r.others i ne ∙ aumentar_referencias-other c i q at,
      r.size ∙ length-aumentar_referencias c,
      insertada-IsPareja cache_x_proceso pid pagina k contenido c c' v r,
      esta_en_cache-at c' k pid pagina _ r.slot refl refl,
      r.propias (omega (arith, cantidad-aumentar_referencias c pid)),
      λ q ne. omega (arith, r.ajenas q ne, cantidad-aumentar_referencias c q),
    )
