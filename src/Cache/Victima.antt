-- ===== src/Cache/Victima.antt =====
-- The searches of the cache in Memoria/Memoria.c: `entrada_libre` and the two for a victim.
use tp_so_2017_twt.Prelude.{
  ℕ, zero, suc, ◌+◌, ◌≤◌, ◌<◌, ◌≡◌, refl, ap, ◌∙◌, Bool, true, false, ◌&&◌, ◌||◌, Option, none,
  some, List, [], ◌∷◌, arith, ltb, ◌==◌, get_elem?, Bool-cases, inl, inr, ◌⊎◌,
}
use tp_so_2017_twt.Cache.Defs.{
  Ranura, nadie, hay_espacio_en_cache, libre_loop, victima_loop, buscar_victima_local,
}

-- In a slot that is in use the two arrays agree on the process, and the page has been in the cache
-- for a reference at least.
pub record IsCache (c : List Ranura) : Type 0 where
  pub agree : (i : ℕ) (r : Ranura) → get_elem? c i ≡ some r → r.admin_pid ≡ r.pid
  pub aged : (i : ℕ) (r : Ranura) → get_elem? c i ≡ some r → 0 < r.t_last_ref

pub libre_loop-found :
    (c : List Ranura) (i : ℕ)
    → hay_espacio_en_cache c ≡ true
    → (k : ℕ) × (r : Ranura) × (libre_loop c i ≡ some (i + k))
      × (get_elem? c k ≡ some r)
      × ((r.pid ≡ nadie) ⊎ (r.pagina ≡ nadie))
unfolding libre_loop hay_espacio_en_cache
libre_loop-found [] i h = absurd (ground arith)
libre_loop-found (r ∷ rs) i h = elim (Bool-cases (r.pid == nadie || r.pagina == nadie)) [
  | inl t ↦ (0, r, rw t (ap some (omega arith)), refl, ground arith)
  | inr f ↦
      let (k, r', run, at, free) = libre_loop-found rs (i + 1) (ground arith) in
      (suc k, r', rw f (run ∙ ap some (omega arith)), at, free)
]

-- The search keeps a slot that `p` admits, with the most references so far.
pub victima_loop-some :
    (p : Ranura → Bool) (c : List Ranura) (i max_ref : ℕ) (victima : Option ℕ)
    → ((k : ℕ) × (r : Ranura) × (victima_loop p c i max_ref victima ≡ some (i + k))
        × (get_elem? c k ≡ some r)
        × (p r ≡ true)
        × (max_ref < r.t_last_ref)
        × ((j : ℕ) (q : Ranura)
            → get_elem? c j ≡ some q
            → p q ≡ true
            → q.t_last_ref ≤ r.t_last_ref))
      ⊎ ((victima_loop p c i max_ref victima ≡ victima)
          × ((j : ℕ) (q : Ranura) → get_elem? c j ≡ some q → p q ≡ true → q.t_last_ref ≤ max_ref))
unfolding victima_loop
victima_loop-some p [] i max_ref victima = inr (refl, λ j q e t. absurd (ground arith))
victima_loop-some p (r ∷ rs) i max_ref victima =
    elim (Bool-cases (p r && ltb max_ref r.t_last_ref)) [
      | inl t ↦ elim (victima_loop-some p rs (i + 1) r.t_last_ref (some i)) [
        | inl (k, r', run, at, admitted, more, most) ↦ inl (
          suc k,
          r',
          rw t (run ∙ ap some (omega arith)),
          at,
          admitted,
          ground arith,
          λ j q e pq. first j q r' e pq (omega arith) most,
        )
        | inr (run, most) ↦ inl (
          0,
          r,
          rw t (run ∙ ap some (omega arith)),
          refl,
          ground arith,
          ground arith,
          λ j q e pq. first j q r e pq (omega arith) most,
        )
      ]
      | inr f ↦ elim (victima_loop-some p rs (i + 1) max_ref victima) [
        | inl (k, r', run, at, admitted, more, most) ↦ inl (
          suc k,
          r',
          rw f (run ∙ ap some (omega arith)),
          at,
          admitted,
          more,
          λ j q e pq. second j q r'.t_last_ref e pq f (omega arith) most,
        )
        | inr (run, most) ↦ inr (rw f run, λ j q e pq. second j q max_ref e pq f (omega arith) most)
      ]
    ]
  where
    first :
        (j : ℕ) (q r' : Ranura)
        → get_elem? (r ∷ rs) j ≡ some q
        → p q ≡ true
        → r.t_last_ref ≤ r'.t_last_ref
        → ((j : ℕ) (q : Ranura)
            → get_elem? rs j ≡ some q
            → p q ≡ true
            → q.t_last_ref ≤ r'.t_last_ref)
        → q.t_last_ref ≤ r'.t_last_ref
    first zero q r' e pq le most = ground arith
    first (suc j) q r' e pq le most = most j q e pq

    second :
        (j : ℕ) (q : Ranura) (top : ℕ)
        → get_elem? (r ∷ rs) j ≡ some q
        → p q ≡ true
        → (p r && ltb max_ref r.t_last_ref) ≡ false
        → max_ref ≤ top
        → ((j : ℕ) (q : Ranura) → get_elem? rs j ≡ some q → p q ≡ true → q.t_last_ref ≤ top)
        → q.t_last_ref ≤ top
    second zero q top e pq f le most =
        let same : r ≡ q = ground arith in
        let f' : (p q && ltb max_ref q.t_last_ref) ≡ false = rw (← same) f in ground arith
    second (suc j) q top e pq f le most = most j q e pq

-- If a slot is listed for the process with more than 0 references, `buscar_victima_local` finds a
-- slot listed for the process, and no slot listed for the process has more references.
pub buscar_victima_local-most :
    (c : List Ranura) (pid i : ℕ) (r : Ranura)
    → get_elem? c i ≡ some r
    → r.admin_pid ≡ pid
    → 0 < r.t_last_ref
    → (k : ℕ) × (q : Ranura) × (buscar_victima_local c pid ≡ some k)
      × (get_elem? c k ≡ some q)
      × (q.admin_pid ≡ pid)
      × ((j : ℕ) (w : Ranura)
          → get_elem? c j ≡ some w
          → w.admin_pid ≡ pid
          → w.t_last_ref ≤ q.t_last_ref)
unfolding buscar_victima_local
buscar_victima_local-most c pid i r at own aged =
    elim (victima_loop-some (λ (r : Ranura). r.admin_pid == pid) c 0 0 none) [
      | inl (k, q, run, at_k, admitted, more, most) ↦ (
        k,
        q,
        run ∙ ap some (omega arith),
        at_k,
        ground arith,
        λ j w e same. most j w e (ground arith),
      )
      | inr (run, most) ↦ absurd (ground (arith, most i r at))
    ]
