-- ===== src/Paginas/Vuelta.antt =====
-- `escritura` and then `lecturaV2` of Memoria/Memoria.c.
use native.Mathlib.Omega.{arith}
use mathlib.Core.Option.{some-injective}
use tp_so_2017_twt.Prelude.{
  ℕ, ◌+◌, ◌*◌, ◌<◌, ◌≤◌, ◌≡◌, ◌≢◌, refl, sym, ap, subst, ◌∙◌, true, false, some, List, length,
  get_elem?, get_elem?-some-lt, set, take, drop, ◌>>=◌, Bool-cases, inl, inr, ℕ_discrete, ◌++◌,
}
use tp_so_2017_twt.Memoria.Defs.{Marcos}
use tp_so_2017_twt.Heap.Defs.{Bytes}
use tp_so_2017_twt.FileSystem.Datos.{read, write}
use tp_so_2017_twt.Cache.Defs.{
  Ranura, nadie, esta_en_cache, cantidad_de_entradas, aumentar_referencias,
}
use tp_so_2017_twt.Cache.Referencias.{esta_en_cache-at, IsPareja}
use tp_so_2017_twt.Paginas.Defs.{
  Memoria, Config, ultima_ranura, set_zero_ref, buscar_frame, guardar_en_cache, escritura, lectura,
}
use tp_so_2017_twt.FileSystem.Sesion.{read-write}
use tp_so_2017_twt.Paginas.Lectura.{
  IsAlDia, ultima_ranura-found, aumentar_referencias-IsAlDia, set_zero_ref-IsAlDia,
  guardar_en_cache-IsAlDia, esta_en_cache-aumentar_referencias, set_here, set_other,
  lectura_hit-read,
}
use tp_so_2017_twt.Paginas.Escritura.{buscar_frame-one, other_frame, this_frame}

-- A page in use has one slot.
abbrev pub IsUnica : List Ranura → Type 0
IsUnica c =
    (i j : ℕ) (r q : Ranura)
    → get_elem? c i ≡ some r
    → get_elem? c j ≡ some q
    → q.pid ≡ r.pid
    → q.pagina ≡ r.pagina
    → r.pid ≢ nadie
    → j ≡ i

-- The slots of other pages hold what their frames hold after the write.
other_slot :
    (k : Config) (t : Marcos) (m : Bytes) (pid pagina f offset : ℕ) (value : List ℕ) (q : Ranura)
    → buscar_frame k t pid pagina ≡ some (some f)
    → offset + length value ≤ k.marco_size
    → (q.pid ≡ pid → q.pagina ≡ pagina → ⊥)
    → (g : ℕ) × (buscar_frame k t q.pid q.pagina ≡ some (some g))
      × (q.contenido ≡ read m (g * k.marco_size) k.marco_size)
    → (g : ℕ) × (buscar_frame k t q.pid q.pagina ≡ some (some g))
      × (q.contenido
          ≡ read (write m (f * k.marco_size + offset) value) (g * k.marco_size) k.marco_size)
other_slot k t m pid pagina f offset value q e fits differs (g, run, bytes) = (
  g,
  run,
  bytes
      ∙ sym (
          other_frame m f g k.marco_size offset value
            (λ same.
              let (ep, eg) =
                buscar_frame-one k t q.pid q.pagina pid pagina f
                  (run ∙ ap (λ x. some (some x)) same) e in
              differs ep eg)
            fits),
)

module _ (k : Config) (s : Memoria) (pid pagina f offset : ℕ) (value : List ℕ)
    (v : IsAlDia k s.marcos s.memoria s.cache) (someone : pid ≢ nadie)
    (e : buscar_frame k s.marcos pid pagina ≡ some (some f))
    (fits : offset + length value ≤ k.marco_size) where
  escrita : Bytes
  escrita = write s.memoria (f * k.marco_size + offset) value

  miss-IsAlDia : esta_en_cache s.cache pid pagina ≡ false → IsAlDia k s.marcos escrita s.cache
  unfolding escrita
  miss-IsAlDia miss = record {
    igual = λ j q at n.
        other_slot k s.marcos s.memoria pid pagina f offset value q e fits
          (λ ep eg. ground (arith, miss, esta_en_cache-at s.cache j pid pagina q at ep eg))
          (v.igual j q at n);
  }

  -- The slot of the page after the write
  con_valor : Ranura → Ranura
  con_valor r = record r {
    contenido = take offset r.contenido ++ (value ++ drop (offset + length value) r.contenido);
  }

  con_valor_same : (r : Ranura) → ((con_valor r).pid ≡ r.pid) × ((con_valor r).pagina ≡ r.pagina)
  unfolding con_valor
  con_valor_same r = (refl, refl)

  hit-IsAlDia :
      (i : ℕ) (r : Ranura)
      → IsUnica s.cache
      → get_elem? s.cache i ≡ some r
      → r.pid ≡ pid
      → r.pagina ≡ pagina
      → IsAlDia k s.marcos escrita (set s.cache i (con_valor r))
  unfolding con_valor escrita
  hit-IsAlDia i r one at ep eg = record {
    igual = λ j q f' n. elim (ℕ_discrete i j) [
      | yes same ↦
          let is : con_valor r ≡ q =
            some-injective (con_valor r) q (
              sym (set_here s.cache i j (con_valor r) (get_elem?-some-lt s.cache i at) same)
              ∙ f') in
          let (g, run, bytes) = v.igual i r at (λ z. someone (sym ep ∙ z)) in
          let g_f : g ≡ f = some-injective g f (
            some-injective (some g) (some f) (
              sym run
              ∙ ap (λ x. buscar_frame k s.marcos x r.pagina) ep
              ∙ ap (buscar_frame k s.marcos pid) eg
              ∙ e)) in
          subst
            (λ x.
              (g : ℕ) × (buscar_frame k s.marcos x.pid x.pagina ≡ some (some g))
              × (x.contenido ≡ read escrita (g * k.marco_size) k.marco_size))
            is
            (
              g,
              run,
              this_frame s.memoria (g * k.marco_size) k.marco_size offset value r.contenido fits
                    bytes
                  ∙ ap
                      (λ x.
                        read (write s.memoria (x * k.marco_size + offset) value) (g * k.marco_size)
                          k.marco_size)
                      g_f,
            )
      | no ne ↦
          let old =
            sym (set_other s.cache i j (con_valor r) (get_elem?-some-lt s.cache i at) ne) ∙ f' in
          other_slot k s.marcos s.memoria pid pagina f offset value q e fits
            (λ qp qg.
              ne (sym (one i j r q at old (qp ∙ sym ep) (qg ∙ sym eg) (λ z. someone (sym ep ∙ z)))))
            (v.igual j q old n)
    ];
  }

  miss_run :
      (c : List Ranura)
      → esta_en_cache s.cache pid pagina ≡ false
      → guardar_en_cache k escrita pid pagina f s.cache ≡ some c
      → escritura k s pid pagina offset value ≡ some (record s { memoria = escrita; cache = c })
  unfolding escritura escrita
  miss_run c miss g = rw (escritura, e, ◌>>=◌, miss, g) refl

  hit_run :
      (i : ℕ) (r : Ranura) (c : List Ranura)
      → esta_en_cache s.cache pid pagina ≡ true
      → ultima_ranura s.cache pid pagina ≡ some i
      → get_elem? s.cache i ≡ some r
      → set_zero_ref (aumentar_referencias (set s.cache i (con_valor r))) r.pid r.pagina ≡ some c
      → escritura k s pid pagina offset value ≡ some (record s { memoria = escrita; cache = c })
  unfolding escritura escrita con_valor
  hit_run i r c hit last at zeroed = rw (escritura, e, ◌>>=◌, hit, last, at, zeroed) refl

  -- What a write leaves, whichever way it goes
  escritura_done :
      IsUnica s.cache
      → IsPareja s.cache
      → 0 < length s.cache
      → 0 < k.cache_x_proceso
      → cantidad_de_entradas s.cache pid ≤ k.cache_x_proceso
      → (c : List Ranura) × (escritura k s pid pagina offset value
          ≡ some (record s { memoria = escrita; cache = c }))
        × IsAlDia k s.marcos escrita c
        × (esta_en_cache c pid pagina ≡ true)
  escritura_done one pair l limit few = elim (Bool-cases (esta_en_cache s.cache pid pagina)) [
    | inr miss ↦
        let (c, run, w, cached) =
          guardar_en_cache-IsAlDia k s.marcos escrita pid pagina f s.cache (miss-IsAlDia miss) e
            pair l limit few in
        (c, miss_run c miss run, w, cached)
    | inl hit ↦
        let (i, r, last, at, ep, eg) = ultima_ranura-found s.cache pid pagina hit in
        let c₁ = set s.cache i (con_valor r) in
        let here = set_here s.cache i i (con_valor r) (get_elem?-some-lt s.cache i at) refl in
        let (c, run, w, cached) =
          set_zero_ref-IsAlDia k s.marcos escrita (aumentar_referencias c₁) r.pid r.pagina
            (aumentar_referencias-IsAlDia k s.marcos escrita c₁ (hit-IsAlDia i r one at ep eg))
            (esta_en_cache-aumentar_referencias c₁ r.pid r.pagina
              ∙ esta_en_cache-at c₁ i r.pid r.pagina (con_valor r) here (con_valor_same r).0
                  (con_valor_same r).1) in
        (
          c,
          hit_run i r c hit last at run,
          w,
          ap (λ x. esta_en_cache c x pagina) (sym ep)
              ∙ ap (esta_en_cache c r.pid) (sym eg)
              ∙ cached,
        )
  ]

  -- In a memory whose cache is up to date, has at least one slot and at most one slot for each
  -- page of a process, where both arrays of the cache agree on the process of each slot, the
  -- counts of references fit 32 bits, a process may have more than 0 slots and the process has no
  -- more than it may: if the PID is not -1, the page has a frame and the range lies inside the
  -- page, then `escritura` succeeds, `lecturaV2` of the same range then gives the bytes that were
  -- written, the cache is up to date, and the bytes of every other frame are as they were.
  pub escritura-lectura :
      IsUnica s.cache
      → IsPareja s.cache
      → 0 < length s.cache
      → 0 < k.cache_x_proceso
      → cantidad_de_entradas s.cache pid ≤ k.cache_x_proceso
      → (s' : Memoria) × (c : List Ranura) × (escritura k s pid pagina offset value ≡ some s')
        × IsAlDia k s'.marcos s'.memoria s'.cache
        × (lectura k s' pid pagina offset (length value) ≡ some (some value, c))
        × ((g : ℕ)
            → g ≢ f
            → read s'.memoria (g * k.marco_size) k.marco_size
              ≡ read s.memoria (g * k.marco_size) k.marco_size)
  unfolding escrita
  escritura-lectura one pair l limit few =
      let (c, run, w, cached) = escritura_done one pair l limit few in
      let s' : Memoria = record s { memoria = escrita; cache = c } in
      let (c', read_back, w') =
        lectura_hit-read k s' pid pagina offset (length value) f w cached someone e fits in
      (
        s',
        c',
        run,
        w,
        read_back
            ∙ ap (λ x. some (some x, c'))
                (read-write s.memoria (f * k.marco_size + offset) value (length value) refl),
        λ g n. other_frame s.memoria f g k.marco_size offset value n fits,
      )
