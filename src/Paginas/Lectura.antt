-- ===== src/Paginas/Lectura.antt =====
-- `lecturaV2` of Memoria/Memoria.c and the cache: what a hit and a miss give.
use native.Mathlib.Omega.{arith}
use mathlib.Core.Option.{some-injective}
use tp_so_2017_twt.Prelude.{
  ℕ, zero, suc, ◌+◌, ◌-◌, ◌*◌, ◌<◌, ◌≤◌, ◌≡◌, ◌≢◌, refl, sym, ap, ◌∙◌, true, false, none, some,
  List, [], ◌∷◌, leb, length, get_elem?, get_elem?-set, get_elem?-some-lt, set, take, drop, ◌>>=◌,
  Bool-cases, inl, inr, ℕ_discrete,
}
use tp_so_2017_twt.Memoria.Defs.{Marcos}
use tp_so_2017_twt.Heap.Defs.{Bytes}
use tp_so_2017_twt.FileSystem.Datos.{read}
use tp_so_2017_twt.Cache.Defs.{
  Ranura, nadie, esta_en_cache, cantidad_de_entradas, aumentar_referencias,
}
use tp_so_2017_twt.Cache.Referencias.{
  envejecida_same, esta_en_cache-at, aumentar_referencias-at, IsPareja,
  insertar_entrada-aumentar_referencias,
}
use tp_so_2017_twt.Paginas.Defs.{
  Memoria, Config, ultima_ranura, buscar_entrada, set_zero_ref, buscar_frame, guardar_en_cache,
  lectura,
}

-- Each slot in use holds the bytes of the frame of its page.
pub record IsAlDia (k : Config) (t : Marcos) (m : Bytes) (c : List Ranura) : Type 0 where
  pub igual :
      (i : ℕ) (r : Ranura)
      → get_elem? c i ≡ some r
      → r.pid ≢ nadie
      → (f : ℕ) × (buscar_frame k t r.pid r.pagina ≡ some (some f))
        × (r.contenido ≡ read m (f * k.marco_size) k.marco_size)

pub read_place : (m : Bytes) (a b n l : ℕ) → a ≡ b → n ≡ l → read m a n ≡ read m b l
read_place m a b n l e f = ap (λ x. read m x n) e ∙ ap (read m b) f

pub take-read : (m : Bytes) (a n size : ℕ) → n ≤ size → take n (read m a size) ≡ read m a n
unfolding read
take-read m a zero size l = refl
take-read m a (suc n) zero l = absurd (omega arith)
take-read m a (suc n) (suc size) l = ap (λ t. m a ∷ t) (take-read m (a + 1) n size (omega arith))

pub drop-read :
    (m : Bytes) (a n size : ℕ) → n ≤ size → drop n (read m a size) ≡ read m (a + n) (size - n)
unfolding read
drop-read m a zero size l = read_place m a (a + 0) size (size - 0) (omega arith) (omega arith)
drop-read m a (suc n) zero l = absurd (omega arith)
drop-read m a (suc n) (suc size) l =
    drop-read m (a + 1) n size (omega arith)
    ∙ read_place m (a + 1 + n) (a + suc n) (size - n) (suc size - suc n) (omega arith) (omega arith)

-- The part of the bytes of a frame
slice-read :
    (m : Bytes) (a i n size : ℕ) → i + n ≤ size → take n (drop i (read m a size)) ≡ read m (a + i) n
slice-read m a i n size l =
    ap (take n) (drop-read m a i size (omega arith))
    ∙ take-read m (a + i) n (size - i) (omega arith)

ultima_ranura-none :
    (c : List Ranura) (pid pagina : ℕ)
    → esta_en_cache c pid pagina ≡ false
    → ultima_ranura c pid pagina ≡ none
unfolding ultima_ranura esta_en_cache
ultima_ranura-none [] pid pagina e = refl
ultima_ranura-none (r ∷ rs) pid pagina e =
    ground (arith, e, ultima_ranura-none rs pid pagina, Bool-cases (esta_en_cache rs pid pagina))

pub ultima_ranura-found :
    (c : List Ranura) (pid pagina : ℕ)
    → esta_en_cache c pid pagina ≡ true
    → (i : ℕ) × (r : Ranura) × (ultima_ranura c pid pagina ≡ some i)
      × (get_elem? c i ≡ some r)
      × (r.pid ≡ pid)
      × (r.pagina ≡ pagina)
unfolding ultima_ranura esta_en_cache
ultima_ranura-found [] pid pagina e = ground (arith, e)
ultima_ranura-found (r ∷ rs) pid pagina e = elim (Bool-cases (esta_en_cache rs pid pagina)) [
  | inl later ↦
      let (i, q, run, at, ep, eg) = ultima_ranura-found rs pid pagina later in
      (suc i, q, rw run refl, at, ep, eg)
  | inr gone ↦
      let none_later = ultima_ranura-none rs pid pagina gone in
      (
        0,
        r,
        rw none_later (ground (arith, e, gone)),
        refl,
        ground (arith, e, gone),
        ground (arith, e, gone),
      )
]

pub esta_en_cache-aumentar_referencias :
    (c : List Ranura) (pid pagina : ℕ)
    → esta_en_cache (aumentar_referencias c) pid pagina ≡ esta_en_cache c pid pagina
unfolding esta_en_cache aumentar_referencias
esta_en_cache-aumentar_referencias [] pid pagina = refl
esta_en_cache-aumentar_referencias (r ∷ rs) pid pagina =
    ground (arith, esta_en_cache-aumentar_referencias rs pid pagina)

-- A slot with the same page and bytes is as good.
pub aldia_same :
    (k : Config) (t : Marcos) (m : Bytes) (r q : Ranura)
    → q.pid ≡ r.pid
    → q.pagina ≡ r.pagina
    → q.contenido ≡ r.contenido
    → (f : ℕ) × (buscar_frame k t r.pid r.pagina ≡ some (some f))
      × (r.contenido ≡ read m (f * k.marco_size) k.marco_size)
    → (f : ℕ) × (buscar_frame k t q.pid q.pagina ≡ some (some f))
      × (q.contenido ≡ read m (f * k.marco_size) k.marco_size)
aldia_same k t m r q ep eg ec (f, run, bytes) =
    (f, ap (λ x. buscar_frame k t x q.pagina) ep ∙ ap (buscar_frame k t r.pid) eg ∙ run, ec ∙ bytes)

pub aumentar_referencias-IsAlDia :
    (k : Config) (t : Marcos) (m : Bytes) (c : List Ranura)
    → IsAlDia k t m c
    → IsAlDia k t m (aumentar_referencias c)
aumentar_referencias-IsAlDia k t m c v = record {
  igual = λ i q e n.
      let (r, at, is) = aumentar_referencias-at c i q e in
      let (ep, eg, ec) = envejecida_same r in
      aldia_same k t m r q (ap (λ (x : Ranura). x.pid) is ∙ ep)
        (ap (λ (x : Ranura). x.pagina) is ∙ eg) (ap (λ (x : Ranura). x.contenido) is ∙ ec)
        (v.igual i r at (λ z. n (ap (λ (x : Ranura). x.pid) is ∙ ep ∙ z)));
}

pub set_here :
    (c : List Ranura) (i j : ℕ) (r : Ranura)
    → i < length c
    → i ≡ j
    → get_elem? (set c i r) j ≡ some r
set_here c i j r l e = ground (arith, get_elem?-set c i r j l)

pub set_other :
    (c : List Ranura) (i j : ℕ) (r : Ranura)
    → i < length c
    → i ≢ j
    → get_elem? (set c i r) j ≡ get_elem? c j
set_other c i j r l n = ground (arith, get_elem?-set c i r j l)

-- The page that was found keeps its bytes when its count goes to 0.
pub set_zero_ref-IsAlDia :
    (k : Config) (t : Marcos) (m : Bytes) (c : List Ranura) (pid pagina : ℕ)
    → IsAlDia k t m c
    → esta_en_cache c pid pagina ≡ true
    → (c' : List Ranura) × (set_zero_ref c pid pagina ≡ some c')
      × IsAlDia k t m c'
      × (esta_en_cache c' pid pagina ≡ true)
unfolding set_zero_ref
set_zero_ref-IsAlDia k t m c pid pagina v e =
    let (i, r, run, at, ep, eg) = ultima_ranura-found c pid pagina e in
    (
      set c i (record r { t_last_ref = 0 }),
      rw (set_zero_ref, run, ◌>>=◌, at) refl,
      record {
        igual = λ j q f n. elim (ℕ_discrete i j) [
          | yes same ↦
              let is : record r { t_last_ref = 0 } ≡ q = some-injective _ q (
                sym (set_here c i j (record r { t_last_ref = 0 }) (get_elem?-some-lt c i at) same)
                ∙ f) in
              aldia_same k t m r q (ap (λ (x : Ranura). x.pid) (sym is))
                (ap (λ (x : Ranura). x.pagina) (sym is)) (ap (λ (x : Ranura). x.contenido) (sym is))
                (v.igual i r at (λ z. n (ap (λ (x : Ranura). x.pid) (sym is) ∙ z)))
          | no ne ↦
              v.igual j q
                (sym (set_other c i j (record r { t_last_ref = 0 }) (get_elem?-some-lt c i at) ne)
                  ∙ f)
                n
        ];
      },
      esta_en_cache-at (set c i (record r { t_last_ref = 0 })) i pid pagina
          (record r { t_last_ref = 0 })
          (set_here c i i (record r { t_last_ref = 0 }) (get_elem?-some-lt c i at) refl) ep eg,
    )

-- The page that gets a slot has the bytes of its frame.
pub guardar_en_cache-IsAlDia :
    (k : Config) (t : Marcos) (m : Bytes) (pid pagina f : ℕ) (c : List Ranura)
    → IsAlDia k t m c
    → buscar_frame k t pid pagina ≡ some (some f)
    → IsPareja c
    → 0 < length c
    → 0 < k.cache_x_proceso
    → cantidad_de_entradas c pid ≤ k.cache_x_proceso
    → (c' : List Ranura) × (guardar_en_cache k m pid pagina f c ≡ some c')
      × IsAlDia k t m c'
      × (esta_en_cache c' pid pagina ≡ true)
unfolding guardar_en_cache
guardar_en_cache-IsAlDia k t m pid pagina f c v e p l limit few =
    let contenido = read m (f * k.marco_size) k.marco_size in
    let (i, c', run, into, aged, size, pair, there, own, others) =
      insertar_entrada-aumentar_referencias k.cache_x_proceso pid pagina contenido c p l limit
        few in
    (
      c',
      run,
      record {
        igual = λ j q g n. elim (ℕ_discrete j i) [
          | yes same ↦
              let is : record {
                pid = pid;
                pagina = pagina;
                contenido = contenido;
                admin_pid = pid;
                t_last_ref = 0;
              }
                  ≡ q =
                some-injective _ q (sym into.slot ∙ ap (get_elem? c') (sym same) ∙ g) in
              (
                f,
                ap (λ (x : Ranura). buscar_frame k t x.pid x.pagina) (sym is) ∙ e,
                ap (λ (x : Ranura). x.contenido) (sym is),
              )
          | no ne ↦
              (aumentar_referencias-IsAlDia k t m c v).igual j q (sym (into.others j ne) ∙ g) n
        ];
      },
      there,
    )

lectura_hit :
    (k : Config) (s : Memoria) (pid pagina inicio n i : ℕ) (r : Ranura) (c : List Ranura)
    → leb (inicio + n) k.marco_size ≡ true
    → esta_en_cache s.cache pid pagina ≡ true
    → ultima_ranura s.cache pid pagina ≡ some i
    → get_elem? s.cache i ≡ some r
    → set_zero_ref (aumentar_referencias s.cache) r.pid r.pagina ≡ some c
    → lectura k s pid pagina inicio n ≡ some (some (take n (drop inicio r.contenido)), c)
unfolding lectura buscar_entrada
lectura_hit k s pid pagina inicio n i r c l e f g h =
    rw (lectura, l, e, buscar_entrada, f, ◌>>=◌, g, h) refl

lectura_miss :
    (k : Config) (s : Memoria) (pid pagina inicio n f : ℕ) (c : List Ranura)
    → leb (inicio + n) k.marco_size ≡ true
    → esta_en_cache s.cache pid pagina ≡ false
    → buscar_frame k s.marcos pid pagina ≡ some (some f)
    → guardar_en_cache k s.memoria pid pagina f s.cache ≡ some c
    → lectura k s pid pagina inicio n
      ≡ some (some (read s.memoria (f * k.marco_size + inicio) n), c)
unfolding lectura
lectura_miss k s pid pagina inicio n f c l e g h = rw (lectura, l, e, g, ◌>>=◌, h) refl

le→leb : (a b : ℕ) → a ≤ b → leb a b ≡ true
le→leb a b l = ground arith

pub lectura_hit-read :
    (k : Config) (s : Memoria) (pid pagina inicio n f : ℕ)
    → IsAlDia k s.marcos s.memoria s.cache
    → esta_en_cache s.cache pid pagina ≡ true
    → pid ≢ nadie
    → buscar_frame k s.marcos pid pagina ≡ some (some f)
    → inicio + n ≤ k.marco_size
    → (c : List Ranura) × (lectura k s pid pagina inicio n
        ≡ some (some (read s.memoria (f * k.marco_size + inicio) n), c))
      × IsAlDia k s.marcos s.memoria c
lectura_hit-read k s pid pagina inicio n f v hit someone e fits =
    let (i, r, run, at, ep, eg) = ultima_ranura-found s.cache pid pagina hit in
    let (g, frame, bytes) = v.igual i r at (λ z. someone (sym ep ∙ z)) in
    let same : g ≡ f = some-injective g f (
      some-injective (some g) (some f) (
        sym frame
        ∙ ap (λ x. buscar_frame k s.marcos x r.pagina) ep
        ∙ ap (buscar_frame k s.marcos pid) eg
        ∙ e)) in
    let (c, zero_run, w, cached) =
      set_zero_ref-IsAlDia k s.marcos s.memoria (aumentar_referencias s.cache) r.pid r.pagina
        (aumentar_referencias-IsAlDia k s.marcos s.memoria s.cache v)
        (esta_en_cache-aumentar_referencias s.cache r.pid r.pagina
          ∙ ap (λ x. esta_en_cache s.cache x r.pagina) ep
          ∙ ap (esta_en_cache s.cache pid) eg
          ∙ hit) in
    (
      c,
      lectura_hit k s pid pagina inicio n i r c (le→leb _ _ fits) hit run at zero_run
          ∙ ap (λ t. some (some t, c))
              (ap (λ t. take n (drop inicio t)) bytes
                ∙ slice-read s.memoria (g * k.marco_size) inicio n k.marco_size fits
                ∙ ap (λ x. read s.memoria (x * k.marco_size + inicio) n) same),
      w,
    )

-- In a memory whose cache is up to date and has at least one slot, where both arrays of the cache
-- agree on the process of each slot, the counts of references fit 32 bits, a process may have more
-- than 0 slots and the process has no more than it may: if the PID is not -1, the page has a frame
-- and the range lies inside the page, then `lecturaV2` gives the bytes of the frame, whether or
-- not the page is in the cache, and the cache stays up to date.
pub lectura-read :
    (k : Config) (s : Memoria) (pid pagina inicio n f : ℕ)
    → IsAlDia k s.marcos s.memoria s.cache
    → IsPareja s.cache
    → 0 < length s.cache
    → 0 < k.cache_x_proceso
    → cantidad_de_entradas s.cache pid ≤ k.cache_x_proceso
    → pid ≢ nadie
    → buscar_frame k s.marcos pid pagina ≡ some (some f)
    → inicio + n ≤ k.marco_size
    → (c : List Ranura) × (lectura k s pid pagina inicio n
        ≡ some (some (read s.memoria (f * k.marco_size + inicio) n), c))
      × IsAlDia k s.marcos s.memoria c
lectura-read k s pid pagina inicio n f v p l limit few someone e fits =
    elim (Bool-cases (esta_en_cache s.cache pid pagina)) [
      | inr miss ↦
          let (c, run, w, cached) =
            guardar_en_cache-IsAlDia k s.marcos s.memoria pid pagina f s.cache v e p l limit few in
          (c, lectura_miss k s pid pagina inicio n f c (le→leb _ _ fits) miss e run, w)
      | inl hit ↦ lectura_hit-read k s pid pagina inicio n f v hit someone e fits
    ]
