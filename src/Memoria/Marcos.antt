-- ===== src/Memoria/Marcos.antt =====
-- A change of one entry of the page table of Memoria/Memoria.c together with its place in the index,
-- and the loop body of `buscar_espacioV2`.
use tp_so_2017_twt.Prelude.{
  ℕ, ◌+◌, ◌<◌, ◌≡◌, ◌≢◌, refl, sym, ◌∙◌, true, some, List, [], ◌∷◌, ◌++◌, arith, ◌==◌,
  if◌then◌else◌, get_elem?, set, ◌>>=◌, inl, inr, ◌⊎◌, length-set, get_elem?-set, get_elem?-lt-some,
  get_elem?-some-lt, count_if-set, ℕ_discrete,
}
use tp_so_2017_twt.Memoria.Defs.{
  EntradaTabla, libre, de_admin, Marcos, marcos_libres, paginas_de_proceso, calcular_posicion,
  agregar_frame_en_indice, ocupar_frame,
}
use tp_so_2017_twt.Memoria.Indice.{
  cuenta, es_proceso, esperada, esperada-libre, esperada-proceso, IsCoherent, cuenta-append_one,
  calcular_posicion-lt, buscar_libre-found,
}

-- The PID of a process, which is neither that of a free frame nor that of the table's frames
abbrev pub IsPid : ℕ → Type 0
IsPid pid = (pid ≢ libre) × (pid ≢ de_admin)

-- An entry and its frame's place in the index change together.
module _ (marcos : ℕ) (m : Marcos) (v : IsCoherent marcos m) (f h : ℕ) (e e' : EntradaTabla)
    (fs fs' : List ℕ) (at : get_elem? m.tabla f ≡ some e)
    (list_at : get_elem? m.hash_index h ≡ some fs) (same_frame : e'.frame ≡ f) where
  abbrev pub changed : Marcos
  changed = record { tabla = set m.tabla f e'; hash_index = set m.hash_index h fs' }

  changed_at :
      (i : ℕ) → get_elem? (set m.tabla f e') i ≡ (if f == i then some e' else get_elem? m.tabla i)
  changed_at i = get_elem?-set m.tabla f e' i (get_elem?-some-lt m.tabla f at)

  changed_list_at :
      (k : ℕ)
      → get_elem? (set m.hash_index h fs') k
        ≡ (if h == k then some fs' else get_elem? m.hash_index k)
  changed_list_at k = get_elem?-set m.hash_index h fs' k (get_elem?-some-lt m.hash_index h list_at)

  -- An entry after the change is the new one or an old one, and so is a list.
  changed_cases :
      (i : ℕ) (c : EntradaTabla)
      → get_elem? changed.tabla i ≡ some c
      → ((i ≡ f) × (c ≡ e')) ⊎ ((i ≢ f) × (get_elem? m.tabla i ≡ some c))
  changed_cases i c ec = elim (ℕ_discrete i f) [
    | yes same ↦ inl (same, ground (arith, changed_at i))
    | no ne ↦ inr (ne, ground (arith, changed_at i))
  ]

  changed_list_cases :
      (k : ℕ) (gs : List ℕ)
      → get_elem? changed.hash_index k ≡ some gs
      → ((k ≡ h) × (gs ≡ fs')) ⊎ ((k ≢ h) × (get_elem? m.hash_index k ≡ some gs))
  changed_list_cases k gs eg = elim (ℕ_discrete k h) [
    | yes same ↦ inl (same, ground (arith, changed_list_at k))
    | no ne ↦ inr (ne, ground (arith, changed_list_at k))
  ]

  module _ (others : (i : ℕ) → i ≢ f → cuenta i fs' ≡ cuenta i fs)
      (here : cuenta f fs' ≡ esperada marcos e' h)
      (away : (k : ℕ) → k ≢ h → esperada marcos e' k ≡ esperada marcos e k) where
    changed_indexed :
        (i : ℕ) (c : EntradaTabla) (k : ℕ) (gs : List ℕ)
        → get_elem? changed.tabla i ≡ some c
        → get_elem? changed.hash_index k ≡ some gs
        → cuenta i gs ≡ esperada marcos c k
    changed_indexed i c k gs ec eg = elim (changed_cases i c ec) [
      | inl (same, new) ↦ elim (changed_list_cases k gs eg) [
        | inl (same_k, new_k) ↦ rw (same, new, same_k, new_k) here
        | inr (ne, old) ↦ rw (same, new) (v.indexed f e k gs at old ∙ sym (away k ne))
      ]
      | inr (ne_i, old_i) ↦ elim (changed_list_cases k gs eg) [
        | inl (same_k, new_k) ↦
            rw (same_k, new_k) (others i ne_i ∙ v.indexed i c h fs old_i list_at)
        | inr (ne, old) ↦ v.indexed i c k gs old_i old
      ]
    ]

    pub changed-IsCoherent :
        (es_proceso e' ≡ true → (k : ℕ) × (calcular_posicion marcos e'.pid e'.pagina ≡ some k))
        → IsCoherent marcos changed
    changed-IsCoherent has_place = record {
      frames = length-set m.tabla f e' ∙ v.frames;
      listas = length-set m.hash_index h fs' ∙ v.listas;
      numbered = λ i c ec. ground (arith, changed_at i, v.numbered i c);
      placed = λ i c ec p. elim (changed_cases i c ec) [
        | inl (same, new) ↦ rw new (has_place (rw new at p))
        | inr (ne, old) ↦ v.placed i c old p
      ];
      indexed = changed_indexed;
      known = λ i k gs le eg. elim (changed_list_cases k gs eg) [
        | inl (same_k, new_k) ↦ rw new_k (
            others i (λ t. absurd (omega (arith, get_elem?-some-lt m.tabla f at, v.frames)))
            ∙ v.known i h fs le list_at)
        | inr (ne, old) ↦ v.known i k gs le old
      ];
    }

pub es_proceso-IsPid : (e : EntradaTabla) → IsPid e.pid → es_proceso e ≡ true
es_proceso-IsPid e p = ground (arith, p.0, p.1)

-- The state after a process got frame `f`, which was free, for its page: one free frame less, and
-- no other entry has changed.
pub record IsOcupado (marcos pid pagina : ℕ) (m m' : Marcos) (f : ℕ) : Type 0 where
  pub coherent : IsCoherent marcos m'
  pub was_free : (e : EntradaTabla) × (get_elem? m.tabla f ≡ some e) × (e.pid ≡ libre)
  pub taken : get_elem? m'.tabla f ≡ some (record { frame = f; pid = pid; pagina = pagina })
  pub others : (i : ℕ) → i ≢ f → get_elem? m'.tabla i ≡ get_elem? m.tabla i
  pub libres : marcos_libres m'.tabla + 1 ≡ marcos_libres m.tabla
  pub propias : paginas_de_proceso m'.tabla pid ≡ paginas_de_proceso m.tabla pid + 1
  pub ajenas :
      (q : ℕ) → q ≢ pid → q ≢ libre → paginas_de_proceso m'.tabla q ≡ paginas_de_proceso m.tabla q

module _ (marcos pid pagina h : ℕ) (m : Marcos) (v : IsCoherent marcos m) (p : IsPid pid)
    (place : calcular_posicion marcos pid pagina ≡ some h) where
  abbrev pub taken_entry : ℕ → EntradaTabla
  taken_entry f = record { frame = f; pid = pid; pagina = pagina }

  taken-IsOcupado :
      (f : ℕ) (e : EntradaTabla) (fs : List ℕ)
      → get_elem? m.tabla f ≡ some e
      → e.pid ≡ libre
      → get_elem? m.hash_index h ≡ some fs
      → IsOcupado marcos pid pagina m
          (record {
            tabla = set m.tabla f (taken_entry f);
            hash_index = set m.hash_index h (fs ++ (f ∷ []));
          })
          f
  unfolding marcos_libres paginas_de_proceso
  taken-IsOcupado f e fs at free list_at =
      let lt = get_elem?-some-lt m.tabla f at in
      let proc : es_proceso (taken_entry f) ≡ true = es_proceso-IsPid (taken_entry f) p in
      record {
        coherent =
            changed-IsCoherent marcos m v f h e (taken_entry f) fs (fs ++ (f ∷ [])) at list_at refl
              (λ i ne. ground (arith, cuenta-append_one i fs f))
              (ground (
                arith,
                cuenta-append_one f fs f,
                v.indexed f e h fs at list_at,
                esperada-libre marcos e h free,
                esperada-proceso marcos (taken_entry f) h h proc place,
              ))
              (λ k ne. ground (
                arith,
                esperada-libre marcos e k free,
                esperada-proceso marcos (taken_entry f) h k proc place,
              ))
              (λ t. (h, place));
        was_free = (e, at, free);
        taken = ground (arith, get_elem?-set m.tabla f (taken_entry f) f lt);
        others = λ i ne. ground (arith, get_elem?-set m.tabla f (taken_entry f) i lt);
        libres = ground (
          arith,
          count_if-set (λ (c : EntradaTabla). c.pid == libre) m.tabla f (taken_entry f) e at,
          p.0,
        );
        propias = ground (
          arith,
          count_if-set (λ (c : EntradaTabla). c.pid == pid) m.tabla f (taken_entry f) e at,
          p.0,
        );
        ajenas = λ q ne nl.
            ground (
              arith,
              count_if-set (λ (c : EntradaTabla). c.pid == q) m.tabla f (taken_entry f) e at,
            );
      }

  -- With a free frame, `ocupar_frame` gives it to the process.
  pub ocupar_frame-IsOcupado :
      0 < marcos_libres m.tabla
      → (f : ℕ) × (m' : Marcos) × (ocupar_frame marcos pid pagina m ≡ some (f, m'))
        × IsOcupado marcos pid pagina m m' f
  unfolding ocupar_frame agregar_frame_en_indice
  ocupar_frame-IsOcupado room =
      let lt = calcular_posicion-lt marcos pid pagina h place in
      let (f, e, found, at, free) = buscar_libre-found marcos m.tabla h v.frames lt room in
      let (fs, list_at) = get_elem?-lt-some m.hash_index h (omega (arith, v.listas)) in
      let same : e.frame ≡ f = v.numbered f e at in
      (f, _, rw (place, ◌>>=◌, found, at, list_at, same), taken-IsOcupado f e fs at free list_at)
