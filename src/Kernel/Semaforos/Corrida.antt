-- ===== src/Kernel/Semaforos/Corrida.antt =====
-- Sequences of WAIT and SIGNAL in Kernel/Kernel.c, as the kernel answers them one after the other.
use Prim.Native.String.{String}
use text.Mathlib.Text.{◌==◌ as str_eq}
use text.Mathlib.TextEquality.{eq_iff}
use native.Mathlib.Omega.{arith}
use tp_so_2017_twt.Prelude.{
  ℕ, ◌+◌, ◌<◌, ◌-◌, ◌≤◌, ◌^◌, ◌≡◌, inl, inr, refl, sym, ap, subst, ◌∙◌, false, some, List, [], ◌∷◌,
  ◌>>=◌, length, All, pos_part, neg_part, Bool-cases,
}
use tp_so_2017_twt.Kernel.Archivos.Tablas.{i32}
use tp_so_2017_twt.Kernel.Semaforos.Defs.{SemaforoCola, Procesos}
use tp_so_2017_twt.Kernel.Semaforos.Lista.{con_id, IsCambio}
use tp_so_2017_twt.Kernel.Semaforos.Mensajes.{
  Evento, espera, avisa, paso, corre, esperas, avisos, contestadas, pasan, bloqueadas, esperas-cons,
  avisos-cons,
}
use tp_so_2017_twt.Kernel.Semaforos.Defs.{Destino, sigue}
use tp_so_2017_twt.Kernel.Semaforos.Balance.{valor_de, IsConocido, IsSano, IsIgual, IsConocido-same}
use tp_so_2017_twt.Kernel.Semaforos.Atencion.{IsPaso, atender_signal-IsAvisado}
use tp_so_2017_twt.Kernel.Semaforos.Respuestas.{
  IsContestado, espera-IsContestado, avisa-IsContestado,
}
use tp_so_2017_twt.Kernel.Semaforos.Espera.{atender_wait-IsEsperado}

-- There is one semaphore of this name.
abbrev pub Hay : Procesos → String → Type 0
Hay s id = (x : SemaforoCola) × (con_id id s.semaforos ≡ x ∷ [])

abbrev pub IsPosible : Procesos → Evento → Type 0
IsPosible s (espera id p) = Hay s id × IsConocido s p
IsPosible s (avisa id) = Hay s id

-- The values before and after: each WAIT takes 1, each SIGNAL gives 1. Every WAIT is answered by going
-- on or by waiting, and a queue gets no process but those that were told to wait.
pub record IsConservado (es : List Evento) (ds : List Destino) (s s' : Procesos) : Type 0 where
  pub valores :
      (id : String) (x : SemaforoCola)
      → con_id id s.semaforos ≡ x ∷ []
      → (x' : SemaforoCola) × (con_id id s'.semaforos ≡ x' ∷ [])
        × (pos_part (valor_de x') + neg_part (valor_de x) + esperas id es
            ≡ pos_part (valor_de x) + neg_part (valor_de x') + avisos id es)
        × (length x'.cola_de_bloqueados ≤ length x.cola_de_bloqueados + bloqueadas id es ds)
  pub respuestas : (id : String) → pasan id es ds + bloqueadas id es ds ≡ esperas id es

Hay-cambio :
    (s s' : Procesos) (j id : String) (x' : SemaforoCola)
    → IsCambio j s.semaforos s'.semaforos x'
    → Hay s id
    → Hay s' id
Hay-cambio s s' j id x' c (x, e) = elim (Bool-cases (str_eq id j)) [
  | inl f ↦ (x', rw ((eq_iff id j).0 f) c.aqui)
  | inr f ↦ (x, c.otros id (λ g. ground (arith, f, (eq_iff id j).1 g)) ∙ e)
]

All-possible :
    (s s' : Procesos) (j : String) (x' : SemaforoCola) (es : List Evento)
    → IsCambio j s.semaforos s'.semaforos x'
    → IsIgual s s'
    → All (IsPosible s) es
    → All (IsPosible s') es
All-possible s s' j x' [] c i a = tt
All-possible s s' j x' (espera id p ∷ es) c i a = (
  (Hay-cambio s s' j id x' c a.0.0, IsConocido-same s s' p i a.0.1),
  All-possible s s' j x' es c i a.1,
)
All-possible s s' j x' (avisa id ∷ es) c i a =
    (Hay-cambio s s' j id x' c a.0, All-possible s s' j x' es c i a.1)

-- One answer, of either kind
un_paso :
    (k : ℕ) (e : Evento) (s : Procesos)
    → IsSano k s
    → k + 1 < 2 ^ 31
    → IsPosible s e
    → (j : String) × (destino : Destino) × (s' : Procesos) × (x x' : SemaforoCola) × (paso e s
        ≡ some (destino, s'))
      × IsPaso k j s s' x x'
      × (con_id j s.semaforos ≡ x ∷ [])
      × ((id : String)
          → (str_eq j id ≡ false)
          → (esperas id (e ∷ []) ≡ 0) × (avisos id (e ∷ []) ≡ 0))
      × (pos_part (valor_de x') + neg_part (valor_de x) + esperas j (e ∷ [])
          ≡ pos_part (valor_de x) + neg_part (valor_de x') + avisos j (e ∷ []))
      × IsContestado j e destino x x'
unfolding paso esperas avisos
un_paso k (espera j p) s v l ((x, e), known) =
    let (destino, s', x', run, step, waited) = atender_wait-IsEsperado k j p s x v l e known in
    (
      j,
      destino,
      s',
      x,
      x',
      run,
      step,
      e,
      λ id f. (rw f refl, refl),
      ground (arith, waited.baja, (eq_iff j j).1 refl),
      espera-IsContestado j p destino s s' x x' waited,
    )
un_paso k (avisa j) s v l (x, e) =
    let (s', x', run, step, woken) = atender_signal-IsAvisado k j s x v l e in
    (
      j,
      sigue,
      s',
      x,
      x',
      run,
      step,
      e,
      λ id f. (refl, rw f refl),
      ground (arith, woken.sube, (eq_iff j j).1 refl),
      avisa-IsContestado j s s' x x' woken,
    )

-- The value of every semaphore after one answer
un_valor :
    (k : ℕ) (e : Evento) (d : Destino) (s s' : Procesos) (j : String) (x x' : SemaforoCola)
    → IsPaso k j s s' x x'
    → con_id j s.semaforos ≡ x ∷ []
    → ((id : String) → str_eq j id ≡ false → (esperas id (e ∷ []) ≡ 0) × (avisos id (e ∷ []) ≡ 0))
    → (pos_part (valor_de x') + neg_part (valor_de x) + esperas j (e ∷ [])
        ≡ pos_part (valor_de x) + neg_part (valor_de x') + avisos j (e ∷ []))
    → IsContestado j e d x x'
    → IsConservado (e ∷ []) (d ∷ []) s s'
un_valor k e d s s' j x x' step there zeros count answer = record {
  respuestas = answer.respuesta;
  valores = λ id y f. elim (Bool-cases (str_eq j id)) [
    | inl g ↦
        let j_id = (eq_iff j id).0 g in
        let same : x ≡ y = head_eq x y (sym there ∙ ap (λ i. con_id i s.semaforos) j_id ∙ f) in
        (
          x',
          subst (λ i. con_id i s'.semaforos ≡ x' ∷ []) j_id step.cambio.aqui,
          subst
              (λ i.
                pos_part (valor_de x') + neg_part (valor_de y) + esperas i (e ∷ [])
                ≡ pos_part (valor_de y) + neg_part (valor_de x') + avisos i (e ∷ []))
              j_id
              (subst
                (λ z.
                  pos_part (valor_de x') + neg_part (valor_de z) + esperas j (e ∷ [])
                  ≡ pos_part (valor_de z) + neg_part (valor_de x') + avisos j (e ∷ []))
                same count),
          subst
              (λ i.
                length x'.cola_de_bloqueados
                ≤ length y.cola_de_bloqueados + bloqueadas i (e ∷ []) (d ∷ []))
              j_id
              (subst
                (λ (z : SemaforoCola).
                  length x'.cola_de_bloqueados
                  ≤ length z.cola_de_bloqueados + bloqueadas j (e ∷ []) (d ∷ []))
                same answer.cola),
        )
    | inr g ↦ (
      y,
      step.cambio.otros id (λ h. ground (arith, g, (eq_iff j id).1 (sym h))) ∙ f,
      omega (arith, (zeros id g).0, (zeros id g).1),
      omega arith,
    )
  ];
}
  where
    head_eq : (a b : SemaforoCola) → a ∷ [] ≡ b ∷ [] → a ≡ b
    head_eq a b h = ground (arith, h)

IsConservado-trans :
    (e : Evento) (es : List Evento) (d : Destino) (ds : List Destino) (s s' s'' : Procesos)
    → IsConservado (e ∷ []) (d ∷ []) s s'
    → IsConservado es ds s' s''
    → IsConservado (e ∷ es) (d ∷ ds) s s''
unfolding contestadas
IsConservado-trans e es d ds s s' s'' a b = record {
  valores = λ id x f.
      let (y, g, m, q) = a.valores id x f in
      let (z, h, n, r) = b.valores id y g in
      (z, h, omega (arith, m, n, esperas-cons id e es, avisos-cons id e es), omega (arith, q, r));
  respuestas = λ id. omega (arith, a.respuestas id, b.respuestas id, esperas-cons id e es);
}

-- Under the same conditions on the state and the sequence of WAIT and SIGNAL, the kernel answers
-- all of it; the value of each semaphore that exists once, as an `int32_t`, has sunk by 1 for each
-- WAIT and grown by 1 for each SIGNAL on it, its queue is no longer than before but for the
-- processes that were answered to wait, each WAIT is answered by going on or by being blocked, and
-- every semaphore is balanced at the end: a negative value counts the processes in the queue, each
-- of which the kernel knows.
pub corre-IsConservado :
    (es : List Evento) (k : ℕ) (s : Procesos)
    → IsSano k s
    → k + length es < 2 ^ 31
    → All (IsPosible s) es
    → (ds : List Destino) × (s' : Procesos) × (corre es s ≡ some (ds, s'))
      × IsSano (k + length es) s'
      × IsConservado es ds s s'
unfolding corre esperas avisos contestadas
corre-IsConservado [] k s v l a = (
  [],
  s,
  refl,
  subst (λ n. IsSano n s) (omega arith) v,
  record { valores = λ id x f. (x, f, omega arith, omega arith); respuestas = λ id. refl },
)
corre-IsConservado (e ∷ es) k s v l a =
    let (j, destino, s₁, x, x', run, step, there, zeros, count, answer) =
      un_paso k e s v (omega arith) a.0 in
    let (ds, s₂, runs, v₂, kept) =
      corre-IsConservado es (k + 1) s₁ step.sano (omega arith)
        (All-possible s s₁ j x' es step.cambio step.igual a.1) in
    (
      destino ∷ ds,
      s₂,
      rw (run, ◌>>=◌, runs) refl,
      subst (λ n. IsSano n s₂) (omega arith) v₂,
      IsConservado-trans e es destino ds s s₁ s₂
          (un_valor k e destino s s₁ j x x' step there zeros count answer) kept,
    )

no_libre : (v : ℕ) → 0 < neg_part (i32 v) → pos_part (i32 v) ≡ 0
unfolding i32
no_libre v p = ground (arith, p)

-- From a state where every semaphore is balanced with values at most `k` away from 0, and no
-- process is to be deleted, the kernel answers every sequence of WAIT and SIGNAL on semaphores
-- that exist once, by processes that it knows, as long as `k` and the length of the sequence stay
-- below 2^31 together. For a semaphore with nobody in its queue at the start, each WAIT is
-- answered by going on or by being blocked, the queue at the end holds no more than were blocked,
-- and the processes that went on at once and those blocked that are no longer in the queue are
-- together at most its value at the start and the signals, and exactly as many while some process
-- waits.
pub corre-excluye :
    (es : List Evento) (k : ℕ) (s : Procesos) (id : String) (x : SemaforoCola)
    → IsSano k s
    → k + length es < 2 ^ 31
    → All (IsPosible s) es
    → con_id id s.semaforos ≡ x ∷ []
    → x.cola_de_bloqueados ≡ []
    → (ds : List Destino) × (s' : Procesos) × (x' : SemaforoCola) × (corre es s ≡ some (ds, s'))
      × (con_id id s'.semaforos ≡ x' ∷ [])
      × (pasan id es ds + bloqueadas id es ds ≡ esperas id es)
      × (length x'.cola_de_bloqueados ≤ bloqueadas id es ds)
      × (pasan id es ds + (bloqueadas id es ds - length x'.cola_de_bloqueados)
          ≤ pos_part (valor_de x) + avisos id es)
      × (0 < length x'.cola_de_bloqueados
          → pasan id es ds + (bloqueadas id es ds - length x'.cola_de_bloqueados)
            ≡ pos_part (valor_de x) + avisos id es)
corre-excluye es k s id x v l a f empty =
    let (ds, s', run, v', kept) = corre-IsConservado es k s v l a in
    let (x', g, count, longer) = kept.valores id x f in
    let b = v.cada id x f in
    let b' = v'.cada id x' g in
    let queued : length x'.cola_de_bloqueados ≤ bloqueadas id es ds =
      omega (arith, longer, ap length empty) in
    (
      ds,
      s',
      x',
      run,
      g,
      kept.respuestas id,
      queued,
      omega (arith, count, b.negativo, b'.negativo, ap length empty, kept.respuestas id, queued),
      λ p. ground (
        arith,
        count,
        b.negativo,
        b'.negativo,
        ap length empty,
        no_libre x'.valor,
        kept.respuestas id,
        queued,
      ),
    )
