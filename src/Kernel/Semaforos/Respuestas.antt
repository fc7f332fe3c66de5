-- ===== src/Kernel/Semaforos/Respuestas.antt =====
-- What a processor hears about one WAIT or SIGNAL of Kernel/Kernel.c, against the queue of the semaphore.
use Prim.Native.String.{String}
use text.Mathlib.TextEquality.{eq_iff}
use native.Mathlib.Omega.{arith}
use tp_so_2017_twt.Prelude.{
  ◌⊎◌, length-append, dec_lt, ◌++◌, ◌+◌, ◌≤◌, ◌≡◌, inl, inr, refl, List, [], ◌∷◌, length, pos_part,
}
use tp_so_2017_twt.Pcb.Defs.{Pcb}
use tp_so_2017_twt.Kernel.Semaforos.Defs.{SemaforoCola, Procesos}
use tp_so_2017_twt.Kernel.Semaforos.Mensajes.{
  Evento, espera, avisa, esperas, contestadas, pasan, bloqueadas, le_toca_seguir, le_toca_esperar,
}
use tp_so_2017_twt.Kernel.Semaforos.Defs.{Destino, sigue, bloqueado}
use tp_so_2017_twt.Kernel.Semaforos.Balance.{valor_de}
use tp_so_2017_twt.Kernel.Semaforos.Atencion.{IsAvisado}
use tp_so_2017_twt.Kernel.Semaforos.Espera.{IsEsperado}

-- The two answers to a WAIT that a processor gets
wait_answers :
    (p : Pcb) (destino : Destino) (s s' : Procesos) (x x' : SemaforoCola)
    → IsEsperado p destino s s' x x'
    → ((destino ≡ sigue) × (x'.cola_de_bloqueados ≡ x.cola_de_bloqueados))
      ⊎ ((destino ≡ bloqueado) × (x'.cola_de_bloqueados ≡ x.cola_de_bloqueados ++ (p ∷ [])))
wait_answers p destino s s' x x' w = elim (dec_lt 0 (pos_part (valor_de x))) [
  | yes free ↦ let (d, c, _) = w.pasa free in inl (d, c)
  | no full ↦ let (d, c, _, _) = w.espera (omega (arith, full)) in inr (d, c)
]

signal_shortens :
    (s s' : Procesos) (x x' : SemaforoCola)
    → IsAvisado s s' x x'
    → length x'.cola_de_bloqueados ≤ length x.cola_de_bloqueados
signal_shortens s s' x x' w = go x.cola_de_bloqueados refl
  where
    go :
        (q : List Pcb)
        → x.cola_de_bloqueados ≡ q
        → length x'.cola_de_bloqueados ≤ length x.cola_de_bloqueados
    go [] e = rw ((w.nadie e).0, e) (omega arith)
    go (p ∷ ps) e = rw ((w.despierta p ps e).0, e) (omega arith)

-- What one answer is: each WAIT is told to go on or to wait, and the queue grows in the second case.
pub record IsContestado (j : String) (e : Evento) (d : Destino) (x x' : SemaforoCola) : Type 0 where
  pub respuesta :
      (id : String)
      → pasan id (e ∷ []) (d ∷ []) + bloqueadas id (e ∷ []) (d ∷ []) ≡ esperas id (e ∷ [])
  pub cola :
      length x'.cola_de_bloqueados ≤ length x.cola_de_bloqueados + bloqueadas j (e ∷ []) (d ∷ [])

pub espera-IsContestado :
    (j : String) (p : Pcb) (d : Destino) (s s' : Procesos) (x x' : SemaforoCola)
    → IsEsperado p d s s' x x'
    → IsContestado j (espera j p) d x x'
unfolding contestadas le_toca_seguir le_toca_esperar esperas
espera-IsContestado j p d s s' x x' w = elim (wait_answers p d s s' x x' w) [
  | inl (goes, same) ↦ record {
    respuesta = λ id. rw goes (omega arith);
    cola = rw (goes, same) (omega arith);
  }
  | inr (stays, longer) ↦ record {
    respuesta = λ id. rw stays (omega arith);
    cola =
        rw (stays, longer, length-append x.cola_de_bloqueados (p ∷ []), (eq_iff j j).1 refl)
          (omega arith);
  }
]

pub avisa-IsContestado :
    (j : String) (s s' : Procesos) (x x' : SemaforoCola)
    → IsAvisado s s' x x'
    → IsContestado j (avisa j) sigue x x'
unfolding contestadas le_toca_seguir le_toca_esperar esperas
avisa-IsContestado j s s' x x' w = record {
  respuesta = λ id. omega arith;
  cola = omega (arith, signal_shortens s s' x x' w);
}
