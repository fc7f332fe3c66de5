-- ===== src/Kernel/Semaforos/Atencion.antt =====
-- The answer to SIGNAL in Kernel/Kernel.c.
use Prim.Native.String.{String}
use native.Mathlib.Omega.{arith}
use tp_so_2017_twt.Prelude.{
  ℕ, ◌+◌, ◌<◌, ◌≤◌, ◌^◌, ◌≡◌, refl, sym, ap, subst, ◌∙◌, true, some, List, [], ◌∷◌, ◌++◌, ◌>>=◌,
  length, All, pos_part, neg_part,
}
use tp_so_2017_twt.Pcb.Defs.{Pcb}
use tp_so_2017_twt.Kernel.Archivos.Tablas.{i32}
use tp_so_2017_twt.Kernel.Semaforos.Defs.{SemaforoCola, Procesos, existe_semaforo, signal}
use tp_so_2017_twt.Kernel.Semaforos.Lista.{con_id, IsCambio, sacar_y_agregar}
use tp_so_2017_twt.Kernel.Semaforos.Defs.{sigue, atender_signal}
use tp_so_2017_twt.Kernel.Semaforos.Balance.{
  valor_de, mas, mas_lem, IsConocido, IsSano, IsIgual, All-known, IsSano-cambio,
}
use tp_so_2017_twt.Kernel.Semaforos.Cambios.{signal_free, signal_wakes}

-- What an answer does to the semaphore `id`: from `x` to `x'`
pub record IsPaso (k : ℕ) (id : String) (s s' : Procesos) (x x' : SemaforoCola) : Type 0 where
  pub sano : IsSano (k + 1) s'
  pub cambio : IsCambio id s.semaforos s'.semaforos x'
  pub igual : IsIgual s s'

pub record IsAvisado (s s' : Procesos) (x x' : SemaforoCola) : Type 0 where
  pub sube :
      pos_part (valor_de x') + neg_part (valor_de x)
      ≡ pos_part (valor_de x) + neg_part (valor_de x') + 1
  pub despierta :
      (p : Pcb) (ps : List Pcb)
      → x.cola_de_bloqueados ≡ p ∷ ps
      → (x'.cola_de_bloqueados ≡ ps) × (s'.ready_queue ≡ s.ready_queue ++ (p ∷ []))
  pub nadie :
      x.cola_de_bloqueados ≡ [] → (x'.cola_de_bloqueados ≡ []) × (s'.ready_queue ≡ s.ready_queue)

signal_existing :
    (id : String) (s s' : Procesos)
    → existe_semaforo id s.semaforos ≡ true
    → signal id s ≡ some s'
    → atender_signal id s ≡ some (sigue, s')
unfolding atender_signal
signal_existing id s s' e f = rw (atender_signal, e, f, ◌>>=◌) refl

cons_eq : (p q : Pcb) (ps qs : List Pcb) → p ∷ ps ≡ q ∷ qs → (p ≡ q) × (ps ≡ qs)
cons_eq p q ps qs e = (ground (arith, e), ground (arith, e))

sube_lem :
    (v k : ℕ)
    → v < 2 ^ 32
    → pos_part (i32 v) + neg_part (i32 v) ≤ k
    → k + 1 < 2 ^ 31
    → pos_part (i32 (mas v)) + neg_part (i32 v) ≡ pos_part (i32 v) + neg_part (i32 (mas v)) + 1
unfolding i32
sube_lem v k l b c = ground arith

cota_mas :
    (v k : ℕ)
    → v < 2 ^ 32
    → pos_part (i32 v) + neg_part (i32 v) ≤ k
    → k + 1 < 2 ^ 31
    → pos_part (i32 (mas v)) + neg_part (i32 (mas v)) ≤ k + 1
unfolding i32
cota_mas v k l b c = ground arith

-- In a balanced state with values at most `k` away from 0, k + 1 < 2^31, where no process is to be
-- deleted, SIGNAL on a semaphore that exists once is answered with success: if processes wait, the
-- first of them goes to the end of the ready queue and the others keep their order, if none waits
-- the ready queue stays; the value grows by 1, the other semaphores stay as they were, and the
-- state is balanced.
pub atender_signal-IsAvisado :
    (k : ℕ) (id : String) (s : Procesos) (x : SemaforoCola)
    → IsSano k s
    → k + 1 < 2 ^ 31
    → con_id id s.semaforos ≡ x ∷ []
    → (s' : Procesos) × (x' : SemaforoCola) × (atender_signal id s ≡ some (sigue, s'))
      × IsPaso k id s s' x x'
      × IsAvisado s s' x x'
atender_signal-IsAvisado k id s x v l e = go x.cola_de_bloqueados refl
  where
    go :
        (c : List Pcb)
        → x.cola_de_bloqueados ≡ c
        → (s' : Procesos) × (x' : SemaforoCola) × (atender_signal id s ≡ some (sigue, s'))
          × IsPaso k id s s' x x'
          × IsAvisado s s' x x'
    go [] q =
        let b = v.cada id x e in
        let (short, up, down) = mas_lem x.valor k b.corto b.cota l in
        let (sems, run, c) = signal_free id s x e q in
        let (there, named, rest, found, put) = sacar_y_agregar id s.semaforos x e in
        let s' : Procesos = record s { semaforos = sems } in
        let x' : SemaforoCola = record {
          id = x.id;
          valor = mas x.valor;
          cola_de_bloqueados = [];
        } in
        let same : IsIgual s s' = record { pcbs = λ p. refl; waits = λ p. refl } in
        (
          s',
          x',
          signal_existing id s s' there run,
          record {
            sano = IsSano-cambio k s s' id x' v same refl c (record {
              corto = short;
              negativo = omega (arith, down, b.negativo, ap length q);
              cota = cota_mas x.valor k b.corto b.cota l;
              conocidos = tt;
            });
            cambio = c;
            igual = same;
          },
          record {
            sube = sube_lem x.valor k b.corto b.cota l;
            despierta = λ p ps f. ground (arith, sym q ∙ f);
            nadie = λ f. (refl, refl);
          },
        )
    go (p ∷ ps) q =
        let b = v.cada id x e in
        let (short, up, down) = mas_lem x.valor k b.corto b.cota l in
        let known : All (IsConocido s) (p ∷ ps) = subst (All (IsConocido s)) q b.conocidos in
        let (sems, todos, waits, run, c, ready, pcbs, ws) =
          signal_wakes id s x p ps e q v.nadie_a_borrar known.0 in
        let (there, named, rest, found, put) = sacar_y_agregar id s.semaforos x e in
        let s' : Procesos = record s {
          semaforos = sems;
          todos_los_procesos = todos;
          waits_recientes = waits;
          ready_queue = s.ready_queue ++ (p ∷ []);
        } in
        let x' : SemaforoCola = record {
          id = x.id;
          valor = mas x.valor;
          cola_de_bloqueados = ps;
        } in
        let same : IsIgual s s' = record { pcbs = pcbs; waits = ws } in
        (
          s',
          x',
          signal_existing id s s' there run,
          record {
            sano = IsSano-cambio k s s' id x' v same refl c (record {
              corto = short;
              negativo = omega (arith, down, b.negativo, ap length q);
              cota = cota_mas x.valor k b.corto b.cota l;
              conocidos = All-known s s' ps same known.1;
            });
            cambio = c;
            igual = same;
          },
          record {
            sube = sube_lem x.valor k b.corto b.cota l;
            despierta = λ p' ps' f.
                let (same_p, same_ps) = cons_eq p p' ps ps' (sym q ∙ f) in
                (same_ps, ap (λ z. s.ready_queue ++ (z ∷ [])) same_p);
            nadie = λ f. ground (arith, sym q ∙ f);
          },
        )
