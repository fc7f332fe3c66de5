-- ===== src/Kernel/Semaforos/Espera.antt =====
-- The answer to WAIT in Kernel/Kernel.c.
use Prim.Native.String.{String}
use native.Mathlib.Omega.{arith}
use tp_so_2017_twt.Prelude.{
  ℕ, ◌+◌, ◌<◌, ◌≤◌, ◌^◌, ◌≡◌, refl, ◌∙◌, true, false, some, [], ◌∷◌, ◌++◌, ◌>>=◌, length-append, ℤ,
  is_neg, pos_part, neg_part, dec_lt,
}
use tp_so_2017_twt.Pcb.Defs.{Pcb}
use tp_so_2017_twt.Kernel.Archivos.Tablas.{i32}
use tp_so_2017_twt.Kernel.Semaforos.Defs.{
  SemaforoCola, Procesos, existe_semaforo, poner_estado, wait, bloquear,
  remove_pcb_from_specific_queue,
}
use tp_so_2017_twt.Kernel.Semaforos.Lista.{con_id, IsCambio-trans}
use tp_so_2017_twt.Kernel.Semaforos.Defs.{Destino, sigue, bloqueado, atender_wait}
use tp_so_2017_twt.Kernel.Semaforos.Balance.{
  valor_de, menos, menos_lem, IsConocido, IsSano, IsIgual, IsConocido-same, All-known,
  All-known_add, IsSano-cambio, no_borra,
}
use tp_so_2017_twt.Kernel.Semaforos.Cambios.{wait_takes, bloquear_adds}
use tp_so_2017_twt.Kernel.Semaforos.Atencion.{IsPaso}

pub record IsEsperado (p : Pcb) (destino : Destino) (s s' : Procesos) (x x' : SemaforoCola)
    : Type 0 where
  pub baja :
      pos_part (valor_de x') + neg_part (valor_de x) + 1
      ≡ pos_part (valor_de x) + neg_part (valor_de x')
  pub pasa :
      0 < pos_part (valor_de x)
      → (destino ≡ sigue)
        × (x'.cola_de_bloqueados ≡ x.cola_de_bloqueados)
        × (s' ≡ record s { semaforos = s'.semaforos })
  pub espera :
      pos_part (valor_de x) ≡ 0
      → (destino ≡ bloqueado)
        × (x'.cola_de_bloqueados ≡ x.cola_de_bloqueados ++ (p ∷ []))
        × (poner_estado p.pid "Block" s.todos_los_procesos ≡ some s'.todos_los_procesos)
        × (s' ≡ record s {
          semaforos = s'.semaforos;
          todos_los_procesos = s'.todos_los_procesos;
          exec_queue = remove_pcb_from_specific_queue p.pid s.exec_queue;
        })

solo_uno : (v : ℕ) → 0 < pos_part (i32 v) → neg_part (i32 v) ≡ 0
unfolding i32
solo_uno v p = ground (arith, p)

baja_lem :
    (v k : ℕ)
    → v < 2 ^ 32
    → pos_part (i32 v) + neg_part (i32 v) ≤ k
    → k + 1 < 2 ^ 31
    → (pos_part (i32 (menos v)) + neg_part (i32 v) + 1
        ≡ pos_part (i32 v) + neg_part (i32 (menos v)))
      × (pos_part (i32 (menos v)) + neg_part (i32 (menos v)) ≤ k + 1)
unfolding i32
baja_lem v k l b c = ground arith

pasa_run :
    (p : Pcb) (id : String) (s s' : Procesos) (valor : ℤ)
    → s.procesos_a_borrar ≡ []
    → existe_semaforo id s.semaforos ≡ true
    → wait id s ≡ some (valor, s')
    → is_neg valor ≡ false
    → atender_wait p.pid id (some p) s ≡ some (sigue, s')
unfolding atender_wait
pasa_run p id s s' valor n e f g = rw (atender_wait, no_borra p.pid s n, e, f, ◌>>=◌, g) refl

espera_run :
    (p : Pcb) (id : String) (s s' s'' : Procesos) (valor : ℤ)
    → s.procesos_a_borrar ≡ []
    → existe_semaforo id s.semaforos ≡ true
    → wait id s ≡ some (valor, s')
    → is_neg valor ≡ true
    → bloquear p.pid id p s' ≡ some s''
    → atender_wait p.pid id (some p) s ≡ some (bloqueado, s'')
unfolding atender_wait
espera_run p id s s' s'' valor n e f g h =
    rw (atender_wait, no_borra p.pid s n, e, f, ◌>>=◌, g, h) refl

pub atender_wait-IsEsperado :
    (k : ℕ) (id : String) (p : Pcb) (s : Procesos) (x : SemaforoCola)
    → IsSano k s
    → k + 1 < 2 ^ 31
    → con_id id s.semaforos ≡ x ∷ []
    → IsConocido s p
    → (destino : Destino) × (s' : Procesos) × (x' : SemaforoCola) × (atender_wait p.pid id
          (some p)
          s
        ≡ some (destino, s'))
      × IsPaso k id s s' x x'
      × IsEsperado p destino s s' x x'
atender_wait-IsEsperado k id p s x v l e known =
    let b = v.cada id x e in
    let (short, down, up, sign) = menos_lem x.valor k b.corto b.cota l in
    let (baja, cota) = baja_lem x.valor k b.corto b.cota l in
    let (sems, run, there, c) = wait_takes id s x e in
    let s₁ : Procesos = record s { semaforos = sems } in
    let x₁ : SemaforoCola = record x { valor = menos x.valor } in
    elim (dec_lt 0 (pos_part (valor_de x))) [
      | yes free ↦
          let same : IsIgual s s₁ = record { pcbs = λ q. refl; waits = λ q. refl } in
          (
            sigue,
            s₁,
            x₁,
            pasa_run p id s s₁ (i32 (menos x.valor)) v.nadie_a_borrar there run
                (sign ∙ ground (arith, free)),
            record {
              sano = IsSano-cambio k s s₁ id x₁ v same refl c (record {
                corto = short;
                negativo = ground (arith, up, b.negativo, free, solo_uno x.valor);
                cota = cota;
                conocidos = All-known s s₁ x.cola_de_bloqueados same b.conocidos;
              });
              cambio = c;
              igual = same;
            },
            record {
              baja = baja;
              pasa = λ f. (refl, refl, refl);
              espera = λ f. absurd (omega (arith, f, free));
            },
          )
      | no full ↦
          let (sems₂, todos, run₂, c₂, pcbs, state) =
            bloquear_adds p.pid id p s₁ x₁ c.aqui known.0 in
          let s₂ : Procesos = record s₁ {
            semaforos = sems₂;
            todos_los_procesos = todos;
            exec_queue = remove_pcb_from_specific_queue p.pid s.exec_queue;
          } in
          let x₂ : SemaforoCola = record x₁ {
            cola_de_bloqueados = x.cola_de_bloqueados ++ (p ∷ []);
          } in
          let same : IsIgual s s₂ = record { pcbs = pcbs; waits = λ q. refl } in
          let both = IsCambio-trans id s.semaforos sems sems₂ x₁ x₂ c c₂ in
          (
            bloqueado,
            s₂,
            x₂,
            espera_run p id s s₁ s₂ (i32 (menos x.valor)) v.nadie_a_borrar there run
                (sign ∙ ground (arith, full)) run₂,
            record {
              sano = IsSano-cambio k s s₂ id x₂ v same refl both (record {
                corto = short;
                negativo =
                    ground
                      (arith, up, b.negativo, full, length-append x.cola_de_bloqueados (p ∷ []));
                cota = cota;
                conocidos =
                    All-known_add s₂ x.cola_de_bloqueados p
                      (All-known s s₂ x.cola_de_bloqueados same b.conocidos)
                      (IsConocido-same s s₂ p same known);
              });
              cambio = both;
              igual = same;
            },
            record {
              baja = baja;
              pasa = λ f. absurd (full f);
              espera = λ f. (refl, refl, state, refl);
            },
          )
    ]
