-- ===== src/Kernel/Semaforos/Quitar.antt =====
-- `remove_from_semaphore` of Kernel/Kernel.c, which takes a process that is ended out of the queue.
use tp_so_2017_twt.Prelude.{
  ℕ, ◌≡◌, ◌≢◌, refl, ap, ◌∙◌, true, ==_self, ==_ne, some, List, [], ◌∷◌, ◌++◌, ◌>>=◌, length,
  get_elem?, set,
}
use tp_so_2017_twt.Pcb.Defs.{Pcb}
use tp_so_2017_twt.Kernel.Semaforos.Defs.{
  SemaforoCola, Procesos, signal, remove_pcb_from_specific_queue, queue_exists, quitar_de_semaforos,
  remove_from_semaphore,
}
use tp_so_2017_twt.Kernel.Semaforos.Lista.{con_id, con_id_self}
use tp_so_2017_twt.Kernel.Semaforos.Balance.{mas, IsConocido}
use tp_so_2017_twt.Kernel.Semaforos.Cambios.{signal_wakes}

quitar_first :
    (p q : Pcb) (ps : List Pcb)
    → q.pid ≢ p.pid
    → remove_pcb_from_specific_queue p.pid ps ≡ ps
    → remove_pcb_from_specific_queue p.pid (p ∷ q ∷ ps) ≡ q ∷ ps
unfolding remove_pcb_from_specific_queue
quitar_first p q ps n e = rw (==_self p.pid, ==_ne q.pid p.pid n) (ap (λ t. q ∷ t) e)

-- The table after the loop has taken the process out of the first semaphore
abbrev sin_proceso : ℕ → Procesos → SemaforoCola → List SemaforoCola
sin_proceso pid s x =
    set s.semaforos 0
      (record x { cola_de_bloqueados = remove_pcb_from_specific_queue pid x.cola_de_bloqueados })

quitar_run :
    (pid : ℕ) (s s' : Procesos) (x : SemaforoCola)
    → length s.semaforos ≡ 1
    → get_elem? s.semaforos 0 ≡ some x
    → queue_exists pid x.cola_de_bloqueados ≡ true
    → signal x.id (record s { semaforos = sin_proceso pid s x }) ≡ some s'
    → remove_from_semaphore pid s ≡ some s'
unfolding remove_from_semaphore quitar_de_semaforos
quitar_run pid s s' x l e g h =
    rw (remove_from_semaphore, l, quitar_de_semaforos, e, ◌>>=◌, g, h) refl

-- With a single semaphore whose queue begins with two different processes, the first of which is
-- in it once, where no process is to be deleted and the kernel knows the second,
-- `remove_from_semaphore` of the first puts the second at the end of the ready queue, takes both
-- out of the queue of the semaphore and adds 1 to its value.
pub remove_from_semaphore-wakes :
    (s : Procesos) (x : SemaforoCola) (p q : Pcb) (ps : List Pcb)
    → s.semaforos ≡ x ∷ []
    → x.cola_de_bloqueados ≡ p ∷ q ∷ ps
    → q.pid ≢ p.pid
    → remove_pcb_from_specific_queue p.pid ps ≡ ps
    → s.procesos_a_borrar ≡ []
    → IsConocido s q
    → (s' : Procesos) × (remove_from_semaphore p.pid s ≡ some s')
      × (con_id x.id s'.semaforos
          ≡ record { id = x.id; valor = mas x.valor; cola_de_bloqueados = ps } ∷ [])
      × (s'.ready_queue ≡ s.ready_queue ++ (q ∷ []))
unfolding con_id queue_exists
remove_from_semaphore-wakes s x p q ps e f n out nobody known =
    let y : SemaforoCola = record { id = x.id; valor = x.valor; cola_de_bloqueados = q ∷ ps } in
    let s₁ : Procesos = record s { semaforos = y ∷ [] } in
    let one : sin_proceso p.pid s x ≡ y ∷ [] =
      ap
        (λ l. set l 0 (record x {
          cola_de_bloqueados = remove_pcb_from_specific_queue p.pid x.cola_de_bloqueados;
        }))
        e
      ∙ ap (λ c. record { id = x.id; valor = x.valor; cola_de_bloqueados = c } ∷ [])
          (ap (remove_pcb_from_specific_queue p.pid) f ∙ quitar_first p q ps n out) in
    let (sems, todos, waits, run, c, ready, pcbs, ws) =
      signal_wakes x.id s₁ y q ps (con_id_self y []) refl nobody known in
    (
      record s₁ {
        semaforos = sems;
        todos_los_procesos = todos;
        waits_recientes = waits;
        ready_queue = s.ready_queue ++ (q ∷ []);
      },
      quitar_run p.pid s _ x (ap length e) (ap (λ l. get_elem? l 0) e) (rw (f, ==_self p.pid) refl)
          (ap (λ l. signal x.id (record s { semaforos = l })) one ∙ run),
      c.aqui,
      refl,
    )
