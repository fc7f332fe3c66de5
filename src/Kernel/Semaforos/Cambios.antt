-- ===== src/Kernel/Semaforos/Cambios.antt =====
-- `signal`, `wait` and the blocking of a process in Kernel/Kernel.c, on the list of semaphores.
use Prim.Native.String.{String}
use tp_so_2017_twt.Prelude.{ℕ, ◌≡◌, refl, ap, ◌∙◌, true, some, List, [], ◌∷◌, ◌++◌, ◌>>=◌}
use tp_so_2017_twt.Pcb.Defs.{Pcb}
use tp_so_2017_twt.Kernel.Archivos.Tablas.{i32}
use tp_so_2017_twt.Kernel.Semaforos.Defs.{
  SemaforoCola, Registrado, WaitReciente, Procesos, remove_semaforo_by_id, existe_semaforo,
  poner_estado, despertar, signal, wait, bloquear, remove_pcb_from_specific_queue,
}
use tp_so_2017_twt.Kernel.Semaforos.Lista.{
  con_id, hay_pcb, hay_wait, IsCambio, sacar_y_agregar, poner_estado-some, poner_wait-some,
}
use tp_so_2017_twt.Kernel.Semaforos.Balance.{mas, menos, IsConocido, no_borra}

-- `signal` on a semaphore that nobody waits for
pub signal_free :
    (id : String) (s : Procesos) (x : SemaforoCola)
    → con_id id s.semaforos ≡ x ∷ []
    → x.cola_de_bloqueados ≡ []
    → (sems : List SemaforoCola) × (signal id s ≡ some (record s { semaforos = sems }))
      × IsCambio id s.semaforos sems
          (record { id = x.id; valor = mas x.valor; cola_de_bloqueados = [] })
unfolding signal
signal_free id s x e empty =
    let (there, named, rest, run, put) = sacar_y_agregar id s.semaforos x e in
    let x' : SemaforoCola = record { id = x.id; valor = mas x.valor; cola_de_bloqueados = [] } in
    let run' : remove_semaforo_by_id s.semaforos id
        ≡ some (record { id = x.id; valor = x.valor; cola_de_bloqueados = [] }, rest) =
      run
      ∙ ap (λ c. some (record { id = x.id; valor = x.valor; cola_de_bloqueados = c }, rest))
          empty in
    (rest ++ (x' ∷ []), rw (signal, run', ◌>>=◌) refl, put x' named)

pub signal_wakes :
    (id : String) (s : Procesos) (x : SemaforoCola) (p : Pcb) (ps : List Pcb)
    → con_id id s.semaforos ≡ x ∷ []
    → x.cola_de_bloqueados ≡ p ∷ ps
    → s.procesos_a_borrar ≡ []
    → IsConocido s p
    → (sems : List SemaforoCola) × (todos : List Registrado) × (waits : List WaitReciente) × (signal
          id s
        ≡ some (record s {
          semaforos = sems;
          todos_los_procesos = todos;
          waits_recientes = waits;
          ready_queue = s.ready_queue ++ (p ∷ []);
        }))
      × IsCambio id s.semaforos sems
          (record { id = x.id; valor = mas x.valor; cola_de_bloqueados = ps })
      × (poner_estado p.pid "Ready" s.todos_los_procesos ≡ some todos)
      × ((q : ℕ) → hay_pcb q todos ≡ hay_pcb q s.todos_los_procesos)
      × ((q : ℕ) → hay_wait q waits ≡ hay_wait q s.waits_recientes)
unfolding signal despertar
signal_wakes id s x p ps e queue nobody known =
    let (there, named, rest, run, put) = sacar_y_agregar id s.semaforos x e in
    let x' : SemaforoCola = record { id = x.id; valor = mas x.valor; cola_de_bloqueados = ps } in
    let (todos, set_state, same_pcb) =
      poner_estado-some p.pid "Ready" s.todos_los_procesos known.0 in
    let (waits, set_wait, same_wait) = poner_wait-some p.pid x.id s.waits_recientes known.1 in
    (
      rest ++ (x' ∷ []),
      todos,
      waits,
      rw (signal, run, ◌>>=◌, queue, despertar, no_borra p.pid s nobody, set_state, set_wait) refl,
      put x' named,
      set_state,
      same_pcb,
      same_wait,
    )

-- `wait` takes 1 from the value.
pub wait_takes :
    (id : String) (s : Procesos) (x : SemaforoCola)
    → con_id id s.semaforos ≡ x ∷ []
    → (sems : List SemaforoCola) × (wait id s
        ≡ some (i32 (menos x.valor), record s { semaforos = sems }))
      × (existe_semaforo id s.semaforos ≡ true)
      × IsCambio id s.semaforos sems (record x { valor = menos x.valor })
unfolding wait
wait_takes id s x e =
    let (there, named, rest, run, put) = sacar_y_agregar id s.semaforos x e in
    let x' : SemaforoCola = record x { valor = menos x.valor } in
    (rest ++ (x' ∷ []), rw (wait, run, ◌>>=◌) refl, there, put x' named)

-- `bloquear` puts the process at the end of the queue.
pub bloquear_adds :
    (pid : ℕ) (id : String) (p : Pcb) (s : Procesos) (x : SemaforoCola)
    → con_id id s.semaforos ≡ x ∷ []
    → hay_pcb pid s.todos_los_procesos ≡ true
    → (sems : List SemaforoCola) × (todos : List Registrado) × (bloquear pid id p s
        ≡ some (record s {
          semaforos = sems;
          todos_los_procesos = todos;
          exec_queue = remove_pcb_from_specific_queue pid s.exec_queue;
        }))
      × IsCambio id s.semaforos sems
          (record x { cola_de_bloqueados = x.cola_de_bloqueados ++ (p ∷ []) })
      × ((q : ℕ) → hay_pcb q todos ≡ hay_pcb q s.todos_los_procesos)
      × (poner_estado pid "Block" s.todos_los_procesos ≡ some todos)
unfolding bloquear
bloquear_adds pid id p s x e known =
    let (there, named, rest, run, put) = sacar_y_agregar id s.semaforos x e in
    let x' : SemaforoCola = record x { cola_de_bloqueados = x.cola_de_bloqueados ++ (p ∷ []) } in
    let (todos, set_state, same_pcb) = poner_estado-some pid "Block" s.todos_los_procesos known in
    (
      rest ++ (x' ∷ []),
      todos,
      rw (bloquear, set_state, ◌>>=◌, run) refl,
      put x' named,
      same_pcb,
      set_state,
    )
