-- ===== src/Kernel/Semaforos/Defs.antt =====
-- The semaphores of Kernel/Kernel.c, the queues of processes that they work
-- on, and the answers to WAIT and SIGNAL. `none` is NULL or a pointer without a value that is followed.
use Prim.Native.String.{String}
use text.Mathlib.Text.{◌==◌ as str_eq}
use tp_so_2017_twt.Prelude.{
  ℕ, ◌+◌, ◌-◌, ◌%◌, ◌^◌, Bool, false, ◌||◌, Option, none, some, List, [], ◌∷◌, ◌++◌, ◌==◌,
  if◌then◌else◌, ◌>>=◌, ℤ, pos, neg, is_neg, zero, suc, get_elem?, set, length,
}
use tp_so_2017_twt.Pcb.Defs.{Pcb}
use tp_so_2017_twt.Kernel.Archivos.Tablas.{i32}

-- `semaforo_cola`, with the `semaforo` it points to
pub record SemaforoCola : Type 0 where
  pub id : String
  pub valor : ℕ
  pub cola_de_bloqueados : List Pcb

-- `wait_reciente`
pub record WaitReciente : Type 0 where
  pub pid : ℕ
  pub sem : String

-- A `PCB` of `todos_los_procesos`, with the two fields that are read here
pub record Registrado : Type 0 where
  pub pid : ℕ
  pub estado : String

pub record Procesos : Type 0 where
  pub semaforos : List SemaforoCola
  pub new_queue : List Pcb
  pub ready_queue : List Pcb
  pub exec_queue : List Pcb
  pub todos_los_procesos : List Registrado
  pub waits_recientes : List WaitReciente
  pub procesos_a_borrar : List ℕ

-- `remove_semaforo_by_ID`
unfoldable pub remove_semaforo_by_id :
    List SemaforoCola → String → Option (SemaforoCola × List SemaforoCola)
remove_semaforo_by_id [] id = none
remove_semaforo_by_id (x ∷ xs) id =
    let rest = remove_semaforo_by_id xs id in
    if str_eq id x.id then some (x, xs) else (rest >>= λ r. some (r.0, x ∷ r.1))

-- `existeSemaforo`
unfoldable pub existe_semaforo : String → List SemaforoCola → Bool
existe_semaforo id [] = false
existe_semaforo id (x ∷ xs) = str_eq id x.id || existe_semaforo id xs

-- The loop of `proceso_para_borrar`, from place `i` on
unfoldable pub para_borrar_desde : ℕ → List ℕ → ℕ → ℤ
para_borrar_desde pid [] i = neg 1
para_borrar_desde pid (p ∷ ps) i = if p == pid then pos i else para_borrar_desde pid ps (i + 1)

-- `proceso_para_borrar`
unfoldable pub proceso_para_borrar : ℕ → Procesos → ℤ
unfolding para_borrar_desde
proceso_para_borrar pid s = para_borrar_desde pid s.procesos_a_borrar 0

-- A write to `estado` through `get_PCB`, which finds the last one with the PID
unfoldable pub poner_estado : ℕ → String → List Registrado → Option (List Registrado)
poner_estado pid e [] = none
poner_estado pid e (p ∷ ps) = elim (poner_estado pid e ps) [
  | some ps' ↦ some (p ∷ ps')
  | none ↦ if p.pid == pid then some (record p { estado = e } ∷ ps) else none
]

-- A write to `sem` through `get_wr`, which finds the last one with the PID
unfoldable pub poner_wait : ℕ → String → List WaitReciente → Option (List WaitReciente)
poner_wait pid id [] = none
poner_wait pid id (w ∷ ws) = elim (poner_wait pid id ws) [
  | some ws' ↦ some (w ∷ ws')
  | none ↦ if w.pid == pid then some (record w { sem = id } ∷ ws) else none
]

-- The part of `signal` on a process that it takes out of the queue
unfoldable pub despertar : String → Pcb → Procesos → Option Procesos
unfolding proceso_para_borrar poner_estado poner_wait
despertar id pcb s =
    if is_neg (proceso_para_borrar pcb.pid s)
    then (do
      todos ← poner_estado pcb.pid "Ready" s.todos_los_procesos
      waits ← poner_wait pcb.pid id s.waits_recientes
      some (record s {
        todos_los_procesos = todos;
        waits_recientes = waits;
        ready_queue = s.ready_queue ++ (pcb ∷ []);
      }))
    else some s

-- `signal`
unfoldable pub signal : String → Procesos → Option Procesos
unfolding remove_semaforo_by_id despertar
signal id s = do
  (sem, otros) ← remove_semaforo_by_id s.semaforos id
  let valor = (sem.valor + 1) % 2 ^ 32
  elim sem.cola_de_bloqueados [
    | [] ↦ some (record s { semaforos = otros ++ (record sem { valor = valor } ∷ []) })
    | pcb ∷ cola ↦ do
      s' ← despertar sem.id pcb s
      some (record s' {
        semaforos =
            otros ++ (record { id = sem.id; valor = valor; cola_de_bloqueados = cola } ∷ []);
      })
  ]

-- `wait`: the value that it returns, as the `int32_t` it is stored in
unfoldable pub wait : String → Procesos → Option (ℤ × Procesos)
unfolding remove_semaforo_by_id
wait id s = do
  (sem, otros) ← remove_semaforo_by_id s.semaforos id
  let valor = (sem.valor + (2 ^ 32 - 1)) % 2 ^ 32
  some (i32 valor, record s { semaforos = otros ++ (record sem { valor = valor } ∷ []) })

-- `cancelar_wait`
unfoldable pub cancelar_wait : String → Procesos → Option Procesos
unfolding remove_semaforo_by_id
cancelar_wait id s = do
  (sem, otros) ← remove_semaforo_by_id s.semaforos id
  some (record s { semaforos = otros ++ (record sem { valor = (sem.valor + 1) % 2 ^ 32 } ∷ []) })

-- `remove_PCB_from_specific_queue`
unfoldable pub remove_pcb_from_specific_queue : ℕ → List Pcb → List Pcb
remove_pcb_from_specific_queue pid [] = []
remove_pcb_from_specific_queue pid (p ∷ ps) =
    let rest = remove_pcb_from_specific_queue pid ps in if p.pid == pid then rest else p ∷ rest

-- `queue_exists`
unfoldable pub queue_exists : ℕ → List Pcb → Bool
queue_exists pid [] = false
queue_exists pid (p ∷ ps) = p.pid == pid || queue_exists pid ps

-- The end of the answer to WAIT, when the value is negative and the PCB has arrived
unfoldable pub bloquear : ℕ → String → Pcb → Procesos → Option Procesos
unfolding poner_estado remove_semaforo_by_id remove_pcb_from_specific_queue
bloquear pid id pcb s = do
  todos ← poner_estado pid "Block" s.todos_los_procesos
  (sem, otros) ← remove_semaforo_by_id s.semaforos id
  some (record s {
    exec_queue = remove_pcb_from_specific_queue pid s.exec_queue;
    todos_los_procesos = todos;
    semaforos =
        otros ++ (record sem { cola_de_bloqueados = sem.cola_de_bloqueados ++ (pcb ∷ []) } ∷ []);
  })

-- What the kernel does about the process next: it goes on, is blocked, or is ended by
-- `abort_process` or `end_process`.
pub data Destino : Type 0 where
  sigue : Destino
  bloqueado : Destino
  abortado : ℤ → Destino
  borrado : Destino

-- The answer to WAIT. The last argument but one is the PCB that the processor sends when it is to be
-- blocked, if `recv` does not fail.
unfoldable pub atender_wait : ℕ → String → Option Pcb → Procesos → Option (Destino × Procesos)
unfolding proceso_para_borrar existe_semaforo wait cancelar_wait bloquear
atender_wait pid id recibido s =
    if is_neg (proceso_para_borrar pid s)
    then (if existe_semaforo id s.semaforos
        then (do
          (valor, s') ← wait id s
          if is_neg valor
              then (elim recibido [
                | none ↦ do s'' ← cancelar_wait id s'; some (sigue, s'')
                | some pcb ↦ do s'' ← bloquear pid id pcb s'; some (bloqueado, s'')
              ])
              else some (sigue, s'))
        else some (abortado (neg 15), s))
    else some (borrado, s)

-- The answer to SIGNAL
unfoldable pub atender_signal : String → Procesos → Option (Destino × Procesos)
unfolding existe_semaforo signal
atender_signal id s =
    if existe_semaforo id s.semaforos
    then (do s' ← signal id s; some (sigue, s'))
    else some (abortado (neg 15), s)

-- The loop of `remove_from_semaphore` from place `i` on, for `n` rounds
unfoldable pub quitar_de_semaforos : ℕ → ℕ → ℕ → Procesos → Option Procesos
unfolding queue_exists remove_pcb_from_specific_queue signal
quitar_de_semaforos zero i pid s = some s
quitar_de_semaforos (suc n) i pid s = do
  sem ← get_elem? s.semaforos i
  let sin : SemaforoCola = record sem {
    cola_de_bloqueados = remove_pcb_from_specific_queue pid sem.cola_de_bloqueados;
  }
  if queue_exists pid sem.cola_de_bloqueados
      then (do
        s' ← signal sem.id (record s { semaforos = set s.semaforos i sin })
        quitar_de_semaforos n (i + 1) pid s')
      else quitar_de_semaforos n (i + 1) pid s

-- `remove_from_semaphore`
unfoldable pub remove_from_semaphore : ℕ → Procesos → Option Procesos
unfolding quitar_de_semaforos
remove_from_semaphore pid s = quitar_de_semaforos (length s.semaforos) 0 pid s

-- `remove_from_queue`, of a PCB with this PID and `estado`
unfoldable pub remove_from_queue : ℕ → String → Procesos → Option Procesos
unfolding remove_pcb_from_specific_queue remove_from_semaphore
remove_from_queue pid estado s =
    if str_eq estado "New"
    then some (record s { new_queue = remove_pcb_from_specific_queue pid s.new_queue })
    else if str_eq estado "Ready"
    then some (record s { ready_queue = remove_pcb_from_specific_queue pid s.ready_queue })
    else if str_eq estado "Block"
    then remove_from_semaphore pid s
    else some s
