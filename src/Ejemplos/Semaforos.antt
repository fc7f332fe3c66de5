-- ===== src/Ejemplos/Semaforos.antt =====
-- A semaphore of Kernel/Kernel.c with two processes, and sequences of WAIT and SIGNAL on it.
use text.Mathlib.Text.{◌==◌ as str_eq}
use native.Mathlib.Omega.{arith}
use tp_so_2017_twt.Prelude.{
  ℕ, ◌+◌, ◌-◌, ◌<◌, ◌≤◌, ◌≡◌, refl, some, List, [], ◌∷◌, length, All, pos_part, subst, sym, ◌∙◌,
  Bool-cases, inl, inr,
}
use tp_so_2017_twt.Pcb.Defs.{Pcb}
use tp_so_2017_twt.Kernel.Archivos.Tablas.{i32}
use tp_so_2017_twt.Kernel.Semaforos.Defs.{
  SemaforoCola, Procesos, Destino, sigue, atender_signal, remove_from_semaphore,
  remove_pcb_from_specific_queue,
}
use tp_so_2017_twt.Kernel.Semaforos.Lista.{con_id, hay_pcb, hay_wait}
use tp_so_2017_twt.Kernel.Semaforos.Balance.{IsSano, IsBalanceado, IsConocido, valor_de, mas}
use tp_so_2017_twt.Kernel.Semaforos.Quitar.{remove_from_semaphore-wakes}
use tp_so_2017_twt.Kernel.Semaforos.Atencion.{IsPaso, IsAvisado, atender_signal-IsAvisado}
use tp_so_2017_twt.Kernel.Semaforos.Mensajes.{
  Evento, espera, avisa, corre, esperas, avisos, pasan, bloqueadas,
}
use tp_so_2017_twt.Kernel.Semaforos.Corrida.{
  IsPosible, IsConservado, corre-IsConservado, corre-excluye,
}

abbrev proceso : ℕ → Pcb
proceso n = record {
  pid = n;
  page_counter = 1;
  direccion_inicio_codigo = 0;
  program_counter = 0;
  cantidad_de_instrucciones = 0;
  indice_de_codigo = [];
  lista_de_etiquetas = [];
  lista_de_etiquetas_length = 0;
  exit_code = 0;
  estado = [];
  stack_index = [];
  primer_pagina_stack = 0;
  stack_pointer = 0;
  tamanio_stack = 1;
}

abbrev cerrojo : SemaforoCola
cerrojo = record { id = "cerrojo"; valor = 1; cola_de_bloqueados = [] }

abbrev dos : Procesos
dos = record {
  semaforos = cerrojo ∷ [];
  new_queue = [];
  ready_queue = [];
  exec_queue = proceso 1 ∷ proceso 2 ∷ [];
  todos_los_procesos =
      record { pid = 1; estado = "Exec" } ∷ record { pid = 2; estado = "Exec" } ∷ [];
  waits_recientes = record { pid = 1; sem = "Nada" } ∷ record { pid = 2; sem = "Nada" } ∷ [];
  procesos_a_borrar = [];
}

cerrojo-IsBalanceado : (x : SemaforoCola) → cerrojo ≡ x → IsBalanceado 1 dos x
unfolding i32
cerrojo-IsBalanceado x e =
    subst (IsBalanceado 1 dos) e
      (record { corto = omega arith; negativo = refl; cota = omega arith; conocidos = tt })

head_eq : (a b : SemaforoCola) → a ∷ [] ≡ b ∷ [] → a ≡ b
head_eq a b h = ground (arith, h)

dos-IsSano : IsSano 1 dos
unfolding con_id
dos-IsSano = record {
  cada = λ id x e. elim (Bool-cases (str_eq "cerrojo" id)) [
    | inl f ↦ cerrojo-IsBalanceado x (head_eq cerrojo x (sym (rw f refl) ∙ e))
    | inr f ↦ ground (arith, e, f)
  ];
  nadie_a_borrar = refl;
}

hay_cerrojo : con_id "cerrojo" dos.semaforos ≡ cerrojo ∷ []
unfolding con_id
hay_cerrojo = refl

IsConocido-1 : IsConocido dos (proceso 1)
unfolding hay_pcb hay_wait
IsConocido-1 = (refl, refl)

IsConocido-2 : IsConocido dos (proceso 2)
unfolding hay_pcb hay_wait
IsConocido-2 = (refl, refl)

abbrev mensajes : List Evento
mensajes = espera "cerrojo" (proceso 1) ∷ espera "cerrojo" (proceso 2) ∷ avisa "cerrojo" ∷ []

posibles : All (IsPosible dos) mensajes
posibles = (
  ((cerrojo, hay_cerrojo), IsConocido-1),
  (((cerrojo, hay_cerrojo), IsConocido-2), ((cerrojo, hay_cerrojo), tt)),
)

atender_signal-IsAvisado_example :
    (s' : Procesos) × (x' : SemaforoCola) × (atender_signal "cerrojo" dos ≡ some (sigue, s'))
    × IsPaso 1 "cerrojo" dos s' cerrojo x'
    × IsAvisado dos s' cerrojo x'
atender_signal-IsAvisado_example =
    atender_signal-IsAvisado 1 "cerrojo" dos cerrojo dos-IsSano (omega arith) hay_cerrojo

corre-IsConservado_example :
    (ds : List Destino) × (s' : Procesos) × (corre mensajes dos ≡ some (ds, s'))
    × IsSano (1 + length mensajes) s'
    × IsConservado mensajes ds dos s'
corre-IsConservado_example = corre-IsConservado mensajes 1 dos dos-IsSano (omega arith) posibles

corre-excluye_example :
    (ds : List Destino) × (s' : Procesos) × (x' : SemaforoCola) × (corre mensajes dos
      ≡ some (ds, s'))
    × (con_id "cerrojo" s'.semaforos ≡ x' ∷ [])
    × (pasan "cerrojo" mensajes ds + bloqueadas "cerrojo" mensajes ds ≡ esperas "cerrojo" mensajes)
    × (length x'.cola_de_bloqueados ≤ bloqueadas "cerrojo" mensajes ds)
    × (pasan "cerrojo" mensajes ds
          + (bloqueadas "cerrojo" mensajes ds - length x'.cola_de_bloqueados)
        ≤ pos_part (valor_de cerrojo) + avisos "cerrojo" mensajes)
    × (0 < length x'.cola_de_bloqueados
        → pasan "cerrojo" mensajes ds
            + (bloqueadas "cerrojo" mensajes ds - length x'.cola_de_bloqueados)
          ≡ pos_part (valor_de cerrojo) + avisos "cerrojo" mensajes)
corre-excluye_example =
    corre-excluye mensajes 1 dos "cerrojo" cerrojo dos-IsSano (omega arith) posibles hay_cerrojo
      refl

-- Processes 1 and 2 wait, and another one is inside.
abbrev en_cola : SemaforoCola
en_cola = record {
  id = "cerrojo";
  valor = 4294967294;
  cola_de_bloqueados = proceso 1 ∷ proceso 2 ∷ [];
}

abbrev esperando : Procesos
esperando = record dos { semaforos = en_cola ∷ [] }

no_mas : remove_pcb_from_specific_queue 1 [] ≡ []
unfolding remove_pcb_from_specific_queue
no_mas = refl

remove_from_semaphore-wakes_example :
    (s' : Procesos) × (remove_from_semaphore 1 esperando ≡ some s')
    × (con_id "cerrojo" s'.semaforos
        ≡ record { id = "cerrojo"; valor = mas 4294967294; cola_de_bloqueados = [] } ∷ [])
    × (s'.ready_queue ≡ proceso 2 ∷ [])
remove_from_semaphore-wakes_example =
    remove_from_semaphore-wakes esperando en_cola (proceso 1) (proceso 2) [] refl refl
      (λ e. omega (arith, e)) no_mas refl IsConocido-2
