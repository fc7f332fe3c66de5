-- ===== src/Kernel/Semaforos/Mensajes.antt =====
-- Sequences of WAIT and SIGNAL in Kernel/Kernel.c: the messages, the answers, and how many of each there
-- are on a semaphore.
use Prim.Native.String.{String}
use text.Mathlib.Text.{◌==◌ as str_eq}
use native.Mathlib.Omega.{arith}
use tp_so_2017_twt.Prelude.{
  ℕ, ◌+◌, ◌≡◌, Bool, true, false, Option, some, List, [], ◌∷◌, if◌then◌else◌, ◌>>=◌,
}
use tp_so_2017_twt.Pcb.Defs.{Pcb}
use tp_so_2017_twt.Kernel.Semaforos.Defs.{Procesos}
use tp_so_2017_twt.Kernel.Semaforos.Defs.{Destino, sigue, bloqueado, atender_wait, atender_signal}

-- A message of a processor: WAIT with the PCB of the process, or SIGNAL
pub data Evento : Type 0 where
  espera : String → Pcb → Evento
  avisa : String → Evento

unfoldable pub paso : Evento → Procesos → Option (Destino × Procesos)
paso (espera id p) s = atender_wait p.pid id (some p) s
paso (avisa id) s = atender_signal id s

-- The answers to a sequence of messages, and the state after them
unfoldable pub corre : List Evento → Procesos → Option (List Destino × Procesos)
corre [] s = some ([], s)
corre (e ∷ es) s = do (destino, s') ← paso e s; (ds, s'') ← corre es s'; some (destino ∷ ds, s'')

-- How often a semaphore is waited for, and signalled
unfoldable pub esperas : String → List Evento → ℕ
esperas id [] = 0
esperas id (espera j p ∷ es) = (if str_eq j id then 1 else 0) + esperas id es
esperas id (avisa j ∷ es) = esperas id es

unfoldable pub avisos : String → List Evento → ℕ
avisos id [] = 0
avisos id (espera j p ∷ es) = avisos id es
avisos id (avisa j ∷ es) = (if str_eq j id then 1 else 0) + avisos id es

unfoldable pub le_toca_seguir : Destino → Bool
le_toca_seguir sigue = true
le_toca_seguir other = false

unfoldable pub le_toca_esperar : Destino → Bool
le_toca_esperar bloqueado = true
le_toca_esperar other = false

-- How many WAIT on a semaphore got an answer that passes the test
unfoldable pub contestadas : (Destino → Bool) → String → List Evento → List Destino → ℕ
unfolding esperas
contestadas f id [] ds = 0
contestadas f id (e ∷ es) [] = 0
contestadas f id (e ∷ es) (d ∷ ds) =
    (if f d then esperas id (e ∷ []) else 0) + contestadas f id es ds

-- How many were told to go on, and how many were blocked
abbrev pub pasan : String → List Evento → List Destino → ℕ
pasan = contestadas le_toca_seguir

abbrev pub bloqueadas : String → List Evento → List Destino → ℕ
bloqueadas = contestadas le_toca_esperar

pub contestadas-one :
    (f : Destino → Bool) (id : String) (e : Evento) (d : Destino)
    → contestadas f id (e ∷ []) (d ∷ []) ≡ (if f d then esperas id (e ∷ []) else 0)
unfolding contestadas
contestadas-one f id e d = omega arith

pub esperas-cons :
    (id : String) (e : Evento) (es : List Evento)
    → esperas id (e ∷ es) ≡ esperas id (e ∷ []) + esperas id es
unfolding esperas
esperas-cons id (espera j p) es = ground arith
esperas-cons id (avisa j) es = omega arith

pub avisos-cons :
    (id : String) (e : Evento) (es : List Evento)
    → avisos id (e ∷ es) ≡ avisos id (e ∷ []) + avisos id es
unfolding avisos
avisos-cons id (espera j p) es = omega arith
avisos-cons id (avisa j) es = ground arith
