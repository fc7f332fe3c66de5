-- ===== src/Kernel/Semaforos/Balance.antt =====
-- The value and the queue of a semaphore in Kernel/Kernel.c, through `wait` and `signal`.
use Prim.Native.String.{String}
use text.Mathlib.Text.{◌==◌ as str_eq}
use text.Mathlib.TextEquality.{eq_iff}
use native.Mathlib.Omega.{arith}
use tp_so_2017_twt.Prelude.{
  ℕ, ◌+◌, ◌-◌, ◌<◌, ◌≤◌, ◌%◌, ◌^◌, ◌≡◌, inl, inr, refl, sym, ap, subst, ◌∙◌, true, false, List, [],
  ◌∷◌, ◌++◌, if◌then◌else◌, length, All, ℤ, is_neg, pos_part, neg_part, ltb, Bool-cases,
}
use tp_so_2017_twt.Pcb.Defs.{Pcb}
use tp_so_2017_twt.Kernel.Archivos.Tablas.{i32}
use tp_so_2017_twt.Kernel.Semaforos.Defs.{
  SemaforoCola, Procesos, proceso_para_borrar, para_borrar_desde,
}
use tp_so_2017_twt.Kernel.Semaforos.Lista.{con_id, hay_pcb, hay_wait, IsCambio}

-- The `valor` of a semaphore as the `int32_t` that `wait` returns
abbrev pub valor_de : SemaforoCola → ℤ
valor_de x = i32 x.valor

abbrev pub mas : ℕ → ℕ
mas v = (v + 1) % 2 ^ 32

abbrev pub menos : ℕ → ℕ
menos v = (v + (2 ^ 32 - 1)) % 2 ^ 32

pub mas_lem :
    (v k : ℕ)
    → v < 2 ^ 32
    → pos_part (i32 v) + neg_part (i32 v) ≤ k
    → k + 1 < 2 ^ 31
    → (mas v < 2 ^ 32)
      × (pos_part (i32 (mas v)) ≡ (if is_neg (i32 v) then 0 else pos_part (i32 v) + 1))
      × (neg_part (i32 (mas v)) ≡ neg_part (i32 v) - 1)
unfolding i32
mas_lem v k l b c = ground arith

pub menos_lem :
    (v k : ℕ)
    → v < 2 ^ 32
    → pos_part (i32 v) + neg_part (i32 v) ≤ k
    → k + 1 < 2 ^ 31
    → (menos v < 2 ^ 32)
      × (pos_part (i32 (menos v)) ≡ pos_part (i32 v) - 1)
      × (neg_part (i32 (menos v)) ≡ (if ltb 0 (pos_part (i32 v)) then 0 else neg_part (i32 v) + 1))
      × (is_neg (i32 (menos v)) ≡ (if ltb 0 (pos_part (i32 v)) then false else true))
unfolding i32
menos_lem v k l b c = ground arith

-- A PCB whose PID is in `todos_los_procesos` and in `waits_recientes`
abbrev pub IsConocido : Procesos → Pcb → Type 0
IsConocido s p =
    (hay_pcb p.pid s.todos_los_procesos ≡ true) × (hay_wait p.pid s.waits_recientes ≡ true)

-- A negative value counts the processes in the queue, and the value is at most `k` from 0.
pub record IsBalanceado (k : ℕ) (s : Procesos) (x : SemaforoCola) : Type 0 where
  pub corto : x.valor < 2 ^ 32
  pub negativo : neg_part (valor_de x) ≡ length x.cola_de_bloqueados
  pub cota : pos_part (valor_de x) + neg_part (valor_de x) ≤ k
  pub conocidos : All (IsConocido s) x.cola_de_bloqueados

-- So it is with each semaphore that has a name of its own, and no process is to be deleted.
pub record IsSano (k : ℕ) (s : Procesos) : Type 0 where
  pub cada : (id : String) (x : SemaforoCola) → con_id id s.semaforos ≡ x ∷ [] → IsBalanceado k s x
  pub nadie_a_borrar : s.procesos_a_borrar ≡ []

-- The same PIDs are known.
pub record IsIgual (s s' : Procesos) : Type 0 where
  pub pcbs : (p : ℕ) → hay_pcb p s'.todos_los_procesos ≡ hay_pcb p s.todos_los_procesos
  pub waits : (p : ℕ) → hay_wait p s'.waits_recientes ≡ hay_wait p s.waits_recientes

pub IsConocido-same : (s s' : Procesos) (p : Pcb) → IsIgual s s' → IsConocido s p → IsConocido s' p
IsConocido-same s s' p i c = (i.pcbs p.pid ∙ c.0, i.waits p.pid ∙ c.1)

pub All-known :
    (s s' : Procesos) (ps : List Pcb)
    → IsIgual s s'
    → All (IsConocido s) ps
    → All (IsConocido s') ps
All-known s s' [] i a = tt
All-known s s' (p ∷ ps) i a = (IsConocido-same s s' p i a.0, All-known s s' ps i a.1)

pub All-known_add :
    (s : Procesos) (ps : List Pcb) (p : Pcb)
    → All (IsConocido s) ps
    → IsConocido s p
    → All (IsConocido s) (ps ++ (p ∷ []))
All-known_add s [] p a c = (c, tt)
All-known_add s (q ∷ qs) p a c = (a.0, All-known_add s qs p a.1 c)

-- One step of the semaphore `id` keeps all of them balanced.
pub IsSano-cambio :
    (k : ℕ) (s s' : Procesos) (id : String) (x' : SemaforoCola)
    → IsSano k s
    → IsIgual s s'
    → s'.procesos_a_borrar ≡ s.procesos_a_borrar
    → IsCambio id s.semaforos s'.semaforos x'
    → IsBalanceado (k + 1) s' x'
    → IsSano (k + 1) s'
IsSano-cambio k s s' id x' v same borrar c b = record {
  cada = λ j y e. elim (Bool-cases (str_eq j id)) [
    | inl f ↦
        let j_id = (eq_iff j id).0 f in
        subst (IsBalanceado (k + 1) s')
          (head_eq x' y (sym c.aqui ∙ ap (λ i. con_id i s'.semaforos) (sym j_id) ∙ e)) b
    | inr f ↦
        let old = v.cada j y (sym (c.otros j (λ g. ground (arith, f, (eq_iff j id).1 g))) ∙ e) in
        record {
          corto = old.corto;
          negativo = old.negativo;
          cota = omega (arith, old.cota);
          conocidos = All-known s s' y.cola_de_bloqueados same old.conocidos;
        }
  ];
  nadie_a_borrar = borrar ∙ v.nadie_a_borrar;
}
  where
    head_eq : (a b : SemaforoCola) → a ∷ [] ≡ b ∷ [] → a ≡ b
    head_eq a b e = ground (arith, e)

pub no_borra :
    (pid : ℕ) (s : Procesos) → s.procesos_a_borrar ≡ [] → is_neg (proceso_para_borrar pid s) ≡ true
unfolding proceso_para_borrar para_borrar_desde
no_borra pid s e = rw e refl
