-- ===== src/Kernel/Semaforos/Lista.antt =====
-- The list of semaphores of Kernel/Kernel.c: what taking one out and adding it at the end do.
use Prim.Native.String.{String}
use text.Mathlib.Text.{◌==◌ as str_eq}
use text.Mathlib.TextEquality.{eq_iff}
use native.Mathlib.Omega.{arith}
use tp_so_2017_twt.Prelude.{
  ℕ, ◌≡◌, ◌≢◌, refl, sym, ap, subst, append-nil, ◌⊎◌, ◌∙◌, Bool, true, false, ◌||◌, none, some,
  List, [], ◌∷◌, ◌++◌, ◌==◌, if◌then◌else◌, ◌>>=◌, Bool-cases, inl, inr,
}
use tp_so_2017_twt.Kernel.Semaforos.Defs.{
  SemaforoCola, Registrado, WaitReciente, remove_semaforo_by_id, existe_semaforo, poner_estado,
  poner_wait,
}

-- The semaphores with a name
unfoldable pub con_id : String → List SemaforoCola → List SemaforoCola
con_id id [] = []
con_id id (x ∷ xs) = if str_eq x.id id then x ∷ con_id id xs else con_id id xs

-- Some PCB has the PID.
unfoldable pub hay_pcb : ℕ → List Registrado → Bool
hay_pcb pid [] = false
hay_pcb pid (p ∷ ps) = p.pid == pid || hay_pcb pid ps

unfoldable pub hay_wait : ℕ → List WaitReciente → Bool
hay_wait pid [] = false
hay_wait pid (w ∷ ws) = w.pid == pid || hay_wait pid ws

con_id-append :
    (id : String) (xs ys : List SemaforoCola) → con_id id (xs ++ ys) ≡ con_id id xs ++ con_id id ys
unfolding con_id
con_id-append id [] ys = refl
con_id-append id (x ∷ xs) ys = ground (arith, con_id-append id xs ys)

-- A semaphore that exists is taken out of its place.
remove_semaforo_by_id-some :
    (xs : List SemaforoCola) (id : String)
    → existe_semaforo id xs ≡ true
    → (x : SemaforoCola) × (as' : List SemaforoCola) × (bs : List SemaforoCola)
      × (remove_semaforo_by_id xs id ≡ some (x, as' ++ bs))
      × (xs ≡ as' ++ (x ∷ bs))
      × (x.id ≡ id)
unfolding remove_semaforo_by_id existe_semaforo
remove_semaforo_by_id-some [] id e = ground (arith, e)
remove_semaforo_by_id-some (x ∷ xs) id e = elim (Bool-cases (str_eq id x.id)) [
  | inl f ↦ (x, [], xs, rw f refl, refl, sym ((eq_iff id x.id).0 f))
  | inr f ↦
      let (y, as', bs, run, split, named) =
        remove_semaforo_by_id-some xs id (sym (rw f refl) ∙ e) in
      (y, x ∷ as', bs, rw (f, run, ◌>>=◌) refl, ap (λ t. x ∷ t) split, named)
]

str_eq-false : (a b : String) → a ≢ b → str_eq a b ≡ false
str_eq-false a b n = elim (Bool-cases (str_eq a b)) [
  | inl e ↦ absurd (n ((eq_iff a b).0 e))
  | inr e ↦ e
]

con_id-other :
    (j : String) (x : SemaforoCola) (xs : List SemaforoCola)
    → x.id ≢ j
    → con_id j (x ∷ xs) ≡ con_id j xs
unfolding con_id
con_id-other j x xs n = rw (str_eq-false x.id j n) refl

pub con_id_self :
    (x : SemaforoCola) (xs : List SemaforoCola) → con_id x.id (x ∷ xs) ≡ x ∷ con_id x.id xs
unfolding con_id
con_id_self x xs = rw ((eq_iff x.id x.id).1 refl) refl

-- What a list of semaphores is after one is taken out, changed and added at the end
abbrev pub al_final : List SemaforoCola → List SemaforoCola → SemaforoCola → List SemaforoCola
al_final as' bs x = (as' ++ bs) ++ (x ∷ [])

-- The semaphores of another name stay the same, in the same order.
con_id-al_final :
    (j : String) (as' bs : List SemaforoCola) (x x' : SemaforoCola)
    → x'.id ≡ x.id
    → x.id ≢ j
    → con_id j (al_final as' bs x') ≡ con_id j (as' ++ (x ∷ bs))
unfolding con_id
con_id-al_final j as' bs x x' same n =
    rw
      (
        con_id-append j (as' ++ bs) (x' ∷ []),
        con_id-append j as' bs,
        con_id-append j as' (x ∷ bs),
        con_id-other j x bs n,
        con_id-other j x' [] (λ e. n (sym same ∙ e)),
      )
      (append-nil (con_id j as' ++ con_id j bs))

one_of :
    (us vs : List SemaforoCola) (x y : SemaforoCola)
    → us ++ (x ∷ vs) ≡ y ∷ []
    → (us ≡ []) × (vs ≡ []) × (y ≡ x)
one_of [] [] x y e = ground (arith, e)
one_of [] (v ∷ vs) x y e = ground (arith, e)
one_of (u ∷ []) vs x y e = ground (arith, e)
one_of (u ∷ w ∷ us) vs x y e = ground (arith, e)

-- The only semaphore of a name is the one that was changed.
con_id-al_final_self :
    (as' bs : List SemaforoCola) (x x' y : SemaforoCola)
    → x'.id ≡ x.id
    → con_id x.id (as' ++ (x ∷ bs)) ≡ y ∷ []
    → (y ≡ x) × (con_id x.id (al_final as' bs x') ≡ x' ∷ [])
unfolding con_id
con_id-al_final_self as' bs x x' y same one =
    let (ea, eb, ey) = one_of (con_id x.id as') (con_id x.id bs) x y (
      sym (con_id-append x.id as' (x ∷ bs) ∙ ap (λ t. con_id x.id as' ++ t) (con_id_self x bs))
      ∙ one) in
    (
      ey,
      rw (con_id-append x.id (as' ++ bs) (x' ∷ []), con_id-append x.id as' bs, ea, eb)
          (subst (λ i. con_id i (x' ∷ []) ≡ x' ∷ []) same (con_id_self x' [])),
    )

existe_semaforo-con_id :
    (id : String) (xs : List SemaforoCola) (x : SemaforoCola) (rest : List SemaforoCola)
    → con_id id xs ≡ x ∷ rest
    → existe_semaforo id xs ≡ true
unfolding con_id existe_semaforo
existe_semaforo-con_id id [] x rest e = ground (arith, e)
existe_semaforo-con_id id (y ∷ ys) x rest e = elim (Bool-cases (str_eq y.id id)) [
  | inl f ↦ rw ((eq_iff id y.id).1 (sym ((eq_iff y.id id).0 f))) refl
  | inr f ↦ ground (arith, existe_semaforo-con_id id ys x rest (sym (rw f refl) ∙ e))
]

-- The semaphore `id` becomes `x'`, the others stay.
pub record IsCambio (id : String) (xs xs' : List SemaforoCola) (x' : SemaforoCola) : Type 0 where
  pub aqui : con_id id xs' ≡ x' ∷ []
  pub otros : (j : String) → j ≢ id → con_id j xs' ≡ con_id j xs

pub IsCambio-trans :
    (id : String) (xs ys zs : List SemaforoCola) (y z : SemaforoCola)
    → IsCambio id xs ys y
    → IsCambio id ys zs z
    → IsCambio id xs zs z
IsCambio-trans id xs ys zs y z a b = record {
  aqui = b.aqui;
  otros = λ j n. b.otros j n ∙ a.otros j n;
}

-- What the operations start with: the semaphore is found, and added at the end after a change.
pub sacar_y_agregar :
    (id : String) (xs : List SemaforoCola) (x : SemaforoCola)
    → con_id id xs ≡ x ∷ []
    → (existe_semaforo id xs ≡ true)
      × (x.id ≡ id)
      × (rest : List SemaforoCola) × (remove_semaforo_by_id xs id ≡ some (x, rest))
      × ((x' : SemaforoCola) → x'.id ≡ id → IsCambio id xs (rest ++ (x' ∷ [])) x')
sacar_y_agregar id xs x e =
    let there = existe_semaforo-con_id id xs x [] e in
    let (y, as', bs, run, split, named) = remove_semaforo_by_id-some xs id there in
    let one : con_id y.id (as' ++ (y ∷ bs)) ≡ x ∷ [] = rw (named, ← split) e in
    let same : x ≡ y = (con_id-al_final_self as' bs y y x refl one).0 in
    (
      there,
      ap (λ z. z.id) same ∙ named,
      as' ++ bs,
      run ∙ ap (λ z. some (z, as' ++ bs)) (sym same),
      λ x' f. record {
        aqui =
            subst (λ i. con_id i (al_final as' bs x') ≡ x' ∷ []) named
              (con_id-al_final_self as' bs y x' x (f ∙ sym named) one).1;
        otros = λ j n.
            con_id-al_final j as' bs y x' (f ∙ sym named) (λ g. n (sym g ∙ named))
            ∙ ap (con_id j) (sym split);
      },
    )

poner_estado-cases :
    (pid : ℕ) (e : String) (ps : List Registrado)
    → ((poner_estado pid e ps ≡ none) × (hay_pcb pid ps ≡ false))
      ⊎ ((ps' : List Registrado) × (poner_estado pid e ps ≡ some ps')
          × ((p : ℕ) → hay_pcb p ps' ≡ hay_pcb p ps))
unfolding poner_estado hay_pcb
poner_estado-cases pid e [] = inl (refl, refl)
poner_estado-cases pid e (p ∷ ps) = elim (poner_estado-cases pid e ps) [
  | inr (ps', run, same) ↦ inr (p ∷ ps', rw run refl, λ i. ap (λ b. (p.pid == i) || b) (same i))
  | inl (run, absent) ↦ elim (Bool-cases (p.pid == pid)) [
    | inl f ↦ inr (record p { estado = e } ∷ ps, rw (run, f) refl, λ i. refl)
    | inr f ↦ inl (rw (run, f) refl, rw (f, absent) refl)
  ]
]

pub poner_estado-some :
    (pid : ℕ) (e : String) (ps : List Registrado)
    → hay_pcb pid ps ≡ true
    → (ps' : List Registrado) × (poner_estado pid e ps ≡ some ps')
      × ((p : ℕ) → hay_pcb p ps' ≡ hay_pcb p ps)
poner_estado-some pid e ps h = elim (poner_estado-cases pid e ps) [
  | inl (run, absent) ↦ ground (arith, h, absent)
  | inr found ↦ found
]

poner_wait-cases :
    (pid : ℕ) (e : String) (ps : List WaitReciente)
    → ((poner_wait pid e ps ≡ none) × (hay_wait pid ps ≡ false))
      ⊎ ((ps' : List WaitReciente) × (poner_wait pid e ps ≡ some ps')
          × ((p : ℕ) → hay_wait p ps' ≡ hay_wait p ps))
unfolding poner_wait hay_wait
poner_wait-cases pid e [] = inl (refl, refl)
poner_wait-cases pid e (p ∷ ps) = elim (poner_wait-cases pid e ps) [
  | inr (ps', run, same) ↦ inr (p ∷ ps', rw run refl, λ i. ap (λ b. (p.pid == i) || b) (same i))
  | inl (run, absent) ↦ elim (Bool-cases (p.pid == pid)) [
    | inl f ↦ inr (record p { sem = e } ∷ ps, rw (run, f) refl, λ i. refl)
    | inr f ↦ inl (rw (run, f) refl, rw (f, absent) refl)
  ]
]

pub poner_wait-some :
    (pid : ℕ) (e : String) (ps : List WaitReciente)
    → hay_wait pid ps ≡ true
    → (ps' : List WaitReciente) × (poner_wait pid e ps ≡ some ps')
      × ((p : ℕ) → hay_wait p ps' ≡ hay_wait p ps)
poner_wait-some pid e ps h = elim (poner_wait-cases pid e ps) [
  | inl (run, absent) ↦ ground (arith, h, absent)
  | inr found ↦ found
]
