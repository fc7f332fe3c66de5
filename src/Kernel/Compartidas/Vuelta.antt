-- ===== src/Kernel/Compartidas/Vuelta.antt =====
-- The values of the shared variables of Kernel/Kernel.c, through the requests that set and read one.
use Prim.Native.String.{String}
use text.Mathlib.Text.{◌==◌ as str_eq}
use text.Mathlib.TextEquality.{eq_iff}
use native.Mathlib.Omega.{arith}
use tp_so_2017_twt.Prelude.{
  ℕ, ◌≡◌, ◌≢◌, refl, sym, ap, subst, append-nil, ◌∙◌, true, some, List, [], ◌∷◌, ◌++◌,
  if◌then◌else◌, ◌>>=◌, Bool-cases, inl, inr,
}
use tp_so_2017_twt.Kernel.Compartidas.Defs.{
  VariableCompartida, remove_by_id, existe_compartida, asignar_valor_variable_compartida,
  obtener_valor_variable_compartida, asignada, obtenida, atender_asignar, atender_buscar,
}

-- The values of the variables with a name
unfoldable pub valores : String → List VariableCompartida → List ℕ
valores id [] = []
valores id (x ∷ xs) = if str_eq x.id id then x.valor ∷ valores id xs else valores id xs

valores-append :
    (id : String) (xs ys : List VariableCompartida)
    → valores id (xs ++ ys) ≡ valores id xs ++ valores id ys
unfolding valores
valores-append id [] ys = refl
valores-append id (x ∷ xs) ys = ground (arith, valores-append id xs ys)

valores_here :
    (x : VariableCompartida) (xs : List VariableCompartida)
    → valores x.id (x ∷ xs) ≡ x.valor ∷ valores x.id xs
unfolding valores
valores_here x xs = rw ((eq_iff x.id x.id).1 refl) refl

-- A variable that has a value is taken out of its place.
remove_by_id-some :
    (xs : List VariableCompartida) (id : String) (w : ℕ) (ws : List ℕ)
    → valores id xs ≡ w ∷ ws
    → (x : VariableCompartida) × (as' : List VariableCompartida) × (bs : List VariableCompartida)
      × (remove_by_id xs id ≡ some (x, as' ++ bs))
      × (xs ≡ as' ++ (x ∷ bs))
      × (x.id ≡ id)
      × (existe_compartida id xs ≡ true)
unfolding remove_by_id existe_compartida valores
remove_by_id-some [] id w ws e = ground (arith, e)
remove_by_id-some (x ∷ xs) id w ws e = elim (Bool-cases (str_eq id x.id)) [
  | inl f ↦ (x, [], xs, rw f refl, refl, sym ((eq_iff id x.id).0 f), rw f refl)
  | inr f ↦ elim (Bool-cases (str_eq x.id id)) [
    | inl g ↦ absurd (ground (arith, f, (eq_iff id x.id).1 (sym ((eq_iff x.id id).0 g))))
    | inr g ↦
        let (y, as', bs, run, split, named, there) =
          remove_by_id-some xs id w ws (sym (rw g refl) ∙ e) in
        (y, x ∷ as', bs, rw (f, run, ◌>>=◌) refl, ap (λ t. x ∷ t) split, named, rw (f, there) refl)
  ]
]

-- The variables after one is taken out, changed and added at the end
abbrev al_final :
    List VariableCompartida → List VariableCompartida → VariableCompartida → List VariableCompartida
al_final as' bs x = (as' ++ bs) ++ (x ∷ [])

one_value : (us vs : List ℕ) (x w : ℕ) → us ++ (x ∷ vs) ≡ w ∷ [] → (us ≡ []) × (vs ≡ []) × (w ≡ x)
one_value [] [] x w e = ground (arith, e)
one_value [] (v ∷ vs) x w e = ground (arith, e)
one_value (u ∷ []) vs x w e = ground (arith, e)
one_value (u ∷ t ∷ us) vs x w e = ground (arith, e)

valores-al_final_self :
    (as' bs : List VariableCompartida) (x y : VariableCompartida) (w : ℕ)
    → y.id ≡ x.id
    → valores x.id (as' ++ (x ∷ bs)) ≡ w ∷ []
    → (w ≡ x.valor) × (valores x.id (al_final as' bs y) ≡ y.valor ∷ [])
unfolding valores
valores-al_final_self as' bs x y w same one =
    let (ea, eb, ew) = one_value (valores x.id as') (valores x.id bs) x.valor w (
      ap (λ t. valores x.id as' ++ t) (sym (valores_here x bs))
      ∙ sym (valores-append x.id as' (x ∷ bs))
      ∙ one) in
    (
      ew,
      rw (valores-append x.id (as' ++ bs) (y ∷ []), valores-append x.id as' bs, ea, eb)
          (subst (λ t. valores t (y ∷ []) ≡ y.valor ∷ []) same (valores_here y [])),
    )

valores-al_final_other :
    (j : String) (as' bs : List VariableCompartida) (x y : VariableCompartida)
    → y.id ≡ x.id
    → j ≢ x.id
    → valores j (al_final as' bs y) ≡ valores j (as' ++ (x ∷ bs))
unfolding valores
valores-al_final_other j as' bs x y same n = elim (Bool-cases (str_eq x.id j)) [
  | inl e ↦ absurd (n (sym ((eq_iff x.id j).0 e)))
  | inr e ↦
      rw
        (
          valores-append j (as' ++ bs) (y ∷ []),
          valores-append j as' bs,
          valores-append j as' (x ∷ bs),
          same,
          e,
        )
        (append-nil (valores j as' ++ valores j bs))
]

-- What changes when the only variable of a name is taken out, changed and added at the end
valores-al_final :
    (vs as' bs : List VariableCompartida) (id : String) (w : ℕ) (x y : VariableCompartida)
    → vs ≡ as' ++ (x ∷ bs)
    → x.id ≡ id
    → y.id ≡ x.id
    → valores id vs ≡ w ∷ []
    → (w ≡ x.valor)
      × (valores id (al_final as' bs y) ≡ y.valor ∷ [])
      × ((j : String) → j ≢ id → valores j (al_final as' bs y) ≡ valores j vs)
valores-al_final vs as' bs id w x y split named same one =
    let here : valores x.id (as' ++ (x ∷ bs)) ≡ w ∷ [] =
      ap (λ t. valores t (as' ++ (x ∷ bs))) named ∙ ap (valores id) (sym split) ∙ one in
    let (ew, after) = valores-al_final_self as' bs x y w same here in
    (
      ew,
      ap (λ t. valores t (al_final as' bs y)) (sym named) ∙ after,
      λ j n.
          valores-al_final_other j as' bs x y same (λ e. n (e ∙ named))
          ∙ ap (valores j) (sym split),
    )

atender_asignar-valores :
    (vs : List VariableCompartida) (id : String) (value w : ℕ)
    → valores id vs ≡ w ∷ []
    → (vs' : List VariableCompartida) × (atender_asignar id value vs ≡ some (asignada vs'))
      × (valores id vs' ≡ value ∷ [])
      × ((j : String) → j ≢ id → valores j vs' ≡ valores j vs)
unfolding atender_asignar asignar_valor_variable_compartida
atender_asignar-valores vs id value w one =
    let (x, as', bs, run, split, named, there) = remove_by_id-some vs id w [] one in
    let y : VariableCompartida = record x { valor = value } in
    let (_, self, others) = valores-al_final vs as' bs id w x y split named refl one in
    (al_final as' bs y, rw (there, run, ◌>>=◌) refl, self, others)

atender_buscar-valores :
    (vs : List VariableCompartida) (id : String) (w : ℕ)
    → valores id vs ≡ w ∷ []
    → (vs' : List VariableCompartida) × (atender_buscar id vs ≡ some (obtenida w vs'))
      × (valores id vs' ≡ w ∷ [])
      × ((j : String) → j ≢ id → valores j vs' ≡ valores j vs)
unfolding atender_buscar obtener_valor_variable_compartida
atender_buscar-valores vs id w one =
    let (x, as', bs, run, split, named, there) = remove_by_id-some vs id w [] one in
    let (ew, self, others) = valores-al_final vs as' bs id w x x split named refl one in
    (
      al_final as' bs x,
      rw (there, run, ◌>>=◌) (ap (λ t. some (obtenida t (al_final as' bs x))) (sym ew)),
      self ∙ ap (λ t. t ∷ []) (sym ew),
      others,
    )

-- If exactly one shared variable has the name, the request to set it succeeds, the request to read
-- it that follows gives the value that was set, after both it is still the only variable of its
-- name, and the values of all other names are as they were.
pub atender_asignar-atender_buscar :
    (vs : List VariableCompartida) (id : String) (value w : ℕ)
    → valores id vs ≡ w ∷ []
    → (vs' : List VariableCompartida) × (vs'' : List VariableCompartida) × (atender_asignar id value
          vs
        ≡ some (asignada vs'))
      × (atender_buscar id vs' ≡ some (obtenida value vs''))
      × ((j : String) → j ≢ id → valores j vs' ≡ valores j vs)
      × (valores id vs'' ≡ value ∷ [])
      × ((j : String) → j ≢ id → valores j vs'' ≡ valores j vs)
atender_asignar-atender_buscar vs id value w one =
    let (vs', set_run, self, others) = atender_asignar-valores vs id value w one in
    let (vs'', get_run, self', others') = atender_buscar-valores vs' id value self in
    (vs', vs'', set_run, get_run, others, self', λ j n. others' j n ∙ others j n)
