-- ===== src/Kernel/Compartidas/Defs.antt =====
-- The shared variables of Kernel/Kernel.c and the answers to the requests that set and read one.
-- `none` is NULL that is followed.
use Prim.Native.String.{String}
use text.Mathlib.Text.{◌==◌ as str_eq}
use tp_so_2017_twt.Prelude.{
  ℕ, Bool, false, ◌||◌, Option, none, some, List, [], ◌∷◌, ◌++◌, if◌then◌else◌, ◌>>=◌, ℤ, neg,
}

-- `variable_compartida`
pub record VariableCompartida : Type 0 where
  pub id : String
  pub valor : ℕ

-- `remove_by_ID`
unfoldable pub remove_by_id :
    List VariableCompartida → String → Option (VariableCompartida × List VariableCompartida)
remove_by_id [] id = none
remove_by_id (x ∷ xs) id =
    let rest = remove_by_id xs id in
    if str_eq id x.id then some (x, xs) else (rest >>= λ r. some (r.0, x ∷ r.1))

-- `existeCompartida`
unfoldable pub existe_compartida : String → List VariableCompartida → Bool
existe_compartida id [] = false
existe_compartida id (x ∷ xs) = str_eq id x.id || existe_compartida id xs

unfoldable pub asignar_valor_variable_compartida :
    String → ℕ → List VariableCompartida → Option (List VariableCompartida)
unfolding remove_by_id
asignar_valor_variable_compartida id value vs = do
  (variable_a_modificar, otras) ← remove_by_id vs id
  some (otras ++ (record variable_a_modificar { valor = value } ∷ []))

unfoldable pub obtener_valor_variable_compartida :
    String → List VariableCompartida → Option (ℕ × List VariableCompartida)
unfolding remove_by_id
obtener_valor_variable_compartida id vs = do
  (variable_a_modificar, otras) ← remove_by_id vs id
  some (variable_a_modificar.valor, otras ++ (variable_a_modificar ∷ []))

-- What the processor hears, with the variables after it; or the code that the process ends with
pub data Contestacion : Type 0 where
  asignada : List VariableCompartida → Contestacion
  obtenida : ℕ → List VariableCompartida → Contestacion
  abortada : ℤ → Contestacion

-- The request to set a variable
unfoldable pub atender_asignar : String → ℕ → List VariableCompartida → Option Contestacion
unfolding existe_compartida asignar_valor_variable_compartida
atender_asignar id value vs =
    if existe_compartida id vs
    then (do vs' ← asignar_valor_variable_compartida id value vs; some (asignada vs'))
    else some (abortada (neg 15))

-- `BUSCAR_VALOR_COMPARTIDA`
unfoldable pub atender_buscar : String → List VariableCompartida → Option Contestacion
unfolding existe_compartida obtener_valor_variable_compartida
atender_buscar id vs =
    if existe_compartida id vs
    then (do (value, vs') ← obtener_valor_variable_compartida id vs; some (obtenida value vs'))
    else some (abortada (neg 15))
