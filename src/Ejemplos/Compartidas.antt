-- ===== src/Ejemplos/Compartidas.antt =====
-- Two shared variables of Kernel/Kernel.c, one of which is set and read.
use Prim.Native.String.{String}
use tp_so_2017_twt.Prelude.{◌≡◌, ◌≢◌, refl, some, List, [], ◌∷◌}
use tp_so_2017_twt.Kernel.Compartidas.Defs.{
  VariableCompartida, asignada, obtenida, atender_asignar, atender_buscar,
}
use tp_so_2017_twt.Kernel.Compartidas.Vuelta.{valores, atender_asignar-atender_buscar}

abbrev variables : List VariableCompartida
variables = record { id = "Global"; valor = 3 } ∷ record { id = "UnaVar"; valor = 5 } ∷ []

una_global : valores "Global" variables ≡ 3 ∷ []
unfolding valores
una_global = refl

atender_asignar-atender_buscar_example :
    (vs : List VariableCompartida) × (ws : List VariableCompartida) × (atender_asignar "Global" 9
        variables
      ≡ some (asignada vs))
    × (atender_buscar "Global" vs ≡ some (obtenida 9 ws))
    × ((j : String) → j ≢ "Global" → valores j vs ≡ valores j variables)
    × (valores "Global" ws ≡ 9 ∷ [])
    × ((j : String) → j ≢ "Global" → valores j ws ≡ valores j variables)
atender_asignar-atender_buscar_example =
    atender_asignar-atender_buscar variables "Global" 9 3 una_global
