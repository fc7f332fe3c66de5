-- ===== src/Ejemplos/Lecturas.antt =====
-- A memory of two frames of 4 bytes with one page and a cache of one free slot, and a read of
-- Memoria/Memoria.c.
use native.Mathlib.Omega.{arith}
use tp_so_2017_twt.Prelude.{
  ℕ, zero, suc, ◌+◌, ◌*◌, ◌≡◌, ◌≢◌, refl, ◌<◌, ◌^◌, some, List, [], ◌∷◌, get_elem?,
}
use tp_so_2017_twt.FileSystem.Datos.{read}
use tp_so_2017_twt.Memoria.Defs.{
  libre, calcular_posicion, potencia_de_digitos, buscar_en_indice, buscar_en_lista,
  es_pagina_correcta,
}
use tp_so_2017_twt.Cache.Defs.{Ranura, nadie, cantidad_de_entradas}
use tp_so_2017_twt.Cache.Referencias.{IsPareja}
use tp_so_2017_twt.Paginas.Defs.{Memoria, Config, buscar_frame, lectura, escritura}
use tp_so_2017_twt.Paginas.Lectura.{IsAlDia, lectura-read}
use tp_so_2017_twt.Paginas.Vuelta.{IsUnica, escritura-lectura}

abbrev config : Config
config = record { marcos = 2; marco_size = 4; cache_x_proceso = 1 }

abbrev ranuras : List Ranura
ranuras =
    record {
      pid = nadie;
      pagina = nadie;
      contenido = 0 ∷ [];
      admin_pid = nadie;
      t_last_ref = nadie;
    }
    ∷ []

abbrev memoria_chica : Memoria
memoria_chica = record {
  marcos = record {
    tabla =
        record { frame = 0; pid = libre; pagina = 0 }
        ∷ record { frame = 1; pid = 7; pagina = 0 }
        ∷ [];
    hash_index = (1 ∷ []) ∷ [] ∷ [];
  };
  memoria = λ a. a + 100;
  cache = ranuras;
}

ranuras-IsPareja : IsPareja ranuras
ranuras-IsPareja = record {
  agree = λ i r e. ranuras_agree i r e;
  fits = λ i r e. ranuras_fits i r e;
}
  where
    ranuras_agree : (i : ℕ) (r : Ranura) → get_elem? ranuras i ≡ some r → r.admin_pid ≡ r.pid
    ranuras_agree zero r e = ground (arith, e)
    ranuras_agree (suc i) r e = ground (arith, e)

    ranuras_fits : (i : ℕ) (r : Ranura) → get_elem? ranuras i ≡ some r → r.t_last_ref < 2 ^ 32
    ranuras_fits zero r e = ground (arith, e)
    ranuras_fits (suc i) r e = ground (arith, e)

ranuras_libres : (i : ℕ) (r : Ranura) → get_elem? ranuras i ≡ some r → r.pid ≡ nadie
ranuras_libres zero r e = ground (arith, e)
ranuras_libres (suc i) r e = ground (arith, e)

ranuras-IsAlDia : IsAlDia config memoria_chica.marcos memoria_chica.memoria ranuras
ranuras-IsAlDia = record { igual = λ i r e n. absurd (n (ranuras_libres i r e)) }

pagina_en_1 : buscar_frame config memoria_chica.marcos 7 0 ≡ some (some 1)
unfolding buscar_frame calcular_posicion potencia_de_digitos buscar_en_indice buscar_en_lista
    es_pagina_correcta
pagina_en_1 = refl

ninguna : cantidad_de_entradas ranuras 7 ≡ 0
unfolding cantidad_de_entradas
ninguna = refl

lectura-read_example :
    (c : List Ranura) × (lectura config memoria_chica 7 0 1 2
      ≡ some (some (read memoria_chica.memoria (1 * 4 + 1) 2), c))
    × IsAlDia config memoria_chica.marcos memoria_chica.memoria c
lectura-read_example =
    lectura-read config memoria_chica 7 0 1 2 1 ranuras-IsAlDia ranuras-IsPareja (omega arith)
      (omega arith) (omega (arith, ninguna)) (λ e. omega (arith, e)) pagina_en_1 (omega arith)

ranuras-IsUnica : IsUnica ranuras
ranuras-IsUnica i j r q er eq same page used = absurd (used (ranuras_libres i r er))

escritura-lectura_example :
    (s : Memoria) × (c : List Ranura) × (escritura config memoria_chica 7 0 1 (9 ∷ 8 ∷ []) ≡ some s)
    × IsAlDia config s.marcos s.memoria s.cache
    × (lectura config s 7 0 1 2 ≡ some (some (9 ∷ 8 ∷ []), c))
    × ((g : ℕ) → g ≢ 1 → read s.memoria (g * 4) 4 ≡ read memoria_chica.memoria (g * 4) 4)
escritura-lectura_example =
    escritura-lectura config memoria_chica 7 0 1 1 (9 ∷ 8 ∷ []) ranuras-IsAlDia
      (λ e. omega (arith, e)) pagina_en_1 (omega arith) ranuras-IsUnica ranuras-IsPareja
      (omega arith) (omega arith) (omega (arith, ninguna))
