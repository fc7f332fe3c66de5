-- ===== src/Ejemplos/Cache.antt =====
-- A cache of two slots, one of them in use, and a page put into it by Memoria/Memoria.c.
use tp_so_2017_twt.Prelude.{
  ℕ, zero, suc, ◌+◌, ◌%◌, ◌==◌, if◌then◌else◌, length, ◌^◌, ◌≤◌, ◌<◌, ◌≡◌, ◌≢◌, refl, true, some,
  List, [], ◌∷◌, arith, get_elem?,
}
use tp_so_2017_twt.Cache.Defs.{
  Ranura, nadie, esta_en_cache, cantidad_de_entradas, insertar_entrada, aumentar_referencias,
  buscar_victima_local,
}
use tp_so_2017_twt.Cache.Victima.{buscar_victima_local-most}
use tp_so_2017_twt.Cache.Insertar.{IsInsertada}
use tp_so_2017_twt.Cache.Referencias.{IsPareja, insertar_entrada-aumentar_referencias}

abbrev dos : List Ranura
dos =
    record { pid = 1; pagina = 0; contenido = 5 ∷ []; admin_pid = 1; t_last_ref = 4 }
    ∷ record {
      pid = nadie;
      pagina = nadie;
      contenido = 0 ∷ [];
      admin_pid = nadie;
      t_last_ref = nadie;
    }
    ∷ []

dos_agree : (i : ℕ) (r : Ranura) → get_elem? dos i ≡ some r → r.admin_pid ≡ r.pid
dos_agree zero r e = ground arith
dos_agree (suc zero) r e = ground arith
dos_agree (suc (suc i)) r e = ground arith

dos_fits : (i : ℕ) (r : Ranura) → get_elem? dos i ≡ some r → r.t_last_ref < 2 ^ 32
dos_fits zero r e = ground arith
dos_fits (suc zero) r e = ground arith
dos_fits (suc (suc i)) r e = ground arith

dos-IsPareja : IsPareja dos
dos-IsPareja = record { agree = dos_agree; fits = dos_fits }

una : cantidad_de_entradas dos 1 ≡ 1
unfolding cantidad_de_entradas
una = refl

insertar_entrada-aumentar_referencias_example :
    (k : ℕ) × (c' : List Ranura) × (insertar_entrada 1 1 3 (7 ∷ []) (aumentar_referencias dos)
      ≡ some c')
    × IsInsertada 1 1 (aumentar_referencias dos) 3 (7 ∷ []) k c'
    × ((i : ℕ) (r : Ranura)
        → i ≢ k
        → get_elem? dos i ≡ some r
        → get_elem? c' i
          ≡ some (record r {
            t_last_ref = if r.t_last_ref == nadie then nadie else (r.t_last_ref + 1) % 2 ^ 32;
          }))
    × (length c' ≡ length dos)
    × IsPareja c'
    × (esta_en_cache c' 1 3 ≡ true)
    × (cantidad_de_entradas c' 1 ≤ 1)
    × ((q : ℕ) → q ≢ 1 → cantidad_de_entradas c' q ≤ cantidad_de_entradas dos q)
insertar_entrada-aumentar_referencias_example =
    insertar_entrada-aumentar_referencias 1 1 3 (7 ∷ []) dos dos-IsPareja (omega arith)
      (omega arith) (omega (arith, una))

buscar_victima_local-most_example :
    (k : ℕ) × (q : Ranura) × (buscar_victima_local dos 1 ≡ some k)
    × (get_elem? dos k ≡ some q)
    × (q.admin_pid ≡ 1)
    × ((j : ℕ) (w : Ranura)
        → get_elem? dos j ≡ some w
        → w.admin_pid ≡ 1
        → w.t_last_ref ≤ q.t_last_ref)
buscar_victima_local-most_example =
    buscar_victima_local-most dos 1 0
      (record { pid = 1; pagina = 0; contenido = 5 ∷ []; admin_pid = 1; t_last_ref = 4 }) refl refl
      (omega arith)
