-- ===== src/Cache/Defs.antt =====
-- The cache of Memoria/Memoria.c: `cache` and `admin_cache`, which the code keeps as two arrays of
-- `entradas_cache` elements, are one list of slots here. A PID, a page or a count of references -1 is
-- its 32 bits. `none` is an index that never got a value.
use tp_so_2017_twt.Prelude.{
  ℕ, ◌+◌, ◌-◌, ◌%◌, ◌^◌, Bool, true, false, ◌&&◌, ◌||◌, Option, none, some, List, [], ◌∷◌, map, ltb,
  ◌==◌, if◌then◌else◌, length, get_elem?, set, count_if, ◌>>=◌,
}

-- `entrada_cache` and `entrada_admin_cache`
pub record Ranura : Type 0 where
  pub pid : ℕ
  pub pagina : ℕ
  pub contenido : List ℕ
  pub admin_pid : ℕ
  pub t_last_ref : ℕ

-- -1 as 32 bits
abbrev pub nadie : ℕ
nadie = 2 ^ 32 - 1

-- `esta_en_cache`
unfoldable pub esta_en_cache : List Ranura → ℕ → ℕ → Bool
esta_en_cache [] pid pagina = false
esta_en_cache (r ∷ rs) pid pagina =
    (r.pagina == pagina && r.pid == pid) || esta_en_cache rs pid pagina

-- `cantidad_de_entradas`
unfoldable pub cantidad_de_entradas : List Ranura → ℕ → ℕ
cantidad_de_entradas c pid = count_if (λ r. r.pid == pid) c

-- `hay_espacio_en_cache`
unfoldable pub hay_espacio_en_cache : List Ranura → Bool
hay_espacio_en_cache [] = false
hay_espacio_en_cache (r ∷ rs) = (r.pagina == nadie || r.pid == nadie) || hay_espacio_en_cache rs

-- The loop of `entrada_libre`, from slot `i` on
unfoldable pub libre_loop : List Ranura → ℕ → Option ℕ
libre_loop [] i = none
libre_loop (r ∷ rs) i =
    let rest = libre_loop rs (i + 1) in if r.pid == nadie || r.pagina == nadie then some i else rest

-- `entrada_libre`
unfoldable pub entrada_libre : List Ranura → Option ℕ
unfolding libre_loop
entrada_libre c = libre_loop c 0

-- The loop of the two searches for a victim, among the slots that `p` admits
unfoldable pub victima_loop : (Ranura → Bool) → List Ranura → ℕ → ℕ → Option ℕ → Option ℕ
victima_loop p [] i max_ref victima = victima
victima_loop p (r ∷ rs) i max_ref victima =
    let found = victima_loop p rs (i + 1) r.t_last_ref (some i) in
    let rest = victima_loop p rs (i + 1) max_ref victima in
    if p r && ltb max_ref r.t_last_ref then found else rest

-- `buscar_victima_global`
unfoldable pub buscar_victima_global : List Ranura → Option ℕ
unfolding victima_loop
buscar_victima_global c = victima_loop (λ r. true) c 0 0 none

-- `buscar_victima_local`
unfoldable pub buscar_victima_local : List Ranura → ℕ → Option ℕ
unfolding victima_loop
buscar_victima_local c pid = victima_loop (λ r. r.admin_pid == pid) c 0 0 none

-- The slot that `insertar_entrada` takes
unfoldable pub elegir : ℕ → List Ranura → ℕ → Option ℕ
unfolding hay_espacio_en_cache cantidad_de_entradas entrada_libre buscar_victima_global
    buscar_victima_local
elegir cache_x_proceso c pid =
    if hay_espacio_en_cache c
    then (if ltb (cantidad_de_entradas c pid) cache_x_proceso
        then entrada_libre c
        else buscar_victima_local c pid)
    else (if ltb (cantidad_de_entradas c pid) cache_x_proceso
        then buscar_victima_global c
        else buscar_victima_local c pid)

-- `insertar_entrada`; `contenido` are the bytes of the frame.
unfoldable pub insertar_entrada : ℕ → ℕ → ℕ → List ℕ → List Ranura → Option (List Ranura)
unfolding elegir
insertar_entrada cache_x_proceso pid pagina contenido c =
    if ltb 0 (length c) && ltb 0 cache_x_proceso
    then (do
      aux ← elegir cache_x_proceso c pid
      r ← get_elem? c aux
      some (
          set c aux (record {
            pid = pid;
            pagina = pagina;
            contenido = contenido;
            admin_pid = pid;
            t_last_ref = 0;
          })))
    else some c

-- `aumentar_referencias`
unfoldable pub aumentar_referencias : List Ranura → List Ranura
aumentar_referencias c =
    map
      (λ r.
        if r.t_last_ref == nadie then r else record r { t_last_ref = (r.t_last_ref + 1) % 2 ^ 32 })
      c

-- `flush_process`; `ceros` are the `marco_size` zero bytes of an empty slot.
unfoldable pub flush_process : List ℕ → List Ranura → ℕ → List Ranura
flush_process ceros c pid =
    map
      (λ r.
        if r.admin_pid == pid
        then record {
          pid = nadie;
          pagina = nadie;
          contenido = ceros;
          admin_pid = nadie;
          t_last_ref = nadie;
        }
        else r)
      c
