-- ===== src/Ejemplos/Tabla.antt =====
-- A page table of ten frames of 24 bytes, where the table itself takes five, and runs of
-- Memoria/Memoria.c on it.
use tp_so_2017_twt.Prelude.{
  ℕ, zero, suc, ◌+◌, ◌-◌, ◌*◌, ◌≤◌, ◌<◌, ◌≡◌, refl, Option, none, some, arith, ◌⊎◌, pos,
}
use tp_so_2017_twt.Memoria.Defs.{
  Marcos, paginas_de_admin, entradas_desde, inicializar, marcos_libres, paginas_de_proceso,
  calcular_posicion, buscar_en_indice, ocupar_frame, ocupar_paginas, buscar_espacio, sin_espacio,
  asignar_nueva_pagina, finalizar_proceso, liberar_pagina,
}
use tp_so_2017_twt.Memoria.Indice.{IsCoherent}
use tp_so_2017_twt.Memoria.Marcos.{IsPid, IsOcupado}
use tp_so_2017_twt.Memoria.Busqueda.{HasPagina, buscar_en_indice-HasPagina}
use tp_so_2017_twt.Memoria.Reserva.{
  IsReservado, ocupar_paginas-IsReservado, buscar_espacio-IsReservado,
}
use tp_so_2017_twt.Memoria.Liberar.{
  IsSoltado, liberar_pagina-IsSoltado, IsFinalizado, finalizar_proceso-IsFinalizado,
}
use tp_so_2017_twt.Memoria.Inicio.{
  paginas_de_admin-fit, inicializar-IsCoherent, marcos_iniciales, marcos_iniciales-IsCoherent,
  asignar_nueva_pagina-IsOcupado,
}

uno-IsPid : IsPid 1
uno-IsPid = (omega arith, omega arith)

abbrev inicial : Marcos
inicial = marcos_iniciales 10 24

inicial-IsCoherent : IsCoherent 10 inicial
inicial-IsCoherent = (marcos_iniciales-IsCoherent 10 24).0

inicial_libres : marcos_libres inicial.tabla ≡ 5
unfolding entradas_desde paginas_de_admin marcos_libres
inicial_libres = refl

lugar : (j : ℕ) → j < 2 → (h : ℕ) × (calcular_posicion 10 1 j ≡ some h)
unfolding calcular_posicion
lugar zero lt = (0, refl)
lugar (suc zero) lt = (1, refl)
lugar (suc (suc j)) lt = absurd (omega arith)

lugar_dos : calcular_posicion 10 1 2 ≡ some 2
unfolding calcular_posicion
lugar_dos = refl

abbrev o_inicial : Option Marcos → Marcos
o_inicial none = inicial
o_inicial (some m) = m

-- The process 1 with two pages
abbrev con_proceso : Marcos
con_proceso = o_inicial (ocupar_paginas 10 1 0 2 inicial)

con_proceso-IsReservado : IsReservado 10 1 0 2 inicial con_proceso
con_proceso-IsReservado =
    let (m, run, r) =
      ocupar_paginas-IsReservado 10 1 uno-IsPid 0 2 inicial inicial-IsCoherent
        (omega (arith, inicial_libres)) (λ j lo hi. lugar j hi) in
    rw run r

proceso_paginas : paginas_de_proceso con_proceso.tabla 1 ≡ 2
unfolding entradas_desde paginas_de_admin ocupar_paginas paginas_de_proceso ocupar_frame
    calcular_posicion
proceso_paginas = refl

primera : (f : ℕ) × HasPagina con_proceso.tabla 1 0 f
primera =
    let (f, at) = con_proceso-IsReservado.paginas 0 (omega arith) (omega arith) in
    (f, record { entry = _; at = at; same_pid = refl; same_pagina = refl })

buscar_espacio-IsReservado_example :
    ((k : ℕ) × (m' : Marcos) × (buscar_espacio 10 24 1 2 inicial
        ≡ some (record { page_counter = pos 2; direccion = pos (k * 24) }, m'))
      × IsReservado 10 1 0 2 inicial m'
      × HasPagina m'.tabla 1 0 k)
    ⊎ ((marcos_libres inicial.tabla < 2)
        × (buscar_espacio 10 24 1 2 inicial ≡ some (sin_espacio, inicial)))
buscar_espacio-IsReservado_example =
    buscar_espacio-IsReservado 10 1 uno-IsPid 24 2 inicial inicial-IsCoherent (omega arith) lugar

buscar_en_indice-HasPagina_example :
    ((k : ℕ) × (buscar_en_indice con_proceso 0 1 0 ≡ some (some k))
      × HasPagina con_proceso.tabla 1 0 k)
    ⊎ ((buscar_en_indice con_proceso 0 1 0 ≡ some none)
        × ((k : ℕ) → HasPagina con_proceso.tabla 1 0 k → ⊥))
buscar_en_indice-HasPagina_example =
    buscar_en_indice-HasPagina 10 1 0 0 con_proceso con_proceso-IsReservado.coherent uno-IsPid
      (unfold calcular_posicion in refl)

finalizar_proceso-IsFinalizado_example :
    (m' : Marcos) × (finalizar_proceso 10 1 con_proceso ≡ some m')
    × IsFinalizado 10 1 0 con_proceso m'
    × (paginas_de_proceso m'.tabla 1 ≡ 0)
    × (marcos_libres m'.tabla
        ≡ marcos_libres con_proceso.tabla + paginas_de_proceso con_proceso.tabla 1)
finalizar_proceso-IsFinalizado_example =
    finalizar_proceso-IsFinalizado 10 1 uno-IsPid con_proceso con_proceso-IsReservado.coherent

liberar_pagina-IsSoltado_example :
    (f : ℕ) × (m' : Marcos) × (liberar_pagina 10 1 0 con_proceso ≡ some m')
    × HasPagina con_proceso.tabla 1 0 f
    × IsSoltado 10 1 f con_proceso m'
liberar_pagina-IsSoltado_example =
    liberar_pagina-IsSoltado 10 1 uno-IsPid 0 primera.0 con_proceso con_proceso-IsReservado.coherent
      primera.1

asignar_nueva_pagina-IsOcupado_example :
    ((f : ℕ) × (m' : Marcos) × (asignar_nueva_pagina 10 1 con_proceso
        ≡ some (some (paginas_de_proceso con_proceso.tabla 1, f), m'))
      × IsOcupado 10 1 (paginas_de_proceso con_proceso.tabla 1) con_proceso m' f)
    ⊎ ((marcos_libres con_proceso.tabla ≡ 0)
        × (asignar_nueva_pagina 10 1 con_proceso ≡ some (none, con_proceso)))
asignar_nueva_pagina-IsOcupado_example =
    asignar_nueva_pagina-IsOcupado 10 1 uno-IsPid con_proceso 2 con_proceso-IsReservado.coherent
      (rw proceso_paginas lugar_dos)

cinco_de_admin : paginas_de_admin 10 24 ≡ 5
unfolding paginas_de_admin
cinco_de_admin = refl

inicializar-IsCoherent_example :
    (m : Marcos) × (inicializar 10 24 ≡ some m)
    × IsCoherent 10 m
    × (marcos_libres m.tabla ≡ 10 - paginas_de_admin 10 24)
inicializar-IsCoherent_example =
    inicializar-IsCoherent 10 24 (omega arith) (omega arith) (omega (arith, cinco_de_admin))

paginas_de_admin-fit_example :
    (10 * 12 ≤ paginas_de_admin 10 24 * 24) × (paginas_de_admin 10 24 * 24 < 10 * 12 + 24)
paginas_de_admin-fit_example = paginas_de_admin-fit 10 24 (omega arith)
