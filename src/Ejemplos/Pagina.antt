-- ===== src/Ejemplos/Pagina.antt =====
-- A heap page of 64 bytes at address 128, and runs of Memoria/Memoria.c on it.
use tp_so_2017_twt.Prelude.{
  ℕ, ◌≤◌, ◌<◌, ◌≡◌, refl, true, none, some, List, [], ◌∷◌, arith, inl, ◌⊎◌,
}
use tp_so_2017_twt.Heap.Defs.{
  Bytes, leer_size, leer_free, poner_size, poner_free, buscar_espacio_libre, clean_heap, liberar,
}
use tp_so_2017_twt.Heap.Trozos.{
  Trozo, Tiles, IsUsed, usado, hueco, partir, soltar, juntar, IsJoined,
}
use tp_so_2017_twt.Heap.Reparto.{IsPartido, buscar_espacio_libre-IsPartido}
use tp_so_2017_twt.Heap.Limpieza.{IsLimpio, clean_heap-IsLimpio}
use tp_so_2017_twt.Heap.Vuelta.{liberar-IsLimpio, liberar-buscar_espacio_libre}

-- A new page: one free block
abbrev nueva : Bytes
nueva = poner_free (poner_size (λ x. 0) 128 59) 128 true

abbrev entera : List Trozo
entera = hueco 59 ∷ []

nueva-Tiles : Tiles nueva 128 192 entera
unfolding leer_size leer_free poner_size poner_free
nueva-Tiles = (refl, refl, refl)

-- A block of 10 bytes in use, and two free ones
abbrev usada : Bytes
usada =
    poner_free
      (poner_size (poner_free (poner_size (poner_size (λ x. 0) 128 10) 143 20) 143 true) 168 19) 168
      true

abbrev en_tres : List Trozo
en_tres = usado 10 ∷ hueco 20 ∷ hueco 19 ∷ []

usada-Tiles : Tiles usada 128 192 en_tres
unfolding leer_size leer_free poner_size poner_free
usada-Tiles = (refl, refl, (refl, refl, (refl, refl, refl)))

buscar_espacio_libre-IsPartido_example :
    ((p : ℕ) × (m' : Bytes) × (buscar_espacio_libre 64 12 128 usada ≡ some (some p, m'))
      × (5 ≤ p)
      × IsPartido 64 12 128 usada 0 en_tres p m')
    ⊎ ((buscar_espacio_libre 64 12 128 usada ≡ some (none, usada)) × (partir 12 en_tres ≡ none))
buscar_espacio_libre-IsPartido_example =
    buscar_espacio_libre-IsPartido 64 12 128 (omega arith) usada en_tres usada-Tiles

clean_heap-IsLimpio_example :
    (m' : Bytes) × (clean_heap 64 128 usada ≡ some m')
    × IsLimpio 64 128 usada 0 en_tres (juntar en_tres) m'
clean_heap-IsLimpio_example = clean_heap-IsLimpio 64 128 (omega arith) usada en_tres usada-Tiles

liberar-IsLimpio_example :
    (m' : Bytes) × (liberar 64 128 5 usada ≡ some m')
    × Tiles m' 128 192 (juntar (soltar 5 en_tres))
    × IsJoined (juntar (soltar 5 en_tres))
    × ((x : ℕ) → IsUsed 128 (soltar 5 en_tres) x → m' x ≡ usada x)
    × ((x : ℕ) → (x < 128) ⊎ (192 ≤ x) → m' x ≡ usada x)
liberar-IsLimpio_example =
    liberar-IsLimpio 64 128 (omega arith) usada en_tres 5 usada-Tiles (inl refl) (omega arith)
      (omega arith)

liberar-buscar_espacio_libre_example :
    (m₁ : Bytes) × (m₂ : Bytes) × (buscar_espacio_libre 64 10 128 nueva ≡ some (some 5, m₁))
    × (liberar 64 128 5 m₁ ≡ some m₂)
    × Tiles m₂ 128 192 entera
    × ((x : ℕ) → IsUsed 128 entera x → m₂ x ≡ nueva x)
liberar-buscar_espacio_libre_example =
    liberar-buscar_espacio_libre 64 128 10 (omega arith) nueva entera 5 (usado 10 ∷ hueco 44 ∷ [])
      nueva-Tiles tt (unfold partir in refl)
