-- ===== src/Paginas/Defs.antt =====
-- `lecturaV2` and `escritura` of Memoria/Memoria.c: the bytes of the frames, the page table with its
-- index, and the cache. A `memcpy` out of the bytes is `read`, one into them is `write`. `none` is an access out of bounds, or an index without a value.
use tp_so_2017_twt.Prelude.{
  ℕ, suc, ◌+◌, ◌-◌, ◌*◌, ◌%◌, ◌&&◌, Option, none, some, List, [], ◌∷◌, leb, ◌==◌, if◌then◌else◌,
  length, get_elem?, set, take, drop, ◌++◌, ◌>>=◌,
}
use tp_so_2017_twt.Memoria.Defs.{Marcos, calcular_posicion, buscar_en_indice}
use tp_so_2017_twt.Heap.Defs.{Bytes}
use tp_so_2017_twt.FileSystem.Datos.{read, write}
use tp_so_2017_twt.Cache.Defs.{Ranura, esta_en_cache, insertar_entrada, aumentar_referencias}

pub record Memoria : Type 0 where
  pub marcos : Marcos
  pub memoria : Bytes
  pub cache : List Ranura

-- `data_config`
pub record Config : Type 0 where
  pub marcos : ℕ
  pub marco_size : ℕ
  pub cache_x_proceso : ℕ

-- The slot that `buscar_entrada` and `set_zero_ref` end with: the last one of the page
unfoldable pub ultima_ranura : List Ranura → ℕ → ℕ → Option ℕ
ultima_ranura [] pid pagina = none
ultima_ranura (r ∷ rs) pid pagina = elim (ultima_ranura rs pid pagina) [
  | some i ↦ some (suc i)
  | none ↦ if r.pagina == pagina && r.pid == pid then some 0 else none
]

-- `buscar_entrada`
unfoldable pub buscar_entrada : List Ranura → ℕ → ℕ → Option Ranura
unfolding ultima_ranura
buscar_entrada c pid pagina = do i ← ultima_ranura c pid pagina; get_elem? c i

-- `set_zero_ref`
unfoldable pub set_zero_ref : List Ranura → ℕ → ℕ → Option (List Ranura)
unfolding ultima_ranura
set_zero_ref c pid pagina = do
  i ← ultima_ranura c pid pagina
  r ← get_elem? c i
  some (set c i (record r { t_last_ref = 0 }))

-- `calcular_posicion` and `buscar_en_indice`; the inner `none` is -1.
unfoldable pub buscar_frame : Config → Marcos → ℕ → ℕ → Option (Option ℕ)
buscar_frame k t pid pagina = do
  posicion ← calcular_posicion k.marcos pid pagina
  buscar_en_indice t posicion pid pagina

-- `aumentar_referencias` and `insertar_entrada` of the page in a frame
unfoldable pub guardar_en_cache : Config → Bytes → ℕ → ℕ → ℕ → List Ranura → Option (List Ranura)
unfolding read
guardar_en_cache k m pid pagina frame c =
    insertar_entrada k.cache_x_proceso pid pagina (read m (frame * k.marco_size) k.marco_size)
      (aumentar_referencias c)

-- `lecturaV2`, of `offset` bytes from `inicio` on: the bytes, where `none` is NULL, and the cache
unfoldable pub lectura : Config → Memoria → ℕ → ℕ → ℕ → ℕ → Option (Option (List ℕ) × List Ranura)
unfolding read buscar_entrada set_zero_ref buscar_frame guardar_en_cache
lectura k s pid pagina inicio offset =
    if leb (inicio + offset) k.marco_size
    then (if esta_en_cache s.cache pid pagina
        then (do
          entrada ← buscar_entrada s.cache pid pagina
          c ← set_zero_ref (aumentar_referencias s.cache) entrada.pid entrada.pagina
          some (some (take offset (drop inicio entrada.contenido)), c))
        else (do
          encontrado ← buscar_frame k s.marcos pid pagina
          elim encontrado [
            | none ↦ some (none, s.cache)
            | some frame ↦ do
              c ← guardar_en_cache k s.memoria pid pagina frame s.cache
              some (some (read s.memoria (frame * k.marco_size + inicio) offset), c)
          ]))
    else (do
      encontrado ← buscar_frame k s.marcos pid pagina
      elim encontrado [
        | none ↦ some (none, s.cache)
        | some frame ↦ do
          let resto = (inicio + offset) % k.marco_size
          let primera_parte = offset - resto
          c ← guardar_en_cache k s.memoria pid pagina frame s.cache
          some (
            some (
                read s.memoria (frame * k.marco_size + inicio) primera_parte
                ++ read s.memoria (frame * k.marco_size + k.marco_size) resto),
            c,
          )
      ])

-- `escritura`. A page without a frame has the address of frame -1, before the memory.
unfoldable pub escritura : Config → Memoria → ℕ → ℕ → ℕ → List ℕ → Option Memoria
unfolding write ultima_ranura set_zero_ref buscar_frame guardar_en_cache
escritura k s pid pagina offset value = do
  encontrado ← buscar_frame k s.marcos pid pagina
  frame ← encontrado
  let m = write s.memoria (frame * k.marco_size + offset) value
  if esta_en_cache s.cache pid pagina
      then (do
        i ← ultima_ranura s.cache pid pagina
        r ← get_elem? s.cache i
        let nuevo : List ℕ =
            take offset r.contenido ++ (value ++ drop (offset + length value) r.contenido)
        let escrita : List Ranura = set s.cache i (record r { contenido = nuevo })
        c ← set_zero_ref (aumentar_referencias escrita) r.pid r.pagina
        some (record s { memoria = m; cache = c }))
      else (do
        c ← guardar_en_cache k m pid pagina frame s.cache
        some (record s { memoria = m; cache = c }))
