-- ===== src/FileSystem/Datos.antt =====
-- The state of the server, the tree of metadata files, the bitmap and the block files, and the
-- functions of FileSystem/fs.h on single blocks.
--
-- `commons/bitarray` is not part of the repository: it is the parameter `BitArray`. A metadata file
-- is what `config_create` reads from it: a file with both of the keys BLOQUES and TAMANIO, or one
-- without. The strings of `array` are decimal block numbers, and stand here as those numbers.
-- `none` of an operation is an access out of bounds, which the code makes without a check.
use Prim.Native.String.{String}
use text.Mathlib.Text.{◌==◌ as str_eq}
use mathlib.Core.Option
use tp_so_2017_twt.Prelude.{
  ℕ, zero, suc, ◌+◌, ◌-◌, ◌<◌, ◌≡◌, Bool, true, false, ◌&&◌, Option, none, some, List, [], ◌∷◌,
  ◌++◌, ltb, leb, ◌==◌, if◌then◌else◌, length, get_elem?, get_or, take, drop, ◌>>=◌, ℤ, pos,
}
use tp_so_2017_twt.FileSystem.Bloques.{Bloque}

-- `t_bitarray`: what its documentation promises for a position inside the array.
pub record BitArray : Type 1 where
  pub Bits : Type 0
  pub max_bit : Bits → ℕ
  pub test_bit : Bits → ℕ → Bool
  pub set_bit : Bits → ℕ → Bits
  pub clean_bit : Bits → ℕ → Bits
  pub max_bit-set_bit : (b : Bits) (i : ℕ) → max_bit (set_bit b i) ≡ max_bit b
  pub max_bit-clean_bit : (b : Bits) (i : ℕ) → max_bit (clean_bit b i) ≡ max_bit b
  pub test_bit-set_bit :
      (b : Bits) (i j : ℕ)
      → i < max_bit b
      → test_bit (set_bit b i) j ≡ (if i == j then true else test_bit b j)
  pub test_bit-clean_bit :
      (b : Bits) (i j : ℕ)
      → i < max_bit b
      → test_bit (clean_bit b i) j ≡ (if i == j then false else test_bit b j)

-- `Archivo_t`; `cantidadElementos` is the length of `array`.
pub record Archivo : Type 0 where
  pub tamanio : ℕ
  pub array : List ℕ

-- What stands at a path under the mount point.
pub data Entrada : Type 0 where
  sin_formato : Entrada
  con_formato : Archivo → Entrada

abbrev pub Arbol : Type 0
Arbol = String → Option Entrada

-- The content of each block file, by its number; a block file that is missing is `none`.
abbrev pub Disco : Type 0
Disco = ℕ → Option (ℕ → ℕ)

abbrev pub poner : Arbol → String → Option Entrada → Arbol
poner t path e q = if str_eq path q then e else t q

-- `fseek` and `fread` of `size` bytes
unfoldable pub read : (ℕ → ℕ) → ℕ → ℕ → List ℕ
read f offset zero = []
read f offset (suc size) = f offset ∷ read f (offset + 1) size

-- `fseek` and `fwrite`
unfoldable pub write : (ℕ → ℕ) → ℕ → List ℕ → ℕ → ℕ
write f offset xs a =
    if leb offset a && ltb a (offset + length xs) then get_or xs (a - offset) 0 else f a

-- `readFromBlock`; `none` is NULL, when the block file cannot be opened.
unfoldable pub read_from_block : Disco → ℕ → ℕ → ℕ → Option (List ℕ)
read_from_block d block offset size = Option.map (λ f. read f offset size) (d block)

abbrev pub con_bloque : Disco → ℕ → (ℕ → ℕ) → Disco
con_bloque d block f n = if block == n then some f else d n

-- `writeToBlock`; `none` when the block file cannot be opened.
unfoldable pub write_to_block : Disco → ℕ → ℕ → List ℕ → Option Disco
write_to_block d block offset xs =
    Option.map (λ f. con_bloque d block (write f offset xs)) (d block)

-- The loop of `obtener_datos` over the pieces; the inner `none` is the error -19.
unfoldable pub leer_bloques : Disco → List ℕ → List Bloque → Option (Option (List ℕ))
unfolding read_from_block
leer_bloques d array [] = some (some [])
leer_bloques d array (b ∷ bs) = do
  block ← get_elem? array b.id
  elim (read_from_block d block b.offset b.size) [
    | none ↦ some none
    | some xs ↦ do rest ← leer_bloques d array bs; some (Option.map (λ ys. xs ++ ys) rest)
  ]

-- The loop of `guardar_datos` over the pieces; `buffer` is what is left of the data.
unfoldable pub escribir_bloques : Disco → List ℕ → List Bloque → List ℕ → Option (Bool × Disco)
unfolding write_to_block
escribir_bloques d array [] buffer = some (true, d)
escribir_bloques d array (b ∷ bs) buffer = do
  block ← get_elem? array b.id
  elim (write_to_block d block b.offset (take b.size buffer)) [
    | none ↦ some (false, d)
    | some d' ↦ escribir_bloques d' array bs (drop b.size buffer)
  ]

-- `aux[i - 1].id` after the loop that looks for the end of the array
abbrev pub ultimo_id : List Bloque → Option ℕ
ultimo_id [] = none
ultimo_id (b ∷ []) = some b.id
ultimo_id (b ∷ c ∷ bs) = ultimo_id (c ∷ bs)

-- `agregarBloque`
abbrev pub agregar_bloque : Archivo → ℕ → Archivo
agregar_bloque a block = record a { array = a.array ++ (block ∷ []) }

-- `validar_archivo`
unfoldable pub validar_archivo : Option Entrada → Bool
validar_archivo none = false
validar_archivo (some sin_formato) = false
validar_archivo (some (con_formato a)) = true

-- `false` and `true` as an `int32_t`
abbrev pub to_int : Bool → ℤ
to_int true = pos 1
to_int false = pos 0

-- What `guardar_datos` and the others work on: `pathArchivos`, `bitmap` and `pathBloques`.
pub record Estado (Bits : Type 0) : Type 0 where
  pub archivos : Arbol
  pub bitmap : Bits
  pub bloques : Disco
