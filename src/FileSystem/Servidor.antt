-- ===== src/FileSystem/Servidor.antt =====
-- The request loop of FileSystem/FileSystem.c: one round of `while(1)` is `atender`.
use Prim.Native.String.{String}
use tp_so_2017_twt.Prelude.{
  ℕ, Bool, true, false, Option, none, some, List, [], ◌∷◌, ◌>>=◌, ℤ, pos, neg, ltb_ℤ, if◌then◌else◌,
}
use tp_so_2017_twt.FileSystem.Datos.{BitArray, Estado, validar_archivo}
use tp_so_2017_twt.FileSystem.Defs.{create_archivo, delete_archivo, obtener_datos, guardar_datos}

-- A message of the kernel. In `crear`, whether the file can be opened for writing; in `escribir`,
-- the bytes that `recv` puts into the buffer.
pub data Pedido : Type 0 where
  validar : String → Pedido
  crear : String → Bool → Pedido
  leer : String → ℤ → ℤ → Pedido
  escribir : String → ℤ → ℤ → List ℕ → Pedido
  borrar : String → Pedido
  desconocido : Pedido

-- The code that is sent back, and the bytes after it
abbrev pub Respuesta : Type 0
Respuesta = ℤ × Option (List ℕ)

module _ (B : BitArray) (size_bloque : ℕ) where
  open B use {Bits}

  -- `none`: an access out of bounds or an overflow, and a write that announces 0 bytes, where
  -- `recibir` gives 0 and the server ends by `exit(6)`, or fewer, a size that `malloc` and `recv`
  -- take for a huge one.
  unfoldable pub atender : Pedido → Estado Bits → Option (Respuesta × Estado Bits)
  atender (validar path) s = elim (validar_archivo (s.archivos path)) [
    | true ↦ some ((pos 1, none), s)
    | false ↦ some ((pos 0, none), (delete_archivo B path s).1)
  ]
  atender (crear path opens) s =
      let (code, s') = create_archivo B path opens s in some ((code, none), s')
  atender (leer path offset size) s = do
    r ← obtener_datos B size_bloque s path offset size
    some (r, s)
  atender (escribir path offset size buffer) s = if ltb_ℤ size (pos 1) then none else (do
    (code, s') ← guardar_datos B size_bloque s path offset size buffer
    some ((code, none), s'))
  atender (borrar path) s = let (code, s') = delete_archivo B path s in some ((code, none), s')
  atender desconocido s = some ((neg 10, none), s)

  -- The loop, over the messages that arrive
  unfoldable pub servir : List Pedido → Estado Bits → Option (List Respuesta × Estado Bits)
  servir [] s = some ([], s)
  servir (p ∷ ps) s = do (r, s') ← atender p s; (rs, s'') ← servir ps s'; some (r ∷ rs, s'')
