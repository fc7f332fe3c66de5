-- ===== src/FileSystem/Sesion.antt =====
-- The request loop of FileSystem/FileSystem.c over a sequence of requests, and a write followed by a
-- read.
use Prim.Native.String.{String}
use native.Mathlib.Omega.{arith}
use tp_so_2017_twt.Prelude.{
  ℕ, suc, zero, ◌+◌, ◌*◌, ◌-◌, ◌≤◌, ◌<◌, ◌^◌, ◌≡◌, refl, ap, ◌∙◌, get_or, Bool, true, false, Option,
  none, some, List, [], ◌∷◌, length, ℤ, pos, negsuc, neg, dec_lt, inl, inr,
}
use tp_so_2017_twt.FileSystem.Datos.{
  BitArray, Archivo, Entrada, sin_formato, con_formato, Estado, write, read, validar_archivo,
}
use tp_so_2017_twt.FileSystem.Defs.{
  obtener_datos, guardar_datos, cantidad_bloques_libres, create_archivo, delete_archivo,
}
use tp_so_2017_twt.FileSystem.Contenido.{read_congr, get_or_index}
use tp_so_2017_twt.FileSystem.Invariante.{bloque_de-con_formato}
use tp_so_2017_twt.FileSystem.Asignacion.{IsSane-IsMapped}
use tp_so_2017_twt.FileSystem.Lectura.{Contiene, obtener_datos-Contiene}
use tp_so_2017_twt.FileSystem.Celdas.{contenido, contenido-Holds}
use tp_so_2017_twt.FileSystem.Guardar.{IsValid, guardar_datos-IsSaved, guardar_datos-full}
use tp_so_2017_twt.FileSystem.Ciclo.{create_archivo-IsCreated, delete_archivo-IsDeleted}
use tp_so_2017_twt.FileSystem.Servidor.{
  Pedido, validar, crear, leer, escribir, borrar, desconocido, Respuesta, atender,
}

-- A write announces more than 0 bytes and `recv` fills the whole buffer of as many; the end of a
-- range that is read or written, and a block more, fit an `int32_t`.
abbrev pub IsFilled : ℕ → Pedido → Type 0
IsFilled size_bloque (escribir path offset size buffer) =
    (size ≡ pos (length buffer))
    × (0 < length buffer)
    × ((o : ℕ) → offset ≡ pos o → o + length buffer + size_bloque ≤ 2 ^ 31)
IsFilled size_bloque (leer path offset size) =
    (o n : ℕ) → offset ≡ pos o → size ≡ pos n → o + n + size_bloque ≤ 2 ^ 31
IsFilled size_bloque other = Unit

get_or-suc : (x : ℕ) (xs : List ℕ) (a b : ℕ) → a ≡ suc b → get_or (x ∷ xs) a 0 ≡ get_or xs b 0
get_or-suc x xs a b e = rw e

read_list : (xs : List ℕ) → read (λ k. get_or xs k 0) 0 (length xs) ≡ xs
unfolding read
read_list [] = refl
read_list (x ∷ xs) =
    ap (λ t. x ∷ t)
      (read_congr (λ k. get_or (x ∷ xs) k 0) (λ k. get_or xs k 0) (0 + 1) 0 (length xs)
          (λ k a b lt ea eb. get_or-suc x xs a b (omega arith))
        ∙ read_list xs)

write_at :
    (g : ℕ → ℕ) (o : ℕ) (xs : List ℕ) (a k : ℕ)
    → k < length xs
    → a ≡ o + k
    → write g o xs a ≡ get_or xs k 0
unfolding write
write_at g o xs a k lt e = ground (arith, get_or_index xs (a - o) k)

-- What is read at the place of a write is what was written.
pub read-write :
    (g : ℕ → ℕ) (o : ℕ) (xs : List ℕ) (n : ℕ) → length xs ≡ n → read (write g o xs) o n ≡ xs
read-write g o xs n e = rw (← e) (
    read_congr (write g o xs) (λ k. get_or xs k 0) o 0 (length xs)
      (λ k a b lt ea eb. write_at g o xs a b (omega arith) (omega arith))
    ∙ read_list xs)

module _ (B : BitArray) (size_bloque : ℕ) (pos_s : 0 < size_bloque) where
  open B use {Bits}

  -- A file that is there can be read.
  archivo-Contiene :
      (s : Estado Bits) (path : String) (a : Archivo)
      → IsValid B size_bloque s
      → s.archivos path ≡ some (con_formato a)
      → Contiene B size_bloque s path (contenido size_bloque s.bloques a.array) a.tamanio
  archivo-Contiene s path a v e =
      obtener_datos-Contiene B size_bloque s path a _ pos_s e (v.fits path a e)
        (IsSane-IsMapped B s.archivos s.bitmap s.bloques path a.array v.sane
          (λ i. bloque_de-con_formato s.archivos path a i e))
        (contenido-Holds size_bloque s.bloques a.array)

  pub create_archivo-keeps :
      (path : String) (opens : Bool) (s : Estado Bits)
      → IsValid B size_bloque s
      → IsValid B size_bloque (create_archivo B path opens s).1
  create_archivo-keeps path opens s v =
      elim (create_archivo-IsCreated B size_bloque s path v opens) [
        | inl (k, code, made) ↦ made.valid
        | inr same ↦ rw same v
      ]

  pub delete_archivo-keeps :
      (path : String) (s : Estado Bits)
      → IsValid B size_bloque s
      → IsValid B size_bloque (delete_archivo B path s).1
  delete_archivo-keeps path s v = elim (delete_archivo-IsDeleted B size_bloque s path v) [
    | inl (code, gone) ↦ gone.valid
    | inr (absent, same) ↦ rw same v
  ]

  obtener_datos_total :
      (s : Estado Bits) (path : String) (o n : ℤ)
      → IsValid B size_bloque s
      → ((j k : ℕ) → o ≡ pos j → n ≡ pos k → j + k + size_bloque ≤ 2 ^ 31)
      → (r : Respuesta) × (obtener_datos B size_bloque s path o n ≡ some r)
  unfolding obtener_datos
  obtener_datos_total s path o n v fit = go (s.archivos path) refl o n fit
    where
      go :
          (e : Option Entrada)
          → s.archivos path ≡ e
          → (o n : ℤ) → ((j k : ℕ) → o ≡ pos j → n ≡ pos k → j + k + size_bloque ≤ 2 ^ 31)
          → (r : Respuesta) × (obtener_datos B size_bloque s path o n ≡ some r)
      go none e o n fit = ((neg 20, none), rw (e, obtener_datos))
      go (some sin_formato) e o n fit = ((neg 20, none), rw (e, obtener_datos))
      go (some (con_formato a)) e o (negsuc n) fit =
          ((neg 14, none), rw (e, obtener_datos) (ground arith))
      go (some (con_formato a)) e o (pos zero) fit =
          ((neg 14, none), rw (e, obtener_datos) (ground arith))
      go (some (con_formato a)) e (negsuc o) (pos (suc n)) fit =
          ((neg 15, none), rw (e, obtener_datos) (ground arith))
      go (some (con_formato a)) e (pos o) (pos (suc n)) fit = elim (dec_lt a.tamanio (o + suc n)) [
        | yes lt ↦ (
          (neg 16, none),
          (archivo-Contiene s path a v e).outside o (suc n) (omega arith) (fit _ _ refl refl) lt,
        )
        | no le ↦ (
          (pos 1, some _),
          (archivo-Contiene s path a v e).inside o (suc n) (omega arith) (fit _ _ refl refl)
              (omega arith),
        )
      ]

  guardar_datos_total :
      (s : Estado Bits) (path : String) (o : ℤ) (buffer : List ℕ)
      → IsValid B size_bloque s
      → 0 < length buffer
      → ((j : ℕ) → o ≡ pos j → j + length buffer + size_bloque ≤ 2 ^ 31)
      → (code : ℤ) × (s' : Estado Bits) × (guardar_datos B size_bloque s path o
            (pos (length buffer))
            buffer
          ≡ some (code, s'))
        × IsValid B size_bloque s'
  unfolding guardar_datos
  guardar_datos_total s path o buffer v l fit = go (s.archivos path) refl o fit
    where
      go :
          (e : Option Entrada)
          → s.archivos path ≡ e
          → (o : ℤ) → ((j : ℕ) → o ≡ pos j → j + length buffer + size_bloque ≤ 2 ^ 31)
          → (code : ℤ) × (s' : Estado Bits) × (guardar_datos B size_bloque s path o
                (pos (length buffer))
                buffer
              ≡ some (code, s'))
            × IsValid B size_bloque s'
      go none e o fit = (neg 20, s, rw (e, guardar_datos), v)
      go (some sin_formato) e o fit = (neg 20, s, rw (e, guardar_datos), v)
      go (some (con_formato a)) e (negsuc o) fit =
          (neg 15, s, rw (e, guardar_datos) (ground (arith, l)), v)
      go (some (con_formato a)) e (pos o) fit =
          elim (dec_lt ((length a.array + cantidad_bloques_libres B s.bitmap) * size_bloque)
            (o + length buffer)) [
              | yes lt ↦ (
                neg 16,
                s,
                guardar_datos-full B size_bloque s path a o (length buffer) buffer pos_s v e l refl
                    (fit o refl) lt,
                v,
              )
              | no le ↦
                  let (s', g, run, before, saved) =
                    guardar_datos-IsSaved B size_bloque s path a o (length buffer) buffer pos_s v e
                      l refl (fit o refl) (omega arith) in
                  (pos 1, s', run, saved.valid)
            ]

  -- In a valid server, with blocks of more than 0 bytes, if the path holds a well-formed file, the
  -- data has `size` > 0 bytes and the end of the range plus the size of a block is at most 2^31,
  -- and the range ends inside the blocks of the file and the free blocks together, then
  -- `guardar_datos` answers 1, and `obtener_datos` of the same range afterwards answers 1 and the
  -- data that was saved.
  pub guardar_datos-obtener_datos :
      (s : Estado Bits) (path : String) (a : Archivo) (offset size : ℕ) (buffer : List ℕ)
      → IsValid B size_bloque s
      → s.archivos path ≡ some (con_formato a)
      → 0 < size
      → length buffer ≡ size
      → offset + size + size_bloque ≤ 2 ^ 31
      → offset + size ≤ (length a.array + cantidad_bloques_libres B s.bitmap) * size_bloque
      → (s' : Estado Bits) × (guardar_datos B size_bloque s path (pos offset) (pos size) buffer
          ≡ some (pos 1, s'))
        × (obtener_datos B size_bloque s' path (pos offset) (pos size) ≡ some (pos 1, some buffer))
  guardar_datos-obtener_datos s path a offset size buffer v e p l fit room =
      let (s', g, run, before, saved) =
        guardar_datos-IsSaved B size_bloque s path a offset size buffer pos_s v e p l fit room in
      (
        s',
        run,
        rw (read-write g offset buffer size l) at
            (saved.contiene.inside offset size p fit (omega arith)),
      )

  escribir_run :
      (path : String) (o n : ℤ) (buffer : List ℕ) (s s' : Estado Bits) (code : ℤ)
      → n ≡ pos (length buffer)
      → 0 < length buffer
      → guardar_datos B size_bloque s path o (pos (length buffer)) buffer ≡ some (code, s')
      → atender B size_bloque (escribir path o n buffer) s ≡ some ((code, none), s')
  unfolding atender
  escribir_run path o n buffer s s' code e l run = rw (e, atender) (ground (arith, l, run))

  -- Each request is answered, and leaves the server valid.
  pub atender-IsValid :
      (p : Pedido) (s : Estado Bits)
      → IsFilled size_bloque p
      → IsValid B size_bloque s
      → (r : Respuesta) × (s' : Estado Bits) × (atender B size_bloque p s ≡ some (r, s'))
        × IsValid B size_bloque s'
  unfolding atender
  atender-IsValid (validar path) s f v = go (validar_archivo (s.archivos path)) refl
    where
      go :
          (b : Bool)
          → validar_archivo (s.archivos path) ≡ b
          → (r : Respuesta) × (s' : Estado Bits) × (atender B size_bloque (validar path) s
              ≡ some (r, s'))
            × IsValid B size_bloque s'
      go true e = ((pos 1, none), s, rw (e, atender), v)
      go false e = (
        (pos 0, none),
        (delete_archivo B path s).1,
        rw (e, atender),
        delete_archivo-keeps path s v,
      )
  atender-IsValid (crear path opens) s f v = (_, _, refl, create_archivo-keeps path opens s v)
  atender-IsValid (leer path o n) s f v =
      let (r, run) = obtener_datos_total s path o n v f in (r, s, rw run, v)
  atender-IsValid (escribir path o n buffer) s f v =
      let (code, s', run, v') = guardar_datos_total s path o buffer v f.1 f.2 in
      ((code, none), s', escribir_run path o n buffer s s' code f.0 f.1 run, v')
  atender-IsValid (borrar path) s f v = (_, _, refl, delete_archivo-keeps path s v)
  atender-IsValid desconocido s f v = (_, s, refl, v)
