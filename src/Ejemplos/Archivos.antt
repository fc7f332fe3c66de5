-- ===== src/Ejemplos/Archivos.antt =====
-- A file server with four blocks of 64 bytes, and runs of FileSystem/fs.h on it.
use Prim.Native.String.{String}
use tp_so_2017_twt.Prelude.{
  ℕ, ◌+◌, ◌≡◌, refl, Bool, true, false, none, some, List, [], ◌∷◌, arith, ◌==◌, if◌then◌else◌,
  length, pos, neg, max, ◌⊎◌,
}
use tp_so_2017_twt.FileSystem.Bloques.{Bloque, blocks_to_process, blocks_to_process-Covers, Covers}
use tp_so_2017_twt.FileSystem.Datos.{BitArray, con_formato, Estado, write}
use tp_so_2017_twt.FileSystem.Defs.{
  cantidad_bloques_libres, primer_bloque_libre, create_archivo, delete_archivo, guardar_datos,
  obtener_datos,
}
use tp_so_2017_twt.FileSystem.Invariante.{bloque_de, bloque_en}
use tp_so_2017_twt.FileSystem.Lectura.{Contiene}
use tp_so_2017_twt.FileSystem.Guardar.{IsValid, IsSaved, guardar_datos-IsSaved, guardar_datos-full}
use tp_so_2017_twt.FileSystem.Ciclo.{
  new_archivo, IsCreated, create_archivo-IsCreated, IsDeleted, delete_archivo-IsDeleted,
}
use tp_so_2017_twt.FileSystem.Servidor.{Pedido, validar, crear, leer, escribir, borrar}
use tp_so_2017_twt.FileSystem.Sesion.{create_archivo-keeps, guardar_datos-obtener_datos}

-- Four bits as a function
abbrev pub cuatro_bits : BitArray
cuatro_bits = record {
  Bits = ℕ → Bool;
  max_bit = λ b. 4;
  test_bit = λ b i. b i;
  set_bit = λ b i j. if i == j then true else b j;
  clean_bit = λ b i j. if i == j then false else b j;
  max_bit-set_bit = λ b i. refl;
  max_bit-clean_bit = λ b i. refl;
  test_bit-set_bit = λ b i j h. refl;
  test_bit-clean_bit = λ b i j h. refl;
}

abbrev vacio : Estado (ℕ → Bool)
vacio = record { archivos = λ p. none; bitmap = λ i. false; bloques = λ n. some (λ o. 0) }

vacio-IsValid : IsValid cuatro_bits 64 vacio
unfolding bloque_de bloque_en
vacio-IsValid = record {
  sane = record {
    marked = λ p i n e. absurd (ground arith);
    apart = λ p q i j n e e'. absurd (ground arith);
    disk = λ n lt. (_, refl);
  };
  fits = λ p a e. absurd (ground arith);
}

abbrev pub path : String
path = "/notas"

abbrev pub con_notas : Estado (ℕ → Bool)
con_notas = (create_archivo cuatro_bits path true vacio).1

pub con_notas-IsValid : IsValid cuatro_bits 64 con_notas
con_notas-IsValid = create_archivo-keeps cuatro_bits 64 (omega arith) path true vacio vacio-IsValid

pub notas_at : con_notas.archivos path ≡ some (con_formato (new_archivo 0))
unfolding create_archivo primer_bloque_libre new_archivo
notas_at = refl

pub notas_size : length (new_archivo 0).array ≡ 1
unfolding new_archivo
notas_size = refl

pub notas_free : cantidad_bloques_libres cuatro_bits con_notas.bitmap ≡ 3
unfolding create_archivo primer_bloque_libre cantidad_bloques_libres
notas_free = refl

abbrev pub tres : List ℕ
tres = 7 ∷ 8 ∷ 9 ∷ []

guardar_datos-obtener_datos_example :
    (s' : Estado (ℕ → Bool)) × (guardar_datos cuatro_bits 64 con_notas path (pos 63) (pos 3) tres
      ≡ some (pos 1, s'))
    × (obtener_datos cuatro_bits 64 s' path (pos 63) (pos 3) ≡ some (pos 1, some tres))
guardar_datos-obtener_datos_example =
    guardar_datos-obtener_datos cuatro_bits 64 (omega arith) con_notas path (new_archivo 0) 63 3
      tres con_notas-IsValid notas_at (omega arith) refl (omega arith)
      (omega (arith, notas_size, notas_free))

guardar_datos-IsSaved_example :
    (s' : Estado (ℕ → Bool)) × (g : ℕ → ℕ) × (guardar_datos cuatro_bits 64 con_notas path
        (pos 63)
        (pos 3)
        tres
      ≡ some (pos 1, s'))
    × Contiene cuatro_bits 64 con_notas path g (new_archivo 0).tamanio
    × IsSaved cuatro_bits 64 con_notas s' path
        (write g 63 tres)
        (max (new_archivo 0).tamanio (63 + 3))
guardar_datos-IsSaved_example =
    guardar_datos-IsSaved cuatro_bits 64 con_notas path (new_archivo 0) 63 3 tres (omega arith)
      con_notas-IsValid notas_at (omega arith) refl (omega arith)
      (omega (arith, notas_size, notas_free))

guardar_datos-full_example :
    guardar_datos cuatro_bits 64 con_notas path (pos 255) (pos 3) tres ≡ some (neg 16, con_notas)
guardar_datos-full_example =
    guardar_datos-full cuatro_bits 64 con_notas path (new_archivo 0) 255 3 tres (omega arith)
      con_notas-IsValid notas_at (omega arith) refl (omega arith)
      (omega (arith, notas_size, notas_free))

create_archivo-IsCreated_example :
    ((k : ℕ) × ((create_archivo cuatro_bits path true vacio).0 ≡ pos 1)
      × IsCreated cuatro_bits 64 vacio path (create_archivo cuatro_bits path true vacio).1 k)
    ⊎ (create_archivo cuatro_bits path true vacio ≡ (pos 0, vacio))
create_archivo-IsCreated_example =
    create_archivo-IsCreated cuatro_bits 64 vacio path vacio-IsValid true

delete_archivo-IsDeleted_example :
    (((delete_archivo cuatro_bits path con_notas).0 ≡ pos 1)
      × IsDeleted cuatro_bits 64 con_notas path (delete_archivo cuatro_bits path con_notas).1)
    ⊎ ((con_notas.archivos path ≡ none)
        × (delete_archivo cuatro_bits path con_notas ≡ (pos 0, con_notas)))
delete_archivo-IsDeleted_example =
    delete_archivo-IsDeleted cuatro_bits 64 con_notas path con_notas-IsValid

abbrev pedidos : List Pedido
pedidos =
    crear path true
    ∷ escribir path (pos 63) (pos 3) tres
    ∷ leer path (pos 0) (pos 66)
    ∷ leer path (neg 1) (pos 1)
    ∷ borrar path
    ∷ validar path
    ∷ []

blocks_to_process-Covers_example :
    (bs : List Bloque) × (blocks_to_process 64 60 70 ≡ some bs) × Covers 64 60 70 bs
blocks_to_process-Covers_example = blocks_to_process-Covers 64 60 70 (omega arith) (omega arith)
