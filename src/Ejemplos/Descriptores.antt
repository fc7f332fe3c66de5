-- ===== src/Ejemplos/Descriptores.antt =====
-- Two processes of Kernel/Kernel.c with a file each, and runs of the calls on files.
use Prim.Native.String.{String}
use text.Mathlib.TextEquality.{eq_iff}
use mathlib.Core.Option.{some-injective}
use native.Mathlib.Omega.{arith}
use tp_so_2017_twt.Prelude.{
  ℕ, zero, suc, ◌<◌, ◌≤◌, ◌≡◌, ◌≢◌, ◌⊎◌, inr, refl, sym, ◌∙◌, Bool, true, false, none, some, [],
  ◌∷◌, get_elem?, pos, neg,
}
use tp_so_2017_twt.FileSystem.Datos.{Estado, con_formato, validar_archivo}
use tp_so_2017_twt.FileSystem.Guardar.{IsValid}
use tp_so_2017_twt.FileSystem.Ciclo.{new_archivo}
use tp_so_2017_twt.Ejemplos.Archivos.{
  cuatro_bits, con_notas, con_notas-IsValid, notas_at, notas_size, notas_free, path, tres,
}
use tp_so_2017_twt.Kernel.Archivos.Tablas.{
  Banderas, ArchivoDeProceso, ArchivoGlobal, TablaDeProceso, Tablas, u32, buscar_tabla,
  buscar_archivo, execute_close, move_cursor,
}
use tp_so_2017_twt.Kernel.Archivos.Operaciones.{
  Sistema, execute_open, execute_read, execute_write, execute_delete,
}
use tp_so_2017_twt.Kernel.Archivos.Cuentas.{refs, cuenta, EnOrden}
use tp_so_2017_twt.Kernel.Archivos.Globales.{ruta_en}
use tp_so_2017_twt.Kernel.Archivos.Invariante.{IsConsistente, Descriptor, descriptor}
use tp_so_2017_twt.Kernel.Archivos.Cerrado.{
  IsCerrado, execute_close-IsCerrado, execute_close-shifts,
}
use tp_so_2017_twt.Kernel.Archivos.Cursor.{IsMovido, move_cursor-IsMovido}
use tp_so_2017_twt.Kernel.Archivos.Apertura.{IsAbiertoEn, execute_open-IsAbiertoEn}
use tp_so_2017_twt.Kernel.Archivos.Mensajes.{Ubicado}
use tp_so_2017_twt.Kernel.Archivos.Vuelta.{
  execute_write-execute_read, execute_write-full, execute_delete-execute_read,
}

abbrev todo : Banderas
todo = record { creacion = true; lectura = true; escritura = true }

-- Descriptor 4, at place `r` of the global table
abbrev cuatro : ℕ → ArchivoDeProceso
cuatro r = record { fd = 4; flags = todo; referencia_a_tabla_global = r; offset = 0 }

abbrev del_uno : TablaDeProceso
del_uno = record { pid = 1; lista_de_archivos = cuatro 0 ∷ []; current_fd = 4 }

abbrev del_dos : TablaDeProceso
del_dos = record { pid = 2; lista_de_archivos = cuatro 1 ∷ []; current_fd = 4 }

abbrev dos_procesos : Tablas
dos_procesos = record {
  globales =
      record { ruta_del_archivo = path; instancias_abiertas = pos 1 }
      ∷ record { ruta_del_archivo = "/otro"; instancias_abiertas = pos 1 }
      ∷ [];
  procesos = del_uno ∷ del_dos ∷ [];
}

dos_instancias :
    (i : ℕ) (g : ArchivoGlobal)
    → get_elem? dos_procesos.globales i ≡ some g
    → (g.instancias_abiertas ≡ pos (cuenta i dos_procesos.procesos))
      × (0 < cuenta i dos_procesos.procesos)
unfolding cuenta refs
dos_instancias zero g e = ground (arith, e)
dos_instancias (suc zero) g e = ground (arith, e)
dos_instancias (suc (suc i)) g e = ground (arith, e)

dos_fuera : (i : ℕ) → 2 ≤ i → cuenta i dos_procesos.procesos ≡ 0
unfolding cuenta refs
dos_fuera i l = ground arith

distintas : path ≢ "/otro"
distintas = λ e. ground (arith, eq_iff path "/otro", e)

dos_sin_repetir :
    (i j : ℕ) (p : String)
    → ruta_en dos_procesos.globales i ≡ some p
    → ruta_en dos_procesos.globales j ≡ some p
    → i ≡ j
unfolding ruta_en
dos_sin_repetir zero zero p e f = refl
dos_sin_repetir zero (suc zero) p e f = absurd (distintas (some-injective path "/otro" (e ∙ sym f)))
dos_sin_repetir zero (suc (suc j)) p e f = ground (arith, f)
dos_sin_repetir (suc zero) zero p e f = absurd (distintas (some-injective path "/otro" (f ∙ sym e)))
dos_sin_repetir (suc zero) (suc zero) p e f = refl
dos_sin_repetir (suc zero) (suc (suc j)) p e f = ground (arith, f)
dos_sin_repetir (suc (suc i)) j p e f = ground (arith, e)

dos_procesos-IsConsistente : IsConsistente dos_procesos
unfolding EnOrden
dos_procesos-IsConsistente = record {
  contada = record {
    instancias = dos_instancias;
    fuera = dos_fuera;
    sin_repetir = dos_sin_repetir;
  };
  ordenadas = ((omega arith, omega arith), ((omega arith, omega arith), tt));
}

abbrev unido : Sistema cuatro_bits 64
unido = record { tablas = dos_procesos; fs = con_notas }

tabla_uno : buscar_tabla 1 dos_procesos.procesos ≡ some del_uno
unfolding buscar_tabla
tabla_uno = refl

tabla_dos : buscar_tabla 2 dos_procesos.procesos ≡ some del_dos
unfolding buscar_tabla
tabla_dos = refl

archivo_uno : buscar_archivo 4 del_uno.lista_de_archivos ≡ some (cuatro 0)
unfolding buscar_archivo
archivo_uno = refl

archivo_dos : buscar_archivo 4 del_dos.lista_de_archivos ≡ some (cuatro 1)
unfolding buscar_archivo
archivo_dos = refl

una_vez : cuenta 0 dos_procesos.procesos ≡ 1
unfolding cuenta refs
una_vez = refl

abbrev de_notas : Descriptor
de_notas = record { permisos = todo; ruta = path; posicion = 0 }

descriptor_uno : descriptor dos_procesos 1 4 ≡ some de_notas
unfolding descriptor buscar_tabla buscar_archivo ruta_en
descriptor_uno = refl

execute_close-IsCerrado_example :
    (t' : Tablas) × (execute_close 2 (pos 4) dos_procesos ≡ some (pos 1, t'))
    × IsCerrado dos_procesos t' 2 4
execute_close-IsCerrado_example =
    execute_close-IsCerrado 2 4 dos_procesos del_dos (cuatro 1) dos_procesos-IsConsistente tabla_dos
      archivo_dos (omega arith) (inr refl)

execute_close-shifts_example :
    (t' : Tablas) × (execute_close 1 (pos 4) dos_procesos ≡ some (pos 1, t'))
    × (descriptor t' 2 4 ≢ descriptor dos_procesos 2 4)
execute_close-shifts_example =
    execute_close-shifts 1 4 2 4 dos_procesos del_uno del_dos (cuatro 0) (cuatro 1)
      dos_procesos-IsConsistente tabla_uno archivo_uno (omega arith) una_vez (λ e. omega (arith, e))
      tabla_dos archivo_dos (omega arith)

move_cursor-IsMovido_example :
    (t' : Tablas) × (move_cursor 1 (pos 4) (pos 9) dos_procesos ≡ some (pos 1, t'))
    × IsMovido dos_procesos t' 1 4 (u32 (pos 9))
move_cursor-IsMovido_example =
    move_cursor-IsMovido 1 4 (pos 9) dos_procesos del_uno (cuatro 0) dos_procesos-IsConsistente
      tabla_uno archivo_uno (omega arith) (omega arith)

execute_open-IsAbiertoEn_example :
    ((s' : Sistema cuatro_bits 64) × (execute_open cuatro_bits 64 2 todo path true unido
        ≡ some (pos 5, s'))
      × IsAbiertoEn cuatro_bits 64 (omega arith) unido s' 2 5 todo path)
    ⊎ ((fs : Estado (ℕ → Bool)) × (execute_open cuatro_bits 64 2 todo path true unido
          ≡ some (neg 2, record unido { fs = fs }))
        × IsValid cuatro_bits 64 fs
        × (validar_archivo (con_notas.archivos path) ≡ false))
execute_open-IsAbiertoEn_example =
    execute_open-IsAbiertoEn cuatro_bits 64 (omega arith) 2 todo path true unido del_dos
      dos_procesos-IsConsistente con_notas-IsValid tabla_dos (omega arith)

execute_write-execute_read_example :
    (s' : Sistema cuatro_bits 64) × (execute_write cuatro_bits 64 1 (pos 4) tres (pos 3) unido
      ≡ some (pos 1, s'))
    × (execute_read cuatro_bits 64 1 (pos 4) (pos 3) s' ≡ some ((pos 1, some tres), s'))
execute_write-execute_read_example =
    execute_write-execute_read cuatro_bits 64 (omega arith) 1 4 de_notas (new_archivo 0) tres unido
      descriptor_uno (omega arith) (omega arith) (omega arith) refl con_notas-IsValid notas_at
      (omega arith) (omega arith) (omega (arith, notas_size, notas_free))

abbrev de_lejos : Descriptor
de_lejos = record { permisos = todo; ruta = path; posicion = 255 }

-- The same tables with the cursor of process 1 near the end of the disk
abbrev lejos : Sistema cuatro_bits 64
lejos = record {
  tablas = record {
    globales = dos_procesos.globales;
    procesos =
        record {
          pid = 1;
          lista_de_archivos = record (cuatro 0) { offset = 255 } ∷ [];
          current_fd = 4;
        }
        ∷ del_dos
        ∷ [];
  };
  fs = con_notas;
}

descriptor_lejos : descriptor lejos.tablas 1 4 ≡ some de_lejos
unfolding descriptor buscar_tabla buscar_archivo ruta_en
descriptor_lejos = refl

execute_write-full_example :
    execute_write cuatro_bits 64 1 (pos 4) tres (pos 3) lejos ≡ some (neg 14, lejos)
execute_write-full_example =
    execute_write-full cuatro_bits 64 (omega arith) 1 4 de_lejos (new_archivo 0) tres lejos
      descriptor_lejos (omega arith) (omega arith) (omega arith) refl con_notas-IsValid notas_at
      (omega arith) (omega arith) (omega (arith, notas_size, notas_free))

uno_en_4 : u32 (pos 4) ≡ 4
unfolding u32
uno_en_4 = refl

ubicado : Ubicado dos_procesos 1 (pos 4) de_notas
unfolding buscar_tabla buscar_archivo u32
ubicado = record {
  tabla = del_uno;
  arch = cuatro 0;
  global = record { ruta_del_archivo = path; instancias_abiertas = pos 1 };
  hay_tabla = refl;
  hay_arch = refl;
  hay_global = refl;
  ruta = refl;
  permisos = refl;
  posicion = refl;
}

execute_delete-execute_read_example :
    (fs : Estado (ℕ → Bool)) × (execute_delete cuatro_bits 64 1 (pos 4) unido
      ≡ some (pos 1, record unido { fs = fs }))
    × (fs.archivos path ≡ none)
    × IsValid cuatro_bits 64 fs
    × (execute_read cuatro_bits 64 1 (pos 4) (pos 3) (record unido { fs = fs })
        ≡ some ((neg 14, none), record unido { fs = fs }))
unfolding ubicado
execute_delete-execute_read_example =
    execute_delete-execute_read cuatro_bits 64 (omega arith) 1 4 de_notas
      (con_formato (new_archivo 0)) (pos 3) unido ubicado refl con_notas-IsValid notas_at
      (omega arith)
