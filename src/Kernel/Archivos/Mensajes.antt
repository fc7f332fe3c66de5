-- ===== src/Kernel/Archivos/Mensajes.antt =====
-- `execute_read`, `execute_write` and `execute_delete` of Kernel/Kernel.c on an open descriptor: the
-- request that each sends to the file server.
use Prim.Native.String.{String}
use native.Mathlib.Omega.{arith}
use mathlib.Core.Option.{some-injective}
use tp_so_2017_twt.Prelude.{
  ℕ, ◌%◌, ◌<◌, ◌^◌, ◌≡◌, if◌then◌else◌, refl, ap, ◌∙◌, true, false, Option, none, some, List,
  get_elem?, ◌>>=◌, ◌==◌, ℤ, pos, neg, >>=-eq-some,
}
use tp_so_2017_twt.FileSystem.Datos.{BitArray, Estado}
use tp_so_2017_twt.FileSystem.Servidor.{leer, escribir, borrar, Respuesta}
use tp_so_2017_twt.Kernel.Archivos.Tablas.{
  Banderas, ArchivoDeProceso, ArchivoGlobal, TablaDeProceso, Tablas, u32, i32, is_one, buscar_tabla,
  buscar_archivo,
}
use tp_so_2017_twt.Kernel.Archivos.Operaciones.{
  Sistema, pedir, execute_read, escribir_en_archivo, execute_write, execute_delete,
}
use tp_so_2017_twt.Kernel.Archivos.Invariante.{Descriptor, de_archivo, descriptor}
use tp_so_2017_twt.Kernel.Archivos.Globales.{ruta_en, ruta_en-some}

-- Where the loops find an open descriptor
pub record Ubicado (t : Tablas) (pid : ℕ) (fd : ℤ) (d : Descriptor) : Type 0 where
  pub tabla : TablaDeProceso
  pub arch : ArchivoDeProceso
  pub global : ArchivoGlobal
  pub hay_tabla : buscar_tabla pid t.procesos ≡ some tabla
  pub hay_arch : buscar_archivo (u32 fd) tabla.lista_de_archivos ≡ some arch
  pub hay_global : get_elem? t.globales arch.referencia_a_tabla_global ≡ some global
  pub ruta : global.ruta_del_archivo ≡ d.ruta
  pub permisos : arch.flags ≡ d.permisos
  pub posicion : arch.offset ≡ d.posicion

small_pos : (n : ℕ) → n < 2 ^ 31 → u32 (pos n) ≡ n
unfolding u32
small_pos n l = omega arith

de_archivo-fields :
    (gs : List ArchivoGlobal) (a : ArchivoDeProceso) (d : Descriptor)
    → de_archivo gs a ≡ some d
    → (g : ArchivoGlobal) × (get_elem? gs a.referencia_a_tabla_global ≡ some g)
      × (g.ruta_del_archivo ≡ d.ruta)
      × (a.flags ≡ d.permisos)
      × (a.offset ≡ d.posicion)
de_archivo-fields gs a d e = go (ruta_en gs a.referencia_a_tabla_global) refl e
  where
    go :
        (o : Option String)
        → ruta_en gs a.referencia_a_tabla_global ≡ o
        → (o >>= λ path. some (record { permisos = a.flags; ruta = path; posicion = a.offset }))
          ≡ some d
        → (g : ArchivoGlobal) × (get_elem? gs a.referencia_a_tabla_global ≡ some g)
          × (g.ruta_del_archivo ≡ d.ruta)
          × (a.flags ≡ d.permisos)
          × (a.offset ≡ d.posicion)
    go none f e = ground (arith, e)
    go (some path) f e =
        let x : Descriptor = record { permisos = a.flags; ruta = path; posicion = a.offset } in
        let same : x ≡ d = some-injective x d e in
        let (g, here, named) = ruta_en-some gs a.referencia_a_tabla_global path f in
        (
          g,
          here,
          named ∙ ap (λ y. y.ruta) same,
          ap (λ y. y.permisos) same,
          ap (λ y. y.posicion) same,
        )

pub descriptor-Ubicado :
    (t : Tablas) (pid fd : ℕ) (d : Descriptor)
    → fd < 2 ^ 31
    → descriptor t pid fd ≡ some d
    → Ubicado t pid (pos fd) d
unfolding descriptor
descriptor-Ubicado t pid fd d l e =
    let (tabla, f, e₁) =
      >>=-eq-some (buscar_tabla pid t.procesos)
        (λ tabla. buscar_archivo fd tabla.lista_de_archivos >>= de_archivo t.globales) e in
    let (a, g, e₂) =
      >>=-eq-some (buscar_archivo fd tabla.lista_de_archivos) (de_archivo t.globales) e₁ in
    let (h, here, named, flags, off) = de_archivo-fields t.globales a d e₂ in
    record {
      tabla = tabla;
      arch = a;
      global = h;
      hay_tabla = f;
      hay_arch = ap (λ x. buscar_archivo x tabla.lista_de_archivos) (small_pos fd l) ∙ g;
      hay_global = here;
      ruta = named;
      permisos = flags;
      posicion = off;
    }

small_i32 : (n : ℕ) → n < 2 ^ 31 → i32 n ≡ pos n
unfolding i32
small_i32 n l = ground arith

module _ (B : BitArray) (size_bloque : ℕ) where
  open B use {Bits}

  abbrev con_respuesta :
      Sistema B size_bloque
      → Option (Respuesta × Estado Bits)
      → Option (Respuesta × Sistema B size_bloque)
  con_respuesta s o = o >>= λ x. some (x.0, record s { fs = x.1 })

  -- What `execute_write` makes of the answer
  abbrev pub tras_escribir :
      Option (Respuesta × Sistema B size_bloque) → Option (ℤ × Sistema B size_bloque)
  tras_escribir o =
      o >>= λ x. if u32 x.0.0 % 256 == 1 then some (pos 1, x.1) else some (neg 14, x.1)

  abbrev pub tras_leer :
      Option (Respuesta × Sistema B size_bloque)
      → Option ((ℤ × Option (List ℕ)) × Sistema B size_bloque)
  tras_leer o =
      o >>= λ x. if is_one x.0.0 then some ((pos 1, x.0.1), x.1) else some ((neg 14, none), x.1)

  a_archivo :
      (pid fd : ℕ) (message : List ℕ) (n : ℤ) (s : Sistema B size_bloque)
      → 3 < fd
      → execute_write B size_bloque pid (pos fd) message n s
        ≡ escribir_en_archivo B size_bloque pid (pos fd) message n s
  unfolding execute_write
  a_archivo pid fd message n s l = ground arith

  pub execute_write-pedir :
      (pid fd : ℕ) (d : Descriptor) (message : List ℕ) (n : ℤ) (s : Sistema B size_bloque)
      → Ubicado s.tablas pid (pos fd) d
      → 3 < fd
      → d.posicion < 2 ^ 31
      → d.permisos.escritura ≡ true
      → execute_write B size_bloque pid (pos fd) message n s
        ≡ tras_escribir (pedir B size_bloque (escribir d.ruta (pos d.posicion) n message) s)
  unfolding escribir_en_archivo
  execute_write-pedir pid fd d message n s u l p w =
      a_archivo pid fd message n s l
      ∙ rw
          (
            escribir_en_archivo,
            u.hay_tabla,
            ◌>>=◌,
            u.hay_arch,
            ap (λ (x : Banderas). x.escritura) u.permisos ∙ w,
            u.hay_global,
            u.ruta,
            u.posicion,
            small_i32 d.posicion p,
          )
          refl

  pub execute_read-pedir :
      (pid fd : ℕ) (d : Descriptor) (n : ℤ) (s : Sistema B size_bloque)
      → Ubicado s.tablas pid (pos fd) d
      → d.posicion < 2 ^ 31
      → execute_read B size_bloque pid (pos fd) n s
        ≡ tras_leer (pedir B size_bloque (leer d.ruta (pos d.posicion) n) s)
  unfolding execute_read
  execute_read-pedir pid fd d n s u p =
      rw (u.hay_tabla, ◌>>=◌, u.hay_arch, u.hay_global, u.ruta, u.posicion, small_i32 d.posicion p)
        refl

  -- The permission is tested before anything is sent.
  pub execute_write-refused :
      (pid fd : ℕ) (d : Descriptor) (message : List ℕ) (n : ℤ) (s : Sistema B size_bloque)
      → Ubicado s.tablas pid (pos fd) d
      → 3 < fd
      → d.permisos.escritura ≡ false
      → execute_write B size_bloque pid (pos fd) message n s ≡ some (neg 4, s)
  unfolding escribir_en_archivo
  execute_write-refused pid fd d message n s u l w =
      a_archivo pid fd message n s l
      ∙ rw
          (
            escribir_en_archivo,
            u.hay_tabla,
            ◌>>=◌,
            u.hay_arch,
            ap (λ (x : Banderas). x.escritura) u.permisos ∙ w,
          )
          refl

  -- What `execute_delete` makes of the answer
  abbrev pub tras_borrar :
      Option (Respuesta × Sistema B size_bloque) → Option (ℤ × Sistema B size_bloque)
  tras_borrar o = o >>= λ x. if u32 x.0.0 == 0 then some (neg 15, x.1) else some (x.0.0, x.1)

  pub execute_delete-pedir :
      (pid fd : ℕ) (d : Descriptor) (s : Sistema B size_bloque)
      (u : Ubicado s.tablas pid (pos fd) d)
      → u.global.instancias_abiertas ≡ pos 1
      → execute_delete B size_bloque pid (pos fd) s
        ≡ tras_borrar (pedir B size_bloque (borrar d.ruta) s)
  unfolding execute_delete
  execute_delete-pedir pid fd d s u one =
      rw (execute_delete, u.hay_tabla, u.hay_arch, u.hay_global, ◌>>=◌, one, u.ruta) refl

  pub execute_delete-shared :
      (pid fd : ℕ) (d : Descriptor) (s : Sistema B size_bloque)
      (u : Ubicado s.tablas pid (pos fd) d)
      → is_one u.global.instancias_abiertas ≡ false
      → execute_delete B size_bloque pid (pos fd) s ≡ some (neg 16, s)
  unfolding execute_delete
  execute_delete-shared pid fd d s u more =
      rw (execute_delete, u.hay_tabla, u.hay_arch, u.hay_global, ◌>>=◌, more) refl
