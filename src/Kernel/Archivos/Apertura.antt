-- ===== src/Kernel/Archivos/Apertura.antt =====
-- `execute_open` of Kernel/Kernel.c with the file server: the requests to it, then the tables.
use Prim.Native.String.{String}
use native.Mathlib.Omega.{arith}
use tp_so_2017_twt.Prelude.{
  ℕ, ◌+◌, ◌<◌, ◌^◌, ◌≡◌, ltb, if◌then◌else◌, ◌⊎◌, inl, inr, refl, ap, ◌∙◌, Bool, true, false,
  Bool-cases, Option, none, some, ◌>>=◌, ℤ, pos, neg,
}
use tp_so_2017_twt.FileSystem.Datos.{
  BitArray, Archivo, Entrada, sin_formato, con_formato, Estado, validar_archivo,
}
use tp_so_2017_twt.FileSystem.Defs.{create_archivo, delete_archivo}
use tp_so_2017_twt.FileSystem.Guardar.{IsValid}
use tp_so_2017_twt.FileSystem.Sesion.{delete_archivo-keeps}
use tp_so_2017_twt.FileSystem.Ciclo.{create_archivo-IsCreated, new_archivo}
use tp_so_2017_twt.FileSystem.Servidor.{atender, validar, crear, Respuesta}
use tp_so_2017_twt.Kernel.Archivos.Tablas.{
  Banderas, TablaDeProceso, Tablas, u32, buscar_tabla, abrir,
}
use tp_so_2017_twt.Kernel.Archivos.Operaciones.{Sistema, pedir, pedir_archivo, execute_open}
use tp_so_2017_twt.Kernel.Archivos.Invariante.{IsConsistente}
use tp_so_2017_twt.Kernel.Archivos.Abierto.{IsNuevo, abrir-IsNuevo}

validar_archivo-con_formato :
    (e : Option Entrada) → validar_archivo e ≡ true → (a : Archivo) × (e ≡ some (con_formato a))
unfolding validar_archivo
validar_archivo-con_formato none t = ground (arith, t)
validar_archivo-con_formato (some sin_formato) t = ground (arith, t)
validar_archivo-con_formato (some (con_formato a)) t = (a, refl)

module _ (B : BitArray) (size_bloque : ℕ) (pos_s : 0 < size_bloque) where
  open B use {Bits}

  abbrev con_fs : Sistema B size_bloque → Estado Bits → Sistema B size_bloque
  con_fs s fs = record s { fs = fs }

  -- The server has the file, or the answer is `execute_open`'s.
  pub data Pedida (permisos : Banderas) (path : String) (s : Sistema B size_bloque)
      : Option ℤ → Estado Bits → Type 0 where
    hay :
        {fs : Estado Bits} (a : Archivo)
        → fs.archivos path ≡ some (con_formato a)
        → Pedida permisos path s none fs
    no_creo :
        {fs : Estado Bits}
        → permisos.creacion ≡ true
        → validar_archivo (s.fs.archivos path) ≡ false
        → Pedida permisos path s (some (neg 2)) fs
    no_existe :
        {fs : Estado Bits}
        → permisos.creacion ≡ false
        → validar_archivo (s.fs.archivos path) ≡ false
        → Pedida permisos path s (some (neg 1)) fs

  validar_run :
      (path : String) (s : Sistema B size_bloque)
      → validar_archivo (s.fs.archivos path) ≡ true
      → pedir B size_bloque (validar path) s ≡ some ((pos 1, none), s)
  unfolding pedir atender
  validar_run path s e = rw (pedir, atender, e, ◌>>=◌) refl

  validar_deletes :
      (path : String) (s : Sistema B size_bloque)
      → validar_archivo (s.fs.archivos path) ≡ false
      → pedir B size_bloque (validar path) s
        ≡ some ((pos 0, none), con_fs s (delete_archivo B path s.fs).1)
  unfolding pedir atender
  validar_deletes path s e = rw (pedir, atender, e, ◌>>=◌) refl

  crear_run :
      (path : String) (opens : Bool) (s : Sistema B size_bloque) (code : ℤ) (fs : Estado Bits)
      → create_archivo B path opens s.fs ≡ (code, fs)
      → pedir B size_bloque (crear path opens) s ≡ some ((code, none), con_fs s fs)
  unfolding pedir atender
  crear_run path opens s code fs e = rw (pedir, atender, e, ◌>>=◌) refl

  -- What `execute_open` makes of the answer about a new file
  abbrev segun :
      Option (Respuesta × Sistema B size_bloque) → Option (Option ℤ × Sistema B size_bloque)
  segun o = o >>= λ x. if ltb 0 (u32 x.0.0) then some (none, x.1) else some (some (neg 2), x.1)

  crear_fails :
      (permisos : Banderas) (path : String) (opens : Bool) (s : Sistema B size_bloque)
      (fs₁ fs₂ : Estado Bits)
      → pedir B size_bloque (validar path) s ≡ some ((pos 0, none), con_fs s fs₁)
      → permisos.creacion ≡ true
      → create_archivo B path opens fs₁ ≡ (pos 0, fs₂)
      → pedir_archivo B size_bloque permisos path opens s ≡ some (some (neg 2), con_fs s fs₂)
  unfolding pedir_archivo u32
  crear_fails permisos path opens s fs₁ fs₂ e c f =
      rw (pedir_archivo, e, ◌>>=◌, c) (ap segun (crear_run path opens (con_fs s fs₁) (pos 0) fs₂ f))

  crear_done :
      (permisos : Banderas) (path : String) (opens : Bool) (s : Sistema B size_bloque)
      (fs₁ fs₂ : Estado Bits)
      → pedir B size_bloque (validar path) s ≡ some ((pos 0, none), con_fs s fs₁)
      → permisos.creacion ≡ true
      → create_archivo B path opens fs₁ ≡ (pos 1, fs₂)
      → pedir_archivo B size_bloque permisos path opens s ≡ some (none, con_fs s fs₂)
  unfolding pedir_archivo u32
  crear_done permisos path opens s fs₁ fs₂ e c f =
      rw (pedir_archivo, e, ◌>>=◌, c) (ap segun (crear_run path opens (con_fs s fs₁) (pos 1) fs₂ f))

  pedir_archivo-Pedida :
      (permisos : Banderas) (path : String) (opens : Bool) (s : Sistema B size_bloque)
      → IsValid B size_bloque s.fs
      → (stop : Option ℤ) × (fs : Estado Bits) × (pedir_archivo B size_bloque permisos path opens s
          ≡ some (stop, con_fs s fs))
        × IsValid B size_bloque fs
        × Pedida permisos path s stop fs
  unfolding pedir_archivo u32
  pedir_archivo-Pedida permisos path opens s v =
      elim (Bool-cases (validar_archivo (s.fs.archivos path))) [
        | inl e ↦
            let (a, here) = validar_archivo-con_formato (s.fs.archivos path) e in
            (none, s.fs, rw (pedir_archivo, validar_run path s e, ◌>>=◌) refl, v, hay a here)
        | inr e ↦
            let fs₁ = (delete_archivo B path s.fs).1 in
            let v₁ = delete_archivo-keeps B size_bloque pos_s path s.fs v in
            elim (Bool-cases permisos.creacion) [
              | inr c ↦ (
                some (neg 1),
                fs₁,
                rw (pedir_archivo, validar_deletes path s e, ◌>>=◌, c) refl,
                v₁,
                no_existe c e,
              )
              | inl c ↦ elim (create_archivo-IsCreated B size_bloque fs₁ path v₁ opens) [
                | inl (k, one, made) ↦ (
                  none,
                  (create_archivo B path opens fs₁).1,
                  crear_done permisos path opens s fs₁ (create_archivo B path opens fs₁).1
                      (validar_deletes path s e) c
                      (ap (λ code. (code, (create_archivo B path opens fs₁).1)) one),
                  made.valid,
                  hay (new_archivo k) made.archivo,
                )
                | inr same ↦ (
                  some (neg 2),
                  fs₁,
                  crear_fails permisos path opens s fs₁ fs₁ (validar_deletes path s e) c same,
                  v₁,
                  no_creo c e,
                )
              ]
            ]
      ]

  -- The tables and the server after an `execute_open` that answers the descriptor `fd`
  pub record IsAbiertoEn (s s' : Sistema B size_bloque) (pid fd : ℕ) (permisos : Banderas)
      (path : String) : Type 0 where
    pub nuevo :
        IsNuevo s.tablas s'.tablas pid fd
          (record { permisos = permisos; ruta = path; posicion = 0 })
    pub valido : IsValid B size_bloque s'.fs
    pub archivo : (a : Archivo) × (s'.fs.archivos path ≡ some (con_formato a))

  open_done :
      (pid : ℕ) (permisos : Banderas) (path : String) (opens : Bool) (s : Sistema B size_bloque)
      (fs : Estado Bits) (code : ℤ) (t' : Tablas)
      → pedir_archivo B size_bloque permisos path opens s ≡ some (none, con_fs s fs)
      → abrir pid permisos path s.tablas ≡ some (code, t')
      → execute_open B size_bloque pid permisos path opens s
        ≡ some (code, record { tablas = t'; fs = fs })
  unfolding execute_open
  open_done pid permisos path opens s fs code t' e f = rw (execute_open, e, ◌>>=◌, f) refl

  open_stops :
      (pid : ℕ) (permisos : Banderas) (path : String) (opens : Bool) (s : Sistema B size_bloque)
      (fs : Estado Bits) (code : ℤ)
      → pedir_archivo B size_bloque permisos path opens s ≡ some (some code, con_fs s fs)
      → execute_open B size_bloque pid permisos path opens s ≡ some (code, con_fs s fs)
  unfolding execute_open
  open_stops pid permisos path opens s fs code e = rw (execute_open, e, ◌>>=◌) refl

  -- In consistent tables, with blocks of more than 0 bytes and a valid file server, for a process
  -- that has a table whose `current_fd` is below 2^31 - 1, `execute_open` either answers the next
  -- descriptor: then it was not open, stands for the path at position 0 with the permissions asked
  -- for, every other descriptor of every process stands for what it stood for, the tables are
  -- consistent, the server is valid and has a well-formed file at the path. Or the path held no
  -- well-formed file, and it answers -2 if it was to create one and -1 if not, changes no table
  -- and leaves the server valid.
  pub execute_open-IsAbiertoEn :
      (pid : ℕ) (permisos : Banderas) (path : String) (opens : Bool) (s : Sistema B size_bloque)
      (tabla : TablaDeProceso)
      → IsConsistente s.tablas
      → IsValid B size_bloque s.fs
      → buscar_tabla pid s.tablas.procesos ≡ some tabla
      → tabla.current_fd + 1 < 2 ^ 31
      → ((s' : Sistema B size_bloque) × (execute_open B size_bloque pid permisos path opens s
            ≡ some (pos (tabla.current_fd + 1), s'))
          × IsAbiertoEn s s' pid (tabla.current_fd + 1) permisos path)
        ⊎ ((fs : Estado Bits) × (execute_open B size_bloque pid permisos path opens s
              ≡ some (if permisos.creacion then neg 2 else neg 1, con_fs s fs))
            × IsValid B size_bloque fs
            × (validar_archivo (s.fs.archivos path) ≡ false))
  execute_open-IsAbiertoEn pid permisos path opens s tabla v w e l =
      let (stop, fs, run, w', kind) = pedir_archivo-Pedida permisos path opens s w in
      go stop fs run w' kind
    where
      go :
          (stop : Option ℤ) (fs : Estado Bits)
          → pedir_archivo B size_bloque permisos path opens s ≡ some (stop, con_fs s fs)
          → IsValid B size_bloque fs
          → Pedida permisos path s stop fs
          → ((s' : Sistema B size_bloque) × (execute_open B size_bloque pid permisos path opens s
                ≡ some (pos (tabla.current_fd + 1), s'))
              × IsAbiertoEn s s' pid (tabla.current_fd + 1) permisos path)
            ⊎ ((fs : Estado Bits) × (execute_open B size_bloque pid permisos path opens s
                  ≡ some (if permisos.creacion then neg 2 else neg 1, con_fs s fs))
                × IsValid B size_bloque fs
                × (validar_archivo (s.fs.archivos path) ≡ false))
      go stop fs run w' (hay a here) =
          let (t', opened, new) = abrir-IsNuevo pid permisos path s.tablas tabla v e l in
          inl (
            record { tablas = t'; fs = fs },
            open_done pid permisos path opens s fs (pos (tabla.current_fd + 1)) t' run opened,
            record { nuevo = new; valido = w'; archivo = (a, here) },
          )
      go stop fs run w' (no_creo c bad) = inr (
        fs,
        open_stops pid permisos path opens s fs (neg 2) run
            ∙ ap (λ code. some (code, con_fs s fs)) (rw c refl),
        w',
        bad,
      )
      go stop fs run w' (no_existe c bad) = inr (
        fs,
        open_stops pid permisos path opens s fs (neg 1) run
            ∙ ap (λ code. some (code, con_fs s fs)) (rw c refl),
        w',
        bad,
      )
