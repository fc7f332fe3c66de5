-- ===== src/Kernel/Archivos/Globales.antt =====
-- The global table of files of Kernel/Kernel.c: what `execute_open` and `execute_close` do to its
-- counts, its places and its paths.
use Prim.Native.String.{String}
use text.Mathlib.Text.{◌==◌ as str_eq}
use text.Mathlib.TextEquality.{eq_iff}
use native.Mathlib.Omega.{arith}
use mathlib.Core.Option
use mathlib.Core.Option.{some-injective}
use tp_so_2017_twt.Prelude.{
  ℕ, zero, suc, ◌+◌, ◌<◌, ◌≤◌, ◌≡◌, ◌≢◌, inl, inr, refl, sym, ap, ◌∙◌, subst, Option, none, some,
  List, [], ◌∷◌, ◌++◌, ◌==◌, if◌then◌else◌, length, get_elem?, get_elem?-set, get_elem?-some-lt,
  get_elem?-append_one, length-set, length-append, set, ◌>>=◌, pos, Bool-cases, Option-cases,
}
use tp_so_2017_twt.Kernel.Archivos.Tablas.{ArchivoGlobal, buscar_ruta, una_mas, abrir_global}

pub buscar_ruta-some :
    (path : String) (gs : List ArchivoGlobal) (i k : ℕ)
    → buscar_ruta path gs i ≡ some k
    → (g : ArchivoGlobal) × (j : ℕ) × (k ≡ i + j)
      × (get_elem? gs j ≡ some g)
      × (g.ruta_del_archivo ≡ path)
unfolding buscar_ruta
buscar_ruta-some path [] i k e = ground (arith, e)
buscar_ruta-some path (g ∷ gs) i k e = elim (Bool-cases (str_eq g.ruta_del_archivo path)) [
  | inl f ↦ (
    g,
    0,
    omega (arith, some-injective i k (sym (rw f refl) ∙ e)),
    refl,
    (eq_iff g.ruta_del_archivo path).0 f,
  )
  | inr f ↦
      let (h, j, at, here, named) = buscar_ruta-some path gs (i + 1) k (sym (rw f refl) ∙ e) in
      (h, suc j, omega arith, here, named)
]

pub buscar_ruta-none :
    (path : String) (gs : List ArchivoGlobal) (i j : ℕ) (g : ArchivoGlobal)
    → buscar_ruta path gs i ≡ none
    → get_elem? gs j ≡ some g
    → g.ruta_del_archivo ≢ path
unfolding buscar_ruta
buscar_ruta-none path [] i j g e here = ground (arith, here)
buscar_ruta-none path (h ∷ hs) i zero g e here =
    λ same. ground (arith, e, here, same, (eq_iff h.ruta_del_archivo path).1)
buscar_ruta-none path (h ∷ hs) i (suc j) g e here =
    buscar_ruta-none path hs (i + 1) j g
      (ground (arith, e, Bool-cases (str_eq h.ruta_del_archivo path))) here

-- The path at a place of the table
unfoldable pub ruta_en : List ArchivoGlobal → ℕ → Option String
ruta_en gs i = Option.map (λ g. g.ruta_del_archivo) (get_elem? gs i)

-- The entries have different paths.
abbrev pub IsSinRepetir : List ArchivoGlobal → Type 0
IsSinRepetir gs =
    (i j : ℕ) (path : String) → ruta_en gs i ≡ some path → ruta_en gs j ≡ some path → i ≡ j

-- Entry `i` has `cuentas i` instances, which are more than 0, and past the table nothing is counted.
pub record IsContada (cuentas : ℕ → ℕ) (gs : List ArchivoGlobal) : Type 0 where
  pub instancias :
      (i : ℕ) (g : ArchivoGlobal)
      → get_elem? gs i ≡ some g
      → (g.instancias_abiertas ≡ pos (cuentas i)) × (0 < cuentas i)
  pub fuera : (i : ℕ) → length gs ≤ i → cuentas i ≡ 0
  pub sin_repetir : IsSinRepetir gs

pub record IsAbierta (c : ℕ → ℕ) (path : String) (gs gs' : List ArchivoGlobal) (r : ℕ)
    : Type 0 where
  pub contada : IsContada c gs'
  pub aqui : ruta_en gs' r ≡ some path
  pub rutas : (i : ℕ) (p : String) → ruta_en gs i ≡ some p → ruta_en gs' i ≡ some p

pub ruta_en-set :
    (gs : List ArchivoGlobal) (r : ℕ) (g h : ArchivoGlobal) (i : ℕ)
    → get_elem? gs r ≡ some g
    → h.ruta_del_archivo ≡ g.ruta_del_archivo
    → ruta_en (set gs r h) i ≡ ruta_en gs i
unfolding ruta_en
ruta_en-set gs r g h i here same =
    rw (get_elem?-set gs r h i (get_elem?-some-lt gs r here)) (ground (arith, here, same))

pub IsContada-set :
    (c c' : ℕ → ℕ) (gs : List ArchivoGlobal) (r : ℕ) (g h : ArchivoGlobal)
    → IsContada c gs
    → get_elem? gs r ≡ some g
    → h.ruta_del_archivo ≡ g.ruta_del_archivo
    → h.instancias_abiertas ≡ pos (c' r)
    → 0 < c' r
    → ((i : ℕ) → i ≢ r → c' i ≡ c i)
    → IsContada c' (set gs r h)
IsContada-set c c' gs r g h v here same m p other =
    let lt = get_elem?-some-lt gs r here in
    record {
      instancias =
          λ i k e. ground (arith, get_elem?-set gs r h i lt, e, v.instancias i k, other i, m, p);
      fuera = λ i le.
          other i (λ e. omega (arith, lt, le, length-set gs r h))
          ∙ v.fuera i (omega (arith, length-set gs r h));
      sin_repetir = λ i j path e f.
          v.sin_repetir i j path (sym (ruta_en-set gs r g h i here same) ∙ e)
            (sym (ruta_en-set gs r g h j here same) ∙ f);
    }

-- One instance more of the place `r`
abbrev pub con_una : ℕ → (ℕ → ℕ) → ℕ → ℕ
con_una r c i = c i + (if i == r then 1 else 0)

IsContada-nueva :
    (c : ℕ → ℕ) (path : String) (gs : List ArchivoGlobal)
    → IsContada c gs
    → ((i : ℕ) → ruta_en gs i ≢ some path)
    → IsContada
        (con_una (length gs) c)
        (gs ++ (record { ruta_del_archivo = path; instancias_abiertas = pos 1 } ∷ []))
unfolding ruta_en
IsContada-nueva c path gs v new = record {
  instancias = λ i k e. ground (
    arith,
    get_elem?-append_one gs (record { ruta_del_archivo = path; instancias_abiertas = pos 1 }) i,
    e,
    v.instancias i k,
    v.fuera i,
  );
  fuera = λ i le. ground (
    arith,
    v.fuera i,
    le,
    length-append gs (record { ruta_del_archivo = path; instancias_abiertas = pos 1 } ∷ []),
  );
  sin_repetir = λ i j p e f. ground (
    arith,
    get_elem?-append_one gs (record { ruta_del_archivo = path; instancias_abiertas = pos 1 }) i,
    get_elem?-append_one gs (record { ruta_del_archivo = path; instancias_abiertas = pos 1 }) j,
    e,
    f,
    v.sin_repetir i j p,
    new i,
    new j,
  );
}

ruta_en-nueva :
    (path : String) (gs : List ArchivoGlobal) (i : ℕ)
    → ruta_en (gs ++ (record { ruta_del_archivo = path; instancias_abiertas = pos 1 } ∷ [])) i
      ≡ (if i == length gs then some path else ruta_en gs i)
unfolding ruta_en
ruta_en-nueva path gs i = ground (
  arith,
  get_elem?-append_one gs (record { ruta_del_archivo = path; instancias_abiertas = pos 1 }) i,
)

pub ruta_en-some :
    (gs : List ArchivoGlobal) (i : ℕ) (path : String)
    → ruta_en gs i ≡ some path
    → (g : ArchivoGlobal) × (get_elem? gs i ≡ some g) × (g.ruta_del_archivo ≡ path)
unfolding ruta_en
ruta_en-some gs i path e = elim (Option-cases (get_elem? gs i)) [
  | inl f ↦ ground (arith, e, f)
  | inr (g, f) ↦ (g, f, some-injective g.ruta_del_archivo path (sym (rw f refl) ∙ e))
]

pub ruta_en-lt :
    (gs : List ArchivoGlobal) (i : ℕ) (path : String) → ruta_en gs i ≡ some path → i < length gs
ruta_en-lt gs i path e =
    let (g, here, named) = ruta_en-some gs i path e in get_elem?-some-lt gs i here

ruta_en-absent :
    (path : String) (gs : List ArchivoGlobal) (i : ℕ)
    → buscar_ruta path gs 0 ≡ none
    → ruta_en gs i ≢ some path
ruta_en-absent path gs i e f =
    let (g, here, named) = ruta_en-some gs i path f in buscar_ruta-none path gs 0 i g e here named

pub abrir_global-IsAbierta :
    (c : ℕ → ℕ) (path : String) (gs : List ArchivoGlobal)
    → IsContada c gs
    → (r : ℕ) × (gs' : List ArchivoGlobal) × (abrir_global path gs ≡ some (r, gs'))
      × IsAbierta (con_una r c) path gs gs' r
unfolding abrir_global ruta_en
abrir_global-IsAbierta c path gs v = elim (Option-cases (buscar_ruta path gs 0)) [
  | inl e ↦ (
    length gs,
    gs ++ (record { ruta_del_archivo = path; instancias_abiertas = pos 1 } ∷ []),
    rw (abrir_global, e) refl,
    record {
      contada = IsContada-nueva c path gs v (λ i. ruta_en-absent path gs i e);
      aqui = rw (ruta_en-nueva path gs (length gs)) (ground arith);
      rutas = λ i p f. rw (ruta_en-nueva path gs i) (ground (arith, ruta_en-lt gs i p f, f));
    },
  )
  | inr (k, e) ↦
      let (g, j, place, here, named) = buscar_ruta-some path gs 0 k e in
      let here' : get_elem? gs k ≡ some g =
        subst (λ x. get_elem? gs x ≡ some g) (omega arith) here in
      let (count, some_open) = v.instancias k g here' in
      (
        k,
        set gs k (una_mas g),
        rw (abrir_global, e, here', ◌>>=◌) refl,
        record {
          contada =
              IsContada-set c (con_una k c) gs k g (una_mas g) v here' refl
                (rw count (ap pos (ground arith))) (ground arith) (λ i n. ground (arith, n));
          aqui = ruta_en-set gs k g (una_mas g) k here' refl ∙ rw here' (ap some named);
          rutas = λ i p f. ruta_en-set gs k g (una_mas g) i here' refl ∙ f;
        },
      )
]
