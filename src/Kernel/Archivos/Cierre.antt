-- ===== src/Kernel/Archivos/Cierre.antt =====
-- The global table of files of Kernel/Kernel.c when `execute_close` takes an instance away.
use native.Mathlib.Omega.{arith}
use tp_so_2017_twt.Prelude.{
  ℕ, zero, suc, ◌+◌, ◌<◌, ◌≡◌, ◌⊎◌, refl, ap, some, List, [], ◌∷◌, ◌==◌, ltb, if◌then◌else◌, length,
  get_elem?, get_elem?-some-lt, set, ◌>>=◌, pos, ==_ne, ℕ_discrete, ◌-◌,
}
use tp_so_2017_twt.Kernel.Archivos.Tablas.{ArchivoGlobal, una_menos, dec, cerrar_global, remove_at}
use tp_so_2017_twt.Kernel.Archivos.Globales.{
  ruta_en, ruta_en-set, ruta_en-lt, IsContada, IsContada-set,
}

dec_pos : (n : ℕ) → 0 < n → dec (pos n) ≡ pos (n - 1)
dec_pos zero l = absurd (omega arith)
dec_pos (suc n) l = ap pos (omega arith)

pub get_elem?-remove_at :
    (gs : List ArchivoGlobal) (i j : ℕ)
    → get_elem? (remove_at i gs) j ≡ (if ltb j i then get_elem? gs j else get_elem? gs (j + 1))
unfolding remove_at
get_elem?-remove_at [] i j = ground arith
get_elem?-remove_at (g ∷ gs) zero j = ground arith
get_elem?-remove_at (g ∷ gs) (suc i) zero = ground arith
get_elem?-remove_at (g ∷ gs) (suc i) (suc j) = ground (arith, get_elem?-remove_at gs i j)

-- One instance less of the place `r`
abbrev pub sin_una : ℕ → (ℕ → ℕ) → ℕ → ℕ
sin_una r c i = c i - (if i == r then 1 else 0)

pub record IsCerrada (c : ℕ → ℕ) (gs gs' : List ArchivoGlobal) (r : ℕ) : Type 0 where
  pub contada : IsContada c gs'
  pub rutas : (i : ℕ) → 0 < c i → ruta_en gs' i ≡ ruta_en gs i

pub ruta_en-remove_at :
    (gs : List ArchivoGlobal) (r i : ℕ)
    → ruta_en (remove_at r gs) i ≡ (if ltb i r then ruta_en gs i else ruta_en gs (i + 1))
unfolding ruta_en
ruta_en-remove_at gs r i = ground (arith, get_elem?-remove_at gs r i)

length-remove_at :
    (gs : List ArchivoGlobal) (r : ℕ) → r < length gs → length (remove_at r gs) + 1 ≡ length gs
unfolding remove_at
length-remove_at [] r l = omega arith
length-remove_at (g ∷ gs) zero l = omega arith
length-remove_at (g ∷ gs) (suc r) l = omega (arith, length-remove_at gs r)

IsContada-ultima :
    (c : ℕ → ℕ) (gs : List ArchivoGlobal) (r : ℕ)
    → IsContada c gs
    → length gs ≡ r + 1
    → c r ≡ 1
    → IsContada (sin_una r c) (remove_at r gs)
IsContada-ultima c gs r v l one = record {
  instancias = λ i k e. ground (
    arith,
    get_elem?-remove_at gs r i,
    get_elem?-some-lt (remove_at r gs) i e,
    e,
    v.instancias i k,
    length-remove_at gs r,
  );
  fuera = λ i le. ground (arith, v.fuera i, le, one, length-remove_at gs r);
  sin_repetir = λ i j p e f. ground (
    arith,
    ruta_en-remove_at gs r i,
    ruta_en-remove_at gs r j,
    ruta_en-lt (remove_at r gs) i p e,
    ruta_en-lt (remove_at r gs) j p f,
    length-remove_at gs r,
    e,
    f,
    v.sin_repetir i j p,
  );
}

-- The entry stays when it has other instances, and takes no other with it when it is the last.
pub cerrar_global-IsCerrada :
    (c : ℕ → ℕ) (gs : List ArchivoGlobal) (r : ℕ) (g : ArchivoGlobal)
    → IsContada c gs
    → get_elem? gs r ≡ some g
    → (1 < c r) ⊎ (length gs ≡ r + 1)
    → (gs' : List ArchivoGlobal) × (cerrar_global r gs ≡ some gs')
      × IsCerrada (sin_una r c) gs gs' r
unfolding cerrar_global
cerrar_global-IsCerrada c gs r g v here cond =
    let (count, some_open) = v.instancias r g here in
    elim (ℕ_discrete (c r) 1) [
      | yes one ↦
          let l : length gs ≡ r + 1 = ground (arith, cond) in
          (
            remove_at r gs,
            rw (here, ◌>>=◌, count, one) refl,
            record {
              contada = IsContada-ultima c gs r v l one;
              rutas = λ i n. rw (ruta_en-remove_at gs r i) (ground (arith, n, v.fuera i, one));
            },
          )
      | no more ↦ (
        set gs r (una_menos g),
        rw (here, ◌>>=◌, count, ==_ne (c r) 1 more) refl,
        record {
          contada =
              IsContada-set c (sin_una r c) gs r g (una_menos g) v here refl
                (rw (count, dec_pos (c r) some_open) (ap pos (ground arith))) (ground (arith, more))
                (λ i n. ground (arith, n));
          rutas = λ i n. ruta_en-set gs r g (una_menos g) i here refl;
        },
      )
    ]
