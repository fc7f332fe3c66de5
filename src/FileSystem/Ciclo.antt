-- ===== src/FileSystem/Ciclo.antt =====
-- `create_archivo` and `delete_archivo` of FileSystem/fs.h.
use Prim.Native.String.{String}
use text.Mathlib.TextPositions.{eq_refl}
use text.Mathlib.TextEquality.{eq_iff}
use tp_so_2017_twt.Prelude.{
  ℕ, ◌≡◌, refl, sym, ◌∙◌, ◌≢◌, Bool, true, false, Option, none, some, List, [], ◌∷◌, arith,
  get_elem?, ℤ, pos, ◌⊎◌, inl, inr, get_elem?-append_one,
}
use tp_so_2017_twt.FileSystem.Datos.{
  BitArray, Arbol, Archivo, Entrada, sin_formato, con_formato, Estado, poner,
}
use tp_so_2017_twt.FileSystem.Defs.{
  create_archivo, delete_archivo, primer_bloque_libre, clean_bloques, obtener_datos,
}
use tp_so_2017_twt.FileSystem.Bitmap.{primer_bloque_libre-some, clean_bloques-free}
use tp_so_2017_twt.FileSystem.Invariante.{
  bloque_en, bloque_de, bloque_de-poner, bloque_de-con_formato, IsSane-grow, IsSane-shrink,
}
use tp_so_2017_twt.FileSystem.Lectura.{obtener_datos_congr}
use tp_so_2017_twt.FileSystem.Guardar.{IsValid}

unfoldable pub new_archivo : ℕ → Archivo
new_archivo k = record { tamanio = 0; array = k ∷ [] }

bloque_de-none : (t : Arbol) (q : String) (i : ℕ) → t q ≡ none → bloque_de t q i ≡ none
unfolding bloque_de
bloque_de-none t q i e = rw (e, bloque_de)

bloque_de-sin_formato :
    (t : Arbol) (q : String) (i : ℕ) → t q ≡ some sin_formato → bloque_de t q i ≡ none
unfolding bloque_de
bloque_de-sin_formato t q i e = rw (e, bloque_de)

module _ (B : BitArray) (size_bloque : ℕ) where
  open B use {Bits, max_bit, test_bit, set_bit}

  -- The state after `create_archivo` made a file at `path`: an empty one, of one block that was
  -- free. No other path reads differently.
  pub record IsCreated (s : Estado Bits) (path : String) (s' : Estado Bits) (k : ℕ) : Type 0 where
    pub absent : s.archivos path ≡ none
    pub was_free : test_bit s.bitmap k ≡ false
    pub archivo : s'.archivos path ≡ some (con_formato (new_archivo k))
    pub valid : IsValid B size_bloque s'
    pub others :
        (q : String) (o n : ℤ)
        → q ≢ path
        → obtener_datos B size_bloque s' q o n ≡ obtener_datos B size_bloque s q o n

  module _ (s : Estado Bits) (path : String) (v : IsValid B size_bloque s) where
    created : ℕ → Estado Bits
    created k = record {
      archivos = poner s.archivos path (some (con_formato (new_archivo k)));
      bitmap = set_bit s.bitmap k;
      bloques = s.bloques;
    }

    created-IsCreated :
        (k : ℕ)
        → s.archivos path ≡ none
        → primer_bloque_libre B s.bitmap ≡ some k
        → IsCreated s path (created k) k
    unfolding created new_archivo bloque_en
    created-IsCreated k e found =
        let (lt, free) = primer_bloque_libre-some B s.bitmap found in
        record {
          absent = e;
          was_free = free;
          archivo = rw (eq_refl path);
          valid = record {
            sane = IsSane-grow B v.sane _ path 0 k lt free (λ q j. ground (
              arith,
              bloque_de-poner s.archivos path (some (con_formato (new_archivo k))) q j,
              get_elem?-append_one [] k j,
              eq_iff path q,
              bloque_de-none s.archivos q j,
            ));
            fits = λ p c ec. ground (arith, v.fits p c);
          };
          others = λ q o n ne.
              obtener_datos_congr B size_bloque s (created k) q o n (ground (arith, eq_iff path q))
                (λ c ec i m em. refl);
        }

    -- In a valid server `create_archivo` either answers 1: then nothing was at the path, the
    -- server stays valid, the path holds an empty file of one block that was free, and no answer
    -- about another path has changed. Or it answers 0 and changes nothing.
    pub create_archivo-IsCreated :
        (opens : Bool)
        → ((k : ℕ) × ((create_archivo B path opens s).0 ≡ pos 1)
            × IsCreated s path (create_archivo B path opens s).1 k)
          ⊎ (create_archivo B path opens s ≡ (pos 0, s))
    unfolding create_archivo new_archivo
    create_archivo-IsCreated opens =
        go (s.archivos path) refl (primer_bloque_libre B s.bitmap) refl opens
      where
        go :
            (e : Option Entrada)
            → s.archivos path ≡ e
            → (f : Option ℕ) → primer_bloque_libre B s.bitmap ≡ f
            → (opens : Bool)
            → ((k : ℕ) × ((create_archivo B path opens s).0 ≡ pos 1)
                × IsCreated s path (create_archivo B path opens s).1 k)
              ⊎ (create_archivo B path opens s ≡ (pos 0, s))
        go (some x) e f h opens = inr (rw (e, create_archivo))
        go none e none h opens = inr (rw (e, create_archivo, h))
        go none e (some k) h false = inr (rw (e, create_archivo, h))
        go none e (some k) h true = inl (
          k,
          rw (e, create_archivo, h),
          rw (e, create_archivo, h) (unfold created in created-IsCreated k e h),
        )

  -- The state after `delete_archivo` took the file away from `path`: its blocks are free again, and
  -- no other path reads differently.
  pub record IsDeleted (s : Estado Bits) (path : String) (s' : Estado Bits) : Type 0 where
    pub absent : s'.archivos path ≡ none
    pub freed : (i n : ℕ) → bloque_de s.archivos path i ≡ some n → test_bit s'.bitmap n ≡ false
    pub valid : IsValid B size_bloque s'
    pub others :
        (q : String) (o n : ℤ)
        → q ≢ path
        → obtener_datos B size_bloque s' q o n ≡ obtener_datos B size_bloque s q o n

  module _ (s : Estado Bits) (path : String) (v : IsValid B size_bloque s) where
    without : Bits → Estado Bits
    without b = record s { archivos = poner s.archivos path none; bitmap = b }

    without-IsDeleted :
        (array : List ℕ)
        → ((i : ℕ) → bloque_de s.archivos path i ≡ get_elem? array i)
        → IsDeleted s path (without (clean_bloques B array s.bitmap))
    unfolding without bloque_en
    without-IsDeleted array held = record {
      absent = rw (eq_refl path);
      freed = λ i n e.
          clean_bloques-free B array s.bitmap n i
            (λ j m ej. (v.sane.marked path j m (held j ∙ ej)).0) (inl (sym (held i) ∙ e));
      valid = record {
        sane =
            IsSane-shrink B v.sane (poner s.archivos path none) path array held
              (λ q j. bloque_de-poner s.archivos path none q j);
        fits = λ p c ec. ground (arith, v.fits p c);
      };
      others = λ q o n ne.
          obtener_datos_congr B size_bloque s (without (clean_bloques B array s.bitmap)) q o n
            (ground (arith, eq_iff path q)) (λ c ec i m em. refl);
    }

    -- In a valid server `delete_archivo` either answers 1: then nothing is at the path any more,
    -- every block that its file had is free, the server stays valid, and no answer about another
    -- path has changed. Or nothing was at the path, and it answers 0 and changes nothing.
    pub delete_archivo-IsDeleted :
        (((delete_archivo B path s).0 ≡ pos 1) × IsDeleted s path (delete_archivo B path s).1)
        ⊎ ((s.archivos path ≡ none) × (delete_archivo B path s ≡ (pos 0, s)))
    unfolding delete_archivo
    delete_archivo-IsDeleted = go (s.archivos path) refl
      where
        go :
            (e : Option Entrada)
            → s.archivos path ≡ e
            → (((delete_archivo B path s).0 ≡ pos 1) × IsDeleted s path (delete_archivo B path s).1)
              ⊎ ((s.archivos path ≡ none) × (delete_archivo B path s ≡ (pos 0, s)))
        go none e = inr (e, rw (e, delete_archivo))
        go (some sin_formato) e = inl (
          rw (e, delete_archivo),
          rw (e, delete_archivo)
              (unfold without clean_bloques in
                without-IsDeleted [] (λ i. bloque_de-sin_formato s.archivos path i e)),
        )
        go (some (con_formato a)) e = inl (
          rw (e, delete_archivo),
          rw (e, delete_archivo)
              (unfold without in
                without-IsDeleted a.array (λ i. bloque_de-con_formato s.archivos path a i e)),
        )
