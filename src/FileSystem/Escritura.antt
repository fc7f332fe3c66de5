-- ===== src/FileSystem/Escritura.antt =====
-- Writing the pieces of a range: the loop of `guardar_datos` over `writeToBlock`, in FileSystem/fs.h.
use mathlib.Core.Option
use tp_so_2017_twt.Prelude.{
  ℕ, ◌+◌, ◌-◌, ◌*◌, ◌≤◌, ◌<◌, ◌≡◌, refl, sym, ◌∙◌, ◌≢◌, true, some, List, [], ◌∷◌, arith, ◌==◌,
  length, get_or, take, drop, get_elem?-eq-get_or, length-take, length-drop, ◌>>=◌, inl, inr,
  Bool-cases, ==_ne, ==_self, ℕ_discrete,
}
use tp_so_2017_twt.FileSystem.Bloques.{Bloque, Covers}
use tp_so_2017_twt.FileSystem.Datos.{Disco, write, con_bloque, write_to_block, escribir_bloques}
use tp_so_2017_twt.FileSystem.Contenido.{
  cell, cell-some, IsMapped, Holds, IsIn, write-take-drop, get_or_index,
}

write_to_block-some :
    (d : Disco) (block offset : ℕ) (xs : List ℕ) {f : ℕ → ℕ}
    → d block ≡ some f
    → write_to_block d block offset xs ≡ some (con_bloque d block (write f offset xs))
unfolding write_to_block
write_to_block-some d block offset xs e = rw (e, Option.map)

-- A block file that exists still exists.
con_bloque_present :
    (d : Disco) (block n : ℕ) (g : ℕ → ℕ) {f : ℕ → ℕ}
    → d n ≡ some f
    → (f' : ℕ → ℕ) × (con_bloque d block g n ≡ some f')
con_bloque_present d block n g {f} e = elim (Bool-cases (block == n)) [
  | inl t ↦ (g, rw t)
  | inr t ↦ (f, rw t e)
]

con_bloque_self : (d : Disco) (n : ℕ) (f : ℕ → ℕ) → con_bloque d n f n ≡ some f
con_bloque_self d n f = rw (==_self n)

con_bloque_ne : (d : Disco) (n k : ℕ) (f : ℕ → ℕ) → n ≢ k → con_bloque d n f k ≡ d k
con_bloque_ne d n k f ne = rw (==_ne n k ne)

cell_congr :
    (d' d : Disco) (array : List ℕ) (i o : ℕ)
    → d' (get_or array i 0) ≡ d (get_or array i 0)
    → cell d' array i o ≡ cell d array i o
unfolding cell
cell_congr d' d array i o e = rw (e, cell)

block_end : (s i j : ℕ) → i < j → i * s + s ≤ j * s
block_end s i j k = grind arith

write_nothing :
    (g : ℕ → ℕ) (start : ℕ) (xs : List ℕ) (a : ℕ) → length xs ≡ 0 → g a ≡ write g start xs a
unfolding write
write_nothing g start xs a e = ground arith

module _ (d : Disco) (array : List ℕ) (s start : ℕ) (b : Bloque) (g : ℕ → ℕ) (xs : List ℕ) where
  -- One piece, whose bytes are `xs`
  piece-IsMapped :
      (f : ℕ → ℕ) → IsMapped d array → IsMapped (con_bloque d (get_or array b.id 0) f) array
  piece-IsMapped f m = record {
    present =
        λ i lt. con_bloque_present d (get_or array b.id 0) (get_or array i 0) f (m.present i lt).1;
    apart = m.apart;
  }

  -- in the block that is written
  same_block :
      (f : ℕ → ℕ) (o : ℕ)
      → b.id * s + b.offset ≡ start
      → f o ≡ g (b.id * s + o)
      → write f b.offset xs o ≡ write g start xs (b.id * s + o)
  unfolding write
  same_block f o at e = ground (arith, get_or_index xs (o - b.offset) (b.id * s + o - start))

  -- in another one
  other_piece :
      (i o : ℕ)
      → o < s
      → i ≢ b.id
      → b.id * s + b.offset ≡ start
      → b.offset + length xs ≤ s
      → g (i * s + o) ≡ write g start xs (i * s + o)
  unfolding write
  other_piece i o lt ne at inside = ground (arith, block_end s i b.id, block_end s b.id i)

  piece-Holds :
      (f : ℕ → ℕ)
      → d (get_or array b.id 0) ≡ some f
      → b.id < length array
      → IsMapped d array
      → Holds d array s g
      → b.id * s + b.offset ≡ start
      → b.offset + length xs ≤ s
      → Holds (con_bloque d (get_or array b.id 0) (write f b.offset xs)) array s (write g start xs)
  unfolding cell
  piece-Holds f e lt m h at inside i o il ol = elim (ℕ_discrete i b.id) [
    | yes same ↦ rw same (
        cell-some (con_bloque d (get_or array b.id 0) (write f b.offset xs)) array b.id o
          (con_bloque_self d (get_or array b.id 0) (write f b.offset xs))
        ∙ same_block f o at (sym (cell-some d array b.id o e) ∙ h b.id o lt ol))
    | no ne ↦
        cell_congr (con_bloque d (get_or array b.id 0) (write f b.offset xs)) d array i o (
          con_bloque_ne d (get_or array b.id 0) (get_or array i 0) (write f b.offset xs)
            (λ t. ne (sym (m.apart b.id i lt il t))))
        ∙ h i o il ol
        ∙ other_piece i o ol ne at inside
  ]

-- What `escribir_bloques` leaves: the file holds `g`, other blocks are as they were, and no block
-- file is gone.
pub record Written (d d' : Disco) (array : List ℕ) (s : ℕ) (g : ℕ → ℕ) : Type 0 where
  pub mapped : IsMapped d' array
  pub holds : Holds d' array s g
  pub others : (n : ℕ) → ((i : ℕ) → i < length array → get_or array i 0 ≢ n) → d' n ≡ d n
  pub kept : (n : ℕ) (f : ℕ → ℕ) → d n ≡ some f → (f' : ℕ → ℕ) × (d' n ≡ some f')

pub escribir_bloques-Written :
    (d : Disco) (array : List ℕ) (s start size : ℕ) (bs : List Bloque) (g : ℕ → ℕ) (buffer : List ℕ)
    → Covers s start size bs
    → length buffer ≡ size
    → IsIn array bs
    → IsMapped d array
    → Holds d array s g
    → (d' : Disco) × (escribir_bloques d array bs buffer ≡ some (true, d'))
      × Written d d' array s (write g start buffer)
unfolding escribir_bloques
escribir_bloques-Written d array s start size [] g buffer c l i m h = (
  d,
  refl,
  record {
    mapped = m;
    holds = λ j o il ol. h j o il ol ∙ write_nothing g start buffer (j * s + o) (l ∙ c);
    others = λ n out. refl;
    kept = λ n f e. (f, e);
  },
)
escribir_bloques-Written d array s start size (b ∷ bs) g buffer c l i m h =
    let (f, e) = m.present b.id i.0 in
    let xs : List ℕ = take b.size buffer in
    let lx : length xs ≡ b.size = omega (arith, length-take b.size buffer, c.3) in
    let f₁ : ℕ → ℕ = write f b.offset xs in
    let d₁ : Disco = con_bloque d (get_or array b.id 0) f₁ in
    let (d', run, w) =
      escribir_bloques-Written d₁ array s (start + b.size) (size - b.size) bs (write g start xs)
        (drop b.size buffer) c.4 (omega (arith, length-drop b.size buffer)) i.1
        (piece-IsMapped d array s start b g xs f₁ m)
        (piece-Holds d array s start b g xs f e i.0 m h c.0 (omega (arith, c.2))) in
    (
      d',
      rw
          (
            get_elem?-eq-get_or array b.id 0 i.0,
            ◌>>=◌,
            write_to_block-some d (get_or array b.id 0) b.offset xs e,
          )
          run,
      record {
        mapped = w.mapped;
        holds = λ j o il ol.
            w.holds j o il ol
            ∙ write-take-drop g start b.size buffer (j * s + o) (omega (arith, c.3));
        others =
            λ n out. w.others n out ∙ con_bloque_ne d (get_or array b.id 0) n f₁ (out b.id i.0);
        kept = λ n f₀ e₀.
            let (f₂, e₂) = con_bloque_present d (get_or array b.id 0) n f₁ e₀ in w.kept n f₂ e₂;
      },
    )
