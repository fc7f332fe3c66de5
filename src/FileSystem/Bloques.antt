-- ===== src/FileSystem/Bloques.antt =====
-- How a range of a file is cut into pieces of blocks: `bloque_offset` and `blocks_to_process` of
-- FileSystem/fs.h. The array that the code ends by an entry with id -1 is the list up to that entry.
-- All numbers are `int32_t`, and none is below 0 here; `none` is one that would be 2^31 or more, which
-- C leaves undefined (with wrap-around the loop of `bloque_offset` need not end).
use tp_so_2017_twt.Prelude.{
  ℕ, zero, suc, ◌+◌, ◌-◌, ◌*◌, ◌/◌, ◌^◌, ◌≤◌, ◌<◌, ◌≡◌, refl, ◌⊎◌, inl, inr, true, false, Option,
  none, some, List, [], ◌∷◌, arith, ltb, leb, if◌then◌else◌, Bool-cases, ◌>>=◌, ltb→lt,
}
use mathlib.Core.Path.{subst₂}

-- `Bloque_t`
pub record Bloque : Type 0 where
  pub id : ℕ
  pub offset : ℕ
  pub size : ℕ

-- A result of an `int32_t` operation on numbers that are not below 0
unfoldable pub int32 : ℕ → Option ℕ
int32 n = if ltb n (2 ^ 31) then some n else none

-- `for (i = 0; sizeBloque * i <= offset; i++)`; also `none` when the fuel runs out.
bloque_offset_loop : ℕ → ℕ → ℕ → ℕ → Option ℕ
unfolding int32
bloque_offset_loop zero offset size_bloque i = none
bloque_offset_loop (suc fuel) offset size_bloque i =
    let rest = bloque_offset_loop fuel offset size_bloque (i + 1) in
    do inicio ← int32 (size_bloque * i); if leb inicio offset then rest else some i

unfoldable pub bloque_offset : ℕ → ℕ → Option ℕ
unfolding bloque_offset_loop
bloque_offset offset size_bloque = bloque_offset_loop (offset + 2) offset size_bloque 0

-- One round of the `while` of `blocks_to_process`: the piece that it adds to the array.
unfoldable pub next_bloque : ℕ → ℕ → ℕ → ℕ → Option Bloque
unfolding bloque_offset int32
next_bloque size_bloque offset size bytes_process = do
  i ← bloque_offset offset size_bloque
  let id_bloque = i - 1
  let actual_offset = offset - id_bloque * size_bloque
  hasta ← int32 (size + actual_offset)
  if leb hasta size_bloque
      then some (record { id = id_bloque; offset = actual_offset; size = size })
      else (do
        desde ← int32 (offset + bytes_process)
        j ← bloque_offset desde size_bloque
        let id' = j - 1
        let offset' = desde - id' * size_bloque
        let size' =
            if leb (size - bytes_process) (size_bloque - offset')
            then size - bytes_process
            else size_bloque - offset'
        some (record { id = id'; offset = offset'; size = size' }))

blocks_loop : ℕ → ℕ → ℕ → ℕ → ℕ → Option (List Bloque)
blocks_loop zero size_bloque offset size bytes_process = none
blocks_loop (suc fuel) size_bloque offset size bytes_process = elim (ltb bytes_process size) [
  | true ↦ do
    b ← next_bloque size_bloque offset size bytes_process
    rest ← blocks_loop fuel size_bloque offset size (bytes_process + b.size)
    some (b ∷ rest)
  | false ↦ some []
]

unfoldable pub blocks_to_process : ℕ → ℕ → ℕ → Option (List Bloque)
unfolding bloque_offset next_bloque blocks_loop
blocks_to_process size_bloque offset size = blocks_loop (suc size) size_bloque offset size 0

sample_pieces :
    blocks_to_process 64 60 70
    ≡ some (
        record { id = 0; offset = 60; size = 4 }
        ∷ record { id = 1; offset = 0; size = 64 }
        ∷ record { id = 2; offset = 0; size = 2 }
        ∷ [])
unfolding blocks_to_process
sample_pieces = refl

div-le : (s i n : ℕ) → 0 < s → s * i ≤ n → i ≤ n / s
div-le s i n h k = grind arith

lt-div : (s i n : ℕ) → 0 < s → n < s * i → n / s < i
lt-div s i n h k = grind arith

-- A product up to the first one past `offset` is an `int32_t`.
times_fits : (offset s i : ℕ) → 0 < s → i ≤ offset / s + 1 → offset + s < 2 ^ 31 → s * i < 2 ^ 31
times_fits offset s i h lo fit = grind arith

pub int32-some : (n : ℕ) → n < 2 ^ 31 → int32 n ≡ some n
unfolding int32
int32-some n lt = ground arith

bloque_offset_loop_lem :
    (fuel offset s i : ℕ)
    → 0 < s
    → offset + s < 2 ^ 31
    → i ≤ offset / s + 1
    → offset / s + 1 < i + fuel
    → bloque_offset_loop fuel offset s i ≡ some (offset / s + 1)
unfolding bloque_offset_loop
bloque_offset_loop_lem zero offset s i h fit lo hi = absurd (omega arith)
bloque_offset_loop_lem (suc fuel) offset s i h fit lo hi =
    rw (int32-some (s * i) (times_fits offset s i h lo fit), ◌>>=◌)
      (ground (
        arith,
        div-le s i offset,
        lt-div s i offset,
        bloque_offset_loop_lem fuel offset s (i + 1) h fit,
      ))

div-le_self : (n s : ℕ) → n / s ≤ n
div-le_self n zero = grind arith
div-le_self n (suc s) = grind arith

-- The loop of `bloque_offset` ends, and counts the block that holds `offset` and those before it.
pub bloque_offset_lem :
    (offset s : ℕ) → 0 < s → offset + s < 2 ^ 31 → bloque_offset offset s ≡ some (offset / s + 1)
unfolding bloque_offset
bloque_offset_lem offset s h fit =
    bloque_offset_loop_lem (offset + 2) offset s 0 h fit (omega arith)
      (omega (arith, div-le_self offset s))

-- The pieces `bs` make up the `size` bytes from address `start` on, in order, each inside a block.
abbrev pub Covers : ℕ → ℕ → ℕ → List Bloque → Type 0
Covers s start size [] = size ≡ 0
Covers s start size (b ∷ bs) =
    (b.id * s + b.offset ≡ start)
    × (0 < b.size)
    × (b.offset + b.size ≤ s)
    × (b.size ≤ size)
    × Covers s (start + b.size) (size - b.size) bs

-- What a round adds: the piece at the first byte that is not covered yet.
pub record IsNext (s start left : ℕ) (b : Bloque) : Type 0 where
  pub at : b.id * s + b.offset ≡ start
  pub some_byte : 0 < b.size
  pub inside : b.offset + b.size ≤ s
  pub within : b.size ≤ left

-- The code has the block's number from the count of blocks, less one.
division :
    (n s i : ℕ)
    → 0 < s
    → i ≡ n / s
    → (i * s + (n - i * s) ≡ n) × (n - i * s < s) × (n - i * s ≡ n - n / s * s)
division n s i h e = rw e (grind arith, grind arith, refl)

next_bloque-IsNext :
    (s offset size bytes : ℕ)
    → 0 < s
    → offset + size + s ≤ 2 ^ 31
    → bytes < size
    → (bytes ≡ 0) ⊎ (s < size + (offset - offset / s * s))
    → (b : Bloque) × (next_bloque s offset size bytes ≡ some b)
      × IsNext s (offset + bytes) (size - bytes) b
      × ((bytes + b.size ≡ size) ⊎ (s < size + (offset - offset / s * s)))
unfolding next_bloque
next_bloque-IsNext s offset size bytes h fit lt inv =
    let i : ℕ = offset / s + 1 - 1 in
    let j : ℕ = (offset + bytes) / s + 1 - 1 in
    let rest : ℕ = offset + bytes - j * s in
    let di = division offset s i h (omega arith) in
    let dj = division (offset + bytes) s j h (omega arith) in
    let hasta : size + (offset - i * s) < 2 ^ 31 = omega (arith, fit, h) in
    elim (Bool-cases (leb (size + (offset - i * s)) s)) [
      | inl t ↦ (
        record { id = i; offset = offset - i * s; size = size },
        rw
            (
              bloque_offset_lem offset s h (omega arith),
              int32-some (size + (offset - i * s)) hasta,
              t,
            )
            refl,
        one i (offset - i * s) di.0 di.2 t,
        only i (offset - i * s) di.2 t,
      )
      | inr t ↦ (
        record {
          id = j;
          offset = rest;
          size = if leb (size - bytes) (s - rest) then size - bytes else s - rest;
        },
        rw
            (
              bloque_offset_lem offset s h (omega arith),
              int32-some (size + (offset - i * s)) hasta,
              t,
              int32-some (offset + bytes) (omega arith),
              bloque_offset_lem (offset + bytes) s h (omega arith),
            )
            refl,
        two j rest dj.0 dj.1,
        inr (longer i (offset - i * s) di.2 t),
      )
    ]
  where
    one :
        (i o : ℕ)
        → i * s + o ≡ offset
        → o ≡ offset - offset / s * s
        → leb (size + o) s ≡ true
        → IsNext s (offset + bytes) (size - bytes) (record { id = i; offset = o; size = size })
    one i o at eo t = ground arith

    only :
        (i o : ℕ)
        → o ≡ offset - offset / s * s
        → leb (size + o) s ≡ true
        → (bytes + size ≡ size) ⊎ (s < size + (offset - offset / s * s))
    only i o e t = ground arith

    longer :
        (i o : ℕ)
        → o ≡ offset - offset / s * s
        → leb (size + o) s ≡ false
        → s < size + (offset - offset / s * s)
    longer i o e t = ground arith

    two :
        (j o : ℕ)
        → j * s + o ≡ offset + bytes
        → o < s
        → IsNext s (offset + bytes) (size - bytes) (record {
          id = j;
          offset = o;
          size = if leb (size - bytes) (s - o) then size - bytes else s - o;
        })
    two j o at lo = ground arith

Covers-cast :
    (s : ℕ) (bs : List Bloque) {a b m n : ℕ} → a ≡ b → m ≡ n → Covers s a m bs → Covers s b n bs
Covers-cast s bs e f c = subst₂ (λ x y. Covers s x y bs) e f c

blocks_loop-Covers :
    (fuel s offset size bytes : ℕ)
    → 0 < s
    → offset + size + s ≤ 2 ^ 31
    → bytes ≤ size
    → size < fuel + bytes
    → (bytes ≡ size) ⊎ ((bytes ≡ 0) ⊎ (s < size + (offset - offset / s * s)))
    → (bs : List Bloque) × (blocks_loop fuel s offset size bytes ≡ some bs)
      × Covers s (offset + bytes) (size - bytes) bs
unfolding blocks_loop
blocks_loop-Covers zero s offset size bytes h fit le room inv = absurd (omega arith)
blocks_loop-Covers (suc fuel) s offset size bytes h fit le room inv =
    elim (Bool-cases (ltb bytes size)) [
      | inr done ↦ ([], rw (done, blocks_loop), ground arith)
      | inl more ↦
          let (b, round, next, on) =
            next_bloque-IsNext s offset size bytes h fit (ltb→lt _ _ more) (ground arith) in
          let (bs, run, cover) =
            blocks_loop-Covers fuel s offset size (bytes + b.size) h fit
              (omega (arith, next.within, ltb→lt _ _ more)) (omega (arith, next.some_byte))
              (elim on [ inl e ↦ inl e | inr l ↦ inr (inr l) ]) in
          (
            b ∷ bs,
            rw (more, blocks_loop, round, run),
            (
              next.at,
              next.some_byte,
              next.inside,
              next.within,
              Covers-cast s bs (omega arith) (omega arith) cover,
            ),
          )
    ]

-- For blocks of more than 0 bytes and a range whose end plus the size of a block is at most 2^31,
-- `blocks_to_process` ends, and its pieces are, in order and without a gap, the bytes of the
-- range, each piece of more than 0 bytes and inside one block.
pub blocks_to_process-Covers :
    (s offset size : ℕ)
    → 0 < s
    → offset + size + s ≤ 2 ^ 31
    → (bs : List Bloque) × (blocks_to_process s offset size ≡ some bs) × Covers s offset size bs
unfolding blocks_to_process
blocks_to_process-Covers s offset size h fit =
    let (bs, run, cover) =
      blocks_loop-Covers (suc size) s offset size 0 h fit (omega arith) (omega arith)
        (inr (inl refl)) in
    (bs, run, Covers-cast s bs (omega arith) (omega arith) cover)
