-- ===== src/Heap/Cabecera.antt =====
-- Reading and writing the fields of a `heapMetadata` of Memoria/Memoria.c.
use tp_so_2017_twt.Prelude.{
  ℕ, ◌+◌, ◌*◌, ◌/◌, ◌%◌, ◌^◌, ◌≤◌, ◌<◌, ◌≡◌, ◌≢◌, refl, ◌⊎◌, Bool, true, false, arith,
}
use tp_so_2017_twt.Heap.Defs.{Bytes, leer_size, leer_free, poner_size, poner_free}

-- Four bytes hold a number below 2^32.
four_bytes :
    (n : ℕ)
    → n < 2 ^ 32
    → n % 256 + 256 * (n / 256 % 256) + 65536 * (n / 65536 % 256) + 16777216 * (n / 16777216 % 256)
      ≡ n
four_bytes n h = omega arith

pub poner_size-away : (m : Bytes) (a n x : ℕ) → (x < a) ⊎ (a + 4 ≤ x) → poner_size m a n x ≡ m x
unfolding poner_size
poner_size-away m a n x h = ground arith

pub poner_free-away : (m : Bytes) (a x : ℕ) (b : Bool) → x ≢ a + 4 → poner_free m a b x ≡ m x
unfolding poner_free
poner_free-away m a x b h = ground arith

-- What two memories agree on is read alike.
pub leer_size_congr :
    (m m' : Bytes) (a : ℕ)
    → ((x : ℕ) → a ≤ x → x < a + 4 → m' x ≡ m x)
    → leer_size m' a ≡ leer_size m a
unfolding leer_size
leer_size_congr m m' a h = omega (
  arith,
  h a (omega arith) (omega arith),
  h (a + 1) (omega arith) (omega arith),
  h (a + 2) (omega arith) (omega arith),
  h (a + 3) (omega arith) (omega arith),
)

pub leer_free_congr :
    (m m' : Bytes) (a : ℕ) → m' (a + 4) ≡ m (a + 4) → leer_free m' a ≡ leer_free m a
unfolding leer_free
leer_free_congr m m' a h = rw h refl

pub leer_size-poner_size : (m : Bytes) (a n : ℕ) → n < 2 ^ 32 → leer_size (poner_size m a n) a ≡ n
unfolding leer_size poner_size
leer_size-poner_size m a n h = ground (arith, four_bytes n h)

pub leer_free-poner_free : (m : Bytes) (a : ℕ) (b : Bool) → leer_free (poner_free m a b) a ≡ b
unfolding leer_free poner_free
leer_free-poner_free m a true = ground arith
leer_free-poner_free m a false = ground arith
