-- ===== src/Pcb/Stream.antt =====
-- Bytes on a socket: `memcpy` of a `uint32_t` into a buffer, and `recv` with MSG_WAITALL out of one.
-- The machine stores the low byte first. `none` is a connection that ends before the last byte.
use tp_so_2017_twt.Prelude.{
  ℕ, zero, suc, ◌+◌, ◌*◌, ◌/◌, ◌%◌, ◌^◌, ◌<◌, ◌≡◌, refl, ap, Option, none, some, List, [], ◌∷◌,
  ◌++◌, append_assoc, arith, length, All,
}

abbrev pub Reader : Type 0 → Type 0
Reader A = List ℕ → Option (A × List ℕ)

infixl 5 ◌>>=◌
abbrev pub ◌>>=◌ : {A B : Type 0} → Reader A → (A → Reader B) → Reader B
◌>>=◌ m f bytes = elim (m bytes) [ none ↦ none | some (a, rest) ↦ f a rest ]

abbrev pub pure : {A : Type 0} → A → Reader A
pure a bytes = some (a, bytes)

unfoldable pub put_u32 : ℕ → List ℕ
put_u32 n = (n % 256) ∷ (n / 256 % 256) ∷ (n / 65536 % 256) ∷ (n / 16777216 % 256) ∷ []

unfoldable pub recv_u32 : Reader ℕ
recv_u32 (a ∷ b ∷ c ∷ d ∷ rest) = some (a + 256 * b + 65536 * c + 16777216 * d, rest)
recv_u32 other = none

unfoldable pub recv_char : Reader ℕ
recv_char [] = none
recv_char (c ∷ rest) = some (c, rest)

unfoldable pub recv_bytes : ℕ → Reader (List ℕ)
recv_bytes zero bytes = some ([], bytes)
recv_bytes (suc n) [] = none
recv_bytes (suc n) (c ∷ bytes) = elim (recv_bytes n bytes) [
  | none ↦ none
  | some (cs, rest) ↦ some (c ∷ cs, rest)
]

-- The loops that receive one element after another
unfoldable pub recv_list : {A : Type 0} → Reader A → ℕ → Reader (List A)
recv_list p zero bytes = some ([], bytes)
recv_list p (suc n) bytes = elim (p bytes) [
  | none ↦ none
  | some (x, rest) ↦ elim (recv_list p n rest) [
    | none ↦ none
    | some (xs, rest') ↦ some (x ∷ xs, rest')
  ]
]

-- `list_iterate`: what each element adds to the buffer, in order
unfoldable pub put_list : {A : Type 0} → (A → List ℕ) → List A → List ℕ
put_list f [] = []
put_list f (x ∷ xs) = f x ++ put_list f xs

pub length-put_u32 : (n : ℕ) → length (put_u32 n) ≡ 4
unfolding put_u32
length-put_u32 n = refl

-- What was sent is received, and the bytes after it stay.
pub recv_u32-put_u32 :
    (n : ℕ) (rest : List ℕ) → n < 2 ^ 32 → recv_u32 (put_u32 n ++ rest) ≡ some (n, rest)
unfolding put_u32 recv_u32
recv_u32-put_u32 n rest h = ap (λ k. some (k, rest)) (omega arith)

pub recv_bytes-append :
    (xs : List ℕ) (rest : List ℕ) → recv_bytes (length xs) (xs ++ rest) ≡ some (xs, rest)
unfolding recv_bytes
recv_bytes-append [] rest = refl
recv_bytes-append (x ∷ xs) rest = rw (recv_bytes-append xs rest)

pub recv_list-put_list :
    {A : Type 0} (p : Reader A) (f : A → List ℕ) (P : A → Type 0)
    → ((x : A) (rest : List ℕ) → P x → p (f x ++ rest) ≡ some (x, rest))
    → (xs : List A) (rest : List ℕ) → All P xs
    → recv_list p (length xs) (put_list f xs ++ rest) ≡ some (xs, rest)
unfolding recv_list put_list
recv_list-put_list p f P h [] rest a = refl
recv_list-put_list p f P h (x ∷ xs) rest a = rw (
  append_assoc (f x) (put_list f xs) rest,
  h x (put_list f xs ++ rest) a.0,
  recv_list,
  recv_list-put_list p f P h xs rest a.1,
)
