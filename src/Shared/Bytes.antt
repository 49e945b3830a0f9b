-- ===== src/Shared/Bytes.antt =====
-- shared/src/shared_utils.c: the `memcpy` of an `int` or of a run of bytes to and from a buffer.
use so_2c_2023_no_me_queme.Base.{
  ℕ, zero, suc, ◌+◌, ◌*◌, ◌/◌, ◌%◌, ◌^◌, ◌<◌, ◌≡◌, refl, ap, Option, none, some, List, [], ◌∷◌,
  ◌++◌, arith, length, append-nil,
}

abbrev pub int_max : ℕ
int_max = 2 ^ 32

-- The four bytes of a 32-bit value, least significant first. An `int` is its bit pattern.
unfoldable pub bytes_int : ℕ → List ℕ
bytes_int n = n % 256 ∷ n / 256 % 256 ∷ n / 65536 % 256 ∷ n / 16777216 % 256 ∷ []

-- `memcpy(&x, buffer + offset, sizeof(int))` and the offset behind it; `none` reads past the end.
unfoldable pub leer_int : List ℕ → Option (ℕ × List ℕ)
leer_int (a ∷ b ∷ c ∷ d ∷ rest) = some (a + b * 256 + c * 65536 + d * 16777216, rest)
leer_int _ = none

-- `memcpy(p, buffer + offset, n)`.
unfoldable pub leer_bytes : ℕ → List ℕ → Option (List ℕ × List ℕ)
leer_bytes zero buf = some ([], buf)
leer_bytes (suc n) [] = none
leer_bytes (suc n) (b ∷ buf) = elim (leer_bytes n buf) [
  | none ↦ none
  | some (bs, rest) ↦ some (b ∷ bs, rest)
]

pub length-bytes_int : (n : ℕ) → length (bytes_int n) ≡ 4
unfolding bytes_int
length-bytes_int n = refl

pub leer_int-bytes_int :
    (n : ℕ) (rest : List ℕ) → n < int_max → leer_int (bytes_int n ++ rest) ≡ some (n, rest)
unfolding leer_int bytes_int
leer_int-bytes_int n rest h = ap (λ k. some (k, rest)) (omega arith)

pub leer_bytes-append :
    (bs rest : List ℕ) (n : ℕ) → length bs ≡ n → leer_bytes n (bs ++ rest) ≡ some (bs, rest)
unfolding leer_bytes
leer_bytes-append [] rest zero h = refl
leer_bytes-append [] rest (suc n) h = absurd (omega arith)
leer_bytes-append (b ∷ bs) rest zero h = absurd (omega arith)
leer_bytes-append (b ∷ bs) rest (suc n) h =
    rw (leer_bytes-append bs rest n (omega arith), leer_bytes)

pub leer_bytes_end : (bs : List ℕ) (n : ℕ) → length bs ≡ n → leer_bytes n bs ≡ some (bs, [])
leer_bytes_end bs n h = rw (append-nil bs) at (leer_bytes-append bs [] n h)

pub leer_int_end : (n : ℕ) → n < int_max → leer_int (bytes_int n) ≡ some (n, [])
leer_int_end n h = rw (append-nil (bytes_int n)) at (leer_int-bytes_int n [] h)
