-- ===== src/Shared/Cadena.antt =====
-- C strings: a buffer of bytes that ends at its first zero byte, as the C library reads it, and
-- shared/src/shared_utils.c: `str_to_uint32`.
use so_2c_2023_no_me_queme.Base.{
  ℕ, ◌+◌, ◌-◌, ◌*◌, ◌%◌, ◌^◌, Option, none, some, List, [], ◌∷◌, ◌==◌, leb, if◌then◌else◌, Bool,
  true, false, ◌&&◌, ◌||◌, bytes_eq, bytes_eq_sound, bytes_eq_refl, Bool-cases, inl, inr, ◌≡◌, ap,
  sym, ◌∙◌,
}

-- The characters in front of the terminator; the end of the buffer stands for a terminator.
unfoldable pub cadena : List ℕ → List ℕ
cadena [] = []
cadena (c ∷ cs) = let resto = cadena cs in if c == 0 then [] else c ∷ resto

-- `strcmp(a, b) == 0`
abbrev pub strcmp_eq : List ℕ → List ℕ → Bool
strcmp_eq a b = bytes_eq (cadena a) (cadena b)

unfoldable pub es_digito : ℕ → Bool
es_digito c = leb 48 c && leb c 57

unfoldable pub es_espacio : ℕ → Bool
es_espacio c = (c == 32) || (leb 9 c && leb c 13)

unfoldable pub sin_espacios : List ℕ → List ℕ
unfolding es_espacio
sin_espacios [] = []
sin_espacios (c ∷ cs) = let resto = sin_espacios cs in if es_espacio c then resto else c ∷ resto

-- The value of the digits at the front, and what follows them.
unfoldable pub digitos : ℕ → List ℕ → ℕ × List ℕ
unfolding es_digito
digitos n [] = (n, [])
digitos n (c ∷ cs) =
    let resto = digitos (n * 10 + (c - 48)) cs in if es_digito c then resto else (n, c ∷ cs)

-- `strtoul(s, &endptr, 10)` behind the spaces and the sign, on 64 bits.
unfoldable pub numero : Bool → List ℕ → List ℕ → ℕ × List ℕ
unfolding es_digito digitos
numero negativo todo [] = (0, todo)
numero negativo todo (c ∷ cs) =
    let (n, resto) = digitos 0 (c ∷ cs) in
    if es_digito c
    then (
      (if leb (2 ^ 64) n then 2 ^ 64 - 1 else if negativo then (2 ^ 64 - n) % 2 ^ 64 else n),
      resto,
    )
    else (0, todo)

unfoldable pub con_signo : List ℕ → List ℕ → ℕ × List ℕ
unfolding numero
con_signo todo [] = (0, todo)
con_signo todo (c ∷ cs) =
    if c == 45
    then numero true todo cs
    else if c == 43
    then numero false todo cs
    else numero false todo (c ∷ cs)

unfoldable pub strtoul : List ℕ → ℕ × List ℕ
unfolding sin_espacios con_signo
strtoul s = con_signo s (sin_espacios s)

-- `none` is `exit`: a character behind the number.
unfoldable pub terminar : ℕ × List ℕ → Option ℕ
terminar (n, []) = some (n % 2 ^ 32)
terminar (n, c ∷ cs) = none

unfoldable pub str_to_uint32 : List ℕ → Option ℕ
unfolding cadena strtoul terminar
str_to_uint32 str = terminar (strtoul (cadena str))

-- `atoi`, as the bit pattern of an `int`, for a number that fits in one.
unfoldable pub atoi : List ℕ → ℕ
unfolding strtoul
atoi s = (strtoul (cadena s)).0 % 2 ^ 32

-- What equals one of two different strings is not the other.
pub strcmp_eq_ajeno :
    (m n x : List ℕ) → strcmp_eq m n ≡ false → strcmp_eq x m ≡ true → strcmp_eq x n ≡ false
strcmp_eq_ajeno m n x distintos h = elim (Bool-cases (strcmp_eq x n)) [
  | inl si ↦
      let a = bytes_eq_sound (cadena x) (cadena m) h in
      let b = bytes_eq_sound (cadena x) (cadena n) si in
      let igual : strcmp_eq m n ≡ true =
        ap (λ c. bytes_eq (cadena m) c) (sym b ∙ a) ∙ bytes_eq_refl (cadena m) in
      absurd (cc)
  | inr no' ↦ no'
]
