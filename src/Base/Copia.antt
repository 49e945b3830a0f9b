-- ===== src/Base/Copia.antt =====
-- `memcpy` into and out of a large area (the user memory, a file of blocks): a function from
-- addresses to bytes.
use so_2c_2023_no_me_queme.Base.{
  ℕ, zero, suc, ◌+◌, ◌≤◌, ◌<◌, ◌≡◌, refl, List, [], ◌∷◌, arith, length, ◌==◌, if◌then◌else◌, ◌⊎◌,
}

-- `memcpy(base + dir, bytes, length bytes)`
unfoldable pub copiar_a : (ℕ → ℕ) → ℕ → List ℕ → ℕ → ℕ
copiar_a u dir [] j = u j
copiar_a u dir (b ∷ bs) j = if dir == j then b else copiar_a u (dir + 1) bs j

-- `memcpy(destino, base + dir, n)`
unfoldable pub copiar_de : (ℕ → ℕ) → ℕ → ℕ → List ℕ
copiar_de u dir zero = []
copiar_de u dir (suc n) = u dir ∷ copiar_de u (dir + 1) n

pub copiar_a_fuera :
    (u : ℕ → ℕ) (dir : ℕ) (bs : List ℕ) (j : ℕ)
    → (j < dir) ⊎ (dir + length bs ≤ j)
    → copiar_a u dir bs j ≡ u j
unfolding copiar_a
copiar_a_fuera u dir [] j h = refl
copiar_a_fuera u dir (b ∷ bs) j h = ground (arith, copiar_a_fuera u (dir + 1) bs j)

copiar_a_cabeza : (u : ℕ → ℕ) (dir b : ℕ) (bs : List ℕ) → copiar_a u dir (b ∷ bs) dir ≡ b
unfolding copiar_a
copiar_a_cabeza u dir b bs = ground arith

copiar_a_cola :
    (u : ℕ → ℕ) (dir b : ℕ) (bs : List ℕ) (j : ℕ)
    → dir < j
    → copiar_a u dir (b ∷ bs) j ≡ copiar_a u (dir + 1) bs j
unfolding copiar_a
copiar_a_cola u dir b bs j h = ground arith

copiar_de_igual :
    (u w : ℕ → ℕ) (dir n : ℕ)
    → ((j : ℕ) → dir ≤ j → u j ≡ w j)
    → copiar_de u dir n ≡ copiar_de w dir n
unfolding copiar_de
copiar_de_igual u w dir zero h = refl
copiar_de_igual u w dir (suc n) h =
    ground (arith, h dir, copiar_de_igual u w (dir + 1) n (λ j le. h j (omega arith)))

-- What was copied in is copied out.
pub copiar_de-copiar_a :
    (u : ℕ → ℕ) (dir : ℕ) (bs : List ℕ) (n : ℕ)
    → length bs ≡ n
    → copiar_de (copiar_a u dir bs) dir n ≡ bs
unfolding copiar_de
copiar_de-copiar_a u dir [] zero e = refl
copiar_de-copiar_a u dir [] (suc n) e = absurd (omega arith)
copiar_de-copiar_a u dir (b ∷ bs) zero e = absurd (omega arith)
copiar_de-copiar_a u dir (b ∷ bs) (suc n) e = ground (
  arith,
  copiar_a_cabeza u dir b bs,
  copiar_de_igual (copiar_a u dir (b ∷ bs)) (copiar_a u (dir + 1) bs) (dir + 1) n
      (λ j le. copiar_a_cola u dir b bs j (omega arith)),
  copiar_de-copiar_a u (dir + 1) bs n (omega arith),
)

copiar_de_fuera :
    (u w : ℕ → ℕ) (dir n : ℕ)
    → ((j : ℕ) → dir ≤ j → j < dir + n → u j ≡ w j)
    → copiar_de u dir n ≡ copiar_de w dir n
unfolding copiar_de
copiar_de_fuera u w dir zero h = refl
copiar_de_fuera u w dir (suc n) h =
    ground
      (arith, h dir, copiar_de_fuera u w (dir + 1) n (λ j le lt. h j (omega arith) (omega arith)))

-- A range that the copy does not touch is read as before.
pub copiar_de_rango :
    (u : ℕ → ℕ) (dir : ℕ) (bs : List ℕ) (a n : ℕ)
    → (a + n ≤ dir) ⊎ (dir + length bs ≤ a)
    → copiar_de (copiar_a u dir bs) a n ≡ copiar_de u a n
copiar_de_rango u dir bs a n h =
    copiar_de_fuera (copiar_a u dir bs) u a n (λ j le lt. copiar_a_fuera u dir bs j (omega arith))
