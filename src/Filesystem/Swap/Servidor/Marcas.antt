-- ===== src/Filesystem/Swap/Servidor/Marcas.antt =====
-- The marks of the swap blocks under reservations and frees.
use so_2c_2023_no_me_queme.Base.{
  ℕ, zero, suc, ◌+◌, ◌≤◌, ◌<◌, ◌≡◌, refl, ap, ◌∙◌, List, [], ◌∷◌, ◌++◌, arith, length, set, ◌==◌,
  ltb, if◌then◌else◌, Bool-cases, inl, inr, ◌⊎◌, replicate, length-set,
}
use so_2c_2023_no_me_queme.Base.Opt.{Todo, Todo->>=, Todo-some}
use so_2c_2023_no_me_queme.Filesystem.Swap.{
  menos_uno, primer_libre, marcar, obtener_primer_bloque_libre_swap, liberar_bloques_swap,
  lista_bloques_swap_reservados,
}

-- How often a block stands in a list.
abbrev pub veces : ℕ → List ℕ → ℕ
veces b [] = 0
veces b (x ∷ xs) = (if x == b then 1 else 0) + veces b xs

abbrev pub veces_en : ℕ → List (List ℕ) → ℕ
veces_en b [] = 0
veces_en b (l ∷ ls) = veces b l + veces_en b ls

abbrev marca : ℕ → ℕ
marca x = if x == menos_uno then 0 else 1

-- 1 for a block in use, 0 for a free one and for a number past the array.
abbrev pub marcado : List ℕ → ℕ → ℕ
marcado [] b = 0
marcado (x ∷ xs) zero = marca x
marcado (x ∷ xs) (suc b) = marcado xs b

pub marcado_le : (xs : List ℕ) (b : ℕ) → marcado xs b ≤ 1
marcado_le [] b = omega arith
marcado_le (x ∷ xs) zero = ground arith
marcado_le (x ∷ xs) (suc b) = marcado_le xs b

marcado-set :
    (xs : List ℕ) (b v c : ℕ)
    → marcado (set xs b v) c
      ≡ (if b == c then (if ltb b (length xs) then marca v else 0) else marcado xs c)
marcado-set [] b v c = ground arith
marcado-set (x ∷ xs) zero v zero = ground arith
marcado-set (x ∷ xs) zero v (suc c) = ground arith
marcado-set (x ∷ xs) (suc b) v zero = ground arith
marcado-set (x ∷ xs) (suc b) v (suc c) = ground (arith, marcado-set xs b v c)

primer_libre-marcado :
    (i : ℕ) (xs : List ℕ)
    → (primer_libre i xs ≡ menos_uno) ⊎ ((k : ℕ) × (primer_libre i xs ≡ i + k) × (marcado xs k ≡ 0))
unfolding primer_libre
primer_libre-marcado i [] = inl refl
primer_libre-marcado i (x ∷ xs) = elim (Bool-cases (x == menos_uno)) [
  | inl si ↦ inr (0, ground (arith, si), ground (arith, si))
  | inr no' ↦ elim (primer_libre-marcado (i + 1) xs) [
    | inl e ↦ inl (ground (arith, no', e))
    | inr s ↦ inr (suc s.0, ground (arith, no', s.1), s.2)
  ]
]

-- A block that is marked was free: the array is no longer than -1.
libre_antes :
    (xs : List ℕ)
    → length xs ≤ menos_uno
    → obtener_primer_bloque_libre_swap xs < length xs
    → marcado xs (obtener_primer_bloque_libre_swap xs) ≡ 0
unfolding obtener_primer_bloque_libre_swap
libre_antes xs h l = elim (primer_libre-marcado 0 xs) [
  | inl e ↦ absurd (omega (arith, e, h, l))
  | inr s ↦ ap (marcado xs) (omega (arith, s.1)) ∙ s.2
]

-- What a list of blocks just given says of the marks.
abbrev pub Dados : List ℕ → List ℕ × List ℕ → Type 0
Dados xs r = ((b : ℕ) → veces b r.0 + marcado xs b ≡ marcado r.1 b) × (length r.1 ≡ length xs)

abbrev Marcados : List ℕ → ℕ → List ℕ → Type 0
Marcados xs b xs' = (b < length xs) × (xs' ≡ set xs b 1)

marcar-Marcados : (b : ℕ) (xs : List ℕ) → Todo (Marcados xs b) (marcar b xs)
unfolding marcar
marcar-Marcados b xs = elim (Bool-cases (ltb b (length xs))) [
  | inl si ↦ rw si (ground (arith, si), refl)
  | inr no' ↦ rw no' tt
]

-- The first block, and then the others.
Dados-uno :
    (xs : List ℕ) (b : ℕ) (xs' : List ℕ) (r : List ℕ × List ℕ)
    → marcado xs b ≡ 0
    → Marcados xs b xs'
    → Dados xs' r
    → Dados xs (b ∷ r.0, r.1)
Dados-uno xs b xs' r libre_b (dentro, e) (cuenta, largo) = (
  (λ c. ground (arith, cuenta c, ap (λ x. marcado x c) e, marcado-set xs b 1 c, libre_b, dentro)),
  largo ∙ ap length e ∙ length-set xs b 1,
)

pub lista_bloques_swap_reservados-Dados :
    (n : ℕ) (xs : List ℕ)
    → length xs ≤ menos_uno
    → Todo (Dados xs) (lista_bloques_swap_reservados n xs)
unfolding lista_bloques_swap_reservados
lista_bloques_swap_reservados-Dados zero xs h = ((λ b. omega arith), refl)
lista_bloques_swap_reservados-Dados (suc n) xs h =
    let b = obtener_primer_bloque_libre_swap xs in
    Todo->>= (Dados xs) (marcar b xs) _ (λ xs' e1.
      let m = Todo-some (Marcados xs b) (marcar b xs) e1 (marcar-Marcados b xs) in
      let largo : length xs' ≡ length xs = ap length m.1 ∙ length-set xs b 1 in
      Todo->>= (Dados xs) (lista_bloques_swap_reservados n xs') _ (λ r e2.
        Dados-uno xs b xs' r (libre_antes xs h m.0) m (
          Todo-some (Dados xs') (lista_bloques_swap_reservados n xs') e2
            (lista_bloques_swap_reservados-Dados n xs' (omega (arith, largo, h))))))

-- Freeing takes the marks of the list, and no other.
pub liberar_bloques_swap-marcado :
    (l xs : List ℕ) (b : ℕ)
    → marcado (liberar_bloques_swap l xs) b ≡ (if veces b l == 0 then marcado xs b else 0)
unfolding liberar_bloques_swap
liberar_bloques_swap-marcado [] xs b = refl
liberar_bloques_swap-marcado (x ∷ l) xs b =
    ground
      (arith, liberar_bloques_swap-marcado l (set xs x menos_uno) b, marcado-set xs x menos_uno b)

pub liberar_bloques_swap-length : (l xs : List ℕ) → length (liberar_bloques_swap l xs) ≡ length xs
unfolding liberar_bloques_swap
liberar_bloques_swap-length [] xs = refl
liberar_bloques_swap-length (x ∷ l) xs =
    liberar_bloques_swap-length l (set xs x menos_uno) ∙ length-set xs x menos_uno

pub veces_en-append :
    (b : ℕ) (antes luego : List (List ℕ))
    → veces_en b (antes ++ luego) ≡ veces_en b antes + veces_en b luego
veces_en-append b [] ys = omega arith
veces_en-append b (l ∷ ls) ys = omega (arith, veces_en-append b ls ys)

pub replicate-marcado : (n b : ℕ) → marcado (replicate n menos_uno) b ≡ 0
replicate-marcado zero b = refl
replicate-marcado (suc n) zero = refl
replicate-marcado (suc n) (suc b) = replicate-marcado n b

pub length-replicate : (n x : ℕ) → length (replicate n x) ≡ n
length-replicate zero x = refl
length-replicate (suc n) x = ap suc (length-replicate n x)
