-- ===== src/Filesystem/Swap/Reserva.antt =====
-- Reserving and freeing swap blocks.
use so_2c_2023_no_me_queme.Base.{
  ℕ, zero, suc, ◌+◌, ◌≤◌, ◌<◌, ◌≡◌, ◌≢◌, refl, ap, Option, some, List, [], ◌∷◌, arith, length,
  get_elem?, set, ◌==◌, ltb, if◌then◌else◌, true, Bool-cases, inl, inr, ◌⊎◌, get_elem?-set_self,
  get_elem?-set_ne, lt_of_get_elem?, sym, ◌∙◌,
}
use so_2c_2023_no_me_queme.Base.Opt.{◌>>=◌}
use so_2c_2023_no_me_queme.Filesystem.Swap.{
  menos_uno, primer_libre, marcar, obtener_primer_bloque_libre_swap, liberar_bloques_swap,
  lista_bloques_swap_reservados,
}

abbrev pub libres : List ℕ → ℕ
libres [] = 0
libres (x ∷ xs) = if x == menos_uno then suc (libres xs) else libres xs

-- The blocks are all among those that an array has free.
abbrev pub Libres : List ℕ → List ℕ → Type 0
Libres [] swap = Unit
Libres (b ∷ l) swap = (get_elem? swap b ≡ some menos_uno) × Libres l swap

abbrev pub Esta : ℕ → List ℕ → Type 0
Esta a [] = ⊥
Esta a (b ∷ bs) = (a ≡ b) ⊎ Esta a bs

abbrev pub Distintos : List ℕ → Type 0
Distintos [] = Unit
Distintos (b ∷ l) = (¬ Esta b l) × Distintos l

primer_libre_desde :
    (i : ℕ) (xs : List ℕ)
    → 0 < libres xs
    → (k : ℕ) × (primer_libre i xs ≡ i + k) × (get_elem? xs k ≡ some menos_uno)
unfolding primer_libre
primer_libre_desde i [] h = absurd (omega arith)
primer_libre_desde i (x ∷ xs) h = elim (Bool-cases (x == menos_uno)) [
  | inl si ↦ (0, ground (arith, si), ground (arith, si))
  | inr no' ↦
      let (k, e, g) = primer_libre_desde (i + 1) xs (ground (arith, no', h)) in
      (suc k, ground (arith, no', e), g)
]

obtener_primer_bloque_libre_swap_lem :
    (xs : List ℕ)
    → 0 < libres xs
    → get_elem? xs (obtener_primer_bloque_libre_swap xs) ≡ some menos_uno
unfolding obtener_primer_bloque_libre_swap
obtener_primer_bloque_libre_swap_lem xs h =
    let (k, e, g) = primer_libre_desde 0 xs h in ap (get_elem? xs) (e ∙ omega arith) ∙ g

libres-set :
    (xs : List ℕ) (b : ℕ) → get_elem? xs b ≡ some menos_uno → libres (set xs b 1) + 1 ≡ libres xs
libres-set [] b h = ground arith
libres-set (x ∷ xs) zero h = ground (arith, h)
libres-set (x ∷ xs) (suc b) h = ground (arith, libres-set xs b h)

set-set : (xs : List ℕ) (b v : ℕ) → get_elem? xs b ≡ some v → (w : ℕ) → set (set xs b w) b v ≡ xs
set-set [] b v h w = refl
set-set (x ∷ xs) zero v h w = cc
set-set (x ∷ xs) (suc b) v h w = ap (◌∷◌ x) (set-set xs b v h w)

set_comm : (xs : List ℕ) (a b v : ℕ) → set (set xs a v) b v ≡ set (set xs b v) a v
set_comm [] a b v = refl
set_comm (x ∷ xs) zero zero v = refl
set_comm (x ∷ xs) zero (suc b) v = refl
set_comm (x ∷ xs) (suc a) zero v = refl
set_comm (x ∷ xs) (suc a) (suc b) v = ap (◌∷◌ x) (set_comm xs a b v)

liberar-set :
    (l swap : List ℕ) (b : ℕ)
    → liberar_bloques_swap l (set swap b menos_uno) ≡ set (liberar_bloques_swap l swap) b menos_uno
unfolding liberar_bloques_swap
liberar-set [] swap b = refl
liberar-set (c ∷ l) swap b =
    ap (liberar_bloques_swap l) (set_comm swap b c menos_uno)
    ∙ liberar-set l (set swap c menos_uno) b

distinto_de_marcado :
    (swap : List ℕ) (b c : ℕ)
    → get_elem? swap b ≡ some menos_uno
    → get_elem? (set swap b 1) c ≡ some menos_uno
    → b ≢ c
distinto_de_marcado swap b c g h e =
    let u = get_elem?-set_self swap b 1 (lt_of_get_elem? swap b g) in ground (arith, u, h, e)

Libres-set :
    (l swap : List ℕ) (b : ℕ)
    → get_elem? swap b ≡ some menos_uno
    → Libres l (set swap b 1)
    → Libres l swap
Libres-set [] swap b g h = tt
Libres-set (c ∷ l) swap b g (h, hs) = (
  sym (get_elem?-set_ne swap b c 1 (distinto_de_marcado swap b c g h)) ∙ h,
  Libres-set l swap b g hs,
)

fuera_de_Libres :
    (l swap : List ℕ) (b : ℕ)
    → get_elem? swap b ≡ some menos_uno
    → Libres l (set swap b 1)
    → ¬ Esta b l
fuera_de_Libres [] swap b g li x = elim x [ ]
fuera_de_Libres (c ∷ l) swap b g (h, hs) (inl e) = distinto_de_marcado swap b c g h e
fuera_de_Libres (c ∷ l) swap b g (h, hs) (inr e) = fuera_de_Libres l swap b g hs e

abbrev con_bloque : ℕ → List ℕ → ℕ → Option (List ℕ × List ℕ)
con_bloque n swap b = do
  swap' ← marcar b swap
  (lista, swap'') ← lista_bloques_swap_reservados n swap'
  some (b ∷ lista, swap'')

reservar_uno :
    (n : ℕ) (swap : List ℕ) (b : ℕ) (l swap' : List ℕ)
    → b < length swap
    → lista_bloques_swap_reservados n (set swap b 1) ≡ some (l, swap')
    → con_bloque n swap b ≡ some (b ∷ l, swap')
unfolding marcar
reservar_uno n swap b l swap' h e = let t : ltb b (length swap) ≡ true = ground arith in simp (t, e)

-- While enough blocks are free, a reservation of `n` gives `n` different blocks that were free,
-- takes exactly those from the free ones, and freeing them gives back the array as it was.
pub liberar-lista_bloques_swap_reservados :
    (n : ℕ) (swap : List ℕ)
    → n ≤ libres swap
    → (l : List ℕ) × (swap' : List ℕ) × (lista_bloques_swap_reservados n swap ≡ some (l, swap'))
      × (length l ≡ n)
      × Libres l swap
      × Distintos l
      × (libres swap' + n ≡ libres swap)
      × (liberar_bloques_swap l swap' ≡ swap)
unfolding lista_bloques_swap_reservados marcar liberar_bloques_swap
liberar-lista_bloques_swap_reservados zero swap h =
    ([], swap, refl, refl, tt, tt, omega arith, refl)
liberar-lista_bloques_swap_reservados (suc n) swap h =
    let b = obtener_primer_bloque_libre_swap swap in
    let g = obtener_primer_bloque_libre_swap_lem swap (omega (arith, h)) in
    let cuenta = libres-set swap b g in
    let (l, swap', e, len, li, di, c, vuelta) =
      liberar-lista_bloques_swap_reservados n (set swap b 1) (omega (arith, h, cuenta)) in
    (
      b ∷ l,
      swap',
      reservar_uno n swap b l swap' (lt_of_get_elem? swap b g) e,
      ap suc len,
      (g, Libres-set l swap b g li),
      (fuera_de_Libres l swap b g li, di),
      omega (arith, c, cuenta),
      liberar-set l swap' b ∙ ap (λ x. set x b menos_uno) vuelta ∙ set-set swap b menos_uno g 1,
    )
