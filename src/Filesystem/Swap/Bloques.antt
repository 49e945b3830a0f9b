-- ===== src/Filesystem/Swap/Bloques.antt =====
-- The content of the swap blocks.
use so_2c_2023_no_me_queme.Base.{
  ℕ, ◌+◌, ◌-◌, ◌*◌, ◌^◌, ◌≤◌, ◌<◌, ◌≡◌, List, arith, length, ◌==◌, if◌then◌else◌,
}
use so_2c_2023_no_me_queme.Base.Copia.{copiar_de-copiar_a, copiar_de_rango}
use native.Mathlib.Nat.{mod-eq_of_lt}
use so_2c_2023_no_me_queme.Filesystem.Swap.{
  AreaSwap, posicion_swap, leido_de_swap, escribir_bloque_swap,
}

-- A swap block whose bytes lie within the 32-bit offsets.
abbrev pub Cabe : ℕ → AreaSwap → Type 0
Cabe n s =
    (0 < s.tamanio_fat) × (0 < s.tamanio_bloque) × ((n + s.tamanio_fat) * s.tamanio_bloque < 2 ^ 32)

menor_que_producto : (a t m : ℕ) → 0 < t → a * t < m → a - 1 < m
menor_que_producto a t m h l = grind arith

menos_por : (a t m : ℕ) → a * t < m → (a - 1) * t < m
menos_por a t m l = grind arith

posicion-Cabe :
    (n : ℕ) (s : AreaSwap)
    → Cabe n s
    → posicion_swap n s ≡ (n + s.tamanio_fat - 1) * s.tamanio_bloque
posicion-Cabe n s (f, t, c) =
    rw (mod-eq_of_lt (menor_que_producto (n + s.tamanio_fat) s.tamanio_bloque (2 ^ 32) t c))
      (mod-eq_of_lt (menos_por (n + s.tamanio_fat) s.tamanio_bloque (2 ^ 32) c))

lejos : (a b t f : ℕ) → 0 < f → a < b → (a + f - 1) * t + t ≤ (b + f - 1) * t
lejos a b t f h l = grind arith

-- What `fread` finds in a block.
pub leido-escribir_bloque_swap :
    (s : AreaSwap) (n k : ℕ) (datos : List ℕ)
    → Cabe n s
    → Cabe k s
    → length datos ≡ s.tamanio_bloque
    → leido_de_swap k (escribir_bloque_swap n datos s)
      ≡ (if n == k then datos else leido_de_swap k s)
unfolding leido_de_swap escribir_bloque_swap
leido-escribir_bloque_swap s n k datos (f, t, c) ck l = ground (
  arith,
  posicion-Cabe n s (f, t, c),
  posicion-Cabe k s ck,
  copiar_de-copiar_a s.archivo_bloques (posicion_swap n s) datos s.tamanio_bloque l,
  copiar_de_rango s.archivo_bloques (posicion_swap n s) datos (posicion_swap k s) s.tamanio_bloque,
  lejos n k s.tamanio_bloque s.tamanio_fat f,
  lejos k n s.tamanio_bloque s.tamanio_fat f,
)
