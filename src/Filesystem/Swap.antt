-- ===== src/Filesystem/Swap.antt =====
-- filesystem/src/filesystem.c: the swap area, the last blocks of the file of blocks, and the array
-- that tells which of them are in use.
pub mod Bloques
pub mod Reserva
pub mod Servidor
use so_2c_2023_no_me_queme.Base.{
  ℕ, zero, suc, ◌+◌, ◌-◌, ◌*◌, ◌/◌, ◌%◌, ◌^◌, ◌≤◌, ◌<◌, ◌≡◌, ◌≢◌, refl, ap, Option, none, some,
  List, [], ◌∷◌, ◌++◌, arith, length, get_elem?, set, replicate, ◌==◌, ltb, leb, if◌then◌else◌,
  Bool, true, false, not, Bool-cases, inl, inr, ◌&&◌, ◌||◌, ◌⊎◌, Option-cases, map,
  get_elem?-set_self, get_elem?-set_ne, lt_of_get_elem?, length-set, ==_iff, sym, ◌∙◌, bytes_eq,
  bytes_eq_refl,
}
use so_2c_2023_no_me_queme.Base.Opt.{◌>>=◌}
use so_2c_2023_no_me_queme.Base.Copia.{copiar_a, copiar_de}

-- -1, as a 32-bit pattern.
abbrev pub menos_uno : ℕ
menos_uno = 2 ^ 32 - 1

-- The globals: `tamanio_fat` is the number of blocks in front of the swap area.
pub record AreaSwap : Type 0 where
  pub tamanio_bloque : ℕ
  pub tamanio_fat : ℕ
  pub bloques_swap : ℕ
  pub swap : List ℕ
  pub archivo_bloques : ℕ → ℕ

unfoldable pub inicializar_swap : ℕ → List ℕ
inicializar_swap bloques_swap = replicate bloques_swap menos_uno

-- `numero_bloque += tamanio_fat - 1`, and its offset in the file, in 32 bits.
abbrev pub posicion_swap : ℕ → AreaSwap → ℕ
posicion_swap n s = (n + s.tamanio_fat - 1) % 2 ^ 32 * s.tamanio_bloque % 2 ^ 32

-- The bytes that `fread` puts into the buffer.
unfoldable pub leido_de_swap : ℕ → AreaSwap → List ℕ
leido_de_swap n s = copiar_de s.archivo_bloques (posicion_swap n s) s.tamanio_bloque

-- The code frees the buffer and returns it: `tras_free` is what `free` and those that get its memory
-- make of the bytes before they are sent, and nothing is known of it.
unfoldable pub leer_bloque_swap : (List ℕ → List ℕ) → ℕ → AreaSwap → List ℕ
unfolding leido_de_swap
leer_bloque_swap tras_free n s = tras_free (leido_de_swap n s)

unfoldable pub escribir_bloque_swap : ℕ → List ℕ → AreaSwap → AreaSwap
escribir_bloque_swap n datos s = record s {
  archivo_bloques = copiar_a s.archivo_bloques (posicion_swap n s) datos;
}

unfoldable pub primer_libre : ℕ → List ℕ → ℕ
primer_libre i [] = menos_uno
primer_libre i (x ∷ xs) = let resto = primer_libre (i + 1) xs in if x == menos_uno then i else resto

unfoldable pub obtener_primer_bloque_libre_swap : List ℕ → ℕ
unfolding primer_libre
obtener_primer_bloque_libre_swap swap = primer_libre 0 swap

-- A number past the array is passed over: `set` leaves the list as it is.
unfoldable pub liberar_bloques_swap : List ℕ → List ℕ → List ℕ
liberar_bloques_swap [] swap = swap
liberar_bloques_swap (nro_bloque ∷ lista) swap =
    liberar_bloques_swap lista (set swap nro_bloque menos_uno)

-- `swap[bloque_libre] = 1`; `none` is a write outside the array.
unfoldable pub marcar : ℕ → List ℕ → Option (List ℕ)
marcar b swap = if ltb b (length swap) then some (set swap b 1) else none

unfoldable pub lista_bloques_swap_reservados : ℕ → List ℕ → Option (List ℕ × List ℕ)
unfolding marcar
lista_bloques_swap_reservados zero swap = some ([], swap)
lista_bloques_swap_reservados (suc n) swap = do
  let bloque_libre = obtener_primer_bloque_libre_swap swap
  swap' ← marcar bloque_libre swap
  (lista, swap'') ← lista_bloques_swap_reservados n swap'
  some (bloque_libre ∷ lista, swap'')
