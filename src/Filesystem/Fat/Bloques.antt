-- ===== src/Filesystem/Fat/Bloques.antt =====
-- The content of the blocks of files.
use so_2c_2023_no_me_queme.Base.{
  ℕ, ◌+◌, ◌*◌, ◌%◌, ◌^◌, ◌≤◌, ◌<◌, ◌≡◌, List, arith, length, ◌==◌, if◌then◌else◌,
}
use so_2c_2023_no_me_queme.Base.Copia.{copiar_de-copiar_a, copiar_de_rango}
use native.Mathlib.Nat.{mod-eq_of_lt}
use so_2c_2023_no_me_queme.Filesystem.Fat.{Fs, leer_bloque, escribir_bloque}

lejos : (a b t : ℕ) → a < b → a * t + t ≤ b * t
lejos a b t l = grind arith

-- A block written is read back, and every other block keeps its content, where the offsets of
-- both fit in 32 bits.
pub leer_bloque-escribir_bloque :
    (fs : Fs) (n k : ℕ) (datos : List ℕ)
    → n * fs.tamanio_bloque < 2 ^ 32
    → k * fs.tamanio_bloque < 2 ^ 32
    → length datos ≡ fs.tamanio_bloque
    → leer_bloque k (escribir_bloque n datos fs) ≡ (if n == k then datos else leer_bloque k fs)
unfolding leer_bloque escribir_bloque
leer_bloque-escribir_bloque fs n k datos cn ck l = ground (
  arith,
  mod-eq_of_lt cn,
  mod-eq_of_lt ck,
  copiar_de-copiar_a fs.archivo_bloques (n * fs.tamanio_bloque % 2 ^ 32) datos fs.tamanio_bloque l,
  copiar_de_rango fs.archivo_bloques (n * fs.tamanio_bloque % 2 ^ 32) datos
      (k * fs.tamanio_bloque % 2 ^ 32) fs.tamanio_bloque,
  lejos n k fs.tamanio_bloque,
  lejos k n fs.tamanio_bloque,
)
