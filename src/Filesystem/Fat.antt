-- ===== src/Filesystem/Fat.antt =====
-- filesystem/src/filesystem.c: the FAT file and the file of blocks.
pub mod Ocupados
pub mod Bloques
use so_2c_2023_no_me_queme.Base.{
  ℕ, zero, suc, ◌+◌, ◌-◌, ◌*◌, ◌%◌, ◌^◌, ◌≤◌, ◌<◌, ◌≡◌, Option, none, some, List, [], ◌∷◌, ◌++◌,
  length, get_elem?, set, replicate, ◌==◌, ltb, if◌then◌else◌,
}
use so_2c_2023_no_me_queme.Base.Copia.{copiar_a, copiar_de}

-- -1, as a 32-bit pattern.
abbrev pub menos_uno : ℕ
menos_uno = 2 ^ 32 - 1

-- `fcb_t`; the id, the size and the first block are 32 bits, a name is its bytes. The copy of the
-- same fields in the file at `ruta_archivo` is not read again.
pub record Fcb : Type 0 where
  pub nombre_archivo : List ℕ
  pub id : ℕ
  pub tamanio_archivo : ℕ
  pub bloque_inicial : ℕ

-- The globals, and the two files that always open. `basura` is the variable that `posicion_en_fat`
-- leaves unset when it reads past the end of the FAT.
pub record Fs : Type 0 where
  pub tamanio_bloque : ℕ
  pub tamanio_fat : ℕ
  pub fat : List ℕ
  pub basura : ℕ
  pub lista_fcb : List Fcb
  pub archivo_bloques : ℕ → ℕ

-- The loop writes one entry less than `tamanio_fat`.
unfoldable pub crear_fat : Fs → Fs
crear_fat fs = record fs { fat = replicate (fs.tamanio_fat - 1) 0 }

abbrev pub o_basura : Option ℕ → ℕ → ℕ
o_basura none basura = basura
o_basura (some v) basura = v

unfoldable pub posicion_en_fat : ℕ → Fs → ℕ
posicion_en_fat posicion fs = o_basura (get_elem? fs.fat posicion) fs.basura

-- A write behind the end of the file fills the gap with zeros.
unfoldable pub escribir_fat : ℕ → ℕ → List ℕ → List ℕ
escribir_fat posicion v fat =
    if ltb posicion (length fat)
    then set fat posicion v
    else fat ++ (replicate (posicion - length fat) 0 ++ (v ∷ []))

unfoldable pub modificar_en_fat : ℕ → ℕ → Fs → Fs
unfolding escribir_fat
modificar_en_fat posicion nuevo_valor fs = record fs {
  fat = escribir_fat posicion nuevo_valor fs.fat;
}

-- The blocks `i`, `i + 1`, … of which there are `n`.
unfoldable pub libre_desde : ℕ → ℕ → Fs → ℕ
libre_desde i zero fs = menos_uno
libre_desde i (suc n) fs =
    let resto = libre_desde (i + 1) n fs in if posicion_en_fat i fs == 0 then i else resto

unfoldable pub obtener_primer_bloque_libre : Fs → ℕ
unfolding libre_desde
obtener_primer_bloque_libre fs = libre_desde 1 (fs.tamanio_fat - 1) fs

unfoldable pub leer_bloque : ℕ → Fs → List ℕ
leer_bloque numero_bloque fs =
    copiar_de fs.archivo_bloques (numero_bloque * fs.tamanio_bloque % 2 ^ 32) fs.tamanio_bloque

unfoldable pub escribir_bloque : ℕ → List ℕ → Fs → Fs
escribir_bloque numero_bloque datos fs = record fs {
  archivo_bloques = copiar_a fs.archivo_bloques (numero_bloque * fs.tamanio_bloque % 2 ^ 32) datos;
}
