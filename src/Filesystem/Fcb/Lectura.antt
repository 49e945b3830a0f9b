-- ===== src/Filesystem/Fcb/Lectura.antt =====
-- filesystem/src/filesystem.c: F_READ behind F_WRITE.
use so_2c_2023_no_me_queme.Base.{
  ℕ, zero, suc, ◌*◌, ◌/◌, ◌^◌, ◌<◌, ◌≡◌, refl, ap, ◌∙◌, List, length, ◌==◌, if◌then◌else◌,
}
use so_2c_2023_no_me_queme.Shared.Instruccion.{InstruccionFs}
use so_2c_2023_no_me_queme.Filesystem.Fat.{Fs, posicion_en_fat, leer_bloque, escribir_bloque}
use so_2c_2023_no_me_queme.Filesystem.Fat.Bloques.{leer_bloque-escribir_bloque}
use so_2c_2023_no_me_queme.Filesystem.Fcb.{bloque_fs, valor_fcb, conseguir_id_fcb, bloque_inicial}
use so_2c_2023_no_me_queme.Filesystem.Fcb.Respuesta.{
  realizar_f_read, realizar_f_write, bloque_de_puntero,
}

bloque_fs-escribir_bloque :
    (n b k : ℕ) (datos : List ℕ) (fs : Fs)
    → bloque_fs n b (escribir_bloque k datos fs) ≡ bloque_fs n b fs
unfolding bloque_fs escribir_bloque posicion_en_fat
bloque_fs-escribir_bloque zero b k datos fs = refl
bloque_fs-escribir_bloque (suc n) b k datos fs =
    bloque_fs-escribir_bloque n (posicion_en_fat b fs) k datos fs

-- F_READ after F_WRITE, where the offsets of the two blocks fit in 32 bits: a read whose file and
-- pointer lead to the block that was written gives what was written, any other read gives what it
-- gave before.
pub realizar_f_read-realizar_f_write :
    (i k : InstruccionFs) (datos : List ℕ) (fs : Fs)
    → bloque_de_puntero i fs * fs.tamanio_bloque < 2 ^ 32
    → bloque_de_puntero k fs * fs.tamanio_bloque < 2 ^ 32
    → length datos ≡ fs.tamanio_bloque
    → realizar_f_read k (realizar_f_write datos i fs)
      ≡ (if bloque_de_puntero i fs == bloque_de_puntero k fs then datos else realizar_f_read k fs)
unfolding realizar_f_read realizar_f_write valor_fcb conseguir_id_fcb escribir_bloque
realizar_f_read-realizar_f_write i k datos fs hi hk l =
    ap (λ b. leer_bloque b (escribir_bloque (bloque_de_puntero i fs) datos fs))
      (bloque_fs-escribir_bloque (k.puntero / fs.tamanio_bloque)
        (valor_fcb (conseguir_id_fcb k.param1 fs) bloque_inicial fs) (bloque_de_puntero i fs) datos
        fs)
    ∙ leer_bloque-escribir_bloque fs (bloque_de_puntero i fs) (bloque_de_puntero k fs) datos hi hk l
