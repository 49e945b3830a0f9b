-- ===== src/Filesystem/Fcb/Respuesta.antt =====
-- filesystem/src/filesystem.c: what each request of the kernel does and what it answers
-- (`hilo_f_open`, `hilo_f_create`, `hilo_f_close`, `hilo_f_truncate`, `realizar_f_read`,
-- `realizar_f_write`).
use so_2c_2023_no_me_queme.Base.{ℕ, ◌/◌, List, ◌==◌, if◌then◌else◌}
use so_2c_2023_no_me_queme.Shared.Instruccion.{InstruccionFs}
use so_2c_2023_no_me_queme.Filesystem.Fat.{Fs, menos_uno, leer_bloque, escribir_bloque}
use so_2c_2023_no_me_queme.Filesystem.Fcb.{
  conseguir_id_fcb, crear_fcb, truncar_fcb, valor_fcb, bloque_inicial, bloque_fs,
}

-- `t_resp_file`
pub data RespFile : Type 0 where
  f_error f_open_success f_close_success f_truncate_success f_write_success f_seek_success
        f_read_success f_create_success file_doesnt_exists :
      RespFile

abbrev pub codigo_resp : RespFile → ℕ
codigo_resp f_error = 0
codigo_resp f_open_success = 1
codigo_resp f_close_success = 2
codigo_resp f_truncate_success = 3
codigo_resp f_write_success = 4
codigo_resp f_seek_success = 5
codigo_resp f_read_success = 6
codigo_resp f_create_success = 7
codigo_resp file_doesnt_exists = 8

unfoldable pub hilo_f_open : InstruccionFs → Fs → RespFile × Fs
hilo_f_open i fs =
    (if conseguir_id_fcb i.param1 fs == menos_uno then file_doesnt_exists else f_open_success, fs)

unfoldable pub hilo_f_create : InstruccionFs → Fs → RespFile × Fs
hilo_f_create i fs =
    let (id, fs') = crear_fcb i.param1 fs in
    (if id == menos_uno then f_error else f_create_success, fs')

unfoldable pub hilo_f_close : InstruccionFs → Fs → RespFile × Fs
hilo_f_close i fs =
    (if conseguir_id_fcb i.param1 fs == menos_uno then f_error else f_close_success, fs)

-- `tamanio` is `atoi(param2)`.
unfoldable pub hilo_f_truncate : ℕ → InstruccionFs → Fs → RespFile × Fs
hilo_f_truncate tamanio i fs =
    let (resultado, fs') = truncar_fcb i.param1 tamanio fs in
    (if resultado == menos_uno then f_error else f_truncate_success, fs')

abbrev pub bloque_de_puntero : InstruccionFs → Fs → ℕ
bloque_de_puntero i fs =
    bloque_fs (i.puntero / fs.tamanio_bloque)
      (valor_fcb (conseguir_id_fcb i.param1 fs) bloque_inicial fs) fs

-- `bloque_a_escribir` is what memoria sends back.
unfoldable pub realizar_f_write : List ℕ → InstruccionFs → Fs → Fs
realizar_f_write bloque_a_escribir i fs =
    escribir_bloque (bloque_de_puntero i fs) bloque_a_escribir fs

-- The block that goes to memoria.
unfoldable pub realizar_f_read : InstruccionFs → Fs → List ℕ
realizar_f_read i fs = leer_bloque (bloque_de_puntero i fs) fs
