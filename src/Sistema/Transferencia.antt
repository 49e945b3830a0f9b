-- ===== src/Sistema/Transferencia.antt =====
-- filesystem/src/filesystem.c: `hilo_f_write`, `hilo_f_read` and the switch of
-- `comunicacion_kernel`; F_WRITE and F_READ ask memoria (memoria/src/memoria.c,
-- `manejo_conexion_filesystem_ops`) for the page. `none` is a null pointer in memoria.
use so_2c_2023_no_me_queme.Base.{
  ◌+◌, ◌≤◌, true, ℕ, ◌*◌, ◌^◌, ◌<◌, ◌≡◌, ap, sym, ◌∙◌, Option, none, some, List, length, ◌==◌,
  arith, if◌then◌else◌,
}
use so_2c_2023_no_me_queme.Base.Opt.{◌>>=◌}
use mathlib.Core.Path.{subst}
use so_2c_2023_no_me_queme.Base.Copia.{copiar_de}
use so_2c_2023_no_me_queme.Shared.Cadena.{atoi}
use so_2c_2023_no_me_queme.Shared.Instruccion.{
  InstruccionFs, NombreInstruccion, nombre, f_open, f_create, f_close, f_read, f_write, f_truncate,
}
use so_2c_2023_no_me_queme.Memoria.Estado.{Memoria, Marco}
use so_2c_2023_no_me_queme.Memoria.Paginas.{
  actualizo_entrada_para_futuro_reemplazo, actualizo-SoloUso,
}
use so_2c_2023_no_me_queme.Memoria.Usuario.{
  dentro, marco_desde_df, leer_memoria_fs, escribir_memoria_fs, escribir_pag_en_memoria,
  leer_pagina_para_swapear,
}
use so_2c_2023_no_me_queme.Memoria.Usuario.MovOut.{Mapeada, usar-Mapeada}
use so_2c_2023_no_me_queme.Memoria.Servidor.{
  f_write_fs, f_read_fs, RespuestaFs, pagina_leida, f_read_ok, atender_fs,
}
use so_2c_2023_no_me_queme.Filesystem.Fat.{Fs}
use so_2c_2023_no_me_queme.Filesystem.Fcb.Respuesta.{
  RespFile, f_write_success, f_read_success, hilo_f_open, hilo_f_create, hilo_f_close,
  hilo_f_truncate, realizar_f_write, realizar_f_read, bloque_de_puntero,
}
use so_2c_2023_no_me_queme.Filesystem.Fcb.Lectura.{realizar_f_read-realizar_f_write}
use so_2c_2023_no_me_queme.Sistema.Paginacion.{length-copiar_de, leer-escribir_pag}

-- An answer with another operation code writes nothing.
unfoldable pub escribir_recibida : RespuestaFs → InstruccionFs → Fs → Fs
escribir_recibida (pagina_leida bloque_a_escribir) i fs = realizar_f_write bloque_a_escribir i fs
escribir_recibida f_read_ok i fs = fs

unfoldable pub hilo_f_write : InstruccionFs → Fs → Memoria → Option (RespFile × Fs × Memoria)
hilo_f_write i fs m = do
  (respuesta, m') ← atender_fs (f_write_fs (atoi i.param2)) m
  some (f_write_success, escribir_recibida respuesta i fs, m')

unfoldable pub hilo_f_read : InstruccionFs → Fs → Memoria → Option (RespFile × Fs × Memoria)
hilo_f_read i fs m = do
  (respuesta, m') ← atender_fs (f_read_fs (atoi i.param2) (realizar_f_read i fs)) m
  some (f_read_success, fs, m')

-- What goes to the kernel: the answer and the pid of the request; `none` inside is no answer.
abbrev Atendido : Type 0
Atendido = Option (RespFile × ℕ) × Fs × Memoria

abbrev sin_memoria : ℕ → Memoria → RespFile × Fs → Option Atendido
sin_memoria pid m r = some (some (r.0, pid), r.1, m)

abbrev con_memoria : ℕ → RespFile × Fs × Memoria → Option Atendido
con_memoria pid r = some (some (r.0, pid), r.1, r.2)

unfoldable pub atender_instruccion_fs :
    Option NombreInstruccion → InstruccionFs → Fs → Memoria → Option Atendido
atender_instruccion_fs (some f_open) i fs m = sin_memoria i.pid m (hilo_f_open i fs)
atender_instruccion_fs (some f_create) i fs m = sin_memoria i.pid m (hilo_f_create i fs)
atender_instruccion_fs (some f_close) i fs m = sin_memoria i.pid m (hilo_f_close i fs)
atender_instruccion_fs (some f_truncate) i fs m =
    sin_memoria i.pid m (hilo_f_truncate (atoi i.param2) i fs)
atender_instruccion_fs (some f_write) i fs m = hilo_f_write i fs m >>= con_memoria i.pid
atender_instruccion_fs (some f_read) i fs m = hilo_f_read i fs m >>= con_memoria i.pid
atender_instruccion_fs _ i fs m = some (none, fs, m)

-- One request of the kernel, its thread run to its end.
unfoldable pub comunicacion_kernel : InstruccionFs → Fs → Memoria → Option Atendido
comunicacion_kernel i fs m = atender_instruccion_fs (nombre i.estado) i fs m

-- A page of memoria goes to a block of the file.
f_write-Mapeada :
    (i : InstruccionFs) (fs : Fs) (m : Memoria) (d : Mapeada (atoi i.param2) m)
    → dentro (atoi i.param2) m.tamanio_pagina m ≡ true
    → hilo_f_write i fs m
      ≡ some (
        f_write_success,
        realizar_f_write (copiar_de m.memoria_usuario (atoi i.param2) m.tamanio_pagina) i fs,
        actualizo_entrada_para_futuro_reemplazo d.pagina d.entrada m,
      )
unfolding hilo_f_write atender_fs leer_memoria_fs escribir_recibida
f_write-Mapeada i fs m d w = simp (w, usar-Mapeada (atoi i.param2) m d)

f_read_lem :
    (k : InstruccionFs) (fs : Fs) (m : Memoria) (marco : Marco)
    → marco_desde_df (atoi k.param2) m ≡ some marco
    → dentro (marco.num_de_marco * m.tamanio_pagina) m.tamanio_pagina m ≡ true
    → hilo_f_read k fs m
      ≡ some
          (f_read_success, fs, escribir_pag_en_memoria (realizar_f_read k fs) marco.num_de_marco m)
unfolding hilo_f_read atender_fs escribir_memoria_fs
f_read_lem k fs m marco h w = simp (h, w)

si_igual : (a b : ℕ) (x y : List ℕ) → a ≡ b → (if a == b then x else y) ≡ x
si_igual a b x y h = ground (arith, h)

-- F_WRITE of the page at an address and then F_READ, with a pointer to the same block of the same
-- file, into the frame of a second address: both are answered with success, and the second frame
-- holds the bytes that stood at the first address. The conditions: a present page of a live process
-- holds the first address, the second lies in a frame of memoria, the page from the first address on
-- and the frame are in the user memory, a page has the size of a block, and the offset of the block
-- fits in 32 bits.
pub hilo_f_read-hilo_f_write :
    (i k : InstruccionFs) (fs : Fs) (m : Memoria) (d : Mapeada (atoi i.param2) m) (marco : Marco)
    → marco_desde_df (atoi k.param2) m ≡ some marco
    → atoi i.param2 + m.tamanio_pagina ≤ m.tamanio_memoria
    → marco.num_de_marco * m.tamanio_pagina + m.tamanio_pagina ≤ m.tamanio_memoria
    → m.tamanio_pagina ≡ fs.tamanio_bloque
    → bloque_de_puntero i fs ≡ bloque_de_puntero k fs
    → bloque_de_puntero i fs * fs.tamanio_bloque < 2 ^ 32
    → (fs' : Fs) × (m' : Memoria) × (m'' : Memoria) × (hilo_f_write i fs m
        ≡ some (f_write_success, fs', m'))
      × (hilo_f_read k fs' m' ≡ some (f_read_success, fs', m''))
      × (leer_pagina_para_swapear marco.num_de_marco m''
          ≡ copiar_de m.memoria_usuario (atoi i.param2) m.tamanio_pagina)
unfolding marco_desde_df
hilo_f_read-hilo_f_write i k fs m d marco hm lugar lugar' tam mismo cabe =
    let datos = copiar_de m.memoria_usuario (atoi i.param2) m.tamanio_pagina in
    let largo = length-copiar_de m.memoria_usuario (atoi i.param2) m.tamanio_pagina in
    let fs' = realizar_f_write datos i fs in
    let m' = actualizo_entrada_para_futuro_reemplazo d.pagina d.entrada m in
    let u = actualizo-SoloUso d.pagina d.entrada m in
    let leido : realizar_f_read k fs' ≡ datos =
      realizar_f_read-realizar_f_write i k datos fs cabe
        (subst (λ b. b * fs.tamanio_bloque < 2 ^ 32) mismo cabe) (largo ∙ tam)
      ∙ si_igual (bloque_de_puntero i fs) (bloque_de_puntero k fs) datos (realizar_f_read k fs)
          mismo in
    (
      fs',
      m',
      escribir_pag_en_memoria (realizar_f_read k fs') marco.num_de_marco m',
      f_write-Mapeada i fs m d (ground (arith, lugar)),
      f_read_lem k fs' m' marco (rw (u.marcos_ok, u.pagina_ok) hm)
          (rw (u.pagina_ok, u.tamanio_ok) (ground (arith, lugar'))),
      leer-escribir_pag (realizar_f_read k fs') marco.num_de_marco m'
            (ap length leido ∙ largo ∙ sym u.pagina_ok)
          ∙ leido,
    )
