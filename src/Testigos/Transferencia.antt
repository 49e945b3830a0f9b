-- ===== src/Testigos/Transferencia.antt =====
-- F_WRITE of the page at address 0 and F_READ into the frame of address 4.
use so_2c_2023_no_me_queme.Base.{ℕ, ◌≡◌, refl, some, [], ◌∷◌, arith}
use so_2c_2023_no_me_queme.Base.{bytes_eq}
use so_2c_2023_no_me_queme.Base.Copia.{copiar_de}
use so_2c_2023_no_me_queme.Shared.Cadena.{
  atoi, cadena, strtoul, sin_espacios, es_espacio, con_signo, numero, digitos, es_digito,
}
use so_2c_2023_no_me_queme.Shared.Instruccion.{InstruccionFs}
use so_2c_2023_no_me_queme.Memoria.Estado.{Marco, Memoria, libre}
use so_2c_2023_no_me_queme.Memoria.Usuario.{
  marco_desde_df, obtener_proceso_pid, obtener_entrada_con_marco, leer_pagina_para_swapear,
}
use so_2c_2023_no_me_queme.Memoria.Usuario.MovOut.{Mapeada}
use so_2c_2023_no_me_queme.Filesystem.Fat.{Fs}
use so_2c_2023_no_me_queme.Filesystem.Fcb.{
  bloque_fs, valor_fcb, _get_fcb_id, conseguir_id_fcb, id_en,
}
use so_2c_2023_no_me_queme.Filesystem.Fcb.Respuesta.{
  bloque_de_puntero, f_write_success, f_read_success,
}
use so_2c_2023_no_me_queme.Sistema.Transferencia.{
  hilo_f_write, hilo_f_read, hilo_f_read-hilo_f_write,
}
use so_2c_2023_no_me_queme.Testigos.Memoria.{memoria, proceso, entrada0}

abbrev fs : Fs
fs = record {
  tamanio_bloque = 4;
  tamanio_fat = 4;
  fat = 0 ∷ 1 ∷ 0 ∷ [];
  basura = 0;
  lista_fcb =
      record { nombre_archivo = 97 ∷ []; id = 0; tamanio_archivo = 4; bloque_inicial = 1 } ∷ [];
  archivo_bloques = λ j. 3;
}

-- The file a, its first block, and the address in the text.
abbrev pedido : ℕ → ℕ → InstruccionFs
pedido estado direccion = record {
  estado = estado;
  pid = 1;
  param1_length = 2;
  param1 = 97 ∷ 0 ∷ [];
  param2_length = 2;
  param2 = direccion ∷ 0 ∷ [];
  puntero = 0;
}

abbrev escribe : InstruccionFs
escribe = pedido 14 b'0'

abbrev lee : InstruccionFs
lee = pedido 13 b'4'

desde : atoi escribe.param2 ≡ 0
unfolding atoi cadena strtoul sin_espacios es_espacio con_signo numero digitos es_digito
desde = refl

mapeada : Mapeada (atoi escribe.param2) memoria
unfolding marco_desde_df obtener_proceso_pid obtener_entrada_con_marco atoi cadena strtoul
    sin_espacios es_espacio con_signo numero digitos es_digito
mapeada = record {
  marco = record { pid = 1; num_de_marco = 0 };
  proceso = proceso;
  pagina = 0;
  entrada = entrada0;
  marco_ok = refl;
  proceso_ok = refl;
  pagina_ok = refl;
  entrada_ok = refl;
  indice_ok = refl;
}

abbrev destino : Marco
destino = record { pid = libre; num_de_marco = 1 }

hasta : marco_desde_df (atoi lee.param2) memoria ≡ some destino
unfolding marco_desde_df atoi cadena strtoul sin_espacios es_espacio con_signo numero digitos
    es_digito
hasta = refl

bloque_de_a : bloque_de_puntero escribe fs ≡ 1
unfolding bloque_fs valor_fcb _get_fcb_id conseguir_id_fcb id_en cadena bytes_eq
bloque_de_a = refl

hilo_f_read-hilo_f_write_example :
    (fs' : Fs) × (m' : Memoria) × (m'' : Memoria) × (hilo_f_write escribe fs memoria
      ≡ some (f_write_success, fs', m'))
    × (hilo_f_read lee fs' m' ≡ some (f_read_success, fs', m''))
    × (leer_pagina_para_swapear 1 m'' ≡ copiar_de memoria.memoria_usuario (atoi escribe.param2) 4)
hilo_f_read-hilo_f_write_example =
    hilo_f_read-hilo_f_write escribe lee fs memoria mapeada destino hasta (omega (arith, desde))
      (omega arith) refl refl (omega (arith, bloque_de_a))
