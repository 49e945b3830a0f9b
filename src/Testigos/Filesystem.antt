-- ===== src/Testigos/Filesystem.antt =====
-- Concrete inputs of the theorems on filesystem/.
use so_2c_2023_no_me_queme.Base.{
  ℕ, ◌+◌, ◌≡◌, refl, some, List, [], ◌∷◌, ◌==◌, if◌then◌else◌, length, false, arith,
}
use so_2c_2023_no_me_queme.Base.{bytes_eq}
use so_2c_2023_no_me_queme.Shared.Cadena.{strcmp_eq, cadena}
use so_2c_2023_no_me_queme.Filesystem.Swap.{
  AreaSwap, menos_uno, lista_bloques_swap_reservados, liberar_bloques_swap,
}
use so_2c_2023_no_me_queme.Filesystem.Swap.Reserva.{
  libres, Libres, Distintos, liberar-lista_bloques_swap_reservados,
}
use so_2c_2023_no_me_queme.Filesystem.Fat.{Fcb, Fs, leer_bloque, escribir_bloque}
use so_2c_2023_no_me_queme.Filesystem.Fat.Bloques.{leer_bloque-escribir_bloque}
use so_2c_2023_no_me_queme.Filesystem.Fat.Ocupados.{Ocupado}
use so_2c_2023_no_me_queme.Filesystem.Fcb.{crear_fcb, conseguir_id_fcb, truncar_fcb}
use so_2c_2023_no_me_queme.Filesystem.Fcb.Truncar.{truncar_fcb-Ocupado}
use so_2c_2023_no_me_queme.Filesystem.Fcb.Crear.{Numerada, SinNombre, conseguir_id_fcb-crear_fcb}
use so_2c_2023_no_me_queme.Shared.Instruccion.{InstruccionFs}
use so_2c_2023_no_me_queme.Filesystem.Fcb.{
  soltar, desasignar_bloques, valor_fcb, bloque_inicial, bloque_fs, _get_fcb_id, id_en,
}
use so_2c_2023_no_me_queme.Filesystem.Fcb.Combustible.{desasignar_bloques-soltar}
use so_2c_2023_no_me_queme.Filesystem.Fcb.Respuesta.{
  realizar_f_read, realizar_f_write, bloque_de_puntero,
}
use so_2c_2023_no_me_queme.Filesystem.Fcb.Lectura.{realizar_f_read-realizar_f_write}

abbrev area : AreaSwap
area = record {
  tamanio_bloque = 2;
  tamanio_fat = 4;
  bloques_swap = 3;
  swap = [];
  archivo_bloques = λ j. 0;
}

abbrev tabla : List ℕ
tabla = menos_uno ∷ 1 ∷ menos_uno ∷ []

liberar-lista_bloques_swap_reservados_example :
    (l : List ℕ) × (swap' : List ℕ) × (lista_bloques_swap_reservados 2 tabla ≡ some (l, swap'))
    × (length l ≡ 2)
    × Libres l tabla
    × Distintos l
    × (libres swap' + 2 ≡ libres tabla)
    × (liberar_bloques_swap l swap' ≡ tabla)
liberar-lista_bloques_swap_reservados_example =
    liberar-lista_bloques_swap_reservados 2 tabla (omega arith)

abbrev archivo : Fcb
archivo = record { nombre_archivo = 97 ∷ []; id = 0; tamanio_archivo = 2; bloque_inicial = 1 }

abbrev fs : Fs
fs = record {
  tamanio_bloque = 2;
  tamanio_fat = 4;
  fat = 0 ∷ 1 ∷ 0 ∷ [];
  basura = 0;
  lista_fcb = archivo ∷ [];
  archivo_bloques = λ j. 0;
}

leer_bloque-escribir_bloque_example :
    leer_bloque 2 (escribir_bloque 2 (8 ∷ 9 ∷ []) fs)
    ≡ (if 2 == 2 then 8 ∷ 9 ∷ [] else leer_bloque 2 fs)
leer_bloque-escribir_bloque_example =
    leer_bloque-escribir_bloque fs 2 2 (8 ∷ 9 ∷ []) (omega arith) (omega arith) refl

truncar_fcb-Ocupado_example : Ocupado 1 (truncar_fcb (97 ∷ []) 0 fs).1.fat
truncar_fcb-Ocupado_example = truncar_fcb-Ocupado 1 (97 ∷ []) 0 fs (1, refl, (λ e. omega arith))

sin_nombre : SinNombre (98 ∷ []) fs.lista_fcb
unfolding cadena bytes_eq
sin_nombre = (refl, tt)

conseguir_id_fcb-crear_fcb_example :
    (fs' : Fs) × (crear_fcb (98 ∷ []) fs ≡ (length fs.lista_fcb, fs'))
    × (conseguir_id_fcb (98 ∷ []) fs' ≡ length fs.lista_fcb)
    × ((otro : List ℕ)
        → strcmp_eq (98 ∷ []) otro ≡ false
        → conseguir_id_fcb otro fs' ≡ conseguir_id_fcb otro fs)
    × Numerada 0 fs'.lista_fcb
    × (fs' ≡ record fs { lista_fcb = fs'.lista_fcb })
conseguir_id_fcb-crear_fcb_example = conseguir_id_fcb-crear_fcb (98 ∷ []) fs sin_nombre (refl, tt)

desasignar_bloques-soltar_example :
    soltar (1 + 3) 0 (valor_fcb 0 bloque_inicial fs) 0 1 fs ≡ desasignar_bloques 0 1 fs
desasignar_bloques-soltar_example = desasignar_bloques-soltar 3 0 1 fs (omega arith) (omega arith)

-- The first byte of the file a.
abbrev escribir_a : InstruccionFs
escribir_a = record {
  estado = 14;
  pid = 1;
  param1_length = 2;
  param1 = 97 ∷ 0 ∷ [];
  param2_length = 2;
  param2 = 48 ∷ 0 ∷ [];
  puntero = 0;
}

-- The file is in block 1.
bloque_de_a : bloque_de_puntero escribir_a fs ≡ 1
unfolding bloque_fs valor_fcb _get_fcb_id conseguir_id_fcb id_en cadena bytes_eq
bloque_de_a = refl

realizar_f_read-realizar_f_write_example :
    realizar_f_read escribir_a (realizar_f_write (8 ∷ 9 ∷ []) escribir_a fs) ≡ (
      if bloque_de_puntero escribir_a fs == bloque_de_puntero escribir_a fs
      then 8 ∷ 9 ∷ []
      else realizar_f_read escribir_a fs)
realizar_f_read-realizar_f_write_example =
    realizar_f_read-realizar_f_write escribir_a escribir_a (8 ∷ 9 ∷ []) fs
      (omega (arith, bloque_de_a)) (omega (arith, bloque_de_a)) refl
