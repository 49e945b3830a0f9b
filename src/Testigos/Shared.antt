-- ===== src/Testigos/Shared.antt =====
-- Concrete inputs of the theorems on shared/.
use so_2c_2023_no_me_queme.Base.{◌≡◌, refl, some, [], ◌∷◌, ◌++◌, ◌*◌, arith}
use so_2c_2023_no_me_queme.Shared.Paquete.{
  Paquete, enviar_paquete, recibir_mensaje_completo, recibir-enviar_paquete, recibir_con,
}
use so_2c_2023_no_me_queme.Shared.Lista.{
  serializar_lista_swap, recibir_listado_id_bloques, recibir_listado-serializar_lista_swap,
}
use so_2c_2023_no_me_queme.Shared.Instruccion.{Instruccion, InstruccionFs}
use so_2c_2023_no_me_queme.Shared.Contexto.{Contexto}
use so_2c_2023_no_me_queme.Shared.Mensajes.{
  codigo_op, marco, recibir_pedido_marco, enviar_pedido_marco, recibir_proceso_nuevo,
  serializar_pedido_proceso_nuevo, pedidos_llegan, recibir-serializar_pedido_proceso_nuevo,
  pedido_instruccion, mov_out_cpu, page_fault_kernel, interrupcion, recibir_pedido_instruccion,
  ask_instruccion_pid_pc, recibir_mov_out_cpu, enviar_mov_out, recibir_pf_kernel, enviar_pf,
  recibir_interrupcion, enviar_interrupcion,
}

abbrev paquete : Paquete
paquete = record { codigo_operacion = 7; buffer = record { size = 2; stream = 10 ∷ 20 ∷ [] } }

recibir-enviar_paquete_example :
    recibir_mensaje_completo (enviar_paquete paquete ++ (9 ∷ [])) ≡ some (7, 10 ∷ 20 ∷ [], 9 ∷ [])
recibir-enviar_paquete_example =
    recibir-enviar_paquete paquete (9 ∷ [])
      (record { codigo_ok = omega arith; size_ok = omega arith; stream_ok = refl })

abbrev vacio : Paquete
vacio = record { codigo_operacion = 3; buffer = record { size = 0; stream = [] } }

recibir_listado-serializar_lista_swap_example :
    (recibir_listado_id_bloques (serializar_lista_swap (4 ∷ 300 ∷ []) vacio).buffer.stream
      ≡ some (4 ∷ 300 ∷ []))
    × ((serializar_lista_swap (4 ∷ 300 ∷ []) vacio).buffer.size ≡ 4 * 2)
recibir_listado-serializar_lista_swap_example =
    recibir_listado-serializar_lista_swap (4 ∷ 300 ∷ []) vacio refl (omega arith, (omega arith, tt))

-- SET AX 5
abbrev instruccion : Instruccion
instruccion = record {
  codigo_inst = 0;
  pid = 1;
  parametro1 = 65 ∷ 88 ∷ 0 ∷ [];
  longitud_parametro1 = 3;
  parametro2 = 53 ∷ 0 ∷ [];
  longitud_parametro2 = 2;
}

abbrev instruccion_fs : InstruccionFs
instruccion_fs = record {
  estado = 13;
  pid = 2;
  param1_length = 2;
  param1 = 97 ∷ 0 ∷ [];
  param2_length = 3;
  param2 = 49 ∷ 54 ∷ 0 ∷ [];
  puntero = 64;
}

abbrev contexto : Contexto
contexto = record {
  pid = 1;
  program_counter = 4;
  registros = record { ax = 5; bx = 0; cx = 4294967295; dx = 7 };
  numero_marco = 0;
  nro_pf = 2;
  instruccion_ejecutada = instruccion;
  codigo_ultima_instru = 4294967295;
  motivo_desalojado = 3;
}

pedidos_llegan_example :
    (recibir_con recibir_pedido_marco (enviar_pedido_marco 3 1 ++ [])
      ≡ some (codigo_op marco, (1, 3)))
    × (recibir_con recibir_pedido_instruccion (ask_instruccion_pid_pc 1 3 ++ [])
        ≡ some (codigo_op pedido_instruccion, (1, 3)))
    × (recibir_con recibir_mov_out_cpu (enviar_mov_out 3 1 ++ [])
        ≡ some (codigo_op mov_out_cpu, (1, 3)))
    × (recibir_con recibir_pf_kernel (enviar_pf (codigo_op page_fault_kernel) 3 1 ++ [])
        ≡ some (codigo_op page_fault_kernel, (1, 3)))
    × (recibir_con recibir_interrupcion (enviar_interrupcion 1 3 ++ [])
        ≡ some (codigo_op interrupcion, (1, 3)))
pedidos_llegan_example = pedidos_llegan 1 3 [] (omega arith) (omega arith)

recibir-serializar_pedido_proceso_nuevo_example :
    recibir_con recibir_proceso_nuevo
      (enviar_paquete (serializar_pedido_proceso_nuevo vacio 1 64 (112 ∷ [])) ++ (9 ∷ []))
    ≡ some (3, (1, 64, 112 ∷ 0 ∷ []))
recibir-serializar_pedido_proceso_nuevo_example =
    recibir-serializar_pedido_proceso_nuevo vacio 1 64 (112 ∷ []) (9 ∷ []) (omega arith) refl
      (omega arith) (omega arith) (omega arith)
