-- ===== src/Memoria/Servidor.antt =====
-- memoria/src/memoria.c: `manejo_conexion_cpu`, `manejo_conexion_filesystem_ops` and the cases
-- INICIALIZAR_PROCESO and FINALIZAR_PROCESO of `manejo_conexion_kernel`. `none` is a null pointer.
pub mod Parecido
pub mod Invariante
pub mod Alcance
use so_2c_2023_no_me_queme.Base.{ℕ, ◌^◌, ◌≡◌, Option, none, some, List, [], ◌∷◌, ltb, if◌then◌else◌}
use so_2c_2023_no_me_queme.Base.Opt.{◌>>=◌}
use so_2c_2023_no_me_queme.Shared.Instruccion.{Instruccion}
use so_2c_2023_no_me_queme.Memoria.Estado.{Proceso, Memoria}
use so_2c_2023_no_me_queme.Memoria.Usuario.{
  obtener_proceso_pid, escribir_memoria_cpu, leer_memoria_cpu, leer_memoria_fs, escribir_memoria_fs,
}
use so_2c_2023_no_me_queme.Memoria.Procesos.{
  obtener_instruccion_pid_pc, obtener_marco_pid, iniciar_proceso_path, asignar_id_bloque_swap,
  inicializar_estructuras_memoria_nuevo_proceso, obtener_lista_id_bloque_swap,
  eliminar_proceso_memoria,
}
use so_2c_2023_no_me_queme.Memoria.Fallo.{Swap, atender_page_fault}

-- The requests of the cpu, with the fields of each packet.
pub data PedidoCpu : Type 0 where
  pedido_instruccion : ℕ → ℕ → PedidoCpu
  pedido_marco : ℕ → ℕ → PedidoCpu
  mov_out_cpu : ℕ → ℕ → PedidoCpu
  mov_in_cpu : ℕ → PedidoCpu

-- `nada`: the case sends no packet.
pub data RespuestaCpu : Type 0 where
  una_instruccion : Instruccion → RespuestaCpu
  un_marco : ℕ → RespuestaCpu
  marco_page_fault : RespuestaCpu
  valor_mov_in : ℕ → RespuestaCpu
  nada : RespuestaCpu

-- `marco > -1` of an `int`; -1 is the page fault.
unfoldable pub respuesta_marco : Option ℕ → RespuestaCpu
respuesta_marco none = marco_page_fault
respuesta_marco (some marco) = if ltb marco (2 ^ 31) then un_marco marco else marco_page_fault

-- The log of an instruction reads it before the test that it is not NULL.
unfoldable pub responder_instruccion :
    Option Proceso → ℕ → ℕ → Memoria → Option (RespuestaCpu × Memoria)
responder_instruccion none pid pc m = some (nada, m)
responder_instruccion (some p) pid pc m = do
  instruccion_pedida ← obtener_instruccion_pid_pc pid pc m
  some (una_instruccion instruccion_pedida, m)

unfoldable pub atender_cpu : PedidoCpu → Memoria → Option (RespuestaCpu × Memoria)
unfolding responder_instruccion
atender_cpu (pedido_instruccion pid pc) m =
    responder_instruccion (obtener_proceso_pid pid m) pid pc m
atender_cpu (pedido_marco pid index) m = do
  marco ← obtener_marco_pid pid index m
  some (respuesta_marco marco, m)
atender_cpu (mov_out_cpu valor dir_fisica) m = do
  m' ← escribir_memoria_cpu dir_fisica valor m
  some (nada, m')
atender_cpu (mov_in_cpu df) m = do
  (valor_leido, m') ← leer_memoria_cpu df m
  some (valor_mov_in valor_leido, m')

-- The requests of the filesystem: F_WRITE reads a page, F_READ writes one.
pub data PedidoFs : Type 0 where
  f_write_fs : ℕ → PedidoFs
  f_read_fs : ℕ → List ℕ → PedidoFs

pub data RespuestaFs : Type 0 where
  pagina_leida : List ℕ → RespuestaFs
  f_read_ok : RespuestaFs

unfoldable pub atender_fs : PedidoFs → Memoria → Option (RespuestaFs × Memoria)
atender_fs (f_write_fs direc_fisica) m = do
  (bloque, m') ← leer_memoria_fs direc_fisica m
  some (pagina_leida bloque, m')
atender_fs (f_read_fs direc_fisica bloque) m = do
  m' ← escribir_memoria_fs direc_fisica bloque m
  some (f_read_ok, m')

-- What memoria asks of the filesystem for the life of a process: swap blocks, and to take them
-- back. `none` is an answer with another operation code.
pub record Reservas (S : Type 0) : Type 0 where
  pub reservar : ℕ → S → Option (List ℕ) × S
  pub liberar : List ℕ → S → S

unfoldable pub con_bloques : Option (List ℕ) → Proceso → Memoria → Memoria
con_bloques none p m = m
con_bloques (some bloques_reservados) p m = record m {
  entradas = asignar_id_bloque_swap p.entradas_tabla bloques_reservados m.entradas;
}

module _ {S : Type 0} (rs : Reservas S) where
  -- `instrucciones` is what `parsear_instrucciones` reads from the path of the process.
  unfoldable pub atender_inicio : List Instruccion → Proceso → Memoria → S → Memoria × S
  atender_inicio instrucciones p m s =
      let con_tabla = inicializar_estructuras_memoria_nuevo_proceso p m in
      let (m', q_pags) = iniciar_proceso_path instrucciones p m in
      let (bloques_reservados, s') = rs.reservar q_pags s in
      (con_bloques bloques_reservados con_tabla.0 m', s')

  unfoldable pub atender_fin : ℕ → Memoria → S → Option (Memoria × S)
  atender_fin pid m s = do
    p ← obtener_proceso_pid pid m
    ids ← obtener_lista_id_bloque_swap m.entradas p.entradas_tabla
    m' ← eliminar_proceso_memoria p m
    some (m', rs.liberar ids s)

-- The requests that the threads of memoria serve while processes run, in any order.
module _ {S : Type 0} (sw : Swap S) where
  pub data Atiende (m : Memoria) (s : S) : Memoria → S → Type 0 where
    cpu :
        (p : PedidoCpu) {r : RespuestaCpu} {m' : Memoria}
        → atender_cpu p m ≡ some (r, m')
        → Atiende m s m' s
    fs :
        (p : PedidoFs) {r : RespuestaFs} {m' : Memoria}
        → atender_fs p m ≡ some (r, m')
        → Atiende m s m' s
    page_fault :
        (pid nro_pag : ℕ) {m' : Memoria} {s' : S}
        → atender_page_fault sw pid nro_pag m s ≡ some (m', s')
        → Atiende m s m' s'
    otros : {s' : S} → Atiende m s m s'

  pub data Atendidos (m : Memoria) (s : S) : Memoria → S → Type 0 where
    ninguno : Atendidos m s m s
    luego :
        {m' m'' : Memoria} {s' s'' : S}
        → Atendidos m s m' s'
        → Atiende m' s' m'' s''
        → Atendidos m s m'' s''
