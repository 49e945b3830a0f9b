-- ===== src/Shared/Contexto.antt =====
-- shared/src/shared_utils.c: the execution context that kernel and cpu pass to one another
-- (`serializar_contexto`, `recibir_contexto`).
use so_2c_2023_no_me_queme.Base.{ℕ, ◌+◌, ◌*◌, ◌%◌, ◌^◌, ◌<◌, Option, some, List, ◌++◌, take}
use so_2c_2023_no_me_queme.Base.Opt.{◌>>=◌}
use so_2c_2023_no_me_queme.Shared.Paquete.{Paquete}
use so_2c_2023_no_me_queme.Shared.Bytes.{int_max, bytes_int, leer_int, leer_bytes}
use so_2c_2023_no_me_queme.Shared.Instruccion.{Instruccion, IsInstruccion}

-- `t_registros`
pub record Registros : Type 0 where
  pub ax : ℕ
  pub bx : ℕ
  pub cx : ℕ
  pub dx : ℕ

-- `motivo_desalojo`
pub data MotivoDesalojo : Type 0 where
  interrupt_fin_quantum interrupt_fin_proceso interrupt_nuevo_proceso syscall page_fault
        page_fault_resuelto :
      MotivoDesalojo

abbrev pub codigo_motivo : MotivoDesalojo → ℕ
codigo_motivo interrupt_fin_quantum = 0
codigo_motivo interrupt_fin_proceso = 1
codigo_motivo interrupt_nuevo_proceso = 2
codigo_motivo syscall = 3
codigo_motivo page_fault = 4
codigo_motivo page_fault_resuelto = 5

-- `t_contexto_ejecucion`; an `int` is its bit pattern, and an enum its code.
pub record Contexto : Type 0 where
  pub pid : ℕ
  pub program_counter : ℕ
  pub registros : Registros
  pub numero_marco : ℕ
  pub nro_pf : ℕ
  pub instruccion_ejecutada : Instruccion
  pub codigo_ultima_instru : ℕ
  pub motivo_desalojado : ℕ

pub record IsContexto (c : Contexto) : Type 0 where
  pub pid_ok : c.pid < int_max
  pub pc_ok : c.program_counter < int_max
  pub ax_ok : c.registros.ax < int_max
  pub bx_ok : c.registros.bx < int_max
  pub cx_ok : c.registros.cx < int_max
  pub dx_ok : c.registros.dx < int_max
  pub marco_ok : c.numero_marco < int_max
  pub pf_ok : c.nro_pf < int_max
  pub instruccion_ok : IsInstruccion c.instruccion_ejecutada
  pub ultima_ok : c.codigo_ultima_instru < int_max
  pub motivo_ok : c.motivo_desalojado < int_max

-- `memcpy` of a `t_registros`: four 32-bit fields in order.
bytes_registros : Registros → List ℕ
bytes_registros r = bytes_int r.ax ++ (bytes_int r.bx ++ (bytes_int r.cx ++ bytes_int r.dx))

leer_registros : List ℕ → Option (Registros × List ℕ)
leer_registros buffer = do
  (ax, r1) ← leer_int buffer
  (bx, r2) ← leer_int r1
  (cx, r3) ← leer_int r2
  (dx, r4) ← leer_int r3
  some (record { ax = ax; bx = bx; cx = cx; dx = dx }, r4)

bytes_contexto : Contexto → List ℕ
bytes_contexto ctx =
    bytes_int ctx.pid
    ++ (bytes_int ctx.program_counter
        ++ (bytes_registros ctx.registros
            ++ (bytes_int ctx.numero_marco
                ++ (bytes_int ctx.nro_pf
                    ++ (bytes_int i.codigo_inst
                        ++ (bytes_int i.longitud_parametro1
                            ++ (bytes_int i.longitud_parametro2
                                ++ (take i.longitud_parametro1 i.parametro1
                                    ++ (take i.longitud_parametro2 i.parametro2
                                        ++ (bytes_int ctx.codigo_ultima_instru
                                            ++ bytes_int ctx.motivo_desalojado))))))))))
  where
    open ctx use {instruccion_ejecutada as i}

pub serializar_contexto : Paquete → Contexto → Paquete
unfolding bytes_contexto
serializar_contexto paquete ctx = record paquete {
  buffer = record {
    size =
        (4 * 4
          + 16
          + 4
          + 4 * 2
          + ctx.instruccion_ejecutada.longitud_parametro1
          + ctx.instruccion_ejecutada.longitud_parametro2
          + 4
          + 4)
        % 2 ^ 32;
    stream = bytes_contexto ctx;
  };
}

-- The instruction's own pid is not on the wire: it is what `malloc` left, here an argument.
pub recibir_contexto : ℕ → List ℕ → Option Contexto
unfolding leer_registros
recibir_contexto basura buffer = do
  (pid, r1) ← leer_int buffer
  (pc, r2) ← leer_int r1
  (registros, r3) ← leer_registros r2
  (marco, r4) ← leer_int r3
  (pf, r5) ← leer_int r4
  (cod, r6) ← leer_int r5
  (l1, r7) ← leer_int r6
  (l2, r8) ← leer_int r7
  (p1, r9) ← leer_bytes l1 r8
  (p2, r10) ← leer_bytes l2 r9
  (ultima, r11) ← leer_int r10
  (motivo, r12) ← leer_int r11
  some (record {
    pid = pid;
    program_counter = pc;
    registros = registros;
    numero_marco = marco;
    nro_pf = pf;
    instruccion_ejecutada = record {
      codigo_inst = cod;
      pid = basura;
      parametro1 = p1;
      longitud_parametro1 = l1;
      parametro2 = p2;
      longitud_parametro2 = l2;
    };
    codigo_ultima_instru = ultima;
    motivo_desalojado = motivo;
  })
