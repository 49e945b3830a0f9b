-- ===== src/Cpu/Desalojo.antt =====
-- cpu/src/cpu.c: interruptions and the reason for which a process leaves the cpu.
pub mod Motivo
use so_2c_2023_no_me_queme.Base.{
  ℕ, ◌≡◌, ◌<◌, refl, Option, none, some, if◌then◌else◌, Bool, true, false, ◌||◌, not, ◌&&◌,
}
use so_2c_2023_no_me_queme.Shared.Contexto.{
  Contexto, MotivoDesalojo, codigo_motivo, interrupt_fin_quantum, interrupt_fin_proceso,
  interrupt_nuevo_proceso, page_fault_resuelto, syscall,
}
use so_2c_2023_no_me_queme.Shared.Instruccion.{
  NombreInstruccion, nombre, sleep, wait, signal, f_open, f_close, f_seek, f_read, f_write,
  f_truncate, exit,
}
use so_2c_2023_no_me_queme.Cpu.Registro.{Cpu, motivo, con_contexto, menos_uno}

unfoldable pub syscall? : Option NombreInstruccion → Bool
syscall? (some wait) = true
syscall? (some signal) = true
syscall? (some sleep) = true
syscall? (some f_open) = true
syscall? (some f_close) = true
syscall? (some f_read) = true
syscall? (some f_write) = true
syscall? (some f_seek) = true
syscall? (some f_truncate) = true
syscall? (some exit) = true
syscall? _ = false

unfoldable pub es_syscall : Cpu → Bool
unfolding syscall?
es_syscall c = syscall? (nombre c.contexto.codigo_ultima_instru)

unfoldable pub hay_interrupciones : Cpu → Bool
hay_interrupciones c = if c.fin_quantum || (c.fin_proceso || c.nuevo_proceso) then true else false

unfoldable pub obtener_motivo_desalojo : Cpu → Cpu
obtener_motivo_desalojo c =
    if c.page_fault
    then motivo (codigo_motivo MotivoDesalojo.page_fault) c
    else if es_syscall c
    then motivo (codigo_motivo syscall) c
    else if c.fin_quantum
    then motivo (codigo_motivo interrupt_fin_quantum) c
    else if c.fin_proceso
    then motivo (codigo_motivo interrupt_fin_proceso) c
    else if c.nuevo_proceso
    then motivo (codigo_motivo interrupt_nuevo_proceso) c
    else c

unfoldable pub limpiar_interrupciones : Cpu → Cpu
limpiar_interrupciones c = record c {
  fin_quantum = false;
  fin_proceso = false;
  nuevo_proceso = false;
  page_fault = false;
}

-- The body of `recibir_interrupt` once a message is read; `none` is `abort`. Without a current
-- context (`activo` false) the message is dropped.
unfoldable pub recibir_interrupt : Bool → MotivoDesalojo → Cpu → Option Cpu
recibir_interrupt false m c = some c
recibir_interrupt true interrupt_fin_quantum c = some (record c { fin_quantum = true })
recibir_interrupt true interrupt_fin_proceso c =
    some (if c.descartar_instruccion then c else record c { fin_proceso = true })
recibir_interrupt true interrupt_nuevo_proceso c = some (record c { nuevo_proceso = true })
recibir_interrupt true _ c = none

-- The reception of a context: the code of the last instruction is reset.
unfoldable pub cargar_contexto : Contexto → Cpu → Cpu
cargar_contexto x c = record c { contexto = record x { codigo_ultima_instru = menos_uno } }

-- The condition of the loop over the instruction cycle.
unfoldable pub sigue : Cpu → Bool
sigue c = not (es_syscall c) && (not (hay_interrupciones c) && not c.page_fault)
