-- ===== src/Kernel/Hilos/Ejecucion.antt =====
-- kernel/src/plani.c: `exec_pcb`, the thread that gives the processes to the cpu.
use so_2c_2023_no_me_queme.Base.{
  ℕ, ◌/◌, Option, none, some, List, [], ◌∷◌, ◌++◌, drop, ◌==◌, ltb, if◌then◌else◌, Bool, true, ◌||◌,
}
use so_2c_2023_no_me_queme.Base.Opt.{◌>>=◌}
use so_2c_2023_no_me_queme.Shared.Cadena.{atoi}
use so_2c_2023_no_me_queme.Shared.Contexto.{Contexto, codigo_motivo, syscall, page_fault}
use so_2c_2023_no_me_queme.Shared.Instruccion.{
  NombreInstruccion, nombre, sleep, wait, signal, f_open, f_close, f_seek, f_read, f_write,
  f_truncate, exit,
}
use so_2c_2023_no_me_queme.Kernel.Estado.{
  Kernel, inicio, con_cpu, buscar_pcb, en_pcb, set_pcb_block, replanificar, continuar,
}
use so_2c_2023_no_me_queme.Kernel.Recursos.{a_exit, kwait, ksignal}
use so_2c_2023_no_me_queme.Kernel.Planificador.{elegir_pcb_segun_algoritmo, proceso_admitido}
use so_2c_2023_no_me_queme.Kernel.Archivos.Llamadas.{
  instruccion_de, kf_open, kf_close, kf_seek, kf_read, kf_write, kf_truncate,
}
use so_2c_2023_no_me_queme.Kernel.Hilos.{ksleep}

-- The process that ran goes on when it left the cpu for a system call or a page fault.
unfoldable pub sigue_el_mismo : ℕ → Kernel → Option Bool
sigue_el_mismo pid k = do
  p ← buscar_pcb pid k.lista_global
  let motivo = p.contexto_ejecucion.motivo_desalojado
  some ((motivo == codigo_motivo syscall) || (motivo == codigo_motivo page_fault))

-- A pid of three digits is taken for garbage, and the round ends.
unfoldable pub enviar_a_cpu : Kernel → Option Kernel
enviar_a_cpu k = do
  p ← buscar_pcb k.pcbelegido k.lista_global
  some (
      if ltb 0 (k.pcbelegido / 100)
      then replanificar k
      else record k { a_cpu = k.a_cpu ++ (p.contexto_ejecucion ∷ []); punto = con_cpu })

abbrev pub elegido : ℕ → Kernel → Kernel
elegido pid k = record k { pcbelegido = pid; hay_elegido = true }

module _ (list_sort : (ℕ → ℕ → Bool) → List ℕ → List ℕ) where
  unfoldable pub elegir : Kernel → Option Kernel
  elegir k = do
    (pid, k') ← elegir_pcb_segun_algoritmo list_sort k
    enviar_a_cpu (elegido pid (proceso_admitido pid k'))

  unfoldable pub seguir_o_elegir : Option ℕ → List ℕ → Kernel → Option Kernel
  seguir_o_elegir none [] k = some k
  seguir_o_elegir none (p ∷ ps) k = elegir k
  seguir_o_elegir (some pid) ps k = do
    sigue ← sigue_el_mismo pid k
    let otro = elegir k
    if sigue then enviar_a_cpu (elegido pid k) else otro

  -- A round of `exec_pcb`, behind its two `sem_wait`, up to the answer of the cpu.
  unfoldable pub exec_pcb : Kernel → Option Kernel
  exec_pcb k = seguir_o_elegir k.proceso_en_ejecucion k.lista_ready k

-- The round on a page fault: the thread of `manejar_pf` is created.
unfoldable pub exec_page_fault : ℕ → Kernel → Kernel
exec_page_fault nro_pf k =
    let k1 = set_pcb_block k.pcbelegido k in
    record k1 {
      proceso_en_ejecucion = none;
      cola_exec = drop 1 k1.cola_exec;
      fallos = k1.fallos ++ ((k.pcbelegido, nro_pf) ∷ []);
    }

unfoldable pub exec_default : Kernel → Kernel
exec_default k =
    let k1 = record k {
      cola_exec = drop 1 k.cola_exec;
      lista_ready = k.lista_ready ++ (k.pcbelegido ∷ []);
    } in
    if k1.frenado then k1 else continuar k1

unfoldable pub atender_sleep : Kernel → Option Kernel
atender_sleep k = do i ← instruccion_de k.pcbelegido k; some (ksleep (atoi i.parametro1) k)

unfoldable pub atender_recurso : (List ℕ → Kernel → Option Kernel) → Kernel → Option Kernel
atender_recurso llamada k = do i ← instruccion_de k.pcbelegido k; llamada i.parametro1 k

-- The `switch` on the code of the last instruction.
unfoldable pub atender_syscall : Option NombreInstruccion → Kernel → Option Kernel
atender_syscall (some exit) k = some (a_exit k)
atender_syscall (some sleep) k = atender_sleep k
atender_syscall (some wait) k = atender_recurso kwait k
atender_syscall (some signal) k = atender_recurso ksignal k
atender_syscall (some f_open) k = kf_open k
atender_syscall (some f_close) k = kf_close k
atender_syscall (some f_seek) k = kf_seek k
atender_syscall (some f_read) k = kf_read k
atender_syscall (some f_write) k = kf_write k
atender_syscall (some f_truncate) k = kf_truncate k
atender_syscall _ k = some (exec_default k)

-- The context replaces the one that was sent.
unfoldable pub con_contexto : Contexto → Kernel → Kernel
con_contexto c k = record (en_pcb k.pcbelegido (λ p. record p { contexto_ejecucion = c }) k) {
  proceso_en_ejecucion = some k.pcbelegido;
  punto = inicio;
}

-- The rest of the round, with the context that the cpu sent back.
unfoldable pub exec_recibir : Contexto → Kernel → Option Kernel
exec_recibir c k =
    let c' = record c {
      instruccion_ejecutada = record c.instruccion_ejecutada { pid = k.pcbelegido };
    } in
    let atiende = atender_syscall (nombre c.codigo_ultima_instru) (con_contexto c' k) in
    if c.motivo_desalojado == codigo_motivo page_fault
    then some (exec_page_fault c.nro_pf (con_contexto c k))
    else atiende
