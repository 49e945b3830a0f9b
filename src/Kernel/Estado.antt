-- ===== src/Kernel/Estado.antt =====
-- kernel/src/plani.c and kernel/src/kernel.c: the processes, the queues and the operations on them.
use so_2c_2023_no_me_queme.Base.{
  ℕ, ◌+◌, Option, none, some, List, [], ◌∷◌, ◌++◌, ◌==◌, if◌then◌else◌, Bool,
}
use so_2c_2023_no_me_queme.Shared.Contexto.{Contexto}
use so_2c_2023_no_me_queme.Shared.Instruccion.{InstruccionFs}

-- `estado_proceso`
pub data EstadoProceso : Type 0 where
  new ready exec block finish_exit finish_error : EstadoProceso

-- `recurso_instancia`. `cantidad` is decremented only where it is above 0.
pub record Recurso : Type 0 where
  pub nombre : List ℕ
  pub cantidad : ℕ
  pub colabloqueado : List ℕ

-- `motivo_block`
pub data MotivoBlock : Type 0 where
  recurso_block archivo_block sleep_bn op_filesystem : MotivoBlock

-- `t_archivo_abierto_proceso`. The pointer is the bit pattern of a `uint32_t`.
pub record ArchivoProceso : Type 0 where
  pub nombre_archivo : List ℕ
  pub puntero : ℕ

-- `t_archivo_global`. The lock is a character; the queue holds the pids that wait.
pub record ArchivoGlobal : Type 0 where
  pub nombre_archivo : List ℕ
  pub lock : ℕ
  pub contador : ℕ
  pub colabloqueado : List ℕ

-- The fields of `t_pcb` that the kernel reads, and whether `free` has taken it: a pointer to it then
-- dangles.
pub record Pcb : Type 0 where
  pub pid : ℕ
  pub prioridad : ℕ
  pub contexto_ejecucion : Contexto
  pub estado : EstadoProceso
  pub motivo_block : MotivoBlock
  pub archivos_abiertos : List ArchivoProceso
  pub recurso_instruccion : List ℕ
  pub recursos_asignados : List Recurso
  pub tiempo_ingreso_ready : ℕ
  pub liberado : Bool

-- `t_algoritmo`, as the kernel uses it.
pub data Algoritmo : Type 0 where
  fifo rr prioridades : Algoritmo

-- The messages to memoria that the kernel's threads send.
pub data MensajeMemoria : Type 0 where
  inicializar_proceso : (pid size : ℕ) (path : List ℕ) → MensajeMemoria
  finalizar : (pid : ℕ) → MensajeMemoria
  page_fault_kernel : (nro_pf pid : ℕ) → MensajeMemoria

-- Where the thread of `exec_pcb` stands: at its first `sem_wait`, waiting for the context that the
-- cpu sends back, at `sem_wait(&reanudaar_exec)` of `kf_open`, or at `sem_wait(&sem_detener)` of
-- `ksleep`.
pub data Punto : Type 0 where
  inicio con_cpu abriendo detenido : Punto

-- The globals. A pointer to a process is its pid, and `lista_global` holds the process; a
-- semaphore is its value. `hay_elegido` is `pcbelegido != NULL`. `hora` is what `time(NULL)`
-- answers, `enviadas` the interruptions sent to the cpu, by pid, `recursos` the names of the
-- configuration, and `a_filesystem`, `a_memoria` and `a_cpu` what was sent on the other sockets;
-- `dormidos` and `fallos` are the threads of `sleeper` and of `manejar_pf` that were created, with
-- their arguments.
pub record Kernel : Type 0 where
  pub lista_global : List Pcb
  pub cola_listos_para_ready : List ℕ
  pub lista_ready : List ℕ
  pub lista_ready_detenidos : List ℕ
  pub cola_block : List ℕ
  pub cola_exec : List ℕ
  pub cola_exit : List ℕ
  pub recursos_kernel : List Recurso
  pub pcbelegido : ℕ
  pub hay_elegido : Bool
  pub proceso_en_ejecucion : Option ℕ
  pub algoritmo : Algoritmo
  pub frenado : Bool
  pub g_multiprog_ini : ℕ
  pub sem_ready : ℕ
  pub sem_exec : ℕ
  pub sem_exit : ℕ
  pub hora : ℕ
  pub enviadas : List ℕ
  pub recursos : List (List ℕ)
  pub generador_de_id : ℕ
  pub lista_archivos_abiertos : List ArchivoGlobal
  pub lista_global_archivos : List ArchivoGlobal
  pub a_filesystem : List InstruccionFs
  pub a_memoria : List MensajeMemoria
  pub a_cpu : List Contexto
  pub sem_listos_ready : ℕ
  pub sem_hilo_fs : ℕ
  pub reanudar_exec : ℕ
  pub sem_detener : ℕ
  pub sem_detener_sleep : ℕ
  pub punto : Punto
  pub dormidos : List (ℕ × ℕ)
  pub fallos : List (ℕ × ℕ)

-- What a pointer to a process leads to; `none` is a pointer to one that was freed. An element of
-- `lista_global` is a process that was created, not an address: `malloc` may give the memory of a
-- freed one to another.
unfoldable pub buscar_pcb : ℕ → List Pcb → Option Pcb
buscar_pcb pid [] = none
buscar_pcb pid (p ∷ ps) =
    let resto = buscar_pcb pid ps in
    if p.pid == pid then (if p.liberado then none else some p) else resto

-- An assignment through the pointer.
unfoldable pub con_pcb : ℕ → (Pcb → Pcb) → List Pcb → List Pcb
con_pcb pid f [] = []
con_pcb pid f (p ∷ ps) =
    let resto = con_pcb pid f ps in if p.pid == pid then f p ∷ ps else p ∷ resto

abbrev pub en_pcb : ℕ → (Pcb → Pcb) → Kernel → Kernel
en_pcb pid f k = record k { lista_global = con_pcb pid f k.lista_global }

-- `cambiar_estado`, and the assignments of the field.
abbrev pub cambiar_estado : ℕ → EstadoProceso → Kernel → Kernel
cambiar_estado pid e k = en_pcb pid (λ p. record p { estado = e }) k

unfoldable pub set_pcb_ready : ℕ → Kernel → Kernel
set_pcb_ready pid k =
    en_pcb pid (λ p. record p { tiempo_ingreso_ready = k.hora })
      (record (cambiar_estado pid ready k) { lista_ready = k.lista_ready ++ (pid ∷ []) })

unfoldable pub set_pcb_block : ℕ → Kernel → Kernel
set_pcb_block pid k = record (cambiar_estado pid block k) {
  cola_block = k.cola_block ++ (pid ∷ []);
}

-- `list_find` and `list_remove_element`: the first one goes.
unfoldable pub quitar : ℕ → List ℕ → List ℕ
quitar pid [] = []
quitar pid (p ∷ ps) = let resto = quitar pid ps in if p == pid then ps else p ∷ resto

unfoldable pub remove_blocked : ℕ → Kernel → Kernel
unfolding quitar
remove_blocked pid k = record k { cola_block = quitar pid k.cola_block }

unfoldable pub remove_ready : ℕ → Kernel → Kernel
unfolding quitar
remove_ready pid k = record k { lista_ready = quitar pid k.lista_ready }

abbrev pub hay_listos : List ℕ → ℕ
hay_listos [] = 0
hay_listos (p ∷ ps) = 1

-- `sem_post(&sem_ready); if (list_size(lista_ready) > 0) sem_post(&sem_exec);`
unfoldable pub replanificar : Kernel → Kernel
replanificar k = record k {
  sem_ready = k.sem_ready + 1;
  sem_exec = k.sem_exec + hay_listos k.lista_ready;
}

-- `sem_post(&sem_ready); sem_post(&sem_exec);`
abbrev pub continuar : Kernel → Kernel
continuar k = record k { sem_ready = k.sem_ready + 1; sem_exec = k.sem_exec + 1 }
