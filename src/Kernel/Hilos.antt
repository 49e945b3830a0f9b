-- ===== src/Kernel/Hilos.antt =====
-- kernel/src/plani.c, kernel/src/kernel.c and kernel/src/instructions.c: the rounds of the threads
-- of the kernel, and the console's commands. `none` dereferences NULL, exits or aborts.
pub mod Ejecucion
use so_2c_2023_no_me_queme.Base.{
  ℕ, ◌+◌, ◌-◌, ◌^◌, Option, none, some, List, [], ◌∷◌, ◌++◌, map, drop, ◌==◌, if◌then◌else◌, Bool,
  true, false, not,
}
use so_2c_2023_no_me_queme.Base.Opt.{◌>>=◌}
use so_2c_2023_no_me_queme.Shared.Cadena.{cadena, strcmp_eq}
use so_2c_2023_no_me_queme.Shared.Contexto.{Contexto, codigo_motivo, page_fault_resuelto}
use so_2c_2023_no_me_queme.Shared.Instruccion.{codigo, f_create}
use so_2c_2023_no_me_queme.Filesystem.Fcb.Respuesta.{
  RespFile, f_error, f_open_success, f_close_success, f_truncate_success, f_write_success,
  f_seek_success, f_read_success, f_create_success, file_doesnt_exists,
}
use so_2c_2023_no_me_queme.Kernel.Estado.{
  Kernel, Pcb, Recurso, ArchivoProceso, Algoritmo, MotivoBlock, fifo, rr, prioridades, new,
  inicializar_proceso, page_fault_kernel, buscar_pcb, en_pcb, set_pcb_ready, set_pcb_block,
  remove_blocked, replanificar, continuar, hay_listos, detenido,
}
use so_2c_2023_no_me_queme.Kernel.Liberacion.{liberar_recursos}
use so_2c_2023_no_me_queme.Kernel.Planificador.{chekeo_desalojo_prioridades, fin_de_operacion_fs}
use so_2c_2023_no_me_queme.Kernel.Archivos.{
  buscar_archivo_global, con_archivo, sin_archivo, restar_uno, inicializar_instruccion_fs,
  enviar_instruccion_fs,
}
use so_2c_2023_no_me_queme.Kernel.Archivos.Llamadas.{instruccion_de}

unfoldable pub cargar_recursos_totales : List (List ℕ) → List Recurso
cargar_recursos_totales [] = []
cargar_recursos_totales (n ∷ ns) =
    record { nombre = n; cantidad = 0; colabloqueado = [] } ∷ cargar_recursos_totales ns

-- What `malloc` leaves in the fields that `pcb_create` does not write is an argument.
unfoldable pub pcb_create : ℕ → ℕ → Contexto → MotivoBlock → ℕ → Kernel → Kernel
pcb_create prio pid basura motivo ingreso k = record k {
  cola_listos_para_ready = k.cola_listos_para_ready ++ (pid ∷ []);
  lista_global =
      k.lista_global
      ++ (record {
        pid = pid;
        prioridad = prio;
        contexto_ejecucion = record basura {
          pid = pid;
          program_counter = 0;
          instruccion_ejecutada = record basura.instruccion_ejecutada {
            longitud_parametro1 = 1;
            longitud_parametro2 = 1;
            parametro1 = 0 ∷ [];
            parametro2 = 0 ∷ [];
          };
        };
        estado = new;
        motivo_block = motivo;
        archivos_abiertos = [];
        recurso_instruccion = [];
        recursos_asignados = cargar_recursos_totales k.recursos;
        tiempo_ingreso_ready = ingreso;
        liberado = false;
      }
          ∷ []);
  sem_listos_ready = k.sem_listos_ready + 1;
}

unfoldable pub iniciar_proceso : List ℕ → ℕ → ℕ → Contexto → MotivoBlock → ℕ → Kernel → Kernel
unfolding pcb_create
iniciar_proceso path size prioridad basura motivo ingreso k =
    pcb_create prioridad k.generador_de_id basura motivo ingreso (record k {
      generador_de_id = k.generador_de_id + 1;
      a_memoria = k.a_memoria ++ (inicializar_proceso k.generador_de_id size path ∷ []);
    })

-- One file of a process that ended; the entry goes when no one counts in it.
unfoldable pub cerrar_archivo : List ℕ → Kernel → Option Kernel
cerrar_archivo n k = do
  a ← buscar_archivo_global k.lista_archivos_abiertos n
  some (record k {
    lista_archivos_abiertos =
        if restar_uno a.contador == 0
        then sin_archivo k.lista_archivos_abiertos n
        else con_archivo (λ x. record x { contador = restar_uno x.contador })
            k.lista_archivos_abiertos n;
  })

unfoldable pub cerrar_cada : List ArchivoProceso → Kernel → Option Kernel
cerrar_cada [] k = some k
cerrar_cada (a ∷ as') k = do k' ← cerrar_archivo a.nombre_archivo k; cerrar_cada as' k'

-- `free(pcb)` at the end: `lista_global` keeps the pointer, which dangles.
unfoldable pub pcb_destroy : ℕ → Kernel → Option Kernel
pcb_destroy pid k = do
  p ← buscar_pcb pid k.lista_global
  k' ← cerrar_cada p.archivos_abiertos k
  some (en_pcb pid (λ q. record q { liberado = true }) k')

unfoldable pub admitir_detenido : List ℕ → Kernel → Kernel
admitir_detenido [] k = k
admitir_detenido (d ∷ ds) k = set_pcb_ready d (record k { lista_ready_detenidos = ds })

unfoldable pub despachar_exit : List ℕ → Kernel → Option Kernel
despachar_exit [] k = none
despachar_exit (pid ∷ cola) k = do
  k1 ← liberar_recursos pid (record k { cola_exit = cola })
  k2 ← pcb_destroy pid k1
  let k3 = admitir_detenido k2.lista_ready_detenidos k2
  some (if k3.frenado then record k3 { sem_ready = k3.sem_ready + 1 } else replanificar k3)

-- The body of the loop of `exit_pcb`, behind its `sem_wait`.
unfoldable pub exit_pcb : Kernel → Option Kernel
exit_pcb k = despachar_exit k.cola_exit k

-- `ksleep`; while the planning is stopped the thread waits at `sem_detener`.
unfoldable pub ksleep : ℕ → Kernel → Kernel
ksleep tiempo k =
    let k1 = set_pcb_block k.pcbelegido (record k { cola_exec = drop 1 k.cola_exec }) in
    let k2 = record k1 {
      proceso_en_ejecucion = none;
      dormidos = k1.dormidos ++ ((k.pcbelegido, tiempo) ∷ []);
    } in
    if k2.frenado then record k2 { punto = detenido } else replanificar k2

-- `sleeper`, once it has slept.
unfoldable pub sleeper : ℕ → Kernel → Kernel
sleeper pid k = continuar (record k { lista_ready = k.lista_ready ++ (pid ∷ []) })

-- `manejar_pf` up to its answer from memoria.
unfoldable pub manejar_pf : ℕ → ℕ → Kernel → Kernel
manejar_pf pid nro_pf k =
    let posts = if k.frenado then 0 else hay_listos k.lista_ready in
    record k {
      sem_ready = k.sem_ready + posts;
      sem_exec = k.sem_exec + posts;
      a_memoria = k.a_memoria ++ (page_fault_kernel nro_pf pid ∷ []);
    }

-- `manejar_pf` behind PAGINA_CARGADA, with the pid that memoria sent.
unfoldable pub pagina_cargada : ℕ → Kernel → Option Kernel
pagina_cargada pid k = do
  p ← buscar_pcb pid k.lista_global
  let marcado =
      en_pcb pid
        (λ q. record q {
          contexto_ejecucion = record q.contexto_ejecucion {
            motivo_desalojado = codigo_motivo page_fault_resuelto;
          };
        })
        k
  let listo = set_pcb_ready pid (remove_blocked pid marcado)
  let avisado = chekeo_desalojo_prioridades listo.algoritmo pid listo
  some (if avisado.frenado then avisado else continuar avisado)

abbrev reanudar : Kernel → Kernel
reanudar k = record k { reanudar_exec = k.reanudar_exec + 1 }

unfoldable pub crear_en_fs : Kernel → Option Kernel
crear_en_fs k = do
  pid ← k.proceso_en_ejecucion
  i ← instruccion_de pid k
  let k' =
      enviar_instruccion_fs (record (inicializar_instruccion_fs i 1) { estado = codigo f_create }) k
  some (record k' { sem_hilo_fs = k'.sem_hilo_fs + 1 })

-- The body of the loop of `recibir_op_FS`, with the answer and its pid.
unfoldable pub recibir_op_fs : RespFile → ℕ → Kernel → Option Kernel
recibir_op_fs f_error pid k = some k
recibir_op_fs f_open_success pid k = some (reanudar k)
recibir_op_fs f_create_success pid k = some (reanudar k)
recibir_op_fs f_truncate_success pid k = fin_de_operacion_fs pid k
recibir_op_fs f_write_success pid k = fin_de_operacion_fs pid k
recibir_op_fs f_read_success pid k = fin_de_operacion_fs pid k
recibir_op_fs file_doesnt_exists pid k = crear_en_fs k
recibir_op_fs f_close_success pid k = none
recibir_op_fs f_seek_success pid k = none

unfoldable pub iniciar_planificacion : Kernel → Kernel
iniciar_planificacion k =
    let k' = record k {
      sem_detener = k.sem_detener + 1;
      sem_detener_sleep = k.sem_detener_sleep + 1;
      sem_ready = k.sem_ready + 1;
      sem_exec = k.sem_exec + 1;
      frenado = false;
    } in
    if k.frenado then k' else record k { frenado = false }

unfoldable pub detener_planificacion : Kernel → Kernel
detener_planificacion k = record k { frenado = true }

-- One round of `quantum_interrupter`; the pid is -1.
unfoldable pub quantum_interrupter : Algoritmo → Kernel → Kernel
quantum_interrupter fifo k = k
quantum_interrupter rr k = record k { enviadas = k.enviadas ++ ((2 ^ 32 - 1) ∷ []) }
quantum_interrupter prioridades k = k

-- The names are "FIFO" and "RR".
unfoldable pub asignar_algoritmo : List ℕ → Algoritmo
asignar_algoritmo n =
    if strcmp_eq n (70 ∷ 73 ∷ 70 ∷ 79 ∷ [])
    then fifo
    else if strcmp_eq n (82 ∷ 82 ∷ [])
    then rr
    else prioridades
