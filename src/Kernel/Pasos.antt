-- ===== src/Kernel/Pasos.antt =====
-- kernel/: the threads of the kernel and the console, interleaved in any order. A step is what one
-- thread does between two waits; the cpu, memoria and the filesystem answer what they like.
pub mod Estable
pub mod Archivos
pub mod Recursos
pub mod Hilos
pub mod Ejecucion
pub mod Invariante
use so_2c_2023_no_me_queme.Base.{
  ℕ, ◌+◌, ◌-◌, ◌<◌, ◌≡◌, Option, some, List, [], ◌∷◌, ◌++◌, Bool, true, false,
}
use so_2c_2023_no_me_queme.Shared.Contexto.{Contexto}
use so_2c_2023_no_me_queme.Filesystem.Fcb.Respuesta.{RespFile}
use so_2c_2023_no_me_queme.Kernel.Estado.{
  Kernel, MotivoBlock, inicio, con_cpu, abriendo, detenido, replanificar,
}
use so_2c_2023_no_me_queme.Kernel.Planificador.{ready_pcb, finalizar_proceso}
use so_2c_2023_no_me_queme.Kernel.Archivos.Llamadas.{kf_open_reanudado}
use so_2c_2023_no_me_queme.Kernel.Hilos.{
  iniciar_proceso, iniciar_planificacion, detener_planificacion, quantum_interrupter, exit_pcb,
  sleeper, manejar_pf, pagina_cargada, recibir_op_fs,
}
use so_2c_2023_no_me_queme.Kernel.Hilos.Ejecucion.{exec_pcb, exec_recibir}

module _ (list_sort : (ℕ → ℕ → Bool) → List ℕ → List ℕ) where
  pub data Paso (k : Kernel) : Kernel → Type 0 where
    nuevo :
        (path : List ℕ) (size prioridad : ℕ) (basura : Contexto) (motivo : MotivoBlock)
        (ingreso : ℕ)
        → Paso k (iniciar_proceso path size prioridad basura motivo ingreso k)
    finaliza : (pid : ℕ) {k' : Kernel} → finalizar_proceso pid k ≡ some k' → Paso k k'
    inicia : Paso k (iniciar_planificacion k)
    detiene : Paso k (detener_planificacion k)
    grado : (g : ℕ) → Paso k (record k { g_multiprog_ini = g })
    quantum : Paso k (quantum_interrupter k.algoritmo k)
    reloj : (h : ℕ) → Paso k (record k { hora = h })
    admite :
        0 < k.sem_listos_ready
        → Paso k (ready_pcb (record k { sem_listos_ready = k.sem_listos_ready - 1 }))
    sale :
        {k' : Kernel}
        → 0 < k.sem_exit
        → exit_pcb (record k { sem_exit = k.sem_exit - 1 }) ≡ some k'
        → Paso k k'
    despacha :
        {k' : Kernel}
        → k.punto ≡ inicio
        → 0 < k.sem_ready
        → 0 < k.sem_exec
        → exec_pcb list_sort (record k { sem_ready = k.sem_ready - 1; sem_exec = k.sem_exec - 1 })
          ≡ some k'
        → Paso k k'
    vuelve :
        (c : Contexto) {k' : Kernel} → k.punto ≡ con_cpu → exec_recibir c k ≡ some k' → Paso k k'
    abre :
        {k' : Kernel}
        → k.punto ≡ abriendo
        → 0 < k.reanudar_exec
        → kf_open_reanudado (record k { reanudar_exec = k.reanudar_exec - 1; punto = inicio })
          ≡ some k'
        → Paso k k'
    reanuda :
        k.punto ≡ detenido
        → 0 < k.sem_detener
        → Paso k (replanificar (record k { sem_detener = k.sem_detener - 1; punto = inicio }))
    despierta :
        (pid tiempo : ℕ) (antes luego : List (ℕ × ℕ))
        → k.dormidos ≡ antes ++ ((pid, tiempo) ∷ luego)
        → k.frenado ≡ false
        → Paso k (sleeper pid (record k { dormidos = antes ++ luego }))
    despierta_detenido :
        (pid tiempo : ℕ) (antes luego : List (ℕ × ℕ))
        → k.dormidos ≡ antes ++ ((pid, tiempo) ∷ luego)
        → 0 < k.sem_detener_sleep
        → Paso k (
            sleeper pid
              (record k { dormidos = antes ++ luego; sem_detener_sleep = k.sem_detener_sleep - 1 }))
    falla :
        (pid nro_pf : ℕ) (antes luego : List (ℕ × ℕ))
        → k.fallos ≡ antes ++ ((pid, nro_pf) ∷ luego)
        → Paso k (manejar_pf pid nro_pf (record k { fallos = antes ++ luego }))
    cargada : (pid : ℕ) {k' : Kernel} → pagina_cargada pid k ≡ some k' → Paso k k'
    filesystem :
        (op : RespFile) (pid : ℕ) {k' : Kernel}
        → 0 < k.sem_hilo_fs
        → recibir_op_fs op pid (record k { sem_hilo_fs = k.sem_hilo_fs - 1 }) ≡ some k'
        → Paso k k'

  -- The states that a run leads to.
  pub data Alcanza (k : Kernel) : Kernel → Type 0 where
    aqui : Alcanza k k
    luego : {k1 k2 : Kernel} → Alcanza k k1 → Paso k1 k2 → Alcanza k k2
