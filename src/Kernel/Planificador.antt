-- ===== src/Kernel/Planificador.antt =====
-- kernel/src/plani.c and kernel/src/kernel.c: admission, the choice of the next process, and the
-- moves between queues.
pub mod Eleccion
pub mod Admision
use so_2c_2023_no_me_queme.Base.{
  ℕ, zero, suc, ◌+◌, ◌≡◌, Option, none, some, List, [], ◌∷◌, ◌++◌, length, ◌==◌, ltb, leb,
  if◌then◌else◌, Bool, true, false, not,
}
use so_2c_2023_no_me_queme.Base.Opt.{◌>>=◌}
use so_2c_2023_no_me_queme.Kernel.Estado.{
  Kernel, Pcb, EstadoProceso, Algoritmo, fifo, rr, prioridades, buscar_pcb, en_pcb, cambiar_estado,
  set_pcb_ready, remove_blocked, remove_ready, continuar, new, ready, exec, block, finish_exit,
  finish_error,
}

-- A field of the process that a pid stands for.
abbrev pub dato : (Pcb → ℕ) → Option Pcb → ℕ
dato f none = 0
dato f (some p) = f p

abbrev pub prioridad_de : Kernel → ℕ → ℕ
prioridad_de k pid = dato (λ p. p.prioridad) (buscar_pcb pid k.lista_global)

abbrev pub ingreso_de : Kernel → ℕ → ℕ
ingreso_de k pid = dato (λ p. p.tiempo_ingreso_ready) (buscar_pcb pid k.lista_global)

unfoldable pub maximo_rr : Kernel → ℕ → ℕ → Bool
maximo_rr k a b = leb (ingreso_de k a) (ingreso_de k b)

unfoldable pub maximo_prioridad : Kernel → ℕ → ℕ → Bool
maximo_prioridad k a b = leb (prioridad_de k a) (prioridad_de k b)

-- `list_remove(lista_ready, 0)`; `none` is `exit(1)`, on an empty list.
unfoldable pub tomar_primero : List ℕ → Kernel → Option (ℕ × Kernel)
tomar_primero [] k = none
tomar_primero (pid ∷ resto) k = some (pid, record k { lista_ready = resto })

-- `list_sort` is the commons library's.
module _ (list_sort : (ℕ → ℕ → Bool) → List ℕ → List ℕ) where
  unfoldable pub ordenar : Algoritmo → Kernel → List ℕ
  ordenar fifo k = k.lista_ready
  ordenar rr k = list_sort (maximo_rr k) k.lista_ready
  ordenar prioridades k = list_sort (maximo_prioridad k) k.lista_ready

  unfoldable pub elegir_pcb_segun_algoritmo : Kernel → Option (ℕ × Kernel)
  elegir_pcb_segun_algoritmo k = tomar_primero (ordenar k.algoritmo k) k

unfoldable pub proceso_admitido : ℕ → Kernel → Kernel
proceso_admitido pid k = record (cambiar_estado pid exec k) {
  cola_exec = k.cola_exec ++ (pid ∷ []);
}

abbrev pub interrumpir : ℕ → Kernel → Kernel
interrumpir pid k = record k { enviadas = k.enviadas ++ (pid ∷ []) }

-- The interruption to the cpu when the admitted process has a better priority.
unfoldable pub avisar : Algoritmo → ℕ → Kernel → Kernel
avisar fifo pid k = k
avisar rr pid k = k
avisar prioridades pid k =
    if k.hay_elegido
    then (if ltb (prioridad_de k pid) (prioridad_de k k.pcbelegido) then interrumpir pid k else k)
    else k

abbrev pub postear : Kernel → Kernel
postear k = if k.frenado then k else record k { sem_ready = k.sem_ready + 1 }

abbrev pub activos : Kernel → ℕ
activos k = length k.lista_ready + length k.cola_block

unfoldable pub admitir : List ℕ → Kernel → Kernel
admitir [] k = k
admitir (pid ∷ resto) k =
    let k1 = record k { cola_listos_para_ready = resto } in
    if ltb (activos k) k.g_multiprog_ini
    then postear (avisar k.algoritmo pid (set_pcb_ready pid k1))
    else record k1 { lista_ready_detenidos = k.lista_ready_detenidos ++ (pid ∷ []) }

-- The body of the loop of `ready_pcb`, behind its `sem_wait`.
unfoldable pub ready_pcb : Kernel → Kernel
unfolding admitir
ready_pcb k = admitir k.cola_listos_para_ready k

-- `chekeo_desalojo_prioridades`
unfoldable pub chekeo_desalojo_prioridades : Algoritmo → ℕ → Kernel → Kernel
chekeo_desalojo_prioridades fifo pid k = k
chekeo_desalojo_prioridades rr pid k = k
chekeo_desalojo_prioridades prioridades pid k =
    if ltb (prioridad_de k pid) (prioridad_de k k.pcbelegido) then interrumpir k.pcbelegido k else k

-- `recibir_op_FS` on the end of a truncation, a write or a read; `none` dereferences NULL.
unfoldable pub fin_de_operacion_fs : ℕ → Kernel → Option Kernel
fin_de_operacion_fs pid k = do
  p ← buscar_pcb pid k.lista_global
  let listo = set_pcb_ready pid (remove_blocked pid k)
  some (continuar (chekeo_desalojo_prioridades listo.algoritmo pid listo))

abbrev pub sacar : EstadoProceso → ℕ → Kernel → Kernel
sacar new pid k = k
sacar ready pid k = remove_ready pid k
sacar exec pid k = k
sacar block pid k = remove_blocked pid k
sacar finish_exit pid k = k
sacar finish_error pid k = k

abbrev pub es_el_que_corre : ℕ → Option ℕ → Bool
es_el_que_corre pid none = false
es_el_que_corre pid (some p) = p == pid

unfoldable pub finalizar_proceso : ℕ → Kernel → Option Kernel
finalizar_proceso pid k = do
  let k1 = if es_el_que_corre pid k.proceso_en_ejecucion then interrumpir pid k else k
  p ← buscar_pcb pid k1.lista_global
  let k2 = sacar p.estado pid k1
  let k3 = cambiar_estado pid finish_exit (record k2 { cola_exit = k2.cola_exit ++ (pid ∷ []) })
  some (record k3 { sem_exit = k3.sem_exit + 1 })
