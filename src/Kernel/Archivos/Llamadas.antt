-- ===== src/Kernel/Archivos/Llamadas.antt =====
-- kernel/src/instructions.c: `kf_open`, `kf_close`, `kf_seek`, `kf_read`, `kf_write`, `kf_truncate`.
-- `none` dereferences NULL or reads past a buffer.
pub mod Cierre
pub mod Reparto
pub mod Ultimo
pub mod Apertura
pub mod Lectores
use so_2c_2023_no_me_queme.Base.{
  ℕ, ◌+◌, ◌%◌, Option, none, some, List, [], ◌∷◌, ◌++◌, get_elem?, ◌==◌, ltb, if◌then◌else◌, Bool,
  true, false, ◌&&◌, ◌||◌, not,
}
use so_2c_2023_no_me_queme.Base.Opt.{◌>>=◌}
use so_2c_2023_no_me_queme.Shared.Cadena.{atoi}
use so_2c_2023_no_me_queme.Shared.Instruccion.{Instruccion}
use so_2c_2023_no_me_queme.Kernel.Estado.{
  Kernel, Pcb, ArchivoProceso, ArchivoGlobal, abriendo, archivo_block, buscar_pcb, en_pcb,
  set_pcb_ready, replanificar, continuar,
}
use so_2c_2023_no_me_queme.Kernel.Recursos.{finalizar_proceso_en_ejecucion}
use so_2c_2023_no_me_queme.Kernel.Archivos.{
  letra_n, letra_r, letra_w, uint32, restar_uno, buscar_archivo_global, con_archivo, sin_archivo,
  buscar_archivo_proceso, con_archivo_proceso, sin_archivo_proceso, crear_archivo_proceso,
  crear_archivo_global, crear_archivo_global_con_contador, sumar, sumar_contador_archivo_global,
  open_file, exec_block_fs, fs_interaction, inicializar_instruccion_fs, enviar_instruccion_fs,
}

-- The instruction of the process that a pid stands for.
unfoldable pub instruccion_de : ℕ → Kernel → Option Instruccion
instruccion_de pid k = do
  p ← buscar_pcb pid k.lista_global
  some p.contexto_ejecucion.instruccion_ejecutada

-- The lock of an F_OPEN: the first character of its second parameter.
unfoldable pub lock_pedido : ℕ → Kernel → Option ℕ
unfolding instruccion_de
lock_pedido pid k = do i ← instruccion_de pid k; get_elem? i.parametro2 0

abbrev pub en_archivo : List ℕ → (ArchivoGlobal → ArchivoGlobal) → Kernel → Kernel
en_archivo n f k = record k { lista_archivos_abiertos = con_archivo f k.lista_archivos_abiertos n }

unfoldable pub bloquear_por_archivo : List ℕ → Kernel → Kernel
bloquear_por_archivo n k = replanificar (
    en_pcb k.pcbelegido (λ p. record p { motivo_block = archivo_block })
      (exec_block_fs (
        en_archivo n (λ a. record a { colabloqueado = a.colabloqueado ++ (k.pcbelegido ∷ []) }) k)))

-- The request to the filesystem; the thread then waits for the answer.
unfoldable pub pedir_apertura : Instruccion → Kernel → Kernel
pedir_apertura i k =
    let k' = enviar_instruccion_fs (inicializar_instruccion_fs i 1) k in
    record k' { sem_hilo_fs = k'.sem_hilo_fs + 1; punto = abriendo }

unfoldable pub kf_open_con : Option ArchivoGlobal → Instruccion → ℕ → Kernel → Kernel
kf_open_con none i lock k = pedir_apertura i k
kf_open_con (some a) i lock k =
    if (a.lock == letra_w) || (lock == letra_w)
    then bloquear_por_archivo i.parametro1 k
    else continuar (if lock == letra_r then en_archivo i.parametro1 sumar k else k)

unfoldable pub kf_open : Kernel → Option Kernel
kf_open k = do
  i ← instruccion_de k.pcbelegido k
  lock ← get_elem? i.parametro2 0
  some (kf_open_con (buscar_archivo_global k.lista_archivos_abiertos i.parametro1) i lock k)

abbrev pub abierto_o_creado : Option Kernel → Kernel → Kernel
abierto_o_creado none creado = creado
abierto_o_creado (some abierto) creado = abierto

-- What `kf_open` does once the filesystem has answered.
unfoldable pub kf_open_reanudado : Kernel → Option Kernel
kf_open_reanudado k = do
  i ← instruccion_de k.pcbelegido k
  lock ← get_elem? i.parametro2 0
  let n = i.parametro1
  let k' = abierto_o_creado (open_file n lock k) (crear_archivo_global n lock k)
  some (continuar (crear_archivo_proceso n k.pcbelegido k'))

-- The holder's part of `kf_close`: `abierto` tells whether the process has the file open.
unfoldable pub soltar_lock : Bool → ArchivoGlobal → ArchivoGlobal
soltar_lock false a = a
soltar_lock true a =
    let a1 = if a.lock == letra_r then record a { contador = restar_uno a.contador } else a in
    if (a1.lock == letra_w) || (a1.contador == 0)
    then record a1 { lock = letra_n; contador = 0 }
    else a1

-- The file for a process that waited: the first one creates the entry of the table, the others
-- count in it.
unfoldable pub entregar_archivo : List ℕ → ℕ → ℕ → Bool → ℕ → Kernel → Option Kernel
entregar_archivo n contador lock crear d k =
    let k1 = crear_archivo_proceso n d k in
    let k2 = abierto_o_creado (open_file n lock k1) k1 in
    let suma = sumar_contador_archivo_global n k2 >>= λ k3. some (set_pcb_ready d k3) in
    if crear
    then some
        (set_pcb_ready d (crear_archivo_global_con_contador n lock ((contador + 1) % uint32) k2))
    else suma

-- The loop over the queue: those that go on waiting, and the kernel.
unfoldable pub desbloquear : List ℕ → ℕ → Bool → List ℕ → Kernel → Option (List ℕ × Kernel)
desbloquear n contador crear [] k = some ([], k)
desbloquear n contador crear (d ∷ cola) k = do
  lock ← lock_pedido d k
  let espera = desbloquear n contador crear cola k >>= λ r. some (d ∷ r.0, r.1)
  let abre =
      entregar_archivo n contador lock crear d k >>= λ k'. desbloquear n contador false cola k'
  if (lock == letra_w) && not crear then espera else abre

-- The writers that go on waiting do so in the old entry, which is added again.
unfoldable pub reponer : ArchivoGlobal → List ℕ → Kernel → Kernel
reponer a [] k = k
reponer a (d ∷ cola) k = record k {
  lista_archivos_abiertos =
      k.lista_archivos_abiertos ++ (record a { colabloqueado = d ∷ cola; lock = letra_w } ∷ []);
}

abbrev pub hay_cola : List ℕ → Bool
hay_cola [] = false
hay_cola (d ∷ cola) = true

-- The entry after the holder's part, which the table no longer has.
unfoldable pub repartir : List ℕ → ArchivoGlobal → Kernel → Option Kernel
repartir n a k =
    let reparte =
      desbloquear n a.contador true a.colabloqueado k >>= λ r. some (reponer a r.0 r.1) in
    if (a.lock == letra_n) && hay_cola a.colabloqueado
    then reparte
    else if ltb 0 a.contador
    then some (crear_archivo_global_con_contador n letra_r ((a.contador + 1) % uint32) k)
    else some k

abbrev pub es_some : Option ArchivoProceso → Bool
es_some none = false
es_some (some a) = true

unfoldable pub kf_close : Kernel → Option Kernel
kf_close k = do
  i ← instruccion_de k.pcbelegido k
  pid ← k.proceso_en_ejecucion
  p ← buscar_pcb pid k.lista_global
  let n = i.parametro1
  a ← buscar_archivo_global k.lista_archivos_abiertos n
  let a' = soltar_lock (es_some (buscar_archivo_proceso p.archivos_abiertos n)) a
  let quitado =
      en_pcb pid (λ q. record q { archivos_abiertos = sin_archivo_proceso q.archivos_abiertos n })
        (record k { lista_archivos_abiertos = sin_archivo k.lista_archivos_abiertos n })
  k' ← repartir n a' quitado
  some (continuar k')

unfoldable pub kf_seek : Kernel → Option Kernel
kf_seek k = do
  pid ← k.proceso_en_ejecucion
  i ← instruccion_de pid k
  p ← buscar_pcb pid k.lista_global
  a ← buscar_archivo_proceso p.archivos_abiertos i.parametro1
  some (
      continuar (
        en_pcb pid
          (λ q. record q {
            archivos_abiertos =
                con_archivo_proceso (λ x. record x { puntero = atoi i.parametro2 })
                  q.archivos_abiertos i.parametro1;
          })
          k))

-- `kf_read` and `kf_truncate`: the request carries the pointer of the process.
unfoldable pub kf_read : Kernel → Option Kernel
kf_read k = do
  i ← instruccion_de k.pcbelegido k
  pid ← k.proceso_en_ejecucion
  p ← buscar_pcb pid k.lista_global
  a ← buscar_archivo_proceso p.archivos_abiertos i.parametro1
  some (fs_interaction (enviar_instruccion_fs (inicializar_instruccion_fs i a.puntero) k))

unfoldable pub kf_truncate : Kernel → Option Kernel
unfolding kf_read
kf_truncate k = kf_read k

unfoldable pub kf_write : Kernel → Option Kernel
unfolding kf_read
kf_write k = do
  pid ← k.proceso_en_ejecucion
  i ← instruccion_de pid k
  g ← buscar_archivo_global k.lista_archivos_abiertos i.parametro1
  let escribe = kf_read k
  let sin_lock =
      finalizar_proceso_en_ejecucion
        (en_archivo i.parametro1 (λ a. record a { contador = restar_uno a.contador }) k)
  if g.lock == letra_w then escribe else some sin_lock
