-- ===== src/Kernel/Pasos/Archivos.antt =====
-- kernel/: the calls on files neither create processes nor move instances of resources.
use so_2c_2023_no_me_queme.Base.{
  ℕ, refl, ◌∙◌, Option, none, some, List, [], ◌∷◌, ◌++◌, drop, ◌==◌, ltb, get_elem?, Bool, true,
  false, ◌&&◌, ◌||◌, not,
}
use so_2c_2023_no_me_queme.Base.Opt.{Todo, Todo->>=, Todo-some, Todo-map, si-Todo}
use so_2c_2023_no_me_queme.Shared.Instruccion.{Instruccion}
use so_2c_2023_no_me_queme.Kernel.Estado.{
  Kernel, Pcb, EstadoProceso, ArchivoGlobal, op_filesystem, archivo_block, buscar_pcb, en_pcb,
  replanificar, set_pcb_block,
}
use so_2c_2023_no_me_queme.Kernel.Recursos.{finalizar_proceso_en_ejecucion}
use so_2c_2023_no_me_queme.Kernel.Archivos.{
  letra_n, letra_r, letra_w, restar_uno, buscar_archivo_global, sin_archivo, buscar_archivo_proceso,
  sin_archivo_proceso, crear_archivo_proceso, crear_archivo_global,
  crear_archivo_global_con_contador, sumar_contador_archivo_global, open_file, exec_block_fs,
  fs_interaction, inicializar_instruccion_fs, enviar_instruccion_fs,
}
use so_2c_2023_no_me_queme.Kernel.Archivos.Llamadas.{
  instruccion_de, lock_pedido, en_archivo, bloquear_por_archivo, pedir_apertura, kf_open_con,
  kf_open, abierto_o_creado, kf_open_reanudado, soltar_lock, entregar_archivo, desbloquear, reponer,
  repartir, hay_cola, es_some, kf_close, kf_seek, kf_read, kf_truncate, kf_write,
}
use so_2c_2023_no_me_queme.Kernel.Pasos.Estable.{
  Estable, si-Estable, en_pcb-Estable, set_pcb_ready-Estable, set_pcb_block-Estable,
}

module _ (n : List ℕ) where
  abbrev pub Queda : Kernel → Option Kernel → Type 0
  Queda k = Todo (Estable n k)

  exec_block_fs-Estable : (k : Kernel) → Estable n k (exec_block_fs k)
  unfolding exec_block_fs
  exec_block_fs-Estable k =
      let k1 = record k { cola_exec = drop 1 k.cola_exec; proceso_en_ejecucion = none } in
      en_pcb-Estable n k.pcbelegido (λ p. record p { motivo_block = op_filesystem })
        (set_pcb_block k.pcbelegido k1) (λ p. refl) (λ p. refl)
      ∙ set_pcb_block-Estable n k.pcbelegido k1

  bloquear_por_archivo-Estable : (m : List ℕ) (k : Kernel) → Estable n k (bloquear_por_archivo m k)
  unfolding bloquear_por_archivo replanificar
  bloquear_por_archivo-Estable m k =
      let k1 =
        en_archivo m (λ a. record a { colabloqueado = a.colabloqueado ++ (k.pcbelegido ∷ []) }) k in
      en_pcb-Estable n k.pcbelegido (λ p. record p { motivo_block = archivo_block })
        (exec_block_fs k1) (λ p. refl) (λ p. refl)
      ∙ exec_block_fs-Estable k1

  kf_open_con-Estable :
      (o : Option ArchivoGlobal) (i : Instruccion) (lock : ℕ) (k : Kernel)
      → Estable n k (kf_open_con o i lock k)
  unfolding kf_open_con pedir_apertura enviar_instruccion_fs
  kf_open_con-Estable none i lock k = refl
  kf_open_con-Estable (some a) i lock k =
      si-Estable n ((a.lock == letra_w) || (lock == letra_w)) k _ _
        (bloquear_por_archivo-Estable i.parametro1 k)
        (si-Estable n (lock == letra_r) k _ k refl refl)

  pub kf_open-Estable : (k : Kernel) → Queda k (kf_open k)
  unfolding kf_open
  kf_open-Estable k = Todo->>= (Estable n k) (instruccion_de k.pcbelegido k) _ (λ i ei.
      Todo->>= (Estable n k) (get_elem? i.parametro2 0) _ (λ lock el.
        kf_open_con-Estable (buscar_archivo_global k.lista_archivos_abiertos i.parametro1) i lock
          k))

  crear_archivo_proceso-Estable :
      (m : List ℕ) (pid : ℕ) (k : Kernel) → Estable n k (crear_archivo_proceso m pid k)
  unfolding crear_archivo_proceso
  crear_archivo_proceso-Estable m pid k = en_pcb-Estable n pid _ k (λ p. refl) (λ p. refl)

  abierto-Estable :
      (k creado : Kernel) (o : Option Kernel)
      → Queda k o
      → Estable n k creado
      → Estable n k (abierto_o_creado o creado)
  abierto-Estable k creado none t c = c
  abierto-Estable k creado (some x) t c = t

  open_file-Estable : (m : List ℕ) (lock : ℕ) (k : Kernel) → Queda k (open_file m lock k)
  unfolding open_file
  open_file-Estable m lock k =
      Todo->>= (Estable n k) (buscar_archivo_global k.lista_global_archivos m) _ (λ a e. refl)

  pub kf_open_reanudado-Estable : (k : Kernel) → Queda k (kf_open_reanudado k)
  unfolding kf_open_reanudado crear_archivo_global crear_archivo_global_con_contador
  kf_open_reanudado-Estable k = Todo->>= (Estable n k) (instruccion_de k.pcbelegido k) _ (λ i ei.
      Todo->>= (Estable n k) (get_elem? i.parametro2 0) _ (λ lock el.
        let k' =
          abierto_o_creado (open_file i.parametro1 lock k)
            (crear_archivo_global i.parametro1 lock k) in
        crear_archivo_proceso-Estable i.parametro1 k.pcbelegido k'
        ∙ abierto-Estable k _ _ (open_file-Estable i.parametro1 lock k) refl))

  entregar_archivo-Estable :
      (m : List ℕ) (contador lock : ℕ) (crear : Bool) (d : ℕ) (k : Kernel)
      → Queda k (entregar_archivo m contador lock crear d k)
  unfolding entregar_archivo crear_archivo_global_con_contador sumar_contador_archivo_global
  entregar_archivo-Estable m contador lock crear d k =
      let k1 = crear_archivo_proceso m d k in
      let k2 = abierto_o_creado (open_file m lock k1) k1 in
      let hasta : Estable n k k2 =
        abierto-Estable k1 k1 _ (open_file-Estable m lock k1) refl
        ∙ crear_archivo_proceso-Estable m d k in
      si-Todo (Estable n k) crear _ _ (set_pcb_ready-Estable n d _ ∙ hasta) (
        Todo->>= (Estable n k) (sumar_contador_archivo_global m k2) _ (λ k3 e3.
          set_pcb_ready-Estable n d k3
          ∙ Todo-some (Estable n k2) _ e3 (
              Todo->>= (Estable n k2) (buscar_archivo_global k2.lista_archivos_abiertos m) _
                (λ a e. refl))
          ∙ hasta))

  desbloquear-Estable :
      (m : List ℕ) (contador : ℕ) (crear : Bool) (cola : List ℕ) (k : Kernel)
      → Todo (λ r. Estable n k r.1) (desbloquear m contador crear cola k)
  unfolding desbloquear
  desbloquear-Estable m contador crear [] k = refl
  desbloquear-Estable m contador crear (d ∷ cola) k =
      Todo->>= (λ r. Estable n k r.1) (lock_pedido d k) _
        (λ lock el.
          si-Todo (λ r. Estable n k r.1) ((lock == letra_w) && not crear) _ _
            (Todo->>= (λ r. Estable n k r.1) (desbloquear m contador crear cola k) _
              (λ r er.
                Todo-some (λ r'. Estable n k r'.1) _ er
                  (desbloquear-Estable m contador crear cola k)))
            (Todo->>= (λ r. Estable n k r.1) (entregar_archivo m contador lock crear d k) _
              (λ k' e'.
                Todo-map (λ r. Estable n k' r.1) (λ r. Estable n k r.1)
                  (desbloquear m contador false cola k')
                  (λ r h.
                    h
                    ∙ Todo-some (Estable n k) _ e'
                        (entregar_archivo-Estable m contador lock crear d k))
                  (desbloquear-Estable m contador false cola k'))))

  reponer-Estable :
      (a : ArchivoGlobal) (cola : List ℕ) (k : Kernel) → Estable n k (reponer a cola k)
  unfolding reponer
  reponer-Estable a [] k = refl
  reponer-Estable a (d ∷ cola) k = refl

  repartir-Estable : (m : List ℕ) (a : ArchivoGlobal) (k : Kernel) → Queda k (repartir m a k)
  unfolding repartir crear_archivo_global_con_contador
  repartir-Estable m a k =
      si-Todo (Estable n k) ((a.lock == letra_n) && hay_cola a.colabloqueado) _ _
        (Todo->>= (Estable n k) (desbloquear m a.contador true a.colabloqueado k) _ (λ r er.
          reponer-Estable a r.0 r.1
          ∙ Todo-some (λ r'. Estable n k r'.1) _ er
              (desbloquear-Estable m a.contador true a.colabloqueado k)))
        (si-Todo (Estable n k) (ltb 0 a.contador) _ (some k) refl refl)

  pub kf_close-Estable : (k : Kernel) → Queda k (kf_close k)
  unfolding kf_close
  kf_close-Estable k = Todo->>= (Estable n k) (instruccion_de k.pcbelegido k) _ (λ i ei.
      Todo->>= (Estable n k) k.proceso_en_ejecucion _ (λ pid epid.
        Todo->>= (Estable n k) (buscar_pcb pid k.lista_global) _ (λ p ep.
          Todo->>= (Estable n k) (buscar_archivo_global k.lista_archivos_abiertos i.parametro1) _
            (λ a ea.
              let m = i.parametro1 in
              let a' = soltar_lock (es_some (buscar_archivo_proceso p.archivos_abiertos m)) a in
              let k0 = record k {
                lista_archivos_abiertos = sin_archivo k.lista_archivos_abiertos m;
              } in
              let f : Pcb → Pcb =
                λ q. record q { archivos_abiertos = sin_archivo_proceso q.archivos_abiertos m } in
              Todo->>= (Estable n k) (repartir m a' (en_pcb pid f k0)) _ (λ k' e'.
                Todo-some (Estable n (en_pcb pid f k0)) _ e'
                  (repartir-Estable m a' (en_pcb pid f k0))
                ∙ en_pcb-Estable n pid f k0 (λ q. refl) (λ q. refl))))))

  pub kf_seek-Estable : (k : Kernel) → Queda k (kf_seek k)
  unfolding kf_seek
  kf_seek-Estable k = Todo->>= (Estable n k) k.proceso_en_ejecucion _ (λ pid epid.
      Todo->>= (Estable n k) (instruccion_de pid k) _ (λ i ei.
        Todo->>= (Estable n k) (buscar_pcb pid k.lista_global) _ (λ p ep.
          Todo->>= (Estable n k) (buscar_archivo_proceso p.archivos_abiertos i.parametro1) _
            (λ a ea. en_pcb-Estable n pid _ k (λ q. refl) (λ q. refl)))))

  pub kf_read-Estable : (k : Kernel) → Queda k (kf_read k)
  unfolding kf_read fs_interaction enviar_instruccion_fs
  kf_read-Estable k = Todo->>= (Estable n k) (instruccion_de k.pcbelegido k) _ (λ i ei.
      Todo->>= (Estable n k) k.proceso_en_ejecucion _ (λ pid epid.
        Todo->>= (Estable n k) (buscar_pcb pid k.lista_global) _ (λ p ep.
          Todo->>= (Estable n k) (buscar_archivo_proceso p.archivos_abiertos i.parametro1) _
            (λ a ea.
              exec_block_fs-Estable
                (enviar_instruccion_fs (inicializar_instruccion_fs i a.puntero) k)))))

  pub kf_truncate-Estable : (k : Kernel) → Queda k (kf_truncate k)
  unfolding kf_truncate
  kf_truncate-Estable k = kf_read-Estable k

  pub finalizar_proceso_en_ejecucion-Estable :
      (k : Kernel) → Estable n k (finalizar_proceso_en_ejecucion k)
  unfolding finalizar_proceso_en_ejecucion
  finalizar_proceso_en_ejecucion-Estable k =
      en_pcb-Estable n k.pcbelegido (λ p. record p { estado = EstadoProceso.finish_exit }) k
        (λ p. refl) (λ p. refl)

  pub kf_write-Estable : (k : Kernel) → Queda k (kf_write k)
  unfolding kf_write
  kf_write-Estable k = Todo->>= (Estable n k) k.proceso_en_ejecucion _ (λ pid epid.
      Todo->>= (Estable n k) (instruccion_de pid k) _ (λ i ei.
        Todo->>= (Estable n k) (buscar_archivo_global k.lista_archivos_abiertos i.parametro1) _
          (λ g eg. si-Todo (Estable n k) (g.lock == letra_w) _ _ (kf_read-Estable k) (
            finalizar_proceso_en_ejecucion-Estable
              (en_archivo i.parametro1 (λ a. record a { contador = restar_uno a.contador }) k)))))
