-- ===== src/Kernel/Pasos/Hilos.antt =====
-- kernel/: the rounds of the threads neither create processes nor lose instances of resources.
use so_2c_2023_no_me_queme.Base.{true, ℕ, refl, ◌∙◌, List, [], ◌∷◌, drop, ltb, if◌then◌else◌}
use so_2c_2023_no_me_queme.Base.Opt.{Todo->>=, Todo-some, Todo-map}
use so_2c_2023_no_me_queme.Shared.Contexto.{codigo_motivo, page_fault_resuelto}
use so_2c_2023_no_me_queme.Filesystem.Fcb.Respuesta.{
  RespFile, f_error, f_open_success, f_close_success, f_truncate_success, f_write_success,
  f_seek_success, f_read_success, f_create_success, file_doesnt_exists,
}
use so_2c_2023_no_me_queme.Kernel.Estado.{
  Kernel, Pcb, EstadoProceso, Algoritmo, ArchivoProceso, fifo, rr, prioridades, new, ready, exec,
  block, finish_exit, finish_error, buscar_pcb, en_pcb, set_pcb_ready, set_pcb_block,
  remove_blocked, remove_ready, replanificar, continuar,
}
use so_2c_2023_no_me_queme.Kernel.Planificador.{
  ready_pcb, admitir, avisar, postear, activos, interrumpir, chekeo_desalojo_prioridades,
  fin_de_operacion_fs, finalizar_proceso, sacar, es_el_que_corre,
}
use so_2c_2023_no_me_queme.Kernel.Archivos.{buscar_archivo_global, enviar_instruccion_fs}
use so_2c_2023_no_me_queme.Kernel.Archivos.Llamadas.{instruccion_de}
use so_2c_2023_no_me_queme.Kernel.Liberacion.{liberar_recursos}
use so_2c_2023_no_me_queme.Kernel.Hilos.{
  cerrar_archivo, cerrar_cada, pcb_destroy, admitir_detenido, despachar_exit, exit_pcb, ksleep,
  pagina_cargada, crear_en_fs, recibir_op_fs,
}
use so_2c_2023_no_me_queme.Kernel.Pasos.Estable.{
  Estable, si-Estable, en_pcb-Estable, set_pcb_ready-Estable, set_pcb_block-Estable,
}
use so_2c_2023_no_me_queme.Kernel.Pasos.Archivos.{Queda}
use so_2c_2023_no_me_queme.Kernel.Pasos.Recursos.{liberar_recursos-Estable}

module _ (n : List ℕ) where
  avisar-Estable : (a : Algoritmo) (pid : ℕ) (k : Kernel) → Estable n k (avisar a pid k)
  unfolding avisar
  avisar-Estable fifo pid k = refl
  avisar-Estable rr pid k = refl
  avisar-Estable prioridades pid k =
      si-Estable n k.hay_elegido k _ k (si-Estable n _ k (interrumpir pid k) k refl refl) refl

  admitir-Estable : (cola : List ℕ) (k : Kernel) → Estable n k (admitir cola k)
  unfolding admitir
  admitir-Estable [] k = refl
  admitir-Estable (pid ∷ resto) k =
      let k1 = record k { cola_listos_para_ready = resto } in
      let k2 = set_pcb_ready pid k1 in
      let k3 = avisar k.algoritmo pid k2 in
      si-Estable n (ltb (activos k) k.g_multiprog_ini) k (postear k3) _
        (si-Estable n k3.frenado k3 k3 _ refl refl
          ∙ avisar-Estable k.algoritmo pid k2
          ∙ set_pcb_ready-Estable n pid k1)
        refl

  pub ready_pcb-Estable : (k : Kernel) → Estable n k (ready_pcb k)
  unfolding ready_pcb
  ready_pcb-Estable k = admitir-Estable k.cola_listos_para_ready k

  chekeo-Estable :
      (a : Algoritmo) (pid : ℕ) (k : Kernel) → Estable n k (chekeo_desalojo_prioridades a pid k)
  unfolding chekeo_desalojo_prioridades
  chekeo-Estable fifo pid k = refl
  chekeo-Estable rr pid k = refl
  chekeo-Estable prioridades pid k = si-Estable n _ k (interrumpir k.pcbelegido k) k refl refl

  listo-Estable : (pid : ℕ) (k : Kernel) → Estable n k (set_pcb_ready pid (remove_blocked pid k))
  unfolding remove_blocked
  listo-Estable pid k = set_pcb_ready-Estable n pid (remove_blocked pid k)

  fin_de_operacion_fs-Estable : (pid : ℕ) (k : Kernel) → Queda n k (fin_de_operacion_fs pid k)
  unfolding fin_de_operacion_fs
  fin_de_operacion_fs-Estable pid k =
      let listo = set_pcb_ready pid (remove_blocked pid k) in
      Todo->>= (Estable n k) (buscar_pcb pid k.lista_global) _
        (λ p e. chekeo-Estable listo.algoritmo pid listo ∙ listo-Estable pid k)

  sacar-Estable : (e : EstadoProceso) (pid : ℕ) (k : Kernel) → Estable n k (sacar e pid k)
  unfolding remove_blocked remove_ready
  sacar-Estable new pid k = refl
  sacar-Estable ready pid k = refl
  sacar-Estable exec pid k = refl
  sacar-Estable block pid k = refl
  sacar-Estable finish_exit pid k = refl
  sacar-Estable finish_error pid k = refl

  pub finalizar_proceso-Estable : (pid : ℕ) (k : Kernel) → Queda n k (finalizar_proceso pid k)
  unfolding finalizar_proceso
  finalizar_proceso-Estable pid k =
      let k1 = if es_el_que_corre pid k.proceso_en_ejecucion then interrumpir pid k else k in
      Todo->>= (Estable n k) (buscar_pcb pid k1.lista_global) _ (λ p e.
        let k2 = sacar p.estado pid k1 in
        en_pcb-Estable n pid (λ q. record q { estado = finish_exit }) k2 (λ q. refl) (λ q. refl)
        ∙ sacar-Estable p.estado pid k1
        ∙ si-Estable n (es_el_que_corre pid k.proceso_en_ejecucion) k (interrumpir pid k) k refl
            refl)

  cerrar_cada-Estable : (as' : List ArchivoProceso) (k : Kernel) → Queda n k (cerrar_cada as' k)
  unfolding cerrar_cada cerrar_archivo
  cerrar_cada-Estable [] k = refl
  cerrar_cada-Estable (a ∷ as') k =
      Todo->>= (Estable n k) (cerrar_archivo a.nombre_archivo k) _ (λ k1 e1.
        Todo-map (Estable n k1) (Estable n k) (cerrar_cada as' k1)
          (λ k2 q.
            q
            ∙ Todo-some (Estable n k) _ e1 (
                Todo->>= (Estable n k)
                  (buscar_archivo_global k.lista_archivos_abiertos a.nombre_archivo) _
                  (λ g e. refl)))
          (cerrar_cada-Estable as' k1))

  pcb_destroy-Estable : (pid : ℕ) (k : Kernel) → Queda n k (pcb_destroy pid k)
  unfolding pcb_destroy
  pcb_destroy-Estable pid k = Todo->>= (Estable n k) (buscar_pcb pid k.lista_global) _ (λ p e.
      Todo->>= (Estable n k) (cerrar_cada p.archivos_abiertos k) _ (λ k' e'.
        en_pcb-Estable n pid (λ q. record q { liberado = true }) k' (λ q. refl) (λ q. refl)
        ∙ Todo-some (Estable n k) _ e' (cerrar_cada-Estable p.archivos_abiertos k)))

  admitir_detenido-Estable : (ds : List ℕ) (k : Kernel) → Estable n k (admitir_detenido ds k)
  unfolding admitir_detenido
  admitir_detenido-Estable [] k = refl
  admitir_detenido-Estable (d ∷ ds) k =
      set_pcb_ready-Estable n d (record k { lista_ready_detenidos = ds })

  despachar_exit-Estable : (cola : List ℕ) (k : Kernel) → Queda n k (despachar_exit cola k)
  unfolding despachar_exit replanificar
  despachar_exit-Estable [] k = tt
  despachar_exit-Estable (pid ∷ cola) k =
      let k0 = record k { cola_exit = cola } in
      Todo->>= (Estable n k) (liberar_recursos pid k0) _ (λ k1 e1.
        Todo->>= (Estable n k) (pcb_destroy pid k1) _ (λ k2 e2.
          let k3 = admitir_detenido k2.lista_ready_detenidos k2 in
          si-Estable n k3.frenado k3 _ (replanificar k3) refl refl
          ∙ admitir_detenido-Estable k2.lista_ready_detenidos k2
          ∙ Todo-some (Estable n k1) _ e2 (pcb_destroy-Estable pid k1)
          ∙ liberar_recursos-Estable n pid k0 k1 e1))

  pub exit_pcb-Estable : (k : Kernel) → Queda n k (exit_pcb k)
  unfolding exit_pcb
  exit_pcb-Estable k = despachar_exit-Estable k.cola_exit k

  pub ksleep-Estable : (tiempo : ℕ) (k : Kernel) → Estable n k (ksleep tiempo k)
  unfolding ksleep replanificar
  ksleep-Estable tiempo k =
      let k0 = record k { cola_exec = drop 1 k.cola_exec } in
      let k1 = set_pcb_block k.pcbelegido k0 in
      si-Estable n k1.frenado k1 _ _ refl refl ∙ set_pcb_block-Estable n k.pcbelegido k0

  pub pagina_cargada-Estable : (pid : ℕ) (k : Kernel) → Queda n k (pagina_cargada pid k)
  unfolding pagina_cargada
  pagina_cargada-Estable pid k = Todo->>= (Estable n k) (buscar_pcb pid k.lista_global) _ (λ p e.
      let f : Pcb → Pcb = λ q. record q {
        contexto_ejecucion = record q.contexto_ejecucion {
          motivo_desalojado = codigo_motivo page_fault_resuelto;
        };
      } in
      let marcado = en_pcb pid f k in
      let listo = set_pcb_ready pid (remove_blocked pid marcado) in
      let avisado = chekeo_desalojo_prioridades listo.algoritmo pid listo in
      si-Estable n avisado.frenado avisado avisado (continuar avisado) refl refl
      ∙ chekeo-Estable listo.algoritmo pid listo
      ∙ listo-Estable pid marcado
      ∙ en_pcb-Estable n pid f k (λ q. refl) (λ q. refl))

  crear_en_fs-Estable : (k : Kernel) → Queda n k (crear_en_fs k)
  unfolding crear_en_fs enviar_instruccion_fs
  crear_en_fs-Estable k =
      Todo->>= (Estable n k) k.proceso_en_ejecucion _
        (λ pid e. Todo->>= (Estable n k) (instruccion_de pid k) _ (λ i ei. refl))

  pub recibir_op_fs-Estable :
      (op : RespFile) (pid : ℕ) (k : Kernel) → Queda n k (recibir_op_fs op pid k)
  unfolding recibir_op_fs
  recibir_op_fs-Estable f_error pid k = refl
  recibir_op_fs-Estable f_open_success pid k = refl
  recibir_op_fs-Estable f_create_success pid k = refl
  recibir_op_fs-Estable f_truncate_success pid k = fin_de_operacion_fs-Estable pid k
  recibir_op_fs-Estable f_write_success pid k = fin_de_operacion_fs-Estable pid k
  recibir_op_fs-Estable f_read_success pid k = fin_de_operacion_fs-Estable pid k
  recibir_op_fs-Estable file_doesnt_exists pid k = crear_en_fs-Estable k
  recibir_op_fs-Estable f_close_success pid k = tt
  recibir_op_fs-Estable f_seek_success pid k = tt
