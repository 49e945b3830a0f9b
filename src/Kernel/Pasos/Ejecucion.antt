-- ===== src/Kernel/Pasos/Ejecucion.antt =====
-- kernel/src/plani.c: the thread of `exec_pcb` neither creates processes nor loses instances.
use so_2c_2023_no_me_queme.Base.{
  ℕ, ◌/◌, ◌≡◌, refl, ◌∙◌, Option, none, some, List, [], ◌∷◌, ◌==◌, ltb, Bool,
}
use so_2c_2023_no_me_queme.Base.Opt.{◌>>=◌, Todo, Todo->>=, Todo-map, Todo-todos, si-Todo}
use so_2c_2023_no_me_queme.Shared.Cadena.{atoi}
use so_2c_2023_no_me_queme.Shared.Contexto.{Contexto, codigo_motivo, page_fault}
use so_2c_2023_no_me_queme.Shared.Instruccion.{
  NombreInstruccion, nombre, set, sum, sub, jnz, sleep, wait, signal, mov_in, mov_out, f_open,
  f_create, f_close, f_seek, f_read, f_write, f_truncate, exit, print_file_data,
}
use so_2c_2023_no_me_queme.Kernel.Estado.{Kernel, EstadoProceso, buscar_pcb, replanificar}
use so_2c_2023_no_me_queme.Kernel.Recursos.{a_exit, kwait, ksignal}
use so_2c_2023_no_me_queme.Kernel.Planificador.{
  elegir_pcb_segun_algoritmo, tomar_primero, ordenar, proceso_admitido,
}
use so_2c_2023_no_me_queme.Kernel.Archivos.Llamadas.{
  instruccion_de, kf_open, kf_close, kf_seek, kf_read, kf_write, kf_truncate,
}
use so_2c_2023_no_me_queme.Kernel.Hilos.Ejecucion.{
  sigue_el_mismo, enviar_a_cpu, elegido, elegir, seguir_o_elegir, exec_pcb, exec_page_fault,
  exec_default, atender_sleep, atender_recurso, atender_syscall, con_contexto, exec_recibir,
}
use so_2c_2023_no_me_queme.Kernel.Pasos.Estable.{
  Estable, Avance, Avance-trans, Estable-Avance, si-Estable, en_pcb-Estable, set_pcb_block-Estable,
}
use so_2c_2023_no_me_queme.Kernel.Pasos.Archivos.{
  Queda, kf_open-Estable, kf_close-Estable, kf_seek-Estable, kf_read-Estable, kf_write-Estable,
  kf_truncate-Estable,
}
use so_2c_2023_no_me_queme.Kernel.Pasos.Recursos.{kwait-Estable, ksignal-Avance}
use so_2c_2023_no_me_queme.Kernel.Pasos.Hilos.{ksleep-Estable}

module _ (n : List ℕ) where
  enviar_a_cpu-Estable : (k : Kernel) → Queda n k (enviar_a_cpu k)
  unfolding enviar_a_cpu replanificar
  enviar_a_cpu-Estable k =
      Todo->>= (Estable n k) (buscar_pcb k.pcbelegido k.lista_global) _
        (λ p e. si-Estable n (ltb 0 (k.pcbelegido / 100)) k (replanificar k) _ refl refl)

  proceso_admitido-Estable : (pid : ℕ) (k : Kernel) → Estable n k (proceso_admitido pid k)
  unfolding proceso_admitido
  proceso_admitido-Estable pid k =
      en_pcb-Estable n pid (λ p. record p { estado = EstadoProceso.exec }) k (λ p. refl) (λ p. refl)

  tomado-Estable :
      (cola : List ℕ) (k : Kernel)
      → Queda n k
          (tomar_primero cola k >>= λ r. enviar_a_cpu (elegido r.0 (proceso_admitido r.0 r.1)))
  unfolding tomar_primero
  tomado-Estable [] k = tt
  tomado-Estable (pid ∷ resto) k =
      let k0 = record k { lista_ready = resto } in
      let k1 = elegido pid (proceso_admitido pid k0) in
      Todo-map (Estable n k1) (Estable n k) (enviar_a_cpu k1)
        (λ k2 q. q ∙ proceso_admitido-Estable pid k0) (enviar_a_cpu-Estable k1)

  module _ (list_sort : (ℕ → ℕ → Bool) → List ℕ → List ℕ) where
    elegir-Estable : (k : Kernel) → Queda n k (elegir list_sort k)
    unfolding elegir elegir_pcb_segun_algoritmo
    elegir-Estable k = tomado-Estable (ordenar list_sort k.algoritmo k) k

    seguir_o_elegir-Estable :
        (o : Option ℕ) (ps : List ℕ) (k : Kernel) → Queda n k (seguir_o_elegir list_sort o ps k)
    unfolding seguir_o_elegir
    seguir_o_elegir-Estable none [] k = refl
    seguir_o_elegir-Estable none (p ∷ ps) k = elegir-Estable k
    seguir_o_elegir-Estable (some pid) ps k =
        Todo->>= (Estable n k) (sigue_el_mismo pid k) _ (λ sigue e.
          si-Todo (Estable n k) sigue _ _ (enviar_a_cpu-Estable (elegido pid k)) (elegir-Estable k))

    pub exec_pcb-Estable : (k : Kernel) → Queda n k (exec_pcb list_sort k)
    unfolding exec_pcb
    exec_pcb-Estable k = seguir_o_elegir-Estable k.proceso_en_ejecucion k.lista_ready k

  estable : (k : Kernel) (o : Option Kernel) → Queda n k o → Todo (Avance n k) o
  estable k o q = Todo-map (Estable n k) (Avance n k) o (λ k' e. Estable-Avance n k k' e) q

  atender_sleep-Estable : (k : Kernel) → Queda n k (atender_sleep k)
  unfolding atender_sleep
  atender_sleep-Estable k =
      Todo->>= (Estable n k) (instruccion_de k.pcbelegido k) _
        (λ i e. ksleep-Estable n (atoi i.parametro1) k)

  atender_recurso-Avance :
      (llamada : List ℕ → Kernel → Option Kernel) (k : Kernel)
      → ((m : List ℕ) (k' : Kernel) → llamada m k ≡ some k' → Avance n k k')
      → Todo (Avance n k) (atender_recurso llamada k)
  unfolding atender_recurso
  atender_recurso-Avance llamada k h =
      Todo->>= (Avance n k) (instruccion_de k.pcbelegido k) _
        (λ i e. Todo-todos (Avance n k) (llamada i.parametro1 k) (h i.parametro1))

  exec_default-Estable : (k : Kernel) → Estable n k (exec_default k)
  unfolding exec_default
  exec_default-Estable k = si-Estable n k.frenado k _ _ refl refl

  por_omision : (k : Kernel) → Todo (Avance n k) (some (exec_default k))
  por_omision k = Estable-Avance n k (exec_default k) (exec_default-Estable k)

  atender_syscall-Avance :
      (o : Option NombreInstruccion) (k : Kernel) → Todo (Avance n k) (atender_syscall o k)
  unfolding atender_syscall
  atender_syscall-Avance (some exit) k = Estable-Avance n k (a_exit k) (
      en_pcb-Estable n k.pcbelegido (λ p. record p { estado = EstadoProceso.finish_exit }) k
        (λ p. refl) (λ p. refl))
  atender_syscall-Avance (some sleep) k = estable k (atender_sleep k) (atender_sleep-Estable k)
  atender_syscall-Avance (some wait) k =
      atender_recurso-Avance kwait k (λ m k' e. Estable-Avance n k k' (kwait-Estable n m k k' e))
  atender_syscall-Avance (some signal) k =
      atender_recurso-Avance ksignal k (λ m k' e. ksignal-Avance n m k k' e)
  atender_syscall-Avance (some f_open) k = estable k (kf_open k) (kf_open-Estable n k)
  atender_syscall-Avance (some f_close) k = estable k (kf_close k) (kf_close-Estable n k)
  atender_syscall-Avance (some f_seek) k = estable k (kf_seek k) (kf_seek-Estable n k)
  atender_syscall-Avance (some f_read) k = estable k (kf_read k) (kf_read-Estable n k)
  atender_syscall-Avance (some f_write) k = estable k (kf_write k) (kf_write-Estable n k)
  atender_syscall-Avance (some f_truncate) k = estable k (kf_truncate k) (kf_truncate-Estable n k)
  atender_syscall-Avance (some set) k = por_omision k
  atender_syscall-Avance (some sum) k = por_omision k
  atender_syscall-Avance (some sub) k = por_omision k
  atender_syscall-Avance (some jnz) k = por_omision k
  atender_syscall-Avance (some mov_in) k = por_omision k
  atender_syscall-Avance (some mov_out) k = por_omision k
  atender_syscall-Avance (some f_create) k = por_omision k
  atender_syscall-Avance (some print_file_data) k = por_omision k
  atender_syscall-Avance none k = por_omision k

  con_contexto-Estable : (c : Contexto) (k : Kernel) → Estable n k (con_contexto c k)
  unfolding con_contexto
  con_contexto-Estable c k =
      en_pcb-Estable n k.pcbelegido (λ p. record p { contexto_ejecucion = c }) k (λ p. refl)
        (λ p. refl)

  exec_page_fault-Estable : (nro : ℕ) (k : Kernel) → Estable n k (exec_page_fault nro k)
  unfolding exec_page_fault
  exec_page_fault-Estable nro k = set_pcb_block-Estable n k.pcbelegido k

  pub exec_recibir-Avance : (c : Contexto) (k : Kernel) → Todo (Avance n k) (exec_recibir c k)
  unfolding exec_recibir
  exec_recibir-Avance c k =
      let c' = record c {
        instruccion_ejecutada = record c.instruccion_ejecutada { pid = k.pcbelegido };
      } in
      let k1 = con_contexto c' k in
      si-Todo (Avance n k) (c.motivo_desalojado == codigo_motivo page_fault) _ _
        (Estable-Avance n k (exec_page_fault c.nro_pf (con_contexto c k))
          (exec_page_fault-Estable c.nro_pf (con_contexto c k) ∙ con_contexto-Estable c k))
        (Todo-map (Avance n k1) (Avance n k) (atender_syscall (nombre c.codigo_ultima_instru) k1)
          (λ k2 a. Avance-trans n k k1 k2 (Estable-Avance n k k1 (con_contexto-Estable c' k)) a)
          (atender_syscall-Avance (nombre c.codigo_ultima_instru) k1))
