-- ===== src/Kernel/Recursos/Ajenos.antt =====
-- kernel/: what the operations on one resource leave alone: a view of the kernel that does not look
-- at the resource is the same behind each of them.
use so_2c_2023_no_me_queme.Base.{
  ℕ, ◌++◌, ◌≡◌, refl, ap, ◌∙◌, Option, none, some, List, [], ◌∷◌, arith, if◌then◌else◌, ◌==◌,
  bytes_eq,
}
use so_2c_2023_no_me_queme.Base.Opt.{Todo, Todo->>=, Todo-some, si-Todo, Todo-map}
use so_2c_2023_no_me_queme.Shared.Cadena.{cadena, strcmp_eq}
use so_2c_2023_no_me_queme.Kernel.Estado.{
  Kernel, Pcb, Recurso, EstadoProceso, buscar_pcb, con_pcb, cambiar_estado, set_pcb_ready,
  remove_blocked, replanificar,
}
use so_2c_2023_no_me_queme.Kernel.Recursos.{
  buscar_recurso, con_recurso, tiene_recurso, mas_uno, menos_uno, en_kernel, en_proceso,
  finalizar_proceso_en_ejecucion, bloquear_por_recurso, kwait_inexistente, kwait_con, pedir, kwait,
  despertar, ksignal_con, ksignal,
}
use so_2c_2023_no_me_queme.Kernel.Recursos.Total.{cant, repartidas, total}

pub cant_nombre : (m n : List ℕ) (rs : List Recurso) → cadena m ≡ cadena n → cant m rs ≡ cant n rs
unfolding cant
cant_nombre m n [] e = refl
cant_nombre m n (r ∷ rs) e =
    ap (λ c. if bytes_eq (cadena r.nombre) c then r.cantidad else cant m rs) e
    ∙ ap (λ y. if strcmp_eq r.nombre n then r.cantidad else y) (cant_nombre m n rs e)

pub repartidas_nombre :
    (m n : List ℕ) (ps : List Pcb) → cadena m ≡ cadena n → repartidas m ps ≡ repartidas n ps
unfolding repartidas
repartidas_nombre m n [] e = refl
repartidas_nombre m n (p ∷ ps) e =
    omega (arith, cant_nombre m n p.recursos_asignados e, repartidas_nombre m n ps e)

-- The name of a resource is its characters.
pub total_nombre : (m n : List ℕ) (k : Kernel) → cadena m ≡ cadena n → total m k ≡ total n k
total_nombre m n k e =
    omega (arith, cant_nombre m n k.recursos_kernel e, repartidas_nombre m n k.lista_global e)

abbrev pub Vista : Type 0 → Type 0
Vista X = List Pcb → List Recurso → ℕ → X

abbrev pub ver : {X : Type 0} → Vista X → Kernel → X
ver h k = h k.lista_global k.recursos_kernel k.generador_de_id

abbrev pub asignar_recurso : List ℕ → (Recurso → Recurso) → Pcb → Pcb
asignar_recurso m f q = record q { recursos_asignados = con_recurso m f q.recursos_asignados }

-- The view looks neither at the resource nor at the fields of a process that an assignment changes.
pub record NoMira {X : Type 0} (m : List ℕ) (h : Vista X) : Type 0 where
  pub otro :
      (pid : ℕ) (f : Pcb → Pcb) (ps : List Pcb) (rs : List Recurso) (g : ℕ)
      → ((p : Pcb) → (f p).pid ≡ p.pid)
      → ((p : Pcb) → (f p).recursos_asignados ≡ p.recursos_asignados)
      → h (con_pcb pid f ps) rs g ≡ h ps rs g
  pub presta :
      (pid : ℕ) (f : Recurso → Recurso) (ps : List Pcb) (rs : List Recurso) (g : ℕ)
      → ((x : Recurso) → (f x).nombre ≡ x.nombre)
      → h (con_pcb pid (asignar_recurso m f) ps) rs g ≡ h ps rs g
  pub libre :
      (f : Recurso → Recurso) (ps : List Pcb) (rs : List Recurso) (g : ℕ)
      → ((x : Recurso) → (f x).nombre ≡ x.nombre)
      → h ps (con_recurso m f rs) g ≡ h ps rs g

module _ {X : Type 0} (m : List ℕ) (h : Vista X) (v : NoMira m h) where
  abbrev pub Igual : Kernel → Kernel → Type 0
  Igual k k' = ver h k' ≡ ver h k

  pub set_pcb_ready-Igual : (pid : ℕ) (k : Kernel) → Igual k (set_pcb_ready pid k)
  unfolding set_pcb_ready
  set_pcb_ready-Igual pid k =
      v.otro pid (λ p. record p { tiempo_ingreso_ready = k.hora })
        (cambiar_estado pid EstadoProceso.ready k).lista_global k.recursos_kernel k.generador_de_id
        (λ p. refl) (λ p. refl)
      ∙ v.otro pid (λ p. record p { estado = EstadoProceso.ready }) k.lista_global k.recursos_kernel
          k.generador_de_id (λ p. refl) (λ p. refl)

  cambiar_estado-Igual :
      (pid : ℕ) (e : EstadoProceso) (k : Kernel) → Igual k (cambiar_estado pid e k)
  cambiar_estado-Igual pid e k =
      v.otro pid (λ p. record p { estado = e }) k.lista_global k.recursos_kernel k.generador_de_id
        (λ p. refl) (λ p. refl)

  pub en_kernel-Igual :
      (f : Recurso → Recurso) (k : Kernel)
      → ((x : Recurso) → (f x).nombre ≡ x.nombre)
      → Igual k (en_kernel m f k)
  en_kernel-Igual f k e = v.libre f k.lista_global k.recursos_kernel k.generador_de_id e

  pub en_proceso-Igual :
      (pid : ℕ) (f : Recurso → Recurso) (k : Kernel)
      → ((x : Recurso) → (f x).nombre ≡ x.nombre)
      → Todo (Igual k) (en_proceso pid m f k)
  unfolding en_proceso
  en_proceso-Igual pid f k e = Todo->>= (Igual k) (buscar_pcb pid k.lista_global) _ (λ p ep.
      Todo->>= (Igual k) (buscar_recurso m p.recursos_asignados) _
        (λ r er. v.presta pid f k.lista_global k.recursos_kernel k.generador_de_id e))

  kwait_inexistente-Igual : (cola : List ℕ) (k : Kernel) → Todo (Igual k) (kwait_inexistente cola k)
  unfolding kwait_inexistente
  kwait_inexistente-Igual [] k = tt
  kwait_inexistente-Igual (aux ∷ resto) k = cambiar_estado-Igual aux EstadoProceso.finish_exit k

  kwait_con-Igual : (o : Option Recurso) (k : Kernel) → Todo (Igual k) (kwait_con o m k)
  unfolding kwait_con bloquear_por_recurso replanificar
  kwait_con-Igual none k = kwait_inexistente-Igual k.cola_exec k
  kwait_con-Igual (some r) k =
      let bloqueado = cambiar_estado k.pcbelegido EstadoProceso.block k in
      si-Todo (Igual k) (r.cantidad == 0) (some (bloquear_por_recurso m k)) _
        (en_kernel-Igual (λ x. record x { colabloqueado = x.colabloqueado ++ (k.pcbelegido ∷ []) })
            bloqueado (λ x. refl)
          ∙ cambiar_estado-Igual k.pcbelegido EstadoProceso.block k)
        (Todo->>= (Igual k) (en_proceso k.pcbelegido m mas_uno (en_kernel m menos_uno k)) _ (λ k' e.
          Todo-some (Igual (en_kernel m menos_uno k)) _ e
            (en_proceso-Igual k.pcbelegido mas_uno (en_kernel m menos_uno k) (λ x. refl))
          ∙ en_kernel-Igual menos_uno k (λ x. refl)))

  pedir-Igual : (k : Kernel) → Igual k (pedir m k)
  pedir-Igual k =
      v.otro k.pcbelegido (λ p. record p { recurso_instruccion = m }) k.lista_global
        k.recursos_kernel k.generador_de_id (λ p. refl) (λ p. refl)

  pub kwait-Igual : (k : Kernel) {k' : Kernel} → kwait m k ≡ some k' → Igual k k'
  unfolding kwait
  kwait-Igual k e =
      Todo-some (Igual (pedir m k)) _ e
        (kwait_con-Igual (buscar_recurso m k.recursos_kernel) (pedir m k))
      ∙ pedir-Igual k

  despertar-Igual : (cola : List ℕ) (k : Kernel) → Todo (Igual k) (despertar cola m k)
  unfolding despertar remove_blocked
  despertar-Igual [] k = refl
  despertar-Igual (d ∷ cola) k =
      let f : Recurso → Recurso = λ r. record r { colabloqueado = cola } in
      Todo->>= (Igual k) (en_proceso d m mas_uno (en_kernel m f k)) _ (λ k' e.
        set_pcb_ready-Igual d (remove_blocked d k')
        ∙ Todo-some (Igual (en_kernel m f k)) _ e
            (en_proceso-Igual d mas_uno (en_kernel m f k) (λ x. refl))
        ∙ en_kernel-Igual f k (λ x. refl))

  ksignal_con-Igual : (o : Option Recurso) (k : Kernel) → Todo (Igual k) (ksignal_con o m k)
  unfolding ksignal_con finalizar_proceso_en_ejecucion replanificar
  ksignal_con-Igual none k = cambiar_estado-Igual k.pcbelegido EstadoProceso.finish_exit k
  ksignal_con-Igual (some r) k =
      let k1 = en_kernel m mas_uno k in
      Todo->>= (Igual k) (buscar_pcb k.pcbelegido k.lista_global) _ (λ p ep.
        Todo->>= (Igual k) (tiene_recurso p.recursos_asignados m) _ (λ tiene et.
          si-Todo (Igual k) tiene _ _
            (Todo->>= (Igual k) (en_proceso k.pcbelegido m menos_uno k1) _ (λ k' e.
              Todo-map (Igual k') (Igual k) (despertar r.colabloqueado m k')
                (λ k'' q.
                  q
                  ∙ Todo-some (Igual k1) _ e
                      (en_proceso-Igual k.pcbelegido menos_uno k1 (λ x. refl))
                  ∙ en_kernel-Igual mas_uno k (λ x. refl))
                (despertar-Igual r.colabloqueado k')))
            (cambiar_estado-Igual k.pcbelegido EstadoProceso.finish_exit k)))

  pub ksignal-Igual : (k : Kernel) {k' : Kernel} → ksignal m k ≡ some k' → Igual k k'
  unfolding ksignal
  ksignal-Igual k e =
      Todo-some (Igual (pedir m k)) _ e
        (ksignal_con-Igual (buscar_recurso m k.recursos_kernel) (pedir m k))
      ∙ pedir-Igual k
