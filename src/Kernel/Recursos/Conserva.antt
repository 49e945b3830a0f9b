-- ===== src/Kernel/Recursos/Conserva.antt =====
-- kernel/src/instructions.c: WAIT and SIGNAL, and the instances of the resource they name.
use so_2c_2023_no_me_queme.Base.{
  ℕ, ◌+◌, ◌≡◌, refl, ap, sym, ◌∙◌, Option, none, some, List, [], ◌∷◌, ◌++◌, arith, ◌==◌,
  if◌then◌else◌, Bool, true, false,
}
use mathlib.Core.Path.{subst}
use so_2c_2023_no_me_queme.Base.Opt.{◌>>=◌, Todo, Todo->>=, Todo-some}
use so_2c_2023_no_me_queme.Kernel.Estado.{
  Kernel, Pcb, Recurso, buscar_pcb, con_pcb, set_pcb_ready, remove_blocked, replanificar, continuar,
  finish_exit, block, ready,
}
use so_2c_2023_no_me_queme.Kernel.Recursos.{
  buscar_recurso, tiene_recurso, mas_uno, menos_uno, en_kernel, en_proceso, a_exit,
  finalizar_proceso_en_ejecucion, bloquear_por_recurso, kwait_inexistente, kwait_con, pedir, kwait,
  despertar, ksignal_con, ksignal,
}
use so_2c_2023_no_me_queme.Kernel.Recursos.Total.{
  cant, total, cant-con_recurso, repartidas_igual, buscar_recurso-con_recurso,
}
use so_2c_2023_no_me_queme.Kernel.Recursos.Prestamo.{
  Tomada, en_proceso-mas_uno, Devuelta, en_proceso-menos_uno,
}

module _ (n : List ℕ) where
  abbrev Conserva : Kernel → Kernel → Type 0
  Conserva k k' = total n k' ≡ total n k

  kwait_inexistente-total :
      (cola : List ℕ) (k : Kernel) → Todo (Conserva k) (kwait_inexistente cola k)
  unfolding kwait_inexistente
  kwait_inexistente-total [] k = tt
  kwait_inexistente-total (aux ∷ resto) k =
      ap (λ x. cant n k.recursos_kernel + x) (repartidas_igual n aux _ k.lista_global (λ x. refl))

  bloquear_por_recurso-total :
      (k : Kernel) (r : Recurso)
      → buscar_recurso n k.recursos_kernel ≡ some r
      → Conserva k (bloquear_por_recurso n k)
  unfolding bloquear_por_recurso replanificar
  bloquear_por_recurso-total k r e =
      let (a, b) =
        cant-con_recurso n
          (λ x. record x { colabloqueado = x.colabloqueado ++ (k.pcbelegido ∷ []) })
          k.recursos_kernel (λ x. refl) e in
      let c =
        repartidas_igual n k.pcbelegido (λ p. record p { estado = block }) k.lista_global
          (λ x. refl) in
      omega (arith, a, b, c)

  toma-total :
      (k : Kernel) (r : Recurso) (b : Bool)
      → (r.cantidad == 0) ≡ b
      → buscar_recurso n k.recursos_kernel ≡ some r
      → Todo (Conserva k) (
          if b
          then some (bloquear_por_recurso n k)
          else (en_proceso k.pcbelegido n mas_uno (en_kernel n menos_uno k) >>= λ k'.
              some (continuar k')))
  toma-total k r true q e = bloquear_por_recurso-total k r e
  toma-total k r false q e = Todo->>= (Conserva k) _ _ (λ k' ek.
      let (t, m) =
        Todo-some (Tomada n (en_kernel n menos_uno k)) _ ek
          (en_proceso-mas_uno n k.pcbelegido (en_kernel n menos_uno k)) in
      let (a, b) = cant-con_recurso n menos_uno k.recursos_kernel (λ x. refl) e in
      let mk = ap (cant n) m in ground (arith, q, a, b, t, mk))

  kwait_con-total :
      (o : Option Recurso) (k : Kernel)
      → buscar_recurso n k.recursos_kernel ≡ o
      → Todo (Conserva k) (kwait_con o n k)
  unfolding kwait_con
  kwait_con-total none k e = kwait_inexistente-total k.cola_exec k
  kwait_con-total (some r) k e = toma-total k r (r.cantidad == 0) refl e

  pedir-total : (k : Kernel) → Conserva k (pedir n k)
  pedir-total k =
      ap (λ x. cant n k.recursos_kernel + x)
        (repartidas_igual n k.pcbelegido (λ p. record p { recurso_instruccion = n }) k.lista_global
          (λ x. refl))

  -- WAIT neither creates nor destroys instances of the resource that it names, whether the process
  -- takes one, blocks, or ends since there is no such resource: those free and those held add up
  -- to the same.
  pub kwait-total : (k k' : Kernel) → kwait n k ≡ some k' → total n k' ≡ total n k
  unfolding kwait
  kwait-total k k' h =
      Todo-some (Conserva (pedir n k)) _ h
        (kwait_con-total (buscar_recurso n k.recursos_kernel) (pedir n k) refl)
      ∙ pedir-total k

  abbrev pub despiertos : List ℕ → ℕ
  despiertos [] = 0
  despiertos (d ∷ cola) = 1

  despertar-total :
      (cola : List ℕ) (k : Kernel) (r : Recurso)
      → buscar_recurso n k.recursos_kernel ≡ some r
      → Todo (λ k'. total n k' ≡ total n k + despiertos cola) (despertar cola n k)
  unfolding despertar set_pcb_ready remove_blocked
  despertar-total [] k r e = omega arith
  despertar-total (d ∷ cola) k r e =
      let k1 = en_kernel n (λ x. record x { colabloqueado = cola }) k in
      Todo->>= (λ k'. total n k' ≡ total n k + 1) _ _
        (λ k2 e2.
          let (t, m) = Todo-some (Tomada n k1) _ e2 (en_proceso-mas_uno n d k1) in
          let (a, b) =
            cant-con_recurso n (λ x. record x { colabloqueado = cola }) k.recursos_kernel
              (λ x. refl) e in
          let mk = ap (cant n) m in
          let listo =
            repartidas_igual n d (λ p. record p { estado = ready }) k2.lista_global (λ x. refl) in
          let hora =
            repartidas_igual n d (λ p. record p { tiempo_ingreso_ready = k2.hora })
              (con_pcb d (λ p. record p { estado = ready }) k2.lista_global) (λ x. refl) in
          omega (arith, t, a, b, mk, listo, hora))

  -- How many processes SIGNAL wakes: one, where the resource exists, the process that runs holds
  -- an instance and the resource's queue is not empty.
  abbrev pub despertados_si : Option Bool → Recurso → ℕ
  despertados_si (some true) r = despiertos r.colabloqueado
  despertados_si _ r = 0

  abbrev pub despertados : Option Recurso → Kernel → ℕ
  despertados none k = 0
  despertados (some r) k =
      despertados_si
        (buscar_pcb k.pcbelegido k.lista_global >>= λ p. tiene_recurso p.recursos_asignados n) r

  a_exit-total : (k : Kernel) → Conserva k (a_exit k)
  a_exit-total k =
      ap (λ x. cant n k.recursos_kernel + x)
        (repartidas_igual n k.pcbelegido (λ p. record p { estado = finish_exit }) k.lista_global
          (λ x. refl))

  abbrev liberar : Recurso → Kernel → Option Kernel
  liberar r k =
      en_proceso k.pcbelegido n menos_uno (en_kernel n mas_uno k) >>= despertar r.colabloqueado n

  abbrev terminar : Kernel → Kernel
  terminar k =
      let t = finalizar_proceso_en_ejecucion k in
      replanificar (record t { sem_exit = t.sem_exit + 1 })

  terminar-total : (k : Kernel) → Conserva k (terminar k)
  unfolding finalizar_proceso_en_ejecucion replanificar
  terminar-total k = a_exit-total k

  liberar-total :
      (k : Kernel) (r : Recurso) (p : Pcb)
      → buscar_recurso n k.recursos_kernel ≡ some r
      → buscar_pcb k.pcbelegido k.lista_global ≡ some p
      → tiene_recurso p.recursos_asignados n ≡ some true
      → Todo (λ k'. total n k' ≡ total n k + despiertos r.colabloqueado) (liberar r k)
  liberar-total k r p e ep t =
      let k1 = en_kernel n mas_uno k in
      let e' = buscar_recurso-con_recurso n mas_uno k.recursos_kernel (λ x. refl) e in
      let (a, b) = cant-con_recurso n mas_uno k.recursos_kernel (λ x. refl) e in
      Todo->>= (λ k'. total n k' ≡ total n k + despiertos r.colabloqueado) _ _
        (λ k2 e2.
          let (d, m) =
            Todo-some (Devuelta n k1) _ e2 (en_proceso-menos_uno n k.pcbelegido k1 p ep t) in
          let mk = ap (cant n) m in
          subst
            (λ x.
              Todo (λ k'. total n k' ≡ x + despiertos r.colabloqueado)
                (despertar r.colabloqueado n k2))
            (omega (arith, a, b, d, mk))
            (despertar-total r.colabloqueado k2 (mas_uno r) (ap (buscar_recurso n) m ∙ e')))

  segun_tiene :
      (b : Bool) (k : Kernel) (r : Recurso) (p : Pcb)
      → buscar_recurso n k.recursos_kernel ≡ some r
      → buscar_pcb k.pcbelegido k.lista_global ≡ some p
      → tiene_recurso p.recursos_asignados n ≡ some b
      → Todo
          (λ k'. total n k' ≡ total n k + despertados_si (some b) r)
          (if b then liberar r k else some (terminar k))
  segun_tiene true k r p e ep t = liberar-total k r p e ep t
  segun_tiene false k r p e ep t = omega (arith, terminar-total k)

  ksignal_con-total :
      (o : Option Recurso) (k : Kernel)
      → buscar_recurso n k.recursos_kernel ≡ o
      → Todo (λ k'. total n k' ≡ total n k + despertados o k) (ksignal_con o n k)
  unfolding ksignal_con
  ksignal_con-total none k e = omega (arith, a_exit-total k)
  ksignal_con-total (some r) k e =
      Todo->>= (λ k'. total n k' ≡ total n k + despertados (some r) k)
        (buscar_pcb k.pcbelegido k.lista_global) _
        (λ p ep.
          Todo->>= (λ k'. total n k' ≡ total n k + despertados (some r) k)
            (tiene_recurso p.recursos_asignados n) _
            (λ tiene et.
              subst
                (λ x.
                  Todo (λ k'. total n k' ≡ total n k + despertados_si x r)
                    (if tiene then liberar r k else some (terminar k)))
                (sym (ap (λ o. o >>= λ q. tiene_recurso q.recursos_asignados n) ep ∙ et))
                (segun_tiene tiene k r p e ep et)))

  -- SIGNAL keeps the instances of the resource that it names when it wakes no process, and adds one
  -- when it wakes one: the woken process gets an instance that the kernel still counts as free.
  pub ksignal-total :
      (k k' : Kernel)
      → ksignal n k ≡ some k'
      → total n k' ≡ total n k + despertados (buscar_recurso n k.recursos_kernel) (pedir n k)
  unfolding ksignal
  ksignal-total k k' h =
      let r =
        Todo-some
          (λ x.
            total n x
            ≡ total n (pedir n k) + despertados (buscar_recurso n k.recursos_kernel) (pedir n k))
          _ h (ksignal_con-total (buscar_recurso n k.recursos_kernel) (pedir n k) refl) in
      omega (arith, r, pedir-total k)
