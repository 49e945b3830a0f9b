-- ===== src/Kernel/Liberacion/Devolucion.antt =====
-- kernel/src/kernel.c: `liberar_recursos` and the instances of a resource.
use so_2c_2023_no_me_queme.Base.{
  ℕ, ◌+◌, ◌≡◌, refl, ap, ◌∙◌, some, List, [], ◌∷◌, arith, ltb, if◌then◌else◌, Bool, true, false,
}
use mathlib.Core.Path.{subst}
use so_2c_2023_no_me_queme.Base.Opt.{Todo, Todo->>=, Todo-some}
use so_2c_2023_no_me_queme.Kernel.Estado.{
  Kernel, Pcb, Recurso, buscar_pcb, con_pcb, set_pcb_ready, remove_blocked, replanificar, ready,
}
use so_2c_2023_no_me_queme.Kernel.Recursos.{
  buscar_recurso, con_recurso, menos_uno, en_kernel, en_proceso,
}
use so_2c_2023_no_me_queme.Kernel.Recursos.Total.{
  cant, repartidas, total, cant-con_recurso, repartidas-con_pcb, repartidas_igual,
  buscar_recurso-con_recurso,
}
use so_2c_2023_no_me_queme.Kernel.Recursos.Prestamo.{Tomada, en_proceso-mas_uno}
use so_2c_2023_no_me_queme.Kernel.Liberacion.{
  sin_proceso, en_cero, recuperar, a_ready, entregar, devolver, liberar_uno,
}

module _ (n : List ℕ) where
  elegir_total :
      (b : Bool) (x y : Kernel) (t : ℕ)
      → total n x ≡ t
      → total n y ≡ t
      → total n (if b then x else y) ≡ t
  elegir_total true x y t p q = p
  elegir_total false x y t p q = q

  pub a_ready-total : (d : ℕ) (k : Kernel) → total n (a_ready d k) ≡ total n k
  unfolding a_ready replanificar set_pcb_ready
  a_ready-total d k =
      let listo =
        repartidas_igual n d (λ p. record p { estado = ready }) k.lista_global (λ x. refl) in
      let hora =
        repartidas_igual n d (λ p. record p { tiempo_ingreso_ready = k.hora })
          (con_pcb d (λ p. record p { estado = ready }) k.lista_global) (λ x. refl) in
      elegir_total k.frenado _ _ (total n k) refl (omega (arith, listo, hora))

  entregar-total :
      (cola : List ℕ) (k : Kernel) (r : Recurso)
      → buscar_recurso n k.recursos_kernel ≡ some r
      → ltb 0 r.cantidad ≡ true
      → Todo (λ k'. total n k' ≡ total n k) (entregar cola n k)
  unfolding entregar remove_blocked
  entregar-total [] k r e h = refl
  entregar-total (d ∷ cola) k r e h =
      Todo->>= (λ k'. total n k' ≡ total n k) _ _
        (λ k2 e2.
          let (t, m) =
            Todo-some (Tomada n (remove_blocked d k)) _ e2
              (en_proceso-mas_uno n d (remove_blocked d k)) in
          let (a, b) =
            cant-con_recurso n menos_uno k2.recursos_kernel (λ x. refl)
              (ap (buscar_recurso n) m ∙ e) in
          let mk = ap (cant n) m in
          let fin = a_ready-total d (en_kernel n menos_uno k2) in
          ground (arith, fin, t, a, b, mk, h))

  en_proceso-en_cero :
      (pid : ℕ) (k : Kernel) (p : Pcb) (r : Recurso)
      → buscar_pcb pid k.lista_global ≡ some p
      → buscar_recurso n p.recursos_asignados ≡ some r
      → Todo
          (λ k'.
            (repartidas n k'.lista_global + r.cantidad ≡ repartidas n k.lista_global)
            × (k'.recursos_kernel ≡ k.recursos_kernel))
          (en_proceso pid n en_cero k)
  unfolding en_proceso
  en_proceso-en_cero pid k p r ep er =
      let (a, b) = cant-con_recurso n en_cero p.recursos_asignados (λ x. refl) er in
      let c =
        repartidas-con_pcb n pid
          (λ q. record q { recursos_asignados = con_recurso n en_cero q.recursos_asignados })
          k.lista_global ep in
      simp (ep, er) (omega (arith, a, b, c), refl)

  devolver-total :
      (pid : ℕ) (p : Pcb) (r : Recurso) (k : Kernel)
      → buscar_pcb pid k.lista_global ≡ some p
      → buscar_recurso n p.recursos_asignados ≡ some r
      → ltb r.cantidad 1 ≡ false
      → Todo (λ k'. total n k' ≡ total n k) (devolver pid n r k)
  unfolding devolver
  devolver-total pid p r k ep er h =
      Todo->>= (λ k'. total n k' ≡ total n k) (buscar_recurso n k.recursos_kernel) _
        (λ rk erk.
          let f = recuperar pid r.cantidad in
          let k1 = en_kernel n f k in
          let (a, b) = cant-con_recurso n f k.recursos_kernel (λ x. refl) erk in
          let e1 = buscar_recurso-con_recurso n f k.recursos_kernel (λ x. refl) erk in
          Todo->>= (λ k'. total n k' ≡ total n k) _ _
            (λ k2 e2.
              let (d, m) =
                Todo-some
                  (λ k'.
                    (repartidas n k'.lista_global + r.cantidad ≡ repartidas n k1.lista_global)
                    × (k'.recursos_kernel ≡ k1.recursos_kernel))
                  _ e2 (en_proceso-en_cero pid k1 p r ep er) in
              let mk = ap (cant n) m in
              subst
                (λ t.
                  Todo (λ k'. total n k' ≡ t) (entregar (sin_proceso pid rk.colabloqueado) n k2))
                (omega (arith, a, b, d, mk))
                (entregar-total (sin_proceso pid rk.colabloqueado) k2 (f rk)
                  (ap (buscar_recurso n) m ∙ e1) (ground (arith, h)))))

  segun_tenga :
      (b : Bool) (pid : ℕ) (p : Pcb) (r : Recurso) (k : Kernel)
      → buscar_pcb pid k.lista_global ≡ some p
      → buscar_recurso n p.recursos_asignados ≡ some r
      → ltb r.cantidad 1 ≡ b
      → Todo (λ k'. total n k' ≡ total n k) (if b then some k else devolver pid n r k)
  segun_tenga true pid p r k ep er h = refl
  segun_tenga false pid p r k ep er h = devolver-total pid p r k ep er h

  -- A process that ends gives back a resource without creating or destroying instances of it,
  -- whether it held none, the kernel keeps them or the first that waited takes one.
  pub liberar_uno-total :
      (pid : ℕ) (k k' : Kernel) → liberar_uno pid n k ≡ some k' → total n k' ≡ total n k
  unfolding liberar_uno
  liberar_uno-total pid k k' h =
      Todo-some (λ x. total n x ≡ total n k) _ h
        (Todo->>= (λ x. total n x ≡ total n k) (buscar_pcb pid k.lista_global) _
          (λ p ep.
            Todo->>= (λ x. total n x ≡ total n k) (buscar_recurso n p.recursos_asignados) _
              (λ r er. segun_tenga (ltb r.cantidad 1) pid p r k ep er refl)))
