-- ===== src/Kernel/Recursos/Prestamo.antt =====
-- kernel/src/instructions.c: an instance that a process takes or gives back.
use so_2c_2023_no_me_queme.Base.{ℕ, ◌+◌, ◌≡◌, refl, ap, sym, ◌∙◌, some, List, arith, ltb, true}
use mathlib.Core.Option.{some-injective}
use so_2c_2023_no_me_queme.Base.Opt.{Todo, Todo->>=}
use so_2c_2023_no_me_queme.Kernel.Estado.{Kernel, Pcb, buscar_pcb}
use so_2c_2023_no_me_queme.Kernel.Recursos.{
  buscar_recurso, con_recurso, tiene_recurso, mas_uno, menos_uno, en_proceso,
}
use so_2c_2023_no_me_queme.Kernel.Recursos.Total.{repartidas, cant-con_recurso, repartidas-con_pcb}

module _ (n : List ℕ) where
  abbrev pub Tomada : Kernel → Kernel → Type 0
  Tomada k k' =
      (repartidas n k'.lista_global ≡ repartidas n k.lista_global + 1)
      × (k'.recursos_kernel ≡ k.recursos_kernel)

  pub en_proceso-mas_uno : (pid : ℕ) (k : Kernel) → Todo (Tomada k) (en_proceso pid n mas_uno k)
  unfolding en_proceso
  en_proceso-mas_uno pid k = Todo->>= (Tomada k) (buscar_pcb pid k.lista_global) _ (λ p ep.
      Todo->>= (Tomada k) (buscar_recurso n p.recursos_asignados) _ (λ r er.
        let (a, b) = cant-con_recurso n mas_uno p.recursos_asignados (λ x. refl) er in
        let c =
          repartidas-con_pcb n pid
            (λ q. record q { recursos_asignados = con_recurso n mas_uno q.recursos_asignados })
            k.lista_global ep in
        (omega (arith, a, b, c), refl)))

  abbrev pub Devuelta : Kernel → Kernel → Type 0
  Devuelta k k' =
      (repartidas n k'.lista_global + 1 ≡ repartidas n k.lista_global)
      × (k'.recursos_kernel ≡ k.recursos_kernel)

  pub en_proceso-menos_uno :
      (pid : ℕ) (k : Kernel) (p : Pcb)
      → buscar_pcb pid k.lista_global ≡ some p
      → tiene_recurso p.recursos_asignados n ≡ some true
      → Todo (Devuelta k) (en_proceso pid n menos_uno k)
  unfolding en_proceso tiene_recurso
  en_proceso-menos_uno pid k p ep t =
      Todo->>= (Devuelta k) (buscar_pcb pid k.lista_global) _ (λ p' ep'.
        Todo->>= (Devuelta k) (buscar_recurso n p'.recursos_asignados) _ (λ r er.
          let mismo : p ≡ p' = some-injective p p' (sym ep ∙ ep') in
          let er' : buscar_recurso n p.recursos_asignados ≡ some r =
            ap (λ x. buscar_recurso n x.recursos_asignados) mismo ∙ er in
          let positiva : ltb 0 r.cantidad ≡ true = some-injective _ _ (simp er' at t) in
          let (a, b) = cant-con_recurso n menos_uno p'.recursos_asignados (λ x. refl) er in
          let c =
            repartidas-con_pcb n pid
              (λ q. record q { recursos_asignados = con_recurso n menos_uno q.recursos_asignados })
              k.lista_global ep' in
          (ground (arith, positiva, a, b, c), refl)))
