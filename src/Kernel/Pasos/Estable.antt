-- ===== src/Kernel/Pasos/Estable.antt =====
-- kernel/: operations that neither create processes nor move instances of resources.
use so_2c_2023_no_me_queme.Base.{
  ℕ, ◌+◌, ◌≤◌, ◌≡◌, refl, ap, ◌∙◌, List, arith, if◌then◌else◌, Bool, true, false,
}
use mathlib.Core.Path.{ap₂}
use so_2c_2023_no_me_queme.Kernel.Estado.{
  Kernel, Pcb, EstadoProceso, en_pcb, cambiar_estado, set_pcb_ready, set_pcb_block,
}
use so_2c_2023_no_me_queme.Kernel.Recursos.Total.{cant, total, repartidas_igual}
use so_2c_2023_no_me_queme.Kernel.Recursos.Vistas.{pids, pids-con_pcb, censo}
use so_2c_2023_no_me_queme.Kernel.Recursos.Ajenos.{ver}

-- The instances of the resource, the processes, and the number that the next one gets.
abbrev pub huella : List ℕ → Kernel → ℕ × List ℕ × ℕ
huella n k = (total n k, pids k.lista_global, k.generador_de_id)

-- The same processes, and as many instances of the resource.
abbrev pub Estable : List ℕ → Kernel → Kernel → Type 0
Estable n k k' = huella n k' ≡ huella n k

module _ (n : List ℕ) where
  pub si-Estable :
      (b : Bool) (k x y : Kernel) → Estable n k x → Estable n k y → Estable n k (if b then x else y)
  si-Estable true k x y hx hy = hx
  si-Estable false k x y hx hy = hy

  pub en_pcb-Estable :
      (pid : ℕ) (f : Pcb → Pcb) (k : Kernel)
      → ((p : Pcb) → (f p).pid ≡ p.pid)
      → ((p : Pcb) → (f p).recursos_asignados ≡ p.recursos_asignados)
      → Estable n k (en_pcb pid f k)
  en_pcb-Estable pid f k h r =
      ap₂ (λ (t : ℕ) (ps : List ℕ). (t, ps, k.generador_de_id))
        (ap (λ y. cant n k.recursos_kernel + y) (repartidas_igual n pid f k.lista_global r))
        (pids-con_pcb pid f k.lista_global h)

  pub set_pcb_ready-Estable : (pid : ℕ) (k : Kernel) → Estable n k (set_pcb_ready pid k)
  unfolding set_pcb_ready
  set_pcb_ready-Estable pid k =
      en_pcb-Estable pid (λ p. record p { tiempo_ingreso_ready = k.hora })
        (cambiar_estado pid EstadoProceso.ready k) (λ p. refl) (λ p. refl)
      ∙ en_pcb-Estable pid (λ p. record p { estado = EstadoProceso.ready }) k (λ p. refl)
          (λ p. refl)

  pub set_pcb_block-Estable : (pid : ℕ) (k : Kernel) → Estable n k (set_pcb_block pid k)
  unfolding set_pcb_block
  set_pcb_block-Estable pid k =
      en_pcb-Estable pid (λ p. record p { estado = EstadoProceso.block }) k (λ p. refl) (λ p. refl)

  -- The same processes, and no instance of the resource lost.
  abbrev pub Avance : Kernel → Kernel → Type 0
  Avance k k' = (total n k ≤ total n k') × (ver censo k' ≡ ver censo k)

  pub Avance-trans : (k k' k'' : Kernel) → Avance k k' → Avance k' k'' → Avance k k''
  Avance-trans k k' k'' (t, c) (t', c') = (omega arith, c' ∙ c)

  pub Estable-Avance : (k k' : Kernel) → Estable n k k' → Avance k k'
  Estable-Avance k k' e =
      let t : total n k' ≡ total n k = ap (λ x. x.0) e in (omega (arith, t), ap (λ x. (x.1, x.2)) e)

  pub Estable-partes :
      (k k' : Kernel) → total n k' ≡ total n k → ver censo k' ≡ ver censo k → Estable n k k'
  Estable-partes k k' t c = ap₂ (λ (x : ℕ) (y : List ℕ × ℕ). (x, y.0, y.1)) t c
