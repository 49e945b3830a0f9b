-- ===== src/Kernel/Planificador/Admision.antt =====
-- kernel/src/plani.c: `ready_pcb` and the degree of multiprogramming.
use so_2c_2023_no_me_queme.Base.{
  ℕ, ◌+◌, ◌≤◌, ◌≡◌, refl, ap, sym, ◌∙◌, List, [], ◌∷◌, ◌++◌, arith, length, ltb, if◌then◌else◌,
  Bool, true, false, Bool-cases, inl, inr, ◌⊎◌,
}
use mathlib.Core.Path.{subst}
use so_2c_2023_no_me_queme.Kernel.Estado.{Kernel, Algoritmo, fifo, rr, prioridades, set_pcb_ready}
use so_2c_2023_no_me_queme.Kernel.Planificador.{
  ready_pcb, admitir, avisar, postear, activos, interrumpir, prioridad_de,
}

length-uno : (xs : List ℕ) (x : ℕ) → length (xs ++ (x ∷ [])) ≡ length xs + 1
length-uno [] x = refl
length-uno (y ∷ xs) x = omega (arith, length-uno xs x)

-- The queues that no admission touches.
abbrev pub Fuera : Kernel → Kernel → Type 0
Fuera k k' =
    (k'.cola_block ≡ k.cola_block)
    × (k'.cola_exit ≡ k.cola_exit)
    × (k'.cola_exec ≡ k.cola_exec)
    × (k'.proceso_en_ejecucion ≡ k.proceso_en_ejecucion)

-- The queues, the ready one given: what an interruption and a semaphore leave alone.
abbrev Colas : Kernel → Kernel → Type 0
Colas k k' =
    (k'.lista_ready ≡ k.lista_ready)
    × (k'.cola_block ≡ k.cola_block)
    × (k'.lista_ready_detenidos ≡ k.lista_ready_detenidos)
    × (k'.cola_listos_para_ready ≡ k.cola_listos_para_ready)
    × Fuera k k'

elegir-Colas : (b : Bool) (k x y : Kernel) → Colas k x → Colas k y → Colas k (if b then x else y)
elegir-Colas true k x y a c = a
elegir-Colas false k x y a c = c

avisar-Colas : (a : Algoritmo) (pid : ℕ) (k : Kernel) → Colas k (avisar a pid k)
unfolding avisar
avisar-Colas fifo pid k = (refl, refl, refl, refl, (refl, refl, refl, refl))
avisar-Colas rr pid k = (refl, refl, refl, refl, (refl, refl, refl, refl))
avisar-Colas prioridades pid k =
    elegir-Colas k.hay_elegido k _ k
      (elegir-Colas (ltb (prioridad_de k pid) (prioridad_de k k.pcbelegido)) k (interrumpir pid k) k
        (refl, refl, refl, refl, (refl, refl, refl, refl))
        (refl, refl, refl, refl, (refl, refl, refl, refl)))
      (refl, refl, refl, refl, (refl, refl, refl, refl))

postear-Colas : (k : Kernel) → Colas k (postear k)
postear-Colas k =
    elegir-Colas k.frenado k k _ (refl, refl, refl, refl, (refl, refl, refl, refl))
      (refl, refl, refl, refl, (refl, refl, refl, refl))

abbrev Admitido : Kernel → ℕ → List ℕ → Kernel → Type 0
Admitido k pid resto k' =
    (k'.cola_listos_para_ready ≡ resto)
    × Fuera k k'
    × (((k'.lista_ready ≡ k.lista_ready ++ (pid ∷ []))
          × (k'.lista_ready_detenidos ≡ k.lista_ready_detenidos)
          × (activos k' ≤ k.g_multiprog_ini))
        ⊎ ((k.g_multiprog_ini ≤ activos k)
            × (k'.lista_ready ≡ k.lista_ready)
            × (k'.lista_ready_detenidos ≡ k.lista_ready_detenidos ++ (pid ∷ []))))

hay_lugar :
    (k : Kernel) (pid : ℕ) (resto : List ℕ)
    → ltb (activos k) k.g_multiprog_ini ≡ true
    → Admitido k pid resto (
        postear (
          avisar k.algoritmo pid (set_pcb_ready pid (record k { cola_listos_para_ready = resto }))))
unfolding set_pcb_ready
hay_lugar k pid resto si =
    let s = set_pcb_ready pid (record k { cola_listos_para_ready = resto }) in
    let (r1, b1, d1, c1, (f1, g1, q1, h1)) = avisar-Colas k.algoritmo pid s in
    let (r2, b2, d2, c2, (f2, g2, q2, h2)) = postear-Colas (avisar k.algoritmo pid s) in
    let largo = ap length (r2 ∙ r1) in
    let bloqueados = ap length (b2 ∙ b1) in
    (
      c2 ∙ c1,
      (f2 ∙ f1, g2 ∙ g1, q2 ∙ q1, h2 ∙ h1),
      inl (r2 ∙ r1, d2 ∙ d1, ground (arith, si, largo, bloqueados, length-uno k.lista_ready pid)),
    )

admitir_lem :
    (k : Kernel) (pid : ℕ) (resto : List ℕ) → Admitido k pid resto (admitir (pid ∷ resto) k)
unfolding admitir
admitir_lem k pid resto = elim (Bool-cases (ltb (activos k) k.g_multiprog_ini)) [
  | inl si ↦ simp si (hay_lugar k pid resto si)
  | inr no' ↦ simp no' (refl, (refl, refl, refl, refl), inr (ground (arith, no'), refl, refl))
]

-- One admission takes the oldest of the new processes: below the degree of multiprogramming it is
-- the last of the ready queue, those detained are the same, and the ready and blocked processes are
-- within the degree; at the degree it waits behind those detained, and the ready queue is the same.
-- In both cases the queues of blocked, executed and ended processes and the process in execution are the same.
pub ready_pcb_lem :
    (k : Kernel) (pid : ℕ) (resto : List ℕ)
    → k.cola_listos_para_ready ≡ pid ∷ resto
    → let k' = ready_pcb k in
      (k'.cola_listos_para_ready ≡ resto)
      × Fuera k k'
      × (((k'.lista_ready ≡ k.lista_ready ++ (pid ∷ []))
            × (k'.lista_ready_detenidos ≡ k.lista_ready_detenidos)
            × (activos k' ≤ k.g_multiprog_ini))
          ⊎ ((k.g_multiprog_ini ≤ activos k)
              × (k'.lista_ready ≡ k.lista_ready)
              × (k'.lista_ready_detenidos ≡ k.lista_ready_detenidos ++ (pid ∷ []))))
unfolding ready_pcb
ready_pcb_lem k pid resto e =
    subst (λ cola. Admitido k pid resto (admitir cola k)) (sym e) (admitir_lem k pid resto)
