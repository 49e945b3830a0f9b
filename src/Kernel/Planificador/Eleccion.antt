-- ===== src/Kernel/Planificador/Eleccion.antt =====
-- kernel/src/plani.c: the process that each algorithm chooses.
use so_2c_2023_no_me_queme.Base.{
  ℕ, ◌+◌, ◌<◌, ◌≤◌, ◌≡◌, refl, ap, sym, ◌∙◌, some, List, [], ◌∷◌, arith, ◌==◌, leb, if◌then◌else◌,
  Bool, true, false, Bool-cases, inl, inr,
}
use mathlib.Core.Path.{subst}
use so_2c_2023_no_me_queme.Kernel.Estado.{Kernel, Algoritmo, fifo, rr, prioridades}
use so_2c_2023_no_me_queme.Kernel.Planificador.{
  elegir_pcb_segun_algoritmo, ordenar, tomar_primero, maximo_rr, maximo_prioridad, prioridad_de,
  ingreso_de,
}

-- How often a pid stands in a list.
abbrev pub veces : ℕ → List ℕ → ℕ
veces a [] = 0
veces a (b ∷ bs) = (if b == a then 1 else 0) + veces a bs

-- Every element comes before all those behind it.
abbrev pub Antes : (ℕ → ℕ → Bool) → List ℕ → Type 0
Antes menor [] = Unit
Antes menor (x ∷ xs) = ((y : ℕ) → 0 < veces y xs → menor x y ≡ true) × Antes menor xs

-- What the commons library documents of `list_sort`: a comparison that is total and transitive
-- puts the same elements in order.
pub record IsListSort (list_sort : (ℕ → ℕ → Bool) → List ℕ → List ℕ) : Type 0 where
  pub mismos :
      (menor : ℕ → ℕ → Bool) (xs : List ℕ) (a : ℕ) → veces a (list_sort menor xs) ≡ veces a xs
  pub en_orden :
      (menor : ℕ → ℕ → Bool) (xs : List ℕ)
      → ((a b : ℕ) → menor a b ≡ false → menor b a ≡ true)
      → ((a b c : ℕ) → menor a b ≡ true → menor b c ≡ true → menor a c ≡ true)
      → Antes menor (list_sort menor xs)

-- What the algorithm wants smallest: nothing under FIFO.
abbrev pub clave : Algoritmo → Kernel → ℕ → ℕ
clave fifo k pid = 0
clave rr k pid = ingreso_de k pid
clave prioridades k pid = prioridad_de k pid

leb-false : (a b : ℕ) → leb a b ≡ false → leb b a ≡ true
leb-false a b h = ground arith

leb_trans : (a b c : ℕ) → leb a b ≡ true → leb b c ≡ true → leb a c ≡ true
leb_trans a b c h i = ground arith

leb_le : (a b : ℕ) → leb a b ≡ true → a ≤ b
leb_le a b h = ground arith

una_vez : (a : ℕ) (xs : List ℕ) → 0 < veces a (a ∷ xs)
una_vez a xs = ground arith

module _ (list_sort : (ℕ → ℕ → Bool) → List ℕ → List ℕ) (ls : IsListSort list_sort) where
  ordenar-mismos :
      (al : Algoritmo) (k : Kernel) (a : ℕ)
      → veces a (ordenar list_sort al k) ≡ veces a k.lista_ready
  unfolding ordenar
  ordenar-mismos fifo k a = refl
  ordenar-mismos rr k a = ls.mismos (maximo_rr k) k.lista_ready a
  ordenar-mismos prioridades k a = ls.mismos (maximo_prioridad k) k.lista_ready a

  ordenar-minimo :
      (al : Algoritmo) (k : Kernel) (p : ℕ) (ps : List ℕ)
      → ordenar list_sort al k ≡ p ∷ ps
      → (a : ℕ) → 0 < veces a ps
      → clave al k p ≤ clave al k a
  unfolding ordenar maximo_rr maximo_prioridad
  ordenar-minimo fifo k p ps e a h = omega arith
  ordenar-minimo rr k p ps e a h =
      let o = subst (Antes (maximo_rr k)) e (
        ls.en_orden (maximo_rr k) k.lista_ready (λ x y. leb-false (ingreso_de k x) (ingreso_de k y))
          (λ x y z. leb_trans (ingreso_de k x) (ingreso_de k y) (ingreso_de k z))) in
      leb_le (ingreso_de k p) (ingreso_de k a) (o.0 a h)
  ordenar-minimo prioridades k p ps e a h =
      let o = subst (Antes (maximo_prioridad k)) e (
        ls.en_orden (maximo_prioridad k) k.lista_ready
          (λ x y. leb-false (prioridad_de k x) (prioridad_de k y))
          (λ x y z. leb_trans (prioridad_de k x) (prioridad_de k y) (prioridad_de k z))) in
      leb_le (prioridad_de k p) (prioridad_de k a) (o.0 a h)

  minimo_entre :
      (k : Kernel) (p a : ℕ) (ps : List ℕ)
      → ((b : ℕ) → 0 < veces b ps → clave k.algoritmo k p ≤ clave k.algoritmo k b)
      → 0 < veces a (p ∷ ps)
      → clave k.algoritmo k p ≤ clave k.algoritmo k a
  minimo_entre k p a ps h v = elim (Bool-cases (p == a)) [
    | inl si ↦
        let igual : p ≡ a = ground arith in
        subst (λ x. clave k.algoritmo k p ≤ clave k.algoritmo k x) igual (omega arith)
    | inr no' ↦ h a (ground (arith, no', v))
  ]

  abbrev Eleccion : Kernel → List ℕ → Type 0
  Eleccion k o =
      (pid : ℕ) × (resto : List ℕ) × (tomar_primero o k
        ≡ some (pid, record k { lista_ready = resto }))
      × ((a : ℕ) → veces a (pid ∷ resto) ≡ veces a k.lista_ready)
      × ((a : ℕ) → 0 < veces a k.lista_ready → clave k.algoritmo k pid ≤ clave k.algoritmo k a)

  elegido :
      (k : Kernel) (o : List ℕ) (p : ℕ) (ps : List ℕ)
      → ordenar list_sort k.algoritmo k ≡ o
      → k.lista_ready ≡ p ∷ ps
      → Eleccion k o
  unfolding tomar_primero
  elegido k [] p ps e q =
      let nada = ap (veces p) (sym e) ∙ ordenar-mismos k.algoritmo k p ∙ ap (veces p) q in
      absurd (omega (arith, nada, una_vez p ps))
  elegido k (x ∷ xs) p ps e q =
      let mismos = λ (a : ℕ). ap (veces a) (sym e) ∙ ordenar-mismos k.algoritmo k a in
      (
        x,
        xs,
        refl,
        mismos,
        (λ a h.
            minimo_entre k x a xs (ordenar-minimo k.algoritmo k x xs e)
              (subst (λ n. 0 < n) (sym (mismos a)) h)),
      )

  -- With a ready process, the algorithm chooses one: it and the ready queue left are the ready
  -- processes from before, and no ready process has been ready for longer (RR) or has a better
  -- priority (PRIORIDADES), where `list_sort` does what its library documents.
  pub elegir_pcb_segun_algoritmo_lem :
      (k : Kernel) (p : ℕ) (ps : List ℕ)
      → k.lista_ready ≡ p ∷ ps
      → (pid : ℕ) × (resto : List ℕ) × (elegir_pcb_segun_algoritmo list_sort k
          ≡ some (pid, record k { lista_ready = resto }))
        × ((a : ℕ) → veces a (pid ∷ resto) ≡ veces a k.lista_ready)
        × ((a : ℕ) → 0 < veces a k.lista_ready → clave k.algoritmo k pid ≤ clave k.algoritmo k a)
  unfolding elegir_pcb_segun_algoritmo
  elegir_pcb_segun_algoritmo_lem k p ps q = elegido k (ordenar list_sort k.algoritmo k) p ps refl q
