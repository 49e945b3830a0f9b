-- ===== src/Testigos/Kernel.antt =====
-- Concrete inputs of the theorems on kernel/.
use so_2c_2023_no_me_queme.Base.{
  ℕ, ◌+◌, ◌<◌, ◌≤◌, ◌≡◌, ◌⊎◌, refl, ◌∙◌, some, List, [], ◌∷◌, Bool, true, false, ◌==◌,
  if◌then◌else◌, arith, bytes_eq, Bool-cases, inl, inr,
}
use mathlib.Core.Path.{subst}
use so_2c_2023_no_me_queme.Shared.Cadena.{cadena}
use so_2c_2023_no_me_queme.Kernel.Estado.{
  Kernel, prioridades, buscar_pcb, con_pcb, set_pcb_ready, remove_blocked, quitar,
}
use so_2c_2023_no_me_queme.Testigos.DatosKernel.{a, kernel, tras}
use so_2c_2023_no_me_queme.Kernel.Recursos.{
  kwait, kwait_con, ksignal, ksignal_con, buscar_recurso, con_recurso, en_proceso, tiene_recurso,
  despertar, pedir,
}
use so_2c_2023_no_me_queme.Kernel.Recursos.Total.{total}
use so_2c_2023_no_me_queme.Kernel.Recursos.Conserva.{kwait-total, ksignal-total, despertados}
use so_2c_2023_no_me_queme.Kernel.Planificador.{elegir_pcb_segun_algoritmo, ready_pcb, activos}
use so_2c_2023_no_me_queme.Kernel.Planificador.Admision.{Fuera, ready_pcb_lem}
use so_2c_2023_no_me_queme.Kernel.Planificador.Eleccion.{
  veces, Antes, IsListSort, clave, elegir_pcb_segun_algoritmo_lem,
}

-- The process takes the second instance.
kwait_toma : kwait a (kernel 2 []) ≡ some (tras (kwait a (kernel 2 [])))
unfolding kwait kwait_con buscar_recurso cadena bytes_eq en_proceso buscar_pcb con_pcb
kwait_toma = refl

kwait-total_example : total a (tras (kwait a (kernel 2 []))) ≡ total a (kernel 2 [])
kwait-total_example = kwait-total a (kernel 2 []) (tras (kwait a (kernel 2 []))) kwait_toma

-- Process 2 waits for the resource that process 1 gives back.
ksignal_despierta : ksignal a (kernel 0 (2 ∷ [])) ≡ some (tras (ksignal a (kernel 0 (2 ∷ []))))
unfolding ksignal ksignal_con buscar_recurso con_recurso cadena bytes_eq en_proceso buscar_pcb
    con_pcb tiene_recurso despertar set_pcb_ready remove_blocked quitar
ksignal_despierta = refl

ksignal-total_example :
    total a (tras (ksignal a (kernel 0 (2 ∷ []))))
    ≡ total a (kernel 0 (2 ∷ []))
      + despertados a
          (buscar_recurso a (kernel 0 (2 ∷ [])).recursos_kernel)
          (pedir a (kernel 0 (2 ∷ [])))
ksignal-total_example =
    ksignal-total a (kernel 0 (2 ∷ [])) (tras (ksignal a (kernel 0 (2 ∷ [])))) ksignal_despierta

abbrev admision : Kernel
admision = record (kernel 2 []) { cola_listos_para_ready = 2 ∷ 3 ∷ [] }

ready_pcb_lem_example :
    let k' = ready_pcb admision in
    (k'.cola_listos_para_ready ≡ 3 ∷ [])
    × Fuera admision k'
    × (((k'.lista_ready ≡ 2 ∷ []) × (k'.lista_ready_detenidos ≡ []) × (activos k' ≤ 2))
        ⊎ ((2 ≤ activos admision) × (k'.lista_ready ≡ []) × (k'.lista_ready_detenidos ≡ 2 ∷ [])))
ready_pcb_lem_example = ready_pcb_lem admision 2 (3 ∷ []) refl

-- A sort by insertion, in the place of the commons library's.
insertar : (ℕ → ℕ → Bool) → ℕ → List ℕ → List ℕ
insertar menor x [] = x ∷ []
insertar menor x (y ∷ ys) =
    let resto = insertar menor x ys in if menor x y then x ∷ y ∷ ys else y ∷ resto

insercion : (ℕ → ℕ → Bool) → List ℕ → List ℕ
insercion menor [] = []
insercion menor (x ∷ xs) = insertar menor x (insercion menor xs)

veces-insertar :
    (menor : ℕ → ℕ → Bool) (x : ℕ) (ys : List ℕ) (b : ℕ)
    → veces b (insertar menor x ys) ≡ veces b (x ∷ ys)
unfolding insertar
veces-insertar menor x [] b = refl
veces-insertar menor x (y ∷ ys) b = elim (Bool-cases (menor x y)) [
  | inl si ↦ simp si refl
  | inr no' ↦ simp no' (omega (arith, veces-insertar menor x ys b))
]

-- An element of a list that is not its head is in the rest.
en_resto :
    (P : ℕ → Type 0) (y : ℕ) (ys : List ℕ)
    → P y
    → ((z : ℕ) → 0 < veces z ys → P z)
    → (z : ℕ) → 0 < veces z (y ∷ ys)
    → P z
en_resto P y ys py h z v = elim (Bool-cases (y == z)) [
  | inl si ↦ let igual : y ≡ z = ground arith in subst P igual py
  | inr no' ↦ h z (ground (arith, no', v))
]

Antes-insertar :
    (menor : ℕ → ℕ → Bool)
    → ((p q : ℕ) → menor p q ≡ false → menor q p ≡ true)
    → ((p q r : ℕ) → menor p q ≡ true → menor q r ≡ true → menor p r ≡ true)
    → (x : ℕ) (ys : List ℕ) → Antes menor ys
    → Antes menor (insertar menor x ys)
unfolding insertar
Antes-insertar menor t tr x [] o = ((λ y h. absurd (omega (arith, h))), tt)
Antes-insertar menor t tr x (y ∷ ys) (o, os) = elim (Bool-cases (menor x y)) [
  | inl si ↦
      simp si (en_resto (λ z. menor x z ≡ true) y ys si (λ z v. tr x y z si (o z v)), (o, os))
  | inr no' ↦ simp no' (
    (λ z v.
        en_resto (λ w. menor y w ≡ true) x ys (t x y no') o z
          (subst (λ n. 0 < n) (veces-insertar menor x ys z) v)),
    Antes-insertar menor t tr x ys os,
  )
]

veces-insercion :
    (menor : ℕ → ℕ → Bool) (xs : List ℕ) (b : ℕ) → veces b (insercion menor xs) ≡ veces b xs
unfolding insercion
veces-insercion menor [] b = refl
veces-insercion menor (x ∷ xs) b =
    veces-insertar menor x (insercion menor xs) b ∙ omega (arith, veces-insercion menor xs b)

Antes-insercion :
    (menor : ℕ → ℕ → Bool) (xs : List ℕ)
    → ((p q : ℕ) → menor p q ≡ false → menor q p ≡ true)
    → ((p q r : ℕ) → menor p q ≡ true → menor q r ≡ true → menor p r ≡ true)
    → Antes menor (insercion menor xs)
unfolding insercion
Antes-insercion menor [] t tr = tt
Antes-insercion menor (x ∷ xs) t tr =
    Antes-insertar menor t tr x (insercion menor xs) (Antes-insercion menor xs t tr)

insercion-IsListSort : IsListSort insercion
insercion-IsListSort = record { mismos = veces-insercion; en_orden = Antes-insercion }

abbrev listos : Kernel
listos = record (kernel 2 []) { lista_ready = 1 ∷ 2 ∷ [] }

elegir_pcb_segun_algoritmo_lem_example :
    (pid : ℕ) × (resto : List ℕ) × (elegir_pcb_segun_algoritmo insercion listos
      ≡ some (pid, record listos { lista_ready = resto }))
    × ((b : ℕ) → veces b (pid ∷ resto) ≡ veces b (1 ∷ 2 ∷ []))
    × ((b : ℕ)
        → 0 < veces b (1 ∷ 2 ∷ [])
        → clave prioridades listos pid ≤ clave prioridades listos b)
elegir_pcb_segun_algoritmo_lem_example =
    elegir_pcb_segun_algoritmo_lem insercion insercion-IsListSort listos 1 (2 ∷ []) refl
