-- ===== src/Kernel/Recursos/Total.antt =====
-- The instances of a resource: those free in the kernel and those that processes hold.
use so_2c_2023_no_me_queme.Base.{
  ℕ, ◌+◌, ◌≡◌, refl, ap, ◌∙◌, some, List, [], ◌∷◌, arith, ◌==◌, if◌then◌else◌, Bool, none, true,
  false, Bool-cases, inl, inr,
}
use mathlib.Core.Option.{some-injective}
use so_2c_2023_no_me_queme.Shared.Cadena.{strcmp_eq}
use so_2c_2023_no_me_queme.Kernel.Estado.{Kernel, Pcb, Recurso, buscar_pcb, con_pcb}
use so_2c_2023_no_me_queme.Kernel.Recursos.{buscar_recurso, con_recurso}

-- The amount under a name; 0 where the name is missing.
unfoldable pub cant : List ℕ → List Recurso → ℕ
cant n [] = 0
cant n (r ∷ rs) = if strcmp_eq r.nombre n then r.cantidad else cant n rs

unfoldable pub repartidas : List ℕ → List Pcb → ℕ
repartidas n [] = 0
repartidas n (p ∷ ps) = cant n p.recursos_asignados + repartidas n ps

abbrev pub total : List ℕ → Kernel → ℕ
total n k = cant n k.recursos_kernel + repartidas n k.lista_global

pub cant-con_recurso :
    (n : List ℕ) (f : Recurso → Recurso) (rs : List Recurso) {r : Recurso}
    → ((x : Recurso) → (f x).nombre ≡ x.nombre)
    → buscar_recurso n rs ≡ some r
    → (cant n rs ≡ r.cantidad) × (cant n (con_recurso n f rs) ≡ (f r).cantidad)
unfolding cant con_recurso buscar_recurso
cant-con_recurso n f [] h e = absurd (cc)
cant-con_recurso n f (x ∷ rs) {r} h e = elim (Bool-cases (strcmp_eq x.nombre n)) [
  | inl si ↦
      let igual = some-injective x r (simp si at e) in
      let si' : strcmp_eq (f x).nombre n ≡ true = ap (λ y. strcmp_eq y n) (h x) ∙ si in
      (simp si (ap (λ y. y.cantidad) igual), simp (si, si') (ap (λ y. (f y).cantidad) igual))
  | inr no' ↦ let (a, b) = cant-con_recurso n f rs h (simp no' at e) in (simp no' a, simp no' b)
]

pub vivo-injective : (x p : Pcb) (b : Bool) → (if b then none else some x) ≡ some p → x ≡ p
vivo-injective x p true e = absurd (cc)
vivo-injective x p false e = some-injective x p e

pub repartidas-con_pcb :
    (n : List ℕ) (pid : ℕ) (f : Pcb → Pcb) (ps : List Pcb) {p : Pcb}
    → buscar_pcb pid ps ≡ some p
    → repartidas n (con_pcb pid f ps) + cant n p.recursos_asignados
      ≡ repartidas n ps + cant n (f p).recursos_asignados
unfolding repartidas con_pcb buscar_pcb
repartidas-con_pcb n pid f [] e = absurd (cc)
repartidas-con_pcb n pid f (x ∷ ps) {p} e = elim (Bool-cases (x.pid == pid)) [
  | inl si ↦
      let igual = vivo-injective x p x.liberado (simp si at e) in
      let antes = ap (λ y. cant n y.recursos_asignados) igual in
      let despues = ap (λ y. cant n (f y).recursos_asignados) igual in
      simp si (omega (arith, antes, despues))
  | inr no' ↦
      let resto = repartidas-con_pcb n pid f ps (simp no' at e) in simp no' (omega (arith, resto))
]

-- An assignment to other fields changes no amount.
pub repartidas_igual :
    (n : List ℕ) (pid : ℕ) (f : Pcb → Pcb) (ps : List Pcb)
    → ((x : Pcb) → (f x).recursos_asignados ≡ x.recursos_asignados)
    → repartidas n (con_pcb pid f ps) ≡ repartidas n ps
unfolding repartidas con_pcb
repartidas_igual n pid f [] h = refl
repartidas_igual n pid f (x ∷ ps) h = elim (Bool-cases (x.pid == pid)) [
  | inl si ↦ simp si (ap (λ y. cant n y + repartidas n ps) (h x))
  | inr no' ↦ simp no' (ap (λ y. cant n x.recursos_asignados + y) (repartidas_igual n pid f ps h))
]

pub buscar_recurso-con_recurso :
    (n : List ℕ) (f : Recurso → Recurso) (rs : List Recurso) {r : Recurso}
    → ((x : Recurso) → (f x).nombre ≡ x.nombre)
    → buscar_recurso n rs ≡ some r
    → buscar_recurso n (con_recurso n f rs) ≡ some (f r)
unfolding buscar_recurso con_recurso
buscar_recurso-con_recurso n f [] h e = absurd (cc)
buscar_recurso-con_recurso n f (x ∷ rs) {r} h e = elim (Bool-cases (strcmp_eq x.nombre n)) [
  | inl si ↦
      let igual = some-injective x r (simp si at e) in
      let si' : strcmp_eq (f x).nombre n ≡ true = ap (λ y. strcmp_eq y n) (h x) ∙ si in
      simp (si, si') (ap (λ y. some (f y)) igual)
  | inr no' ↦ simp no' (buscar_recurso-con_recurso n f rs h (simp no' at e))
]
