-- ===== src/Kernel/Liberacion/Asignados.antt =====
-- kernel/: the resources in the record of a process, and how assignments to records change them.
use so_2c_2023_no_me_queme.Base.{
  ℕ, ◌≡◌, ap, ◌∙◌, sym, refl, some, List, [], ◌∷◌, ◌==◌, if◌then◌else◌, true, false, arith,
  Bool-cases, inl, inr, bytes_eq, bytes_eq_sound,
}
use so_2c_2023_no_me_queme.Shared.Cadena.{cadena, strcmp_eq}
use so_2c_2023_no_me_queme.Kernel.Estado.{Kernel, Pcb, Recurso, buscar_pcb, con_pcb}
use so_2c_2023_no_me_queme.Kernel.Recursos.{con_recurso}
use so_2c_2023_no_me_queme.Kernel.Recursos.Total.{cant, vivo-injective}
use so_2c_2023_no_me_queme.Kernel.Liberacion.{en_cero}

-- The resources in the record of a process.
unfoldable pub asignados : ℕ → List Pcb → List Recurso
asignados pid [] = []
asignados pid (p ∷ ps) = if p.pid == pid then p.recursos_asignados else asignados pid ps

abbrev pub suyos : ℕ → Kernel → List Recurso
suyos pid k = asignados pid k.lista_global

pub asignados-buscar_pcb :
    (pid : ℕ) (ps : List Pcb) {p : Pcb}
    → buscar_pcb pid ps ≡ some p
    → asignados pid ps ≡ p.recursos_asignados
unfolding asignados buscar_pcb
asignados-buscar_pcb pid [] e = absurd (cc)
asignados-buscar_pcb pid (x ∷ ps) {p} e = elim (Bool-cases (x.pid == pid)) [
  | inl si ↦ simp si (ap (λ y. y.recursos_asignados) (vivo-injective x p x.liberado (simp si at e)))
  | inr no' ↦ simp no' (asignados-buscar_pcb pid ps (simp no' at e))
]

-- An assignment to the record of another process.
pub asignados-ajeno :
    (pid d : ℕ) (f : Pcb → Pcb) (ps : List Pcb)
    → ((x : Pcb) → (f x).pid ≡ x.pid)
    → (d == pid) ≡ false
    → asignados pid (con_pcb d f ps) ≡ asignados pid ps
unfolding asignados con_pcb
asignados-ajeno pid d f [] h o = refl
asignados-ajeno pid d f (x ∷ ps) h o = elim (Bool-cases (x.pid == d)) [
  | inl si ↦
      let x' : (x.pid == pid) ≡ false = ground (arith, si, o) in
      let f' : ((f x).pid == pid) ≡ false = ap (λ y. y == pid) (h x) ∙ x' in simp (si, x', f') refl
  | inr no' ↦
      simp no' (
        ap (λ y. if x.pid == pid then x.recursos_asignados else y) (asignados-ajeno pid d f ps h o))
]

-- An assignment to the resources of the process.
pub asignados-con_pcb :
    (pid : ℕ) (f : Pcb → Pcb) (g : List Recurso → List Recurso) (ps : List Pcb)
    → ((x : Pcb) → (f x).pid ≡ x.pid)
    → ((x : Pcb) → (f x).recursos_asignados ≡ g x.recursos_asignados)
    → g [] ≡ []
    → asignados pid (con_pcb pid f ps) ≡ g (asignados pid ps)
unfolding asignados con_pcb
asignados-con_pcb pid f g [] h r v = sym v
asignados-con_pcb pid f g (x ∷ ps) h r v = elim (Bool-cases (x.pid == pid)) [
  | inl si ↦
      let f' : ((f x).pid == pid) ≡ true = ap (λ y. y == pid) (h x) ∙ si in simp (si, f') (r x)
  | inr no' ↦ simp no' (asignados-con_pcb pid f g ps h r v)
]

-- An assignment to other fields of any record.
pub asignados_igual :
    (pid d : ℕ) (f : Pcb → Pcb) (ps : List Pcb)
    → ((x : Pcb) → (f x).pid ≡ x.pid)
    → ((x : Pcb) → (f x).recursos_asignados ≡ x.recursos_asignados)
    → asignados pid (con_pcb d f ps) ≡ asignados pid ps
unfolding asignados con_pcb
asignados_igual pid d f [] h r = refl
asignados_igual pid d f (x ∷ ps) h r = elim (Bool-cases (x.pid == d)) [
  | inl si ↦ simp si (
      ap (λ y. if y == pid then (f x).recursos_asignados else asignados pid ps) (h x)
      ∙ ap (λ y. if x.pid == pid then y else asignados pid ps) (r x))
  | inr no' ↦
      simp no' (
        ap (λ y. if x.pid == pid then x.recursos_asignados else y) (asignados_igual pid d f ps h r))
]

-- What is left of each resource when one of them is given back.
pub cant-en_cero :
    (m n : List ℕ) (rs : List Recurso)
    → cant n (con_recurso m en_cero rs) ≡ (if strcmp_eq m n then 0 else cant n rs)
unfolding cant con_recurso
cant-en_cero m n [] = elim (Bool-cases (strcmp_eq m n)) [
  | inl si ↦ simp si refl
  | inr no' ↦ simp no' refl
]
cant-en_cero m n (x ∷ rs) = elim (Bool-cases (strcmp_eq x.nombre m)) [
  | inl si ↦
      let igual : strcmp_eq x.nombre n ≡ strcmp_eq m n =
        ap (λ c. bytes_eq c (cadena n)) (bytes_eq_sound (cadena x.nombre) (cadena m) si) in
      elim (Bool-cases (strcmp_eq m n)) [
        | inl mn ↦ let xn = igual ∙ mn in simp (si, mn, xn) refl
        | inr mn ↦ let xn = igual ∙ mn in simp (si, mn, xn) refl
      ]
  | inr no' ↦ elim (Bool-cases (strcmp_eq m n)) [
    | inl mn ↦
        let igual : strcmp_eq x.nombre m ≡ strcmp_eq x.nombre n =
          ap (λ c. bytes_eq (cadena x.nombre) c) (bytes_eq_sound (cadena m) (cadena n) mn) in
        let xn = sym igual ∙ no' in simp (no', mn, xn) (cant-en_cero m n rs ∙ simp mn refl)
    | inr mn ↦
        simp (no', mn)
          (ap (λ y. if strcmp_eq x.nombre n then x.cantidad else y)
            (cant-en_cero m n rs ∙ simp mn refl))
  ]
]
