-- ===== src/Kernel/Recursos/Vistas.antt =====
-- kernel/: two views that do not look at a resource: the instances of another one, and the processes.
use so_2c_2023_no_me_queme.Base.{
  ℕ, ◌+◌, ◌≡◌, refl, ap, ◌∙◌, List, [], ◌∷◌, map, if◌then◌else◌, false, Bool-cases, inl, inr, ◌==◌,
}
use so_2c_2023_no_me_queme.Shared.Cadena.{strcmp_eq, strcmp_eq_ajeno}
use so_2c_2023_no_me_queme.Kernel.Estado.{Pcb, Recurso, con_pcb}
use so_2c_2023_no_me_queme.Kernel.Recursos.{con_recurso}
use so_2c_2023_no_me_queme.Kernel.Recursos.Total.{cant, repartidas, repartidas_igual}
use so_2c_2023_no_me_queme.Kernel.Recursos.Ajenos.{NoMira, Vista, asignar_recurso}

abbrev pub pids : List Pcb → List ℕ
pids = map (λ p. p.pid)

pub pids-con_pcb :
    (pid : ℕ) (f : Pcb → Pcb) (ps : List Pcb)
    → ((p : Pcb) → (f p).pid ≡ p.pid)
    → pids (con_pcb pid f ps) ≡ pids ps
unfolding con_pcb
pids-con_pcb pid f [] h = refl
pids-con_pcb pid f (p ∷ ps) h = elim (Bool-cases (p.pid == pid)) [
  | inl si ↦ simp si (ap (λ x. x ∷ pids ps) (h p))
  | inr no' ↦ simp no' (ap (◌∷◌ p.pid) (pids-con_pcb pid f ps h))
]

-- The processes there are, and the number that the next one gets.
abbrev pub censo : Vista (List ℕ × ℕ)
censo ps rs g = (pids ps, g)

pub censo-NoMira : (m : List ℕ) → NoMira m censo
censo-NoMira m = record {
  otro = λ pid f ps rs g h r. ap (λ (l : List ℕ). (l, g)) (pids-con_pcb pid f ps h);
  presta = λ pid f ps rs g h.
      ap (λ (l : List ℕ). (l, g)) (pids-con_pcb pid (asignar_recurso m f) ps (λ p. refl));
  libre = λ f ps rs g h. refl;
}

-- The instances of a resource, free or held.
abbrev pub instancias : List ℕ → Vista ℕ
instancias n ps rs g = cant n rs + repartidas n ps

module _ (m n : List ℕ) (distintos : strcmp_eq m n ≡ false) where
  cant-con_recurso-ajeno :
      (f : Recurso → Recurso) (rs : List Recurso)
      → ((x : Recurso) → (f x).nombre ≡ x.nombre)
      → cant n (con_recurso m f rs) ≡ cant n rs
  unfolding cant con_recurso
  cant-con_recurso-ajeno f [] h = refl
  cant-con_recurso-ajeno f (x ∷ rs) h = elim (Bool-cases (strcmp_eq x.nombre m)) [
    | inl si ↦
        let no1 = strcmp_eq_ajeno m n x.nombre distintos si in
        let no2 : strcmp_eq (f x).nombre n ≡ false = ap (λ y. strcmp_eq y n) (h x) ∙ no1 in
        simp (si, no1, no2) refl
    | inr no' ↦
        simp no'
          (ap (λ y. if strcmp_eq x.nombre n then x.cantidad else y) (cant-con_recurso-ajeno f rs h))
  ]

  repartidas-ajenas :
      (pid : ℕ) (f : Recurso → Recurso) (ps : List Pcb)
      → ((x : Recurso) → (f x).nombre ≡ x.nombre)
      → repartidas n (con_pcb pid (asignar_recurso m f) ps) ≡ repartidas n ps
  unfolding repartidas con_pcb
  repartidas-ajenas pid f [] h = refl
  repartidas-ajenas pid f (p ∷ ps) h = elim (Bool-cases (p.pid == pid)) [
    | inl si ↦
        simp si (ap (λ y. y + repartidas n ps) (cant-con_recurso-ajeno f p.recursos_asignados h))
    | inr no' ↦ simp no' (ap (λ y. cant n p.recursos_asignados + y) (repartidas-ajenas pid f ps h))
  ]

  pub instancias-NoMira : NoMira m (instancias n)
  instancias-NoMira = record {
    otro = λ pid f ps rs g h r. ap (λ y. cant n rs + y) (repartidas_igual n pid f ps r);
    presta = λ pid f ps rs g h. ap (λ y. cant n rs + y) (repartidas-ajenas pid f ps h);
    libre = λ f ps rs g h. ap (λ y. y + repartidas n ps) (cant-con_recurso-ajeno f rs h);
  }
