-- ===== src/Kernel/Liberacion/Ajenos.antt =====
-- kernel/src/kernel.c: `liberar_recursos` over all the resources of the process.
use so_2c_2023_no_me_queme.Base.{
  ℕ, ◌++◌, ◌≡◌, refl, sym, ◌∙◌, some, List, [], ◌∷◌, ltb, Bool, true, false, Bool-cases, inl, inr,
  bytes_eq_sound,
}
use so_2c_2023_no_me_queme.Base.Opt.{Todo, Todo->>=, Todo-some, Todo-map, Todo-todos, si-Todo}
use so_2c_2023_no_me_queme.Shared.Cadena.{cadena, strcmp_eq}
use so_2c_2023_no_me_queme.Kernel.Estado.{
  Kernel, Recurso, finalizar, buscar_pcb, remove_blocked, replanificar,
}
use so_2c_2023_no_me_queme.Kernel.Recursos.{
  buscar_recurso, mas_uno, menos_uno, en_kernel, en_proceso,
}
use so_2c_2023_no_me_queme.Kernel.Recursos.Total.{total}
use so_2c_2023_no_me_queme.Kernel.Recursos.Ajenos.{
  NoMira, Vista, ver, Igual, total_nombre, set_pcb_ready-Igual, en_kernel-Igual, en_proceso-Igual,
}
use so_2c_2023_no_me_queme.Kernel.Recursos.Vistas.{
  censo, censo-NoMira, instancias, instancias-NoMira,
}
use so_2c_2023_no_me_queme.Kernel.Liberacion.{
  sin_proceso, en_cero, recuperar, a_ready, entregar, devolver, liberar_uno, liberar_cada,
  liberar_recursos,
}
use so_2c_2023_no_me_queme.Kernel.Liberacion.Devolucion.{liberar_uno-total}

module _ {X : Type 0} (m : List ℕ) (h : Vista X) (v : NoMira m h) where
  a_ready-Igual : (b : Bool) (d : ℕ) (k : Kernel) → k.frenado ≡ b → ver h (a_ready d k) ≡ ver h k
  unfolding a_ready replanificar
  a_ready-Igual true d k e = simp e refl
  a_ready-Igual false d k e = simp e (set_pcb_ready-Igual m h v d k)

  entregar-Igual : (cola : List ℕ) (k : Kernel) → Todo (Igual m h v k) (entregar cola m k)
  unfolding entregar remove_blocked
  entregar-Igual [] k = refl
  entregar-Igual (d ∷ cola) k =
      Todo->>= (Igual m h v k) (en_proceso d m mas_uno (remove_blocked d k)) _ (λ k2 e2.
        a_ready-Igual k2.frenado d (en_kernel m menos_uno k2) refl
        ∙ en_kernel-Igual m h v menos_uno k2 (λ x. refl)
        ∙ Todo-some (Igual m h v k) _ e2
            (en_proceso-Igual m h v d mas_uno (remove_blocked d k) (λ x. refl)))

  devolver-Igual : (pid : ℕ) (r : Recurso) (k : Kernel) → Todo (Igual m h v k) (devolver pid m r k)
  unfolding devolver
  devolver-Igual pid r k =
      let f = recuperar pid r.cantidad in
      Todo->>= (Igual m h v k) (buscar_recurso m k.recursos_kernel) _ (λ rk erk.
        Todo->>= (Igual m h v k) (en_proceso pid m en_cero (en_kernel m f k)) _ (λ k2 e2.
          Todo-map (Igual m h v k2) (Igual m h v k)
            (entregar (sin_proceso pid rk.colabloqueado) m k2)
            (λ k3 q.
              q
              ∙ Todo-some (Igual m h v (en_kernel m f k)) _ e2
                  (en_proceso-Igual m h v pid en_cero (en_kernel m f k) (λ x. refl))
              ∙ en_kernel-Igual m h v f k (λ x. refl))
            (entregar-Igual (sin_proceso pid rk.colabloqueado) k2)))

  liberar_uno-Igual : (pid : ℕ) (k : Kernel) → Todo (Igual m h v k) (liberar_uno pid m k)
  unfolding liberar_uno
  liberar_uno-Igual pid k = Todo->>= (Igual m h v k) (buscar_pcb pid k.lista_global) _ (λ p ep.
      Todo->>= (Igual m h v k) (buscar_recurso m p.recursos_asignados) _ (λ r er.
        si-Todo (Igual m h v k) (ltb r.cantidad 1) (some k) _ refl (devolver-Igual pid r k)))

-- A view that no round of the loop changes is the same behind `liberar_recursos`.
module _ {X : Type 0} (h : Vista X)
    (una : (m : List ℕ) (pid : ℕ) (k : Kernel)
      → Todo (λ k'. ver h k' ≡ ver h k) (liberar_uno pid m k)) where
  liberar_cada-Igual :
      (pid : ℕ) (rs : List Recurso) (k : Kernel)
      → Todo (λ k'. ver h k' ≡ ver h k) (liberar_cada pid rs k)
  unfolding liberar_cada
  liberar_cada-Igual pid [] k = refl
  liberar_cada-Igual pid (r ∷ rs) k =
      Todo->>= (λ k'. ver h k' ≡ ver h k) (liberar_uno pid r.nombre k) _
        (λ k1 e1.
          Todo-map (λ k'. ver h k' ≡ ver h k1) (λ k'. ver h k' ≡ ver h k) (liberar_cada pid rs k1)
            (λ k' q. q ∙ Todo-some (λ x. ver h x ≡ ver h k) _ e1 (una r.nombre pid k))
            (liberar_cada-Igual pid rs k1))

  liberar_recursos-Igual :
      (pid : ℕ) (k k' : Kernel) → liberar_recursos pid k ≡ some k' → ver h k' ≡ ver h k
  unfolding liberar_recursos
  liberar_recursos-Igual pid k k' e =
      Todo-some (λ x. ver h x ≡ ver h k) _ e
        (Todo->>= (λ x. ver h x ≡ ver h k) (buscar_pcb pid k.lista_global) _
          (λ p ep.
            liberar_cada-Igual pid p.recursos_asignados
              (record k { a_memoria = k.a_memoria ++ (finalizar pid ∷ []) })))

liberar_uno-todos :
    (n m : List ℕ) (pid : ℕ) (k : Kernel) (k' : Kernel)
    → liberar_uno pid m k ≡ some k'
    → total n k' ≡ total n k
liberar_uno-todos n m pid k k' e = elim (Bool-cases (strcmp_eq m n)) [
  | inl si ↦
      let igual = bytes_eq_sound (cadena m) (cadena n) si in
      sym (total_nombre m n k' igual) ∙ liberar_uno-total m pid k k' e ∙ total_nombre m n k igual
  | inr no' ↦
      Todo-some (λ x. total n x ≡ total n k) _ e
        (liberar_uno-Igual m (instancias n) (instancias-NoMira m n no') pid k)
]

-- `liberar_recursos` neither creates nor destroys instances of any resource.
pub liberar_recursos-total :
    (n : List ℕ) (pid : ℕ) (k k' : Kernel)
    → liberar_recursos pid k ≡ some k'
    → total n k' ≡ total n k
liberar_recursos-total n pid k k' e =
    liberar_recursos-Igual (instancias n)
      (λ m pid' k1.
        Todo-todos (λ x. total n x ≡ total n k1) (liberar_uno pid' m k1)
          (λ x ex. liberar_uno-todos n m pid' k1 x ex))
      pid k k' e

pub liberar_recursos-censo :
    (pid : ℕ) (k k' : Kernel) → liberar_recursos pid k ≡ some k' → ver censo k' ≡ ver censo k
liberar_recursos-censo pid k k' e =
    liberar_recursos-Igual censo (λ m. liberar_uno-Igual m censo (censo-NoMira m)) pid k k' e
