-- ===== src/Kernel/Liberacion/Vacio.antt =====
-- kernel/src/kernel.c: what the process that ended still holds after `liberar_recursos`.
use so_2c_2023_no_me_queme.Base.{ℕ, ◌≡◌, List, [], ◌∷◌, ◌==◌, if◌then◌else◌, Bool, false, ◌||◌}
use so_2c_2023_no_me_queme.Shared.Cadena.{strcmp_eq}
use so_2c_2023_no_me_queme.Kernel.Estado.{Kernel, Recurso}
use so_2c_2023_no_me_queme.Kernel.Recursos.Total.{cant}
use so_2c_2023_no_me_queme.Kernel.Liberacion.Asignados.{suyos}

-- The process at the front of a queue is another one.
abbrev Ajena : ℕ → List ℕ → Type 0
Ajena pid [] = Unit
Ajena pid (d ∷ cola) = (d == pid) ≡ false

module _ (pid : ℕ) where
  -- What a round leaves of each resource.
  abbrev Resta : List ℕ → Kernel → Kernel → Type 0
  Resta m k k' =
      (n : List ℕ) → cant n (suyos pid k') ≡ (if strcmp_eq m n then 0 else cant n (suyos pid k))

-- One of the resources has the name.
unfoldable nombrado : List ℕ → List Recurso → Bool
nombrado n [] = false
nombrado n (r ∷ rs) = strcmp_eq r.nombre n || nombrado n rs

module _ (pid : ℕ) (n : List ℕ) where
  abbrev Quita : List Recurso → Kernel → Kernel → Type 0
  Quita rs k k' = cant n (suyos pid k') ≡ (if nombrado n rs then 0 else cant n (suyos pid k))
