-- ===== src/Kernel/Pasos/Invariante.antt =====
-- kernel/: what holds in every state that the kernel reaches, whatever the order of its threads.
use so_2c_2023_no_me_queme.Base.{ℕ, ◌+◌, ◌≤◌, ◌<◌, ◌≡◌, List, [], ◌∷◌, ◌++◌, Bool, ◌⊎◌}
use so_2c_2023_no_me_queme.Shared.Contexto.{Contexto}
use so_2c_2023_no_me_queme.Kernel.Estado.{Kernel, Pcb}
use so_2c_2023_no_me_queme.Kernel.Recursos.Total.{total}
use so_2c_2023_no_me_queme.Kernel.Recursos.Ajenos.{ver}
use so_2c_2023_no_me_queme.Kernel.Recursos.Vistas.{pids, censo}
use so_2c_2023_no_me_queme.Kernel.Planificador.Eleccion.{veces}
use so_2c_2023_no_me_queme.Kernel.Pasos.Estable.{Estable}

-- No two processes have the same pid, and the next pid is new.
pub record IsPoblacion (k : Kernel) : Type 0 where
  pub unicos : (b : ℕ) → veces b (pids k.lista_global) ≤ 1
  pub numerados : (b : ℕ) → 0 < veces b (pids k.lista_global) → b < k.generador_de_id

abbrev Nace : Kernel → Kernel → Type 0
Nace k k' =
    (p : Pcb) × (k'.lista_global ≡ k.lista_global ++ (p ∷ []))
    × (p.pid ≡ k.generador_de_id)
    × (k'.generador_de_id ≡ k.generador_de_id + 1)

module _ (list_sort : (ℕ → ℕ → Bool) → List ℕ → List ℕ) where
  module _ (n : List ℕ) where
    abbrev Crece : Kernel → Kernel → Type 0
    Crece k k' = (total n k ≤ total n k') × ((ver censo k' ≡ ver censo k) ⊎ Nace k k')
