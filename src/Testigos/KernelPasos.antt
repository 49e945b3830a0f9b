-- ===== src/Testigos/KernelPasos.antt =====
-- Concrete inputs of the theorems on the runs of kernel/.
use so_2c_2023_no_me_queme.Base.{ℕ, List, [], ◌∷◌, Bool}
use so_2c_2023_no_me_queme.Kernel.Estado.{Kernel, recurso_block, con_cpu}
use so_2c_2023_no_me_queme.Kernel.Hilos.{iniciar_proceso}
use so_2c_2023_no_me_queme.Kernel.Hilos.Ejecucion.{exec_recibir}
use so_2c_2023_no_me_queme.Testigos.DatosKernel.{a, contexto, kernel, tras}

-- A new process, and then the cpu gives back process 1 at a SIGNAL that wakes process 2.
abbrev inicial : Kernel
inicial = record (kernel 0 (2 ∷ [])) { punto = con_cpu }

abbrev con_nuevo : Kernel
con_nuevo = iniciar_proceso a 64 1 (contexto 0 0 [] []) recurso_block 0 inicial

abbrev final : Kernel
final = tras (exec_recibir (contexto 1 6 a []) con_nuevo)

abbrev sin_orden : (ℕ → ℕ → Bool) → List ℕ → List ℕ
sin_orden menor xs = xs
