-- ===== src/Kernel/Liberacion.antt =====
-- kernel/src/kernel.c: `liberar_recursos`, what a process that ended gives back.
pub mod Devolucion
pub mod Ajenos
pub mod Asignados
pub mod Vacio
use so_2c_2023_no_me_queme.Base.{
  ℕ, ◌+◌, Option, none, some, List, [], ◌∷◌, ◌++◌, drop, ◌==◌, ltb, if◌then◌else◌,
}
use so_2c_2023_no_me_queme.Base.Opt.{◌>>=◌}
use so_2c_2023_no_me_queme.Kernel.Estado.{
  Kernel, Pcb, Recurso, finalizar, buscar_pcb, set_pcb_ready, remove_blocked, replanificar,
}
use so_2c_2023_no_me_queme.Kernel.Recursos.{
  buscar_recurso, mas_uno, menos_uno, en_kernel, en_proceso,
}

-- The queue without the process that ended: out to an auxiliary queue and back.
unfoldable pub sin_proceso : ℕ → List ℕ → List ℕ
sin_proceso pid [] = []
sin_proceso pid (p ∷ cola) =
    let resto = sin_proceso pid cola in if p == pid then resto else p ∷ resto

abbrev pub en_cero : Recurso → Recurso
en_cero r = record r { cantidad = 0 }

-- The kernel gets the instances back, and the first of the queue leaves it.
abbrev pub recuperar : ℕ → ℕ → Recurso → Recurso
recuperar pid cantidad r = record r {
  cantidad = r.cantidad + cantidad;
  colabloqueado = drop 1 (sin_proceso pid r.colabloqueado);
}

unfoldable pub a_ready : ℕ → Kernel → Kernel
a_ready d k =
    if k.frenado
    then record k { lista_ready_detenidos = k.lista_ready_detenidos ++ (d ∷ []) }
    else replanificar (set_pcb_ready d k)

-- The first that waited takes one of the instances.
unfoldable pub entregar : List ℕ → List ℕ → Kernel → Option Kernel
entregar [] n k = some k
entregar (d ∷ cola) n k = do
  k' ← en_proceso d n mas_uno (remove_blocked d k)
  some (a_ready d (en_kernel n menos_uno k'))

-- A resource that the process holds; `none` dereferences NULL.
unfoldable pub devolver : ℕ → List ℕ → Recurso → Kernel → Option Kernel
devolver pid n r k = do
  recurso_en_kernel ← buscar_recurso n k.recursos_kernel
  k' ← en_proceso pid n en_cero (en_kernel n (recuperar pid r.cantidad) k)
  entregar (sin_proceso pid recurso_en_kernel.colabloqueado) n k'

-- One round of the loop. The names of a process's resources are those of the configuration, each
-- once, so the one at an index is the one of its name.
unfoldable pub liberar_uno : ℕ → List ℕ → Kernel → Option Kernel
liberar_uno pid n k = do
  p ← buscar_pcb pid k.lista_global
  r ← buscar_recurso n p.recursos_asignados
  let devuelto = devolver pid n r k
  if ltb r.cantidad 1 then some k else devuelto

unfoldable pub liberar_cada : ℕ → List Recurso → Kernel → Option Kernel
liberar_cada pid [] k = some k
liberar_cada pid (r ∷ rs) k = do k' ← liberar_uno pid r.nombre k; liberar_cada pid rs k'

unfoldable pub liberar_recursos : ℕ → Kernel → Option Kernel
liberar_recursos pid k = do
  p ← buscar_pcb pid k.lista_global
  let avisado = record k { a_memoria = k.a_memoria ++ (finalizar pid ∷ []) }
  liberar_cada pid p.recursos_asignados avisado
