-- ===== src/Kernel/Recursos.antt =====
-- kernel/src/instructions.c: `kwait`, `ksignal`; kernel/src/kernel.c: `buscar_recurso`,
-- `tiene_recurso`, `finalizar_proceso_en_ejecucion`.
pub mod Total
pub mod Prestamo
pub mod Conserva
pub mod Ajenos
pub mod Vistas
use so_2c_2023_no_me_queme.Base.{
  ℕ, zero, suc, ◌+◌, ◌-◌, ◌≡◌, refl, ap, Option, none, some, List, [], ◌∷◌, ◌++◌, arith, length,
  drop, ◌==◌, ltb, if◌then◌else◌, Bool, true, false,
}
use so_2c_2023_no_me_queme.Base.Opt.{◌>>=◌}
use so_2c_2023_no_me_queme.Shared.Cadena.{strcmp_eq}
use so_2c_2023_no_me_queme.Kernel.Estado.{
  Kernel, Pcb, Recurso, EstadoProceso, buscar_pcb, con_pcb, en_pcb, cambiar_estado, set_pcb_ready,
  remove_blocked, replanificar, continuar, finish_exit, block,
}

unfoldable pub buscar_recurso : List ℕ → List Recurso → Option Recurso
buscar_recurso n [] = none
buscar_recurso n (r ∷ rs) =
    let resto = buscar_recurso n rs in if strcmp_eq r.nombre n then some r else resto

-- An assignment through the pointer that `buscar_recurso` returns.
unfoldable pub con_recurso : List ℕ → (Recurso → Recurso) → List Recurso → List Recurso
con_recurso n f [] = []
con_recurso n f (r ∷ rs) =
    let resto = con_recurso n f rs in if strcmp_eq r.nombre n then f r ∷ rs else r ∷ resto

-- `none` dereferences NULL.
unfoldable pub tiene_recurso : List Recurso → List ℕ → Option Bool
tiene_recurso rs n = do r ← buscar_recurso n rs; some (ltb 0 r.cantidad)

abbrev pub mas_uno : Recurso → Recurso
mas_uno r = record r { cantidad = r.cantidad + 1 }

abbrev pub menos_uno : Recurso → Recurso
menos_uno r = record r { cantidad = r.cantidad - 1 }

abbrev pub en_kernel : List ℕ → (Recurso → Recurso) → Kernel → Kernel
en_kernel n f k = record k { recursos_kernel = con_recurso n f k.recursos_kernel }

-- A change of the amount that a process holds; `none` dereferences NULL.
unfoldable pub en_proceso : ℕ → List ℕ → (Recurso → Recurso) → Kernel → Option Kernel
unfolding buscar_recurso con_recurso
en_proceso pid n f k = do
  p ← buscar_pcb pid k.lista_global
  r ← buscar_recurso n p.recursos_asignados
  some (en_pcb pid (λ q. record q { recursos_asignados = con_recurso n f q.recursos_asignados }) k)

-- The process that ran goes to the exit queue.
abbrev pub a_exit : Kernel → Kernel
a_exit k = record (cambiar_estado k.pcbelegido finish_exit k) {
  proceso_en_ejecucion = none;
  cola_exit = k.cola_exit ++ (k.pcbelegido ∷ []);
  sem_exit = k.sem_exit + 1;
}

unfoldable pub finalizar_proceso_en_ejecucion : Kernel → Kernel
finalizar_proceso_en_ejecucion k = record (a_exit k) { cola_exec = drop 1 k.cola_exec }

unfoldable pub bloquear_por_recurso : List ℕ → Kernel → Kernel
bloquear_por_recurso n k =
    replanificar
      (record (en_kernel n
        (λ r. record r { colabloqueado = r.colabloqueado ++ (k.pcbelegido ∷ []) })
        (cambiar_estado k.pcbelegido block k)) {
          cola_exec = drop 1 k.cola_exec;
          cola_block = k.cola_block ++ (k.pcbelegido ∷ []);
          proceso_en_ejecucion = none;
        })

-- The state of the head of `cola_exec` changes; an empty queue dereferences NULL.
unfoldable pub kwait_inexistente : List ℕ → Kernel → Option Kernel
kwait_inexistente [] k = none
kwait_inexistente (aux ∷ resto) k = some (record (cambiar_estado aux finish_exit k) {
  cola_exec = resto;
  proceso_en_ejecucion = none;
  cola_exit = k.cola_exit ++ (k.pcbelegido ∷ []);
  sem_exit = k.sem_exit + 1;
})

unfoldable pub kwait_con : Option Recurso → List ℕ → Kernel → Option Kernel
kwait_con none n k = kwait_inexistente k.cola_exec k
kwait_con (some r) n k =
    let toma =
      en_proceso k.pcbelegido n mas_uno (en_kernel n menos_uno k) >>= λ k'. some (continuar k') in
    if r.cantidad == 0 then some (bloquear_por_recurso n k) else toma

abbrev pub pedir : List ℕ → Kernel → Kernel
pedir n k = en_pcb k.pcbelegido (λ p. record p { recurso_instruccion = n }) k

unfoldable pub kwait : List ℕ → Kernel → Option Kernel
kwait n k = kwait_con (buscar_recurso n k.recursos_kernel) n (pedir n k)

-- The first of the queue gets an instance and is ready.
unfoldable pub despertar : List ℕ → List ℕ → Kernel → Option Kernel
despertar [] n k = some (continuar k)
despertar (d ∷ cola) n k = do
  k' ← en_proceso d n mas_uno (en_kernel n (λ r. record r { colabloqueado = cola }) k)
  some (continuar (set_pcb_ready d (remove_blocked d k')))

unfoldable pub ksignal_con : Option Recurso → List ℕ → Kernel → Option Kernel
ksignal_con none n k = some (a_exit k)
ksignal_con (some r) n k = do
  p ← buscar_pcb k.pcbelegido k.lista_global
  tiene ← tiene_recurso p.recursos_asignados n
  let libera =
      en_proceso k.pcbelegido n menos_uno (en_kernel n mas_uno k) >>= despertar r.colabloqueado n
  let termina = finalizar_proceso_en_ejecucion k
  if tiene then libera else some (replanificar (record termina { sem_exit = termina.sem_exit + 1 }))

unfoldable pub ksignal : List ℕ → Kernel → Option Kernel
ksignal n k = ksignal_con (buscar_recurso n k.recursos_kernel) n (pedir n k)
