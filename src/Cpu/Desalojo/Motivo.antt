-- ===== src/Cpu/Desalojo/Motivo.antt =====
-- cpu/src/cpu.c: the reason for which a context goes back to the kernel.
use so_2c_2023_no_me_queme.Base.{◌≡◌, refl, Bool, true, false, if◌then◌else◌, ◌&&◌, ◌||◌, not}
use so_2c_2023_no_me_queme.Shared.Contexto.{
  MotivoDesalojo, codigo_motivo, interrupt_fin_quantum, interrupt_fin_proceso,
  interrupt_nuevo_proceso, syscall,
}
use so_2c_2023_no_me_queme.Cpu.Registro.{Cpu, motivo}
use so_2c_2023_no_me_queme.Cpu.Desalojo.{
  es_syscall, hay_interrupciones, obtener_motivo_desalojo, sigue,
}

-- Each reason, and the state that it is given in.
abbrev pub IsMotivo : Cpu → MotivoDesalojo → Type 0
IsMotivo c MotivoDesalojo.page_fault = c.page_fault ≡ true
IsMotivo c syscall = (c.page_fault ≡ false) × (es_syscall c ≡ true)
IsMotivo c interrupt_fin_quantum =
    (c.page_fault ≡ false) × (es_syscall c ≡ false) × (c.fin_quantum ≡ true)
IsMotivo c interrupt_fin_proceso =
    (c.page_fault ≡ false)
    × (es_syscall c ≡ false)
    × (c.fin_quantum ≡ false)
    × (c.fin_proceso ≡ true)
IsMotivo c interrupt_nuevo_proceso =
    (c.page_fault ≡ false)
    × (es_syscall c ≡ false)
    × (c.fin_quantum ≡ false)
    × (c.fin_proceso ≡ false)
    × (c.nuevo_proceso ≡ true)
IsMotivo c MotivoDesalojo.page_fault_resuelto = ⊥

con_casos :
    (c : Cpu) (p s q f n : Bool)
    → c.page_fault ≡ p
    → es_syscall c ≡ s
    → c.fin_quantum ≡ q
    → c.fin_proceso ≡ f
    → c.nuevo_proceso ≡ n
    → (not s && (not (if q || (f || n) then true else false) && not p)) ≡ false
    → (m : MotivoDesalojo) × IsMotivo c m
      × ((if p
            then motivo 4 c
            else if s
            then motivo 3 c
            else if q
            then motivo 0 c
            else if f
            then motivo 1 c
            else if n
            then motivo 2 c
            else c)
          ≡ motivo (codigo_motivo m) c)
con_casos c true s q f n ep es eq ef en h = (MotivoDesalojo.page_fault, ep, refl)
con_casos c false true q f n ep es eq ef en h = (syscall, (ep, es), refl)
con_casos c false false true f n ep es eq ef en h = (interrupt_fin_quantum, (ep, es, eq), refl)
con_casos c false false false true n ep es eq ef en h =
    (interrupt_fin_proceso, (ep, es, eq, ef), refl)
con_casos c false false false false true ep es eq ef en h =
    (interrupt_nuevo_proceso, (ep, es, eq, ef, en), refl)
con_casos c false false false false false ep es eq ef en h = absurd (cc)

-- When the loop over the instruction cycle ends, the context is given a reason that holds of the
-- state, a page fault before a system call before the interruptions in their order, and nothing
-- else of the state changes.
pub obtener_motivo_desalojo_lem :
    (c : Cpu)
    → sigue c ≡ false
    → (m : MotivoDesalojo) × IsMotivo c m × (obtener_motivo_desalojo c ≡ motivo (codigo_motivo m) c)
unfolding obtener_motivo_desalojo sigue hay_interrupciones
obtener_motivo_desalojo_lem c h =
    con_casos c c.page_fault (es_syscall c) c.fin_quantum c.fin_proceso c.nuevo_proceso refl refl
      refl refl refl h
