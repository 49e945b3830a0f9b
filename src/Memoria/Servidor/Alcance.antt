-- ===== src/Memoria/Servidor/Alcance.antt =====
-- Requests in any order.
use so_2c_2023_no_me_queme.Base.{ℕ, ◌≡◌, sym, Option, some, Bool-cases, inl, inr, get_elem?}
use so_2c_2023_no_me_queme.Base.Opt.{Todo, Todo-some, >>=-eq-some}
use mathlib.Core.Path.{subst}
use so_2c_2023_no_me_queme.Memoria.Estado.{Memoria}
use so_2c_2023_no_me_queme.Memoria.Marcos.{hay_marcos_libres}
use so_2c_2023_no_me_queme.Memoria.Paginas.{pagina_a_reemplazar}
use so_2c_2023_no_me_queme.Memoria.Usuario.{obtener_proceso_pid}
use so_2c_2023_no_me_queme.Memoria.Fallo.{Swap, atender_page_fault, obtener_marco_para, reemplazar}
use so_2c_2023_no_me_queme.Memoria.Fallo.Invariante.{IsMemoria}
use so_2c_2023_no_me_queme.Memoria.Fallo.Conserva.{HayLugar, atender_page_fault_lem}
use so_2c_2023_no_me_queme.Memoria.Servidor.{
  RespuestaCpu, RespuestaFs, atender_cpu, atender_fs, Atiende, cpu, fs, page_fault, otros,
  Atendidos, ninguno, luego,
}
use so_2c_2023_no_me_queme.Memoria.Servidor.Invariante.{atender_cpu-IsMemoria, atender_fs-IsMemoria}

module _ {S : Type 0} (sw : Swap S) where
  -- A frame was found only if there is room.
  obtener_marco-HayLugar :
      (pid a : ℕ) (m : Memoria) (s : S) {r : ℕ × Memoria × S}
      → obtener_marco_para sw pid a m s ≡ some r
      → HayLugar m
  unfolding obtener_marco_para reemplazar
  obtener_marco-HayLugar pid a m s e = elim (Bool-cases (hay_marcos_libres m.marcos)) [
    | inl si ↦ inl si
    | inr no' ↦
        let (r, q, x) = >>=-eq-some (pagina_a_reemplazar m) _ (rw no' at e) in inr (r.0, r.1, q)
  ]

  atender_page_fault-IsMemoria :
      (duenio : ℕ → ℕ) (pid nro_pag : ℕ) (m : Memoria) (s : S) {m' : Memoria} {s' : S}
      → IsMemoria duenio m
      → atender_page_fault sw pid nro_pag m s ≡ some (m', s')
      → IsMemoria duenio m'
  unfolding atender_page_fault
  atender_page_fault-IsMemoria duenio pid nro_pag m s {m'} {s'} c e =
      let (p, hp, e1) = >>=-eq-some (obtener_proceso_pid pid m) _ e in
      let (a, ha, e2) = >>=-eq-some (get_elem? p.entradas_tabla nro_pag) _ e1 in
      let (x, hx, e3) = >>=-eq-some (m.entradas a) _ e2 in
      let (r, hr, e4) = >>=-eq-some (obtener_marco_para sw pid a m s) _ e3 in
      let fin =
        atender_page_fault_lem sw duenio pid nro_pag m s p a x c hp ha hx
          (obtener_marco-HayLugar pid a m s hr) in
      let P : Option (Memoria × S) → Type 0 = Todo (λ q. IsMemoria duenio q.0) in
      Todo-some (λ (q : Memoria × S). IsMemoria duenio q.0) (atender_page_fault sw pid nro_pag m s)
        e (subst P (sym fin.3) fin.4)

  Atiende-IsMemoria :
      (duenio : ℕ → ℕ) {m m' : Memoria} {s s' : S}
      → Atiende sw m s m' s'
      → IsMemoria duenio m
      → IsMemoria duenio m'
  Atiende-IsMemoria duenio {m} (cpu p e) c =
      Todo-some (λ (r : RespuestaCpu × Memoria). IsMemoria duenio r.1) (atender_cpu p m) e
        (atender_cpu-IsMemoria duenio p m c)
  Atiende-IsMemoria duenio {m} (fs p e) c =
      Todo-some (λ (r : RespuestaFs × Memoria). IsMemoria duenio r.1) (atender_fs p m) e
        (atender_fs-IsMemoria duenio p m c)
  Atiende-IsMemoria duenio {m} {s} (page_fault pid nro_pag e) c =
      atender_page_fault-IsMemoria duenio pid nro_pag m s c e
  Atiende-IsMemoria duenio otros c = c

  -- Whatever requests of the cpu, page faults and file transfers memoria serves one after another,
  -- in whatever order, its tables stay consistent: every present page has a frame that bears its
  -- owner's pid, no two present pages share one, the entries of live processes are there, and under
  -- FIFO the queue holds present pages, each once. The conditions: the tables are consistent at the
  -- start, no process starts or ends in between, and each request is served to its end before the
  -- next one starts. That last one is for the page fault above all, which waits for the filesystem
  -- between taking the victim out of the queue and marking it absent: nothing in the code keeps the
  -- cpu from using the victim meanwhile, which puts it back.
  pub Atendidos-IsMemoria :
      (duenio : ℕ → ℕ) {m : Memoria} {s : S} {m' : Memoria} {s' : S}
      → Atendidos sw m s m' s'
      → IsMemoria duenio m
      → IsMemoria duenio m'
  Atendidos-IsMemoria duenio ninguno c = c
  Atendidos-IsMemoria duenio (luego ps p) c =
      Atiende-IsMemoria duenio p (Atendidos-IsMemoria duenio ps c)
