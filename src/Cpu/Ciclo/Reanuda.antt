-- ===== src/Cpu/Ciclo/Reanuda.antt =====
-- cpu/src/cpu.c: a page fault leaves the process as it was before the instruction.
use so_2c_2023_no_me_queme.Base.{
  ℕ, ◌≡◌, refl, ap, sym, ◌∙◌, Option, none, some, List, if◌then◌else◌, Bool, true, false, ◌==◌,
}
use so_2c_2023_no_me_queme.Base.Opt.{◌>>=◌, Todo, Todo->>=, Todo-some}
use mathlib.Core.Path.{subst}
use so_2c_2023_no_me_queme.Shared.Cadena.{str_to_uint32}
use so_2c_2023_no_me_queme.Shared.Instruccion.{
  Instruccion, NombreInstruccion, nombre, sum, sub, jnz, mov_in, mov_out, f_read, f_write,
}
use so_2c_2023_no_me_queme.Cpu.Registro.{Cpu, Memoria, con_contexto, get_registry, valor}
use so_2c_2023_no_me_queme.Cpu.Instrucciones.{_set, _sum, _sub, _jnz, pedir_syscall, __exit, saltar}
use so_2c_2023_no_me_queme.Cpu.Ciclo.{
  fetch, decodificar, decode, ejecutar_ciclo_instruccion, avanzar,
}
use so_2c_2023_no_me_queme.Cpu.Ciclo.Accesos.{
  Intacto, SinMarco, Resultado, true-not-false, _mov_in_reanuda, _mov_out_reanuda,
  _f_read_write_reanuda,
}

module _ {M : Type 0} (memoria : Memoria M) (string_itoa : ℕ → List ℕ) (sm : SinMarco memoria) where
  sin_memoria :
      (m : M) (c : Cpu) (o : Option Cpu)
      → c.page_fault ≡ false
      → Todo (λ c'. c'.page_fault ≡ c.page_fault) o
      → Todo (Resultado memoria string_itoa sm m c) (o >>= λ c'. some (c', m))
  sin_memoria m c o s t = Todo->>= (Resultado memoria string_itoa sm m c) o _ (λ c' e p. absurd (
      true-not-false memoria string_itoa sm
        (sym p ∙ Todo-some (λ x. x.page_fault ≡ c.page_fault) o e t ∙ s)))

  salto :
      (b : Bool) (o : Option ℕ) (c : Cpu)
      → Todo
          (λ c'. c'.page_fault ≡ c.page_fault)
          (if b then some c else (o >>= λ n. some (saltar n c)))
  salto true o c = refl
  salto false none c = tt
  salto false (some n) c = refl

  registro_reanuda :
      (m : M) (c : Cpu) (a b : List ℕ)
      → Todo (λ c'. c'.page_fault ≡ c.page_fault) (_set a b c)
        × Todo (λ c'. c'.page_fault ≡ c.page_fault) (_sum a b c)
        × Todo (λ c'. c'.page_fault ≡ c.page_fault) (_sub a b c)
        × Todo (λ c'. c'.page_fault ≡ c.page_fault) (_jnz a b c)
  unfolding _set _sum _sub _jnz
  registro_reanuda m c a b = (
    Todo->>= _ (get_registry a) _ (λ x e. Todo->>= _ (str_to_uint32 b) _ (λ y q. refl)),
    Todo->>= _ (get_registry a) _ (λ x e. Todo->>= _ (get_registry b) _ (λ y q. refl)),
    Todo->>= _ (get_registry a) _ (λ x e. Todo->>= _ (get_registry b) _ (λ y q. refl)),
    Todo->>= _ (get_registry a) _
        (λ x e. salto (valor x c.contexto.registros == 0) (str_to_uint32 b) c),
  )

  decodificar_reanuda :
      (n : Option NombreInstruccion) (i : Instruccion) (m : M) (c : Cpu)
      → c.page_fault ≡ false
      → Todo (Resultado memoria string_itoa sm m c) (decodificar memoria string_itoa n i m c)
  unfolding decodificar pedir_syscall __exit
  decodificar_reanuda (some NombreInstruccion.set) i m c s =
      sin_memoria m c _ s (registro_reanuda m c i.parametro1 i.parametro2).0
  decodificar_reanuda (some sum) i m c s =
      sin_memoria m c _ s (registro_reanuda m c i.parametro1 i.parametro2).1
  decodificar_reanuda (some sub) i m c s =
      sin_memoria m c _ s (registro_reanuda m c i.parametro1 i.parametro2).2
  decodificar_reanuda (some jnz) i m c s =
      sin_memoria m c _ s (registro_reanuda m c i.parametro1 i.parametro2).3
  decodificar_reanuda (some mov_in) i m c s =
      _mov_in_reanuda memoria string_itoa sm i.parametro1 i.parametro2 m c s
  decodificar_reanuda (some mov_out) i m c s =
      _mov_out_reanuda memoria string_itoa sm i.parametro1 i.parametro2 m c s
  decodificar_reanuda (some f_read) i m c s =
      _f_read_write_reanuda memoria string_itoa sm f_read i.parametro2 m c s
  decodificar_reanuda (some f_write) i m c s =
      _f_read_write_reanuda memoria string_itoa sm f_write i.parametro2 m c s
  decodificar_reanuda none i m c s = λ p. absurd (true-not-false memoria string_itoa sm (sym p ∙ s))
  decodificar_reanuda (some _) i m c s =
      λ p. absurd (true-not-false memoria string_itoa sm (sym p ∙ s))

  con_instruccion :
      (m : M) (c : Cpu)
      → Todo
          (λ (i, c1). c1 ≡ con_contexto (λ x. record x { instruccion_ejecutada = i }) c)
          (fetch memoria string_itoa m c)
  unfolding fetch
  con_instruccion m c =
      Todo->>= _ (memoria.pedir_instruccion m c.contexto.pid c.contexto.program_counter) _
        (λ i e. refl)

  avance :
      (b : Bool) (m : M) (c : Cpu) (r : Cpu × M)
      → r.0.page_fault ≡ b
      → Resultado memoria string_itoa sm m c r
      → Resultado memoria string_itoa sm m c
          (if b then r.0 else avanzar memoria string_itoa r.0, r.1)
  avance true m c r q h p = h p
  avance false m c r q h p = absurd (true-not-false memoria string_itoa sm (sym p ∙ q))

  -- When memoria answers page faults with the frame -1, a cycle that ends in a page fault leaves
  -- memoria, the registers and the program counter as they were: the instruction can run again.
  pub ejecutar_ciclo_instruccion-page_fault :
      (m m' : M) (c c' : Cpu)
      → c.page_fault ≡ false
      → ejecutar_ciclo_instruccion memoria string_itoa m c ≡ some (c', m')
      → c'.page_fault ≡ true
      → Intacto m c (c', m')
  unfolding ejecutar_ciclo_instruccion fetch decode
  ejecutar_ciclo_instruccion-page_fault m m' c c' s h =
      Todo-some (Resultado memoria string_itoa sm m c) _ h (
        Todo->>= (Resultado memoria string_itoa sm m c) (fetch memoria string_itoa m c) _
          (λ (i, c1) e1.
            Todo->>= (Resultado memoria string_itoa sm m c) (decode memoria string_itoa i m c1) _
              (λ r e2.
                let q =
                  Todo-some
                    (λ (i', c'). c' ≡ con_contexto (λ x. record x { instruccion_ejecutada = i' }) c)
                    _ e1 (con_instruccion m c) in
                avance r.0.page_fault m c r refl (
                  subst (λ x. Resultado memoria string_itoa sm m x r) q
                    (Todo-some (Resultado memoria string_itoa sm m c1) _ e2 (
                      decodificar_reanuda (nombre i.codigo_inst) i m c1
                        (ap (λ x. x.page_fault) q ∙ s)))))))
