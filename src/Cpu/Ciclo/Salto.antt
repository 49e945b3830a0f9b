-- ===== src/Cpu/Ciclo/Salto.antt =====
-- cpu/src/cpu.c: where the program counter stands after JNZ.
use so_2c_2023_no_me_queme.Base.{
  ℕ, ◌+◌, ◌%◌, ◌^◌, ◌≡◌, refl, some, List, if◌then◌else◌, false, ◌==◌, inl, inr, Bool-cases,
}
use so_2c_2023_no_me_queme.Shared.Cadena.{str_to_uint32}
use so_2c_2023_no_me_queme.Shared.Instruccion.{Instruccion, nombre, jnz}
use so_2c_2023_no_me_queme.Cpu.Registro.{Cpu, Memoria, Registro, con_contexto, get_registry, valor}
use so_2c_2023_no_me_queme.Cpu.Instrucciones.{_jnz, saltar}
use so_2c_2023_no_me_queme.Cpu.Ciclo.{
  fetch, decodificar, decode, ejecutar_ciclo_instruccion, avanzar,
}

module _ {M : Type 0} (memoria : Memoria M) (string_itoa : ℕ → List ℕ) where
  abbrev con_i : Instruccion → Cpu → Cpu
  con_i i c = con_contexto (λ x. record x { instruccion_ejecutada = i }) c

  -- JNZ on a register that is not 0 leaves the program counter one past the instruction that it
  -- names, since the cycle goes on to add 1; on a register at 0, one past the JNZ itself. Neither
  -- memoria nor the registers change.
  pub ejecutar_ciclo_instruccion-jnz :
      (m : M) (c : Cpu) (i : Instruccion) (r : Registro) (n : ℕ)
      → c.page_fault ≡ false
      → memoria.pedir_instruccion m c.contexto.pid c.contexto.program_counter ≡ some i
      → nombre i.codigo_inst ≡ some jnz
      → get_registry i.parametro1 ≡ some r
      → str_to_uint32 i.parametro2 ≡ some n
      → (c' : Cpu) × (ejecutar_ciclo_instruccion memoria string_itoa m c ≡ some (c', m))
        × (c'.contexto.registros ≡ c.contexto.registros)
        × (c'.contexto.program_counter
            ≡ ((if valor r c.contexto.registros == 0 then c.contexto.program_counter else n) + 1)
              % 2 ^ 32)
  unfolding ejecutar_ciclo_instruccion fetch decode decodificar _jnz
  ejecutar_ciclo_instruccion-jnz m c i r n s ei en er es =
      elim (Bool-cases (valor r c.contexto.registros == 0)) [
        | inl si ↦
            (avanzar memoria string_itoa (con_i i c), simp (ei, en, er, es, si, s), refl, simp (si))
        | inr no' ↦ (
          avanzar memoria string_itoa (saltar n (con_i i c)),
          simp (ei, en, er, es, no', s),
          refl,
          simp (no'),
        )
      ]
