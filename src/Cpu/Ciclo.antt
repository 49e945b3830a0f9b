-- ===== src/Cpu/Ciclo.antt =====
-- cpu/src/cpu.c: `fetch`, `decode`, `ejecutar_ciclo_instruccion`.
pub mod Accesos
pub mod Reanuda
pub mod Salto
use so_2c_2023_no_me_queme.Base.{
  ℕ, ◌+◌, ◌%◌, ◌^◌, ◌≡◌, refl, Option, none, some, List, if◌then◌else◌, Bool, true, false,
}
use so_2c_2023_no_me_queme.Base.Opt.{◌>>=◌}
use so_2c_2023_no_me_queme.Shared.Instruccion.{
  Instruccion, NombreInstruccion, nombre, sum, sub, jnz, sleep, wait, signal, mov_in, mov_out,
  f_open, f_create, f_close, f_seek, f_read, f_write, f_truncate, exit, print_file_data,
}
use so_2c_2023_no_me_queme.Cpu.Registro.{Cpu, Memoria, con_contexto}
use so_2c_2023_no_me_queme.Cpu.Instrucciones.{
  _set, _sum, _sub, _jnz, pedir_syscall, __exit, _mov_in, _mov_out, _f_read_write,
}

module _ {M : Type 0} (memoria : Memoria M) (string_itoa : ℕ → List ℕ) where
  -- `none` is `abort`: the answer is no instruction.
  unfoldable pub fetch : M → Cpu → Option (Instruccion × Cpu)
  fetch m c = do
    i ← memoria.pedir_instruccion m c.contexto.pid c.contexto.program_counter
    some (i, con_contexto (λ x. record x { instruccion_ejecutada = i }) c)

  abbrev con_memoria : M → Option Cpu → Option (Cpu × M)
  con_memoria m o = o >>= λ c. some (c, m)

  -- The `switch` of `decode`; `none` in place of a name is its default.
  unfoldable pub decodificar : Option NombreInstruccion → Instruccion → M → Cpu → Option (Cpu × M)
  decodificar none i m c = some (c, m)
  decodificar (some NombreInstruccion.set) i m c = con_memoria m (_set i.parametro1 i.parametro2 c)
  decodificar (some sum) i m c = con_memoria m (_sum i.parametro1 i.parametro2 c)
  decodificar (some sub) i m c = con_memoria m (_sub i.parametro1 i.parametro2 c)
  decodificar (some jnz) i m c = con_memoria m (_jnz i.parametro1 i.parametro2 c)
  decodificar (some sleep) i m c = some (pedir_syscall sleep c, m)
  decodificar (some wait) i m c = some (pedir_syscall wait c, m)
  decodificar (some signal) i m c = some (pedir_syscall signal c, m)
  decodificar (some mov_in) i m c = _mov_in memoria string_itoa i.parametro1 i.parametro2 m c
  decodificar (some mov_out) i m c = _mov_out memoria string_itoa i.parametro1 i.parametro2 m c
  decodificar (some f_open) i m c = some (pedir_syscall f_open c, m)
  decodificar (some f_create) i m c = some (c, m)
  decodificar (some f_close) i m c = some (pedir_syscall f_close c, m)
  decodificar (some f_seek) i m c = some (pedir_syscall f_seek c, m)
  decodificar (some f_read) i m c =
      con_memoria m (_f_read_write memoria string_itoa f_read i.parametro2 m c)
  decodificar (some f_write) i m c =
      con_memoria m (_f_read_write memoria string_itoa f_write i.parametro2 m c)
  decodificar (some f_truncate) i m c = some (pedir_syscall f_truncate c, m)
  decodificar (some exit) i m c = some (__exit c, m)
  decodificar (some print_file_data) i m c = some (c, m)

  unfoldable pub decode : Instruccion → M → Cpu → Option (Cpu × M)
  decode i m c = decodificar (nombre i.codigo_inst) i m c

  -- `contexto_actual->program_counter++`
  abbrev pub avanzar : Cpu → Cpu
  avanzar c = con_contexto (λ x. record x { program_counter = (x.program_counter + 1) % 2 ^ 32 }) c

  unfoldable pub ejecutar_ciclo_instruccion : M → Cpu → Option (Cpu × M)
  ejecutar_ciclo_instruccion m c = do
    (i, c1) ← fetch m c
    (c2, m2) ← decode i m c1
    some (if c2.page_fault then c2 else avanzar c2, m2)
