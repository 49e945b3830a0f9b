-- ===== src/Cpu/Instrucciones.antt =====
-- cpu/src/instructions.c: one function per instruction; cpu/src/cpu.c: `traducir_dl`,
-- `obtener_valor_dir`, `escribir_memoria`.
pub mod Aritmetica
use so_2c_2023_no_me_queme.Base.{
  ℕ, zero, suc, ◌+◌, ◌-◌, ◌*◌, ◌/◌, ◌%◌, ◌^◌, ◌≤◌, ◌<◌, ◌≡◌, refl, Option, none, some, List, [],
  ◌∷◌, ◌++◌, arith, length, ◌==◌, if◌then◌else◌, Bool, true, false,
}
use so_2c_2023_no_me_queme.Base.Opt.{◌>>=◌}
use so_2c_2023_no_me_queme.Shared.Cadena.{str_to_uint32}
use so_2c_2023_no_me_queme.Shared.Contexto.{
  Contexto, Registros, MotivoDesalojo, codigo_motivo, syscall,
}
use so_2c_2023_no_me_queme.Shared.Instruccion.{
  Instruccion, NombreInstruccion, codigo, sum, sub, jnz, sleep, wait, signal, mov_in, mov_out,
  f_open, f_create, f_close, f_seek, f_read, f_write, f_truncate, exit, print_file_data,
}
use so_2c_2023_no_me_queme.Cpu.Registro.{
  Cpu, Memoria, Registro, get_registry, valor, poner, con_contexto, ultima, motivo, con_registros,
  menos_uno,
}

-- `*registro = str_to_uint32(valor)`
unfoldable pub _set : List ℕ → List ℕ → Cpu → Option Cpu
_set registro v c = do
  r ← get_registry registro
  n ← str_to_uint32 v
  some (ultima NombreInstruccion.set (con_registros (poner r n) c))

unfoldable pub _sum : List ℕ → List ℕ → Cpu → Option Cpu
_sum registro_destino registro_origen c = do
  d ← get_registry registro_destino
  o ← get_registry registro_origen
  some (ultima sum (con_registros (λ r. poner d ((valor d r + valor o r) % 2 ^ 32) r) c))

unfoldable pub _sub : List ℕ → List ℕ → Cpu → Option Cpu
_sub registro_destino registro_origen c = do
  d ← get_registry registro_destino
  o ← get_registry registro_origen
  some (ultima sub (con_registros (λ r. poner d ((valor d r + (2 ^ 32 - valor o r)) % 2 ^ 32) r) c))

-- The jump itself; a register at zero leaves the last instruction code as it was.
abbrev pub saltar : ℕ → Cpu → Cpu
saltar n c = ultima jnz (con_contexto (λ x. record x { program_counter = n }) c)

unfoldable pub _jnz : List ℕ → List ℕ → Cpu → Option Cpu
_jnz registro instruccion c = do
  r ← get_registry registro
  let destino = str_to_uint32 instruccion >>= λ n. some (saltar n c)
  if valor r c.contexto.registros == 0 then some c else destino

-- `_sleep`, `_wait`, `_signal`, `_f_open`, `_f_close`, `_f_seek`, `_f_truncate`: only these two
-- assignments.
unfoldable pub pedir_syscall : NombreInstruccion → Cpu → Cpu
pedir_syscall n c = motivo (codigo_motivo syscall) (ultima n c)

unfoldable pub __exit : Cpu → Cpu
__exit c = ultima exit c

abbrev pub marcar_page_fault : ℕ → Cpu → Cpu
marcar_page_fault num_pag c = record c {
  page_fault = true;
  contexto = record c.contexto { nro_pf = num_pag };
}

-- The address and the globals after it; `tamano_pagina` is never 0 here.
unfoldable pub traducir : Bool × ℕ → ℕ → Cpu → ℕ × Cpu
traducir (true, marco) dl c = (marco, marcar_page_fault (dl / c.tamano_pagina) c)
traducir (false, marco) dl c =
    ((marco * c.tamano_pagina + (dl - dl / c.tamano_pagina * c.tamano_pagina)) % 2 ^ 32, c)

module _ {M : Type 0} (memoria : Memoria M) (string_itoa : ℕ → List ℕ) where
  unfoldable pub traducir_dl : ℕ → M → Cpu → ℕ × Cpu
  unfolding traducir
  traducir_dl dl m c = traducir (memoria.pedir_marco m c.contexto.pid (dl / c.tamano_pagina)) dl c

  -- With the address -1, nothing is asked of memoria.
  unfoldable pub leer_en : M → ℕ × Cpu → Option (ℕ × Cpu × M)
  leer_en m (df, c) =
      let respuesta = memoria.mov_in m df >>= λ (v, m'). some (v, c, m') in
      if df == menos_uno then some (menos_uno, c, m) else respuesta

  unfoldable pub obtener_valor_dir : ℕ → M → Cpu → Option (ℕ × Cpu × M)
  unfolding leer_en
  obtener_valor_dir dl m c = leer_en m (traducir_dl dl m c)

  unfoldable pub escribir_en : ℕ → M → ℕ × Cpu → Option (Cpu × M)
  escribir_en v m (df, c) =
      let respuesta = memoria.mov_out m df v >>= λ m'. some (c, m') in
      if df == menos_uno then some (c, m) else respuesta

  unfoldable pub escribir_memoria : ℕ → ℕ → M → Cpu → Option (Cpu × M)
  unfolding escribir_en
  escribir_memoria dl v m c = escribir_en v m (traducir_dl dl m c)

  unfoldable pub _mov_in : List ℕ → List ℕ → M → Cpu → Option (Cpu × M)
  _mov_in registro direc_logica m c = do
    r ← get_registry registro
    dl ← str_to_uint32 direc_logica
    (v, c', m') ← obtener_valor_dir dl m c
    some (ultima mov_in (if v == menos_uno then c' else con_registros (poner r v) c'), m')

  unfoldable pub _mov_out : List ℕ → List ℕ → M → Cpu → Option (Cpu × M)
  _mov_out direc_logica registro m c = do
    r ← get_registry registro
    dl ← str_to_uint32 direc_logica
    (c', m') ← escribir_memoria dl (valor r c.contexto.registros) m c
    some (ultima mov_out c', m')

  -- The second parameter becomes the physical address in decimal digits, with its terminator.
  abbrev pub con_direccion : ℕ → Cpu → Cpu
  con_direccion df c =
      con_contexto
        (λ x. record x {
          instruccion_ejecutada = record x.instruccion_ejecutada {
            longitud_parametro2 = length (string_itoa df) + 1;
            parametro2 = string_itoa df ++ (0 ∷ []);
          };
        })
        c

  unfoldable pub poner_direccion : ℕ × Cpu → Cpu
  poner_direccion (df, c) = if df == menos_uno then c else con_direccion df c

  unfoldable pub traducir_dl_fs : List ℕ → M → Cpu → Option Cpu
  unfolding poner_direccion
  traducir_dl_fs dl m c = do n ← str_to_uint32 dl; some (poner_direccion (traducir_dl n m c))

  -- `_f_read` and `_f_write`.
  unfoldable pub _f_read_write : NombreInstruccion → List ℕ → M → Cpu → Option Cpu
  _f_read_write n direc_logica m c = do
    c' ← traducir_dl_fs direc_logica m c
    some (motivo (codigo_motivo syscall) (ultima n c'))
