-- ===== src/Testigos/Cpu.antt =====
-- Concrete inputs of the theorems on cpu/.
use so_2c_2023_no_me_queme.Base.{
  ℕ, ◌+◌, ◌%◌, ◌/◌, ◌^◌, ◌≡◌, refl, some, List, [], ◌∷◌, ◌==◌, if◌then◌else◌, true, false, Bool,
  arith, bytes_eq,
}
use so_2c_2023_no_me_queme.Base.Opt.{◌>>=◌}
use so_2c_2023_no_me_queme.Shared.Cadena.{
  cadena, str_to_uint32, strtoul, sin_espacios, es_espacio, con_signo, numero, digitos, es_digito,
  terminar,
}
use so_2c_2023_no_me_queme.Shared.Contexto.{MotivoDesalojo, codigo_motivo}
use so_2c_2023_no_me_queme.Shared.Instruccion.{Instruccion, nombre, sub}
use so_2c_2023_no_me_queme.Cpu.Registro.{
  Cpu, Memoria, get_registry, reg_ax, reg_bx, ultima, motivo, menos_uno,
}
use so_2c_2023_no_me_queme.Cpu.Instrucciones.{
  _sum, _sub, traducir_dl, traducir, _mov_in, obtener_valor_dir, leer_en,
}
use so_2c_2023_no_me_queme.Cpu.Instrucciones.Aritmetica.{_sub-_sum, traducir_dl_lem}
use so_2c_2023_no_me_queme.Cpu.Ciclo.{ejecutar_ciclo_instruccion, fetch, decode, decodificar}
use so_2c_2023_no_me_queme.Cpu.Ciclo.Accesos.{Intacto}
use so_2c_2023_no_me_queme.Cpu.Ciclo.Reanuda.{ejecutar_ciclo_instruccion-page_fault}
use so_2c_2023_no_me_queme.Cpu.Ciclo.Salto.{ejecutar_ciclo_instruccion-jnz}
use so_2c_2023_no_me_queme.Cpu.Desalojo.{
  sigue, es_syscall, syscall?, hay_interrupciones, obtener_motivo_desalojo,
}
use so_2c_2023_no_me_queme.Cpu.Desalojo.Motivo.{IsMotivo, obtener_motivo_desalojo_lem}

-- MOV_IN AX 4
abbrev leer : Instruccion
leer = record {
  codigo_inst = 7;
  pid = 1;
  parametro1 = 65 ∷ 88 ∷ 0 ∷ [];
  longitud_parametro1 = 3;
  parametro2 = 52 ∷ 0 ∷ [];
  longitud_parametro2 = 2;
}

-- JNZ AX 4
abbrev saltar : Instruccion
saltar = record leer { codigo_inst = 3 }

-- Page 1 is absent; page 0 is in frame 2.
abbrev responder : ℕ → Bool × ℕ
responder pag = if pag == 1 then (true, menos_uno) else (false, 2)

abbrev memoria : Instruccion → Memoria (Unit {0})
memoria i = record {
  pedir_instruccion = λ m pid pc. some i;
  pedir_marco = λ m pid pag. responder pag;
  mov_in = λ m df. some (9, m);
  mov_out = λ m df v. some m;
}

abbrev string_itoa : ℕ → List ℕ
string_itoa n = 48 ∷ []

abbrev cpu : Cpu
cpu = record {
  contexto = record {
    pid = 1;
    program_counter = 10;
    registros = record { ax = 5; bx = 4294967295; cx = 0; dx = 0 };
    numero_marco = 0;
    nro_pf = 0;
    instruccion_ejecutada = leer;
    codigo_ultima_instru = menos_uno;
    motivo_desalojado = 0;
  };
  page_fault = false;
  fin_quantum = true;
  fin_proceso = false;
  nuevo_proceso = false;
  descartar_instruccion = false;
  tamano_pagina = 4;
}

sin_marco :
    (m : Unit {0}) (pid pag marco : ℕ)
    → (memoria leer).pedir_marco m pid pag ≡ (true, marco)
    → marco ≡ menos_uno
sin_marco m pid pag marco e = ground (arith, e)

-- The state after the fault: only the flag, the page and the last instruction differ.
abbrev fallo : Cpu
fallo = record cpu {
  page_fault = true;
  contexto = record cpu.contexto { nro_pf = 1; codigo_ultima_instru = 7 };
}

ciclo_falla : ejecutar_ciclo_instruccion (memoria leer) string_itoa tt cpu ≡ some (fallo, tt)
unfolding ejecutar_ciclo_instruccion fetch decode decodificar _mov_in obtener_valor_dir leer_en
    traducir_dl traducir get_registry str_to_uint32 cadena strtoul sin_espacios es_espacio con_signo
    numero digitos es_digito terminar nombre bytes_eq
ciclo_falla = refl

ejecutar_ciclo_instruccion-page_fault_example : Intacto tt cpu (fallo, tt)
ejecutar_ciclo_instruccion-page_fault_example =
    ejecutar_ciclo_instruccion-page_fault (memoria leer) string_itoa sin_marco tt tt cpu fallo refl
      ciclo_falla refl

registro_ax : get_registry (65 ∷ 88 ∷ 0 ∷ []) ≡ some reg_ax
unfolding get_registry cadena bytes_eq
registro_ax = refl

registro_bx : get_registry (66 ∷ 88 ∷ 0 ∷ []) ≡ some reg_bx
unfolding get_registry cadena bytes_eq
registro_bx = refl

cuatro : str_to_uint32 (52 ∷ 0 ∷ []) ≡ some 4
unfolding str_to_uint32 cadena strtoul sin_espacios es_espacio con_signo numero digitos es_digito
    terminar
cuatro = refl

ejecutar_ciclo_instruccion-jnz_example :
    (c' : Cpu) × (ejecutar_ciclo_instruccion (memoria saltar) string_itoa tt cpu ≡ some (c', tt))
    × (c'.contexto.registros ≡ cpu.contexto.registros)
    × (c'.contexto.program_counter ≡ ((if 5 == 0 then 10 else 4) + 1) % 2 ^ 32)
unfolding nombre
ejecutar_ciclo_instruccion-jnz_example =
    ejecutar_ciclo_instruccion-jnz (memoria saltar) string_itoa tt cpu saltar reg_ax 4 refl refl
      refl registro_ax cuatro

_sub-_sum_example :
    (_sum (65 ∷ 88 ∷ 0 ∷ []) (66 ∷ 88 ∷ 0 ∷ []) cpu >>= _sub (65 ∷ 88 ∷ 0 ∷ []) (66 ∷ 88 ∷ 0 ∷ []))
    ≡ some (ultima sub cpu)
_sub-_sum_example =
    _sub-_sum (65 ∷ 88 ∷ 0 ∷ []) (66 ∷ 88 ∷ 0 ∷ []) reg_ax reg_bx cpu registro_ax registro_bx
      (λ e. cc) (omega arith) (omega arith)

traducir_dl_lem_example :
    (df : ℕ) × (traducir_dl (memoria leer) string_itoa 3 tt cpu ≡ (df, cpu))
    × (df / 4 ≡ 2)
    × (df % 4 ≡ 3 % 4)
traducir_dl_lem_example =
    traducir_dl_lem (memoria leer) string_itoa tt cpu 3 2 (omega arith) refl (omega arith)

obtener_motivo_desalojo_lem_example :
    (m : MotivoDesalojo) × IsMotivo cpu m
    × (obtener_motivo_desalojo cpu ≡ motivo (codigo_motivo m) cpu)
unfolding sigue es_syscall syscall? hay_interrupciones nombre
obtener_motivo_desalojo_lem_example = obtener_motivo_desalojo_lem cpu refl
