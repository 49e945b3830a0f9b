-- ===== src/Memoria/Pseudocodigo.antt =====
-- memoria/src/memoria.c: `parsear_instrucciones` and `armar_estructura_instruccion`. The split of a
-- text and the comparison that ignores case are the commons library's.
pub mod Lectura
pub mod Vuelta
use so_2c_2023_no_me_queme.Base.{
  ℕ, ◌+◌, ◌≡◌, refl, Option, none, some, List, [], ◌∷◌, ◌++◌, length, get_elem?, ◌==◌, leb,
  if◌then◌else◌, Bool,
}
use so_2c_2023_no_me_queme.Base.Opt.{◌>>=◌}
use so_2c_2023_no_me_queme.Shared.Cadena.{cadena}
use so_2c_2023_no_me_queme.Shared.Instruccion.{
  Instruccion, NombreInstruccion, codigo, set, sum, sub, jnz, sleep, wait, signal, mov_in, mov_out,
  f_open, f_close, f_seek, f_read, f_write, f_truncate, exit,
}

-- A word that starts an instruction, what it stands for, and how many words follow it.
pub record Palabra : Type 0 where
  pub texto : List ℕ
  pub nombre : NombreInstruccion
  pub parametros : ℕ

abbrev palabra : List ℕ → NombreInstruccion → ℕ → Palabra
palabra texto nombre parametros = record { texto = texto; nombre = nombre; parametros = parametros }

-- The tests of the loop, in their order.
abbrev pub palabras : List Palabra
palabras =
    palabra (b'S' ∷ b'E' ∷ b'T' ∷ []) set 2
    ∷ palabra (b'S' ∷ b'U' ∷ b'M' ∷ []) sum 2
    ∷ palabra (b'S' ∷ b'U' ∷ b'B' ∷ []) sub 2
    ∷ palabra (b'J' ∷ b'N' ∷ b'Z' ∷ []) jnz 2
    ∷ palabra (b'M' ∷ b'O' ∷ b'V' ∷ b'_' ∷ b'I' ∷ b'N' ∷ []) mov_in 2
    ∷ palabra (b'M' ∷ b'O' ∷ b'V' ∷ b'_' ∷ b'O' ∷ b'U' ∷ b'T' ∷ []) mov_out 2
    ∷ palabra (b'S' ∷ b'L' ∷ b'E' ∷ b'E' ∷ b'P' ∷ []) sleep 1
    ∷ palabra (b'W' ∷ b'A' ∷ b'I' ∷ b'T' ∷ []) wait 1
    ∷ palabra (b'S' ∷ b'I' ∷ b'G' ∷ b'N' ∷ b'A' ∷ b'L' ∷ []) signal 1
    ∷ palabra (b'F' ∷ b'_' ∷ b'O' ∷ b'P' ∷ b'E' ∷ b'N' ∷ []) f_open 2
    ∷ palabra (b'F' ∷ b'_' ∷ b'T' ∷ b'R' ∷ b'U' ∷ b'N' ∷ b'C' ∷ b'A' ∷ b'T' ∷ b'E' ∷ []) f_truncate
        2
    ∷ palabra (b'F' ∷ b'_' ∷ b'S' ∷ b'E' ∷ b'E' ∷ b'K' ∷ []) f_seek 2
    ∷ palabra (b'F' ∷ b'_' ∷ b'W' ∷ b'R' ∷ b'I' ∷ b'T' ∷ b'E' ∷ []) f_write 2
    ∷ palabra (b'F' ∷ b'_' ∷ b'R' ∷ b'E' ∷ b'A' ∷ b'D' ∷ []) f_read 2
    ∷ palabra (b'F' ∷ b'_' ∷ b'C' ∷ b'L' ∷ b'O' ∷ b'S' ∷ b'E' ∷ []) f_close 1
    ∷ palabra (b'E' ∷ b'X' ∷ b'I' ∷ b'T' ∷ []) exit 0
    ∷ []

-- The pid is what `malloc` leaves, here the same each time. A parameter ends in its terminator.
unfoldable pub armar_estructura_instruccion : ℕ → NombreInstruccion → List ℕ → List ℕ → Instruccion
armar_estructura_instruccion basura n parametro1 parametro2 = record {
  codigo_inst = codigo n;
  pid = basura;
  parametro1 = cadena parametro1 ++ (0 ∷ []);
  longitud_parametro1 = length (cadena parametro1) + 1;
  parametro2 = cadena parametro2 ++ (0 ∷ []);
  longitud_parametro2 = length (cadena parametro2) + 1;
}

-- `palabras[i]`, for an instruction of so many parameters; a missing word is NULL.
unfoldable pub parametro : ℕ → ℕ → List (List ℕ) → Option (List ℕ)
parametro cuantos i resto = if leb cuantos i then some [] else get_elem? resto i

-- `none` follows a null pointer; `some none` is a word that starts no instruction.
unfoldable pub armar_linea : ℕ → Option Palabra → List (List ℕ) → Option (Option Instruccion)
armar_linea basura none resto = some none
armar_linea basura (some p) resto = do
  parametro1 ← parametro p.parametros 0 resto
  parametro2 ← parametro p.parametros 1 resto
  some (some (armar_estructura_instruccion basura p.nombre parametro1 parametro2))

abbrev pub agregar : Option Instruccion → List Instruccion → List Instruccion
agregar none is = is
agregar (some i) is = i ∷ is

module _ (string_split : List ℕ → ℕ → List (List ℕ))
    (string_equals_ignore_case : List ℕ → List ℕ → Bool) where
  unfoldable pub buscar_palabra : List Palabra → List ℕ → Option Palabra
  buscar_palabra [] w = none
  buscar_palabra (p ∷ ps) w =
      let resto = buscar_palabra ps w in
      if string_equals_ignore_case w p.texto then some p else resto

  unfoldable pub leer_linea : ℕ → List (List ℕ) → Option (Option Instruccion)
  leer_linea basura [] = none
  leer_linea basura (w ∷ resto) = armar_linea basura (buscar_palabra palabras w) resto

  unfoldable pub leer_lineas : ℕ → List (List ℕ) → Option (List Instruccion)
  leer_lineas basura [] = some []
  leer_lineas basura (linea ∷ lineas) = do
    i ← leer_linea basura (string_split linea 32)
    is ← leer_lineas basura lineas
    some (agregar i is)

  -- The content of the file, as `leer_archivo` gives it; the separators are newline and space.
  unfoldable pub parsear_instrucciones : ℕ → List ℕ → Option (List Instruccion)
  parsear_instrucciones basura contenido = leer_lineas basura (string_split (cadena contenido) 10)
