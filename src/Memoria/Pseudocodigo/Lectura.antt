-- ===== src/Memoria/Pseudocodigo/Lectura.antt =====
-- memoria/src/memoria.c: a program written as text is read back by `parsear_instrucciones`.
use so_2c_2023_no_me_queme.Base.{
  ℕ, ◌+◌, ◌≡◌, refl, ap, Option, none, some, List, [], ◌∷◌, ◌++◌, map, length, get_elem?, ◌==◌, leb,
  if◌then◌else◌, Bool, false, ◌&&◌, bytes_eq,
}
use so_2c_2023_no_me_queme.Shared.Cadena.{cadena}
use so_2c_2023_no_me_queme.Shared.Instruccion.{
  Instruccion, NombreInstruccion, codigo, set, sum, sub, jnz, sleep, wait, signal, mov_in, mov_out,
  f_open, f_close, f_seek, f_read, f_write, f_truncate, exit, f_create, print_file_data,
}

-- The words with the separator between them.
abbrev pub unir : ℕ → List (List ℕ) → List ℕ
unir sep [] = []
unir sep (w ∷ []) = w
unir sep (w ∷ w' ∷ ws) = w ++ (sep ∷ unir sep (w' ∷ ws))

-- The byte is not in the text.
abbrev pub Sin : ℕ → List ℕ → Type 0
Sin c [] = Unit {0}
Sin c (b ∷ bs) = ((b == c) ≡ false) × Sin c bs

abbrev pub Todas : (List ℕ → Type 0) → List (List ℕ) → Type 0
Todas P [] = Unit {0}
Todas P (w ∷ ws) = P w × Todas P ws

-- A word: at least one character.
abbrev pub Suelta : ℕ → List ℕ → Type 0
Suelta sep [] = ⊥
Suelta sep (b ∷ bs) = Sin sep (b ∷ bs)

abbrev pub minuscula : ℕ → ℕ
minuscula c = if leb b'A' c && leb c b'Z' then c + 32 else c

abbrev pub sin_mayusculas : List ℕ → List ℕ
sin_mayusculas = map minuscula

-- What the documentation of the commons library says of the two functions: a text of words with a
-- separator between them is split into them, and the comparison ignores case.
pub record IsCommons (string_split : List ℕ → ℕ → List (List ℕ))
    (string_equals_ignore_case : List ℕ → List ℕ → Bool) : Type 0 where
  pub parte :
      (sep : ℕ) (w : List ℕ) (ws : List (List ℕ))
      → Todas (Suelta sep) (w ∷ ws)
      → string_split (unir sep (w ∷ ws)) sep ≡ w ∷ ws
  pub compara :
      (a b : List ℕ)
      → string_equals_ignore_case a b ≡ bytes_eq (sin_mayusculas a) (sin_mayusculas b)

-- The instructions that a program may hold, the word that stands for each in a program, and how
-- many words follow it: the language of the programs, which no code gives as a table.
abbrev pub EnPrograma : NombreInstruccion → Type 0
EnPrograma f_create = ⊥
EnPrograma print_file_data = ⊥
EnPrograma set = Unit {0}
EnPrograma sum = Unit {0}
EnPrograma sub = Unit {0}
EnPrograma jnz = Unit {0}
EnPrograma sleep = Unit {0}
EnPrograma wait = Unit {0}
EnPrograma signal = Unit {0}
EnPrograma mov_in = Unit {0}
EnPrograma mov_out = Unit {0}
EnPrograma f_open = Unit {0}
EnPrograma f_close = Unit {0}
EnPrograma f_seek = Unit {0}
EnPrograma f_read = Unit {0}
EnPrograma f_write = Unit {0}
EnPrograma f_truncate = Unit {0}
EnPrograma exit = Unit {0}

abbrev pub escrita : NombreInstruccion → List ℕ
escrita set = b'S' ∷ b'E' ∷ b'T' ∷ []
escrita sum = b'S' ∷ b'U' ∷ b'M' ∷ []
escrita sub = b'S' ∷ b'U' ∷ b'B' ∷ []
escrita jnz = b'J' ∷ b'N' ∷ b'Z' ∷ []
escrita sleep = b'S' ∷ b'L' ∷ b'E' ∷ b'E' ∷ b'P' ∷ []
escrita wait = b'W' ∷ b'A' ∷ b'I' ∷ b'T' ∷ []
escrita signal = b'S' ∷ b'I' ∷ b'G' ∷ b'N' ∷ b'A' ∷ b'L' ∷ []
escrita mov_in = b'M' ∷ b'O' ∷ b'V' ∷ b'_' ∷ b'I' ∷ b'N' ∷ []
escrita mov_out = b'M' ∷ b'O' ∷ b'V' ∷ b'_' ∷ b'O' ∷ b'U' ∷ b'T' ∷ []
escrita f_open = b'F' ∷ b'_' ∷ b'O' ∷ b'P' ∷ b'E' ∷ b'N' ∷ []
escrita f_close = b'F' ∷ b'_' ∷ b'C' ∷ b'L' ∷ b'O' ∷ b'S' ∷ b'E' ∷ []
escrita f_seek = b'F' ∷ b'_' ∷ b'S' ∷ b'E' ∷ b'E' ∷ b'K' ∷ []
escrita f_read = b'F' ∷ b'_' ∷ b'R' ∷ b'E' ∷ b'A' ∷ b'D' ∷ []
escrita f_write = b'F' ∷ b'_' ∷ b'W' ∷ b'R' ∷ b'I' ∷ b'T' ∷ b'E' ∷ []
escrita f_truncate = b'F' ∷ b'_' ∷ b'T' ∷ b'R' ∷ b'U' ∷ b'N' ∷ b'C' ∷ b'A' ∷ b'T' ∷ b'E' ∷ []
escrita exit = b'E' ∷ b'X' ∷ b'I' ∷ b'T' ∷ []
escrita f_create = []
escrita print_file_data = []

abbrev pub cuantos : NombreInstruccion → ℕ
cuantos set = 2
cuantos sum = 2
cuantos sub = 2
cuantos jnz = 2
cuantos sleep = 1
cuantos wait = 1
cuantos signal = 1
cuantos mov_in = 2
cuantos mov_out = 2
cuantos f_open = 2
cuantos f_close = 1
cuantos f_seek = 2
cuantos f_read = 2
cuantos f_write = 2
cuantos f_truncate = 2
cuantos exit = 0
cuantos f_create = 0
cuantos print_file_data = 0

-- A line of a program: its instruction, and the words that follow.
abbrev pub Linea : Type 0
Linea = NombreInstruccion × List (List ℕ)

abbrev pub texto_de : Linea → List ℕ
texto_de (n, ws) = unir 32 (escrita n ∷ ws)

-- A word of a line has no space, no newline and no zero.
abbrev pub IsParametro : List ℕ → Type 0
IsParametro w = Suelta 32 w × Suelta 10 w × Sin 0 w

-- The instruction is one of programs, and as many words follow as it takes.
abbrev pub IsLinea : Linea → Type 0
IsLinea (n, ws) = EnPrograma n × (length ws ≡ cuantos n) × Todas IsParametro ws

abbrev pub Lineas : List Linea → Type 0
Lineas [] = Unit {0}
Lineas (l ∷ ls) = IsLinea l × Lineas ls

abbrev pub o_vacio : Option (List ℕ) → List ℕ
o_vacio none = []
o_vacio (some w) = w

-- The instruction that a line means: its code, and each parameter with its terminator.
abbrev pub significado : ℕ → Linea → Instruccion
significado basura (n, ws) = record {
  codigo_inst = codigo n;
  pid = basura;
  parametro1 = o_vacio (get_elem? ws 0) ++ (0 ∷ []);
  longitud_parametro1 = length (o_vacio (get_elem? ws 0)) + 1;
  parametro2 = o_vacio (get_elem? ws 1) ++ (0 ∷ []);
  longitud_parametro2 = length (o_vacio (get_elem? ws 1)) + 1;
}

Sin-append : (c : ℕ) (xs ys : List ℕ) → Sin c xs → Sin c ys → Sin c (xs ++ ys)
Sin-append c [] ys x y = y
Sin-append c (b ∷ xs) ys (h, x) y = (h, Sin-append c xs ys x y)

pub Sin-unir :
    (c sep : ℕ) (w : List ℕ) (ws : List (List ℕ))
    → (sep == c) ≡ false
    → Sin c w
    → Todas (Sin c) ws
    → Sin c (unir sep (w ∷ ws))
Sin-unir c sep w [] d h hs = h
Sin-unir c sep w (w' ∷ ws) d h (h', hs) =
    Sin-append c w (sep ∷ unir sep (w' ∷ ws)) h (d, Sin-unir c sep w' ws d h' hs)

pub Suelta-unir :
    (c sep : ℕ) (w : List ℕ) (ws : List (List ℕ))
    → (sep == c) ≡ false
    → Suelta c w
    → Todas (Sin c) ws
    → Suelta c (unir sep (w ∷ ws))
Suelta-unir c sep [] ws d h hs = elim h [ ]
Suelta-unir c sep (b ∷ w) [] d h hs = h
Suelta-unir c sep (b ∷ w) (w' ∷ ws) d h hs = Sin-unir c sep (b ∷ w) (w' ∷ ws) d h hs

pub cadena-Sin : (w : List ℕ) → Sin 0 w → cadena w ≡ w
unfolding cadena
cadena-Sin [] h = refl
cadena-Sin (c ∷ w) (h, hs) = simp h (ap (◌∷◌ c) (cadena-Sin w hs))

pub Suelta-Sin : (c : ℕ) (w : List ℕ) → Suelta c w → Sin c w
Suelta-Sin c [] h = elim h [ ]
Suelta-Sin c (b ∷ w) h = h
