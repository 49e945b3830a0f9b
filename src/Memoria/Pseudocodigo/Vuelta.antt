-- ===== src/Memoria/Pseudocodigo/Vuelta.antt =====
-- memoria/src/memoria.c: `parsear_instrucciones` behind a program written as text.
use so_2c_2023_no_me_queme.Base.{
  ℕ, zero, suc, ◌≡◌, refl, ap, ◌∙◌, Option, none, some, List, [], ◌∷◌, map, arith, length,
  get_elem?, ◌==◌, leb, if◌then◌else◌, Bool, true, false, ◌&&◌, not, bytes_eq, bytes_eq_refl,
}
use mathlib.Core.Path.{subst}
use mathlib.Core.Option.{some-injective}
use so_2c_2023_no_me_queme.Base.Opt.{some->>=}
use so_2c_2023_no_me_queme.Memoria.Pseudocodigo.{
  Palabra, palabras, parametro, armar_linea, buscar_palabra, leer_linea, leer_lineas,
  parsear_instrucciones, armar_estructura_instruccion,
}
use so_2c_2023_no_me_queme.Shared.Cadena.{cadena}
use so_2c_2023_no_me_queme.Shared.Instruccion.{
  NombreInstruccion, set, sum, sub, jnz, sleep, wait, signal, mov_in, mov_out, f_open, f_close,
  f_seek, f_read, f_write, f_truncate, exit, f_create, print_file_data,
}
use so_2c_2023_no_me_queme.Memoria.Pseudocodigo.Lectura.{
  unir, Sin, Todas, Suelta, sin_mayusculas, IsCommons, Linea, texto_de, IsParametro, IsLinea,
  Lineas, EnPrograma, escrita, cuantos, o_vacio, significado, Sin-unir, Suelta-unir, cadena-Sin,
  Suelta-Sin,
}

abbrev igual : List ℕ → List ℕ → Bool
igual a b = bytes_eq (sin_mayusculas a) (sin_mayusculas b)

abbrev buscar : List Palabra → List ℕ → Option Palabra
buscar [] w = none
buscar (p ∷ ps) w = if igual w p.texto then some p else buscar ps w

-- No text of the table is the word.
ninguna : List ℕ → List Palabra → Bool
ninguna w [] = true
ninguna w (p ∷ ps) = not (igual p.texto w) && ninguna w ps

distintas : List Palabra → Bool
unfolding ninguna
distintas [] = true
distintas (p ∷ ps) = ninguna p.texto ps && distintas ps

ninguna_lem :
    (w : List ℕ) (ps : List Palabra) (i : ℕ) {p : Palabra}
    → ninguna w ps ≡ true
    → get_elem? ps i ≡ some p
    → igual p.texto w ≡ false
unfolding ninguna
ninguna_lem w [] i h e = absurd (cc)
ninguna_lem w (x ∷ ps) zero {p} h e =
    let x_p = some-injective x p e in
    subst (λ (y : Palabra). igual y.texto w ≡ false) x_p (ground (arith, h))
ninguna_lem w (x ∷ ps) (suc i) h e = ninguna_lem w ps i (ground (arith, h)) e

buscar-get_elem? :
    (ps : List Palabra) (i : ℕ) {p : Palabra}
    → distintas ps ≡ true
    → get_elem? ps i ≡ some p
    → buscar ps p.texto ≡ some p
unfolding distintas
buscar-get_elem? [] i h e = absurd (cc)
buscar-get_elem? (x ∷ ps) zero {p} h e =
    let x_p = some-injective x p e in
    subst (λ (y : Palabra). buscar (x ∷ ps) y.texto ≡ some y) x_p
      (rw (bytes_eq_refl (sin_mayusculas x.texto)) refl)
buscar-get_elem? (x ∷ ps) (suc i) h e =
    let otra = ninguna_lem x.texto ps i (ground (arith, h)) e in
    simp otra (buscar-get_elem? ps i (ground (arith, h)) e)

palabras-distintas : distintas palabras ≡ true
unfolding distintas bytes_eq
palabras-distintas = refl

-- The texts of the table are words without space, newline or zero.
abbrev sin : ℕ → List ℕ → Bool
sin c [] = true
sin c (b ∷ bs) = not (b == c) && sin c bs

sin-Sin : (c : ℕ) (w : List ℕ) → sin c w ≡ true → Sin c w
sin-Sin c [] h = tt
sin-Sin c (b ∷ w) h = (ground (arith, h), sin-Sin c w (ground (arith, h)))

limpias : List Palabra → Bool
limpias [] = true
limpias (p ∷ ps) =
    (sin 32 p.texto && (sin 10 p.texto && (sin 0 p.texto && leb 1 (length p.texto)))) && limpias ps

abbrev Limpia : List ℕ → Type 0
Limpia w = Suelta 32 w × Suelta 10 w × Sin 0 w

suelta : (c : ℕ) (w : List ℕ) → sin c w ≡ true → leb 1 (length w) ≡ true → Suelta c w
suelta c [] h l = absurd (cc)
suelta c (b ∷ w) h l = sin-Sin c (b ∷ w) h

limpias_lem :
    (ps : List Palabra) (i : ℕ) {p : Palabra}
    → limpias ps ≡ true
    → get_elem? ps i ≡ some p
    → IsParametro p.texto
unfolding limpias
limpias_lem [] i h e = absurd (cc)
limpias_lem (x ∷ ps) zero {p} h e =
    subst (λ (y : Palabra). IsParametro y.texto) (some-injective x p e)
      (
        suelta 32 x.texto (ground (arith, h)) (ground (arith, h)),
        suelta 10 x.texto (ground (arith, h)) (ground (arith, h)),
        sin-Sin 0 x.texto (ground (arith, h)),
      )
limpias_lem (x ∷ ps) (suc i) h e = limpias_lem ps i (ground (arith, h)) e

palabras-limpias : limpias palabras ≡ true
unfolding limpias
palabras-limpias = refl

parametro_lem :
    (ws : List (List ℕ)) (n i : ℕ)
    → length ws ≡ n
    → parametro n i ws ≡ some (o_vacio (get_elem? ws i))
unfolding parametro
parametro_lem [] n i h = ground arith
parametro_lem (w ∷ ws) n zero h = ground arith
parametro_lem (w ∷ ws) n (suc i) h = ground (arith, parametro_lem ws (length ws) i refl)

-- The entry of the table for an instruction of programs.
abbrev entrada_de : NombreInstruccion → Palabra
entrada_de n = record { texto = escrita n; nombre = n; parametros = cuantos n }

palabras-entrada_de :
    (n : NombreInstruccion) → EnPrograma n → (i : ℕ) × (get_elem? palabras i ≡ some (entrada_de n))
palabras-entrada_de f_create h = absurd h
palabras-entrada_de print_file_data h = absurd h
palabras-entrada_de set h = (0, refl)
palabras-entrada_de sum h = (1, refl)
palabras-entrada_de sub h = (2, refl)
palabras-entrada_de jnz h = (3, refl)
palabras-entrada_de mov_in h = (4, refl)
palabras-entrada_de mov_out h = (5, refl)
palabras-entrada_de sleep h = (6, refl)
palabras-entrada_de wait h = (7, refl)
palabras-entrada_de signal h = (8, refl)
palabras-entrada_de f_open h = (9, refl)
palabras-entrada_de f_truncate h = (10, refl)
palabras-entrada_de f_seek h = (11, refl)
palabras-entrada_de f_write h = (12, refl)
palabras-entrada_de f_read h = (13, refl)
palabras-entrada_de f_close h = (14, refl)
palabras-entrada_de exit h = (15, refl)

cadena-o_vacio :
    (ws : List (List ℕ)) (i : ℕ)
    → Todas IsParametro ws
    → cadena (o_vacio (get_elem? ws i)) ≡ o_vacio (get_elem? ws i)
unfolding cadena
cadena-o_vacio [] i h = refl
cadena-o_vacio (w ∷ ws) zero (h, hs) = cadena-Sin w h.2
cadena-o_vacio (w ∷ ws) (suc i) (h, hs) = cadena-o_vacio ws i hs

armar_lem :
    (basura : ℕ) (n : NombreInstruccion) (ws : List (List ℕ))
    → Todas IsParametro ws
    → armar_estructura_instruccion basura n (o_vacio (get_elem? ws 0)) (o_vacio (get_elem? ws 1))
      ≡ significado basura (n, ws)
unfolding armar_estructura_instruccion
armar_lem basura n ws h = simp (cadena-o_vacio ws 0 h, cadena-o_vacio ws 1 h) refl

armar_linea_lem :
    (basura : ℕ) (n : NombreInstruccion) (ws : List (List ℕ))
    → length ws ≡ cuantos n
    → Todas IsParametro ws
    → armar_linea basura (some (entrada_de n)) ws ≡ some (some (significado basura (n, ws)))
unfolding armar_linea
armar_linea_lem basura n ws h hs =
    some->>= (parametro (cuantos n) 0 ws) _ (parametro_lem ws (cuantos n) 0 h) (
      some->>= (parametro (cuantos n) 1 ws) _ (parametro_lem ws (cuantos n) 1 h)
        (ap (λ i. some (some i)) (armar_lem basura n ws hs)))

Todas-map :
    (P Q : List ℕ → Type 0) (ws : List (List ℕ))
    → ((w : List ℕ) → P w → Q w)
    → Todas P ws
    → Todas Q ws
Todas-map P Q [] h t = tt
Todas-map P Q (w ∷ ws) h (t, ts) = (h w t, Todas-map P Q ws h ts)

-- A line is a text without newline or zero.
linea-Suelta : (l : Linea) → IsLinea l → Suelta 10 (texto_de l) × Sin 0 (texto_de l)
linea-Suelta (nom, ws) (en, n, ps) =
    let (i, e) = palabras-entrada_de nom en in
    let limpio = limpias_lem palabras i palabras-limpias e in
    (
      Suelta-unir 10 32 (escrita nom) ws refl limpio.1
          (Todas-map IsParametro (Sin 10) ws (λ w h. Suelta-Sin 10 w h.1) ps),
      Sin-unir 0 32 (escrita nom) ws refl limpio.2
          (Todas-map IsParametro (Sin 0) ws (λ w h. h.2) ps),
    )

Lineas-Suelta :
    (ls : List Linea)
    → Lineas ls
    → Todas (Suelta 10) (map texto_de ls) × Todas (Sin 0) (map texto_de ls)
Lineas-Suelta [] h = (tt, tt)
Lineas-Suelta (l ∷ ls) (h, hs) =
    let (a, b) = linea-Suelta l h in let (as', bs) = Lineas-Suelta ls hs in ((a, as'), (b, bs))

module _ (string_split : List ℕ → ℕ → List (List ℕ))
    (string_equals_ignore_case : List ℕ → List ℕ → Bool)
    (commons : IsCommons string_split string_equals_ignore_case) (basura : ℕ) where
  buscar_palabra-buscar :
      (ps : List Palabra) (w : List ℕ)
      → buscar_palabra string_split string_equals_ignore_case ps w ≡ buscar ps w
  unfolding buscar_palabra
  buscar_palabra-buscar [] w = refl
  buscar_palabra-buscar (p ∷ ps) w =
      rw (commons.compara w p.texto)
        (ap (λ r. if igual w p.texto then some p else r) (buscar_palabra-buscar ps w))

  leer_linea_lem :
      (l : Linea)
      → IsLinea l
      → leer_linea string_split string_equals_ignore_case basura (string_split (texto_de l) 32)
        ≡ some (some (significado basura l))
  unfolding leer_linea
  leer_linea_lem (nom, ws) (en, n, ps) =
      let (i, e) = palabras-entrada_de nom en in
      let limpio = limpias_lem palabras i palabras-limpias e in
      let partida =
        commons.parte 32 (escrita nom) ws
          (limpio.0, Todas-map IsParametro (Suelta 32) ws (λ w h. h.0) ps) in
      let hallada =
        buscar_palabra-buscar palabras (escrita nom)
        ∙ buscar-get_elem? palabras i palabras-distintas e in
      ap (λ l. leer_linea string_split string_equals_ignore_case basura l) partida
      ∙ ap (λ o. armar_linea basura o ws) hallada
      ∙ armar_linea_lem basura nom ws n ps

  leer_lineas_lem :
      (ls : List Linea)
      → Lineas ls
      → leer_lineas string_split string_equals_ignore_case basura (map texto_de ls)
        ≡ some (map (significado basura) ls)
  unfolding leer_lineas
  leer_lineas_lem [] h = refl
  leer_lineas_lem (l ∷ ls) (h, hs) =
      some->>=
        (leer_linea string_split string_equals_ignore_case basura (string_split (texto_de l) 32)) _
        (leer_linea_lem l h)
        (some->>= (leer_lineas string_split string_equals_ignore_case basura (map texto_de ls)) _
          (leer_lineas_lem ls hs) refl)

  -- A program written as text, a line for each instruction and a space between words, is read back
  -- as the instructions that it means, in order: the code of each, and its parameters. The
  -- conditions: a program of one line or more, each of which is the word of an instruction, in
  -- capitals, and as many other words as that instruction takes, none of them with a space, a newline
  -- or a zero; and the documented behaviour of the commons library.
  pub parsear_instrucciones_lem :
      (l : Linea) (ls : List Linea)
      → Lineas (l ∷ ls)
      → parsear_instrucciones string_split string_equals_ignore_case basura
          (unir 10 (map texto_de (l ∷ ls)))
        ≡ some (map (significado basura) (l ∷ ls))
  unfolding parsear_instrucciones
  parsear_instrucciones_lem l ls h =
      let (sueltas, sin_cero) = Lineas-Suelta (l ∷ ls) h in
      let texto = unir 10 (texto_de l ∷ map texto_de ls) in
      let entero =
        cadena-Sin texto
          (Sin-unir 0 10 (texto_de l) (map texto_de ls) refl sin_cero.0 sin_cero.1) in
      ap (λ t. leer_lineas string_split string_equals_ignore_case basura (string_split t 10)) entero
      ∙ ap (λ ts. leer_lineas string_split string_equals_ignore_case basura ts)
          (commons.parte 10 (texto_de l) (map texto_de ls) sueltas)
      ∙ leer_lineas_lem (l ∷ ls) h
