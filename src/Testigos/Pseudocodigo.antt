-- ===== src/Testigos/Pseudocodigo.antt =====
-- A program read from its text, with a split and a comparison in the place of the commons library's.
use so_2c_2023_no_me_queme.Base.{
  ℕ, ◌≡◌, refl, ap, ◌∙◌, some, List, [], ◌∷◌, ◌++◌, map, arith, ◌==◌, if◌then◌else◌, Bool, bytes_eq,
}
use so_2c_2023_no_me_queme.Shared.Instruccion.{set, exit}
use so_2c_2023_no_me_queme.Memoria.Pseudocodigo.{parsear_instrucciones}
use so_2c_2023_no_me_queme.Memoria.Pseudocodigo.Lectura.{
  unir, Sin, Todas, Suelta, sin_mayusculas, IsCommons, Linea, texto_de, significado,
}
use so_2c_2023_no_me_queme.Memoria.Pseudocodigo.Vuelta.{parsear_instrucciones_lem}

agregar_letra : ℕ → List (List ℕ) → List (List ℕ)
agregar_letra c [] = (c ∷ []) ∷ []
agregar_letra c (w ∷ ws) = (c ∷ w) ∷ ws

partir : List ℕ → ℕ → List (List ℕ)
unfolding agregar_letra
partir [] sep = [] ∷ []
partir (c ∷ cs) sep =
    let resto = partir cs sep in if c == sep then [] ∷ resto else agregar_letra c resto

partir-Sin : (sep : ℕ) (w : List ℕ) → Sin sep w → partir w sep ≡ w ∷ []
unfolding partir
partir-Sin sep [] h = refl
partir-Sin sep (c ∷ w) (h, hs) = simp (h, partir-Sin sep w hs) refl

partir-append :
    (sep : ℕ) (w resto : List ℕ)
    → Sin sep w
    → partir (w ++ (sep ∷ resto)) sep ≡ w ∷ partir resto sep
unfolding partir
partir-append sep [] resto h = ground arith
partir-append sep (c ∷ w) resto (h, hs) = simp (h, partir-append sep w resto hs) refl

Suelta-Sin' : (c : ℕ) (w : List ℕ) → Suelta c w → Sin c w
Suelta-Sin' c [] h = elim h [ ]
Suelta-Sin' c (b ∷ w) h = h

partir-unir :
    (sep : ℕ) (w : List ℕ) (ws : List (List ℕ))
    → Todas (Suelta sep) (w ∷ ws)
    → partir (unir sep (w ∷ ws)) sep ≡ w ∷ ws
partir-unir sep w [] (h, hs) = partir-Sin sep w (Suelta-Sin' sep w h)
partir-unir sep w (w' ∷ ws) (h, hs) =
    partir-append sep w (unir sep (w' ∷ ws)) (Suelta-Sin' sep w h)
    ∙ ap (◌∷◌ w) (partir-unir sep w' ws hs)

comparar : List ℕ → List ℕ → Bool
comparar a b = bytes_eq (sin_mayusculas a) (sin_mayusculas b)

commons : IsCommons partir comparar
unfolding comparar
commons = record { parte = partir-unir; compara = λ a b. refl }

-- "SET AX 5" and "EXIT".
abbrev set_ax : Linea
set_ax = (set, (b'A' ∷ b'X' ∷ []) ∷ (b'5' ∷ []) ∷ [])

abbrev salir : Linea
salir = (exit, [])

parsear_instrucciones_lem_example :
    parsear_instrucciones partir comparar 0 (unir 10 (map texto_de (set_ax ∷ salir ∷ [])))
    ≡ some (map (significado 0) (set_ax ∷ salir ∷ []))
parsear_instrucciones_lem_example =
    parsear_instrucciones_lem partir comparar commons 0 set_ax (salir ∷ []) (
      (
        tt,
        refl,
        (
          ((refl, (refl, tt)), (refl, (refl, tt)), (refl, (refl, tt))),
          (((refl, tt), (refl, tt), (refl, tt)), tt),
        ),
      ),
      ((tt, refl, tt), tt),
    )
