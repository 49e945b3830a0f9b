-- ===== src/Cpu/Ciclo/Accesos.antt =====
-- cpu/src/cpu.c and cpu/src/instructions.c: the instructions that ask memoria for a frame, when the page
-- is absent.
use so_2c_2023_no_me_queme.Base.{
  ℕ, ◌/◌, ◌≡◌, refl, ap, sym, ◌∙◌, Option, none, some, List, if◌then◌else◌, Bool, true, false, ◌⊎◌,
  inl, inr, arith, ◌==◌, Option-cases, Bool-cases,
}
use mathlib.Core.Option.{some-injective}
use so_2c_2023_no_me_queme.Base.Opt.{◌>>=◌, Todo, Todo->>=, Todo-some}
use mathlib.Core.Path.{subst}
use so_2c_2023_no_me_queme.Shared.Cadena.{str_to_uint32}
use so_2c_2023_no_me_queme.Shared.Contexto.{Registros}
use so_2c_2023_no_me_queme.Shared.Instruccion.{NombreInstruccion, mov_in}
use so_2c_2023_no_me_queme.Cpu.Registro.{
  Cpu, Memoria, get_registry, valor, menos_uno, poner, ultima, con_registros,
}
use so_2c_2023_no_me_queme.Cpu.Instrucciones.{
  _mov_in, _mov_out, _f_read_write, traducir_dl, obtener_valor_dir, escribir_memoria, traducir,
  traducir_dl_fs, leer_en, escribir_en, poner_direccion, marcar_page_fault,
}

module _ {M : Type 0} where
  -- The memory, the registers and the program counter are those from before.
  abbrev pub Intacto : M → Cpu → Cpu × M → Type 0
  Intacto m c (c', m') =
      (m' ≡ m)
      × (c'.contexto.registros ≡ c.contexto.registros)
      × (c'.contexto.program_counter ≡ c.contexto.program_counter)

  -- memoria answers a page fault with the frame -1.
  abbrev pub SinMarco : Memoria M → Type 0
  SinMarco memoria =
      (m : M) (pid pag marco : ℕ)
      → memoria.pedir_marco m pid pag ≡ (true, marco)
      → marco ≡ menos_uno

traducir_casos :
    (a : Bool × ℕ) (dl : ℕ) (c : Cpu)
    → ((marco : ℕ) → a ≡ (true, marco) → marco ≡ menos_uno)
    → ((k : ℕ) × (traducir a dl c ≡ (menos_uno, marcar_page_fault k c)))
      ⊎ ((df : ℕ) × (traducir a dl c ≡ (df, c)))
unfolding traducir
traducir_casos (true, marco) dl c h =
    inl (
      dl / c.tamano_pagina,
      ap (λ x. (x, marcar_page_fault (dl / c.tamano_pagina) c)) (h marco refl),
    )
traducir_casos (false, marco) dl c h = inr (_, refl)

module _ {M : Type 0} (memoria : Memoria M) (string_itoa : ℕ → List ℕ) (sm : SinMarco memoria) where
  traducir_dl_casos :
      (dl : ℕ) (m : M) (c : Cpu)
      → ((k : ℕ) × (traducir_dl memoria string_itoa dl m c ≡ (menos_uno, marcar_page_fault k c)))
        ⊎ ((df : ℕ) × (traducir_dl memoria string_itoa dl m c ≡ (df, c)))
  unfolding traducir_dl
  traducir_dl_casos dl m c = traducir_casos _ dl c (sm m c.contexto.pid (dl / c.tamano_pagina))

  mismo_estado :
      (b : Bool) (v : ℕ) (m : M) (c : Cpu) (o : Option (ℕ × M)) {r : ℕ × Cpu × M}
      → (if b then some (v, c, m) else (o >>= λ (x, m'). some (x, c, m'))) ≡ some r
      → r.1 ≡ c
  mismo_estado true v m c o h = ap (λ x. x.1) (sym (some-injective _ _ h))
  mismo_estado false v m c none h = cc
  mismo_estado false v m c (some a) h = ap (λ x. x.1) (sym (some-injective _ _ h))

  leer_en_sin_fallo :
      (m : M) (df : ℕ) (c : Cpu) {r : ℕ × Cpu × M}
      → leer_en memoria string_itoa m (df, c) ≡ some r
      → r.1 ≡ c
  unfolding leer_en
  leer_en_sin_fallo m df c h = mismo_estado (df == menos_uno) menos_uno m c (memoria.mov_in m df) h

  -- A fault ends a read at once; without one the globals do not change.
  obtener_valor_dir_casos :
      (dl : ℕ) (m : M) (c : Cpu) {r : ℕ × Cpu × M}
      → obtener_valor_dir memoria string_itoa dl m c ≡ some r
      → ((k : ℕ) × ((menos_uno, marcar_page_fault k c, m) ≡ r)) ⊎ (r.1 ≡ c)
  unfolding obtener_valor_dir leer_en
  obtener_valor_dir_casos dl m c {r} h = elim (traducir_dl_casos dl m c) [
    | inl (k, e) ↦ inl (k, some-injective _ _ (sym (ap (leer_en memoria string_itoa m) e) ∙ h))
    | inr (df, e) ↦ inr (leer_en_sin_fallo m df c (sym (ap (leer_en memoria string_itoa m) e) ∙ h))
  ]

  abbrev pub Resultado : M → Cpu → Cpu × M → Type 0
  Resultado m c r = r.0.page_fault ≡ true → Intacto m c r

  pub true-not-false : ¬ (true ≡ false)
  true-not-false e = cc

  sin_fallo :
      (m : M) (c : Cpu) (r : Cpu × M)
      → c.page_fault ≡ false
      → r.0.page_fault ≡ c.page_fault
      → Resultado m c r
  sin_fallo m c r s e p = absurd (cc)

  leido :
      (b : Bool) (f : Registros → Registros) (v : ℕ) (c' : Cpu) (m' m : M) (c : Cpu)
      → (v == menos_uno) ≡ b
      → c.page_fault ≡ false
      → ((k : ℕ) × (◌≡◌ {A = ℕ × Cpu × M} (menos_uno, marcar_page_fault k c, m) (v, c', m')))
        ⊎ (c' ≡ c)
      → Resultado m c (ultima mov_in (if b then c' else con_registros f c'), m')
  leido true f v c' m' m c q s (inl (k, e)) p = (
    ap (λ x. x.2) (sym e),
    ap (λ x. x.1.contexto.registros) (sym e),
    ap (λ x. x.1.contexto.program_counter) (sym e),
  )
  leido false f v c' m' m c q s (inl (k, e)) p =
      let d : menos_uno ≡ v = ap (λ x. x.0) e in absurd (ground (arith, q, d))
  leido true f v c' m' m c q s (inr e) p = sin_fallo m c (c', m') s (ap (λ x. x.page_fault) e) p
  leido false f v c' m' m c q s (inr e) p =
      absurd (true-not-false (sym p ∙ ap (λ x. x.page_fault) e ∙ s))

  pub _mov_in_reanuda :
      (a b : List ℕ) (m : M) (c : Cpu)
      → c.page_fault ≡ false
      → Todo (Resultado m c) (_mov_in memoria string_itoa a b m c)
  unfolding _mov_in
  _mov_in_reanuda a b m c s = Todo->>= (Resultado m c) (get_registry a) _ (λ reg e1.
      Todo->>= (Resultado m c) (str_to_uint32 b) _ (λ dl e2.
        Todo->>= (Resultado m c) (obtener_valor_dir memoria string_itoa dl m c) _ (λ (v, c', m') e3.
          leido (v == menos_uno) (poner reg v) v c' m' m c refl s
            (obtener_valor_dir_casos dl m c e3))))

  escrito :
      (b : Bool) (o : Option M) (m : M) (c : Cpu)
      → c.page_fault ≡ false
      → Todo (Resultado m c) (if b then some (c, m) else (o >>= λ m'. some (c, m')))
  escrito true o m c s = λ p. absurd (true-not-false (sym p ∙ s))
  escrito false o m c s =
      Todo->>= (Resultado m c) o _ (λ m' e p. absurd (true-not-false (sym p ∙ s)))

  escribir_memoria_reanuda :
      (dl v : ℕ) (m : M) (c : Cpu)
      → c.page_fault ≡ false
      → Todo (Resultado m c) (escribir_memoria memoria string_itoa dl v m c)
  unfolding escribir_memoria escribir_en
  escribir_memoria_reanuda dl v m c s = elim (traducir_dl_casos dl m c) [
    | inl (k, e) ↦
        subst (λ x. Todo (Resultado m c) (escribir_en memoria string_itoa v m x)) (sym e)
          (λ p. (refl, refl, refl))
    | inr (df, e) ↦
        subst (λ x. Todo (Resultado m c) (escribir_en memoria string_itoa v m x)) (sym e)
          (escrito (df == menos_uno) (memoria.mov_out m df v) m c s)
  ]

  pub _mov_out_reanuda :
      (a b : List ℕ) (m : M) (c : Cpu)
      → c.page_fault ≡ false
      → Todo (Resultado m c) (_mov_out memoria string_itoa a b m c)
  unfolding _mov_out
  _mov_out_reanuda a b m c s = Todo->>= (Resultado m c) (get_registry b) _ (λ reg e1.
      Todo->>= (Resultado m c) (str_to_uint32 a) _ (λ dl e2.
        Todo->>= (Resultado m c)
          (escribir_memoria memoria string_itoa dl (valor reg c.contexto.registros) m c) _
          (λ r e3.
            Todo-some (Resultado m c) _ e3
              (escribir_memoria_reanuda dl (valor reg c.contexto.registros) m c s))))

  direccion :
      (df : ℕ) (m : M) (c : Cpu)
      → c.page_fault ≡ false
      → Resultado m c (poner_direccion memoria string_itoa (df, c), m)
  unfolding poner_direccion
  direccion df m c s = elim (Bool-cases (df == menos_uno)) [
    | inl si ↦ ground (arith, si, s)
    | inr no' ↦ ground (arith, no', s)
  ]

  direccion_reanuda :
      (dl : ℕ) (m : M) (c : Cpu)
      → c.page_fault ≡ false
      → Resultado m c
          (poner_direccion memoria string_itoa (traducir_dl memoria string_itoa dl m c), m)
  unfolding poner_direccion
  direccion_reanuda dl m c s = elim (traducir_dl_casos dl m c) [
    | inl (k, e) ↦
        subst (λ x. Resultado m c (poner_direccion memoria string_itoa x, m)) (sym e)
          (λ p. (refl, refl, refl))
    | inr (df, e) ↦
        subst (λ x. Resultado m c (poner_direccion memoria string_itoa x, m)) (sym e)
          (direccion df m c s)
  ]

  pub _f_read_write_reanuda :
      (n : NombreInstruccion) (b : List ℕ) (m : M) (c : Cpu)
      → c.page_fault ≡ false
      → Todo (Resultado m c) (_f_read_write memoria string_itoa n b m c >>= λ c'. some (c', m))
  unfolding _f_read_write traducir_dl_fs
  _f_read_write_reanuda n b m c s = elim (Option-cases (str_to_uint32 b)) [
    | inl e ↦ rw e tt
    | inr (dl, e) ↦ rw e (direccion_reanuda dl m c s)
  ]
