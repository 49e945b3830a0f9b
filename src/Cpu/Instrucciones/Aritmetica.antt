-- ===== src/Cpu/Instrucciones/Aritmetica.antt =====
-- cpu/src/instructions.c and cpu/src/cpu.c: arithmetic on registers and addresses.
use so_2c_2023_no_me_queme.Base.{
  ℕ, ◌+◌, ◌-◌, ◌*◌, ◌/◌, ◌%◌, ◌^◌, ◌<◌, ◌≤◌, ◌≡◌, ◌≢◌, refl, ap, sym, ◌∙◌, some, List, false, arith,
}
use so_2c_2023_no_me_queme.Base.Opt.{◌>>=◌}
use so_2c_2023_no_me_queme.Shared.Contexto.{Registros}
use so_2c_2023_no_me_queme.Shared.Instruccion.{sub}
use native.Mathlib.Nat.{
  mod-eq_of_lt, mod-lt, div-eq_of_lt, mod-mod, mul-add-div_right, mul-add-mod_self_right,
  mod-eq-sub-div-mul,
}
use so_2c_2023_no_me_queme.Cpu.Registro.{
  Cpu, Memoria, Registro, get_registry, valor, poner, ultima, con_registros, reg_ax, reg_bx, reg_cx,
  reg_dx, poner-valor, poner-poner, valor-poner,
}
use so_2c_2023_no_me_queme.Cpu.Instrucciones.{_sum, _sub, traducir_dl, traducir}

valor_otro : (d o : Registro) (v : ℕ) (r : Registros) → d ≢ o → valor o (poner d v r) ≡ valor o r
valor_otro reg_ax reg_ax v r h = absurd (h refl)
valor_otro reg_bx reg_bx v r h = absurd (h refl)
valor_otro reg_cx reg_cx v r h = absurd (h refl)
valor_otro reg_dx reg_dx v r h = absurd (h refl)
valor_otro reg_ax reg_bx v r h = refl
valor_otro reg_ax reg_cx v r h = refl
valor_otro reg_ax reg_dx v r h = refl
valor_otro reg_bx reg_ax v r h = refl
valor_otro reg_bx reg_cx v r h = refl
valor_otro reg_bx reg_dx v r h = refl
valor_otro reg_cx reg_ax v r h = refl
valor_otro reg_cx reg_bx v r h = refl
valor_otro reg_cx reg_dx v r h = refl
valor_otro reg_dx reg_ax v r h = refl
valor_otro reg_dx reg_bx v r h = refl
valor_otro reg_dx reg_cx v r h = refl

resta_suma : (a b : ℕ) → a < 2 ^ 32 → b < 2 ^ 32 → ((a + b) % 2 ^ 32 + (2 ^ 32 - b)) % 2 ^ 32 ≡ a
resta_suma a b ha hb = omega arith

registros_vuelven :
    (d o : Registro) (r : Registros)
    → d ≢ o
    → valor d r < 2 ^ 32
    → valor o r < 2 ^ 32
    → (let r' = poner d ((valor d r + valor o r) % 2 ^ 32) r in
        poner d ((valor d r' + (2 ^ 32 - valor o r')) % 2 ^ 32) r')
      ≡ r
registros_vuelven d o r n hd ho =
    let s = (valor d r + valor o r) % 2 ^ 32 in
    simp (
      valor-poner d s r,
      valor_otro d o s r n,
      resta_suma (valor d r) (valor o r) hd ho,
      poner-poner d s (valor d r) r,
      poner-valor d r,
    )

-- On two different registers, SUB undoes SUM, the sum's wrap-around included.
pub _sub-_sum :
    (destino origen : List ℕ) (d o : Registro) (c : Cpu)
    → get_registry destino ≡ some d
    → get_registry origen ≡ some o
    → d ≢ o
    → valor d c.contexto.registros < 2 ^ 32
    → valor o c.contexto.registros < 2 ^ 32
    → (_sum destino origen c >>= _sub destino origen) ≡ some (ultima sub c)
unfolding _sum _sub
_sub-_sum destino origen d o c ed eo n hd ho =
    let vuelta =
      ap (λ r. some (ultima sub (con_registros (λ _. r) c)))
        (registros_vuelven d o c.contexto.registros n hd ho) in
    simp (ed, eo) vuelta

partes :
    (marco t dl : ℕ)
    → 0 < t
    → (marco + 1) * t ≤ 2 ^ 32
    → let df = (marco * t + (dl - dl / t * t)) % 2 ^ 32 in (df / t ≡ marco) × (df % t ≡ dl % t)
partes marco t dl p h =
    let resto : dl % t < t = mod-lt dl p in
    let entra : marco * t + dl % t < 2 ^ 32 = grind arith in
    let e : (marco * t + (dl - dl / t * t)) % 2 ^ 32 ≡ marco * t + dl % t =
      ap (λ x. (marco * t + x) % 2 ^ 32) (sym (mod-eq-sub-div-mul dl t)) ∙ mod-eq_of_lt entra in
    (
      ap (λ x. x / t) e ∙ mul-add-div_right p marco (dl % t) ∙ omega (arith, div-eq_of_lt resto),
      ap (λ x. x % t) e ∙ mul-add-mod_self_right marco t (dl % t) ∙ mod-mod dl t,
    )

-- Where the frame that memoria answers lies within 32 bits, the physical address is in that frame,
-- at the offset that the logical address has in its page, and the globals do not change.
pub traducir_dl_lem :
    {M : Type 0} (memoria : Memoria M) (string_itoa : ℕ → List ℕ) (m : M) (c : Cpu) (dl marco : ℕ)
    → 0 < c.tamano_pagina
    → memoria.pedir_marco m c.contexto.pid (dl / c.tamano_pagina) ≡ (false, marco)
    → (marco + 1) * c.tamano_pagina ≤ 2 ^ 32
    → (df : ℕ) × (traducir_dl memoria string_itoa dl m c ≡ (df, c))
      × (df / c.tamano_pagina ≡ marco)
      × (df % c.tamano_pagina ≡ dl % c.tamano_pagina)
unfolding traducir_dl traducir
traducir_dl_lem memoria string_itoa m c dl marco p e h = (
  (marco * c.tamano_pagina + (dl - dl / c.tamano_pagina * c.tamano_pagina)) % 2 ^ 32,
  ap (λ a. traducir a dl c) e,
  (partes marco c.tamano_pagina dl p h).0,
  (partes marco c.tamano_pagina dl p h).1,
)
