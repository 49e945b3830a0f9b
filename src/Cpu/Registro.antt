-- ===== src/Cpu/Registro.antt =====
-- cpu/src/cpu.c and cpu/src/instructions.c: the globals, the registers (`get_registry`), and the
-- messages exchanged with memoria as an interface.
use so_2c_2023_no_me_queme.Base.{
  ℕ, ◌≡◌, refl, Option, none, some, List, [], ◌∷◌, Bool, if◌then◌else◌, ◌^◌, ◌-◌,
}
use so_2c_2023_no_me_queme.Shared.Cadena.{strcmp_eq}
use so_2c_2023_no_me_queme.Shared.Contexto.{Contexto, Registros}
use so_2c_2023_no_me_queme.Shared.Instruccion.{Instruccion, NombreInstruccion, codigo}

-- -1, as a 32-bit pattern.
abbrev pub menos_uno : ℕ
menos_uno = 2 ^ 32 - 1

-- `interrupciones` is three flags, indexed by `motivo_desalojo`.
pub record Cpu : Type 0 where
  pub contexto : Contexto
  pub page_fault : Bool
  pub fin_quantum : Bool
  pub fin_proceso : Bool
  pub nuevo_proceso : Bool
  pub descartar_instruccion : Bool
  pub tamano_pagina : ℕ

-- What the cpu sends to memoria and the answer it reads: an operation code and a value. The
-- requests for an instruction and for a frame change nothing in memoria.
pub record Memoria (M : Type 0) : Type 0 where
  pub pedir_instruccion : M → ℕ → ℕ → Option Instruccion
  pub pedir_marco : M → ℕ → ℕ → Bool × ℕ
  pub mov_in : M → ℕ → Option (ℕ × M)
  pub mov_out : M → ℕ → ℕ → Option M

pub data Registro : Type 0 where
  reg_ax reg_bx reg_cx reg_dx : Registro

-- The pointer that the name leads to; `none` is NULL, which every caller dereferences.
unfoldable pub get_registry : List ℕ → Option Registro
get_registry registro =
    if strcmp_eq registro (65 ∷ 88 ∷ [])
    then some reg_ax
    else if strcmp_eq registro (66 ∷ 88 ∷ [])
    then some reg_bx
    else if strcmp_eq registro (67 ∷ 88 ∷ [])
    then some reg_cx
    else if strcmp_eq registro (68 ∷ 88 ∷ [])
    then some reg_dx
    else none

abbrev pub valor : Registro → Registros → ℕ
valor reg_ax r = r.ax
valor reg_bx r = r.bx
valor reg_cx r = r.cx
valor reg_dx r = r.dx

abbrev pub poner : Registro → ℕ → Registros → Registros
poner reg_ax v r = record r { ax = v }
poner reg_bx v r = record r { bx = v }
poner reg_cx v r = record r { cx = v }
poner reg_dx v r = record r { dx = v }

pub valor-poner : (d : Registro) (v : ℕ) (r : Registros) → valor d (poner d v r) ≡ v
valor-poner reg_ax v r = refl
valor-poner reg_bx v r = refl
valor-poner reg_cx v r = refl
valor-poner reg_dx v r = refl

pub poner-poner : (d : Registro) (v w : ℕ) (r : Registros) → poner d w (poner d v r) ≡ poner d w r
poner-poner reg_ax v w r = refl
poner-poner reg_bx v w r = refl
poner-poner reg_cx v w r = refl
poner-poner reg_dx v w r = refl

pub poner-valor : (d : Registro) (r : Registros) → poner d (valor d r) r ≡ r
poner-valor reg_ax r = refl
poner-valor reg_bx r = refl
poner-valor reg_cx r = refl
poner-valor reg_dx r = refl

-- Updates of the fields of `*contexto_actual`.
abbrev pub con_contexto : (Contexto → Contexto) → Cpu → Cpu
con_contexto f c = record c { contexto = f c.contexto }

abbrev pub ultima : NombreInstruccion → Cpu → Cpu
ultima n c = con_contexto (λ x. record x { codigo_ultima_instru = codigo n }) c

abbrev pub motivo : ℕ → Cpu → Cpu
motivo m c = con_contexto (λ x. record x { motivo_desalojado = m }) c

abbrev pub con_registros : (Registros → Registros) → Cpu → Cpu
con_registros f c = con_contexto (λ x. record x { registros = f x.registros }) c
