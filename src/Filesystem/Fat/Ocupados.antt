-- ===== src/Filesystem/Fat/Ocupados.antt =====
-- The entries of the FAT in use.
use so_2c_2023_no_me_queme.Base.{
  ℕ, zero, suc, ◌+◌, ◌<◌, ◌≡◌, ◌≢◌, ap, ◌∙◌, some, List, [], ◌∷◌, ◌++◌, arith, length, get_elem?,
  set, ◌==◌, ltb, Bool-cases, inl, inr, get_elem?-set_self, get_elem?-set_ne, lt_of_get_elem?,
}
use so_2c_2023_no_me_queme.Filesystem.Fat.{
  Fs, posicion_en_fat, escribir_fat, libre_desde, obtener_primer_bloque_libre,
}

-- An entry in use: one that the file has and that is not 0.
abbrev pub Ocupado : ℕ → List ℕ → Type 0
Ocupado p fat = (v : ℕ) × (get_elem? fat p ≡ some v) × (v ≢ 0)

get_elem?_prefijo :
    (xs ys : List ℕ) (p v : ℕ) → get_elem? xs p ≡ some v → get_elem? (xs ++ ys) p ≡ some v
get_elem?_prefijo [] ys p v h = absurd (cc)
get_elem?_prefijo (x ∷ xs) ys zero v h = h
get_elem?_prefijo (x ∷ xs) ys (suc p) v h = get_elem?_prefijo xs ys p v h

get_elem?-set-Ocupado : (fat : List ℕ) (p q v : ℕ) → v ≢ 0 → Ocupado p fat → Ocupado p (set fat q v)
get_elem?-set-Ocupado fat p q v n (w, e, nw) = elim (Bool-cases (q == p)) [
  | inl igual ↦
      let iguales : q ≡ p = ground arith in
      let puesto : get_elem? (set fat q v) p ≡ some v =
        ap (λ x. get_elem? (set fat x v) p) iguales
        ∙ get_elem?-set_self fat p v (lt_of_get_elem? fat p e) in
      (v, puesto, n)
  | inr otro ↦ (w, get_elem?-set_ne fat q p v (λ i. absurd (ground arith)) ∙ e, nw)
]

-- Writing a value other than 0 frees no entry.
pub Ocupado-escribir_fat :
    (fat : List ℕ) (p q v : ℕ) → v ≢ 0 → Ocupado p fat → Ocupado p (escribir_fat q v fat)
unfolding escribir_fat
Ocupado-escribir_fat fat p q v n (w, e, nw) = elim (Bool-cases (ltb q (length fat))) [
  | inl si ↦ rw si (get_elem?-set-Ocupado fat p q v n (w, e, nw))
  | inr no' ↦ rw no' (w, get_elem?_prefijo fat _ p w e, nw)
]

libre_desde-positivo : (i n : ℕ) (fs : Fs) → 0 < i → libre_desde i n fs ≢ 0
unfolding libre_desde
libre_desde-positivo i zero fs h = λ e. absurd (omega arith)
libre_desde-positivo i (suc n) fs h = elim (Bool-cases (posicion_en_fat i fs == 0)) [
  | inl si ↦ rw si (λ e. omega arith)
  | inr no' ↦ rw no' (libre_desde-positivo (i + 1) n fs (omega arith))
]

pub obtener_primer_bloque_libre-positivo : (fs : Fs) → obtener_primer_bloque_libre fs ≢ 0
unfolding obtener_primer_bloque_libre
obtener_primer_bloque_libre-positivo fs = libre_desde-positivo 1 _ fs (omega arith)
