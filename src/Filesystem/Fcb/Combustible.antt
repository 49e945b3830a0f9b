-- ===== src/Filesystem/Fcb/Combustible.antt =====
-- filesystem/src/filesystem.c: the loop of `desasignar_bloques` ends.
use so_2c_2023_no_me_queme.Base.{
  ℕ, zero, suc, ◌+◌, ◌%◌, ◌^◌, ◌<◌, ◌≤◌, ◌≡◌, refl, ap, sym, ◌∙◌, ◌==◌, ltb, if◌then◌else◌, Bool,
  true, false, Bool-cases, inl, inr, ◌||◌, not, arith,
}
use native.Mathlib.Nat.{mod-eq_of_lt}
use so_2c_2023_no_me_queme.Filesystem.Fat.{Fs, menos_uno, posicion_en_fat, modificar_en_fat}
use so_2c_2023_no_me_queme.Filesystem.Fcb.{
  soltar, desasignar_bloques, modificar_fcb, valor_fcb, bloque_inicial,
}

o_no : (b c : Bool) → c ≡ true → (b || c) ≡ true
o_no true c h = refl
o_no false c h = h

-- At the size asked for, the loop stops whatever fuel is left.
soltar_fin : (j id b t n : ℕ) (fs : Fs) → n ≤ t → soltar j id b t n fs ≡ fs
unfolding soltar
soltar_fin zero id b t n fs h = refl
soltar_fin (suc j) id b t n fs h =
    let fin : not (ltb t n) ≡ true = ground arith in
    simp (o_no (b == menos_uno) (not (ltb t n)) fin) refl

suc-mas : (a b : ℕ) → suc a + b ≡ suc (a + b)
suc-mas a b = omega arith

soltar_mas :
    (fuel j id b t n : ℕ) (fs : Fs)
    → 0 < fs.tamanio_bloque
    → n + fs.tamanio_bloque ≤ 2 ^ 32
    → n ≤ t + fuel
    → soltar (fuel + j) id b t n fs ≡ soltar fuel id b t n fs
unfolding soltar modificar_fcb modificar_en_fat
soltar_mas zero j id b t n fs p h e = soltar_fin (0 + j) id b t n fs (omega arith)
soltar_mas (suc fuel) j id b t n fs p h e = elim (Bool-cases (ltb t n)) [
  | inr no' ↦
      let l : n ≤ t = ground (arith, no') in
      soltar_fin (suc fuel + j) id b t n fs l ∙ sym (soltar_fin (suc fuel) id b t n fs l)
  | inl si ↦
      let l : t < n = ground (arith, si) in
      let m : (t + fs.tamanio_bloque) % 2 ^ 32 ≡ t + fs.tamanio_bloque =
        mod-eq_of_lt (omega arith) in
      let resto =
        soltar_mas fuel j id (posicion_en_fat b fs) ((t + fs.tamanio_bloque) % 2 ^ 32) n
          (modificar_fcb id bloque_inicial (posicion_en_fat b fs) (modificar_en_fat b menos_uno fs))
          p h (omega (arith, m, l, e)) in
      ap (λ x. soltar x id b t n fs) (suc-mas fuel j)
      ∙ ap (λ x. if (b == menos_uno) || not (ltb t n) then fs else x) resto
]

-- With blocks of at least one byte, and no wrap-around of the count, the loop of
-- `desasignar_bloques` ends by itself: with any more rounds allowed, the result is the same.
pub desasignar_bloques-soltar :
    (j id_fcb nuevo_tamanio : ℕ) (fs : Fs)
    → 0 < fs.tamanio_bloque
    → nuevo_tamanio + fs.tamanio_bloque ≤ 2 ^ 32
    → soltar (nuevo_tamanio + j) id_fcb (valor_fcb id_fcb bloque_inicial fs) 0 nuevo_tamanio fs
      ≡ desasignar_bloques id_fcb nuevo_tamanio fs
unfolding desasignar_bloques
desasignar_bloques-soltar j id_fcb nuevo_tamanio fs p h =
    soltar_mas nuevo_tamanio j id_fcb (valor_fcb id_fcb bloque_inicial fs) 0 nuevo_tamanio fs p h
      (omega arith)
