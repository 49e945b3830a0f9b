-- ===== src/Filesystem/Fcb/Truncar.antt =====
-- What truncation does to the FAT.
use so_2c_2023_no_me_queme.Base.{
  ℕ, zero, suc, ◌-◌, List, arith, ◌==◌, ltb, if◌then◌else◌, Bool, true, false, ◌||◌, not,
}
use so_2c_2023_no_me_queme.Filesystem.Fat.{
  Fs, menos_uno, posicion_en_fat, modificar_en_fat, obtener_primer_bloque_libre,
}
use so_2c_2023_no_me_queme.Filesystem.Fat.Ocupados.{
  Ocupado, Ocupado-escribir_fat, obtener_primer_bloque_libre-positivo,
}
use so_2c_2023_no_me_queme.Filesystem.Fcb.{
  truncar_fcb, asignar_bloques, desasignar_bloques, encadenar, soltar, valor_fcb, conseguir_id_fcb,
  modificar_fcb, bloque_inicial, tamanio_archivo, obtener_cantidad_de_bloques, techo,
}

elegir {ℓ} : {A : Type ℓ} (P : A → Type 0) (b : Bool) (x y : A) → P x → P y → P (if b then x else y)
elegir P true x y px py = px
elegir P false x y px py = py

module _ (p : ℕ) where
  abbrev Sigue : Fs → Type 0
  Sigue fs = Ocupado p fs.fat

  encadenar-Ocupado : (n b : ℕ) (fs : Fs) → Sigue fs → Sigue (encadenar n b fs)
  unfolding encadenar modificar_en_fat
  encadenar-Ocupado zero b fs h = h
  encadenar-Ocupado (suc n) b fs h = elegir Sigue (b == 0) fs _ h (
      encadenar-Ocupado n _ (modificar_en_fat b (obtener_primer_bloque_libre fs) fs)
        (Ocupado-escribir_fat fs.fat p b _ (obtener_primer_bloque_libre-positivo fs) h))

  soltar-Ocupado : (fuel id b t n : ℕ) (fs : Fs) → Sigue fs → Sigue (soltar fuel id b t n fs)
  unfolding soltar modificar_en_fat modificar_fcb
  soltar-Ocupado zero id b t n fs h = h
  soltar-Ocupado (suc fuel) id b t n fs h =
      elegir Sigue ((b == menos_uno) || not (ltb t n)) fs _ h (
        soltar-Ocupado fuel id _ _ n
          (modificar_fcb id bloque_inicial (posicion_en_fat b fs) (modificar_en_fat b menos_uno fs))
          (Ocupado-escribir_fat fs.fat p b menos_uno (λ e. omega arith) h))

  asignar_bloques-Ocupado : (id n : ℕ) (fs : Fs) → Sigue fs → Sigue (asignar_bloques id n fs)
  unfolding asignar_bloques modificar_fcb
  asignar_bloques-Ocupado id n fs h =
      elegir Sigue (valor_fcb id bloque_inicial fs == 0) _ _
        (encadenar-Ocupado (techo n fs.tamanio_bloque - obtener_cantidad_de_bloques id fs)
          (obtener_primer_bloque_libre fs)
          (modificar_fcb id bloque_inicial (obtener_primer_bloque_libre fs) fs) h)
        (encadenar-Ocupado (techo n fs.tamanio_bloque - obtener_cantidad_de_bloques id fs)
          (valor_fcb id bloque_inicial fs) fs h)

  -- A block in use in the FAT is in use after any truncation, to more or to fewer bytes and with
  -- the name of any file: no block is ever free again.
  pub truncar_fcb-Ocupado :
      (nombre : List ℕ) (n : ℕ) (fs : Fs)
      → Ocupado p fs.fat
      → Ocupado p (truncar_fcb nombre n fs).1.fat
  unfolding truncar_fcb modificar_fcb desasignar_bloques
  truncar_fcb-Ocupado nombre n fs h =
      let id = conseguir_id_fcb nombre fs in
      elegir (λ (r : ℕ × Fs). Sigue r.1) (id == menos_uno) _ _ h
        (elegir Sigue (ltb (valor_fcb id tamanio_archivo fs) n) _ _
          (asignar_bloques-Ocupado id n fs h)
          (elegir Sigue (ltb n (valor_fcb id tamanio_archivo fs)) _ _
            (soltar-Ocupado n id _ 0 n fs h) h))
