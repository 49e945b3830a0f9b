-- ===== src/Kernel/Pasos/Recursos.antt =====
-- kernel/: WAIT, SIGNAL and the end of a process, for every resource.
use so_2c_2023_no_me_queme.Base.{
  ℕ, ◌≤◌, ◌≡◌, sym, ◌∙◌, some, List, arith, Bool-cases, inl, inr, bytes_eq_sound,
}
use so_2c_2023_no_me_queme.Shared.Cadena.{cadena, strcmp_eq}
use so_2c_2023_no_me_queme.Kernel.Estado.{Kernel}
use so_2c_2023_no_me_queme.Kernel.Recursos.{kwait, ksignal}
use so_2c_2023_no_me_queme.Kernel.Recursos.Total.{total}
use so_2c_2023_no_me_queme.Kernel.Recursos.Conserva.{kwait-total, ksignal-total}
use so_2c_2023_no_me_queme.Kernel.Recursos.Ajenos.{total_nombre, kwait-Igual, ksignal-Igual}
use so_2c_2023_no_me_queme.Kernel.Recursos.Vistas.{
  censo, censo-NoMira, instancias, instancias-NoMira,
}
use so_2c_2023_no_me_queme.Kernel.Liberacion.{liberar_recursos}
use so_2c_2023_no_me_queme.Kernel.Liberacion.Ajenos.{liberar_recursos-total, liberar_recursos-censo}
use so_2c_2023_no_me_queme.Kernel.Pasos.Estable.{Estable, Avance, Estable-partes}

module _ (n : List ℕ) where
  kwait-todos : (m : List ℕ) (k k' : Kernel) → kwait m k ≡ some k' → total n k' ≡ total n k
  kwait-todos m k k' e = elim (Bool-cases (strcmp_eq m n)) [
    | inl si ↦
        let igual = bytes_eq_sound (cadena m) (cadena n) si in
        sym (total_nombre m n k' igual) ∙ kwait-total m k k' e ∙ total_nombre m n k igual
    | inr no' ↦ kwait-Igual m (instancias n) (instancias-NoMira m n no') k e
  ]

  pub kwait-Estable : (m : List ℕ) (k k' : Kernel) → kwait m k ≡ some k' → Estable n k k'
  kwait-Estable m k k' e =
      Estable-partes n k k' (kwait-todos m k k' e) (kwait-Igual m censo (censo-NoMira m) k e)

  ksignal-todos : (m : List ℕ) (k k' : Kernel) → ksignal m k ≡ some k' → total n k ≤ total n k'
  ksignal-todos m k k' e = elim (Bool-cases (strcmp_eq m n)) [
    | inl si ↦
        let igual = bytes_eq_sound (cadena m) (cadena n) si in
        omega (arith, total_nombre m n k' igual, ksignal-total m k k' e, total_nombre m n k igual)
    | inr no' ↦ omega (arith, ksignal-Igual m (instancias n) (instancias-NoMira m n no') k e)
  ]

  pub ksignal-Avance : (m : List ℕ) (k k' : Kernel) → ksignal m k ≡ some k' → Avance n k k'
  ksignal-Avance m k k' e = (ksignal-todos m k k' e, ksignal-Igual m censo (censo-NoMira m) k e)

  pub liberar_recursos-Estable :
      (pid : ℕ) (k k' : Kernel) → liberar_recursos pid k ≡ some k' → Estable n k k'
  liberar_recursos-Estable pid k k' e =
      Estable-partes n k k' (liberar_recursos-total n pid k k' e)
        (liberar_recursos-censo pid k k' e)
