-- ===== src/Filesystem/Fcb/Crear.antt =====
-- Creating a file, and finding it.
use so_2c_2023_no_me_queme.Base.{
  ℕ, ◌+◌, ◌≡◌, refl, ap, List, [], ◌∷◌, ◌++◌, arith, length, if◌then◌else◌, false, bytes_eq_refl,
}
use mathlib.Core.Path.{subst}
use so_2c_2023_no_me_queme.Shared.Cadena.{strcmp_eq, cadena}
use so_2c_2023_no_me_queme.Filesystem.Fat.{Fcb, Fs, menos_uno}
use so_2c_2023_no_me_queme.Filesystem.Fcb.{id_en, conseguir_id_fcb, crear_fcb, buscar_fcb}

abbrev Nuevo : List ℕ → ℕ → Fcb
Nuevo nombre id = record {
  nombre_archivo = nombre;
  id = id;
  tamanio_archivo = 0;
  bloque_inicial = 0;
}

-- The ids are the numbers from `k` on, in order: `crear_fcb` gives them so.
abbrev pub Numerada : ℕ → List Fcb → Type 0
Numerada k [] = Unit
Numerada k (f ∷ fs) = (f.id ≡ k) × Numerada (k + 1) fs

-- No file of the list has the name.
abbrev pub SinNombre : List ℕ → List Fcb → Type 0
SinNombre nombre [] = Unit
SinNombre nombre (f ∷ fs) = (strcmp_eq f.nombre_archivo nombre ≡ false) × SinNombre nombre fs

id_en-nuevo :
    (fs : List Fcb) (nombre : List ℕ) (id : ℕ)
    → SinNombre nombre fs
    → id_en (fs ++ (Nuevo nombre id ∷ [])) nombre ≡ id
unfolding id_en
id_en-nuevo [] nombre id h = rw (bytes_eq_refl (cadena nombre)) refl
id_en-nuevo (f ∷ fs) nombre id (e, h) = rw e (id_en-nuevo fs nombre id h)

id_en-otro :
    (fs : List Fcb) (nombre otro : List ℕ) (id : ℕ)
    → strcmp_eq nombre otro ≡ false
    → id_en (fs ++ (Nuevo nombre id ∷ [])) otro ≡ id_en fs otro
unfolding id_en
id_en-otro [] nombre otro id d = rw d refl
id_en-otro (f ∷ fs) nombre otro id d =
    ap (λ x. if strcmp_eq f.nombre_archivo otro then f.id else x) (id_en-otro fs nombre otro id d)

id_en-SinNombre :
    (fs : List Fcb) (nombre : List ℕ) → SinNombre nombre fs → id_en fs nombre ≡ menos_uno
unfolding id_en
id_en-SinNombre [] nombre h = refl
id_en-SinNombre (f ∷ fs) nombre (e, h) = rw e (id_en-SinNombre fs nombre h)

Numerada-agregar :
    (k : ℕ) (fs : List Fcb) (nombre : List ℕ)
    → Numerada k fs
    → Numerada k (fs ++ (Nuevo nombre (k + length fs) ∷ []))
Numerada-agregar k [] nombre h = (omega arith, tt)
Numerada-agregar k (f ∷ fs) nombre (e, h) = (
  e,
  subst (λ x. Numerada (k + 1) (fs ++ (Nuevo nombre x ∷ []))) (omega arith)
      (Numerada-agregar (k + 1) fs nombre h),
)

buscar_nuevo :
    (nombre : List ℕ) (fs : Fs) → SinNombre nombre fs.lista_fcb → buscar_fcb nombre fs ≡ menos_uno
unfolding buscar_fcb conseguir_id_fcb
buscar_nuevo nombre fs h = let e = id_en-SinNombre fs.lista_fcb nombre h in ground (arith, e)

-- Creating a file whose name no file has gives it the next id, under which its name is found from
-- then on; every other name is found as before, the ids stay the positions in the list, and
-- nothing of the state but the list changes.
pub conseguir_id_fcb-crear_fcb :
    (nombre : List ℕ) (fs : Fs)
    → SinNombre nombre fs.lista_fcb
    → Numerada 0 fs.lista_fcb
    → (fs' : Fs) × (crear_fcb nombre fs ≡ (length fs.lista_fcb, fs'))
      × (conseguir_id_fcb nombre fs' ≡ length fs.lista_fcb)
      × ((otro : List ℕ)
          → strcmp_eq nombre otro ≡ false
          → conseguir_id_fcb otro fs' ≡ conseguir_id_fcb otro fs)
      × Numerada 0 fs'.lista_fcb
      × (fs' ≡ record fs { lista_fcb = fs'.lista_fcb })
unfolding crear_fcb conseguir_id_fcb
conseguir_id_fcb-crear_fcb nombre fs h num =
    let nueva : buscar_fcb nombre fs ≡ menos_uno = buscar_nuevo nombre fs h in
    (
      record fs { lista_fcb = fs.lista_fcb ++ (Nuevo nombre (length fs.lista_fcb) ∷ []) },
      rw nueva refl,
      id_en-nuevo fs.lista_fcb nombre (length fs.lista_fcb) h,
      (λ otro d. id_en-otro fs.lista_fcb nombre otro (length fs.lista_fcb) d),
      subst (λ x. Numerada 0 (fs.lista_fcb ++ (Nuevo nombre x ∷ []))) (omega arith)
          (Numerada-agregar 0 fs.lista_fcb nombre num),
      refl,
    )
