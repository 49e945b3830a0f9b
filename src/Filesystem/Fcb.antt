-- ===== src/Filesystem/Fcb.antt =====
-- filesystem/src/filesystem.c: the list of file control blocks, and truncation.
pub mod Truncar
pub mod Combustible
pub mod Lectura
pub mod Crear
pub mod Respuesta
use so_2c_2023_no_me_queme.Base.{
  ℕ, zero, suc, ◌+◌, ◌-◌, ◌*◌, ◌/◌, ◌%◌, ◌^◌, ◌≤◌, ◌<◌, ◌≡◌, Option, none, some, List, [], ◌∷◌,
  ◌++◌, length, ◌==◌, ltb, if◌then◌else◌, map, Bool, true, false, ◌||◌, not, ◌&&◌,
}
use so_2c_2023_no_me_queme.Shared.Cadena.{strcmp_eq}
use so_2c_2023_no_me_queme.Filesystem.Fat.{
  Fcb, Fs, menos_uno, posicion_en_fat, modificar_en_fat, obtener_primer_bloque_libre,
}

pub data FcbProp : Type 0 where
  tamanio_archivo bloque_inicial : FcbProp

unfoldable pub id_en : List Fcb → List ℕ → ℕ
id_en [] nombre = menos_uno
id_en (f ∷ fs) nombre =
    let resto = id_en fs nombre in if strcmp_eq f.nombre_archivo nombre then f.id else resto

unfoldable pub conseguir_id_fcb : List ℕ → Fs → ℕ
unfolding id_en
conseguir_id_fcb nombre_fcb fs = id_en fs.lista_fcb nombre_fcb

unfoldable pub _get_fcb_id : ℕ → List Fcb → Option Fcb
_get_fcb_id id [] = none
_get_fcb_id id (f ∷ fs) = let resto = _get_fcb_id id fs in if f.id == id then some f else resto

abbrev pub valor_para_fcb : FcbProp → Option Fcb → ℕ
valor_para_fcb llave none = 0
valor_para_fcb tamanio_archivo (some f) = f.tamanio_archivo
valor_para_fcb bloque_inicial (some f) = f.bloque_inicial

unfoldable pub valor_fcb : ℕ → FcbProp → Fs → ℕ
unfolding _get_fcb_id
valor_fcb id llave fs = valor_para_fcb llave (_get_fcb_id id fs.lista_fcb)

abbrev pub _modificar_fcb : FcbProp → ℕ → Fcb → Fcb
_modificar_fcb tamanio_archivo valor f = record f { tamanio_archivo = valor }
_modificar_fcb bloque_inicial valor f = record f { bloque_inicial = valor }

unfoldable pub modificar_en : ℕ → FcbProp → ℕ → List Fcb → List Fcb
modificar_en id llave valor [] = []
modificar_en id llave valor (f ∷ fs) =
    let resto = modificar_en id llave valor fs in
    if f.id == id then _modificar_fcb llave valor f ∷ fs else f ∷ resto

unfoldable pub modificar_fcb : ℕ → FcbProp → ℕ → Fs → Fs
unfolding modificar_en
modificar_fcb id llave valor fs = record fs { lista_fcb = modificar_en id llave valor fs.lista_fcb }

unfoldable pub buscar_fcb : List ℕ → Fs → ℕ
buscar_fcb nombre_fcb fs =
    let id_fcb = conseguir_id_fcb nombre_fcb fs in
    if posicion_en_fat (valor_fcb id_fcb bloque_inicial fs) fs == 0 then menos_uno else id_fcb

-- The id, or -1, and the state.
unfoldable pub crear_fcb : List ℕ → Fs → ℕ × Fs
crear_fcb nombre_fcb fs =
    if buscar_fcb nombre_fcb fs == menos_uno
    then (
      length fs.lista_fcb,
      record fs {
        lista_fcb =
            fs.lista_fcb
            ++ (record {
              nombre_archivo = nombre_fcb;
              id = length fs.lista_fcb;
              tamanio_archivo = 0;
              bloque_inicial = 0;
            }
                ∷ []);
      },
    )
    else (menos_uno, fs)

-- `ceil((double)tamanio / tamanio_bloque)` of an `int`, kept above 0 by adding 2 ^ 31.
unfoldable pub techo : ℕ → ℕ → ℕ
techo tamanio bloque =
    if ltb tamanio (2 ^ 31)
    then 2 ^ 31 + (tamanio + (bloque - 1)) / bloque
    else 2 ^ 31 - (2 ^ 32 - tamanio) / bloque

unfoldable pub obtener_cantidad_de_bloques : ℕ → Fs → ℕ
obtener_cantidad_de_bloques id_fcb fs =
    techo (valor_fcb id_fcb tamanio_archivo fs) fs.tamanio_bloque

-- The `for` of `asignar_bloques`, with the number of its rounds.
unfoldable pub encadenar : ℕ → ℕ → Fs → Fs
encadenar zero bloque_actual fs = fs
encadenar (suc n) bloque_actual fs =
    let fs' = modificar_en_fat bloque_actual (obtener_primer_bloque_libre fs) fs in
    let resto = encadenar n (posicion_en_fat bloque_actual fs') fs' in
    if bloque_actual == 0 then fs else resto

unfoldable pub asignar_bloques : ℕ → ℕ → Fs → Fs
unfolding techo encadenar
asignar_bloques id_fcb nuevo_tamanio fs =
    let n = techo nuevo_tamanio fs.tamanio_bloque - obtener_cantidad_de_bloques id_fcb fs in
    let inicial = valor_fcb id_fcb bloque_inicial fs in
    let primero = obtener_primer_bloque_libre fs in
    if inicial == 0
    then encadenar n primero (modificar_fcb id_fcb bloque_inicial primero fs)
    else encadenar n inicial fs

-- The `while` of `desasignar_bloques`: each round adds the block size to `tamanio_actual`.
unfoldable pub soltar : ℕ → ℕ → ℕ → ℕ → ℕ → Fs → Fs
soltar zero id_fcb bloque tamanio_actual nuevo_tamanio fs = fs
soltar (suc fuel) id_fcb bloque tamanio_actual nuevo_tamanio fs =
    let siguiente = posicion_en_fat bloque fs in
    let resto =
      soltar fuel id_fcb siguiente ((tamanio_actual + fs.tamanio_bloque) % 2 ^ 32) nuevo_tamanio
        (modificar_fcb id_fcb bloque_inicial siguiente (modificar_en_fat bloque menos_uno fs)) in
    if (bloque == menos_uno) || not (ltb tamanio_actual nuevo_tamanio) then fs else resto

unfoldable pub desasignar_bloques : ℕ → ℕ → Fs → Fs
unfolding soltar
desasignar_bloques id_fcb nuevo_tamanio fs =
    soltar nuevo_tamanio id_fcb (valor_fcb id_fcb bloque_inicial fs) 0 nuevo_tamanio fs

unfoldable pub truncar_fcb : List ℕ → ℕ → Fs → ℕ × Fs
truncar_fcb nombre_fcb nuevo_tamanio fs =
    let id_fcb = conseguir_id_fcb nombre_fcb fs in
    let tamanio = valor_fcb id_fcb tamanio_archivo fs in
    if id_fcb == menos_uno then (menos_uno, fs) else (
      0,
      modificar_fcb id_fcb tamanio_archivo nuevo_tamanio (
          if ltb tamanio nuevo_tamanio
          then asignar_bloques id_fcb nuevo_tamanio fs
          else if ltb nuevo_tamanio tamanio
          then desasignar_bloques id_fcb nuevo_tamanio fs
          else fs),
    )

-- The walk of `realizar_f_read` and `realizar_f_write` to a block of the file.
unfoldable pub bloque_fs : ℕ → ℕ → Fs → ℕ
bloque_fs zero b fs = b
bloque_fs (suc n) b fs = bloque_fs n (posicion_en_fat b fs) fs
