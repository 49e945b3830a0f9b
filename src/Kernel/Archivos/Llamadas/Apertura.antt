-- ===== src/Kernel/Archivos/Llamadas/Apertura.antt =====
-- kernel/src/instructions.c: `kf_open` on a file that is in the table, against a lock.
use so_2c_2023_no_me_queme.Base.{
  ℕ, ◌+◌, ◌%◌, ◌≡◌, refl, ap, ◌∙◌, Option, none, some, List, [], ◌∷◌, ◌++◌, get_elem?, ◌==◌,
  if◌then◌else◌, Bool, true, false, ◌||◌, Bool-cases, inl, inr,
}
use mathlib.Core.Option.{some-injective}
use so_2c_2023_no_me_queme.Base.Opt.{some->>=}
use so_2c_2023_no_me_queme.Shared.Cadena.{strcmp_eq, strcmp_eq_ajeno}
use so_2c_2023_no_me_queme.Shared.Instruccion.{Instruccion}
use so_2c_2023_no_me_queme.Kernel.Estado.{Kernel, ArchivoGlobal, set_pcb_block, replanificar}
use so_2c_2023_no_me_queme.Kernel.Archivos.{
  letra_r, letra_w, uint32, buscar_archivo_global, con_archivo, sumar, exec_block_fs,
}
use so_2c_2023_no_me_queme.Kernel.Archivos.Llamadas.{
  instruccion_de, en_archivo, bloquear_por_archivo, kf_open_con, kf_open,
}

-- A lock: its mode, the count of those that hold it, and those that wait for it.
pub record Candado : Type 0 where
  pub modo : ℕ
  pub cuenta : ℕ
  pub esperan : List ℕ

abbrev candado : Option ArchivoGlobal → Option Candado
candado none = none
candado (some a) = some (record { modo = a.lock; cuenta = a.contador; esperan = a.colabloqueado })

-- The table as a map from names to locks.
abbrev pub candado_de : Kernel → List ℕ → Option Candado
candado_de k n = candado (buscar_archivo_global k.lista_archivos_abiertos n)

-- The lock is free for the request: nobody writes, and the request is not to write.
abbrev pub compatible : ℕ → Candado → Bool
compatible lock c = if (c.modo == letra_w) || (lock == letra_w) then false else true

-- What a process that asks does to the lock.
abbrev pub pedir_candado : ℕ → ℕ → Candado → Candado
pedir_candado lock pid c =
    if compatible lock c
    then (if lock == letra_r then record c { cuenta = (c.cuenta + 1) % uint32 } else c)
    else record c { esperan = c.esperan ++ (pid ∷ []) }

buscar-con_archivo :
    (f : ArchivoGlobal → ArchivoGlobal) (l : List ArchivoGlobal) (n : List ℕ) {a : ArchivoGlobal}
    → ((x : ArchivoGlobal) → (f x).nombre_archivo ≡ x.nombre_archivo)
    → buscar_archivo_global l n ≡ some a
    → buscar_archivo_global (con_archivo f l n) n ≡ some (f a)
unfolding buscar_archivo_global con_archivo
buscar-con_archivo f [] n h e = absurd (cc)
buscar-con_archivo f (x ∷ l) n {a} h e = elim (Bool-cases (strcmp_eq x.nombre_archivo n)) [
  | inl si ↦
      let igual = some-injective x a (simp si at e) in
      let si' : strcmp_eq (f x).nombre_archivo n ≡ true = ap (λ y. strcmp_eq y n) (h x) ∙ si in
      simp (si, si') (ap (λ y. some (f y)) igual)
  | inr no' ↦ simp no' (buscar-con_archivo f l n h (simp no' at e))
]

buscar-con_archivo-ajeno :
    (f : ArchivoGlobal → ArchivoGlobal) (l : List ArchivoGlobal) (n m : List ℕ)
    → ((x : ArchivoGlobal) → (f x).nombre_archivo ≡ x.nombre_archivo)
    → strcmp_eq n m ≡ false
    → buscar_archivo_global (con_archivo f l n) m ≡ buscar_archivo_global l m
unfolding buscar_archivo_global con_archivo
buscar-con_archivo-ajeno f [] n m h d = refl
buscar-con_archivo-ajeno f (x ∷ l) n m h d = elim (Bool-cases (strcmp_eq x.nombre_archivo n)) [
  | inl si ↦
      let no1 = strcmp_eq_ajeno n m x.nombre_archivo d si in
      let no2 : strcmp_eq (f x).nombre_archivo m ≡ false = ap (λ y. strcmp_eq y m) (h x) ∙ no1 in
      simp (si, no1, no2) refl
  | inr no' ↦ simp no' (
      ap (λ y. if strcmp_eq x.nombre_archivo m then some x else y)
        (buscar-con_archivo-ajeno f l n m h d))
]

-- What `kf_open` leaves, when `tiene` tells whether the process got the lock.
abbrev pub Abierto : Bool → List ℕ → Candado → Kernel → Kernel → Type 0
Abierto tiene n c k k' =
    (candado_de k' n ≡ some c)
    × ((m : List ℕ) → strcmp_eq n m ≡ false → candado_de k' m ≡ candado_de k m)
    × (k'.proceso_en_ejecucion ≡ (if tiene then k.proceso_en_ejecucion else none))
    × (k'.cola_block ≡ (if tiene then k.cola_block else k.cola_block ++ (k.pcbelegido ∷ [])))
    × (k'.a_filesystem ≡ k.a_filesystem)

-- A change of the entry is a change of its lock, and of no other.
en_archivo-candado :
    (k : Kernel) (n : List ℕ) (f : ArchivoGlobal → ArchivoGlobal) {a : ArchivoGlobal}
    → ((x : ArchivoGlobal) → (f x).nombre_archivo ≡ x.nombre_archivo)
    → buscar_archivo_global k.lista_archivos_abiertos n ≡ some a
    → (candado_de (en_archivo n f k) n ≡ candado (some (f a)))
      × ((m : List ℕ) → strcmp_eq n m ≡ false → candado_de (en_archivo n f k) m ≡ candado_de k m)
en_archivo-candado k n f h e = (
  ap candado (buscar-con_archivo f k.lista_archivos_abiertos n h e),
  λ m d. ap candado (buscar-con_archivo-ajeno f k.lista_archivos_abiertos n m h d),
)

abbrev como_candado : ArchivoGlobal → Candado
como_candado a = record { modo = a.lock; cuenta = a.contador; esperan = a.colabloqueado }

kf_open_con-Abierto :
    (a : ArchivoGlobal) (i : Instruccion) (lock : ℕ) (k : Kernel)
    → buscar_archivo_global k.lista_archivos_abiertos i.parametro1 ≡ some a
    → Abierto
        (compatible lock (como_candado a))
        i.parametro1
        (pedir_candado lock k.pcbelegido (como_candado a))
        k
        (kf_open_con (some a) i lock k)
unfolding kf_open_con bloquear_por_archivo exec_block_fs set_pcb_block replanificar
kf_open_con-Abierto a i lock k e = elim (Bool-cases ((a.lock == letra_w) || (lock == letra_w))) [
  | inl si ↦
      let (x, y) =
        en_archivo-candado k i.parametro1
          (λ z. record z { colabloqueado = z.colabloqueado ++ (k.pcbelegido ∷ []) }) (λ z. refl)
          e in
      simp si (x, y, refl, refl, refl)
  | inr no' ↦ elim (Bool-cases (lock == letra_r)) [
    | inl lee ↦
        let (x, y) = en_archivo-candado k i.parametro1 sumar (λ z. refl) e in
        simp (no', lee) (x, y, refl, refl, refl)
    | inr otro ↦ simp (no', otro) (ap candado e, (λ m d. refl), refl, refl, refl)
  ]
]

-- `kf_open` on a file of the table is a request to its lock. A request to write, or of a file that
-- has a lock to write, waits: the process is the last of those that wait for the lock and of the
-- blocked ones, and none runs. Any other goes on, counted if it is to read. No other file's lock
-- changes, and nothing is sent to the filesystem.
pub kf_open-Abierto :
    (k : Kernel) (i : Instruccion) (lock : ℕ) (a : ArchivoGlobal)
    → instruccion_de k.pcbelegido k ≡ some i
    → get_elem? i.parametro2 0 ≡ some lock
    → buscar_archivo_global k.lista_archivos_abiertos i.parametro1 ≡ some a
    → (k' : Kernel) × (kf_open k ≡ some k')
      × Abierto
          (compatible lock (como_candado a))
          i.parametro1
          (pedir_candado lock k.pcbelegido (como_candado a))
          k
          k'
unfolding kf_open
kf_open-Abierto k i lock a ei el ea = (
  kf_open_con (some a) i lock k,
  some->>= (instruccion_de k.pcbelegido k) _ ei
      (some->>= (get_elem? i.parametro2 0) _ el (ap (λ o. some (kf_open_con o i lock k)) ea)),
  kf_open_con-Abierto a i lock k ea,
)
