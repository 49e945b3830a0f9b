-- ===== src/Memoria/Marcos.antt =====
-- memoria/src/memoria.c, section MARCOS: the table of frames.
use so_2c_2023_no_me_queme.Base.{
  ℕ, zero, suc, ◌+◌, ◌-◌, ◌/◌, ◌≡◌, refl, ap, Option, none, some, List, [], ◌∷◌, ◌++◌, arith,
  length, get_elem?, set, ◌==◌, ltb, if◌then◌else◌, Bool, true, Bool-cases, inl, inr, append_assoc,
  ◌∙◌, length-append,
}
use so_2c_2023_no_me_queme.Base.Opt.{◌>>=◌}
use so_2c_2023_no_me_queme.Memoria.Estado.{libre, Marco}

marcos_desde : ℕ → ℕ → List Marco
marcos_desde i zero = []
marcos_desde i (suc n) = record { pid = libre; num_de_marco = i } ∷ marcos_desde (i + 1) n

-- `i < marcosTotales()` compares with the quotient as a double: with `i * pagina < tamanio`.
pub marcos_totales : ℕ → ℕ → ℕ
marcos_totales tamanio pagina = (tamanio + (pagina - 1)) / pagina

unfoldable pub inicializar_marcos : ℕ → ℕ → List Marco
unfolding marcos_desde marcos_totales
inicializar_marcos tamanio pagina = marcos_desde 0 (marcos_totales tamanio pagina)

pub es_marco_libre : Marco → Bool
es_marco_libre m = m.pid == libre

-- `list_count_satisfying(marcos, es_marco_libre)`
cuenta_libres : List Marco → ℕ
unfolding es_marco_libre
cuenta_libres [] = 0
cuenta_libres (m ∷ ms) = if es_marco_libre m then 1 + cuenta_libres ms else cuenta_libres ms

unfoldable pub hay_marcos_libres : List Marco → Bool
unfolding cuenta_libres
hay_marcos_libres ms = ltb 0 (cuenta_libres ms)

-- The first free frame goes to the pid; `none` is the null pointer of a full table.
unfoldable pub asignar_marco_libre : ℕ → List Marco → Option (ℕ × List Marco)
unfolding es_marco_libre
asignar_marco_libre pid [] = none
asignar_marco_libre pid (m ∷ ms) =
    let resto = asignar_marco_libre pid ms in
    if es_marco_libre m
    then some (m.num_de_marco, record m { pid = pid } ∷ ms)
    else elim resto [ none ↦ none | some (k, ms') ↦ some (k, m ∷ ms') ]

-- `obtener_marcos_pid`, with the test `mismo_pid_marco`.
unfoldable pub obtener_marcos_pid : ℕ → List Marco → List Marco
obtener_marcos_pid pid [] = []
obtener_marcos_pid pid (m ∷ ms) =
    let resto = obtener_marcos_pid pid ms in if m.pid == pid then m ∷ resto else resto

unfoldable pub liberar_marco_indice : ℕ → List Marco → Option (List Marco)
liberar_marco_indice k ms = elim (get_elem? ms k) [
  | none ↦ none
  | some m ↦ some (set ms k (record m { pid = libre }))
]

liberar_todos : List Marco → List Marco → Option (List Marco)
liberar_todos [] ms = some ms
liberar_todos (m ∷ resto) ms = do
  ms' ← liberar_marco_indice m.num_de_marco ms
  liberar_todos resto ms'

unfoldable pub liberar_marcos_proceso : ℕ → List Marco → Option (List Marco)
unfolding liberar_todos obtener_marcos_pid liberar_marco_indice
liberar_marcos_proceso pid ms = liberar_todos (obtener_marcos_pid pid ms) ms

-- Each frame knows its own index.
abbrev pub Numerados : ℕ → List Marco → Type 0
Numerados i [] = Unit
Numerados i (m ∷ ms) = (m.num_de_marco ≡ i) × Numerados (i + 1) ms

pub num_de_marco-get_elem? :
    (i : ℕ) (ms : List Marco) (k : ℕ) {m : Marco}
    → Numerados i ms
    → get_elem? ms k ≡ some m
    → m.num_de_marco ≡ i + k
num_de_marco-get_elem? i [] k n h = ground arith
num_de_marco-get_elem? i (x ∷ ms) zero n h = ground arith
num_de_marco-get_elem? i (x ∷ ms) (suc k) n h =
    omega (arith, num_de_marco-get_elem? (i + 1) ms k n.1 h)

pub set-Numerados :
    (i : ℕ) (ms : List Marco) (k : ℕ) (m : Marco)
    → Numerados i ms
    → m.num_de_marco ≡ i + k
    → Numerados i (set ms k m)
set-Numerados i [] k m n h = tt
set-Numerados i (x ∷ ms) zero m n h = (omega arith, n.1)
set-Numerados i (x ∷ ms) (suc k) m n h = (n.0, set-Numerados (i + 1) ms k m n.1 (omega arith))

marcos_desde-Numerados : (i n : ℕ) → Numerados i (marcos_desde i n)
unfolding marcos_desde
marcos_desde-Numerados i zero = tt
marcos_desde-Numerados i (suc n) = (refl, marcos_desde-Numerados (i + 1) n)

length-marcos_desde : (i n : ℕ) → length (marcos_desde i n) ≡ n
unfolding marcos_desde
length-marcos_desde i zero = refl
length-marcos_desde i (suc n) = ap suc (length-marcos_desde (i + 1) n)

-- What `asignar_marco_libre` did to a table of frames.
pub record Asignado (pid : ℕ) (ms : List Marco) (i k : ℕ) (ms' : List Marco) : Type 0 where
  pub posicion : ℕ
  pub numero : k ≡ i + posicion
  pub estaba_libre :
      (m : Marco) × (get_elem? ms posicion ≡ some m)
      × (m.pid ≡ libre)
      × (ms' ≡ set ms posicion (record m { pid = pid }))

-- With a free frame in a numbered table, the assignment finds one: the frame given was free, it
-- belongs to the pid afterwards, and no other frame changes.
pub asignar-Asignado :
    (pid i : ℕ) (ms : List Marco)
    → Numerados i ms
    → hay_marcos_libres ms ≡ true
    → (k : ℕ) × (ms' : List Marco) × (asignar_marco_libre pid ms ≡ some (k, ms'))
      × Asignado pid ms i k ms'
unfolding asignar_marco_libre hay_marcos_libres
asignar-Asignado pid i [] n h = ground arith
asignar-Asignado pid i (m ∷ ms) n h = elim (Bool-cases (m.pid == libre)) [
  | inl si ↦ (
    m.num_de_marco,
    record m { pid = pid } ∷ ms,
    rw si,
    record {
      posicion = 0;
      numero = omega (arith, n.0);
      estaba_libre = (m, refl, ground arith, refl);
    },
  )
  | inr no' ↦
      let (k, ms', e, a) = asignar-Asignado pid (i + 1) ms n.1 (ground arith) in
      (
        k,
        m ∷ ms',
        rw (no', e),
        record {
          posicion = suc a.posicion;
          numero = omega (arith, a.numero);
          estaba_libre =
              (a.estaba_libre.0, a.estaba_libre.1, a.estaba_libre.2, ap (◌∷◌ m) a.estaba_libre.3);
        },
      )
]

-- The table after every frame of a pid became free.
abbrev pub sin_pid : ℕ → List Marco → List Marco
sin_pid pid [] = []
sin_pid pid (m ∷ ms) = (if m.pid == pid then record m { pid = libre } else m) ∷ sin_pid pid ms

set-append {ℓ} :
    {A : Type ℓ} (pre : List A) (x v : A) (ms : List A)
    → set (pre ++ (x ∷ ms)) (length pre) v ≡ pre ++ (v ∷ ms)
set-append [] x v ms = refl
set-append (y ∷ pre) x v ms = ap (◌∷◌ y) (set-append pre x v ms)

get_elem?-append {ℓ} :
    {A : Type ℓ} (pre : List A) (x : A) (ms : List A)
    → get_elem? (pre ++ (x ∷ ms)) (length pre) ≡ some x
get_elem?-append [] x ms = refl
get_elem?-append (y ∷ pre) x ms = get_elem?-append pre x ms

liberar_marco_indice-append :
    (pre : List Marco) (m : Marco) (ms : List Marco) (k : ℕ)
    → k ≡ length pre
    → liberar_marco_indice k (pre ++ (m ∷ ms)) ≡ some (pre ++ (record m { pid = libre } ∷ ms))
unfolding liberar_marco_indice
liberar_marco_indice-append pre m ms k e =
    ground (arith, get_elem?-append pre m ms, set-append pre m (record m { pid = libre }) ms)

Numerados-step :
    (pre : List Marco) (x : Marco) (ms : List Marco)
    → Numerados (length pre + 1) ms
    → Numerados (length (pre ++ (x ∷ []))) ms
Numerados-step pre x ms n = rw (length-append pre (x ∷ [])) n

liberar_todos-append :
    (pid : ℕ) (pre ms : List Marco)
    → Numerados (length pre) ms
    → liberar_todos (obtener_marcos_pid pid ms) (pre ++ ms) ≡ some (pre ++ sin_pid pid ms)
unfolding liberar_todos obtener_marcos_pid
liberar_todos-append pid pre [] n = refl
liberar_todos-append pid pre (m ∷ ms) n = elim (Bool-cases (m.pid == pid)) [
  | inl si ↦
      rw
        (
          si,
          liberar_marco_indice-append pre m ms m.num_de_marco n.0,
          ← append_assoc pre (record m { pid = libre } ∷ []) ms,
        )
        (liberar_todos-append pid (pre ++ (record m { pid = libre } ∷ [])) ms
            (Numerados-step pre _ ms n.1)
          ∙ ap some (append_assoc pre _ _))
  | inr no' ↦
      rw (no', ← append_assoc pre (m ∷ []) ms)
        (liberar_todos-append pid (pre ++ (m ∷ [])) ms (Numerados-step pre _ ms n.1)
          ∙ ap some (append_assoc pre _ _))
]

-- Ending a process frees exactly its frames: the loop never misses a frame or meets a null
-- pointer, and the frames of every other pid stay as they were.
pub liberar_marcos_proceso_lem :
    (pid : ℕ) (ms : List Marco)
    → Numerados 0 ms
    → liberar_marcos_proceso pid ms ≡ some (sin_pid pid ms)
unfolding liberar_marcos_proceso
liberar_marcos_proceso_lem pid ms n = liberar_todos-append pid [] ms n
