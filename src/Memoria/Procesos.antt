-- ===== src/Memoria/Procesos.antt =====
-- memoria/src/memoria.c: creation of a process (its page table and its swap blocks), its
-- instructions, and its end.
use so_2c_2023_no_me_queme.Base.{
  ℕ, zero, suc, ◌+◌, ◌-◌, ◌*◌, ◌/◌, ◌%◌, ◌≤◌, ◌<◌, ◌≡◌, Option, none, some, List, [], ◌∷◌, ◌++◌,
  arith, get_elem?, ◌==◌, ltb, if◌then◌else◌, Bool-cases, inl, inr,
}
use native.Mathlib.Nat.{div-eq_of_lt-le, div-add-mod', mod-lt}
use native.Mathlib.Decide.{dec_lt}
use so_2c_2023_no_me_queme.Base.Opt.{◌>>=◌}
use so_2c_2023_no_me_queme.Shared.Instruccion.{Instruccion}
use so_2c_2023_no_me_queme.Memoria.Estado.{libre, max_lru, Entrada, Proceso, Memoria, mod_entrada}
use so_2c_2023_no_me_queme.Memoria.Marcos.{liberar_marcos_proceso}
use so_2c_2023_no_me_queme.Memoria.Usuario.{obtener_proceso_pid}

-- `(int)ceil(entero)` with `entero` the quotient of the doubles, one more if it is not whole.
unfoldable pub paginas_necesarias_proceso : ℕ → ℕ → ℕ
paginas_necesarias_proceso tamanio_proc tamanio_pag =
    let entero =
      if ltb 0 (tamanio_proc % tamanio_pag) then tamanio_proc + tamanio_pag else tamanio_proc in
    (entero + (tamanio_pag - 1)) / tamanio_pag

abbrev entrada_nueva : ℕ → Entrada
entrada_nueva i = record {
  indice = i;
  marco = libre;
  bit_presencia = 0;
  bit_modificado = 0;
  id_bloque_swap = 0;
  tiempo_lru = max_lru;
}

-- The loop that fills the table: each entry is a fresh address.
crear_entradas : ℕ → ℕ → (ℕ → Option Entrada) → ℕ → List ℕ × (ℕ → Option Entrada) × ℕ
crear_entradas i zero h proxima = ([], h, proxima)
crear_entradas i (suc n) h proxima =
    let (tabla, h', p') =
      crear_entradas (i + 1) n (λ b. if proxima == b then some (entrada_nueva i) else h b)
        (proxima + 1) in
    (proxima ∷ tabla, h', p')

-- Returns the process with its table beside the number of pages that it asks swap for.
unfoldable pub inicializar_estructuras_memoria_nuevo_proceso :
    Proceso → Memoria → Proceso × Memoria × ℕ
unfolding crear_entradas
inicializar_estructuras_memoria_nuevo_proceso p m =
    let cantidad_pags = paginas_necesarias_proceso p.tamano m.tamanio_pagina in
    let (tabla, h, prox) = crear_entradas 0 cantidad_pags m.entradas m.proxima in
    (
      record p { entradas_tabla = tabla; cantidad_paginas = cantidad_pags },
      record m { entradas = h; proxima = prox },
      cantidad_pags,
    )

-- The process is on the list before its table is made; both are the one object.
unfoldable pub iniciar_proceso_path : List Instruccion → Proceso → Memoria → Memoria × ℕ
iniciar_proceso_path instrucciones p m =
    let (p', m', q_pags) =
      inicializar_estructuras_memoria_nuevo_proceso (record p { instrucciones = instrucciones })
        m in
    (record m' { procesos_totales = m'.procesos_totales ++ (p' ∷ []) }, q_pags)

-- The i-th id of the list goes to the i-th entry; `list_get` past its end gives 0.
unfoldable pub asignar_id_bloque_swap :
    List ℕ → List ℕ → (ℕ → Option Entrada) → (ℕ → Option Entrada)
asignar_id_bloque_swap [] ids h = h
asignar_id_bloque_swap (a ∷ tabla) [] h =
    asignar_id_bloque_swap tabla [] (mod_entrada a (λ x. record x { id_bloque_swap = 0 }) h)
asignar_id_bloque_swap (a ∷ tabla) (id ∷ ids) h =
    asignar_id_bloque_swap tabla ids (mod_entrada a (λ x. record x { id_bloque_swap = id }) h)

unfoldable pub obtener_instruccion_pid_pc : ℕ → ℕ → Memoria → Option Instruccion
obtener_instruccion_pid_pc pid pc m = do
  proceso ← obtener_proceso_pid pid m
  get_elem? proceso.instrucciones pc

-- The frame of a page: `none` inside is the -1 of a page fault, `none` outside a null pointer.
unfoldable pub obtener_marco_pid : ℕ → ℕ → Memoria → Option (Option ℕ)
obtener_marco_pid pid entrada m = do
  proceso ← obtener_proceso_pid pid m
  a ← get_elem? proceso.entradas_tabla entrada
  e ← m.entradas a
  if e.bit_presencia == 0 then some none else some (some e.marco)

-- The ids that go to the filesystem when the process ends.
unfoldable pub obtener_lista_id_bloque_swap : (ℕ → Option Entrada) → List ℕ → Option (List ℕ)
obtener_lista_id_bloque_swap h [] = some []
obtener_lista_id_bloque_swap h (a ∷ tabla) = do
  e ← h a
  ids ← obtener_lista_id_bloque_swap h tabla
  some (e.id_bloque_swap ∷ ids)

-- `list_remove_element`: the first occurrence of the pointer.
unfoldable pub quitar : ℕ → List ℕ → List ℕ
quitar a [] = []
quitar a (b ∷ bs) = let resto = quitar a bs in if b == a then bs else b ∷ resto

quitar_proceso : ℕ → List Proceso → List Proceso
quitar_proceso pid [] = []
quitar_proceso pid (p ∷ ps) =
    let resto = quitar_proceso pid ps in if p.pid == pid then ps else p ∷ resto

quitar_todas : List ℕ → List ℕ → List ℕ
quitar_todas [] cola = cola
quitar_todas (a ∷ tabla) cola = quitar_todas tabla (quitar a cola)

liberar_entradas : List ℕ → (ℕ → Option Entrada) → (ℕ → Option Entrada)
liberar_entradas [] h = h
liberar_entradas (a ∷ tabla) h = liberar_entradas tabla (λ b. if a == b then none else h b)

-- The process is the one that `obtener_proceso_pid` found, so the first with its pid leaves.
unfoldable pub eliminar_proceso_memoria : Proceso → Memoria → Option Memoria
unfolding quitar_proceso quitar_todas liberar_entradas quitar
eliminar_proceso_memoria p m = do
  ms ← liberar_marcos_proceso p.pid m.marcos
  some (record m {
    marcos = ms;
    procesos_totales = quitar_proceso p.pid m.procesos_totales;
    paginas_utilizadas = quitar_todas p.entradas_tabla m.paginas_utilizadas;
    entradas = liberar_entradas p.entradas_tabla m.entradas;
  })

div_unico : (k n m : ℕ) → k * n ≤ m → m < k * n + n → m / n ≡ k
div_unico k n m lo hi = div-eq_of_lt-le n lo (grind arith)

necesarias_exacta : (t p : ℕ) → 0 < p → t % p ≡ 0 → paginas_necesarias_proceso t p ≡ t / p
unfolding paginas_necesarias_proceso
necesarias_exacta t p h e = rw e (
    div_unico (t / p) p (t + (p - 1)) (omega (arith, div-add-mod' t p))
      (omega (arith, div-add-mod' t p)))

necesarias_de_mas : (t p : ℕ) → 0 < p → 0 < t % p → paginas_necesarias_proceso t p ≡ t / p + 2
unfolding paginas_necesarias_proceso
necesarias_de_mas t p h r = elim (Bool-cases (ltb 0 (t % p))) [
  | inl si ↦ rw si (
      div_unico (t / p + 2) p (t + p + (p - 1)) (omega (arith, div-add-mod' t p))
        (omega (arith, div-add-mod' t p, mod-lt t h)))
  | inr no' ↦ absurd (ground arith)
]

-- The pages bought always hold the process; a size that is no multiple of the page size buys one
-- page more than the least number that would hold it.
pub paginas_necesarias_proceso_lem :
    (tamanio pagina : ℕ)
    → 0 < pagina
    → (tamanio ≤ paginas_necesarias_proceso tamanio pagina * pagina)
      × (tamanio % pagina ≡ 0 → paginas_necesarias_proceso tamanio pagina ≡ tamanio / pagina)
      × (0 < tamanio % pagina → paginas_necesarias_proceso tamanio pagina ≡ tamanio / pagina + 2)
paginas_necesarias_proceso_lem t p h = (
  elim (dec_lt 0 (t % p)) [
    | yes r ↦ rw (necesarias_de_mas t p h r) (omega (arith, div-add-mod' t p, mod-lt t h))
    | no r ↦ rw (necesarias_exacta t p h (omega arith)) (omega (arith, div-add-mod' t p))
  ],
  necesarias_exacta t p h,
  necesarias_de_mas t p h,
)
