-- ===== src/Memoria/Paginas.antt =====
-- memoria/src/memoria.c, section PAGINAS and MANEJO PF: the choice of the page to replace, by
-- FIFO over the pages used, or by LRU over the pages present.
use so_2c_2023_no_me_queme.Base.{
  ℕ, ◌+◌, ◌≤◌, ◌<◌, ◌≡◌, refl, Option, none, some, List, [], ◌∷◌, ◌++◌, arith, ◌==◌, ltb,
  if◌then◌else◌, Bool, true, false, Bool-cases, inl, inr, ◌⊎◌,
}
use so_2c_2023_no_me_queme.Base.Opt.{◌>>=◌}
use so_2c_2023_no_me_queme.Memoria.Estado.{
  max_lru, Entrada, Proceso, fifo, lru, Memoria, mod_entrada, presente,
}

unfoldable pub paginas_presentes : (ℕ → Option Entrada) → List ℕ → List ℕ
paginas_presentes h [] = []
paginas_presentes h (a ∷ resto) =
    let quedan = paginas_presentes h resto in if presente h a then a ∷ quedan else quedan

-- Both loops of the function, over the processes and over the entries of each.
unfoldable pub obtener_total_pags_en_memoria : (ℕ → Option Entrada) → List Proceso → List ℕ
unfolding paginas_presentes
obtener_total_pags_en_memoria h [] = []
obtener_total_pags_en_memoria h (p ∷ ps) =
    paginas_presentes h p.entradas_tabla ++ obtener_total_pags_en_memoria h ps

abbrev pub tiempo_lru : (ℕ → Option Entrada) → ℕ → ℕ
tiempo_lru h a = elim (h a) [ none ↦ max_lru | some e ↦ e.tiempo_lru ]

-- The loop over the list, with its two variables: the least time so far and its entry.
menor_tiempo : (ℕ → Option Entrada) → List ℕ → ℕ → Option ℕ → Option ℕ
menor_tiempo h [] menor elegida = elegida
menor_tiempo h (a ∷ resto) menor elegida =
    menor_tiempo h resto (if ltb (tiempo_lru h a) menor then tiempo_lru h a else menor)
      (if ltb (tiempo_lru h a) menor then some a else elegida)

unfoldable pub obtener_entrada_menor_tiempo_lru : (ℕ → Option Entrada) → List ℕ → Option ℕ
unfolding menor_tiempo
obtener_entrada_menor_tiempo_lru h lista = menor_tiempo h lista max_lru none

unfoldable pub obtener_pagina_lru : Memoria → Option ℕ
unfolding obtener_total_pags_en_memoria obtener_entrada_menor_tiempo_lru
obtener_pagina_lru m =
    obtener_entrada_menor_tiempo_lru m.entradas
      (obtener_total_pags_en_memoria m.entradas m.procesos_totales)

sacar_primera : List ℕ → Option (ℕ × List ℕ)
sacar_primera [] = none
sacar_primera (a ∷ resto) = some (a, resto)

-- `list_remove(paginas_utilizadas, 0)`; `none` is the null pointer that the empty list gives.
unfoldable pub obtener_pagina_fifo : Memoria → Option (ℕ × Memoria)
unfolding sacar_primera
obtener_pagina_fifo m = do
  (a, resto) ← sacar_primera m.paginas_utilizadas
  some (a, record m { paginas_utilizadas = resto })

unfoldable pub pagina_a_reemplazar : Memoria → Option (ℕ × Memoria)
unfolding obtener_pagina_fifo obtener_pagina_lru
pagina_a_reemplazar m = elim (m.algoritmo_pags) [
  | fifo ↦ obtener_pagina_fifo m
  | lru ↦ elim (obtener_pagina_lru m) [ none ↦ none | some a ↦ some (a, m) ]
]

abbrev id_bloque : (ℕ → Option Entrada) → ℕ → Option ℕ
id_bloque h a = elim (h a) [ none ↦ none | some e ↦ some e.id_bloque_swap ]

-- `list_find(paginas_utilizadas, _mismo_id_bloque)`
unfoldable pub mismo_id_bloque : (ℕ → Option Entrada) → ℕ → List ℕ → Bool
mismo_id_bloque h id [] = false
mismo_id_bloque h id (b ∷ bs) =
    let resto = mismo_id_bloque h id bs in
    elim (h b) [ none ↦ resto | some e ↦ if e.id_bloque_swap == id then true else resto ]

-- A page joins the end of the queue at its first use.
unfoldable pub agregar_pagina_fifo : ℕ → Entrada → Memoria → Memoria
unfolding mismo_id_bloque
agregar_pagina_fifo a e m =
    if mismo_id_bloque m.entradas e.id_bloque_swap m.paginas_utilizadas
    then m
    else record m { paginas_utilizadas = m.paginas_utilizadas ++ (a ∷ []) }

unfoldable pub actualizo_entrada_para_futuro_reemplazo : ℕ → Entrada → Memoria → Memoria
unfolding agregar_pagina_fifo
actualizo_entrada_para_futuro_reemplazo a e m = agregar_pagina_fifo a e (record m {
  contador_lru = m.contador_lru + 1;
  entradas = mod_entrada a (λ x. record x { tiempo_lru = m.contador_lru + 1 }) m.entradas;
})

-- What the loop has found when it ends, from a start where nothing older is known.
abbrev pub TodosDesde : (ℕ → Option Entrada) → ℕ → List ℕ → Type 0
TodosDesde h t [] = Unit
TodosDesde h t (a ∷ resto) = (t ≤ tiempo_lru h a) × TodosDesde h t resto

abbrev pub Esta : ℕ → List ℕ → Type 0
Esta a [] = ⊥
Esta a (b ∷ bs) = (a ≡ b) ⊎ Esta a bs

TodosDesde-mono :
    (h : ℕ → Option Entrada) (s t : ℕ) (l : List ℕ) → s ≤ t → TodosDesde h t l → TodosDesde h s l
TodosDesde-mono h s t [] p v = tt
TodosDesde-mono h s t (a ∷ l) p v = (omega arith, TodosDesde-mono h s t l p v.1)

-- The outcome of the loop started at (`menor`, `elegida`).
abbrev Resultado : (ℕ → Option Entrada) → List ℕ → ℕ → Option ℕ → Option ℕ → Type 0
Resultado h l menor elegida r =
    ((r ≡ elegida) × TodosDesde h menor l)
    ⊎ ((a : ℕ) × (r ≡ some a)
        × Esta a l
        × (tiempo_lru h a < menor)
        × TodosDesde h (tiempo_lru h a) l)

menor_tiempo-Resultado :
    (h : ℕ → Option Entrada) (l : List ℕ) (menor : ℕ) (elegida : Option ℕ)
    → Resultado h l menor elegida (menor_tiempo h l menor elegida)
unfolding menor_tiempo
menor_tiempo-Resultado h [] menor elegida = inl (refl, tt)
menor_tiempo-Resultado h (a ∷ l) menor elegida = elim (Bool-cases (ltb (tiempo_lru h a) menor)) [
  | inl si ↦ rw si (elim (menor_tiempo-Resultado h l (tiempo_lru h a) (some a)) [
    | inl (e, t) ↦ inr (a, e, inl refl, ground arith, (omega arith, t))
    | inr (b, e, i, lt, t) ↦ inr (b, e, inr i, ground arith, (omega arith, t))
  ])
  | inr no' ↦ rw no' (elim (menor_tiempo-Resultado h l menor elegida) [
    | inl (e, t) ↦ inl (e, (ground arith, t))
    | inr (b, e, i, lt, t) ↦ inr (b, e, inr i, lt, (ground arith, t))
  ])
]

-- LRU picks a page of the list with the least time of use. It picks none exactly when no page of
-- the list has a time below `MAX_LRU`: an empty list, pages never used since they were created, or
-- a counter that has passed `MAX_LRU`.
pub obtener_entrada_menor_tiempo_lru_lem :
    (h : ℕ → Option Entrada) (l : List ℕ)
    → ((obtener_entrada_menor_tiempo_lru h l ≡ none) × TodosDesde h max_lru l)
      ⊎ ((a : ℕ) × (obtener_entrada_menor_tiempo_lru h l ≡ some a)
          × Esta a l
          × (tiempo_lru h a < max_lru)
          × TodosDesde h (tiempo_lru h a) l)
unfolding obtener_entrada_menor_tiempo_lru
obtener_entrada_menor_tiempo_lru_lem h l = menor_tiempo-Resultado h l max_lru none

Esta-append : (a : ℕ) (xs ys : List ℕ) → Esta a (xs ++ ys) → Esta a xs ⊎ Esta a ys
Esta-append a [] ys i = inr i
Esta-append a (x ∷ xs) ys (inl e) = inl (inl e)
Esta-append a (x ∷ xs) ys (inr i) = elim (Esta-append a xs ys i) [
  | inl j ↦ inl (inr j)
  | inr j ↦ inr j
]

Esta-paginas_presentes :
    (h : ℕ → Option Entrada) (a : ℕ) (l : List ℕ)
    → Esta a (paginas_presentes h l)
    → presente h a ≡ true
unfolding paginas_presentes
Esta-paginas_presentes h a [] i = elim i [ ]
Esta-paginas_presentes h a (b ∷ l) i = elim (Bool-cases (presente h b)) [
  | inl si ↦ elim (let j : Esta a (b ∷ paginas_presentes h l) = rw si at i in j) [
    | inl e ↦ rw e si
    | inr j ↦ Esta-paginas_presentes h a l j
  ]
  | inr no' ↦ Esta-paginas_presentes h a l (rw no' at i)
]

pub Esta-obtener_total :
    (h : ℕ → Option Entrada) (a : ℕ) (ps : List Proceso)
    → Esta a (obtener_total_pags_en_memoria h ps)
    → presente h a ≡ true
unfolding obtener_total_pags_en_memoria
Esta-obtener_total h a [] i = elim i [ ]
Esta-obtener_total h a (p ∷ ps) i =
    elim (Esta-append a (paginas_presentes h p.entradas_tabla) _ i) [
      | inl j ↦ Esta-paginas_presentes h a p.entradas_tabla j
      | inr j ↦ Esta-obtener_total h a ps j
    ]

-- Using a page changes the counter, that page's time and the queue, and nothing else.
pub record SoloUso (a : ℕ) (m m' : Memoria) : Type 0 where
  pub marcos_ok : m'.marcos ≡ m.marcos
  pub procesos_ok : m'.procesos_totales ≡ m.procesos_totales
  pub usuario_ok : m'.memoria_usuario ≡ m.memoria_usuario
  pub pagina_ok : m'.tamanio_pagina ≡ m.tamanio_pagina
  pub tamanio_ok : m'.tamanio_memoria ≡ m.tamanio_memoria
  pub algoritmo_ok : m'.algoritmo_pags ≡ m.algoritmo_pags
  pub contador_ok : m'.contador_lru ≡ m.contador_lru + 1
  pub entradas_ok :
      m'.entradas ≡ mod_entrada a (λ x. record x { tiempo_lru = m.contador_lru + 1 }) m.entradas

pub actualizo-SoloUso :
    (a : ℕ) (e : Entrada) (m : Memoria)
    → SoloUso a m (actualizo_entrada_para_futuro_reemplazo a e m)
unfolding actualizo_entrada_para_futuro_reemplazo agregar_pagina_fifo
actualizo-SoloUso a e m =
    elim (Bool-cases (
      mismo_id_bloque (mod_entrada a (λ x. record x { tiempo_lru = m.contador_lru + 1 }) m.entradas)
        e.id_bloque_swap m.paginas_utilizadas)) [
          | inl si ↦ rw si (record {
            marcos_ok = refl;
            procesos_ok = refl;
            usuario_ok = refl;
            pagina_ok = refl;
            tamanio_ok = refl;
            algoritmo_ok = refl;
            contador_ok = refl;
            entradas_ok = refl;
          })
          | inr no' ↦ rw no' (record {
            marcos_ok = refl;
            procesos_ok = refl;
            usuario_ok = refl;
            pagina_ok = refl;
            tamanio_ok = refl;
            algoritmo_ok = refl;
            contador_ok = refl;
            entradas_ok = refl;
          })
        ]
