-- ===== src/Memoria/Fallo/Victima.antt =====
-- The page that the replacement algorithm puts out.
use so_2c_2023_no_me_queme.Base.{
  ℕ, ◌≡◌, refl, Option, none, some, List, [], ◌∷◌, arith, ◌==◌, if◌then◌else◌, Bool, true, false,
  Bool-cases, inl, inr, Option-cases, ==_iff,
}
use so_2c_2023_no_me_queme.Memoria.Estado.{Entrada, Algoritmo, fifo, lru, Memoria, presente}
use so_2c_2023_no_me_queme.Memoria.Paginas.{
  Esta, pagina_a_reemplazar, obtener_pagina_fifo, obtener_pagina_lru, Esta-obtener_total,
  obtener_total_pags_en_memoria, obtener_entrada_menor_tiempo_lru_lem,
}
use so_2c_2023_no_me_queme.Memoria.Fallo.{liberar_presencia_pagina, poner_marco}
use so_2c_2023_no_me_queme.Memoria.Fallo.Invariante.{EnCola, IsMemoria}

abbrev pub bit : Option Entrada → Bool
bit x = elim x [ none ↦ false | some e ↦ e.bit_presencia == 1 ]

bit-poner :
    (t : Bool) (x : Option Entrada) (k : ℕ)
    → bit x ≡ true
    → bit (
        if t
        then elim x [
          | none ↦ none
          | some e ↦ some (record e { marco = k; bit_presencia = 1; bit_modificado = 0 })
        ]
        else x)
      ≡ true
bit-poner t none k h = ground arith
bit-poner true (some e) k h = refl
bit-poner false (some e) k h = h

pub EnCola-poner :
    (h : ℕ → Option Entrada) (a k : ℕ) (l : List ℕ) → EnCola h l → EnCola (poner_marco a k h) l
EnCola-poner h a k [] c = tt
EnCola-poner h a k (b ∷ l) c = (bit-poner (a == b) (h b) k c.0, c.1, EnCola-poner h a k l c.2)

pub EnCola-liberar :
    (h : ℕ → Option Entrada) (v : ℕ) (l : List ℕ)
    → ¬ Esta v l
    → EnCola h l
    → EnCola (liberar_presencia_pagina v h) l
unfolding liberar_presencia_pagina
EnCola-liberar h v [] n c = tt
EnCola-liberar h v (b ∷ l) n c = (
  elim (Bool-cases (v == b)) [
    | inl si ↦ absurd (n (inl ((==_iff v b).0 si)))
    | inr no' ↦ rw (no', presente) c.0
  ],
  c.1,
  EnCola-liberar h v l (λ i. n (inr i)) c.2,
)

-- The page chosen to leave is present, and only the queue changed to choose it.
pub record Victima (m m0 : Memoria) (v : ℕ) : Type 0 where
  pub esta : presente m.entradas v ≡ true
  pub resto :
      (l : List ℕ) × (m0 ≡ record m { paginas_utilizadas = l })
      × (m.algoritmo_pags ≡ fifo → EnCola m.entradas l × (¬ Esta v l))

Victima-fifo :
    (m : Memoria) (l : List ℕ) (v : ℕ) (m0 : Memoria)
    → m.paginas_utilizadas ≡ l
    → EnCola m.entradas l
    → obtener_pagina_fifo m ≡ some (v, m0)
    → Victima m m0 v
unfolding obtener_pagina_fifo
Victima-fifo m [] v m0 e c h = ground arith
Victima-fifo m (a ∷ l) v m0 e c h = record {
  esta = ground (arith, c.0);
  resto = (l, ground arith, λ _. (c.2, λ i. c.1 (ground arith)));
}

Victima-lru : (m : Memoria) (v : ℕ) → obtener_pagina_lru m ≡ some v → presente m.entradas v ≡ true
unfolding obtener_pagina_lru
Victima-lru m v h =
    elim (obtener_entrada_menor_tiempo_lru_lem m.entradas
      (obtener_total_pags_en_memoria m.entradas m.procesos_totales)) [
        | inl (e, t) ↦ ground arith
        | inr (a, e, i, t, u) ↦ ground (arith, Esta-obtener_total m.entradas a m.procesos_totales i)
      ]

lru_none :
    (m : Memoria) (r : ℕ × Memoria)
    → m.algoritmo_pags ≡ lru
    → obtener_pagina_lru m ≡ none
    → pagina_a_reemplazar m ≡ some r
    → ⊥
lru_none m r e n h = unfold pagina_a_reemplazar in ground arith

lru_some :
    (m : Memoria) (x : ℕ) (r : ℕ × Memoria)
    → m.algoritmo_pags ≡ lru
    → obtener_pagina_lru m ≡ some x
    → pagina_a_reemplazar m ≡ some r
    → some (x, m) ≡ some r
lru_some m x r e n h = unfold pagina_a_reemplazar in ground arith

fifo_some :
    (m : Memoria) (r : ℕ × Memoria)
    → m.algoritmo_pags ≡ fifo
    → pagina_a_reemplazar m ≡ some r
    → obtener_pagina_fifo m ≡ some r
fifo_some m r e h = unfold pagina_a_reemplazar in ground arith

Victima-de :
    (m : Memoria) (v : ℕ) (m0 : Memoria) (x : ℕ)
    → m.algoritmo_pags ≡ lru
    → presente m.entradas x ≡ true
    → ◌≡◌ {A = Option (ℕ × Memoria)} (some (x, m)) (some (v, m0))
    → Victima m m0 v
Victima-de m v m0 x e p q = record {
  esta = ground arith;
  resto = (m.paginas_utilizadas, ground arith, λ f. absurd (ground arith));
}

pub victima_lem :
    (duenio : ℕ → ℕ) (m : Memoria) (v : ℕ) (m0 : Memoria)
    → IsMemoria duenio m
    → pagina_a_reemplazar m ≡ some (v, m0)
    → Victima m m0 v
victima_lem duenio m v m0 c h = por_algoritmo m.algoritmo_pags refl
  where
    por_algoritmo : (alg : Algoritmo) → m.algoritmo_pags ≡ alg → Victima m m0 v
    por_algoritmo fifo e =
        Victima-fifo m m.paginas_utilizadas v m0 refl (c.cola e) (fifo_some m (v, m0) e h)
    por_algoritmo lru e = elim (Option-cases (obtener_pagina_lru m)) [
      | inl n ↦ absurd (lru_none m (v, m0) e n h)
      | inr (x, n) ↦ Victima-de m v m0 x e (Victima-lru m x n) (lru_some m x (v, m0) e n h)
    ]
