-- ===== src/Memoria/Fallo/Invariante.antt =====
-- The consistency of page tables and frames.
use so_2c_2023_no_me_queme.Base.{
  ℕ, ◌≡◌, ◌≢◌, ap, Option, some, List, [], ◌∷◌, arith, get_elem?, set, ◌==◌, true, Bool-cases, inl,
  inr, get_elem?-set_self, get_elem?-set_ne, lt_of_get_elem?, sym,
}
use so_2c_2023_no_me_queme.Memoria.Estado.{libre, Entrada, Marco, Proceso, fifo, Memoria, presente}
use so_2c_2023_no_me_queme.Memoria.Marcos.{Numerados, num_de_marco-get_elem?, set-Numerados}
use so_2c_2023_no_me_queme.Memoria.Paginas.{Esta}
use so_2c_2023_no_me_queme.Memoria.Usuario.{obtener_proceso_pid}
use so_2c_2023_no_me_queme.Memoria.Fallo.{poner_marco, liberar_presencia_pagina}

-- The frames and the heap of entries, where `duenio` tells the pid that each entry belongs to:
-- every frame knows its index; a present page has a frame, which bears its owner's pid; and two
-- present pages are never in one frame.
pub record IsConsistente (duenio : ℕ → ℕ) (ms : List Marco) (h : ℕ → Option Entrada) : Type 0 where
  pub numerados : Numerados 0 ms
  pub ubicada :
      (a : ℕ) (e : Entrada)
      → h a ≡ some e
      → e.bit_presencia ≡ 1
      → (f : Marco) × (get_elem? ms e.marco ≡ some f) × (f.pid ≡ duenio a) × (f.pid ≢ libre)
  pub exclusiva :
      (a b : ℕ) (d e : Entrada)
      → h a ≡ some d
      → h b ≡ some e
      → d.bit_presencia ≡ 1
      → e.bit_presencia ≡ 1
      → d.marco ≡ e.marco
      → a ≡ b

-- No present page is in the frame.
abbrev pub Vacio : ℕ → (ℕ → Option Entrada) → Type 0
Vacio k h = (a : ℕ) (e : Entrada) → h a ≡ some e → e.bit_presencia ≡ 1 → e.marco ≢ k

-- A page leaves memory: the tables stay consistent, and its frame is empty.
pub liberar-IsConsistente :
    (duenio : ℕ → ℕ) (ms : List Marco) (h : ℕ → Option Entrada) (v : ℕ) (d : Entrada)
    → IsConsistente duenio ms h
    → h v ≡ some d
    → d.bit_presencia ≡ 1
    → IsConsistente duenio ms (liberar_presencia_pagina v h)
      × Vacio d.marco (liberar_presencia_pagina v h)
unfolding liberar_presencia_pagina
liberar-IsConsistente duenio ms h v d c hv p = (
  record {
    numerados = c.numerados;
    ubicada = λ a e ha pe. elim (Bool-cases (v == a)) [
      | inl si ↦ ground arith
      | inr no' ↦ c.ubicada a e (ground arith) pe
    ];
    exclusiva = λ a b x y ha hb px py q. elim (Bool-cases (v == a)) [
      | inl si ↦ ground arith
      | inr no' ↦ elim (Bool-cases (v == b)) [
        | inl si ↦ ground arith
        | inr no'' ↦ c.exclusiva a b x y (ground arith) (ground arith) px py q
      ]
    ];
  },
  λ a e ha pe q. elim (Bool-cases (v == a)) [
    | inl si ↦ ground arith
    | inr no' ↦ absurd (ground (arith, c.exclusiva a v e d (ground arith) hv pe p q))
  ],
)

-- An entry of a process takes an empty frame, and the frame takes the process's pid.
pub poner-IsConsistente :
    (duenio : ℕ → ℕ) (ms : List Marco) (h : ℕ → Option Entrada) (a k : ℕ) (f : Marco)
    → IsConsistente duenio ms h
    → Vacio k h
    → get_elem? ms k ≡ some f
    → duenio a ≢ libre
    → IsConsistente duenio (set ms k (record f { pid = duenio a })) (poner_marco a k h)
poner-IsConsistente duenio ms h a k f c vac hf ocupado = record {
  numerados = set-Numerados 0 ms k _ c.numerados (num_de_marco-get_elem? 0 ms k c.numerados hf);
  ubicada = λ b e hb pe. elim (Bool-cases (a == b)) [
    | inl si ↦ (
      record f { pid = duenio a },
      ground
          (arith, get_elem?-set_self ms k (record f { pid = duenio a }) (lt_of_get_elem? ms k hf)),
      ap duenio (ground arith),
      ocupado,
    )
    | inr no' ↦
        let (x, gx, px, lx) = c.ubicada b e (ground arith) pe in
        (
          x,
          ground (
            arith,
            get_elem?-set_ne ms k e.marco (record f { pid = duenio a })
                (λ q. vac b e (ground arith) pe (sym q)),
          ),
          px,
          lx,
        )
  ];
  exclusiva = λ b b' x y hb hb' px py q. elim (Bool-cases (a == b)) [
    | inl si ↦ elim (Bool-cases (a == b')) [
      | inl si' ↦ ground arith
      | inr no' ↦ absurd (vac b' y (ground arith) py (ground arith))
    ]
    | inr no' ↦ elim (Bool-cases (a == b')) [
      | inl si ↦ absurd (vac b x (ground arith) px (ground arith))
      | inr no'' ↦ c.exclusiva b b' x y (ground arith) (ground arith) px py q
    ]
  ];
}

-- The queue of the pages used, for FIFO: each is present, and none stands twice.
abbrev pub EnCola : (ℕ → Option Entrada) → List ℕ → Type 0
EnCola h [] = Unit
EnCola h (a ∷ l) = (presente h a ≡ true) × (¬ Esta a l) × EnCola h l

-- The state of memoria between two requests.
pub record IsMemoria (duenio : ℕ → ℕ) (m : Memoria) : Type 0 where
  pub consistente : IsConsistente duenio m.marcos m.entradas
  pub tablas :
      (pid : ℕ) (p : Proceso) (j a : ℕ)
      → obtener_proceso_pid pid m ≡ some p
      → get_elem? p.entradas_tabla j ≡ some a
      → (duenio a ≡ pid) × (pid ≢ libre) × ((e : Entrada) × (m.entradas a ≡ some e))
  pub vivos :
      (a : ℕ) (e : Entrada)
      → m.entradas a ≡ some e
      → e.bit_presencia ≡ 1
      → (p : Proceso) × (obtener_proceso_pid (duenio a) m ≡ some p)
  pub cola : m.algoritmo_pags ≡ fifo → EnCola m.entradas m.paginas_utilizadas
