-- ===== src/Memoria/Servidor/Parecido.antt =====
-- Changes of page-table entries that move no page: the bit of modification and the time of use.
use so_2c_2023_no_me_queme.Base.{
  ℕ, ◌≡◌, refl, ap, sym, ◌∙◌, Option, none, some, List, [], ◌∷◌, ◌++◌, arith, ◌==◌, if◌then◌else◌,
  Bool, true, false, inl, inr, ◌⊎◌, Option-cases, get_elem?,
}
use so_2c_2023_no_me_queme.Memoria.Estado.{Entrada, Marco, Memoria, mod_entrada, presente, fifo}
use so_2c_2023_no_me_queme.Memoria.Paginas.{Esta, mismo_id_bloque}
use so_2c_2023_no_me_queme.Memoria.Usuario.{obtener_proceso_pid}
use so_2c_2023_no_me_queme.Memoria.Fallo.Invariante.{IsConsistente, EnCola, IsMemoria}

-- Both are null, or both are entries with the same presence, frame and swap block.
abbrev pub Parejo : Option Entrada → Option Entrada → Type 0
Parejo none none = Unit
Parejo none (some e') = ⊥
Parejo (some e) none = ⊥
Parejo (some e) (some e') =
    (e'.bit_presencia ≡ e.bit_presencia)
    × (e'.marco ≡ e.marco)
    × (e'.id_bloque_swap ≡ e.id_bloque_swap)

abbrev pub IsParecido : (ℕ → Option Entrada) → (ℕ → Option Entrada) → Type 0
IsParecido h h' = (a : ℕ) → Parejo (h a) (h' a)

Parejo-refl : (o : Option Entrada) → Parejo o o
Parejo-refl none = tt
Parejo-refl (some e) = (refl, refl, refl)

Parejo-trans : (o p q : Option Entrada) → Parejo o p → Parejo p q → Parejo o q
Parejo-trans none none none x y = tt
Parejo-trans none none (some e) x y = y
Parejo-trans none (some e) q x y = absurd x
Parejo-trans (some e) none q x y = absurd x
Parejo-trans (some e) (some d) none x y = y
Parejo-trans (some e) (some d) (some c) (p, q, r) (p', q', r') = (p' ∙ p, q' ∙ q, r' ∙ r)

pub Parejo-presente :
    (o o' : Option Entrada) {e : Entrada}
    → Parejo o o'
    → o ≡ some e
    → (e' : Entrada) × (o' ≡ some e')
      × (e'.bit_presencia ≡ e.bit_presencia)
      × (e'.id_bloque_swap ≡ e.id_bloque_swap)
Parejo-presente none none p h = cc
Parejo-presente none (some d) p h = absurd p
Parejo-presente (some e) none p h = absurd p
Parejo-presente (some e) (some d) (p, q, r) h = (d, refl, cc, cc)

pub IsParecido-refl : (h : ℕ → Option Entrada) → IsParecido h h
IsParecido-refl h a = Parejo-refl (h a)

pub IsParecido-trans :
    (h i j : ℕ → Option Entrada) → IsParecido h i → IsParecido i j → IsParecido h j
IsParecido-trans h i j p q a = Parejo-trans (h a) (i a) (j a) (p a) (q a)

-- A write that keeps those three fields.
abbrev pub Neutra : (Entrada → Entrada) → Type 0
Neutra f =
    (e : Entrada)
    → ((f e).bit_presencia ≡ e.bit_presencia)
      × ((f e).marco ≡ e.marco)
      × ((f e).id_bloque_swap ≡ e.id_bloque_swap)

Parejo-Neutra :
    (f : Entrada → Entrada)
    → Neutra f
    → (b : Bool) (o : Option Entrada)
    → Parejo o (if b then elim o [ none ↦ none | some e ↦ some (f e) ] else o)
Parejo-Neutra f n true none = tt
Parejo-Neutra f n true (some e) = n e
Parejo-Neutra f n false o = Parejo-refl o

pub IsParecido-mod_entrada :
    (a : ℕ) (f : Entrada → Entrada) (h : ℕ → Option Entrada)
    → Neutra f
    → IsParecido h (mod_entrada a f h)
IsParecido-mod_entrada a f h n b = Parejo-Neutra f n (a == b) (h b)

-- The entry that was there before, and the one that is there after.
Parejo-antes :
    (o o' : Option Entrada) {e' : Entrada}
    → Parejo o o'
    → o' ≡ some e'
    → (e : Entrada) × (o ≡ some e) × (e'.bit_presencia ≡ e.bit_presencia) × (e'.marco ≡ e.marco)
Parejo-antes none none p h = cc
Parejo-antes none (some d) p h = absurd p
Parejo-antes (some e) none p h = absurd p
Parejo-antes (some e) (some d) (p, q, r) h = (e, refl, cc, cc)

Parejo-luego :
    (o o' : Option Entrada) {e : Entrada}
    → Parejo o o'
    → o ≡ some e
    → (e' : Entrada) × (o' ≡ some e')
Parejo-luego none none p h = cc
Parejo-luego none (some d) p h = absurd p
Parejo-luego (some e) none p h = absurd p
Parejo-luego (some e) (some d) p h = (d, refl)

IsParecido-IsConsistente :
    (duenio : ℕ → ℕ) (ms : List Marco) (h h' : ℕ → Option Entrada)
    → IsParecido h h'
    → IsConsistente duenio ms h
    → IsConsistente duenio ms h'
IsParecido-IsConsistente duenio ms h h' p c = record {
  numerados = c.numerados;
  ubicada = λ a e' ha pe.
      let (e, he, q, k) = Parejo-antes (h a) (h' a) (p a) ha in
      let (f, g, i, j) = c.ubicada a e he (sym q ∙ pe) in (f, ap (get_elem? ms) k ∙ g, i, j);
  exclusiva = λ a b x y ha hb px py m.
      let (d, hd, q, k) = Parejo-antes (h a) (h' a) (p a) ha in
      let (e, he, q', k') = Parejo-antes (h b) (h' b) (p b) hb in
      c.exclusiva a b d e hd he (sym q ∙ px) (sym q' ∙ py) (sym k ∙ m ∙ k');
}

presente-Parejo :
    (o o' : Option Entrada)
    → Parejo o o'
    → elim o [ none ↦ false | some e ↦ e.bit_presencia == 1 ]
      ≡ elim o' [ none ↦ false | some e ↦ e.bit_presencia == 1 ]
presente-Parejo none none p = refl
presente-Parejo none (some d) p = absurd p
presente-Parejo (some e) none p = absurd p
presente-Parejo (some e) (some d) (p, q, r) = ap (λ x. x == 1) (sym p)

pub IsParecido-EnCola :
    (h h' : ℕ → Option Entrada) (l : List ℕ) → IsParecido h h' → EnCola h l → EnCola h' l
IsParecido-EnCola h h' [] p c = tt
IsParecido-EnCola h h' (a ∷ l) p (pr, n, c) =
    (sym (presente-Parejo (h a) (h' a) (p a)) ∙ pr, n, IsParecido-EnCola h h' l p c)

-- The queue of the new state is known to be in order.
pub IsParecido-IsMemoria :
    (duenio : ℕ → ℕ) (m m' : Memoria)
    → IsParecido m.entradas m'.entradas
    → m'.marcos ≡ m.marcos
    → m'.procesos_totales ≡ m.procesos_totales
    → (m'.algoritmo_pags ≡ fifo → EnCola m'.entradas m'.paginas_utilizadas)
    → IsMemoria duenio m
    → IsMemoria duenio m'
unfolding obtener_proceso_pid
IsParecido-IsMemoria duenio m m' p ms ps cola c = record {
  consistente =
      rw ms (IsParecido-IsConsistente duenio m.marcos m.entradas m'.entradas p c.consistente);
  tablas = λ pid q j a hp ha.
      let (d, l, (e, he)) = c.tablas pid q j a (rw ps at hp) ha in
      (d, l, Parejo-luego (m.entradas a) (m'.entradas a) (p a) he);
  vivos = λ a e' ha pe.
      let (e, he, q, k) = Parejo-antes (m.entradas a) (m'.entradas a) (p a) ha in
      let (r, hr) = c.vivos a e he (sym q ∙ pe) in (r, rw ps hr);
  cola = cola;
}

-- A page in the queue has its block found there.
pub Esta-mismo_id_bloque :
    (h : ℕ → Option Entrada) (a : ℕ) (e : Entrada) (l : List ℕ)
    → h a ≡ some e
    → Esta a l
    → mismo_id_bloque h e.id_bloque_swap l ≡ true
unfolding mismo_id_bloque
Esta-mismo_id_bloque h a e [] k i = elim i [ ]
Esta-mismo_id_bloque h a e (b ∷ l) k (inl q) = ground (arith, k, q)
Esta-mismo_id_bloque h a e (b ∷ l) k (inr i) = elim (Option-cases (h b)) [
  | inl n ↦ ground (arith, n, Esta-mismo_id_bloque h a e l k i)
  | inr (x, n) ↦ ground (arith, n, Esta-mismo_id_bloque h a e l k i)
]

Esta-final : (a b : ℕ) (l : List ℕ) → Esta b (l ++ (a ∷ [])) → (b ≡ a) ⊎ Esta b l
Esta-final a b [] (inl e) = inl e
Esta-final a b [] (inr i) = absurd i
Esta-final a b (c ∷ l) (inl e) = inr (inl e)
Esta-final a b (c ∷ l) (inr i) = elim (Esta-final a b l i) [ inl e ↦ inl e | inr j ↦ inr (inr j) ]

pub EnCola-final :
    (h : ℕ → Option Entrada) (a : ℕ) (l : List ℕ)
    → EnCola h l
    → presente h a ≡ true
    → ¬ Esta a l
    → EnCola h (l ++ (a ∷ []))
EnCola-final h a [] c p n = (p, (λ i. elim i [ ]), tt)
EnCola-final h a (b ∷ l) (pb, nb, c) p n = (
  pb,
  (λ i. elim (Esta-final a b l i) [ inl e ↦ n (inl (sym e)) | inr j ↦ nb j ]),
  EnCola-final h a l c p (λ j. n (inr j)),
)

pub presente-some :
    (h : ℕ → Option Entrada) (a : ℕ) (e : Entrada)
    → h a ≡ some e
    → e.bit_presencia ≡ 1
    → presente h a ≡ true
presente-some h a e k p = ground (arith, k, p)

pub fuera_de_cola :
    (h : ℕ → Option Entrada) (a : ℕ) (e : Entrada) (id : ℕ) (l : List ℕ)
    → h a ≡ some e
    → e.id_bloque_swap ≡ id
    → mismo_id_bloque h id l ≡ false
    → ¬ Esta a l
fuera_de_cola h a e id l k q no' i = ground (arith, Esta-mismo_id_bloque h a e l k i, q, no')
