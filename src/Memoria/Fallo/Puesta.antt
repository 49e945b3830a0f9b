-- ===== src/Memoria/Fallo/Puesta.antt =====
-- A page that gets a frame, free or taken from another page.
use so_2c_2023_no_me_queme.Base.{
  ℕ, ◌+◌, ◌≡◌, ◌≢◌, refl, ap, Option, none, some, List, arith, get_elem?, set, ◌==◌, if◌then◌else◌,
  Bool, true, false, Bool-cases, inl, inr, ◌⊎◌, ==_iff, ◌∙◌,
}
use so_2c_2023_no_me_queme.Memoria.Estado.{
  libre, Entrada, Marco, Proceso, fifo, Memoria, mod_entrada,
}
use so_2c_2023_no_me_queme.Memoria.Marcos.{
  num_de_marco-get_elem?, asignar-Asignado, hay_marcos_libres,
}
use so_2c_2023_no_me_queme.Memoria.Paginas.{Esta, pagina_a_reemplazar}
use so_2c_2023_no_me_queme.Memoria.Usuario.{obtener_proceso_pid}
use so_2c_2023_no_me_queme.Memoria.Fallo.{
  Swap, liberar_presencia_pagina, poner_marco, ocupar_libre, pedido_escritura_swap, reemplazar,
}
use so_2c_2023_no_me_queme.Memoria.Fallo.Invariante.{
  IsConsistente, Vacio, liberar-IsConsistente, poner-IsConsistente, EnCola, IsMemoria,
}
use so_2c_2023_no_me_queme.Memoria.Fallo.Victima.{bit, EnCola-poner, EnCola-liberar}

-- What it means that a page got a frame.
pub record Puesta (duenio : ℕ → ℕ) (a k : ℕ) (e : Entrada) (m m' : Memoria) : Type 0 where
  pub consistente : IsConsistente duenio m'.marcos m'.entradas
  pub entrada : m'.entradas a ≡ some (record e { marco = k; bit_presencia = 1; bit_modificado = 0 })
  pub procesos : m'.procesos_totales ≡ m.procesos_totales
  pub usuario : m'.memoria_usuario ≡ m.memoria_usuario
  pub pagina : m'.tamanio_pagina ≡ m.tamanio_pagina
  pub algoritmo : m'.algoritmo_pags ≡ m.algoritmo_pags
  pub asignadas :
      (b : ℕ) (x : Entrada) → m.entradas b ≡ some x → (y : Entrada) × (m'.entradas b ≡ some y)
  pub quedan :
      (b : ℕ) (x : Entrada)
      → m'.entradas b ≡ some x
      → x.bit_presencia ≡ 1
      → (a ≡ b) ⊎ ((y : Entrada) × (m.entradas b ≡ some y) × (y.bit_presencia ≡ 1))
  pub cola : m.algoritmo_pags ≡ fifo → EnCola m'.entradas m'.paginas_utilizadas

libre-Vacio :
    (duenio : ℕ → ℕ) (ms : List Marco) (h : ℕ → Option Entrada) (k : ℕ) (f : Marco)
    → IsConsistente duenio ms h
    → get_elem? ms k ≡ some f
    → f.pid ≡ libre
    → Vacio k h
libre-Vacio duenio ms h k f c g l a e ha pe q =
    let (x, gx, px, nx) = c.ubicada a e ha pe in nx (ground arith)

mod_self :
    (a : ℕ) (f : Entrada → Entrada) (h : ℕ → Option Entrada) {e : Entrada}
    → h a ≡ some e
    → mod_entrada a f h a ≡ some (f e)
mod_self a f h p = rw ((==_iff a a).1 refl, p)

mod_asignada :
    (t : Bool) (f : Entrada → Entrada) (o : Option Entrada) {x : Entrada}
    → o ≡ some x
    → (y : Entrada) × ((if t then elim o [ none ↦ none | some e ↦ some (f e) ] else o) ≡ some y)
mod_asignada true f none p = absurd (ground arith)
mod_asignada true f (some e) p = (f e, refl)
mod_asignada false f o {x} p = (x, p)

IsConsistente-en :
    (duenio : ℕ → ℕ) (ms ms' : List Marco) (h : ℕ → Option Entrada) (a k p : ℕ) (f : Marco)
    → k ≡ 0 + p
    → ms' ≡ set ms p (record f { pid = duenio a })
    → IsConsistente duenio ms h
    → Vacio p h
    → get_elem? ms p ≡ some f
    → duenio a ≢ libre
    → IsConsistente duenio ms' (poner_marco a k h)
IsConsistente-en duenio ms ms' h a k p f ek em c v g nl =
    rw (em, let q : k ≡ p = omega (arith, ek) in q) (poner-IsConsistente duenio ms h a p f c v g nl)

pub ocupar-Puesta :
    (duenio : ℕ → ℕ) (m : Memoria) (a : ℕ) (e : Entrada)
    → IsMemoria duenio m
    → m.entradas a ≡ some e
    → duenio a ≢ libre
    → hay_marcos_libres m.marcos ≡ true
    → (k : ℕ) × (m' : Memoria) × (ocupar_libre (duenio a) a m ≡ some (k, m'))
      × Puesta duenio a k e m m'
unfolding ocupar_libre
ocupar-Puesta duenio m a e c ha nl hay =
    let (k, ms', eq, A) = asignar-Asignado (duenio a) 0 m.marcos c.consistente.numerados hay in
    let (f, gf, lf, sf) = A.estaba_libre in
    (
      k,
      record m { marcos = ms'; entradas = poner_marco a k m.entradas },
      rw eq,
      record {
        consistente =
            IsConsistente-en duenio m.marcos ms' m.entradas a k A.posicion f A.numero sf
              c.consistente
              (libre-Vacio duenio m.marcos m.entradas A.posicion f c.consistente gf lf) gf nl;
        entrada = mod_self a _ m.entradas ha;
        procesos = refl;
        usuario = refl;
        pagina = refl;
        algoritmo = refl;
        asignadas = λ b x p. mod_asignada (a == b) _ (m.entradas b) p;
        quedan = λ b x p q. elim (Bool-cases (a == b)) [
          | inl si ↦ inl ((==_iff a b).0 si)
          | inr no' ↦ inr (x, ground arith, q)
        ];
        cola = λ al. EnCola-poner m.entradas a k m.paginas_utilizadas (c.cola al);
      },
    )

pub presente_some :
    (o : Option Entrada) → bit o ≡ true → (e : Entrada) × (o ≡ some e) × (e.bit_presencia ≡ 1)
presente_some none h = absurd (ground arith)
presente_some (some e) h = (e, refl, ground arith)

module _ {S : Type 0} (sw : Swap S) (duenio : ℕ → ℕ) (m : Memoria) (s : S) (a : ℕ)
    (e : Entrada) where
  pub con_victima :
      (v : ℕ) (d : Entrada) (f : Marco) (p : Proceso) (l : List ℕ)
      → IsConsistente duenio m.marcos m.entradas
      → m.entradas v ≡ some d
      → d.bit_presencia ≡ 1
      → get_elem? m.marcos d.marco ≡ some f
      → obtener_proceso_pid f.pid (record m { paginas_utilizadas = l }) ≡ some p
      → pagina_a_reemplazar m ≡ some (v, record m { paginas_utilizadas = l })
      → m.entradas a ≡ some e
      → duenio a ≢ libre
      → (m.algoritmo_pags ≡ fifo → EnCola m.entradas l × (¬ Esta v l))
      → (m' : Memoria) × (reemplazar sw (duenio a) a m s
          ≡ some (d.marco, m', pedido_escritura_swap sw d (record m { paginas_utilizadas = l }) s))
        × Puesta duenio a d.marco e m m'
  unfolding reemplazar liberar_presencia_pagina
  con_victima v d f p l c hd pd gf hp hv ha nl cl =
      let num : f.num_de_marco ≡ d.marco =
        num_de_marco-get_elem? 0 m.marcos d.marco c.numerados gf ∙ omega arith in
      let (c', vac) = liberar-IsConsistente duenio m.marcos m.entradas v d c hd pd in
      (
        record m {
          paginas_utilizadas = l;
          marcos = set m.marcos d.marco (record f { pid = duenio a });
          entradas = poner_marco a f.num_de_marco (liberar_presencia_pagina v m.entradas);
        },
        simp (hv, hd, gf, hp),
        record {
          consistente =
              IsConsistente-en duenio m.marcos _ (liberar_presencia_pagina v m.entradas) a
                f.num_de_marco d.marco f (omega (arith, num)) refl c' vac gf nl;
          entrada = elim (Bool-cases (v == a)) [
            | inl si ↦
                mod_self a
                  (λ x. record x { marco = f.num_de_marco; bit_presencia = 1; bit_modificado = 0 })
                  (liberar_presencia_pagina v m.entradas)
                  {e = record e { marco = libre; bit_presencia = 0; bit_modificado = 0 }}
                  (rw (si, ha))
                ∙ ap (λ k. some (record e { marco = k; bit_presencia = 1; bit_modificado = 0 })) num
            | inr no' ↦
                mod_self a
                  (λ x. record x { marco = f.num_de_marco; bit_presencia = 1; bit_modificado = 0 })
                  (liberar_presencia_pagina v m.entradas) {e = e} (rw (no', ha))
                ∙ ap (λ k. some (record e { marco = k; bit_presencia = 1; bit_modificado = 0 })) num
          ];
          procesos = refl;
          usuario = refl;
          pagina = refl;
          algoritmo = refl;
          asignadas = λ b x q.
              mod_asignada (a == b) _ (liberar_presencia_pagina v m.entradas b)
                (mod_asignada (v == b) _ (m.entradas b) q).1;
          quedan = λ b x q q'. elim (Bool-cases (a == b)) [
            | inl si ↦ inl ((==_iff a b).0 si)
            | inr no' ↦ elim (Bool-cases (v == b)) [
              | inl si ↦ absurd (ground arith)
              | inr no'' ↦ inr (x, ground arith, q')
            ]
          ];
          cola = λ al.
              EnCola-poner _ a f.num_de_marco l (EnCola-liberar m.entradas v l (cl al).1 (cl al).0);
        },
      )
