-- ===== src/Shared/Lista.antt =====
-- shared/src/shared_utils.c: packets that carry a list, of values with their sizes
-- (`agregar_a_paquete`, `recibir_paquete`) or of swap block ids.
use so_2c_2023_no_me_queme.Base.{
  ℕ, zero, suc, ◌+◌, ◌*◌, ◌≤◌, ◌<◌, ◌≡◌, refl, Option, none, some, List, [], ◌∷◌, ◌++◌, arith,
  length, append_assoc, append-nil, ◌∙◌, sym, length-append,
}
use so_2c_2023_no_me_queme.Base.Opt.{◌>>=◌}
use so_2c_2023_no_me_queme.Shared.Bytes.{
  int_max, bytes_int, leer_int, leer_bytes, leer_int-bytes_int, leer_bytes-append,
}
use so_2c_2023_no_me_queme.Shared.Paquete.{Paquete}

unfoldable pub agregar_a_paquete : Paquete → List ℕ → ℕ → Paquete
agregar_a_paquete p valor tamanio = record p {
  buffer = record {
    size = p.buffer.size + (tamanio + 4);
    stream = p.buffer.stream ++ (bytes_int tamanio ++ valor);
  };
}

-- A sender's loop of `agregar_a_paquete`.
pub agregar_todos : Paquete → List (List ℕ) → Paquete
agregar_todos p [] = p
agregar_todos p (v ∷ vs) = agregar_todos (agregar_a_paquete p v (length v)) vs

-- The loop of `recibir_paquete`, with fuel for its rounds.
recibir_valores : ℕ → List ℕ → Option (List (List ℕ))
recibir_valores fuel [] = some []
recibir_valores zero (b ∷ bs) = none
recibir_valores (suc fuel) (b ∷ bs) = do
  (tamanio, r) ← leer_int (b ∷ bs)
  (valor, r') ← leer_bytes tamanio r
  valores ← recibir_valores fuel r'
  some (valor ∷ valores)

-- Every round takes at least four bytes, so the length of the buffer is enough fuel.
pub recibir_paquete : List ℕ → Option (List (List ℕ))
unfolding recibir_valores
recibir_paquete buffer = recibir_valores (length buffer) buffer

abbrev pub Cortos : List (List ℕ) → Type 0
Cortos [] = Unit
Cortos (v ∷ vs) = (length v < int_max) × Cortos vs

codificar : List (List ℕ) → List ℕ
codificar [] = []
codificar (v ∷ vs) = bytes_int (length v) ++ (v ++ codificar vs)

stream-agregar_todos :
    (p : Paquete) (vs : List (List ℕ))
    → (agregar_todos p vs).buffer.stream ≡ p.buffer.stream ++ codificar vs
unfolding agregar_todos agregar_a_paquete codificar
stream-agregar_todos p [] = sym (append-nil p.buffer.stream)
stream-agregar_todos p (v ∷ vs) =
    stream-agregar_todos (agregar_a_paquete p v (length v)) vs ∙ simp append_assoc

length-codificar : (vs : List (List ℕ)) → length vs ≤ length (codificar vs)
unfolding codificar bytes_int
length-codificar [] = omega arith
length-codificar (v ∷ vs) = omega (arith, length-append v (codificar vs), length-codificar vs)

recibir_valores-suc :
    (fuel : ℕ) (n : ℕ) (r : List ℕ)
    → recibir_valores (suc fuel) (bytes_int n ++ r) ≡ (do
      (tamanio, s) ← leer_int (bytes_int n ++ r)
      (valor, s') ← leer_bytes tamanio s
      valores ← recibir_valores fuel s'
      some (valor ∷ valores))
unfolding recibir_valores bytes_int
recibir_valores-suc fuel n r = refl

recibir_valores-codificar :
    (fuel : ℕ) (vs : List (List ℕ))
    → length vs ≤ fuel
    → Cortos vs
    → recibir_valores fuel (codificar vs) ≡ some vs
unfolding codificar
recibir_valores-codificar zero [] h c = unfold recibir_valores in refl
recibir_valores-codificar (suc fuel) [] h c = unfold recibir_valores in refl
recibir_valores-codificar zero (v ∷ vs) h c = absurd (omega arith)
recibir_valores-codificar (suc fuel) (v ∷ vs) h c =
    rw (recibir_valores-suc fuel (length v) (v ++ codificar vs)) (
      simp (
        leer_int-bytes_int (length v) (v ++ codificar vs) c.0,
        leer_bytes-append v (codificar vs) (length v) refl,
        recibir_valores-codificar fuel vs (omega arith) c.1,
      ))

-- The values that are added to an empty packet are received in order, each with its bytes.
pub recibir_paquete-agregar_todos :
    (p : Paquete) (vs : List (List ℕ))
    → p.buffer.stream ≡ []
    → Cortos vs
    → recibir_paquete (agregar_todos p vs).buffer.stream ≡ some vs
unfolding recibir_paquete
recibir_paquete-agregar_todos p vs e c =
    rw (stream-agregar_todos p vs, e)
      (recibir_valores-codificar (length (codificar vs)) vs (length-codificar vs) c)

-- Adding values keeps the packet well formed as long as its size fits in an `int`.
pub agregar_a_paquete-size :
    (p : Paquete) (v : List ℕ)
    → length p.buffer.stream ≡ p.buffer.size
    → length (agregar_a_paquete p v (length v)).buffer.stream
      ≡ (agregar_a_paquete p v (length v)).buffer.size
unfolding agregar_a_paquete bytes_int
agregar_a_paquete-size p v h = omega (
  arith,
  length-append p.buffer.stream (bytes_int (length v) ++ v),
  length-append (bytes_int (length v)) v,
)

-- `serializar_lista_swap`: the ids of a list of swap blocks, one `int` each, behind what the
-- packet already holds.
pub serializar_lista_swap : List ℕ → Paquete → Paquete
serializar_lista_swap [] p = p
serializar_lista_swap (id_bloque ∷ bloques) p = serializar_lista_swap bloques (record p {
  buffer = record { size = p.buffer.size + 4; stream = p.buffer.stream ++ bytes_int id_bloque };
})

leer_ids : ℕ → List ℕ → Option (List ℕ)
leer_ids fuel [] = some []
leer_ids zero (b ∷ bs) = none
leer_ids (suc fuel) (b ∷ bs) = do
  (bloque_swap, r) ← leer_int (b ∷ bs)
  lista ← leer_ids fuel r
  some (bloque_swap ∷ lista)

pub recibir_listado_id_bloques : List ℕ → Option (List ℕ)
unfolding leer_ids
recibir_listado_id_bloques buffer = leer_ids (length buffer) buffer

abbrev pub AllInt : List ℕ → Type 0
AllInt [] = Unit
AllInt (n ∷ ns) = (n < int_max) × AllInt ns

codificar_ids : List ℕ → List ℕ
codificar_ids [] = []
codificar_ids (n ∷ ns) = bytes_int n ++ codificar_ids ns

stream-serializar_lista_swap :
    (ns : List ℕ) (p : Paquete)
    → (serializar_lista_swap ns p).buffer.stream ≡ p.buffer.stream ++ codificar_ids ns
unfolding serializar_lista_swap codificar_ids
stream-serializar_lista_swap [] p = sym (append-nil p.buffer.stream)
stream-serializar_lista_swap (n ∷ ns) p =
    stream-serializar_lista_swap ns _
    ∙ append_assoc p.buffer.stream (bytes_int n) (codificar_ids ns)

size-serializar_lista_swap :
    (ns : List ℕ) (p : Paquete)
    → (serializar_lista_swap ns p).buffer.size ≡ p.buffer.size + 4 * length ns
unfolding serializar_lista_swap
size-serializar_lista_swap [] p = omega arith
size-serializar_lista_swap (n ∷ ns) p = size-serializar_lista_swap ns _ ∙ omega arith

leer_ids-suc :
    (fuel n : ℕ) (r : List ℕ)
    → leer_ids (suc fuel) (bytes_int n ++ r) ≡ (do
      (bloque_swap, s) ← leer_int (bytes_int n ++ r)
      lista ← leer_ids fuel s
      some (bloque_swap ∷ lista))
unfolding leer_ids bytes_int
leer_ids-suc fuel n r = refl

length-codificar_ids : (ns : List ℕ) → length (codificar_ids ns) ≡ 4 * length ns
unfolding codificar_ids bytes_int
length-codificar_ids [] = omega arith
length-codificar_ids (n ∷ ns) = omega (arith, length-codificar_ids ns)

leer_ids-codificar_ids :
    (fuel : ℕ) (ns : List ℕ)
    → length ns ≤ fuel
    → AllInt ns
    → leer_ids fuel (codificar_ids ns) ≡ some ns
unfolding codificar_ids
leer_ids-codificar_ids zero [] h c = unfold leer_ids in refl
leer_ids-codificar_ids (suc fuel) [] h c = unfold leer_ids in refl
leer_ids-codificar_ids zero (n ∷ ns) h c = absurd (omega arith)
leer_ids-codificar_ids (suc fuel) (n ∷ ns) h c = rw (leer_ids-suc fuel n (codificar_ids ns)) (
    simp (
      leer_int-bytes_int n (codificar_ids ns) c.0,
      leer_ids-codificar_ids fuel ns (omega arith) c.1,
    ))

-- A list of swap block ids put into an empty packet is read back as it was, and the packet's size
-- is four bytes for each id.
pub recibir_listado-serializar_lista_swap :
    (ns : List ℕ) (p : Paquete)
    → p.buffer ≡ record { size = 0; stream = [] }
    → AllInt ns
    → (recibir_listado_id_bloques (serializar_lista_swap ns p).buffer.stream ≡ some ns)
      × ((serializar_lista_swap ns p).buffer.size ≡ 4 * length ns)
unfolding recibir_listado_id_bloques
recibir_listado-serializar_lista_swap ns p e c = (
  rw (stream-serializar_lista_swap ns p, e)
      (leer_ids-codificar_ids (length (codificar_ids ns)) ns
        (omega (arith, length-codificar_ids ns)) c),
  rw (size-serializar_lista_swap ns p, e) (omega arith),
)
