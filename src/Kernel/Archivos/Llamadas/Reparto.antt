-- ===== src/Kernel/Archivos/Llamadas/Reparto.antt =====
-- kernel/src/instructions.c: the loop of `kf_close` over the processes that wait for the file.
use so_2c_2023_no_me_queme.Base.{
  ℕ, suc, ◌+◌, ◌%◌, append-nil, ◌<◌, ◌≡◌, refl, ap, sym, ◌∙◌, Option, none, some, List, [], ◌∷◌,
  ◌++◌, arith, length, ◌==◌, if◌then◌else◌, Bool, true, false, Bool-cases, inl, inr,
}
use mathlib.Core.Path.{subst}
use so_2c_2023_no_me_queme.Base.Opt.{◌>>=◌}
use so_2c_2023_no_me_queme.Shared.Cadena.{strcmp_eq}
use so_2c_2023_no_me_queme.Kernel.Estado.{Kernel, ArchivoGlobal, set_pcb_ready}
use so_2c_2023_no_me_queme.Kernel.Archivos.{
  letra_w, uint32, buscar_archivo_global, crear_archivo_proceso, sumar_contador_archivo_global,
  open_file,
}
use so_2c_2023_no_me_queme.Kernel.Archivos.Llamadas.{
  lock_pedido, abierto_o_creado, entregar_archivo, desbloquear,
}
use so_2c_2023_no_me_queme.Kernel.Archivos.Llamadas.Cierre.{
  Entrega, Entrega-trans, set_pcb_ready-Entrega, crear_archivo_proceso-Entrega,
  sumar_contador-final, open_file_vacia,
}

abbrev pub pide_w : Option ℕ → Bool
pide_w none = false
pide_w (some l) = l == letra_w

-- Those of a queue that ask to read, and those that ask to write.
abbrev pub lectores : (ℕ → Option ℕ) → List ℕ → List ℕ
lectores q [] = []
lectores q (d ∷ cola) = if pide_w (q d) then lectores q cola else d ∷ lectores q cola

abbrev pub escritores : (ℕ → Option ℕ) → List ℕ → List ℕ
escritores q [] = []
escritores q (d ∷ cola) = if pide_w (q d) then d ∷ escritores q cola else escritores q cola

-- Each process of the queue has an F_OPEN with a lock.
abbrev pub Piden : (ℕ → Option ℕ) → List ℕ → Type 0
Piden q [] = Unit {0}
Piden q (d ∷ cola) = ((l : ℕ) × (q d ≡ some l)) × Piden q cola

abbrev pub con_contador : ℕ → ArchivoGlobal → ArchivoGlobal
con_contador c e = record e { contador = c }

module _ (n : List ℕ) (base : List ArchivoGlobal) (libre : buscar_archivo_global base n ≡ none)
    (e : ArchivoGlobal) (nombre : strcmp_eq e.nombre_archivo n ≡ true) (ct : ℕ)
    (q : ℕ → Option ℕ) where
  -- The table ends in the entry with that count, and nothing is in the other list of files.
  abbrev pub Mesa : ℕ → Kernel → Type 0
  Mesa c k =
      (k.lista_archivos_abiertos ≡ base ++ (con_contador c e ∷ []))
      × (k.lista_global_archivos ≡ [])
      × ((x : ℕ) → lock_pedido x k ≡ q x)

  abbrev tras_lector : ℕ → ℕ → Kernel → Kernel
  tras_lector c d k = set_pcb_ready d (record (crear_archivo_proceso n d k) {
    lista_archivos_abiertos = base ++ (con_contador ((c + 1) % uint32) e ∷ []);
  })

  entregar-lector :
      (c lock d : ℕ) (k : Kernel)
      → Mesa c k
      → entregar_archivo n ct lock false d k ≡ some (tras_lector c d k)
  unfolding entregar_archivo crear_archivo_proceso
  entregar-lector c lock d k (t, g, p) =
      let k1 = crear_archivo_proceso n d k in
      let cerrado : abierto_o_creado (open_file n lock k1) k1 ≡ k1 =
        ap (λ o. abierto_o_creado o k1) (open_file_vacia n lock k1 g) in
      ap (λ k2. sumar_contador_archivo_global n k2 >>= λ k3. some (set_pcb_ready d k3)) cerrado
      ∙ ap (λ (o : Option Kernel). o >>= λ k3. some (set_pcb_ready d k3))
          (sumar_contador-final n (con_contador c e) nombre base k1 libre t)

  tras_lector-Entrega : (c d : ℕ) (k : Kernel) → Entrega k (tras_lector c d k) (d ∷ [])
  unfolding crear_archivo_proceso lock_pedido
  tras_lector-Entrega c d k =
      let k1 = crear_archivo_proceso n d k in
      let k2 = record k1 {
        lista_archivos_abiertos = base ++ (con_contador ((c + 1) % uint32) e ∷ []);
      } in
      let a = crear_archivo_proceso-Entrega n d k in
      let a' : Entrega k k2 [] = record {
        en_ready = a.en_ready;
        en_block = a.en_block;
        globales = a.globales;
        piden = a.piden;
      } in
      Entrega-trans k k2 (tras_lector c d k) [] (d ∷ []) a' (set_pcb_ready-Entrega d k2)

  tras_lector-Mesa : (c d : ℕ) (k : Kernel) → Mesa c k → Mesa ((c + 1) % uint32) (tras_lector c d k)
  unfolding set_pcb_ready
  tras_lector-Mesa c d k (t, g, p) =
      let a = tras_lector-Entrega c d k in (refl, a.globales ∙ g, λ x. a.piden x ∙ p x)

  -- What the loop does once the file has an entry again.
  abbrev pub Lee : ℕ → List ℕ → Kernel → Type 0
  Lee c cola k =
      (k' : Kernel) × (desbloquear n ct false cola k ≡ some (escritores q cola, k'))
      × Entrega k k' (lectores q cola)
      × Mesa ((c + length (lectores q cola)) % uint32) k'

  quieta : (k : Kernel) → Entrega k k []
  quieta k = record {
    en_ready = sym (append-nil k.lista_ready);
    en_block = refl;
    globales = refl;
    piden = λ x. refl;
  }

  cuenta : (c c' : ℕ) (k : Kernel) → c ≡ c' → Mesa c k → Mesa c' k
  cuenta c c' k igual mesa = subst (λ x. Mesa x k) igual mesa

  vuelta : (c m : ℕ) → ((c + 1) % uint32 + m) % uint32 ≡ (c + suc m) % uint32
  vuelta c m = omega arith

  pub desbloquear-lectores :
      (cola : List ℕ) (c : ℕ) (k : Kernel) → Mesa c k → c < uint32 → Piden q cola → Lee c cola k
  unfolding desbloquear
  desbloquear-lectores [] c k mesa h ps =
      (k, refl, quieta k, cuenta c ((c + 0) % uint32) k (omega arith) mesa)
  desbloquear-lectores (d ∷ cola) c k (t, g, p) h ((l, el), ps) = elim (Bool-cases (l == letra_w)) [
    | inl si ↦
        let pd = p d ∙ el in
        let (k', r, a, m) = desbloquear-lectores cola c k (t, g, p) h ps in
        simp (pd, el, si) (k', ap (λ o. o >>= λ r'. some (d ∷ r'.0, r'.1)) r, a, m)
    | inr no' ↦
        let pd = p d ∙ el in
        let k1 = tras_lector c d k in
        let (k', r, a, m) =
          desbloquear-lectores cola ((c + 1) % uint32) k1 (tras_lector-Mesa c d k (t, g, p))
            (omega arith) ps in
        simp (pd, el, no')
          (
            k',
            ap (λ o. o >>= λ k2. desbloquear n ct false cola k2) (entregar-lector c l d k (t, g, p))
                ∙ r,
            Entrega-trans k k1 k' (d ∷ []) (lectores q cola) (tras_lector-Entrega c d k) a,
            cuenta _ ((c + suc (length (lectores q cola))) % uint32) k'
                (vuelta c (length (lectores q cola))) m,
          )
  ]
