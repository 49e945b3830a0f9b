-- ===== src/Kernel/Archivos/Llamadas/Ultimo.antt =====
-- kernel/src/instructions.c: `kf_close` by the last holder of a file for which processes wait.
use so_2c_2023_no_me_queme.Base.{
  ℕ, ◌+◌, ◌%◌, ◌≡◌, refl, ap, sym, ◌∙◌, Option, none, some, List, [], ◌∷◌, ◌++◌, arith, length,
  append-nil, ◌==◌, true, false, ◌&&◌, Bool-cases, inl, inr, ◌⊎◌, bytes_eq, bytes_eq_refl,
}
use so_2c_2023_no_me_queme.Base.Opt.{◌>>=◌, some->>=}
use so_2c_2023_no_me_queme.Shared.Cadena.{cadena, strcmp_eq}
use so_2c_2023_no_me_queme.Shared.Instruccion.{Instruccion}
use so_2c_2023_no_me_queme.Kernel.Estado.{
  Kernel, Pcb, ArchivoGlobal, ArchivoProceso, buscar_pcb, en_pcb, set_pcb_ready, continuar,
}
use so_2c_2023_no_me_queme.Kernel.Archivos.{
  letra_n, letra_r, letra_w, uint32, restar_uno, buscar_archivo_global, sin_archivo,
  buscar_archivo_proceso, sin_archivo_proceso, crear_archivo_proceso,
  crear_archivo_global_con_contador, open_file,
}
use so_2c_2023_no_me_queme.Kernel.Archivos.Llamadas.{
  instruccion_de, lock_pedido, abierto_o_creado, soltar_lock, entregar_archivo, desbloquear,
  reponer, repartir, es_some, kf_close,
}
use so_2c_2023_no_me_queme.Kernel.Archivos.Llamadas.Cierre.{
  Entrega, Entrega-trans, set_pcb_ready-Entrega, crear_archivo_proceso-Entrega, open_file_vacia,
  lock_pedido-en_pcb,
}
use so_2c_2023_no_me_queme.Kernel.Archivos.Llamadas.Reparto.{
  lectores, escritores, Piden, con_contador, Mesa, desbloquear-lectores,
}

cadena-cadena : (s : List ℕ) → cadena (cadena s) ≡ cadena s
unfolding cadena
cadena-cadena [] = refl
cadena-cadena (c ∷ cs) = elim (Bool-cases (c == 0)) [
  | inl si ↦ simp si refl
  | inr no' ↦ simp (no', no') (ap (◌∷◌ c) (cadena-cadena cs))
]

-- The entry of a file that was given to processes that waited.
abbrev pub entrada_nueva : List ℕ → ℕ → ArchivoGlobal
entrada_nueva n lock = record {
  nombre_archivo = cadena n;
  lock = lock;
  contador = 1;
  colabloqueado = [];
}

-- The old entry, where those that go on waiting are; there is none when no one does.
abbrev pub entrada_vieja : ArchivoGlobal → List ℕ → List ArchivoGlobal
entrada_vieja a [] = []
entrada_vieja a (w ∷ ws) = record a { lock = letra_w; contador = 0; colabloqueado = w ∷ ws } ∷ []

abbrev suelto : ArchivoGlobal → ArchivoGlobal
suelto a = record a { lock = letra_n; contador = 0 }

-- The process that closes is the last that holds the file.
abbrev pub IsUltimo : ArchivoGlobal → Type 0
IsUltimo a = (a.lock ≡ letra_w) ⊎ ((a.lock ≡ letra_r) × (a.contador ≡ 1))

soltar_lock-IsUltimo : (a : ArchivoGlobal) → IsUltimo a → soltar_lock true a ≡ suelto a
unfolding soltar_lock restar_uno
soltar_lock-IsUltimo a (inl w) = simp w refl
soltar_lock-IsUltimo a (inr (r, c)) = simp (r, c) refl

module _ (n : List ℕ) (base : List ArchivoGlobal) (libre : buscar_archivo_global base n ≡ none)
    (q : ℕ → Option ℕ) (lock : ℕ) where
  abbrev tras_primero : ℕ → Kernel → Kernel
  tras_primero d k = set_pcb_ready d (record (crear_archivo_proceso n d k) {
    lista_archivos_abiertos = k.lista_archivos_abiertos ++ (entrada_nueva n lock ∷ []);
  })

  entregar-primero :
      (d : ℕ) (k : Kernel)
      → k.lista_global_archivos ≡ []
      → entregar_archivo n 0 lock true d k ≡ some (tras_primero d k)
  unfolding entregar_archivo crear_archivo_proceso crear_archivo_global_con_contador
  entregar-primero d k g =
      let k1 = crear_archivo_proceso n d k in
      let cerrado : abierto_o_creado (open_file n lock k1) k1 ≡ k1 =
        ap (λ o. abierto_o_creado o k1) (open_file_vacia n lock k1 g) in
      ap (λ k2. some (set_pcb_ready d (crear_archivo_global_con_contador n lock 1 k2))) cerrado

  tras_primero-Entrega : (d : ℕ) (k : Kernel) → Entrega k (tras_primero d k) (d ∷ [])
  unfolding crear_archivo_proceso lock_pedido
  tras_primero-Entrega d k =
      let k1 = crear_archivo_proceso n d k in
      let k2 = record k1 {
        lista_archivos_abiertos = k.lista_archivos_abiertos ++ (entrada_nueva n lock ∷ []);
      } in
      let a = crear_archivo_proceso-Entrega n d k in
      let a' : Entrega k k2 [] = record {
        en_ready = a.en_ready;
        en_block = a.en_block;
        globales = a.globales;
        piden = a.piden;
      } in
      Entrega-trans k k2 (tras_primero d k) [] (d ∷ []) a' (set_pcb_ready-Entrega d k2)

  abbrev Reparte : ℕ → List ℕ → Kernel → Type 0
  Reparte d cola k =
      (k' : Kernel) × (desbloquear n 0 true (d ∷ cola) k ≡ some (escritores q cola, k'))
      × Entrega k k' (d ∷ lectores q cola)
      × (k'.lista_archivos_abiertos
          ≡ base
            ++ (con_contador ((1 + length (lectores q cola)) % uint32) (entrada_nueva n lock) ∷ []))

  desbloquear-primero :
      (d : ℕ) (cola : List ℕ) (k : Kernel)
      → k.lista_archivos_abiertos ≡ base
      → k.lista_global_archivos ≡ []
      → ((x : ℕ) → lock_pedido x k ≡ q x)
      → q d ≡ some lock
      → Piden q cola
      → Reparte d cola k
  unfolding desbloquear set_pcb_ready
  desbloquear-primero d cola k t g p l ps =
      let k1 = tras_primero d k in
      let a1 = tras_primero-Entrega d k in
      let nombre : strcmp_eq (cadena n) n ≡ true =
        ap (λ c. bytes_eq c (cadena n)) (cadena-cadena n) ∙ bytes_eq_refl (cadena n) in
      let mesa : Mesa n base libre (entrada_nueva n lock) nombre 0 q 1 k1 =
        (ap (λ b. b ++ (entrada_nueva n lock ∷ [])) t, a1.globales ∙ g, λ x. a1.piden x ∙ p x) in
      let (k', r, a, m) =
        desbloquear-lectores n base libre (entrada_nueva n lock) nombre 0 q cola 1 k1 mesa
          (omega arith) ps in
      let pd = p d ∙ l in
      let nunca : ((lock == letra_w) && false) ≡ false = ground arith in
      simp (pd, nunca)
        (
          k',
          ap (λ o. o >>= λ k2. desbloquear n 0 false cola k2) (entregar-primero d k g) ∙ r,
          Entrega-trans k k1 k' (d ∷ []) (lectores q cola) a1 a,
          m.0,
        )

reponer-tabla :
    (a : ArchivoGlobal) (cola : List ℕ) (k : Kernel)
    → (reponer (suelto a) cola k).lista_archivos_abiertos
      ≡ k.lista_archivos_abiertos ++ entrada_vieja a cola
unfolding reponer
reponer-tabla a [] k = sym (append-nil k.lista_archivos_abiertos)
reponer-tabla a (w ∷ ws) k = refl

reponer-ready :
    (a : ArchivoGlobal) (cola : List ℕ) (k : Kernel)
    → ((reponer a cola k).lista_ready ≡ k.lista_ready)
      × ((reponer a cola k).cola_block ≡ k.cola_block)
unfolding reponer
reponer-ready a [] k = (refl, refl)
reponer-ready a (w ∷ ws) k = (refl, refl)

repartir-suelto :
    (n : List ℕ) (a : ArchivoGlobal) (d : ℕ) (cola espera : List ℕ) (k k' : Kernel)
    → a.colabloqueado ≡ d ∷ cola
    → desbloquear n 0 true (d ∷ cola) k ≡ some (espera, k')
    → repartir n (suelto a) k ≡ some (reponer (suelto a) espera k')
unfolding repartir
repartir-suelto n a d cola espera k k' c r = simp (c, r) refl

-- What `kf_close` leaves when it is over.
abbrev pub Repartido : List ℕ → ArchivoGlobal → ℕ → List ℕ → ℕ → Kernel → Kernel → Type 0
Repartido n a d cola lock k k' =
    let q : ℕ → Option ℕ = λ x. lock_pedido x k in
    (k'.lista_ready ≡ k.lista_ready ++ (d ∷ lectores q cola))
    × (k'.cola_block ≡ k.cola_block)
    × (k'.lista_archivos_abiertos
        ≡ (sin_archivo k.lista_archivos_abiertos n
            ++ (con_contador ((1 + length (lectores q cola)) % uint32) (entrada_nueva n lock) ∷ []))
          ++ entrada_vieja a (escritores q cola))

-- The last holder of a file closes it while processes wait for it: the first of them and every
-- later one that asks to read get ready, in the order in which they waited, and the file has a new
-- entry with the lock of the first and a count of all of them; the later ones that ask to write go
-- on waiting, in order, in the old entry, which is behind the new one and has a lock to write. None
-- of those that got ready leaves the queue of blocked processes. The conditions: the file has one
-- entry, the list `lista_global_archivos` is empty, and each that waits has an F_OPEN with a lock.
pub kf_close_lem :
    (k : Kernel) (i : Instruccion) (pid : ℕ) (p : Pcb) (a : ArchivoGlobal) (ap' : ArchivoProceso)
    (d : ℕ) (cola : List ℕ) (lock : ℕ)
    → instruccion_de k.pcbelegido k ≡ some i
    → k.proceso_en_ejecucion ≡ some pid
    → buscar_pcb pid k.lista_global ≡ some p
    → buscar_archivo_global k.lista_archivos_abiertos i.parametro1 ≡ some a
    → buscar_archivo_proceso p.archivos_abiertos i.parametro1 ≡ some ap'
    → IsUltimo a
    → a.colabloqueado ≡ d ∷ cola
    → buscar_archivo_global (sin_archivo k.lista_archivos_abiertos i.parametro1) i.parametro1 ≡ none
    → k.lista_global_archivos ≡ []
    → lock_pedido d k ≡ some lock
    → Piden (λ x. lock_pedido x k) cola
    → (k' : Kernel) × (kf_close k ≡ some k') × Repartido i.parametro1 a d cola lock k k'
unfolding kf_close lock_pedido
kf_close_lem k i pid p a ap' d cola lock ei epid ep ea eap u c libre g l ps =
    let n = i.parametro1 in
    let base = sin_archivo k.lista_archivos_abiertos n in
    let q : ℕ → Option ℕ = λ x. lock_pedido x k in
    let f : Pcb → Pcb =
      λ r. record r { archivos_abiertos = sin_archivo_proceso r.archivos_abiertos n } in
    let k0 = en_pcb pid f (record k { lista_archivos_abiertos = base }) in
    let (k1, r, en, t) =
      desbloquear-primero n base libre q lock d cola k0 refl g
        (λ x.
          lock_pedido-en_pcb x pid f (record k { lista_archivos_abiertos = base }) (λ _. refl)
            (λ _. refl) (λ _. refl))
        l ps in
    let k2 = reponer (suelto a) (escritores q cola) k1 in
    let (rr, rb) = reponer-ready (suelto a) (escritores q cola) k1 in
    let s : soltar_lock true a ≡ suelto a = soltar_lock-IsUltimo a u in
    let fin = repartir-suelto n a d cola (escritores q cola) k0 k1 c r in
    let seguir : Kernel → Option Kernel = λ x. some (continuar x) in
    (
      continuar k2,
      some->>= (instruccion_de k.pcbelegido k) _ ei (
          some->>= k.proceso_en_ejecucion _ epid (
            some->>= (buscar_pcb pid k.lista_global) _ ep (
              some->>= (buscar_archivo_global k.lista_archivos_abiertos n) _ ea (
                ap (λ o. repartir n (soltar_lock (es_some o) a) k0 >>= seguir) eap
                ∙ ap (λ x. repartir n x k0 >>= seguir) s
                ∙ ap (λ o. o >>= seguir) fin)))),
      (
        rr ∙ en.en_ready,
        rb ∙ en.en_block,
        reponer-tabla a (escritores q cola) k1
            ∙ ap (λ b. b ++ entrada_vieja a (escritores q cola)) t,
      ),
    )
