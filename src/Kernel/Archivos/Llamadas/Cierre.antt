-- ===== src/Kernel/Archivos/Llamadas/Cierre.antt =====
-- kernel/src/instructions.c: `kf_close` by the last holder of a file for which processes wait.
use so_2c_2023_no_me_queme.Base.{
  ℕ, ◌≡◌, refl, ap, sym, ◌∙◌, Option, none, some, List, [], ◌∷◌, ◌++◌, append_assoc, append-nil,
  if◌then◌else◌, Bool, get_elem?, ◌==◌, true, false, Bool-cases, inl, inr,
}
use so_2c_2023_no_me_queme.Base.Opt.{◌>>=◌}
use so_2c_2023_no_me_queme.Shared.Cadena.{strcmp_eq}
use so_2c_2023_no_me_queme.Kernel.Estado.{
  Kernel, Pcb, EstadoProceso, ArchivoGlobal, buscar_pcb, con_pcb, en_pcb, cambiar_estado,
  set_pcb_ready,
}
use so_2c_2023_no_me_queme.Kernel.Archivos.{
  buscar_archivo_global, con_archivo, crear_archivo_proceso, sumar, sumar_contador_archivo_global,
  open_file,
}
use so_2c_2023_no_me_queme.Kernel.Archivos.Llamadas.{instruccion_de, lock_pedido}

vivo-con :
    {A : Type 0} (g : Pcb → Option A) (p q : Pcb) (b c : Bool)
    → c ≡ b
    → g q ≡ g p
    → ((if c then none else some q) >>= g) ≡ ((if b then none else some p) >>= g)
vivo-con g p q true true h e = refl
vivo-con g p q true false h e = absurd (cc)
vivo-con g p q false true h e = absurd (cc)
vivo-con g p q false false h e = e

pub buscar_pcb-con_pcb :
    {A : Type 0} (g : Pcb → Option A) (x d : ℕ) (f : Pcb → Pcb) (ps : List Pcb)
    → ((p : Pcb) → (f p).pid ≡ p.pid)
    → ((p : Pcb) → (f p).liberado ≡ p.liberado)
    → ((p : Pcb) → g (f p) ≡ g p)
    → (buscar_pcb x (con_pcb d f ps) >>= g) ≡ (buscar_pcb x ps >>= g)
unfolding buscar_pcb con_pcb
buscar_pcb-con_pcb g x d f [] h v e = refl
buscar_pcb-con_pcb g x d f (p ∷ ps) h v e = elim (Bool-cases (p.pid == d)) [
  | inl si ↦ elim (Bool-cases (p.pid == x)) [
    | inl mismo ↦
        let m' : ((f p).pid == x) ≡ true = ap (λ y. y == x) (h p) ∙ mismo in
        simp (si, mismo, m') (vivo-con g p (f p) p.liberado (f p).liberado (v p) (e p))
    | inr otro ↦
        let o' : ((f p).pid == x) ≡ false = ap (λ y. y == x) (h p) ∙ otro in
        simp (si, otro, o') refl
  ]
  | inr no' ↦ elim (Bool-cases (p.pid == x)) [
    | inl mismo ↦ simp (no', mismo) refl
    | inr otro ↦ simp (no', otro) (buscar_pcb-con_pcb g x d f ps h v e)
  ]
]

-- A change of other fields of a process leaves the locks that processes ask for.
pub lock_pedido-en_pcb :
    (x d : ℕ) (f : Pcb → Pcb) (k : Kernel)
    → ((p : Pcb) → (f p).pid ≡ p.pid)
    → ((p : Pcb) → (f p).liberado ≡ p.liberado)
    → ((p : Pcb) → (f p).contexto_ejecucion ≡ p.contexto_ejecucion)
    → lock_pedido x (en_pcb d f k) ≡ lock_pedido x k
unfolding lock_pedido instruccion_de
lock_pedido-en_pcb x d f k h v c =
    ap (λ o. o >>= λ i. get_elem? i.parametro2 0)
      (buscar_pcb-con_pcb (λ p. some p.contexto_ejecucion.instruccion_ejecutada) x d f
        k.lista_global h v (λ p. ap (λ z. some z.instruccion_ejecutada) (c p)))

-- Processes made ready, in order, and what they leave alone.
pub record Entrega (k k' : Kernel) (listos : List ℕ) : Type 0 where
  pub en_ready : k'.lista_ready ≡ k.lista_ready ++ listos
  pub en_block : k'.cola_block ≡ k.cola_block
  pub globales : k'.lista_global_archivos ≡ k.lista_global_archivos
  pub piden : (x : ℕ) → lock_pedido x k' ≡ lock_pedido x k

pub Entrega-trans :
    (k k' k'' : Kernel) (xs ys : List ℕ)
    → Entrega k k' xs
    → Entrega k' k'' ys
    → Entrega k k'' (xs ++ ys)
Entrega-trans k k' k'' xs ys a b = record {
  en_ready = b.en_ready ∙ ap (λ l. l ++ ys) a.en_ready ∙ append_assoc k.lista_ready xs ys;
  en_block = b.en_block ∙ a.en_block;
  globales = b.globales ∙ a.globales;
  piden = λ x. b.piden x ∙ a.piden x;
}

pub set_pcb_ready-Entrega : (d : ℕ) (k : Kernel) → Entrega k (set_pcb_ready d k) (d ∷ [])
unfolding set_pcb_ready lock_pedido
set_pcb_ready-Entrega d k = record {
  en_ready = refl;
  en_block = refl;
  globales = refl;
  piden = λ x.
      lock_pedido-en_pcb x d (λ p. record p { tiempo_ingreso_ready = k.hora })
        (record (cambiar_estado d EstadoProceso.ready k) {
          lista_ready = k.lista_ready ++ (d ∷ []);
        })
        (λ p. refl) (λ p. refl) (λ p. refl)
      ∙ lock_pedido-en_pcb x d (λ p. record p { estado = EstadoProceso.ready }) k (λ p. refl)
          (λ p. refl) (λ p. refl);
}

pub crear_archivo_proceso-Entrega :
    (n : List ℕ) (d : ℕ) (k : Kernel) → Entrega k (crear_archivo_proceso n d k) []
unfolding crear_archivo_proceso lock_pedido
crear_archivo_proceso-Entrega n d k = record {
  en_ready = sym (append-nil k.lista_ready);
  en_block = refl;
  globales = refl;
  piden = λ x. lock_pedido-en_pcb x d _ k (λ p. refl) (λ p. refl) (λ p. refl);
}

module _ (n : List ℕ) (e : ArchivoGlobal) (nombre : strcmp_eq e.nombre_archivo n ≡ true) where
  buscar_al_final :
      (b : List ArchivoGlobal)
      → buscar_archivo_global b n ≡ none
      → buscar_archivo_global (b ++ (e ∷ [])) n ≡ some e
  unfolding buscar_archivo_global
  buscar_al_final [] h = simp nombre refl
  buscar_al_final (a ∷ b) h = elim (Bool-cases (strcmp_eq a.nombre_archivo n)) [
    | inl si ↦ absurd (cc (simp si at h))
    | inr no' ↦ simp no' (buscar_al_final b (simp no' at h))
  ]

  con_archivo_al_final :
      (f : ArchivoGlobal → ArchivoGlobal) (b : List ArchivoGlobal)
      → buscar_archivo_global b n ≡ none
      → con_archivo f (b ++ (e ∷ [])) n ≡ b ++ (f e ∷ [])
  unfolding buscar_archivo_global con_archivo
  con_archivo_al_final f [] h = simp nombre refl
  con_archivo_al_final f (a ∷ b) h = elim (Bool-cases (strcmp_eq a.nombre_archivo n)) [
    | inl si ↦ absurd (cc (simp si at h))
    | inr no' ↦ simp no' (ap (◌∷◌ a) (con_archivo_al_final f b (simp no' at h)))
  ]

  pub sumar_contador-final :
      (b : List ArchivoGlobal) (k : Kernel)
      → buscar_archivo_global b n ≡ none
      → k.lista_archivos_abiertos ≡ b ++ (e ∷ [])
      → sumar_contador_archivo_global n k
        ≡ some (record k { lista_archivos_abiertos = b ++ (sumar e ∷ []) })
  unfolding sumar_contador_archivo_global
  sumar_contador-final b k libre t =
      let encontrado = ap (λ l. buscar_archivo_global l n) t ∙ buscar_al_final b libre in
      ap
        (λ (o : Option ArchivoGlobal). o >>= λ a.
          some
            (record k { lista_archivos_abiertos = con_archivo sumar k.lista_archivos_abiertos n }))
        encontrado
      ∙ ap (λ l. some (record k { lista_archivos_abiertos = l }))
          (ap (λ l. con_archivo sumar l n) t ∙ con_archivo_al_final sumar b libre)

pub open_file_vacia :
    (n : List ℕ) (lock : ℕ) (k : Kernel) → k.lista_global_archivos ≡ [] → open_file n lock k ≡ none
unfolding open_file buscar_archivo_global
open_file_vacia n lock k h = rw h refl
