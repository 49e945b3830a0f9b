-- ===== src/Memoria/Servidor/Invariante.antt =====
-- The requests of the cpu and of the filesystem keep memoria consistent.
use so_2c_2023_no_me_queme.Base.{
  ◌*◌, true, false, Bool, ℕ, ◌+◌, ◌≡◌, refl, sym, ◌∙◌, Option, some, List, [], ◌∷◌, arith, ◌==◌,
  Bool-cases, inl, inr, Option-cases, get_elem?,
}
use so_2c_2023_no_me_queme.Base.Opt.{guard, ◌>>◌, Todo, Todo->>=, Todo-some}
use so_2c_2023_no_me_queme.Base.Copia.{copiar_a, copiar_de}
use so_2c_2023_no_me_queme.Shared.Bytes.{bytes_int, leer_int}
use so_2c_2023_no_me_queme.Memoria.Estado.{Entrada, Proceso, Memoria, mod_entrada}
use so_2c_2023_no_me_queme.Memoria.Paginas.{
  mismo_id_bloque, agregar_pagina_fifo, actualizo_entrada_para_futuro_reemplazo, actualizo-SoloUso,
}
use so_2c_2023_no_me_queme.Memoria.Usuario.{
  dentro, obtener_proceso_pid, obtener_entrada_con_marco, cambiar_bit_modificado,
  marcar_pag_modificada, marco_desde_df, escribir_memoria_cpu, usar_pagina, leer_memoria_cpu,
  leer_memoria_fs, escribir_memoria_fs, escribir_pag_en_memoria,
}
use so_2c_2023_no_me_queme.Memoria.Procesos.{obtener_instruccion_pid_pc, obtener_marco_pid}
use so_2c_2023_no_me_queme.Memoria.Fallo.Invariante.{EnCola, IsMemoria}
use so_2c_2023_no_me_queme.Memoria.Servidor.{
  PedidoCpu, pedido_instruccion, pedido_marco, mov_out_cpu, mov_in_cpu, RespuestaCpu,
  responder_instruccion, atender_cpu, PedidoFs, f_write_fs, f_read_fs, RespuestaFs, atender_fs,
}
use so_2c_2023_no_me_queme.Memoria.Servidor.Parecido.{
  Parejo-presente, IsParecido, IsParecido-refl, IsParecido-mod_entrada, IsParecido-IsMemoria,
  IsParecido-EnCola, presente-some, fuera_de_cola, EnCola-final,
}

-- The page that holds a frame is present.
obtener_entrada-presente :
    (h : ℕ → Option Entrada) (marco a : ℕ) (l : List ℕ)
    → obtener_entrada_con_marco h marco l ≡ some a
    → (e : Entrada) × (h a ≡ some e) × (e.bit_presencia ≡ 1)
unfolding obtener_entrada_con_marco
obtener_entrada-presente h marco a [] q = cc
obtener_entrada-presente h marco a (b ∷ l) q = elim (Option-cases (h b)) [
  | inl n ↦ obtener_entrada-presente h marco a l (ground (arith, n, q))
  | inr (e, n) ↦ elim (Bool-cases (e.bit_presencia == 1)) [
    | inl si ↦ elim (Bool-cases (e.marco == marco)) [
      | inl si' ↦ (e, ground (arith, n, q, si, si'), ground (arith, si))
      | inr no' ↦ obtener_entrada-presente h marco a l (ground (arith, n, q, si, no'))
    ]
    | inr no' ↦ obtener_entrada-presente h marco a l (ground (arith, n, q, no'))
  ]
]

-- What the use of a page leaves of the queue.
actualizo-EnCola :
    (a : ℕ) (e d : Entrada) (m : Memoria)
    → m.entradas a ≡ some d
    → d.bit_presencia ≡ 1
    → d.id_bloque_swap ≡ e.id_bloque_swap
    → EnCola m.entradas m.paginas_utilizadas
    → EnCola
        (actualizo_entrada_para_futuro_reemplazo a e m).entradas
        (actualizo_entrada_para_futuro_reemplazo a e m).paginas_utilizadas
unfolding actualizo_entrada_para_futuro_reemplazo agregar_pagina_fifo
actualizo-EnCola a e d m hd pd ids c =
    let f : Entrada → Entrada = λ x. record x { tiempo_lru = m.contador_lru + 1 } in
    let h' = mod_entrada a f m.entradas in
    let c' : EnCola h' m.paginas_utilizadas =
      IsParecido-EnCola m.entradas h' m.paginas_utilizadas
        (IsParecido-mod_entrada a f m.entradas (λ x. (refl, refl, refl))) c in
    let ahora : h' a ≡ some (f d) = ground (arith, hd) in
    elim (Bool-cases (mismo_id_bloque h' e.id_bloque_swap m.paginas_utilizadas)) [
      | inl si ↦ rw si c'
      | inr no' ↦ rw no' (
          EnCola-final h' a m.paginas_utilizadas c' (presente-some h' a (f d) ahora pd)
            (fuera_de_cola h' a (f d) e.id_bloque_swap m.paginas_utilizadas ahora ids no'))
    ]

actualizo-IsMemoria :
    (duenio : ℕ → ℕ) (a : ℕ) (e d : Entrada) (m : Memoria)
    → m.entradas a ≡ some d
    → d.bit_presencia ≡ 1
    → d.id_bloque_swap ≡ e.id_bloque_swap
    → IsMemoria duenio m
    → IsMemoria duenio (actualizo_entrada_para_futuro_reemplazo a e m)
actualizo-IsMemoria duenio a e d m hd pd ids c =
    let s = actualizo-SoloUso a e m in
    IsParecido-IsMemoria duenio m (actualizo_entrada_para_futuro_reemplazo a e m)
      (rw s.entradas_ok (
        IsParecido-mod_entrada a (λ x. record x { tiempo_lru = m.contador_lru + 1 }) m.entradas
          (λ x. (refl, refl, refl))))
      s.marcos_ok s.procesos_ok
      (λ al. actualizo-EnCola a e d m hd pd ids (c.cola (sym s.algoritmo_ok ∙ al))) c

IsMemoria-usuario :
    (duenio : ℕ → ℕ) (m : Memoria) (u : ℕ → ℕ)
    → IsMemoria duenio m
    → IsMemoria duenio (record m { memoria_usuario = u })
IsMemoria-usuario duenio m u c =
    IsParecido-IsMemoria duenio m (record m { memoria_usuario = u }) (IsParecido-refl m.entradas)
      refl refl c.cola c

usar_pagina-IsMemoria :
    (duenio : ℕ → ℕ) (dir : ℕ) (m : Memoria)
    → IsMemoria duenio m
    → Todo (IsMemoria duenio) (usar_pagina dir m)
unfolding usar_pagina
usar_pagina-IsMemoria duenio dir m c =
    Todo->>= (IsMemoria duenio) (marco_desde_df dir m) _ (λ marco e1.
      Todo->>= (IsMemoria duenio) (obtener_proceso_pid marco.pid m) _ (λ p e2.
        Todo->>= (IsMemoria duenio)
          (obtener_entrada_con_marco m.entradas marco.num_de_marco p.entradas_tabla) _
          (λ a e3. Todo->>= (IsMemoria duenio) (m.entradas a) _ (λ e e4.
            let (d, hd, pd) =
              obtener_entrada-presente m.entradas marco.num_de_marco a p.entradas_tabla e3 in
            actualizo-IsMemoria duenio a e d m hd pd (ground (arith, hd, e4)) c))))

cambiar_bit-IsMemoria :
    (duenio : ℕ → ℕ) (p : Proceso) (indice valor : ℕ) (m : Memoria)
    → IsMemoria duenio m
    → Todo
        (λ m'. IsMemoria duenio m' × IsParecido m.entradas m'.entradas)
        (cambiar_bit_modificado p indice valor m)
unfolding cambiar_bit_modificado
cambiar_bit-IsMemoria duenio p indice valor m c =
    let P : Memoria → Type 0 = λ m'. IsMemoria duenio m' × IsParecido m.entradas m'.entradas in
    Todo->>= P (get_elem? p.entradas_tabla indice) _ (λ a e1. Todo->>= P (m.entradas a) _ (λ e e2.
      let f : Entrada → Entrada = λ x. record x { bit_modificado = valor } in
      let igual = IsParecido-mod_entrada a f m.entradas (λ x. (refl, refl, refl)) in
      (
        IsParecido-IsMemoria duenio m (record m { entradas = mod_entrada a f m.entradas }) igual
            refl refl
            (λ al.
              IsParecido-EnCola m.entradas (mod_entrada a f m.entradas) m.paginas_utilizadas igual
                (c.cola al))
            c,
        igual,
      )))

marcar_pag_modificada-IsMemoria :
    (duenio : ℕ → ℕ) (pid marco : ℕ) (m : Memoria)
    → IsMemoria duenio m
    → Todo (IsMemoria duenio) (marcar_pag_modificada pid marco m)
unfolding marcar_pag_modificada
marcar_pag_modificada-IsMemoria duenio pid marco m c =
    Todo->>= (IsMemoria duenio) (obtener_proceso_pid pid m) _ (λ p e1.
      Todo->>= (IsMemoria duenio) (obtener_entrada_con_marco m.entradas marco p.entradas_tabla) _
        (λ a e2. Todo->>= (IsMemoria duenio) (m.entradas a) _ (λ e e3.
          Todo->>= (IsMemoria duenio) (cambiar_bit_modificado p e.indice 1 m) _ (λ m' e4.
            let (d, hd, pd) = obtener_entrada-presente m.entradas marco a p.entradas_tabla e2 in
            let (c', igual) =
              Todo-some (λ m'. IsMemoria duenio m' × IsParecido m.entradas m'.entradas)
                (cambiar_bit_modificado p e.indice 1 m) e4
                (cambiar_bit-IsMemoria duenio p e.indice 1 m c) in
            let (e', he', q, id') = Parejo-presente (m.entradas a) (m'.entradas a) (igual a) hd in
            actualizo-IsMemoria duenio a e e' m' he' (q ∙ pd) (id' ∙ ground (arith, hd, e3)) c'))))

Todo-guard :
    (b : Bool) {A : Type 0} (P : A → Type 0) (o : Option A) → Todo P o → Todo P (guard b >> o)
Todo-guard true P o h = h
Todo-guard false P o h = tt

escribir_memoria_cpu-IsMemoria :
    (duenio : ℕ → ℕ) (dir valor : ℕ) (m : Memoria)
    → IsMemoria duenio m
    → Todo (IsMemoria duenio) (escribir_memoria_cpu dir valor m)
unfolding escribir_memoria_cpu
escribir_memoria_cpu-IsMemoria duenio dir valor m c =
    let m1 : Memoria = record m {
      memoria_usuario = copiar_a m.memoria_usuario dir (bytes_int valor);
    } in
    Todo-guard (dentro dir 4 m) (IsMemoria duenio) _ (
      Todo->>= (IsMemoria duenio) (marco_desde_df dir m1) _ (λ marco e1.
        marcar_pag_modificada-IsMemoria duenio marco.pid marco.num_de_marco m1
          (IsMemoria-usuario duenio m _ c)))

-- Every answered request of the cpu leaves memoria consistent.
pub atender_cpu-IsMemoria :
    (duenio : ℕ → ℕ) (p : PedidoCpu) (m : Memoria)
    → IsMemoria duenio m
    → Todo (λ r. IsMemoria duenio r.1) (atender_cpu p m)
unfolding atender_cpu responder_instruccion leer_memoria_cpu
atender_cpu-IsMemoria duenio (pedido_instruccion pid pc) m c =
    elim (Option-cases (obtener_proceso_pid pid m)) [
      | inl n ↦ rw n c
      | inr (p, n) ↦ rw n (
          Todo->>= (λ (r : RespuestaCpu × Memoria). IsMemoria duenio r.1)
            (obtener_instruccion_pid_pc pid pc m) _ (λ i e. c))
    ]
atender_cpu-IsMemoria duenio (pedido_marco pid index) m c =
    Todo->>= (λ (r : RespuestaCpu × Memoria). IsMemoria duenio r.1) (obtener_marco_pid pid index m)
      _ (λ k e. c)
atender_cpu-IsMemoria duenio (mov_out_cpu valor dir) m c =
    Todo->>= (λ (r : RespuestaCpu × Memoria). IsMemoria duenio r.1)
      (escribir_memoria_cpu dir valor m) _
      (λ m' e.
        Todo-some (IsMemoria duenio) (escribir_memoria_cpu dir valor m) e
          (escribir_memoria_cpu-IsMemoria duenio dir valor m c))
atender_cpu-IsMemoria duenio (mov_in_cpu df) m c =
    Todo->>= (λ (r : RespuestaCpu × Memoria). IsMemoria duenio r.1) (leer_memoria_cpu df m) _
      (λ r e.
        Todo-some (λ (x : ℕ × Memoria). IsMemoria duenio x.1) (leer_memoria_cpu df m) e
          (Todo-guard (dentro df 4 m) (λ (x : ℕ × Memoria). IsMemoria duenio x.1) _
            (Todo->>= (λ (x : ℕ × Memoria). IsMemoria duenio x.1)
              (leer_int (copiar_de m.memoria_usuario df 4)) _
              (λ v e1.
                Todo->>= (λ (x : ℕ × Memoria). IsMemoria duenio x.1) (usar_pagina df m) _
                  (λ m' e2.
                    Todo-some (IsMemoria duenio) (usar_pagina df m) e2
                      (usar_pagina-IsMemoria duenio df m c))))))

-- So does every request of the filesystem.
pub atender_fs-IsMemoria :
    (duenio : ℕ → ℕ) (p : PedidoFs) (m : Memoria)
    → IsMemoria duenio m
    → Todo (λ r. IsMemoria duenio r.1) (atender_fs p m)
unfolding atender_fs leer_memoria_fs escribir_memoria_fs escribir_pag_en_memoria
atender_fs-IsMemoria duenio (f_write_fs dir) m c =
    Todo->>= (λ (r : RespuestaFs × Memoria). IsMemoria duenio r.1) (leer_memoria_fs dir m) _
      (λ r e.
        Todo-some (λ (x : List ℕ × Memoria). IsMemoria duenio x.1) (leer_memoria_fs dir m) e
          (Todo-guard (dentro dir m.tamanio_pagina m)
            (λ (x : List ℕ × Memoria). IsMemoria duenio x.1) _
            (Todo->>= (λ (x : List ℕ × Memoria). IsMemoria duenio x.1) (usar_pagina dir m) _
              (λ m' e2.
                Todo-some (IsMemoria duenio) (usar_pagina dir m) e2
                  (usar_pagina-IsMemoria duenio dir m c)))))
atender_fs-IsMemoria duenio (f_read_fs dir bloque) m c =
    Todo->>= (λ (r : RespuestaFs × Memoria). IsMemoria duenio r.1)
      (escribir_memoria_fs dir bloque m) _
      (λ m' e. Todo-some (IsMemoria duenio) (escribir_memoria_fs dir bloque m) e (
        Todo->>= (IsMemoria duenio) (marco_desde_df dir m) _ (λ marco e1.
          Todo-guard (dentro (marco.num_de_marco * m.tamanio_pagina) m.tamanio_pagina m)
            (IsMemoria duenio) _ (IsMemoria-usuario duenio m _ c))))
