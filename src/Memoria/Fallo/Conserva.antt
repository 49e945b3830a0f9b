-- ===== src/Memoria/Fallo/Conserva.antt =====
-- A page fault keeps memoria consistent and brings the page in.
use so_2c_2023_no_me_queme.Base.{
  ℕ, ◌*◌, ◌≡◌, ◌≢◌, refl, some, List, arith, length, get_elem?, true, Bool-cases, inl, inr, ◌⊎◌,
  Option-cases, sym, ◌∙◌,
}
use so_2c_2023_no_me_queme.Memoria.Estado.{libre, Entrada, Proceso, Memoria}
use so_2c_2023_no_me_queme.Memoria.Marcos.{hay_marcos_libres}
use so_2c_2023_no_me_queme.Memoria.Paginas.{pagina_a_reemplazar}
use so_2c_2023_no_me_queme.Memoria.Usuario.{
  obtener_proceso_pid, escribir_pag_en_memoria, leer_pagina_para_swapear,
}
use so_2c_2023_no_me_queme.Base.Copia.{copiar_de-copiar_a}
use so_2c_2023_no_me_queme.Memoria.Fallo.{
  Swap, pedido_escritura_swap, obtener_marco_para, cargar_pagina_swap_en_memoria,
  atender_page_fault,
}
use so_2c_2023_no_me_queme.Memoria.Fallo.Invariante.{IsMemoria}
use so_2c_2023_no_me_queme.Memoria.Fallo.Victima.{victima_lem}
use so_2c_2023_no_me_queme.Memoria.Fallo.Puesta.{Puesta, ocupar-Puesta, presente_some, con_victima}

-- A frame can be had: one is free, or the replacement algorithm finds a page to put out.
abbrev pub HayLugar : Memoria → Type 0
HayLugar m =
    (hay_marcos_libres m.marcos ≡ true)
    ⊎ ((v : ℕ) × (m0 : Memoria) × (pagina_a_reemplazar m ≡ some (v, m0)))

module _ {S : Type 0} (sw : Swap S) (duenio : ℕ → ℕ) (m : Memoria) (s : S) (a : ℕ)
    (e : Entrada) where
  obtener_marco-Puesta :
      IsMemoria duenio m
      → m.entradas a ≡ some e
      → duenio a ≢ libre
      → HayLugar m
      → (k : ℕ) × (m' : Memoria) × (s' : S) × (obtener_marco_para sw (duenio a) a m s
          ≡ some (k, m', s'))
        × Puesta duenio a k e m m'
  unfolding obtener_marco_para
  obtener_marco-Puesta c ha nl lugar = elim (Bool-cases (hay_marcos_libres m.marcos)) [
    | inl si ↦
        let (k, m', eq, pu) = ocupar-Puesta duenio m a e c ha nl si in (k, m', s, rw (si, eq), pu)
    | inr no' ↦ elim lugar [
      | inl si ↦ absurd (ground arith)
      | inr (v, m0, hv) ↦
          let w = victima_lem duenio m v m0 c hv in
          let (l, em, cl) = w.resto in
          let (d, hd, pd) = presente_some (m.entradas v) w.esta in
          let (f, gf, pf, lf) = c.consistente.ubicada v d hd pd in
          let (p, hp) = c.vivos v d hd pd in
          let (m', eq, pu) =
            con_victima sw duenio m s a e v d f p l c.consistente hd pd gf
              (unfold obtener_proceso_pid in rw pf hp) (rw em at hv) ha nl cl in
          (
            d.marco,
            m',
            pedido_escritura_swap sw d (record m { paginas_utilizadas = l }) s,
            rw (no', eq),
            pu,
          )
    ]
  ]

IsMemoria-usuario :
    (duenio : ℕ → ℕ) (m : Memoria) (u : ℕ → ℕ)
    → IsMemoria duenio m
    → IsMemoria duenio (record m { memoria_usuario = u })
unfolding obtener_proceso_pid
IsMemoria-usuario duenio m u c = record {
  consistente = c.consistente;
  tablas = c.tablas;
  vivos = c.vivos;
  cola = c.cola;
}

IsMemoria-Puesta :
    (duenio : ℕ → ℕ) (m m' : Memoria) (a k : ℕ) (e : Entrada) (p : Proceso)
    → IsMemoria duenio m
    → obtener_proceso_pid (duenio a) m ≡ some p
    → Puesta duenio a k e m m'
    → IsMemoria duenio m'
unfolding obtener_proceso_pid
IsMemoria-Puesta duenio m m' a k e p c hp pu = record {
  consistente = pu.consistente;
  tablas = λ pid q j b hq hb.
      let (d, l, xh) = c.tablas pid q j b (rw pu.procesos at hq) hb in
      (d, l, pu.asignadas b xh.0 xh.1);
  vivos = λ b x hb px. elim (pu.quedan b x hb px) [
    | inl q ↦ (p, rw (← q, pu.procesos) hp)
    | inr (y, hy, py) ↦ let (q, hq) = c.vivos b y hy py in (q, rw pu.procesos hq)
  ];
  cola = λ al. pu.cola (rw pu.algoritmo at al);
}

module _ {S : Type 0} (sw : Swap S) where
  cargar_pagina_swap_lem :
      (duenio : ℕ → ℕ) (id k : ℕ) (m : Memoria) (s : S)
      → IsMemoria duenio m
      → IsMemoria duenio (cargar_pagina_swap_en_memoria sw id k m s)
        × ((cargar_pagina_swap_en_memoria sw id k m s).entradas ≡ m.entradas)
        × ((bloque : List ℕ)
            → sw.leer id s ≡ some bloque
            → length bloque ≡ m.tamanio_pagina
            → leer_pagina_para_swapear k (cargar_pagina_swap_en_memoria sw id k m s) ≡ bloque)
  unfolding cargar_pagina_swap_en_memoria escribir_pag_en_memoria leer_pagina_para_swapear
  cargar_pagina_swap_lem duenio id k m s c = elim (Option-cases (sw.leer id s)) [
    | inl n ↦ rw (n, cargar_pagina_swap_en_memoria) (c, refl, λ bloque h l. absurd (ground arith))
    | inr (b, n) ↦
        rw (n, cargar_pagina_swap_en_memoria)
          (
            IsMemoria-usuario duenio m _ c,
            refl,
            λ bloque h l.
                copiar_de-copiar_a m.memoria_usuario (k * m.tamanio_pagina) b m.tamanio_pagina
                  (ground arith)
                ∙ ground arith,
          )
  ]

  -- A page fault of a page of a known process is served whenever a frame is free or the replacement
  -- algorithm finds a victim: no null pointer is met, the tables of memoria are as consistent as
  -- before, the page is present and clean in its frame, and the frame holds the page's swap block
  -- as the filesystem has it after the victim was saved.
  pub atender_page_fault_lem :
      (duenio : ℕ → ℕ) (pid nro_pag : ℕ) (m : Memoria) (s : S) (p : Proceso) (a : ℕ) (e : Entrada)
      → IsMemoria duenio m
      → obtener_proceso_pid pid m ≡ some p
      → get_elem? p.entradas_tabla nro_pag ≡ some a
      → m.entradas a ≡ some e
      → HayLugar m
      → (k : ℕ) × (m' : Memoria) × (s' : S) × (atender_page_fault sw pid nro_pag m s
          ≡ some (m', s'))
        × IsMemoria duenio m'
        × (m'.entradas a ≡ some (record e { marco = k; bit_presencia = 1; bit_modificado = 0 }))
        × ((bloque : List ℕ)
            → sw.leer e.id_bloque_swap s' ≡ some bloque
            → length bloque ≡ m.tamanio_pagina
            → leer_pagina_para_swapear k m' ≡ bloque)
  unfolding atender_page_fault
  atender_page_fault_lem duenio pid nro_pag m s p a e c hp ha he lugar =
      let (d, nl, xh) = c.tablas pid p nro_pag a hp ha in
      let (k, m', s', eq, pu) = obtener_marco-Puesta sw duenio m s a e c he (rw d nl) lugar in
      let (c', ents, cont) =
        cargar_pagina_swap_lem duenio e.id_bloque_swap k m' s'
          (IsMemoria-Puesta duenio m m' a k e p c (rw d hp) pu) in
      (
        k,
        cargar_pagina_swap_en_memoria sw e.id_bloque_swap k m' s',
        s',
        simp (hp, ha, he, rw d at eq),
        c',
        rw ents pu.entrada,
        λ bloque h l. cont bloque h (l ∙ sym pu.pagina),
      )
