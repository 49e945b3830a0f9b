-- ===== src/Memoria/Usuario/MovOut.antt =====
-- MOV_OUT and MOV_IN on memoria's side.
use so_2c_2023_no_me_queme.Base.{
  ap, ◌∙◌, true, leb, ◌^◌, ℕ, ◌+◌, ◌≤◌, ◌<◌, ◌≡◌, refl, Option, some, List, [], ◌∷◌, arith,
  get_elem?, inl, inr, ◌⊎◌, Option-cases,
}
use so_2c_2023_no_me_queme.Shared.Bytes.{bytes_int, int_max, leer_int_end, length-bytes_int}
use so_2c_2023_no_me_queme.Memoria.Estado.{Entrada, Marco, Proceso, Memoria, mod_entrada}
use so_2c_2023_no_me_queme.Memoria.Paginas.{
  actualizo_entrada_para_futuro_reemplazo, SoloUso, actualizo-SoloUso,
}
use so_2c_2023_no_me_queme.Memoria.Usuario.{
  dentro, marco_desde_df, obtener_proceso_pid, obtener_entrada_con_marco, cambiar_bit_modificado,
  marcar_pag_modificada, escribir_memoria_cpu, usar_pagina, leer_memoria_cpu,
}
use so_2c_2023_no_me_queme.Base.Copia.{copiar_a, copiar_de-copiar_a, copiar_a_fuera}

-- The address lies in a frame that a present page of a live process holds.
pub record Mapeada (df : ℕ) (m : Memoria) : Type 0 where
  pub marco : Marco
  pub proceso : Proceso
  pub pagina : ℕ
  pub entrada : Entrada
  pub marco_ok : marco_desde_df df m ≡ some marco
  pub proceso_ok : obtener_proceso_pid marco.pid m ≡ some proceso
  pub pagina_ok :
      obtener_entrada_con_marco m.entradas marco.num_de_marco proceso.entradas_tabla ≡ some pagina
  pub entrada_ok : m.entradas pagina ≡ some entrada
  pub indice_ok : get_elem? proceso.entradas_tabla entrada.indice ≡ some pagina

-- A write to an entry that keeps its presence and its frame does not move pages.
obtener_entrada-mod_entrada :
    (a : ℕ) (f : Entrada → Entrada) (h : ℕ → Option Entrada) (marco : ℕ) (l : List ℕ)
    → ((e : Entrada) → (f e).bit_presencia ≡ e.bit_presencia)
    → ((e : Entrada) → (f e).marco ≡ e.marco)
    → obtener_entrada_con_marco (mod_entrada a f h) marco l ≡ obtener_entrada_con_marco h marco l
unfolding obtener_entrada_con_marco
obtener_entrada-mod_entrada a f h marco [] p q = refl
obtener_entrada-mod_entrada a f h marco (b ∷ l) p q = elim (Option-cases (h b)) [
  | inl e ↦ ground (arith, obtener_entrada-mod_entrada a f h marco l p q)
  | inr (x, e) ↦ ground (arith, p x, q x, obtener_entrada-mod_entrada a f h marco l p q)
]

-- The state that `escribir_memoria_cpu` leaves, before the page's use is noted.
abbrev escrita : ℕ → ℕ → ℕ → Memoria → Memoria
escrita df valor a m = record m {
  memoria_usuario = copiar_a m.memoria_usuario df (bytes_int valor);
  entradas = mod_entrada a (λ x. record x { bit_modificado = 1 }) m.entradas;
}

escribir-Mapeada :
    (df valor : ℕ) (m : Memoria) (d : Mapeada df m)
    → dentro df 4 m ≡ true
    → escribir_memoria_cpu df valor m
      ≡ some
          (actualizo_entrada_para_futuro_reemplazo d.pagina d.entrada (escrita df valor d.pagina m))
unfolding escribir_memoria_cpu marcar_pag_modificada cambiar_bit_modificado marco_desde_df
    obtener_proceso_pid
escribir-Mapeada df valor m d w =
    simp (w, d.marco_ok, d.proceso_ok, d.pagina_ok, d.entrada_ok, d.indice_ok)

pub usar-Mapeada :
    (df : ℕ) (m : Memoria) (d : Mapeada df m)
    → usar_pagina df m ≡ some (actualizo_entrada_para_futuro_reemplazo d.pagina d.entrada m)
unfolding usar_pagina
usar-Mapeada df m d = simp (d.marco_ok, d.proceso_ok, d.pagina_ok, d.entrada_ok)

-- Writing leaves the address mapped by the same page, which is now dirty and just used.
escrita-Mapeada :
    (df valor : ℕ) (m : Memoria) (d : Mapeada df m)
    → Mapeada df
        (actualizo_entrada_para_futuro_reemplazo d.pagina d.entrada (escrita df valor d.pagina m))
unfolding marco_desde_df obtener_proceso_pid
escrita-Mapeada df valor m d = record {
  marco = d.marco;
  proceso = d.proceso;
  pagina = d.pagina;
  entrada = record (d.entrada) { bit_modificado = 1; tiempo_lru = m.contador_lru + 1 };
  marco_ok = rw (s.marcos_ok, s.pagina_ok) d.marco_ok;
  proceso_ok = rw s.procesos_ok d.proceso_ok;
  pagina_ok =
      rw
        (
          s.entradas_ok,
          obtener_entrada-mod_entrada d.pagina (λ x. record x { tiempo_lru = m.contador_lru + 1 })
              (mod_entrada d.pagina (λ x. record x { bit_modificado = 1 }) m.entradas)
              d.marco.num_de_marco d.proceso.entradas_tabla (λ e. refl) (λ e. refl),
          obtener_entrada-mod_entrada d.pagina (λ x. record x { bit_modificado = 1 }) m.entradas
              d.marco.num_de_marco d.proceso.entradas_tabla (λ e. refl) (λ e. refl),
        )
        d.pagina_ok;
  entrada_ok = rw s.entradas_ok (ground (arith, d.entrada_ok));
  indice_ok = d.indice_ok;
}
  where
    s :
        SoloUso d.pagina
          (escrita df valor d.pagina m)
          (actualizo_entrada_para_futuro_reemplazo d.pagina d.entrada (escrita df valor d.pagina m))
    s = actualizo-SoloUso d.pagina d.entrada (escrita df valor d.pagina m)

-- At an address of the user memory that a present page of a live process holds, with the four bytes
-- behind it in the memory and a counter of uses that stays an `int`, MOV_OUT succeeds; a MOV_IN of the same
-- address then succeeds and gives the value written; no byte outside the four written changed; and
-- the page is marked modified, with the next time of use.
pub mov_out-mov_in :
    (df valor : ℕ) (m : Memoria) (d : Mapeada df m)
    → valor < int_max
    → df + 4 ≤ m.tamanio_memoria
    → m.contador_lru + 2 < 2 ^ 31
    → (m' : Memoria) × (m'' : Memoria) × (escribir_memoria_cpu df valor m ≡ some m')
      × (leer_memoria_cpu df m' ≡ some (valor, m''))
      × ((j : ℕ) → (j < df) ⊎ (df + 4 ≤ j) → m'.memoria_usuario j ≡ m.memoria_usuario j)
      × (m'.entradas d.pagina
          ≡ some (record (d.entrada) { bit_modificado = 1; tiempo_lru = m.contador_lru + 1 }))
unfolding leer_memoria_cpu escrita-Mapeada
mov_out-mov_in df valor m d h cabe _ = (
  actualizo_entrada_para_futuro_reemplazo d.pagina d.entrada (escrita df valor d.pagina m),
  actualizo_entrada_para_futuro_reemplazo d'.pagina d'.entrada
      (actualizo_entrada_para_futuro_reemplazo d.pagina d.entrada (escrita df valor d.pagina m)),
  escribir-Mapeada df valor m d ancho,
  simp (
    ap (λ t. leb (df + 4) t) s.tamanio_ok ∙ ancho,
    s.usuario_ok,
    copiar_de-copiar_a m.memoria_usuario df (bytes_int valor) 4 (length-bytes_int valor),
    leer_int_end valor h,
    usar-Mapeada df _ d',
  ),
  (λ j o.
      rw s.usuario_ok
        (copiar_a_fuera m.memoria_usuario df (bytes_int valor) j (rw (length-bytes_int valor) o))),
  d'.entrada_ok,
)
  where
    ancho : dentro df 4 m ≡ true
    ancho = ground (arith, cabe)

    s :
        SoloUso d.pagina
          (escrita df valor d.pagina m)
          (actualizo_entrada_para_futuro_reemplazo d.pagina d.entrada (escrita df valor d.pagina m))
    s = actualizo-SoloUso d.pagina d.entrada (escrita df valor d.pagina m)

    d' :
        Mapeada df
          (actualizo_entrada_para_futuro_reemplazo d.pagina d.entrada (escrita df valor d.pagina m))
    d' = escrita-Mapeada df valor m d
