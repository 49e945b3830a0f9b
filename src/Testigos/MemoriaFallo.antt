-- ===== src/Testigos/MemoriaFallo.antt =====
-- A page fault that throws out a modified page: one frame, two pages, FIFO.
use so_2c_2023_no_me_queme.Base.{
  ℕ, zero, suc, ◌≡◌, inl, inr, refl, sym, ◌∙◌, ap, Option, none, some, List, [], ◌∷◌, ◌==◌,
  if◌then◌else◌, length, get_elem?, arith, Bool-cases,
}
use mathlib.Core.Option.{some-injective}
use so_2c_2023_no_me_queme.Memoria.Estado.{Entrada, Proceso, Memoria, fifo, libre, mod_entrada}
use so_2c_2023_no_me_queme.Base.Copia.{copiar_a}
use so_2c_2023_no_me_queme.Shared.Bytes.{bytes_int}
use so_2c_2023_no_me_queme.Memoria.Marcos.{hay_marcos_libres}
use so_2c_2023_no_me_queme.Memoria.Paginas.{
  pagina_a_reemplazar, actualizo_entrada_para_futuro_reemplazo, agregar_pagina_fifo,
  mismo_id_bloque,
}
use so_2c_2023_no_me_queme.Memoria.Usuario.{
  obtener_proceso_pid, leer_pagina_para_swapear, escribir_memoria_cpu, marcar_pag_modificada,
  cambiar_bit_modificado, marco_desde_df, obtener_entrada_con_marco, escribir_pag_en_memoria,
}
use so_2c_2023_no_me_queme.Memoria.Fallo.{
  Swap, atender_page_fault, obtener_marco_para, reemplazar, pedido_escritura_swap,
  cargar_pagina_swap_en_memoria, poner_marco, liberar_presencia_pagina,
}
use so_2c_2023_no_me_queme.Memoria.Servidor.{
  mov_out_cpu, atender_cpu, Atendidos, ninguno, luego, cpu, page_fault,
}
use so_2c_2023_no_me_queme.Memoria.Servidor.Alcance.{Atendidos-IsMemoria}
use so_2c_2023_no_me_queme.Memoria.Fallo.Invariante.{IsConsistente, IsMemoria}
use so_2c_2023_no_me_queme.Memoria.Fallo.Conserva.{atender_page_fault_lem, HayLugar}

abbrev presente0 : Entrada
presente0 = record {
  indice = 0;
  marco = 0;
  bit_presencia = 1;
  bit_modificado = 1;
  id_bloque_swap = 5;
  tiempo_lru = 3;
}

abbrev ausente1 : Entrada
ausente1 = record {
  indice = 1;
  marco = libre;
  bit_presencia = 0;
  bit_modificado = 0;
  id_bloque_swap = 6;
  tiempo_lru = 0;
}

abbrev entradas : ℕ → Option Entrada
entradas zero = some presente0
entradas (suc zero) = some ausente1
entradas (suc (suc a)) = none

abbrev proceso : Proceso
proceso = record {
  pid = 1;
  tamano = 8;
  path = [];
  instrucciones = [];
  entradas_tabla = 0 ∷ 1 ∷ [];
  cantidad_paginas = 2;
}

abbrev memoria : Memoria
memoria = record {
  tamanio_memoria = 4;
  tamanio_pagina = 4;
  algoritmo_pags = fifo;
  marcos = record { pid = 1; num_de_marco = 0 } ∷ [];
  entradas = entradas;
  proxima = 2;
  procesos_totales = proceso ∷ [];
  paginas_utilizadas = 0 ∷ [];
  contador_lru = 3;
  memoria_usuario = λ j. 7;
}

abbrev swap : Swap (ℕ → List ℕ)
swap = record {
  leer = λ id s. some (s id);
  escribir = λ id bloque s id'. if id == id' then bloque else s id';
}

abbrev bloques : ℕ → List ℕ
bloques id = 0 ∷ 0 ∷ 0 ∷ id ∷ []

sola : (a : ℕ) (e : Entrada) → entradas a ≡ some e → e.bit_presencia ≡ 1 → (a ≡ 0) × (e ≡ presente0)
sola zero e h p = (refl, sym (some-injective presente0 e h))
sola (suc zero) e h p =
    let q = ap (λ x. x.bit_presencia) (some-injective ausente1 e h) in absurd (omega (arith, q, p))
sola (suc (suc a)) e h p = absurd (cc)

consistente : IsConsistente (λ a. 1) memoria.marcos entradas
consistente = record {
  numerados = (refl, tt);
  ubicada = λ a e h p.
      let (i, j) = sola a e h p in
      (
        record { pid = 1; num_de_marco = 0 },
        ap (λ x. get_elem? memoria.marcos x.marco) j,
        refl,
        (λ q. omega arith),
      );
  exclusiva = λ a b d e h i p q m. (sola a d h p).0 ∙ sym (sola b e i q).0;
}

unico :
    (pid : ℕ) (p : Proceso) → obtener_proceso_pid pid memoria ≡ some p → (1 ≡ pid) × (proceso ≡ p)
unfolding obtener_proceso_pid
unico pid p h = elim (Bool-cases (1 == pid)) [
  | inl si ↦ (ground arith, some-injective proceso p (simp si at h))
  | inr no' ↦ absurd (ground (arith, no', h))
]

en_tabla :
    (j a : ℕ) → get_elem? proceso.entradas_tabla j ≡ some a → (e : Entrada) × (entradas a ≡ some e)
en_tabla zero a h = (presente0, ap entradas (sym (some-injective 0 a h)))
en_tabla (suc zero) a h = (ausente1, ap entradas (sym (some-injective 1 a h)))
en_tabla (suc (suc j)) a h = absurd (cc)

memoria-IsMemoria : IsMemoria (λ a. 1) memoria
unfolding obtener_proceso_pid
memoria-IsMemoria = record {
  consistente = consistente;
  tablas = λ pid p j a h g.
      let (i, q) = unico pid p h in
      (i, (λ l. omega (arith, i, l)), en_tabla j a (ap (λ x. get_elem? x.entradas_tabla j) q ∙ g));
  vivos = λ a e h p. (proceso, refl);
  cola = λ f. (refl, (λ x. elim x [ ]), tt);
}

-- FIFO finds a page to replace.
hay_lugar : HayLugar memoria
unfolding pagina_a_reemplazar
hay_lugar = inr (0, record memoria { paginas_utilizadas = [] }, refl)

atender_page_fault_lem_example :
    (k : ℕ) × (m' : Memoria) × (s' : ℕ → List ℕ) × (atender_page_fault swap 1 1 memoria bloques
      ≡ some (m', s'))
    × IsMemoria (λ a. 1) m'
    × (m'.entradas 1 ≡ some (record ausente1 { marco = k; bit_presencia = 1; bit_modificado = 0 }))
    × ((bloque : List ℕ)
        → swap.leer 6 s' ≡ some bloque
        → length bloque ≡ 4
        → leer_pagina_para_swapear k m' ≡ bloque)
unfolding obtener_proceso_pid
atender_page_fault_lem_example =
    atender_page_fault_lem swap (λ a. 1) 1 1 memoria bloques proceso 1 ausente1 memoria-IsMemoria
      refl refl refl hay_lugar

-- MOV_OUT of 9 at address 0, and then the page fault, which saves that page.
abbrev tras_mov_out : Memoria
tras_mov_out = record memoria {
  memoria_usuario = copiar_a memoria.memoria_usuario 0 (bytes_int 9);
  contador_lru = 4;
  entradas =
      mod_entrada 0 (λ x. record x { tiempo_lru = 4 })
        (mod_entrada 0 (λ x. record x { bit_modificado = 1 }) entradas);
}

abbrev tras_page_fault : Memoria
tras_page_fault = record tras_mov_out {
  marcos = record { pid = 1; num_de_marco = 0 } ∷ [];
  entradas = poner_marco 1 0 (liberar_presencia_pagina 0 tras_mov_out.entradas);
  paginas_utilizadas = [];
  memoria_usuario = copiar_a tras_mov_out.memoria_usuario 0 (bloques 6);
}

pedidos :
    Atendidos swap memoria bloques tras_page_fault
      (swap.escribir 5 (leer_pagina_para_swapear 0 tras_mov_out) bloques)
unfolding atender_cpu escribir_memoria_cpu marcar_pag_modificada cambiar_bit_modificado
    marco_desde_df obtener_proceso_pid obtener_entrada_con_marco
    actualizo_entrada_para_futuro_reemplazo agregar_pagina_fifo mismo_id_bloque atender_page_fault
    obtener_marco_para reemplazar pagina_a_reemplazar pedido_escritura_swap
    cargar_pagina_swap_en_memoria escribir_pag_en_memoria hay_marcos_libres leer_pagina_para_swapear
pedidos =
    luego (luego ninguno (cpu (mov_out_cpu 9 0) {m' = tras_mov_out} refl))
      (page_fault 1 1 {m' = tras_page_fault} refl)

Atendidos-IsMemoria_example : IsMemoria (λ a. 1) tras_page_fault
Atendidos-IsMemoria_example = Atendidos-IsMemoria swap (λ a. 1) pedidos memoria-IsMemoria
