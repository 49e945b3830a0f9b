-- ===== src/Testigos/Sistema.antt =====
-- Requests on the swap area: three blocks, of two bytes each.
use so_2c_2023_no_me_queme.Base.{refl, ℕ, ◌+◌, ◌≤◌, ◌≡◌, none, List, [], ◌∷◌, arith}
use so_2c_2023_no_me_queme.Memoria.Estado.{Entrada, Memoria, fifo}
use so_2c_2023_no_me_queme.Memoria.Fallo.{pedido_escritura_swap}
use so_2c_2023_no_me_queme.Filesystem.Swap.{
  AreaSwap, inicializar_swap, lista_bloques_swap_reservados, marcar, primer_libre,
  obtener_primer_bloque_libre_swap, liberar_bloques_swap, escribir_bloque_swap,
}
use so_2c_2023_no_me_queme.Filesystem.Swap.Servidor.{
  PedidoSwap, inicio_swap, escribir_bloque, atender_swap, Tenencia, Pedidos, ninguno, luego,
  empieza, termina, al_iniciar,
}
use so_2c_2023_no_me_queme.Filesystem.Swap.Servidor.Marcas.{veces_en, marcado}
use so_2c_2023_no_me_queme.Filesystem.Swap.Servidor.Reparto.{Pedidos-veces_en}
use so_2c_2023_no_me_queme.Sistema.Paginacion.{swap_del_filesystem}

-- A `free` that clears what it takes.
abbrev borrar : List ℕ → List ℕ
borrar [] = []
borrar (b ∷ bs) = 0 ∷ borrar bs

abbrev area : AreaSwap
area = record {
  tamanio_bloque = 2;
  tamanio_fat = 4;
  bloques_swap = 3;
  swap = inicializar_swap 3;
  archivo_bloques = λ j. 0;
}

abbrev con_marcas : List ℕ → AreaSwap
con_marcas xs = record area { swap = xs }

abbrev menos_1 : ℕ
menos_1 = 4294967295

-- One process takes two blocks, another the third; the first ends, and its two blocks go to a new
-- process.
abbrev al_final : Tenencia
al_final = record { area = con_marcas (1 ∷ 1 ∷ 1 ∷ []); tenidas = (0 ∷ 1 ∷ []) ∷ (2 ∷ []) ∷ [] }

pedidos : Pedidos (λ bs. bs) (al_iniciar area) al_final
unfolding atender_swap lista_bloques_swap_reservados marcar primer_libre
    obtener_primer_bloque_libre_swap liberar_bloques_swap inicializar_swap
pedidos =
    luego
      (luego
        (luego (luego ninguno (empieza 2 {s = con_marcas (1 ∷ 1 ∷ menos_1 ∷ [])} refl))
          (empieza 1 {s = con_marcas (1 ∷ 1 ∷ 1 ∷ [])} refl))
        (termina ((2 ∷ []) ∷ []) (0 ∷ 1 ∷ []) [] {s = con_marcas (menos_1 ∷ menos_1 ∷ 1 ∷ [])} refl
          refl))
      (empieza 2 {s = con_marcas (1 ∷ 1 ∷ 1 ∷ [])} refl)

Pedidos-veces_en_example :
    (veces_en 1 al_final.tenidas ≡ marcado al_final.area.swap 1) × (veces_en 1 al_final.tenidas ≤ 1)
Pedidos-veces_en_example = Pedidos-veces_en (λ bs. bs) area (omega arith) pedidos 1

abbrev entrada : Entrada
entrada = record {
  indice = 0;
  marco = 1;
  bit_presencia = 1;
  bit_modificado = 1;
  id_bloque_swap = 0;
  tiempo_lru = 0;
}

abbrev memoria : Memoria
memoria = record {
  tamanio_memoria = 4;
  tamanio_pagina = 2;
  algoritmo_pags = fifo;
  marcos = [];
  entradas = λ a. none;
  proxima = 0;
  procesos_totales = [];
  paginas_utilizadas = [];
  contador_lru = 0;
  memoria_usuario = λ j. 5 + j;
}

abbrev otros : List PedidoSwap
otros = inicio_swap 1 ∷ escribir_bloque 2 (8 ∷ 9 ∷ []) ∷ []

abbrev area_luego : AreaSwap
area_luego =
    escribir_bloque_swap 2 (8 ∷ 9 ∷ [])
      (record (pedido_escritura_swap (swap_del_filesystem borrar) entrada memoria area) {
        swap = 1 ∷ menos_1 ∷ menos_1 ∷ [];
      })
