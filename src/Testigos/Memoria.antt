-- ===== src/Testigos/Memoria.antt =====
-- Concrete inputs of the theorems on memoria/.
use so_2c_2023_no_me_queme.Base.{
  ℕ, zero, suc, ◌+◌, ◌<◌, ◌≤◌, ◌≡◌, ◌⊎◌, ◌%◌, ◌*◌, ◌/◌, refl, Option, none, some, List, [], ◌∷◌,
  arith,
}
use so_2c_2023_no_me_queme.Memoria.Estado.{Entrada, Marco, Proceso, Memoria, lru, libre, max_lru}
use so_2c_2023_no_me_queme.Memoria.Marcos.{
  hay_marcos_libres, asignar_marco_libre, Asignado, asignar-Asignado, liberar_marcos_proceso,
  sin_pid, liberar_marcos_proceso_lem,
}
use so_2c_2023_no_me_queme.Memoria.Paginas.{
  obtener_entrada_menor_tiempo_lru, obtener_entrada_menor_tiempo_lru_lem, TodosDesde, Esta,
  tiempo_lru,
}
use so_2c_2023_no_me_queme.Memoria.Procesos.{
  paginas_necesarias_proceso, paginas_necesarias_proceso_lem,
}
use so_2c_2023_no_me_queme.Memoria.Usuario.{
  marco_desde_df, obtener_proceso_pid, obtener_entrada_con_marco, escribir_memoria_cpu,
  leer_memoria_cpu,
}
use so_2c_2023_no_me_queme.Memoria.Usuario.MovOut.{Mapeada, mov_out-mov_in}

abbrev marcos : List Marco
marcos = record { pid = 1; num_de_marco = 0 } ∷ record { pid = libre; num_de_marco = 1 } ∷ []

asignar-Asignado_example :
    (k : ℕ) × (ms' : List Marco) × (asignar_marco_libre 2 marcos ≡ some (k, ms'))
    × Asignado 2 marcos 0 k ms'
unfolding hay_marcos_libres
asignar-Asignado_example = asignar-Asignado 2 0 marcos (refl, (refl, tt)) refl

liberar_marcos_proceso_lem_example : liberar_marcos_proceso 1 marcos ≡ some (sin_pid 1 marcos)
liberar_marcos_proceso_lem_example = liberar_marcos_proceso_lem 1 marcos (refl, (refl, tt))

abbrev pub entrada0 : Entrada
entrada0 = record {
  indice = 0;
  marco = 0;
  bit_presencia = 1;
  bit_modificado = 0;
  id_bloque_swap = 5;
  tiempo_lru = 3;
}

abbrev entradas : ℕ → Option Entrada
entradas zero = some entrada0
entradas (suc a) = none

obtener_entrada_menor_tiempo_lru_lem_example :
    ((obtener_entrada_menor_tiempo_lru entradas (0 ∷ []) ≡ none)
      × TodosDesde entradas max_lru (0 ∷ []))
    ⊎ ((a : ℕ) × (obtener_entrada_menor_tiempo_lru entradas (0 ∷ []) ≡ some a)
        × Esta a (0 ∷ [])
        × (tiempo_lru entradas a < max_lru)
        × TodosDesde entradas (tiempo_lru entradas a) (0 ∷ []))
obtener_entrada_menor_tiempo_lru_lem_example =
    obtener_entrada_menor_tiempo_lru_lem entradas (0 ∷ [])

paginas_necesarias_proceso_lem_example :
    (10 ≤ paginas_necesarias_proceso 10 4 * 4)
    × (10 % 4 ≡ 0 → paginas_necesarias_proceso 10 4 ≡ 10 / 4)
    × (0 < 10 % 4 → paginas_necesarias_proceso 10 4 ≡ 10 / 4 + 2)
paginas_necesarias_proceso_lem_example = paginas_necesarias_proceso_lem 10 4 (omega arith)

abbrev pub proceso : Proceso
proceso = record {
  pid = 1;
  tamano = 4;
  path = [];
  instrucciones = [];
  entradas_tabla = 0 ∷ [];
  cantidad_paginas = 1;
}

abbrev pub memoria : Memoria
memoria = record {
  tamanio_memoria = 8;
  tamanio_pagina = 4;
  algoritmo_pags = lru;
  marcos = marcos;
  entradas = entradas;
  proxima = 1;
  procesos_totales = proceso ∷ [];
  paginas_utilizadas = [];
  contador_lru = 3;
  memoria_usuario = λ j. 0;
}

mapeada : Mapeada 0 memoria
unfolding marco_desde_df obtener_proceso_pid obtener_entrada_con_marco
mapeada = record {
  marco = record { pid = 1; num_de_marco = 0 };
  proceso = proceso;
  pagina = 0;
  entrada = entrada0;
  marco_ok = refl;
  proceso_ok = refl;
  pagina_ok = refl;
  entrada_ok = refl;
  indice_ok = refl;
}

mov_out-mov_in_example :
    (m' : Memoria) × (m'' : Memoria) × (escribir_memoria_cpu 0 1000 memoria ≡ some m')
    × (leer_memoria_cpu 0 m' ≡ some (1000, m''))
    × ((j : ℕ) → (j < 0) ⊎ (0 + 4 ≤ j) → m'.memoria_usuario j ≡ 0)
    × (m'.entradas mapeada.pagina
        ≡ some (record mapeada.entrada { bit_modificado = 1; tiempo_lru = 4 }))
mov_out-mov_in_example =
    mov_out-mov_in 0 1000 memoria mapeada (omega arith) (omega arith) (omega arith)
