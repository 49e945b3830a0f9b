-- ===== src/Memoria/Estado.antt =====
-- memoria/include/memoria.h and shared/include/shared_utils.h: the state of memoria.
use so_2c_2023_no_me_queme.Base.{
  ℕ, ◌-◌, ◌^◌, Option, none, some, List, ◌==◌, if◌then◌else◌, Bool, false,
}
use so_2c_2023_no_me_queme.Shared.Instruccion.{Instruccion}

-- The pid of a free frame, the frame of an absent page: -1, as a bit pattern.
abbrev pub libre : ℕ
libre = 2 ^ 32 - 1

-- `MAX_LRU`
abbrev pub max_lru : ℕ
max_lru = 999999

-- `t_entrada_tabla_pag`
pub record Entrada : Type 0 where
  pub indice : ℕ
  pub marco : ℕ
  pub bit_presencia : ℕ
  pub bit_modificado : ℕ
  pub id_bloque_swap : ℕ
  pub tiempo_lru : ℕ

-- `t_marco`
pub record Marco : Type 0 where
  pub pid : ℕ
  pub num_de_marco : ℕ

-- `t_proceso_memoria`, its `t_tabla_paginas` inlined; an entry of the table is a pointer.
pub record Proceso : Type 0 where
  pub pid : ℕ
  pub tamano : ℕ
  pub path : List ℕ
  pub instrucciones : List Instruccion
  pub entradas_tabla : List ℕ
  pub cantidad_paginas : ℕ

-- `t_algoritmo`, the two values that memoria uses.
pub data Algoritmo : Type 0 where
  fifo lru : Algoritmo

-- The globals of memoria.h. `entradas` is the heap of page-table entries: `none` is an address
-- that was not allocated or was freed, and `proxima` the next one that `malloc` gives.
pub record Memoria : Type 0 where
  pub tamanio_memoria : ℕ
  pub tamanio_pagina : ℕ
  pub algoritmo_pags : Algoritmo
  pub marcos : List Marco
  pub entradas : ℕ → Option Entrada
  pub proxima : ℕ
  pub procesos_totales : List Proceso
  pub paginas_utilizadas : List ℕ
  pub contador_lru : ℕ
  pub memoria_usuario : ℕ → ℕ

-- A write through a pointer to an entry.
abbrev pub mod_entrada : ℕ → (Entrada → Entrada) → (ℕ → Option Entrada) → ℕ → Option Entrada
mod_entrada a f h b = if a == b then elim (h b) [ none ↦ none | some e ↦ some (f e) ] else h b

-- `tiene_bit_presencia_igual_a_1`
abbrev pub presente : (ℕ → Option Entrada) → ℕ → Bool
presente h a = elim (h a) [ none ↦ false | some e ↦ e.bit_presencia == 1 ]
