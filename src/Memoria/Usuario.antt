-- ===== src/Memoria/Usuario.antt =====
-- memoria/src/memoria.c, section MEMORIA USUARIO: the bytes of the processes' pages.
pub mod MovOut
use so_2c_2023_no_me_queme.Base.{
  ℕ, zero, suc, ◌+◌, ◌-◌, ◌*◌, ◌/◌, ◌%◌, ◌^◌, ◌≤◌, ◌<◌, ◌≡◌, ◌≢◌, refl, ap, Option, none, some,
  List, [], ◌∷◌, ◌++◌, arith, length, get_elem?, set, ◌==◌, ltb, leb, if◌then◌else◌, Bool, true,
  false, Bool-cases, inl, inr, ◌&&◌, ◌⊎◌, Option-cases,
}
use so_2c_2023_no_me_queme.Base.Copia.{copiar_a, copiar_de}
use so_2c_2023_no_me_queme.Base.Opt.{◌>>=◌, ◌>>◌, guard}
use so_2c_2023_no_me_queme.Shared.Bytes.{bytes_int, leer_int, int_max, leer_int_end}
use so_2c_2023_no_me_queme.Memoria.Estado.{Entrada, Marco, Proceso, Memoria, mod_entrada, presente}
use so_2c_2023_no_me_queme.Memoria.Paginas.{actualizo_entrada_para_futuro_reemplazo}

-- The first process with the pid, as `list_find` gives it.
unfoldable pub buscar_pid : ℕ → List Proceso → Option Proceso
buscar_pid pid [] = none
buscar_pid pid (p ∷ ps) = let resto = buscar_pid pid ps in if p.pid == pid then some p else resto

unfoldable pub obtener_proceso_pid : ℕ → Memoria → Option Proceso
unfolding buscar_pid
obtener_proceso_pid pid m = buscar_pid pid m.procesos_totales

unfoldable pub escribir_pag_en_memoria : List ℕ → ℕ → Memoria → Memoria
escribir_pag_en_memoria valor num_marco m = record m {
  memoria_usuario = copiar_a m.memoria_usuario (num_marco * m.tamanio_pagina) valor;
}

unfoldable pub leer_pagina_para_swapear : ℕ → Memoria → List ℕ
leer_pagina_para_swapear marco m =
    copiar_de m.memoria_usuario (marco * m.tamanio_pagina) m.tamanio_pagina

-- The bytes lie in the user memory, which has `tamanio_memoria` of them.
abbrev pub dentro : ℕ → ℕ → Memoria → Bool
dentro dir n m = leb (dir + n) m.tamanio_memoria

-- The frame of a physical address; `none` is the null pointer of a frame that is not there.
unfoldable pub marco_desde_df : ℕ → Memoria → Option Marco
marco_desde_df df m = get_elem? m.marcos (df / m.tamanio_pagina)

-- `obtener_entrada_con_marco` over `obtener_entradas_con_bit_presencia_1`: the first present entry
-- of the table that holds the frame.
unfoldable pub obtener_entrada_con_marco : (ℕ → Option Entrada) → ℕ → List ℕ → Option ℕ
obtener_entrada_con_marco h marco [] = none
obtener_entrada_con_marco h marco (a ∷ resto) =
    let queda = obtener_entrada_con_marco h marco resto in
    elim (h a) [
      | none ↦ queda
      | some e ↦
          if e.bit_presencia == 1 then (if e.marco == marco then some a else queda) else queda
    ]

-- Through the process and the index of the entry in its table.
unfoldable pub cambiar_bit_modificado : Proceso → ℕ → ℕ → Memoria → Option Memoria
cambiar_bit_modificado p indice valor m = do
  a ← get_elem? p.entradas_tabla indice
  e ← m.entradas a
  some (record m { entradas = mod_entrada a (λ x. record x { bit_modificado = valor }) m.entradas })

unfoldable pub marcar_pag_modificada : ℕ → ℕ → Memoria → Option Memoria
marcar_pag_modificada pid_mod marco_mod m = do
  proceso ← obtener_proceso_pid pid_mod m
  a ← obtener_entrada_con_marco m.entradas marco_mod proceso.entradas_tabla
  e ← m.entradas a
  m' ← cambiar_bit_modificado proceso e.indice 1 m
  some (actualizo_entrada_para_futuro_reemplazo a e m')

-- Outside the user memory the code writes past a buffer, which is `none`.
-- MOV_OUT: four bytes at the address, and the page is dirty and used.
unfoldable pub escribir_memoria_cpu : ℕ → ℕ → Memoria → Option Memoria
escribir_memoria_cpu dir_fisica valor m = do
  guard (dentro dir_fisica 4 m)
  let m1 = record m { memoria_usuario = copiar_a m.memoria_usuario dir_fisica (bytes_int valor) }
  marco ← marco_desde_df dir_fisica m1
  marcar_pag_modificada marco.pid marco.num_de_marco m1

-- The page of a physical address is used now.
unfoldable pub usar_pagina : ℕ → Memoria → Option Memoria
usar_pagina dir_fisica m = do
  marco ← marco_desde_df dir_fisica m
  proceso ← obtener_proceso_pid marco.pid m
  a ← obtener_entrada_con_marco m.entradas marco.num_de_marco proceso.entradas_tabla
  e ← m.entradas a
  some (actualizo_entrada_para_futuro_reemplazo a e m)

-- MOV_IN: the value at the address, and the page is used.
unfoldable pub leer_memoria_cpu : ℕ → Memoria → Option (ℕ × Memoria)
leer_memoria_cpu dir_fisica m = do
  guard (dentro dir_fisica 4 m)
  (valor_leido, r) ← leer_int (copiar_de m.memoria_usuario dir_fisica 4)
  m' ← usar_pagina dir_fisica m
  some (valor_leido, m')

-- F_WRITE of the filesystem reads a page from the address on.
unfoldable pub leer_memoria_fs : ℕ → Memoria → Option (List ℕ × Memoria)
leer_memoria_fs dir_fisica m = do
  guard (dentro dir_fisica m.tamanio_pagina m)
  m' ← usar_pagina dir_fisica m
  some (copiar_de m.memoria_usuario dir_fisica m.tamanio_pagina, m')

-- F_READ of the filesystem fills the frame of the address; the page is not marked.
unfoldable pub escribir_memoria_fs : ℕ → List ℕ → Memoria → Option Memoria
escribir_memoria_fs dir_fisica bloque m = do
  marco ← marco_desde_df dir_fisica m
  guard (dentro (marco.num_de_marco * m.tamanio_pagina) m.tamanio_pagina m)
  some (escribir_pag_en_memoria bloque marco.num_de_marco m)
