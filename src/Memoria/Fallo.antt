-- ===== src/Memoria/Fallo.antt =====
-- memoria/src/memoria.c, case PAGE_FAULT_KERNEL of `manejo_conexion_kernel`. The swap area of the
-- filesystem is reached over a socket: it is a state with a read and a write. `none` is a null
-- pointer; an answer of another operation code is `none` of `leer`, which leaves the frame as it is.
pub mod Invariante
pub mod Victima
pub mod Puesta
pub mod Conserva
use so_2c_2023_no_me_queme.Base.{
  ℕ, zero, suc, ◌+◌, ◌-◌, ◌*◌, ◌/◌, ◌%◌, ◌^◌, ◌≤◌, ◌<◌, ◌≡◌, ◌≢◌, refl, ap, Option, none, some,
  List, [], ◌∷◌, ◌++◌, arith, length, get_elem?, set, ◌==◌, ltb, leb, if◌then◌else◌, Bool, true,
  false, Bool-cases, inl, inr, ◌&&◌, ◌⊎◌, Option-cases, map,
}
use so_2c_2023_no_me_queme.Base.Opt.{◌>>=◌}
use so_2c_2023_no_me_queme.Memoria.Estado.{
  libre, Entrada, Marco, Proceso, Memoria, mod_entrada, presente,
}
use so_2c_2023_no_me_queme.Memoria.Marcos.{hay_marcos_libres, asignar_marco_libre}
use so_2c_2023_no_me_queme.Memoria.Paginas.{pagina_a_reemplazar}
use so_2c_2023_no_me_queme.Memoria.Usuario.{
  obtener_proceso_pid, escribir_pag_en_memoria, leer_pagina_para_swapear,
}

-- What memoria asks of the filesystem: the content of a swap block, and a block written.
pub record Swap (S : Type 0) : Type 0 where
  pub leer : ℕ → S → Option (List ℕ)
  pub escribir : ℕ → List ℕ → S → S

unfoldable pub liberar_presencia_pagina : ℕ → (ℕ → Option Entrada) → (ℕ → Option Entrada)
liberar_presencia_pagina a =
    mod_entrada a (λ x. record x { marco = libre; bit_presencia = 0; bit_modificado = 0 })

abbrev pub poner_marco : ℕ → ℕ → (ℕ → Option Entrada) → (ℕ → Option Entrada)
poner_marco a k = mod_entrada a (λ x. record x { marco = k; bit_presencia = 1; bit_modificado = 0 })

-- A free frame goes to the page.
unfoldable pub ocupar_libre : ℕ → ℕ → Memoria → Option (ℕ × Memoria)
ocupar_libre pid a m = do
  (k, ms) ← asignar_marco_libre pid m.marcos
  some (k, record m { marcos = ms; entradas = poner_marco a k m.entradas })

module _ {S : Type 0} (sw : Swap S) where
  -- A modified page goes to its swap block.
  unfoldable pub pedido_escritura_swap : Entrada → Memoria → S → S
  pedido_escritura_swap e m s =
      if e.bit_modificado == 1
      then sw.escribir e.id_bloque_swap (leer_pagina_para_swapear e.marco m) s
      else s

  -- No frame is free: the chosen page leaves its frame to the one that is needed.
  unfoldable pub reemplazar : ℕ → ℕ → Memoria → S → Option (ℕ × Memoria × S)
  reemplazar pid a m s = do
    (v, m0) ← pagina_a_reemplazar m
    victima ← m0.entradas v
    marco_real ← get_elem? m0.marcos victima.marco
    proceso_swapeado ← obtener_proceso_pid marco_real.pid m0
    some (
      victima.marco,
      record m0 {
        marcos = set m0.marcos victima.marco (record marco_real { pid = pid });
        entradas = poner_marco a marco_real.num_de_marco (liberar_presencia_pagina v m0.entradas);
      },
      pedido_escritura_swap victima m0 s,
    )

  unfoldable pub obtener_marco_para : ℕ → ℕ → Memoria → S → Option (ℕ × Memoria × S)
  obtener_marco_para pid a m s =
      if hay_marcos_libres m.marcos
      then (do (k, m') ← ocupar_libre pid a m; some (k, m', s))
      else reemplazar pid a m s

  -- The page's block is read into the frame.
  unfoldable pub cargar_pagina_swap_en_memoria : ℕ → ℕ → Memoria → S → Memoria
  cargar_pagina_swap_en_memoria id marco m s = elim (sw.leer id s) [
    | none ↦ m
    | some bloque ↦ escribir_pag_en_memoria bloque marco m
  ]

  -- The whole case: `none` where the code would follow a null pointer.
  unfoldable pub atender_page_fault : ℕ → ℕ → Memoria → S → Option (Memoria × S)
  atender_page_fault pid nro_pag m s = do
    proceso ← obtener_proceso_pid pid m
    a ← get_elem? proceso.entradas_tabla nro_pag
    entrada ← m.entradas a
    (k, m', s') ← obtener_marco_para pid a m s
    some (cargar_pagina_swap_en_memoria entrada.id_bloque_swap k m' s', s')
