-- ===== src/Sistema/Paginacion.antt =====
-- memoria/src/memoria.c and filesystem/src/filesystem.c: pages that go to the swap area and come
-- back. Memoria's view of the swap area is the server of the filesystem.
use so_2c_2023_no_me_queme.Base.{
  ℕ, zero, suc, ◌+◌, ◌*◌, ◌≡◌, ◌≢◌, refl, ap, Option, none, some, List, [], ◌∷◌, length,
}
use so_2c_2023_no_me_queme.Base.Opt.{◌>>=◌}
use so_2c_2023_no_me_queme.Base.Copia.{copiar_de, copiar_de-copiar_a}
use so_2c_2023_no_me_queme.Memoria.Estado.{Memoria}
use so_2c_2023_no_me_queme.Memoria.Usuario.{leer_pagina_para_swapear, escribir_pag_en_memoria}
use so_2c_2023_no_me_queme.Memoria.Fallo.{Swap}
use so_2c_2023_no_me_queme.Filesystem.Swap.{AreaSwap, leido_de_swap}
use so_2c_2023_no_me_queme.Filesystem.Swap.Bloques.{Cabe}
use so_2c_2023_no_me_queme.Filesystem.Swap.Servidor.{
  PedidoSwap, inicio_swap, swap_a_liberar, leer_bloque, escribir_bloque, RespuestaSwap,
  lista_bloques_swap, swap_liberada, valor_bloque, escritura_bloque_ok, sin_respuesta, atender_swap,
}

-- What `cargar_pagina_swap_en_memoria` takes from the answer; without one memoria goes on waiting,
-- which is `none` too.
unfoldable pub pagina_recibida : Option (RespuestaSwap × AreaSwap) → Option (List ℕ)
pagina_recibida none = none
pagina_recibida (some (lista_bloques_swap l, s)) = none
pagina_recibida (some (swap_liberada, s)) = none
pagina_recibida (some (valor_bloque datos, s)) = some datos
pagina_recibida (some (escritura_bloque_ok, s)) = none
pagina_recibida (some (sin_respuesta, s)) = none

abbrev area_despues : AreaSwap → Option (RespuestaSwap × AreaSwap) → AreaSwap
area_despues s none = s
area_despues s (some r) = r.1

-- The server of the filesystem, as memoria's interface of the swap area.
unfoldable pub swap_del_filesystem : (List ℕ → List ℕ) → Swap AreaSwap
unfolding atender_swap pagina_recibida
swap_del_filesystem tras_free = record {
  leer = λ id s. pagina_recibida (atender_swap tras_free (leer_bloque id) s);
  escribir = λ id datos s. area_despues s (atender_swap tras_free (escribir_bloque id datos) s);
}

-- Requests in order.
unfoldable pub atender_todos : (List ℕ → List ℕ) → List PedidoSwap → AreaSwap → Option AreaSwap
atender_todos tras_free [] s = some s
atender_todos tras_free (p ∷ ps) s = do
  (respuesta, s') ← atender_swap tras_free p s
  atender_todos tras_free ps s'

-- A request that leaves a block alone: it writes no block, or the whole of another one.
abbrev pub Ajeno : ℕ → AreaSwap → PedidoSwap → Type 0
Ajeno id s (inicio_swap n) = Unit
Ajeno id s (swap_a_liberar l) = Unit
Ajeno id s (leer_bloque b) = Unit
Ajeno id s (escribir_bloque b datos) = (b ≢ id) × Cabe b s × (length datos ≡ s.tamanio_bloque)

abbrev pub Ajenos : ℕ → AreaSwap → List PedidoSwap → Type 0
Ajenos id s [] = Unit
Ajenos id s (p ∷ ps) = Ajeno id s p × Ajenos id s ps

-- Both areas have the same sizes and the same bytes in the block.
abbrev Igual : ℕ → AreaSwap → AreaSwap → Type 0
Igual id s s' =
    (leido_de_swap id s' ≡ leido_de_swap id s)
    × (s'.tamanio_bloque ≡ s.tamanio_bloque)
    × (s'.tamanio_fat ≡ s.tamanio_fat)
    × (s'.bloques_swap ≡ s.bloques_swap)

pub length-copiar_de : (u : ℕ → ℕ) (dir n : ℕ) → length (copiar_de u dir n) ≡ n
unfolding copiar_de
length-copiar_de u dir zero = refl
length-copiar_de u dir (suc n) = ap suc (length-copiar_de u (dir + 1) n)

pub leer-escribir_pag :
    (datos : List ℕ) (marco : ℕ) (m : Memoria)
    → length datos ≡ m.tamanio_pagina
    → leer_pagina_para_swapear marco (escribir_pag_en_memoria datos marco m) ≡ datos
unfolding leer_pagina_para_swapear escribir_pag_en_memoria
leer-escribir_pag datos marco m l =
    copiar_de-copiar_a m.memoria_usuario (marco * m.tamanio_pagina) datos m.tamanio_pagina l
