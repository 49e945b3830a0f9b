-- ===== src/Filesystem/Swap/Servidor.antt =====
-- filesystem/src/filesystem.c: `manejo_conexion_memoria_swap`, the requests of memoria on the swap
-- area.
pub mod Marcas
pub mod Reparto
use so_2c_2023_no_me_queme.Base.{
  ℕ, ◌+◌, ◌%◌, ◌^◌, ◌≡◌, Option, none, some, List, [], ◌∷◌, ◌++◌, ltb, if◌then◌else◌, Bool,
  replicate,
}
use so_2c_2023_no_me_queme.Base.Opt.{◌>>=◌}
use so_2c_2023_no_me_queme.Filesystem.Swap.{
  AreaSwap, inicializar_swap, leer_bloque_swap, escribir_bloque_swap, liberar_bloques_swap,
  lista_bloques_swap_reservados,
}

-- The operation codes that the loop knows, with the fields of each packet.
pub data PedidoSwap : Type 0 where
  inicio_swap : ℕ → PedidoSwap
  swap_a_liberar : List ℕ → PedidoSwap
  leer_bloque : ℕ → PedidoSwap
  escribir_bloque : ℕ → List ℕ → PedidoSwap

-- `sin_respuesta`: a warning in the log, and no packet.
pub data RespuestaSwap : Type 0 where
  lista_bloques_swap : List ℕ → RespuestaSwap
  swap_liberada : RespuestaSwap
  valor_bloque : List ℕ → RespuestaSwap
  escritura_bloque_ok : RespuestaSwap
  sin_respuesta : RespuestaSwap

-- `a < b` of two `int`s.
abbrev pub menor_int : ℕ → ℕ → Bool
menor_int a b = ltb ((a + 2 ^ 31) % 2 ^ 32) ((b + 2 ^ 31) % 2 ^ 32)

-- `none` is a write outside the array of marks; a negative count runs no round.
-- `tras_free` is what the freed buffer of a read holds when it is sent.
unfoldable pub atender_swap :
    (List ℕ → List ℕ) → PedidoSwap → AreaSwap → Option (RespuestaSwap × AreaSwap)
atender_swap tras_free (inicio_swap cantidad_bloques) s =
    lista_bloques_swap_reservados (if ltb cantidad_bloques (2 ^ 31) then cantidad_bloques else 0)
      s.swap
    >>= λ r. some (lista_bloques_swap r.0, record s { swap = r.1 })
atender_swap tras_free (swap_a_liberar bloques_a_liberar) s =
    some (swap_liberada, record s { swap = liberar_bloques_swap bloques_a_liberar s.swap })
atender_swap tras_free (leer_bloque bloque_a_leer) s = some (
  (if menor_int bloque_a_leer s.bloques_swap
      then valor_bloque (leer_bloque_swap tras_free bloque_a_leer s)
      else sin_respuesta),
  s,
)
atender_swap tras_free (escribir_bloque id_bloque datos) s =
    some (escritura_bloque_ok, escribir_bloque_swap id_bloque datos s)

-- The server, and the lists of blocks that memoria holds: one for each process.
pub record Tenencia : Type 0 where
  pub area : AreaSwap
  pub tenidas : List (List ℕ)

-- Processes start and end, and their pages are read and written, in any order. A process that ends
-- gives back the list that it was given.
module _ (tras_free : List ℕ → List ℕ) where
  pub data Pedido (t : Tenencia) : Tenencia → Type 0 where
    empieza :
        (n : ℕ) {l : List ℕ} {s : AreaSwap}
        → atender_swap tras_free (inicio_swap n) t.area ≡ some (lista_bloques_swap l, s)
        → Pedido t (record { area = s; tenidas = l ∷ t.tenidas })
    termina :
        (antes : List (List ℕ)) (l : List ℕ) (luego : List (List ℕ)) {s : AreaSwap}
        → t.tenidas ≡ antes ++ (l ∷ luego)
        → atender_swap tras_free (swap_a_liberar l) t.area ≡ some (swap_liberada, s)
        → Pedido t (record { area = s; tenidas = antes ++ luego })
    lee :
        (b : ℕ) {r : RespuestaSwap} {s : AreaSwap}
        → atender_swap tras_free (leer_bloque b) t.area ≡ some (r, s)
        → Pedido t (record { area = s; tenidas = t.tenidas })
    escribe :
        (b : ℕ) (datos : List ℕ) {r : RespuestaSwap} {s : AreaSwap}
        → atender_swap tras_free (escribir_bloque b datos) t.area ≡ some (r, s)
        → Pedido t (record { area = s; tenidas = t.tenidas })

  pub data Pedidos (t : Tenencia) : Tenencia → Type 0 where
    ninguno : Pedidos t t
    luego : {u v : Tenencia} → Pedidos t u → Pedido u v → Pedidos t v

-- The server after `inicializar_swap`.
abbrev pub al_iniciar : AreaSwap → Tenencia
al_iniciar s = record { area = record s { swap = inicializar_swap s.bloques_swap }; tenidas = [] }
