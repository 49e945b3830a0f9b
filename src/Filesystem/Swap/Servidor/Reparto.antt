-- ===== src/Filesystem/Swap/Servidor/Reparto.antt =====
-- Which process holds which swap block, and the marks of the server.
use so_2c_2023_no_me_queme.Base.{
  ℕ, ◌^◌, ◌≤◌, ◌≡◌, ap, sym, List, [], ◌∷◌, ◌++◌, arith, length, ltb, if◌then◌else◌,
}
use so_2c_2023_no_me_queme.Base.Opt.{Todo, Todo->>=, Todo-some}
use so_2c_2023_no_me_queme.Filesystem.Swap.{
  AreaSwap, menos_uno, inicializar_swap, escribir_bloque_swap, lista_bloques_swap_reservados,
}
use so_2c_2023_no_me_queme.Filesystem.Swap.Servidor.{
  atender_swap, inicio_swap, swap_a_liberar, leer_bloque, escribir_bloque, lista_bloques_swap,
  RespuestaSwap, swap_liberada, valor_bloque, escritura_bloque_ok, sin_respuesta, Tenencia, Pedido,
  empieza, termina, lee, escribe, Pedidos, ninguno, luego, al_iniciar,
}
use so_2c_2023_no_me_queme.Filesystem.Swap.Servidor.Marcas.{
  veces_en, marcado, Dados, marcado_le, lista_bloques_swap_reservados-Dados,
  liberar_bloques_swap-marcado, liberar_bloques_swap-length, veces_en-append, replicate-marcado,
  length-replicate,
}

-- The marks are those of the blocks that processes hold.
pub record IsRepartido (t : Tenencia) : Type 0 where
  pub cuenta : (b : ℕ) → veces_en b t.tenidas ≡ marcado t.area.swap b
  pub largo : length t.area.swap ≤ menos_uno

abbrev pub lista_de : RespuestaSwap → List ℕ
lista_de (lista_bloques_swap l) = l
lista_de swap_liberada = []
lista_de (valor_bloque datos) = []
lista_de escritura_bloque_ok = []
lista_de sin_respuesta = []

abbrev RepartidoCon : List (List ℕ) → RespuestaSwap × AreaSwap → Type 0
RepartidoCon ls r = IsRepartido (record { area = r.1; tenidas = ls })

empieza-IsRepartido :
    (tras_free : List ℕ → List ℕ) (t : Tenencia) (n : ℕ)
    → IsRepartido t
    → Todo
        (λ r. RepartidoCon (lista_de r.0 ∷ t.tenidas) r)
        (atender_swap tras_free (inicio_swap n) t.area)
unfolding atender_swap
empieza-IsRepartido tras_free t n h =
    let cantidad = if ltb n (2 ^ 31) then n else 0 in
    Todo->>= (λ r. RepartidoCon (lista_de r.0 ∷ t.tenidas) r)
      (lista_bloques_swap_reservados cantidad t.area.swap) _
      (λ r e.
        let (cuenta, largo) =
          Todo-some (Dados t.area.swap) (lista_bloques_swap_reservados cantidad t.area.swap) e
            (lista_bloques_swap_reservados-Dados cantidad t.area.swap h.largo) in
        record {
          cuenta = λ b. omega (arith, h.cuenta b, cuenta b);
          largo = omega (arith, largo, h.largo);
        })

termina-IsRepartido :
    (tras_free : List ℕ → List ℕ) (t : Tenencia) (antes : List (List ℕ)) (l : List ℕ)
    (resto : List (List ℕ))
    → IsRepartido t
    → t.tenidas ≡ antes ++ (l ∷ resto)
    → Todo (RepartidoCon (antes ++ resto)) (atender_swap tras_free (swap_a_liberar l) t.area)
unfolding atender_swap
termina-IsRepartido tras_free t antes l resto h e = record {
  cuenta = λ b. ground (
    arith,
    h.cuenta b,
    ap (veces_en b) e,
    veces_en-append b antes (l ∷ resto),
    veces_en-append b antes resto,
    liberar_bloques_swap-marcado l t.area.swap b,
    marcado_le t.area.swap b,
  );
  largo = omega (arith, liberar_bloques_swap-length l t.area.swap, h.largo);
}

Pedido-IsRepartido :
    (tras_free : List ℕ → List ℕ) {t u : Tenencia}
    → Pedido tras_free t u
    → IsRepartido t
    → IsRepartido u
unfolding atender_swap escribir_bloque_swap
Pedido-IsRepartido tras_free {t} (empieza n e) h =
    Todo-some (λ r. RepartidoCon (lista_de r.0 ∷ t.tenidas) r)
      (atender_swap tras_free (inicio_swap n) t.area) e (empieza-IsRepartido tras_free t n h)
Pedido-IsRepartido tras_free {t} (termina antes l resto q e) h =
    Todo-some (RepartidoCon (antes ++ resto)) (atender_swap tras_free (swap_a_liberar l) t.area) e
      (termina-IsRepartido tras_free t antes l resto h q)
Pedido-IsRepartido tras_free {t} (lee b e) h =
    Todo-some (RepartidoCon t.tenidas) (atender_swap tras_free (leer_bloque b) t.area) e
      (record { cuenta = h.cuenta; largo = h.largo })
Pedido-IsRepartido tras_free {t} (escribe b datos e) h =
    Todo-some (RepartidoCon t.tenidas) (atender_swap tras_free (escribir_bloque b datos) t.area) e
      (record { cuenta = h.cuenta; largo = h.largo })

al_iniciar-IsRepartido : (s : AreaSwap) → s.bloques_swap ≤ menos_uno → IsRepartido (al_iniciar s)
unfolding inicializar_swap
al_iniciar-IsRepartido s h = record {
  cuenta = λ b. sym (replicate-marcado s.bloques_swap b);
  largo = omega (arith, length-replicate s.bloques_swap menos_uno, h);
}

Pedidos-IsRepartido :
    (tras_free : List ℕ → List ℕ) {t u : Tenencia}
    → IsRepartido t
    → Pedidos tras_free t u
    → IsRepartido u
Pedidos-IsRepartido tras_free h ninguno = h
Pedidos-IsRepartido tras_free h (luego ps p) =
    Pedido-IsRepartido tras_free p (Pedidos-IsRepartido tras_free h ps)

-- However processes start and end, and whatever blocks are read and written in between, the blocks
-- marked in the array are exactly those that processes hold, and no block is held twice. The
-- conditions: the array starts free and has at most 2 ^ 32 - 1 blocks, and a process that ends
-- gives back the list that it got.
pub Pedidos-veces_en :
    (tras_free : List ℕ → List ℕ) {t : Tenencia} (s : AreaSwap)
    → s.bloques_swap ≤ menos_uno
    → Pedidos tras_free (al_iniciar s) t
    → (b : ℕ) → (veces_en b t.tenidas ≡ marcado t.area.swap b) × (veces_en b t.tenidas ≤ 1)
Pedidos-veces_en tras_free {t} s h ps b =
    let r = Pedidos-IsRepartido tras_free (al_iniciar-IsRepartido s h) ps in
    (r.cuenta b, omega (arith, r.cuenta b, marcado_le t.area.swap b))
