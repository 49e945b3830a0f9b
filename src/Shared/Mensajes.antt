-- ===== src/Shared/Mensajes.antt =====
-- The small messages between the modules: shared/src/shared_utils.c, and the ones that
-- memoria/src/memoria.c, cpu/src/cpu.c and kernel/src/kernel.c build by hand.
use so_2c_2023_no_me_queme.Base.{
  ◌∙◌, ◌^◌, ◌%◌, ◌*◌, ℕ, ◌+◌, ◌<◌, ◌≡◌, refl, Option, some, List, [], ◌∷◌, ◌++◌, arith, length,
  length-append,
}
use so_2c_2023_no_me_queme.Base.Opt.{◌>>=◌}
use native.Mathlib.Nat.{mod-eq_of_lt}
use so_2c_2023_no_me_queme.Shared.Bytes.{
  int_max, bytes_int, leer_int, leer_bytes, leer_int-bytes_int, leer_bytes_end, leer_int_end,
}
use so_2c_2023_no_me_queme.Shared.Paquete.{
  Paquete, enviar_paquete, recibir_con, recibir_con-enviar_paquete,
}

-- `op_code`
pub data OpCode : Type 0 where
  mensaje paquete handshake_cpu_dispatch handshake_cpu_interrupt handshake_filesystem
        handshake_kernel handshake_memoria handshake_cpu instruccion tamano_pagina
        inicializar_proceso proceso_inicializado finalizar_proceso pedido_instruccion contexto
        interrupcion f_read_fs f_write_fs inicio_swap lista_bloques_swap swap_a_liberar
        swap_liberada leer_bloque valor_bloque escribir_bloque escritura_bloque_ok mov_in_cpu
        mov_out_cpu instruccion_memoria_ok marco page_fault_kernel marco_page_fault pagina_cargada
        handshake_filesystem_ops :
      OpCode

abbrev pub codigo_op : OpCode → ℕ
codigo_op mensaje = 0
codigo_op paquete = 1
codigo_op handshake_cpu_dispatch = 2
codigo_op handshake_cpu_interrupt = 3
codigo_op handshake_filesystem = 4
codigo_op handshake_kernel = 5
codigo_op handshake_memoria = 6
codigo_op handshake_cpu = 7
codigo_op instruccion = 8
codigo_op tamano_pagina = 9
codigo_op inicializar_proceso = 10
codigo_op proceso_inicializado = 11
codigo_op finalizar_proceso = 12
codigo_op pedido_instruccion = 13
codigo_op contexto = 14
codigo_op interrupcion = 15
codigo_op f_read_fs = 16
codigo_op f_write_fs = 17
codigo_op inicio_swap = 18
codigo_op lista_bloques_swap = 19
codigo_op swap_a_liberar = 20
codigo_op swap_liberada = 21
codigo_op leer_bloque = 22
codigo_op valor_bloque = 23
codigo_op escribir_bloque = 24
codigo_op escritura_bloque_ok = 25
codigo_op mov_in_cpu = 26
codigo_op mov_out_cpu = 27
codigo_op instruccion_memoria_ok = 28
codigo_op marco = 29
codigo_op page_fault_kernel = 30
codigo_op marco_page_fault = 31
codigo_op pagina_cargada = 32
codigo_op handshake_filesystem_ops = 33

mensaje_con : ℕ → List ℕ → Paquete
mensaje_con codigo stream = record {
  codigo_operacion = codigo;
  buffer = record { size = length stream; stream = stream };
}

codigo_op-lt : (op : OpCode) → codigo_op op < int_max
codigo_op-lt mensaje = omega arith
codigo_op-lt _ = omega arith

-- `enviar_op_con_int`, and with it `enviar_pid`, `enviar_marco_cpu`, `enviar_valor_mov_in_cpu`,
-- `pedido_lectura_swap`, `pedido_inicio_swap` and `send_page_size`, which build the same packet.
pub enviar_op_con_int : ℕ → ℕ → List ℕ
unfolding mensaje_con
enviar_op_con_int code entero = enviar_paquete (mensaje_con code (bytes_int entero))

-- `recibir_int`, `recibir_pid`, `recibir_marco` and `recibir_valor_memoria`, on a received buffer.
pub recibir_int : List ℕ → Option ℕ
recibir_int buffer = do (entero, r) ← leer_int buffer; some entero

-- A message of two `int`s: `enviar_pedido_marco`, `ask_instruccion_pid_pc`, `enviar_pf`,
-- `enviar_mov_out` and `enviar_interrupcion`, each with its own operation code.
pub enviar_dos_int : ℕ → ℕ → ℕ → List ℕ
unfolding mensaje_con
enviar_dos_int code a b = enviar_paquete (mensaje_con code (bytes_int a ++ bytes_int b))

-- `recibir_pedido_marco`, `pedido_instruccion`, `recibir_pf_kernel`, `recibir_mov_out_cpu` and
-- `recibir_interrupcion`, on a received buffer.
pub recibir_dos_int : List ℕ → Option (ℕ × ℕ)
recibir_dos_int buffer = do (a, r) ← leer_int buffer; (b, r') ← leer_int r; some (a, b)

-- CPU to memoria: which frame holds a page.
pub enviar_pedido_marco : ℕ → ℕ → List ℕ
unfolding enviar_dos_int
enviar_pedido_marco pagina pid = enviar_dos_int (codigo_op marco) pid pagina

pub recibir_pedido_marco : List ℕ → Option (ℕ × ℕ)
unfolding recibir_dos_int
recibir_pedido_marco buffer = recibir_dos_int buffer

-- CPU to memoria: the instruction at a program counter.
pub ask_instruccion_pid_pc : ℕ → ℕ → List ℕ
unfolding enviar_dos_int
ask_instruccion_pid_pc pid pc = enviar_dos_int (codigo_op pedido_instruccion) pid pc

pub recibir_pedido_instruccion : List ℕ → Option (ℕ × ℕ)
unfolding recibir_dos_int
recibir_pedido_instruccion buffer = recibir_dos_int buffer

-- CPU to memoria: a value and the physical address to write it at.
pub enviar_mov_out : ℕ → ℕ → List ℕ
unfolding enviar_dos_int
enviar_mov_out df valor = enviar_dos_int (codigo_op mov_out_cpu) valor df

pub recibir_mov_out_cpu : List ℕ → Option (ℕ × ℕ)
unfolding recibir_dos_int
recibir_mov_out_cpu buffer = recibir_dos_int buffer

-- Kernel to memoria: the page that a process lacks.
pub enviar_pf : ℕ → ℕ → ℕ → List ℕ
unfolding enviar_dos_int
enviar_pf code num_pag pid = enviar_dos_int code pid num_pag

pub recibir_pf_kernel : List ℕ → Option (ℕ × ℕ)
unfolding recibir_dos_int
recibir_pf_kernel buffer = recibir_dos_int buffer

-- Kernel to CPU: an interruption, its reason and the pid.
pub enviar_interrupcion : ℕ → ℕ → List ℕ
unfolding enviar_dos_int
enviar_interrupcion motivo pid = enviar_dos_int (codigo_op interrupcion) motivo pid

pub recibir_interrupcion : List ℕ → Option (ℕ × ℕ)
unfolding recibir_dos_int
recibir_interrupcion buffer = recibir_dos_int buffer

-- Kernel to memoria: a new process, its pid, its size and the path of its program; the path goes
-- with its terminator, and its length in front.
pub serializar_pedido_proceso_nuevo : Paquete → ℕ → ℕ → List ℕ → Paquete
serializar_pedido_proceso_nuevo p pid size path = record p {
  buffer = record {
    size = (p.buffer.size + (4 * 3 + length path + 1)) % 2 ^ 32;
    stream =
        bytes_int pid ++ (bytes_int size ++ (bytes_int (length path + 1) ++ (path ++ (0 ∷ []))));
  };
}

-- The pid, the size and the path's bytes, terminator included.
pub recibir_proceso_nuevo : List ℕ → Option (ℕ × ℕ × List ℕ)
recibir_proceso_nuevo buffer = do
  (pid, r1) ← leer_int buffer
  (tamano, r2) ← leer_int r1
  (long_path, r3) ← leer_int r2
  (path, r4) ← leer_bytes long_path r3
  some (pid, tamano, path)

recibir_con-mensaje {ℓ} :
    {A : Type ℓ} (decodificar : List ℕ → Option A) (cod : ℕ) (datos resto : List ℕ) {a : A}
    → cod < int_max
    → length datos < int_max
    → decodificar datos ≡ some a
    → recibir_con decodificar (enviar_paquete (mensaje_con cod datos) ++ resto) ≡ some (cod, a)
unfolding mensaje_con
recibir_con-mensaje decodificar cod datos resto hc hd e =
    recibir_con-enviar_paquete decodificar (mensaje_con cod datos) resto
      (record { codigo_ok = hc; size_ok = hd; stream_ok = refl }) e

recibir_con-dos_int :
    (cod a b : ℕ) (resto : List ℕ)
    → cod < int_max
    → a < int_max
    → b < int_max
    → recibir_con recibir_dos_int (enviar_dos_int cod a b ++ resto) ≡ some (cod, (a, b))
unfolding enviar_dos_int
recibir_con-dos_int cod a b resto hc ha hb =
    recibir_con-mensaje recibir_dos_int cod (bytes_int a ++ bytes_int b) resto hc
      (unfold bytes_int in omega arith)
      (unfold recibir_dos_int in simp (leer_int-bytes_int a (bytes_int b) ha, leer_int_end b hb))

-- Every two-field message is understood: the receiver of each reads the code of its operation and
-- the two 32-bit fields in the order in which it uses them.
pub pedidos_llegan :
    (a b : ℕ) (resto : List ℕ)
    → a < int_max
    → b < int_max
    → (recibir_con recibir_pedido_marco (enviar_pedido_marco b a ++ resto)
        ≡ some (codigo_op marco, (a, b)))
      × (recibir_con recibir_pedido_instruccion (ask_instruccion_pid_pc a b ++ resto)
          ≡ some (codigo_op pedido_instruccion, (a, b)))
      × (recibir_con recibir_mov_out_cpu (enviar_mov_out b a ++ resto)
          ≡ some (codigo_op mov_out_cpu, (a, b)))
      × (recibir_con recibir_pf_kernel (enviar_pf (codigo_op page_fault_kernel) b a ++ resto)
          ≡ some (codigo_op page_fault_kernel, (a, b)))
      × (recibir_con recibir_interrupcion (enviar_interrupcion a b ++ resto)
          ≡ some (codigo_op interrupcion, (a, b)))
unfolding recibir_pedido_marco enviar_pedido_marco recibir_pedido_instruccion ask_instruccion_pid_pc
    recibir_mov_out_cpu enviar_mov_out recibir_pf_kernel enviar_pf recibir_interrupcion
    enviar_interrupcion
pedidos_llegan a b resto ha hb = (
  recibir_con-dos_int _ a b resto (codigo_op-lt marco) ha hb,
  recibir_con-dos_int _ a b resto (codigo_op-lt pedido_instruccion) ha hb,
  recibir_con-dos_int _ a b resto (codigo_op-lt mov_out_cpu) ha hb,
  recibir_con-dos_int _ a b resto (codigo_op-lt page_fault_kernel) ha hb,
  recibir_con-dos_int _ a b resto (codigo_op-lt interrupcion) ha hb,
)

-- An operation code sent with one `int` is read back with that value.
pub recibir_int-enviar_op_con_int :
    (op : OpCode) (entero : ℕ) (resto : List ℕ)
    → entero < int_max
    → recibir_con recibir_int (enviar_op_con_int (codigo_op op) entero ++ resto)
      ≡ some (codigo_op op, entero)
unfolding enviar_op_con_int
recibir_int-enviar_op_con_int op entero resto h =
    recibir_con-mensaje recibir_int (codigo_op op) (bytes_int entero) resto (codigo_op-lt op)
      (unfold bytes_int in omega arith) (unfold recibir_int in rw (leer_int_end entero h))

-- Memoria learns of a new process what the kernel sent in a packet without content, whatever stands
-- behind it on the socket: the pid, the size and the terminated path. The conditions: the fields and
-- the size of the buffer fit in an `int`.
pub recibir-serializar_pedido_proceso_nuevo :
    (p : Paquete) (pid size : ℕ) (path resto : List ℕ)
    → p.codigo_operacion < int_max
    → p.buffer.size ≡ 0
    → pid < int_max
    → size < int_max
    → length path + 13 < 2 ^ 31
    → recibir_con recibir_proceso_nuevo
        (enviar_paquete (serializar_pedido_proceso_nuevo p pid size path) ++ resto)
      ≡ some (p.codigo_operacion, (pid, size, path ++ (0 ∷ [])))
unfolding recibir_proceso_nuevo serializar_pedido_proceso_nuevo bytes_int
recibir-serializar_pedido_proceso_nuevo p pid size path resto h0 v h1 h2 h3 =
    let largo = length-append path (0 ∷ []) in
    let tam : (p.buffer.size + (4 * 3 + length path + 1)) % 2 ^ 32 ≡ 4 * 3 + length path + 1 =
      mod-eq_of_lt (omega (arith, v, h3)) ∙ omega (arith, v) in
    recibir_con-enviar_paquete recibir_proceso_nuevo
      (serializar_pedido_proceso_nuevo p pid size path) resto
      (record {
        codigo_ok = h0;
        size_ok = ground (arith, tam, h3);
        stream_ok = ground (arith, tam, largo);
      })
      (simp (
        leer_int-bytes_int pid _ h1,
        leer_int-bytes_int size _ h2,
        leer_int-bytes_int (length path + 1) _ (omega (arith, h3)),
        leer_bytes_end (path ++ (0 ∷ [])) (length path + 1) (omega (arith, largo)),
      ))
