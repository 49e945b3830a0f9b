-- ===== src/Shared/Paquete.antt =====
-- shared/src/shared_utils.c: packets, and their bytes on a socket. A socket is the list of bytes
-- still to be read; `none` is a closed connection or a read past a buffer.
use so_2c_2023_no_me_queme.Base.{
  ℕ, ◌<◌, ◌≡◌, Option, some, List, [], ◌++◌, length, take, take_all, append_assoc,
}
use so_2c_2023_no_me_queme.Base.Opt.{◌>>=◌}
use so_2c_2023_no_me_queme.Shared.Bytes.{
  int_max, bytes_int, leer_int, leer_bytes, leer_int-bytes_int, leer_bytes-append,
}

pub record Buffer : Type 0 where
  pub size : ℕ
  pub stream : List ℕ

pub record Paquete : Type 0 where
  pub codigo_operacion : ℕ
  pub buffer : Buffer

pub crear_buffer : Buffer
crear_buffer = record { size = 0; stream = [] }

pub crear_paquete_con_codigo_de_operacion : ℕ → Paquete
unfolding crear_buffer
crear_paquete_con_codigo_de_operacion codigo = record {
  codigo_operacion = codigo;
  buffer = crear_buffer;
}

pub serializar_paquete : Paquete → List ℕ
serializar_paquete p =
    bytes_int p.codigo_operacion ++ (bytes_int p.buffer.size ++ take p.buffer.size p.buffer.stream)

-- The bytes that `send` puts on the socket.
pub enviar_paquete : Paquete → List ℕ
unfolding serializar_paquete
enviar_paquete p = serializar_paquete p

pub recibir_operacion : List ℕ → Option (ℕ × List ℕ)
recibir_operacion socket = leer_int socket

pub recibir_buffer : List ℕ → Option (List ℕ × List ℕ)
recibir_buffer socket = do (size, s) ← leer_int socket; leer_bytes size s

-- `size` is the length of `stream`, and both header fields are 32-bit values.
pub record IsPaquete (p : Paquete) : Type 0 where
  pub codigo_ok : p.codigo_operacion < int_max
  pub size_ok : p.buffer.size < int_max
  pub stream_ok : length p.buffer.stream ≡ p.buffer.size

-- What `recibir_operacion` and then `recibir_buffer` take from a socket.
pub recibir_mensaje_completo : List ℕ → Option (ℕ × List ℕ × List ℕ)
unfolding recibir_operacion recibir_buffer
recibir_mensaje_completo socket = do
  (codigo, s) ← recibir_operacion socket
  (datos, s') ← recibir_buffer s
  some (codigo, datos, s')

-- A packet that is sent is received whole: its code, then its stream, and what follows it on the
-- socket is left unread.
pub recibir-enviar_paquete :
    (p : Paquete) (resto : List ℕ)
    → IsPaquete p
    → recibir_mensaje_completo (enviar_paquete p ++ resto)
      ≡ some (p.codigo_operacion, p.buffer.stream, resto)
unfolding recibir_mensaje_completo enviar_paquete
recibir-enviar_paquete p resto v = simp (
  append_assoc,
  take_all p.buffer.stream p.buffer.size v.stream_ok,
  leer_int-bytes_int p.codigo_operacion _ v.codigo_ok,
  leer_int-bytes_int p.buffer.size _ v.size_ok,
  leer_bytes-append p.buffer.stream resto p.buffer.size v.stream_ok,
)

-- What a module reads of the next message on its socket: the code, and the buffer decoded.
pub recibir_con {ℓ} : {A : Type ℓ} → (List ℕ → Option A) → List ℕ → Option (ℕ × A)
recibir_con decodificar socket = do
  (cod, datos, s) ← recibir_mensaje_completo socket
  a ← decodificar datos
  some (cod, a)

-- A packet whose stream decodes is decoded by its receiver.
pub recibir_con-enviar_paquete {ℓ} :
    {A : Type ℓ} (decodificar : List ℕ → Option A) (p : Paquete) (resto : List ℕ) {a : A}
    → IsPaquete p
    → decodificar p.buffer.stream ≡ some a
    → recibir_con decodificar (enviar_paquete p ++ resto) ≡ some (p.codigo_operacion, a)
unfolding recibir_con
recibir_con-enviar_paquete decodificar p resto v e = rw (recibir-enviar_paquete p resto v) (rw e)
