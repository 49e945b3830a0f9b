-- ===== src/Shared.antt =====
-- shared/: the wire formats that the four modules exchange.
pub mod Bytes
pub mod Paquete
pub mod Lista
pub mod Instruccion
pub mod Contexto
pub mod Cadena
pub mod Mensajes
