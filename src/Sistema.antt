-- ===== src/Sistema.antt =====
-- The programs together: an operation of one process that another process serves.
pub mod Paginacion
pub mod Transferencia
