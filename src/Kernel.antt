-- ===== src/Kernel.antt =====
-- kernel/: processes, their queues and resources.
pub mod Estado
pub mod Recursos
pub mod Archivos
pub mod Liberacion
pub mod Planificador
pub mod Hilos
pub mod Pasos
