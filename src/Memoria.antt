-- ===== src/Memoria.antt =====
-- memoria/: page tables, frames, replacement, user memory, and the processes' instructions.
pub mod Estado
pub mod Marcos
pub mod Paginas
pub mod Usuario
pub mod Procesos
pub mod Pseudocodigo
pub mod Fallo
pub mod Servidor
