-- ===== src/Cpu.antt =====
-- cpu/: the globals of cpu/src/cpu.c, and what the cpu asks of memoria.
pub mod Registro
pub mod Instrucciones
pub mod Ciclo
pub mod Desalojo
