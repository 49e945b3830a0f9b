-- ===== src/Testigos.antt =====
-- Concrete inputs of the theorems: one module for each part of the program.
mod Shared
mod Memoria
mod MemoriaFallo
mod Pseudocodigo
mod Filesystem
mod Sistema
mod Transferencia
mod Cpu
mod DatosKernel
mod Kernel
mod KernelArchivos
mod KernelPasos
