-- ===== src/Lib.antt =====
-- Verification library of the operating-system simulator (the modules kernel, cpu, memoria and
-- filesystem, and the code that they share).
--
-- The program is four processes that talk over sockets. The kernel keeps the processes in queues,
-- chooses the next one, and serves the system calls on resources and files. The cpu runs one
-- context at a time: it asks memoria for each instruction, translates addresses with the frames
-- that memoria answers, and sends the context back with a reason. memoria keeps the frames, the
-- page tables and the user memory, and replaces pages, whose contents it stores in the swap area of
-- filesystem. filesystem keeps that area, the FAT, the file control blocks and the blocks.
--
-- The files and the code:
--   Base, Base/*          numbers, lists, options and copies of bytes: no code of the program.
--   Shared/Bytes, Paquete, Lista, Instruccion, Contexto, Mensajes, Cadena
--                         shared/src/shared_utils.c: packets, lists, instructions, contexts, small
--                         messages and numbers in text. A socket is the list of bytes that wait on
--                         it; an `int` is its 32-bit pattern, and the serializers set the
--                         size of the packet's buffer as the code does, modulo 2 ^ 32.
--   Memoria/Estado        the globals of memoria; page-table entries live in a heap, since a table
--                         and the FIFO queue point to the same entry.
--   Memoria/Marcos        `inicializar_marcos`, `asignar_marco_libre`, `liberar_marcos_proceso`.
--   Memoria/Paginas       `paginaAReemplazar`, `obtenerPaginaLRU`, `obtenerPaginaFIFO` and what a
--                         use of a page records.
--   Memoria/Usuario, Memoria/Usuario/MovOut
--                         reads and writes of the user memory, within its `tamanio_memoria`
--                         bytes.
--   Memoria/Procesos      processes that start and end, and their swap blocks.
--   Memoria/Fallo, Memoria/Fallo/*
--                         the case PAGE_FAULT_KERNEL of `manejo_conexion_kernel`.
--   Memoria/Pseudocodigo, Memoria/Pseudocodigo/*
--                         `parsear_instrucciones` and `armar_estructura_instruccion`.
--   Memoria/Servidor, Memoria/Servidor/*
--                         the requests that memoria serves: `manejo_conexion_cpu`,
--                         `manejo_conexion_filesystem_ops`, `manejo_conexion_kernel`.
--   Filesystem/Swap, Filesystem/Swap/*
--                         the swap area of filesystem/src/filesystem.c, and the server of memoria's
--                         requests on it, `manejo_conexion_memoria_swap`.
--   Filesystem/Fat, Filesystem/Fat/*
--                         the FAT file and the file of blocks.
--   Filesystem/Fcb, Filesystem/Fcb/*
--                         the list of file control blocks, truncation, and the answers to the
--                         kernel (`hilo_f_open` and the others).
--   Cpu/Registro, Cpu/Instrucciones, Cpu/Ciclo, Cpu/Desalojo and the files below them
--                         cpu/src/instructions.c and cpu/src/cpu.c.
--   Kernel/Estado, Kernel/Planificador and the files below it
--                         kernel/src/plani.c and the moves between queues of kernel/src/kernel.c.
--   Kernel/Recursos and the files below it
--                         `kwait` and `ksignal` of kernel/src/instructions.c.
--   Kernel/Liberacion and the files below it
--                         `liberar_recursos` of kernel/src/kernel.c.
--   Kernel/Archivos and the files below it
--                         the tables of open files with their locks, and `kf_open`, `kf_close`,
--                         `kf_seek`, `kf_read`, `kf_write`, `kf_truncate`.
--   Kernel/Hilos, Kernel/Hilos/Ejecucion
--                         one round of each thread of the kernel (`exec_pcb`, `exit_pcb`,
--                         `manejar_pf`, `recibir_op_FS`, `sleeper`) and the console's commands.
--   Kernel/Pasos and the files below it
--                         those rounds as a step relation, in any order.
--   Sistema/Paginacion    memoria and the server of the swap area together.
--   Sistema/Transferencia `comunicacion_kernel` of filesystem/src/filesystem.c, with memoria.
--   Testigos/*            concrete inputs of the theorems.
--
-- Conventions. A pointer that may be NULL, an `exit`, an `abort` and a read past a buffer are
-- `none`. A process is named by its pid where the code has a pointer to it; `pcb_destroy` marks the
-- record of the process `liberado`, since `lista_global` keeps its pointer, and a search that meets a
-- freed record is `none`. `leer_bloque_swap` returns a buffer that it has freed: what such a buffer
-- holds is a parameter, `tras_free`, of which nothing is assumed. The commons library is
-- not in the repository: `list_sort`, `string_split`, `string_equals_ignore_case` and `string_itoa`
-- are parameters, the first three with the laws that their documentation states. The filesystem, as
-- memoria sees it, and memoria, as the cpu sees it, are records of operations; Sistema/Paginacion
-- fills the first with the server of the swap area.
--
-- Bounds and fuel. Readers of lists in a packet recurse on the length of the packet, and every
-- element takes four bytes or more. The loop of `desasignar_bloques` recurses on the new size: each
-- round adds a block size, which is above 0, to a count that ends it at that size, while the sum
-- stays below 2 ^ 32. Every other loop recurses on its list or its count.
--
-- Not modelled: connections, handshakes, configuration files, logs, delays, the reading of the
-- console and the creation of threads; `leer_archivo`; the wait of `kwait` at `sem_detener` while
-- the planning is stopped, and the functions of kernel/src/kernel.c that no other function calls. A
-- step of the kernel's relation is what a thread does between two waits, so interleavings inside
-- such a stretch, which the mutexes of the code exclude only in part, are left out: the amounts of
-- the resources are changed by two threads under no mutex. The requests that memoria serves run to
-- their ends one after another, the page fault included, although the code's thread waits for the
-- filesystem in the middle of it while the other threads serve; so do the detached threads of
-- filesystem. The memory that `free` gives back to later allocations is not modelled, and
-- priorities are natural numbers, where the console takes negative ones too.
pub mod Base
pub mod Shared
pub mod Memoria
pub mod Filesystem
pub mod Cpu
pub mod Kernel
pub mod Sistema
pub mod Testigos
