-- ===== src/Testigos/KernelArchivos.antt =====
-- Concrete inputs of the theorems on the open files of kernel/.
use so_2c_2023_no_me_queme.Base.{ℕ, ◌≡◌, refl, arith, some, List, [], ◌∷◌, ◌++◌, inl, bytes_eq}
use so_2c_2023_no_me_queme.Shared.Cadena.{cadena}
use so_2c_2023_no_me_queme.Kernel.Estado.{Kernel, Pcb, ArchivoGlobal, ArchivoProceso, buscar_pcb}
use so_2c_2023_no_me_queme.Kernel.Archivos.{
  letra_r, letra_w, buscar_archivo_global, buscar_archivo_proceso, sin_archivo,
}
use so_2c_2023_no_me_queme.Kernel.Archivos.Llamadas.{instruccion_de, lock_pedido, kf_open, kf_close}
use so_2c_2023_no_me_queme.Kernel.Archivos.Llamadas.Ultimo.{Repartido, kf_close_lem}
use so_2c_2023_no_me_queme.Kernel.Archivos.Llamadas.Apertura.{
  Abierto, compatible, pedir_candado, kf_open-Abierto,
}
use so_2c_2023_no_me_queme.Kernel.Archivos.Llamadas.Lectores.{kf_close-lector}
use so_2c_2023_no_me_queme.Testigos.DatosKernel.{a, instruccion, contexto, pcb, kernel}

-- The file A, with its lock, its count and those that wait.
abbrev archivo : ℕ → ℕ → List ℕ → ArchivoGlobal
archivo lock contador cola = record {
  nombre_archivo = a;
  lock = lock;
  contador = contador;
  colabloqueado = cola;
}

abbrev abierto : ArchivoProceso
abierto = record { nombre_archivo = a; puntero = 0 }

-- A process whose last instruction is on the file A with that lock, and that has the file open.
abbrev con_archivo : ℕ → ℕ → Pcb
con_archivo pid lock = record (pcb pid 5 0) {
  contexto_ejecucion = contexto pid 9 a (lock ∷ []);
  archivos_abiertos = abierto ∷ [];
}

-- Process 1 runs; 2 asks to write, 3 to read, 4 to write.
abbrev con_tabla : ArchivoGlobal → Kernel
con_tabla g = record (kernel 0 []) {
  lista_global =
      con_archivo 1 letra_r
      ∷ con_archivo 2 letra_w
      ∷ con_archivo 3 letra_r
      ∷ con_archivo 4 letra_w
      ∷ [];
  lista_archivos_abiertos = g ∷ [];
}

kf_close_lem_example :
    (k' : Kernel) × (kf_close (con_tabla (archivo letra_w 1 (2 ∷ 3 ∷ 4 ∷ []))) ≡ some k')
    × Repartido a
        (archivo letra_w 1 (2 ∷ 3 ∷ 4 ∷ []))
        2
        (3 ∷ 4 ∷ [])
        letra_w
        (con_tabla (archivo letra_w 1 (2 ∷ 3 ∷ 4 ∷ [])))
        k'
unfolding instruccion_de lock_pedido buscar_pcb buscar_archivo_global buscar_archivo_proceso
    sin_archivo bytes_eq cadena
kf_close_lem_example =
    kf_close_lem (con_tabla (archivo letra_w 1 (2 ∷ 3 ∷ 4 ∷ []))) (instruccion 9 a (letra_r ∷ [])) 1
      (con_archivo 1 letra_r) (archivo letra_w 1 (2 ∷ 3 ∷ 4 ∷ [])) abierto 2 (3 ∷ 4 ∷ []) letra_w
      refl refl refl refl refl (inl refl) refl refl refl refl
      ((letra_r, refl), ((letra_w, refl), tt))

kf_open-Abierto_example :
    (k' : Kernel) × (kf_open (con_tabla (archivo letra_w 1 [])) ≡ some k')
    × Abierto
        (compatible letra_r (record { modo = letra_w; cuenta = 1; esperan = [] }))
        a
        (pedir_candado letra_r 1 (record { modo = letra_w; cuenta = 1; esperan = [] }))
        (con_tabla (archivo letra_w 1 []))
        k'
unfolding instruccion_de buscar_pcb buscar_archivo_global bytes_eq cadena
kf_open-Abierto_example =
    kf_open-Abierto (con_tabla (archivo letra_w 1 [])) (instruccion 9 a (letra_r ∷ [])) letra_r
      (archivo letra_w 1 []) refl refl refl

kf_close-lector_example :
    (k' : Kernel) × (kf_close (con_tabla (archivo letra_r 2 (2 ∷ []))) ≡ some k')
    × (k'.lista_archivos_abiertos
        ≡ sin_archivo (archivo letra_r 2 (2 ∷ []) ∷ []) a
          ++ (record { nombre_archivo = cadena a; lock = letra_r; contador = 2; colabloqueado = [] }
              ∷ []))
    × (k'.lista_ready ≡ [])
unfolding instruccion_de buscar_pcb buscar_archivo_global buscar_archivo_proceso bytes_eq cadena
kf_close-lector_example =
    kf_close-lector (archivo letra_r 2 (2 ∷ [])) refl (omega arith) (omega arith)
      (con_tabla (archivo letra_r 2 (2 ∷ []))) (instruccion 9 a (letra_r ∷ [])) 1
      (con_archivo 1 letra_r) abierto refl refl refl refl refl
