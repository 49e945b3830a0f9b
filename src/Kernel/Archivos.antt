-- ===== src/Kernel/Archivos.antt =====
-- kernel/src/kernel.c and kernel/src/instructions.c: the tables of open files and their locks.
pub mod Llamadas
use so_2c_2023_no_me_queme.Base.{
  ℕ, ◌+◌, ◌-◌, ◌%◌, ◌^◌, Option, none, some, List, [], ◌∷◌, ◌++◌, take, drop, ◌==◌, ltb,
  if◌then◌else◌, Bool, true, false, ◌&&◌, ◌||◌, not,
}
use so_2c_2023_no_me_queme.Base.Opt.{◌>>=◌}
use so_2c_2023_no_me_queme.Shared.Cadena.{cadena, strcmp_eq}
use so_2c_2023_no_me_queme.Shared.Instruccion.{Instruccion, InstruccionFs}
use so_2c_2023_no_me_queme.Kernel.Estado.{
  Kernel, Pcb, MotivoBlock, ArchivoProceso, ArchivoGlobal, Punto, archivo_block, op_filesystem,
  abriendo, buscar_pcb, con_pcb, en_pcb, set_pcb_ready, set_pcb_block, replanificar, continuar,
}
use so_2c_2023_no_me_queme.Kernel.Recursos.{finalizar_proceso_en_ejecucion}

abbrev pub letra_n : ℕ
letra_n = 78

abbrev pub letra_r : ℕ
letra_r = 82

abbrev pub letra_w : ℕ
letra_w = 87

abbrev pub uint32 : ℕ
uint32 = 2 ^ 32

-- `contador--` on a `uint32_t`.
unfoldable pub restar_uno : ℕ → ℕ
restar_uno c = (c + uint32 - 1) % uint32

unfoldable pub buscar_archivo_global : List ArchivoGlobal → List ℕ → Option ArchivoGlobal
buscar_archivo_global [] n = none
buscar_archivo_global (a ∷ as') n =
    let resto = buscar_archivo_global as' n in
    if strcmp_eq a.nombre_archivo n then some a else resto

-- An assignment through the pointer that `buscarArchivoGlobal` returns.
unfoldable pub con_archivo :
    (ArchivoGlobal → ArchivoGlobal) → List ArchivoGlobal → List ℕ → List ArchivoGlobal
con_archivo f [] n = []
con_archivo f (a ∷ as') n =
    let resto = con_archivo f as' n in if strcmp_eq a.nombre_archivo n then f a ∷ as' else a ∷ resto

-- `list_remove_element` of that pointer.
unfoldable pub sin_archivo : List ArchivoGlobal → List ℕ → List ArchivoGlobal
sin_archivo [] n = []
sin_archivo (a ∷ as') n =
    let resto = sin_archivo as' n in if strcmp_eq a.nombre_archivo n then as' else a ∷ resto

unfoldable pub buscar_archivo_proceso : List ArchivoProceso → List ℕ → Option ArchivoProceso
buscar_archivo_proceso [] n = none
buscar_archivo_proceso (a ∷ as') n =
    let resto = buscar_archivo_proceso as' n in
    if strcmp_eq a.nombre_archivo n then some a else resto

unfoldable pub con_archivo_proceso :
    (ArchivoProceso → ArchivoProceso) → List ArchivoProceso → List ℕ → List ArchivoProceso
con_archivo_proceso f [] n = []
con_archivo_proceso f (a ∷ as') n =
    let resto = con_archivo_proceso f as' n in
    if strcmp_eq a.nombre_archivo n then f a ∷ as' else a ∷ resto

unfoldable pub sin_archivo_proceso : List ArchivoProceso → List ℕ → List ArchivoProceso
sin_archivo_proceso [] n = []
sin_archivo_proceso (a ∷ as') n =
    let resto = sin_archivo_proceso as' n in if strcmp_eq a.nombre_archivo n then as' else a ∷ resto

-- `string_append` to an empty string copies the characters.
unfoldable pub crear_archivo_proceso : List ℕ → ℕ → Kernel → Kernel
crear_archivo_proceso n pid k =
    en_pcb pid
      (λ p. record p {
        archivos_abiertos =
            p.archivos_abiertos ++ (record { nombre_archivo = cadena n; puntero = 0 } ∷ []);
      })
      k

unfoldable pub crear_archivo_global_con_contador : List ℕ → ℕ → ℕ → Kernel → Kernel
crear_archivo_global_con_contador n lock contador k = record k {
  lista_archivos_abiertos =
      k.lista_archivos_abiertos
      ++ (record { nombre_archivo = cadena n; lock = lock; contador = contador; colabloqueado = [] }
          ∷ []);
}

unfoldable pub crear_archivo_global : List ℕ → ℕ → Kernel → Kernel
unfolding crear_archivo_global_con_contador
crear_archivo_global n lock k = crear_archivo_global_con_contador n lock 1 k

abbrev pub sumar : ArchivoGlobal → ArchivoGlobal
sumar a = record a { contador = (a.contador + 1) % uint32 }

-- The list keeps the element: the names are compared as pointers, and each entry has its own.
-- `none` dereferences NULL.
unfoldable pub sumar_contador_archivo_global : List ℕ → Kernel → Option Kernel
sumar_contador_archivo_global n k = do
  a ← buscar_archivo_global k.lista_archivos_abiertos n
  some (record k { lista_archivos_abiertos = con_archivo sumar k.lista_archivos_abiertos n })

-- `none` is the result -1.
unfoldable pub open_file : List ℕ → ℕ → Kernel → Option Kernel
open_file n lock k = do
  a ← buscar_archivo_global k.lista_global_archivos n
  some (record k {
    lista_global_archivos =
        con_archivo (λ x. record (sumar x) { lock = lock }) k.lista_global_archivos n;
  })

unfoldable pub exec_block_fs : Kernel → Kernel
exec_block_fs k =
    en_pcb k.pcbelegido (λ p. record p { motivo_block = op_filesystem })
      (set_pcb_block k.pcbelegido
        (record k { cola_exec = drop 1 k.cola_exec; proceso_en_ejecucion = none }))

unfoldable pub fs_interaction : Kernel → Kernel
fs_interaction k = let k' = exec_block_fs k in record k' { sem_hilo_fs = k'.sem_hilo_fs + 1 }

unfoldable pub inicializar_instruccion_fs : Instruccion → ℕ → InstruccionFs
inicializar_instruccion_fs i ptr = record {
  estado = i.codigo_inst;
  pid = i.pid;
  param1_length = i.longitud_parametro1;
  param1 = take i.longitud_parametro1 i.parametro1;
  param2_length = i.longitud_parametro2;
  param2 = take i.longitud_parametro2 i.parametro2;
  puntero = ptr;
}

unfoldable pub enviar_instruccion_fs : InstruccionFs → Kernel → Kernel
enviar_instruccion_fs i k = record k { a_filesystem = k.a_filesystem ++ (i ∷ []) }
