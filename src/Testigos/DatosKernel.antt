-- ===== src/Testigos/DatosKernel.antt =====
-- A kernel of two processes and one resource, for the tests of kernel/.
use so_2c_2023_no_me_queme.Base.{ℕ, Option, none, some, List, [], ◌∷◌, length, true, false}
use so_2c_2023_no_me_queme.Shared.Instruccion.{Instruccion}
use so_2c_2023_no_me_queme.Shared.Contexto.{Contexto}
use so_2c_2023_no_me_queme.Kernel.Estado.{
  Kernel, Pcb, Recurso, exec, prioridades, recurso_block, inicio,
}

-- The resource A.
abbrev pub a : List ℕ
a = 65 ∷ []

abbrev pub con : ℕ → List ℕ → Recurso
con n cola = record { nombre = a; cantidad = n; colabloqueado = cola }

abbrev pub instruccion : ℕ → List ℕ → List ℕ → Instruccion
instruccion codigo parametro1 parametro2 = record {
  codigo_inst = codigo;
  pid = 1;
  parametro1 = parametro1;
  longitud_parametro1 = length parametro1;
  parametro2 = parametro2;
  longitud_parametro2 = length parametro2;
}

abbrev pub contexto : ℕ → ℕ → List ℕ → List ℕ → Contexto
contexto pid codigo parametro1 parametro2 = record {
  pid = pid;
  program_counter = 0;
  registros = record { ax = 0; bx = 0; cx = 0; dx = 0 };
  numero_marco = 0;
  nro_pf = 0;
  instruccion_ejecutada = instruccion codigo parametro1 parametro2;
  codigo_ultima_instru = codigo;
  motivo_desalojado = 3;
}

abbrev pub pcb : ℕ → ℕ → ℕ → Pcb
pcb pid prioridad n = record {
  pid = pid;
  prioridad = prioridad;
  estado = exec;
  recurso_instruccion = [];
  recursos_asignados = con n [] ∷ [];
  tiempo_ingreso_ready = 0;
  liberado = false;
  contexto_ejecucion = contexto pid 5 a [];
  motivo_block = recurso_block;
  archivos_abiertos = [];
}

abbrev pub kernel : ℕ → List ℕ → Kernel
kernel n cola = record {
  lista_global = pcb 1 5 1 ∷ pcb 2 3 0 ∷ [];
  cola_listos_para_ready = [];
  lista_ready = [];
  lista_ready_detenidos = [];
  cola_block = cola;
  cola_exec = 1 ∷ [];
  cola_exit = [];
  recursos_kernel = con n cola ∷ [];
  pcbelegido = 1;
  hay_elegido = true;
  proceso_en_ejecucion = some 1;
  algoritmo = prioridades;
  frenado = false;
  g_multiprog_ini = 2;
  sem_ready = 0;
  sem_exec = 0;
  sem_exit = 0;
  hora = 100;
  enviadas = [];
  recursos = a ∷ [];
  generador_de_id = 3;
  lista_archivos_abiertos = [];
  lista_global_archivos = [];
  a_filesystem = [];
  a_memoria = [];
  a_cpu = [];
  sem_listos_ready = 0;
  sem_hilo_fs = 0;
  reanudar_exec = 0;
  sem_detener = 0;
  sem_detener_sleep = 0;
  punto = inicio;
  dormidos = [];
  fallos = [];
}

abbrev pub tras : Option Kernel → Kernel
tras none = kernel 0 []
tras (some k) = k
