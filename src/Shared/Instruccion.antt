-- ===== src/Shared/Instruccion.antt =====
-- shared/include/shared_utils.h and shared/src/shared_utils.c: instructions, and their wire format
-- between memoria and cpu and between kernel and filesystem.
use so_2c_2023_no_me_queme.Base.{
  ℕ, ◌+◌, ◌*◌, ◌%◌, ◌^◌, ◌<◌, ◌≡◌, refl, Option, some, List, [], ◌∷◌, ◌++◌, length, take, get_elem?,
}
use so_2c_2023_no_me_queme.Base.Opt.{◌>>=◌}
use so_2c_2023_no_me_queme.Shared.Paquete.{Paquete}
use so_2c_2023_no_me_queme.Shared.Bytes.{int_max, bytes_int, leer_int, leer_bytes}

-- `nombre_instruccion`. A variable of the C enum holds any 32-bit code, so records hold the code.
pub data NombreInstruccion : Type 0 where
  set sum sub jnz sleep wait signal mov_in mov_out f_open f_create f_close f_seek f_read f_write
        f_truncate exit print_file_data :
      NombreInstruccion

abbrev pub codigo : NombreInstruccion → ℕ
codigo set = 0
codigo sum = 1
codigo sub = 2
codigo jnz = 3
codigo sleep = 4
codigo wait = 5
codigo signal = 6
codigo mov_in = 7
codigo mov_out = 8
codigo f_open = 9
codigo f_create = 10
codigo f_close = 11
codigo f_seek = 12
codigo f_read = 13
codigo f_write = 14
codigo f_truncate = 15
codigo exit = 16
codigo print_file_data = 17

abbrev nombres : List NombreInstruccion
nombres =
    set ∷ sum ∷ sub ∷ jnz ∷ sleep ∷ wait ∷ signal ∷ mov_in ∷ mov_out ∷ f_open ∷ f_create ∷ f_close
    ∷ f_seek ∷ f_read ∷ f_write ∷ f_truncate ∷ exit ∷ print_file_data ∷ []

-- The `case` that a `switch` takes on a code; `none` is its `default`.
unfoldable pub nombre : ℕ → Option NombreInstruccion
nombre c = get_elem? nombres c

pub nombre-codigo : (n : NombreInstruccion) → nombre (codigo n) ≡ some n
unfolding nombre
nombre-codigo set = refl
nombre-codigo _ = refl

-- `t_instruccion`. A parameter is the bytes that its pointer leads to.
pub record Instruccion : Type 0 where
  pub codigo_inst : ℕ
  pub pid : ℕ
  pub parametro1 : List ℕ
  pub longitud_parametro1 : ℕ
  pub parametro2 : List ℕ
  pub longitud_parametro2 : ℕ

-- The lengths are those of the parameters, and every field fits in 32 bits.
pub record IsInstruccion (i : Instruccion) : Type 0 where
  pub codigo_ok : i.codigo_inst < int_max
  pub parametro1_ok : length i.parametro1 ≡ i.longitud_parametro1
  pub parametro2_ok : length i.parametro2 ≡ i.longitud_parametro2
  pub longitud1_ok : i.longitud_parametro1 < int_max
  pub longitud2_ok : i.longitud_parametro2 < int_max

bytes_instruccion : Instruccion → List ℕ
bytes_instruccion i =
    bytes_int i.codigo_inst
    ++ (bytes_int i.longitud_parametro1
        ++ (bytes_int i.longitud_parametro2
            ++ (take i.longitud_parametro1 i.parametro1
                ++ take i.longitud_parametro2 i.parametro2)))

pub serializar_instruccion : Paquete → Instruccion → Paquete
unfolding bytes_instruccion
serializar_instruccion paquete i = record paquete {
  buffer = record {
    size = (4 + 4 * 2 + i.longitud_parametro1 + i.longitud_parametro2) % 2 ^ 32;
    stream = bytes_instruccion i;
  };
}

-- The pid is not on the wire: `malloc` leaves the field as it was, here an argument.
pub deserializar_instruccion : ℕ → List ℕ → Option Instruccion
deserializar_instruccion basura buffer = do
  (cod, r1) ← leer_int buffer
  (l1, r2) ← leer_int r1
  (l2, r3) ← leer_int r2
  (p1, r4) ← leer_bytes l1 r3
  (p2, r5) ← leer_bytes l2 r4
  some (record {
    codigo_inst = cod;
    pid = basura;
    parametro1 = p1;
    longitud_parametro1 = l1;
    parametro2 = p2;
    longitud_parametro2 = l2;
  })

-- `t_instruccion_fs`: what the kernel asks of the filesystem.
pub record InstruccionFs : Type 0 where
  pub estado : ℕ
  pub pid : ℕ
  pub param1_length : ℕ
  pub param1 : List ℕ
  pub param2_length : ℕ
  pub param2 : List ℕ
  pub puntero : ℕ

pub record IsInstruccionFs (i : InstruccionFs) : Type 0 where
  pub estado_ok : i.estado < int_max
  pub pid_ok : i.pid < int_max
  pub param1_ok : length i.param1 ≡ i.param1_length
  pub param2_ok : length i.param2 ≡ i.param2_length
  pub length1_ok : i.param1_length < int_max
  pub length2_ok : i.param2_length < int_max
  pub puntero_ok : i.puntero < int_max

bytes_instruccion_fs : InstruccionFs → List ℕ
bytes_instruccion_fs i =
    bytes_int i.estado
    ++ (bytes_int i.pid
        ++ (bytes_int i.param1_length
            ++ (bytes_int i.param2_length
                ++ (take i.param1_length i.param1
                    ++ (take i.param2_length i.param2 ++ bytes_int i.puntero)))))

pub serializar_instruccion_fs : Paquete → InstruccionFs → Paquete
unfolding bytes_instruccion_fs
serializar_instruccion_fs paquete i = record paquete {
  buffer = record {
    size = (4 + 4 * 4 + i.param1_length + i.param2_length) % 2 ^ 32;
    stream = bytes_instruccion_fs i;
  };
}

pub deserializar_instruccion_fs : List ℕ → Option InstruccionFs
deserializar_instruccion_fs buffer = do
  (estado, r1) ← leer_int buffer
  (pid, r2) ← leer_int r1
  (l1, r3) ← leer_int r2
  (l2, r4) ← leer_int r3
  (p1, r5) ← leer_bytes l1 r4
  (p2, r6) ← leer_bytes l2 r5
  (puntero, r7) ← leer_int r6
  some (record {
    estado = estado;
    pid = pid;
    param1_length = l1;
    param1 = p1;
    param2_length = l2;
    param2 = p2;
    puntero = puntero;
  })
