-- ===== src/Kernel/Archivos/Llamadas/Lectores.antt =====
-- kernel/src/instructions.c: `kf_close` by one of several readers.
use so_2c_2023_no_me_queme.Base.{
  ℕ, ◌+◌, ◌%◌, ◌≤◌, ◌<◌, ◌≡◌, refl, ap, ◌∙◌, Option, some, List, [], ◌∷◌, ◌++◌, arith, ◌==◌, ltb,
  true, false,
}
use so_2c_2023_no_me_queme.Base.Opt.{◌>>=◌, some->>=}
use so_2c_2023_no_me_queme.Shared.Cadena.{cadena}
use so_2c_2023_no_me_queme.Shared.Instruccion.{Instruccion}
use so_2c_2023_no_me_queme.Kernel.Estado.{
  Kernel, Pcb, ArchivoGlobal, ArchivoProceso, buscar_pcb, en_pcb, continuar,
}
use so_2c_2023_no_me_queme.Kernel.Archivos.{
  letra_r, uint32, restar_uno, buscar_archivo_global, sin_archivo, buscar_archivo_proceso,
  sin_archivo_proceso, crear_archivo_global_con_contador,
}
use so_2c_2023_no_me_queme.Kernel.Archivos.Llamadas.{
  instruccion_de, soltar_lock, repartir, es_some, kf_close,
}

module _ (a : ArchivoGlobal) (lee : a.lock ≡ letra_r) (varios : 2 ≤ a.contador)
    (chico : a.contador < uint32) where
  resta : restar_uno a.contador + 1 ≡ a.contador
  unfolding restar_uno
  resta = omega arith

  soltar-lector : soltar_lock true a ≡ record a { contador = restar_uno a.contador }
  unfolding soltar_lock
  soltar-lector =
      let quedan : (restar_uno a.contador == 0) ≡ false = ground (arith, resta) in
      simp (lee, quedan) refl

  vuelve : (restar_uno a.contador + 1) % uint32 ≡ a.contador
  vuelve = omega (arith, resta)

  repartir-lector :
      (n : List ℕ) (k : Kernel)
      → repartir n (record a { contador = restar_uno a.contador }) k
        ≡ some (crear_archivo_global_con_contador n letra_r a.contador k)
  unfolding repartir
  repartir-lector n k =
      let quedan : ltb 0 (restar_uno a.contador) ≡ true = ground (arith, resta) in
      simp (lee, quedan) (ap (λ c. some (crear_archivo_global_con_contador n letra_r c k)) vuelve)

  -- Of two or more readers, one closes the file: the file's entry is another one at the end of the
  -- table, with as many readers as before and nobody who waits, so those that waited are in no
  -- entry; no process gets ready.
  pub kf_close-lector :
      (k : Kernel) (i : Instruccion) (pid : ℕ) (p : Pcb) (ap' : ArchivoProceso)
      → instruccion_de k.pcbelegido k ≡ some i
      → k.proceso_en_ejecucion ≡ some pid
      → buscar_pcb pid k.lista_global ≡ some p
      → buscar_archivo_global k.lista_archivos_abiertos i.parametro1 ≡ some a
      → buscar_archivo_proceso p.archivos_abiertos i.parametro1 ≡ some ap'
      → (k' : Kernel) × (kf_close k ≡ some k')
        × (k'.lista_archivos_abiertos
            ≡ sin_archivo k.lista_archivos_abiertos i.parametro1
              ++ (record {
                nombre_archivo = cadena i.parametro1;
                lock = letra_r;
                contador = a.contador;
                colabloqueado = [];
              }
                  ∷ []))
        × (k'.lista_ready ≡ k.lista_ready)
  unfolding kf_close crear_archivo_global_con_contador
  kf_close-lector k i pid p ap' ei epid ep ea eap =
      let n = i.parametro1 in
      let f : Pcb → Pcb =
        λ r. record r { archivos_abiertos = sin_archivo_proceso r.archivos_abiertos n } in
      let k0 =
        en_pcb pid f
          (record k { lista_archivos_abiertos = sin_archivo k.lista_archivos_abiertos n }) in
      let seguir : Kernel → Option Kernel = λ x. some (continuar x) in
      (
        continuar (crear_archivo_global_con_contador n letra_r a.contador k0),
        some->>= (instruccion_de k.pcbelegido k) _ ei (
            some->>= k.proceso_en_ejecucion _ epid (
              some->>= (buscar_pcb pid k.lista_global) _ ep (
                some->>= (buscar_archivo_global k.lista_archivos_abiertos n) _ ea (
                  ap (λ o. repartir n (soltar_lock (es_some o) a) k0 >>= seguir) eap
                  ∙ ap (λ x. repartir n x k0 >>= seguir) soltar-lector
                  ∙ ap (λ o. o >>= seguir) (repartir-lector n k0))))),
        refl,
        refl,
      )
