-- ===== src/Ram/Allocation/Start.antt =====
-- The start of a patota by Mi-RAM-HQ/src/memoria/esquemas/segmentacion/segmentacion.c.
use tp_2021_1c_en_c_errados.Ram.Allocation.Patota.{
  tamanio_patota, ConPatota, obtener_segmentos-ConPatota,
}
use tp_2021_1c_en_c_errados.Prelude.{
  suma, ◌==◌, ℕ, ◌+◌, ◌≤◌, ◌≡◌, refl, sym, ap, ◌∙◌, subst, List, [], ◌∷◌, map, true, false, some,
  ◌>>=◌, length, arith, c_string, le32, splice, length-splice, length-append, copy_from,
}
use tp_2021_1c_en_c_errados.Prelude.Run
use tp_2021_1c_en_c_errados.Prelude.Run.{Run, done, or_abort}
use tp_2021_1c_en_c_errados.Ram.Segments.{hay_segmento_libre}
use tp_2021_1c_en_c_errados.Ram.Segments.Cover.{bytes-le-memoria, bytes_libres}
use tp_2021_1c_en_c_errados.Ram.Tables.{buscar_patota}
use tp_2021_1c_en_c_errados.Ram.Tables.Search.{buscar_ultimo-append, ==_refl}
use tp_2021_1c_en_c_errados.Ram.Physical.{poner_todo}
use tp_2021_1c_en_c_errados.Ram.Physical.Copies.{
  copy_from-splice_self, poner_todo-splice, junto, junto-map,
}
use tp_2021_1c_en_c_errados.Ram.Segmentation.{
  Memoria, agregar_patota_en_memoria, int_mayor, tamanio_data,
}
use tp_2021_1c_en_c_errados.Ram.Allocation.{inicializar_patota, nueva_patota}
use tp_2021_1c_en_c_errados.Ram.Allocation.Reserve.{EnRegla}
use tp_2021_1c_en_c_errados.Ram.Crew.{obtener_tareas_de_patota}

-- A new patota is written, and its tasks are read back.
agregar_patota_en_memoria-tareas :
    (m c : Memoria) (pid cant : ℕ) (tareas : List ℕ)
    → length m.mfisica ≡ m.tamanio_memoria
    → ConPatota m pid cant tareas c
    → (bytes : List ℕ) × (agregar_patota_en_memoria c pid tareas
        ≡ some (record c { mfisica = bytes }))
      × (length bytes ≡ m.tamanio_memoria)
      × (obtener_tareas_de_patota (record c { mfisica = bytes }) pid ≡ some (c_string tareas))
unfolding agregar_patota_en_memoria obtener_tareas_de_patota
agregar_patota_en_memoria-tareas m c pid cant tareas whole p =
    let large = length tareas + 1 in
    let nueva = nueva_patota pid p.pcb 8 p.inicio_tareas large p.slots in
    let found : buscar_patota c.listado_patotas pid ≡ some (length m.listado_patotas, nueva) =
      subst (λ l. buscar_patota l pid ≡ some (length m.listado_patotas, nueva)) (sym p.patotas)
        (buscar_ultimo-append (λ q. q.pid == pid) m.listado_patotas nueva (==_refl pid)) in
    let size : length c.mfisica ≡ m.tamanio_memoria = ap length p.mfisica ∙ whole in
    let pcb = le32 pid ∷ le32 0 ∷ [] in
    let con_pcb = splice c.mfisica p.pcb (junto pcb) in
    let text = map (λ b. b ∷ []) (c_string tareas) in
    let text_same = junto-map (c_string tareas) in
    let text_size : length (c_string tareas) ≡ large = length-append tareas (0 ∷ []) in
    let room_pcb : p.pcb + 8 ≤ length c.mfisica = omega (arith, p.dentro_pcb) in
    let size_pcb = length-splice c.mfisica p.pcb (junto pcb) room_pcb in
    let first = poner_todo-splice c.mfisica p.pcb pcb room_pcb in
    let room : p.inicio_tareas + length (c_string tareas) ≤ length con_pcb =
      omega (arith, p.dentro_tareas) in
    let second : poner_todo con_pcb p.inicio_tareas text
        ≡ some (splice con_pcb p.inicio_tareas (c_string tareas)) =
      poner_todo-splice con_pcb p.inicio_tareas text
        (subst (λ l. p.inicio_tareas + length l ≤ length con_pcb) (sym text_same) room)
      ∙ ap (λ l. some (splice con_pcb p.inicio_tareas l)) text_same in
    let final = splice con_pcb p.inicio_tareas (c_string tareas) in
    (
      final,
      rw (found, ◌>>=◌, first, second) refl,
      omega (arith, length-splice con_pcb p.inicio_tareas (c_string tareas) room),
      rw (found, ◌>>=◌)
          (subst (λ n. copy_from final p.inicio_tareas n ≡ some (c_string tareas)) text_size
            (copy_from-splice_self con_pcb p.inicio_tareas (c_string tareas) room)),
    )

-- The counter of free bytes is right, and the physical memory is all there.
pub record EnCuenta (m : Memoria) : Type 0 where
  pub regla : EnRegla m
  pub cuenta : m.espacio_libre ≡ suma bytes_libres m.listado_segmentos
  pub entera : length m.mfisica ≡ m.tamanio_memoria

espacio-ConPatota :
    (m c : Memoria) (pid cant : ℕ) (tareas : List ℕ)
    → EnCuenta m
    → ConPatota m pid cant tareas c
    → (c.espacio_libre ≡ suma bytes_libres c.listado_segmentos)
      × (c.espacio_libre + tamanio_patota cant tareas ≡ m.espacio_libre)
espacio-ConPatota m c pid cant tareas q p =
    let left = p.espacio in
    let taken = p.bytes in
    let right = q.cuenta in
    let small = q.regla.small in
    let below = bytes-le-memoria m.tamanio_memoria m.listado_segmentos q.regla in
    let exact : c.espacio_libre + tamanio_patota cant tareas ≡ m.espacio_libre = omega arith in
    (omega arith, exact)

-- In a memory that is partitioned and whose count of free bytes is right, a patota that one free
-- segment would hold as a whole is started without any compaction: the answer is true, its tasks are
-- stored, the memory stays partitioned, and the count of free bytes goes down by what it takes.
pub inicializar_patota_lem :
    (fuel : ℕ) (m : Memoria) (pid cant : ℕ) (tareas : List ℕ)
    → EnCuenta m
    → hay_segmento_libre m.listado_segmentos (tamanio_patota cant tareas) ≡ true
    → (m' : Memoria) × (inicializar_patota fuel m pid cant tareas ≡ done (true, m'))
      × EnCuenta m'
      × (m'.espacio_libre + tamanio_patota cant tareas ≡ m.espacio_libre)
      × (obtener_tareas_de_patota m' pid ≡ some (c_string tareas))
unfolding inicializar_patota
inicializar_patota_lem fuel m pid cant tareas q h =
    let (c, e, p) = obtener_segmentos-ConPatota fuel m pid cant tareas q.regla h in
    let (bytes, f, size, read) = agregar_patota_en_memoria-tareas m c pid cant tareas q.entera p in
    let (counted, paid) = espacio-ConPatota m c pid cant tareas q p in
    let small = q.regla.small in
    let below = bytes-le-memoria m.tamanio_memoria m.listado_segmentos q.regla in
    let fits : int_mayor (tamanio_data cant (length tareas + 1)) m.espacio_libre ≡ false =
      ground arith in
    (
      record c { mfisica = bytes },
      rw (fits, e, Run.◌>>=◌, f) refl,
      record { regla = p.regla; cuenta = counted; entera = omega (arith, size, p.memoria) },
      paid,
      read,
    )
