-- ===== src/Ram/Allocation/Move.antt =====
-- The bytes and tables that a step of the compaction moves, in
-- `segmentacion_actualizar_estructura_y_memoria` of
-- Mi-RAM-HQ/src/memoria/esquemas/segmentacion/segmentacion.c.
use tp_2021_1c_en_c_errados.Prelude.{
  Bool, get_elem?, true, Option, false, ℕ, ◌+◌, ◌≤◌, ◌≡◌, inl, inr, refl, ap, ◌∙◌, List, map, some,
  ◌>>=◌, ◌==◌, length, set, All, All-set, All-get_elem?, arith, Bool-cases,
}
use tp_2021_1c_en_c_errados.Ram.Tables.{buscar_patota, PatotaYTabla, buscar_ultimo}
use tp_2021_1c_en_c_errados.Ram.Tables.Search.{buscar_ultimo-map, map-set, buscar_ultimo-some}
use tp_2021_1c_en_c_errados.Ram.Segments.{Segmento}
use tp_2021_1c_en_c_errados.Ram.Segmentation.{actualizar_estructura_y_memoria}
use tp_2021_1c_en_c_errados.Ram.Allocation.Slots.{
  Forma, forma, TablaDentro, Caben, mover_inside, mover_patotas-inside,
}

-- The tables have what the segment holds, and it is no larger than the segment.
abbrev pub Movible : List Forma → Segmento → Type 0
Movible fs t =
    (t.tipo ≡ 0
      → (i : ℕ) × (f : Forma) × (buscar_ultimo (λ f. f.pid == t.id_propietario) fs ≡ some (i, f))
        × (f.tam_pcb ≤ t.tamanio))
    × (t.tipo ≡ 1
        → (i : ℕ) × (f : Forma) × (buscar_ultimo (λ f. f.pid == t.id_propietario) fs ≡ some (i, f))
          × (f.tam_tareas ≤ t.tamanio))
    × (t.tipo ≡ 2 → All (λ f. Caben t.id_propietario t.tamanio f.slots) fs)

-- The move succeeds, and keeps what the tables say but for the addresses, which stay in the memory.
abbrev pub Movida : ℕ → List PatotaYTabla → Option (List ℕ × List PatotaYTabla) → Type 0
Movida memoria ps r =
    (movida : List ℕ) × (ps' : List PatotaYTabla) × (r ≡ some (movida, ps'))
    × (length movida ≡ memoria)
    × All (TablaDentro memoria) ps'
    × (map forma ps' ≡ map forma ps)

module _ (memoria : ℕ) (mfisica : List ℕ) (ps : List PatotaYTabla) (libre : ℕ) (t : Segmento)
    (whole : length mfisica ≡ memoria) (inside : All (TablaDentro memoria) ps)
    (room : libre + t.tamanio ≤ memoria) where
  tabla-inside :
      (i : ℕ) (f : Forma)
      → buscar_ultimo (λ f. f.pid == t.id_propietario) (map forma ps) ≡ some (i, f)
      → (p : PatotaYTabla) × (buscar_patota ps t.id_propietario ≡ some (i, p))
        × (get_elem? ps i ≡ some p)
        × TablaDentro memoria p
        × (forma p ≡ f)
  tabla-inside i f found =
      let test : PatotaYTabla → Bool = λ p. p.pid == t.id_propietario in
      let (p, found', same) =
        buscar_ultimo-map forma (λ f. f.pid == t.id_propietario) ps i f found in
      let (_, at, _) = buscar_ultimo-some test ps i p found' in
      (p, found', at, All-get_elem? (TablaDentro memoria) ps i inside at, same)

  actualizar_pcb-inside :
      (i : ℕ) (f : Forma)
      → (t.tipo == 0) ≡ true
      → buscar_ultimo (λ f. f.pid == t.id_propietario) (map forma ps) ≡ some (i, f)
      → f.tam_pcb ≤ t.tamanio
      → Movida memoria ps (actualizar_estructura_y_memoria mfisica ps libre t)
  unfolding actualizar_estructura_y_memoria
  actualizar_pcb-inside i f e found fits =
      let (p, found', at, here, same) = tabla-inside i f found in
      let tabla = p.tabla_segmentos in
      let size : tabla.tamanio_segmento_pcb ≡ f.tam_pcb = ap (λ z. z.tam_pcb) same in
      let low = here.pcb in
      let (movida, g, kept) =
        mover_inside mfisica libre tabla.inicio_segmento_pcb tabla.tamanio_segmento_pcb
          (omega arith) (omega arith) in
      let p' : PatotaYTabla = record p {
        tabla_segmentos = record tabla { inicio_segmento_pcb = libre };
      } in
      (
        movida,
        set ps i p',
        rw (e, found', ◌>>=◌, g) refl,
        kept ∙ whole,
        All-set _ ps i p' inside
            (record { pcb = omega arith; tareas = here.tareas; slots = here.slots }),
        map-set forma ps i p p' at refl,
      )

  actualizar_tareas-inside :
      (i : ℕ) (f : Forma)
      → (t.tipo == 0) ≡ false
      → (t.tipo == 1) ≡ true
      → buscar_ultimo (λ f. f.pid == t.id_propietario) (map forma ps) ≡ some (i, f)
      → f.tam_tareas ≤ t.tamanio
      → Movida memoria ps (actualizar_estructura_y_memoria mfisica ps libre t)
  unfolding actualizar_estructura_y_memoria
  actualizar_tareas-inside i f e e' found fits =
      let (p, found', at, here, same) = tabla-inside i f found in
      let tabla = p.tabla_segmentos in
      let size : tabla.tamanio_segmento_tareas ≡ f.tam_tareas = ap (λ z. z.tam_tareas) same in
      let low = here.tareas in
      let (movida, g, kept) =
        mover_inside mfisica libre tabla.inicio_segmento_tareas tabla.tamanio_segmento_tareas
          (omega arith) (omega arith) in
      let p' : PatotaYTabla = record p {
        tabla_segmentos = record tabla { inicio_segmento_tareas = libre };
      } in
      (
        movida,
        set ps i p',
        rw (e, e', found', ◌>>=◌, g) refl,
        kept ∙ whole,
        All-set _ ps i p' inside
            (record { pcb = here.pcb; tareas = omega arith; slots = here.slots }),
        map-set forma ps i p p' at refl,
      )

  pub actualizar_estructura_y_memoria-inside :
      Movible (map forma ps) t
      → Movida memoria ps (actualizar_estructura_y_memoria mfisica ps libre t)
  unfolding actualizar_estructura_y_memoria
  actualizar_estructura_y_memoria-inside (pcb, tareas, crew) = elim (Bool-cases (t.tipo == 0)) [
    | inl e ↦ let (i, f, found, fits) = pcb (ground arith) in actualizar_pcb-inside i f e found fits
    | inr e ↦ elim (Bool-cases (t.tipo == 1)) [
      | inl e' ↦
          let (i, f, found, fits) = tareas (ground arith) in
          actualizar_tareas-inside i f e e' found fits
      | inr e' ↦ elim (Bool-cases (t.tipo == 2)) [
        | inl e'' ↦
            let (movida, ps', g, kept, inside', same) =
              mover_patotas-inside t.id_propietario libre t.tamanio memoria room mfisica ps whole
                inside (crew (ground arith)) in
            (movida, ps', rw (e, e', e'') g, kept, inside', same)
        | inr e'' ↦ (mfisica, ps, rw (e, e', e'') refl, whole, inside, refl)
      ]
    ]
  ]
