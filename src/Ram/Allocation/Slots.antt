-- ===== src/Ram/Allocation/Slots.antt =====
-- The slots of the crew that a step of the compaction moves, in
-- `segmentacion_actualizar_estructura_y_memoria` of
-- Mi-RAM-HQ/src/memoria/esquemas/segmentacion/segmentacion.c.
use tp_2021_1c_en_c_errados.Prelude.{
  ℕ, ◌+◌, ◌≤◌, ◌≡◌, inl, inr, refl, ap, ◌∙◌, List, [], ◌∷◌, map, some, ◌>>=◌, ◌==◌, length, All,
  arith, Bool-cases, splice, length-splice, take, drop, length-take, length-drop,
}
use tp_2021_1c_en_c_errados.Ram.Tables.{SegmentoTripulante, PatotaYTabla, con_tripulantes}
use tp_2021_1c_en_c_errados.Ram.Physical.{mover}
use tp_2021_1c_en_c_errados.Ram.Physical.Copies.{copy_from-inside, poner_inside}
use tp_2021_1c_en_c_errados.Ram.Segmentation.{mover_tripulantes, mover_patotas}

-- What a move keeps of a slot, and of the table of a patota: all but the addresses.
abbrev pub forma_slot : SegmentoTripulante → ℕ × ℕ
forma_slot u = (u.tid, u.tamanio_segmento_tcb)

pub record Forma : Type 0 where
  pub pid : ℕ
  pub tam_pcb : ℕ
  pub tam_tareas : ℕ
  pub slots : List (ℕ × ℕ)

abbrev pub forma : PatotaYTabla → Forma
forma p = record {
  pid = p.pid;
  tam_pcb = p.tabla_segmentos.tamanio_segmento_pcb;
  tam_tareas = p.tabla_segmentos.tamanio_segmento_tareas;
  slots = map forma_slot p.tabla_segmentos.listado_tripulantes;
}

-- All that the tables point to lies in the memory.
abbrev pub SlotDentro : ℕ → SegmentoTripulante → Type 0
SlotDentro memoria u = u.inicio_segmento_tcb + u.tamanio_segmento_tcb ≤ memoria

pub record TablaDentro (memoria : ℕ) (p : PatotaYTabla) : Type 0 where
  pub pcb : p.tabla_segmentos.inicio_segmento_pcb + p.tabla_segmentos.tamanio_segmento_pcb ≤ memoria
  pub tareas :
      p.tabla_segmentos.inicio_segmento_tareas + p.tabla_segmentos.tamanio_segmento_tareas ≤ memoria
  pub slots : All (SlotDentro memoria) p.tabla_segmentos.listado_tripulantes

pub mover_inside :
    (mfisica : List ℕ) (destino origen n : ℕ)
    → destino + n ≤ length mfisica
    → origen + n ≤ length mfisica
    → (movida : List ℕ) × (mover mfisica destino origen n ≡ some movida)
      × (length movida ≡ length mfisica)
unfolding mover
mover_inside mfisica destino origen n to from =
    let bytes = take n (drop origen mfisica) in
    let size : length bytes ≡ n =
      omega (arith, length-take n (drop origen mfisica), length-drop origen mfisica) in
    let room : destino + length bytes ≤ length mfisica = omega arith in
    (
      splice mfisica destino bytes,
      rw (copy_from-inside mfisica origen n from, ◌>>=◌) (poner_inside mfisica destino bytes room),
      length-splice mfisica destino bytes room,
    )

-- The slots with the tid are no larger than `n`.
abbrev pub Caben : ℕ → ℕ → List (ℕ × ℕ) → Type 0
Caben tid n slots = All (λ u. u.0 ≡ tid → u.1 ≤ n) slots

module _ (tid libre n memoria : ℕ) (room : libre + n ≤ memoria) where
  mover_tripulantes-inside :
      (mfisica : List ℕ) (ts : List SegmentoTripulante)
      → length mfisica ≡ memoria
      → All (SlotDentro memoria) ts
      → Caben tid n (map forma_slot ts)
      → (movida : List ℕ) × (ts' : List SegmentoTripulante) × (mover_tripulantes mfisica ts tid
            libre
          ≡ some (movida, ts'))
        × (length movida ≡ memoria)
        × All (SlotDentro memoria) ts'
        × (map forma_slot ts' ≡ map forma_slot ts)
  unfolding mover_tripulantes
  mover_tripulantes-inside mfisica [] whole inside fit = (mfisica, [], refl, whole, tt, refl)
  mover_tripulantes-inside mfisica (t ∷ ts) whole (here, inside) (fits, fit) =
      elim (Bool-cases (t.tid == tid)) [
        | inl e ↦
            let small : t.tamanio_segmento_tcb ≤ n = fits (ground arith) in
            let (a, f, size) =
              mover_inside mfisica libre t.inicio_segmento_tcb t.tamanio_segmento_tcb (omega arith)
                (omega arith) in
            let (b, ts', g, size', inside', same) =
              mover_tripulantes-inside a ts (size ∙ whole) inside fit in
            (
              b,
              record t { inicio_segmento_tcb = libre } ∷ ts',
              rw (e, f, ◌>>=◌, g) refl,
              size',
              (omega arith, inside'),
              ap (◌∷◌ (forma_slot t)) same,
            )
        | inr e ↦
            let (b, ts', g, size', inside', same) =
              mover_tripulantes-inside mfisica ts whole inside fit in
            (b, t ∷ ts', rw (e, g) refl, size', (here, inside'), ap (◌∷◌ (forma_slot t)) same)
      ]

  pub mover_patotas-inside :
      (mfisica : List ℕ) (ps : List PatotaYTabla)
      → length mfisica ≡ memoria
      → All (TablaDentro memoria) ps
      → All (λ f. Caben tid n f.slots) (map forma ps)
      → (movida : List ℕ) × (ps' : List PatotaYTabla) × (mover_patotas mfisica ps tid libre
          ≡ some (movida, ps'))
        × (length movida ≡ memoria)
        × All (TablaDentro memoria) ps'
        × (map forma ps' ≡ map forma ps)
  unfolding mover_patotas
  mover_patotas-inside mfisica [] whole inside fit = (mfisica, [], refl, whole, tt, refl)
  mover_patotas-inside mfisica (p ∷ ps) whole (here, inside) (fits, fit) =
      let (a, ts', f, size, slots', same) =
        mover_tripulantes-inside mfisica p.tabla_segmentos.listado_tripulantes whole here.slots
          fits in
      let (b, ps', g, size', inside', same') = mover_patotas-inside a ps size inside fit in
      let first : forma (con_tripulantes p ts') ≡ forma p =
        ap (λ l. record (forma p) { slots = l }) same in
      (
        b,
        con_tripulantes p ts' ∷ ps',
        rw (f, ◌>>=◌, g) refl,
        size',
        (record { pcb = here.pcb; tareas = here.tareas; slots = slots' }, inside'),
        ap (λ x. x ∷ map forma ps') first ∙ ap (◌∷◌ (forma p)) same',
      )
