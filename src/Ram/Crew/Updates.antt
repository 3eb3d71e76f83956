-- ===== src/Ram/Crew/Updates.antt =====
-- What the updates of a crew member, of
-- Mi-RAM-HQ/src/memoria/esquemas/segmentacion/segmentacion.c, leave to be read.
use tp_2021_1c_en_c_errados.Ram.Crew.{
  asignar, Tripulante, direccion_tcb, obtener_tcb, actualizar_posicion_tripulante,
  actualizar_estado_tripulante, obtener_y_actualizar_proxima_tarea, inicializar_tripulante,
}
use tp_2021_1c_en_c_errados.Prelude.{
  ℕ, ◌+◌, ◌%◌, ◌≤◌, ◌≡◌, ◌≢◌, ◌⊎◌, refl, ap, List, [], ◌∷◌, map, some, ◌>>=◌, ◌==◌, length,
  get_elem?, set, All, arith, le32, splice, length-splice, u32_mod, All-map, get_elem?-eq-some-lt,
}
use tp_2021_1c_en_c_errados.Ram.Segments.{menos_uno}
use tp_2021_1c_en_c_errados.Ram.Tables.{
  SegmentoTripulante, PatotaYTabla, buscar_patota, primer_indice, con_tripulantes,
}
use tp_2021_1c_en_c_errados.Ram.Tables.Search.{
  buscar_ultimo-some, buscar_ultimo-set, buscar_ultimo-only, ==_refl, ==_ne,
}
use tp_2021_1c_en_c_errados.Ram.Physical.{leer32, tcb}
use tp_2021_1c_en_c_errados.Ram.Physical.Copies.{
  poner_inside, poner_todo-splice, copy_from-splice, junto,
}
use tp_2021_1c_en_c_errados.Ram.Segmentation.{Memoria}
use tp_2021_1c_en_c_errados.Ram.Crew.Tcb.{
  Tcb, Guardado, Guardado-obtener_tcb, Tcb-estado, Tcb-x, Tcb-y, Tcb-proxima, Tcb-splice_other,
}
use tp_2021_1c_en_c_errados.Protocol.Fields.{Pos, IsPos}

-- The patota has a slot without a tid, whose segment lies in the memory, and no slot with the tid.
pub record Lugar (m : Memoria) (pid tid : ℕ) : Type 0 where
  pub i : ℕ
  pub p : PatotaYTabla
  pub k : ℕ
  pub t : SegmentoTripulante
  pub patota : buscar_patota m.listado_patotas pid ≡ some (i, p)
  pub slot : primer_indice (λ u. u.tid == menos_uno) p.tabla_segmentos.listado_tripulantes ≡ some k
  pub at : get_elem? p.tabla_segmentos.listado_tripulantes k ≡ some t
  pub nuevo : All (λ u. u.tid ≢ tid) p.tabla_segmentos.listado_tripulantes
  pub room : t.inicio_segmento_tcb + 21 ≤ length m.mfisica

-- A TCB just written.
tcb-Tcb :
    (mfisica : List ℕ) (a pid tid : ℕ) (pos : Pos)
    → a + 21 ≤ length mfisica
    → IsPos pos
    → Tcb
        (splice mfisica a (junto (tcb tid pos)))
        a
        (record { pid = pid; tid = tid; pos = pos; estado = 78; proxima_tarea = 0 })
unfolding tcb leer32
tcb-Tcb mfisica a pid tid pos room word =
    let bytes = junto (tcb tid pos) in
    record {
      room = omega (arith, length-splice mfisica a bytes room);
      estado = copy_from-splice mfisica a bytes 4 1 room (omega arith);
      x =
          rw (copy_from-splice mfisica a bytes 5 4 room (omega arith), ◌>>=◌)
            (ap some (omega (arith, word.x_fits)));
      y =
          rw (copy_from-splice mfisica a bytes 9 4 room (omega arith), ◌>>=◌)
            (ap some (omega (arith, word.y_fits)));
      proxima = rw (copy_from-splice mfisica a bytes 13 4 room (omega arith), ◌>>=◌) refl;
    }

-- The state with the crew member stored.
abbrev con_tripulante : (m : Memoria) (pid tid : ℕ) → Pos → Lugar m pid tid → Memoria
con_tripulante m pid tid pos l =
    let a = l.t.inicio_segmento_tcb in
    let crew = set l.p.tabla_segmentos.listado_tripulantes l.k (record l.t { tid = tid }) in
    record m {
      listado_patotas = set m.listado_patotas l.i (con_tripulantes l.p crew);
      listado_segmentos = map (asignar a tid) m.listado_segmentos;
      mfisica = splice m.mfisica a (junto (tcb tid pos));
    }

direccion_tcb-con_tripulante :
    (m : Memoria) (pid tid : ℕ) (pos : Pos) (l : Lugar m pid tid)
    → direccion_tcb (con_tripulante m pid tid pos l) pid tid ≡ some l.t.inicio_segmento_tcb
unfolding direccion_tcb
direccion_tcb-con_tripulante m pid tid pos l =
    let crew = l.p.tabla_segmentos.listado_tripulantes in
    let slot : SegmentoTripulante = record l.t { tid = tid } in
    let (_, _, pid_same) =
      buscar_ultimo-some (λ p. p.pid == pid) m.listado_patotas l.i l.p l.patota in
    let patota' =
      buscar_ultimo-set (λ p. p.pid == pid) m.listado_patotas l.i l.p
        (con_tripulantes l.p (set crew l.k slot)) l.patota pid_same in
    let crew' =
      buscar_ultimo-only (λ u. u.tid == tid) crew l.k slot (get_elem?-eq-some-lt crew l.k l.at)
        (All-map _ crew (λ u h. ==_ne u.tid tid h) l.nuevo) (==_refl tid) in
    rw (patota', ◌>>=◌, crew') refl

-- A crew member whose patota has room for it is stored, and is then read back with its position, in
-- state 'N' and with task 0 to come.
pub inicializar_tripulante-obtener_tcb :
    (m : Memoria) (pid tid : ℕ) (pos : Pos)
    → IsPos pos
    → Lugar m pid tid
    → (m' : Memoria) × (inicializar_tripulante m pid tid pos ≡ some m')
      × (obtener_tcb m' pid tid
          ≡ some (record { pid = pid; tid = tid; pos = pos; estado = 78; proxima_tarea = 0 }))
unfolding inicializar_tripulante tcb
inicializar_tripulante-obtener_tcb m pid tid pos word l =
    let a = l.t.inicio_segmento_tcb in
    let written = poner_todo-splice m.mfisica a (tcb tid pos) l.room in
    (
      con_tripulante m pid tid pos l,
      rw (l.patota, ◌>>=◌, l.slot, l.at, written) refl,
      Guardado-obtener_tcb (con_tripulante m pid tid pos l) a _ (record {
        direccion = direccion_tcb-con_tripulante m pid tid pos l;
        bytes = tcb-Tcb m.mfisica a pid tid pos l.room word;
      }),
    )

-- The state with other bytes in the memory.
abbrev con_bytes : Memoria → List ℕ → Memoria
con_bytes m mfisica = record m { mfisica = mfisica }

Guardado-con_bytes :
    (m : Memoria) (a : ℕ) (info info' : Tripulante) (mfisica : List ℕ)
    → Guardado m a info
    → info'.pid ≡ info.pid
    → info'.tid ≡ info.tid
    → Tcb mfisica a info'
    → Guardado (con_bytes m mfisica) a info'
unfolding direccion_tcb
Guardado-con_bytes m a info info' mfisica g pid tid t = record {
  direccion = rw (pid, tid) g.direccion;
  bytes = t;
}

-- The new position is what is read, and nothing else of the crew member changes.
pub actualizar_posicion_tripulante-Guardado :
    (m : Memoria) (a : ℕ) (info : Tripulante) (pos : Pos)
    → Guardado m a info
    → IsPos pos
    → (m' : Memoria) × (actualizar_posicion_tripulante m info.pid info.tid pos ≡ some m')
      × Guardado m' a (record info { pos = pos })
unfolding actualizar_posicion_tripulante
actualizar_posicion_tripulante-Guardado m a info pos g word =
    let room = g.bytes.room in
    let con_x = splice m.mfisica (a + 5) (le32 pos.x) in
    let con_y = splice con_x (a + 9) (le32 pos.y) in
    let t = Tcb-x m.mfisica a info g.bytes pos.x word.x_fits in
    let u =
      Tcb-y con_x a (record info { pos = record info.pos { x = pos.x } }) t pos.y word.y_fits in
    let first = poner_inside m.mfisica (a + 5) (le32 pos.x) (omega arith) in
    let second = poner_inside con_x (a + 9) (le32 pos.y) (omega (arith, t.room)) in
    (
      con_bytes m con_y,
      rw (g.direccion, ◌>>=◌, first, second) refl,
      Guardado-con_bytes m a info (record info { pos = pos }) con_y g refl refl u,
    )

-- The new state is what is read, and nothing else of the crew member changes.
pub actualizar_estado_tripulante-Guardado :
    (m : Memoria) (a : ℕ) (info : Tripulante) (estado : ℕ)
    → Guardado m a info
    → (m' : Memoria) × (actualizar_estado_tripulante m info.pid info.tid estado ≡ some m')
      × Guardado m' a (record info { estado = estado })
unfolding actualizar_estado_tripulante
actualizar_estado_tripulante-Guardado m a info estado g =
    let room = g.bytes.room in
    let escrita = splice m.mfisica (a + 4) (estado ∷ []) in
    let first = poner_inside m.mfisica (a + 4) (estado ∷ []) (omega arith) in
    (
      con_bytes m escrita,
      rw (g.direccion, ◌>>=◌, first) refl,
      Guardado-con_bytes m a info (record info { estado = estado }) escrita g refl refl
          (Tcb-estado m.mfisica a info g.bytes estado),
    )

-- The answer is the number of the next task, which is one more afterwards, modulo 2^32; nothing else
-- of the crew member changes.
pub obtener_y_actualizar_proxima_tarea-Guardado :
    (m : Memoria) (a : ℕ) (info : Tripulante)
    → Guardado m a info
    → (m' : Memoria) × (obtener_y_actualizar_proxima_tarea m info.pid info.tid
        ≡ some (info.proxima_tarea, m'))
      × Guardado m' a (record info { proxima_tarea = (info.proxima_tarea + 1) % u32_mod })
unfolding obtener_y_actualizar_proxima_tarea
obtener_y_actualizar_proxima_tarea-Guardado m a info g =
    let room = g.bytes.room in
    let next = (info.proxima_tarea + 1) % u32_mod in
    let escrita = splice m.mfisica (a + 13) (le32 next) in
    let first = poner_inside m.mfisica (a + 13) (le32 next) (omega arith) in
    (
      con_bytes m escrita,
      rw (g.direccion, ◌>>=◌, g.bytes.proxima, first) refl,
      Guardado-con_bytes m a info (record info { proxima_tarea = next }) escrita g refl refl
          (Tcb-proxima m.mfisica a info g.bytes next (omega arith)),
    )

-- An update of one crew member changes nothing that is read of another one, whose TCB is apart.
pub actualizar_posicion_tripulante-other :
    (m : Memoria) (a : ℕ) (info : Tripulante) (pos : Pos) (b : ℕ) (other : Tripulante)
    → Guardado m a info
    → Guardado m b other
    → (a + 21 ≤ b) ⊎ (b + 21 ≤ a)
    → (m' : Memoria) × (actualizar_posicion_tripulante m info.pid info.tid pos ≡ some m')
      × Guardado m' b other
unfolding actualizar_posicion_tripulante
actualizar_posicion_tripulante-other m a info pos b other g h apart =
    let room = g.bytes.room in
    let con_x = splice m.mfisica (a + 5) (le32 pos.x) in
    let con_y = splice con_x (a + 9) (le32 pos.y) in
    let first = poner_inside m.mfisica (a + 5) (le32 pos.x) (omega arith) in
    let kept = length-splice m.mfisica (a + 5) (le32 pos.x) (omega arith) in
    let second = poner_inside con_x (a + 9) (le32 pos.y) (omega arith) in
    let t =
      Tcb-splice_other m.mfisica (a + 5) (le32 pos.x) b other (omega arith) (omega arith) h.bytes in
    let u = Tcb-splice_other con_x (a + 9) (le32 pos.y) b other (omega arith) (omega arith) t in
    (
      con_bytes m con_y,
      rw (g.direccion, ◌>>=◌, first, second) refl,
      Guardado-con_bytes m b other other con_y h refl refl u,
    )
