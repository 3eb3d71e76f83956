-- ===== src/Ram/Crew/Expel.antt =====
-- A crew member leaves the memory of
-- Mi-RAM-HQ/src/memoria/esquemas/segmentacion/segmentacion.c.
use tp_2021_1c_en_c_errados.Prelude.{
  suma, suma-set, ℕ, ◌+◌, ◌%◌, ◌≡◌, ◌≢◌, inl, inr, refl, ◌∙◌, List, some, ◌>>=◌, ◌==◌,
  if◌then◌else◌, set, arith, u32_mod, Bool-cases, All-set, All-get_elem?,
}
use tp_2021_1c_en_c_errados.Ram.Segments.{Segmento, menos_uno, quitar}
use tp_2021_1c_en_c_errados.Ram.Segments.Cover.{
  bytes_libres, uno_dentro, IsPartition, bytes-le-memoria,
}
use tp_2021_1c_en_c_errados.Ram.Tables.{
  SegmentoTripulante, PatotaYTabla, buscar_patota, buscar_tripulante, buscar_ultimo, liberar,
  con_tripulantes,
}
use tp_2021_1c_en_c_errados.Ram.Tables.Search.{buscar_ultimo-some, buscar_ultimo-set_other}
use tp_2021_1c_en_c_errados.Ram.Segmentation.{Memoria}
use tp_2021_1c_en_c_errados.Ram.Allocation.Start.{EnCuenta}
use tp_2021_1c_en_c_errados.Ram.Crew.{expulsar_tripulante, despedir, todos_expulsados, slot_libre}

-- The last segment that starts at `inicio` is in use and has `n` bytes.
abbrev pub EnUso : List Segmento → ℕ → ℕ → Type 0
EnUso ss inicio n =
    (k : ℕ) × (s : Segmento) × (buscar_ultimo (λ u. u.inicio == inicio) ss ≡ some (k, s))
    × (s.tipo ≢ menos_uno)
    × (s.tamanio ≡ n)

-- A segment freed: the partition stays, its bytes are free, and other segments are found as before.
pub record Liberado (memoria : ℕ) (ss : List Segmento) (inicio n : ℕ) (ss' : List Segmento)
    : Type 0 where
  pub regla : IsPartition memoria ss'
  pub bytes : suma bytes_libres ss' ≡ suma bytes_libres ss + n
  pub otros : (x l : ℕ) → x ≢ inicio → EnUso ss x l → EnUso ss' x l

pub liberar-Liberado :
    (memoria : ℕ) (ss : List Segmento) (inicio n : ℕ)
    → IsPartition memoria ss
    → EnUso ss inicio n
    → (ss' : List Segmento) × (liberar ss inicio ≡ some ss') × Liberado memoria ss inicio n ss'
unfolding liberar
liberar-Liberado memoria ss inicio n p (k, s, found, used, size) =
    let (_, at, same) = buscar_ultimo-some (λ u. u.inicio == inicio) ss k s found in
    let freed : Segmento = record s { tipo = menos_uno; id_propietario = menos_uno } in
    let start : s.inicio ≡ inicio = ground arith in
    (
      set ss k freed,
      rw (found, ◌>>=◌) refl,
      record {
        regla = record {
          small = p.small;
          inside = All-set _ ss k freed p.inside (All-get_elem? _ ss k p.inside at);
          total = omega (arith, suma-set (λ u. u.tamanio) ss k s freed at, p.total);
          once = λ a h. omega (arith, suma-set (uno_dentro a) ss k s freed at, p.once a h);
        };
        bytes =
            let none_before : bytes_libres s ≡ 0 = ground arith in
            omega (arith, suma-set bytes_libres ss k s freed at);
        otros = λ x l ne (j, u, f, busy, long). (
          j,
          u,
          buscar_ultimo-set_other (λ v. v.inicio == x) ss k s freed at (ground arith) (ground arith)
              ∙ f,
          busy,
          long,
        );
      },
    )

-- The tables have the crew member, and its TCB, the PCB and the tasks of its patota have segments in
-- use of their sizes, at three addresses.
pub record Registrado (m : Memoria) (pid tid : ℕ) : Type 0 where
  pub i : ℕ
  pub p : PatotaYTabla
  pub k : ℕ
  pub t : SegmentoTripulante
  pub patota : buscar_patota m.listado_patotas pid ≡ some (i, p)
  pub tripulante : buscar_tripulante p.tabla_segmentos.listado_tripulantes tid ≡ some (k, t)
  pub tcb : EnUso m.listado_segmentos t.inicio_segmento_tcb 21
  pub pcb : EnUso m.listado_segmentos p.tabla_segmentos.inicio_segmento_pcb 8
  pub tareas :
      EnUso m.listado_segmentos p.tabla_segmentos.inicio_segmento_tareas
        p.tabla_segmentos.tamanio_segmento_tareas
  pub pcb_tcb : p.tabla_segmentos.inicio_segmento_pcb ≢ t.inicio_segmento_tcb
  pub tareas_tcb : p.tabla_segmentos.inicio_segmento_tareas ≢ t.inicio_segmento_tcb
  pub tareas_pcb : p.tabla_segmentos.inicio_segmento_tareas ≢ p.tabla_segmentos.inicio_segmento_pcb

-- The bytes that come free: those of the TCB, and with the last crew member those of the patota.
abbrev pub bytes_liberados : (m : Memoria) (pid tid : ℕ) → Registrado m pid tid → ℕ
bytes_liberados m pid tid r =
    let tabla = r.p.tabla_segmentos in
    if todos_expulsados (set tabla.listado_tripulantes r.k slot_libre)
    then 21 + (8 + tabla.tamanio_segmento_tareas)
    else 21

-- In a memory that is partitioned and whose count of free bytes is right, a crew member with its
-- segments is expelled: the memory stays partitioned, and the count stays right and goes up by the
-- bytes of the TCB, and with the last crew member by those of the PCB and the tasks as well.
pub expulsar_tripulante-EnCuenta :
    (m : Memoria) (pid tid : ℕ) (r : Registrado m pid tid)
    → EnCuenta m
    → (m' : Memoria) × (expulsar_tripulante m pid tid ≡ some m')
      × EnCuenta m'
      × (m'.espacio_libre ≡ m.espacio_libre + bytes_liberados m pid tid r)
unfolding expulsar_tripulante despedir
expulsar_tripulante-EnCuenta m pid tid r q =
    let b = m.tamanio_memoria in
    let tabla = r.p.tabla_segmentos in
    let crew = set tabla.listado_tripulantes r.k slot_libre in
    let (sin_tcb, e, f) =
      liberar-Liberado b m.listado_segmentos r.t.inicio_segmento_tcb 21 q.regla r.tcb in
    let max = bytes-le-memoria b sin_tcb f.regla in
    let counted = f.bytes in
    let before = q.cuenta in
    let small = q.regla.small in
    elim (Bool-cases (todos_expulsados crew)) [
      | inl last ↦
          let (sin_pcb, e2, f2) =
            liberar-Liberado b sin_tcb tabla.inicio_segmento_pcb 8 f.regla
              (f.otros _ _ r.pcb_tcb r.pcb) in
          let (sin_tareas, e3, f3) =
            liberar-Liberado b sin_pcb tabla.inicio_segmento_tareas tabla.tamanio_segmento_tareas
              f2.regla (f2.otros _ _ r.tareas_pcb (f.otros _ _ r.tareas_tcb r.tareas)) in
          let max3 = bytes-le-memoria b sin_tareas f3.regla in
          let counted2 = f2.bytes in
          let counted3 = f3.bytes in
          let sum : (m.espacio_libre + 21 + (8 + tabla.tamanio_segmento_tareas)) % u32_mod
              ≡ m.espacio_libre + (21 + (8 + tabla.tamanio_segmento_tareas)) =
            omega arith in
          (
            record m {
              listado_segmentos = sin_tareas;
              listado_patotas = quitar m.listado_patotas r.i;
              espacio_libre =
                  (m.espacio_libre + 21 + (8 + tabla.tamanio_segmento_tareas)) % u32_mod;
            },
            rw (r.patota, ◌>>=◌, r.tripulante, e, last, e2, e3) refl,
            record { regla = f3.regla; cuenta = omega arith; entera = q.entera },
            rw last sum,
          )
      | inr more ↦
          let sum : (m.espacio_libre + 21) % u32_mod ≡ m.espacio_libre + 21 = omega arith in
          (
            record m {
              listado_segmentos = sin_tcb;
              listado_patotas = set m.listado_patotas r.i (con_tripulantes r.p crew);
              espacio_libre = (m.espacio_libre + 21) % u32_mod;
            },
            rw (r.patota, ◌>>=◌, r.tripulante, e, more) refl,
            record { regla = f.regla; cuenta = omega arith; entera = q.entera },
            rw more sum,
          )
    ]
