-- ===== src/Discordia/Crew/Work.antt =====
-- A crew member reaches the place of its task and does it: the turns of `tripulante_loop` of
-- Discordia/src/planificador/tripulante/tripulante.c.
use tp_2021_1c_en_c_errados.Prelude.{
  if-both, u32_mod, sub32, ℕ, zero, suc, ◌+◌, ◌-◌, ◌<◌, ◌≡◌, refl, sym, ap, ◌∙◌, inl, inr, true,
  false, not, Option, some, List, [], ◌∷◌, ◌++◌, arith, ◌==◌, if◌then◌else◌, Bool-cases, ◌>>=◌,
}
use tp_2021_1c_en_c_errados.Protocol.Fields.{Pos}
use tp_2021_1c_en_c_errados.Discordia.Crew.{
  avisar, primera_respuesta, otras_respuestas, discordia_obtener_proxima_tarea, parsear_tarea,
  hay_tarea, tripulante_obtener_proxima_tarea, cmp_pos, ejecutar_en_cpu, trabajar, tripulante_turno,
  Tarea, Tripulante, Commons, Aviso, proxima_tarea, iniciar_tarea, finalizar_tarea, Red, Turno,
}
use tp_2021_1c_en_c_errados.Discordia.Crew.Turns.{turnos, distancia, cmp_pos_self, turnos_mover}

-- The task is done: the crew member stands in its place with the next one, if there is any, and asks
-- to be expelled if there is none; the last messages are the end of the task and the request.
pub record Terminada (t : Tripulante) (tarea : Tarea) (siguiente : Option Tarea) (r : Turno)
    : Type 0 where
  pub lugar : r.trip.pos ≡ tarea.pos
  pub proxima : r.trip.tarea_actual ≡ siguiente
  pub expulsado : r.expulsar ≡ not (hay_tarea siguiente)
  pub antes : List Aviso
  pub avisos :
      r.red.avisos
      ≡ (antes ++ finalizar_tarea t.tid tarea.tarea ∷ []) ++ proxima_tarea t.pid t.tid ∷ []

-- The last turn of a task in a CPU.
ejecutar_en_cpu-last :
    (c : Commons) (t : Tripulante) (tarea : Tarea) (red : Red) (siguiente : Option Tarea)
    → sub32 tarea.tiempo_bloqueado 1 ≡ 0
    → t.pos ≡ tarea.pos
    → parsear_tarea c (primera_respuesta red.respuestas) ≡ some siguiente
    → (r : Turno) × (ejecutar_en_cpu c t tarea red ≡ some r) × Terminada t tarea siguiente r
unfolding ejecutar_en_cpu tripulante_obtener_proxima_tarea discordia_obtener_proxima_tarea avisar
ejecutar_en_cpu-last c t tarea red siguiente z at next =
    let iniciada =
      if t.es_primera_ejecucion_en_cpu then avisar (iniciar_tarea t.tid tarea.tarea) red else red in
    let same : iniciada.respuestas ≡ red.respuestas =
      if-both (λ (x : Red). x.respuestas ≡ red.respuestas) t.es_primera_ejecucion_en_cpu refl
        refl in
    let answer : parsear_tarea c (primera_respuesta iniciada.respuestas) ≡ some siguiente =
      ap (λ x. parsear_tarea c (primera_respuesta x)) same ∙ next in
    (
      record {
        trip = record t { tarea_actual = siguiente; es_primera_ejecucion_en_cpu = true };
        red =
            avisar (proxima_tarea t.pid t.tid)
              (record (avisar (finalizar_tarea t.tid tarea.tarea) iniciada) {
                respuestas = otras_respuestas iniciada.respuestas;
              });
        expulsar = not (hay_tarea siguiente);
      },
      simp (z, answer, ◌>>=◌),
      record {
        lugar = at;
        proxima = refl;
        expulsado = refl;
        antes = iniciada.avisos;
        avisos = refl;
      },
    )

-- Another turn of the task.
abbrev sigue : Tarea → Tarea
sigue tarea = record tarea {
  tiempo_bloqueado = sub32 tarea.tiempo_bloqueado 1;
  is_finished = sub32 tarea.tiempo_bloqueado 1 == 0;
}

ejecutar_en_cpu-more :
    (c : Commons) (t : Tripulante) (tarea : Tarea) (red : Red)
    → (sub32 tarea.tiempo_bloqueado 1 == 0) ≡ false
    → (red' : Red) × (ejecutar_en_cpu c t tarea red
        ≡ some (record {
          trip = record t {
            tarea_actual = some (sigue tarea);
            es_primera_ejecucion_en_cpu = false;
          };
          red = red';
          expulsar = false;
        }))
      × (red'.respuestas ≡ red.respuestas)
unfolding ejecutar_en_cpu avisar
ejecutar_en_cpu-more c t tarea red more = (
  if t.es_primera_ejecucion_en_cpu then avisar (iniciar_tarea t.tid tarea.tarea) red else red,
  simp more,
  if-both (λ (x : Red). x.respuestas ≡ red.respuestas) t.es_primera_ejecucion_en_cpu refl refl,
)

-- Where the crew member is in its place, a turn is a turn of CPU.
turno_en_cpu :
    (c : Commons) (sabotaje : Pos) (t : Tripulante) (tarea : Tarea) (red : Red)
    → t.tarea_actual ≡ some tarea
    → t.pos ≡ tarea.pos
    → tarea.is_blocking ≡ false
    → tripulante_turno c false sabotaje t red ≡ ejecutar_en_cpu c t tarea red
unfolding tripulante_turno trabajar
turno_en_cpu c sabotaje t tarea red e at b =
    let here : cmp_pos t.pos tarea.pos ≡ true =
      ap (λ x. cmp_pos x tarea.pos) at ∙ cmp_pos_self tarea.pos in
    simp (e, here, b)

-- What a last turn leaves is what the turns leave.
turnos-last :
    (c : Commons) (t : Tripulante) (red : Red) (r : Turno)
    → tripulante_turno c false (record { x = 0; y = 0 }) t red ≡ some r
    → turnos c 1 t red ≡ some r
unfolding turnos
turnos-last c t red r e = elim (Bool-cases r.expulsar) [
  | inl b ↦ simp (e, b, ◌>>=◌)
  | inr b ↦ simp (e, b, ◌>>=◌) (λ i. some (record r { expulsar = sym b i }))
]

module _ (c : Commons) (siguiente : Option Tarea) where
  turnos_en_cpu :
      (m : ℕ) (t : Tripulante) (tarea : Tarea) (red : Red)
      → tarea.tiempo_bloqueado ≡ suc m
      → suc m < u32_mod
      → t.tarea_actual ≡ some tarea
      → t.pos ≡ tarea.pos
      → tarea.is_blocking ≡ false
      → parsear_tarea c (primera_respuesta red.respuestas) ≡ some siguiente
      → (r : Turno) × (turnos c (suc m) t red ≡ some r) × Terminada t tarea siguiente r
  unfolding turnos
  turnos_en_cpu zero t tarea red time small e at b next =
      let (r, f, done) = ejecutar_en_cpu-last c t tarea red siguiente (omega arith) at next in
      let turn = turno_en_cpu c (record { x = 0; y = 0 }) t tarea red e at b in
      (r, turnos-last c t red r (turn ∙ f), done)
  turnos_en_cpu (suc m) t tarea red time small e at b next =
      let (red', f, same) = ejecutar_en_cpu-more c t tarea red (ground arith) in
      let turn = turno_en_cpu c (record { x = 0; y = 0 }) t tarea red e at b in
      let t' = record t {
        tarea_actual = some (sigue tarea);
        es_primera_ejecucion_en_cpu = false;
      } in
      let (r, g, done) =
        turnos_en_cpu m t' (sigue tarea) red' (omega arith) (omega arith) refl at b
          (ap (λ x. parsear_tarea c (primera_respuesta x)) same ∙ next) in
      (
        r,
        rw (turn ∙ f) g,
        record {
          lugar = done.lugar;
          proxima = done.proxima;
          expulsado = done.expulsado;
          antes = done.antes;
          avisos = done.avisos;
        },
      )

  -- Outside of a sabotage, and where the answer of the memory can be read as a task or is none, a
  -- task that does not block, of at least one turn, is done after as many turns as its place is away
  -- and its time is long, whatever else is in the crew member: it stands in the place of the task,
  -- the end of the task and the request of the next one have been sent, and it has the next task, or
  -- asks to be expelled.
  pub turnos_terminan :
      (t : Tripulante) (tarea : Tarea) (red : Red)
      → t.tarea_actual ≡ some tarea
      → tarea.is_blocking ≡ false
      → 0 < tarea.tiempo_bloqueado
      → tarea.tiempo_bloqueado < u32_mod
      → parsear_tarea c (primera_respuesta red.respuestas) ≡ some siguiente
      → (r : Turno) × (turnos c (distancia t.pos tarea.pos + tarea.tiempo_bloqueado) t red ≡ some r)
        × Terminada t tarea siguiente r
  turnos_terminan t tarea red e b some_time small next =
      let m = tarea.tiempo_bloqueado - 1 in
      let fuel : suc m ≡ tarea.tiempo_bloqueado = omega arith in
      let n = distancia t.pos tarea.pos in
      let (red', f, same) =
        turnos_mover c tarea n (suc m) (n + tarea.tiempo_bloqueado) t red (omega arith) refl e in
      let (r, g, done) =
        turnos_en_cpu m (record t { pos = tarea.pos }) tarea red' (sym fuel) (omega arith) e refl b
          (ap (λ x. parsear_tarea c (primera_respuesta x)) same ∙ next) in
      (
        r,
        f ∙ g,
        record {
          lugar = done.lugar;
          proxima = done.proxima;
          expulsado = done.expulsado;
          antes = done.antes;
          avisos = done.avisos;
        },
      )

-- Outside of a sabotage, a task that blocks asks for the I/O after as many turns as its place is
-- away and one more, with a message of its start last.
pub turnos_bloquean :
    (c : Commons) (t : Tripulante) (tarea : Tarea) (red : Red)
    → t.tarea_actual ≡ some tarea
    → tarea.is_blocking ≡ true
    → (r : Turno) × (turnos c (distancia t.pos tarea.pos + 1) t red ≡ some r)
      × (r.trip ≡ record t { pos = tarea.pos; bloquear = true })
      × ((antes : List Aviso) × (r.red.avisos ≡ antes ++ iniciar_tarea t.tid tarea.tarea ∷ []))
unfolding tripulante_turno trabajar avisar
turnos_bloquean c t tarea red e b =
    let n = distancia t.pos tarea.pos in
    let (red', f, same) = turnos_mover c tarea n 1 (n + 1) t red refl refl e in
    let t' = record t { pos = tarea.pos } in
    let r : Turno = record {
      trip = record t { pos = tarea.pos; bloquear = true };
      red = avisar (iniciar_tarea t.tid tarea.tarea) red';
      expulsar = false;
    } in
    (
      r,
      f ∙ turnos-last c t' red' r (simp (e, cmp_pos_self tarea.pos, b)),
      refl,
      (red'.avisos, refl),
    )
