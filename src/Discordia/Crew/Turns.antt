-- ===== src/Discordia/Crew/Turns.antt =====
-- The turns of a crew member one after the other, `tripulante_loop` of
-- Discordia/src/planificador/tripulante/tripulante.c, outside of a sabotage.
use tp_2021_1c_en_c_errados.Prelude.{
  ℕ, zero, suc, ◌+◌, ◌-◌, ◌≡◌, refl, ◌∙◌, true, false, Option, some, arith, if◌then◌else◌, ◌>>=◌,
}
use tp_2021_1c_en_c_errados.Protocol.Fields.{Pos}
use tp_2021_1c_en_c_errados.Discordia.Crew.{
  avisar, cmp_pos, un_paso, tripulante_mover, sin_expulsar, trabajar, tripulante_turno, Tarea,
  Tripulante, Commons, Red, Turno,
}

-- `k` turns, or fewer where one asks for the expulsion.
unfoldable pub turnos : Commons → ℕ → Tripulante → Red → Option Turno
turnos c zero t red = some (record { trip = t; red = red; expulsar = false })
turnos c (suc k) t red = do
  r ← tripulante_turno c false (record { x = 0; y = 0 }) t red
  if r.expulsar then some r else turnos c k r.trip r.red

abbrev pub separacion : ℕ → ℕ → ℕ
separacion a b = (a - b) + (b - a)

-- How many places a crew member has to go.
abbrev pub distancia : Pos → Pos → ℕ
distancia p q = separacion p.x q.x + separacion p.y q.y

distancia-un_paso : (p q : Pos) (n : ℕ) → distancia p q ≡ suc n → distancia (un_paso p q) q ≡ n
unfolding un_paso
distancia-un_paso p q n h = ground arith

cmp_pos-distancia : (p q : Pos) (n : ℕ) → distancia p q ≡ suc n → cmp_pos p q ≡ false
unfolding cmp_pos
cmp_pos-distancia p q n h = ground arith

pub cmp_pos_self : (p : Pos) → cmp_pos p p ≡ true
unfolding cmp_pos
cmp_pos_self p = ground arith

distancia-eq-zero : (p q : Pos) → distancia p q ≡ 0 → p ≡ q
distancia-eq-zero p q h =
    let e : p.x ≡ q.x = omega arith in
    let f : p.y ≡ q.y = omega arith in λ i. record { x = e i; y = f i }

-- One turn towards the place of the task.
turno_mover :
    (c : Commons) (sabotaje : Pos) (t : Tripulante) (tarea : Tarea) (red : Red)
    → t.tarea_actual ≡ some tarea
    → cmp_pos t.pos tarea.pos ≡ false
    → (red' : Red) × (tripulante_turno c false sabotaje t red
        ≡ some (record {
          trip = record t { pos = un_paso t.pos tarea.pos };
          red = red';
          expulsar = false;
        }))
      × (red'.respuestas ≡ red.respuestas)
unfolding tripulante_turno trabajar sin_expulsar tripulante_mover avisar
turno_mover c sabotaje t tarea red e far =
    ((tripulante_mover t tarea.pos red).1, simp (e, far), refl)

-- The way to the place of the task.
module _ (c : Commons) (tarea : Tarea) where
  pub turnos_mover :
      (n k f : ℕ) (t : Tripulante) (red : Red)
      → f ≡ n + k
      → distancia t.pos tarea.pos ≡ n
      → t.tarea_actual ≡ some tarea
      → (red' : Red) × (turnos c f t red ≡ turnos c k (record t { pos = tarea.pos }) red')
        × (red'.respuestas ≡ red.respuestas)
  unfolding turnos
  turnos_mover zero k f t red e d h =
      let same : t.pos ≡ tarea.pos = distancia-eq-zero t.pos tarea.pos d in
      let fuel : f ≡ k = omega arith in
      (red, (λ i. turnos c (fuel i) (record t { pos = same i }) red), refl)
  turnos_mover (suc n) k zero t red e d h = absurd (omega arith)
  turnos_mover (suc n) k (suc f) t red e d h =
      let far = cmp_pos-distancia t.pos tarea.pos n d in
      let (red', g, same) = turno_mover c (record { x = 0; y = 0 }) t tarea red h far in
      let t' = record t { pos = un_paso t.pos tarea.pos } in
      let (red'', k', same') =
        turnos_mover n k f t' red' (omega arith) (distancia-un_paso t.pos tarea.pos n d) h in
      (red'', rw g k', same' ∙ same)
