-- ===== src/Discordia/System/Lost.antt =====
-- A crew member that asks for its own expulsion while the planner is paused, in
-- Discordia/src/planificador: `ds_planificador_eliminar_tripulante` looks for it in the queues, and a
-- CPU has it.
use tp_2021_1c_en_c_errados.Prelude.{
  suma, sub32, ℕ, zero, suc, ◌≤◌, ◌≡◌, refl, sym, ap, ◌∙◌, inl, inr, Bool, true, false, not, Option,
  none, some, List, [], ◌∷◌, arith, ◌==◌, if◌then◌else◌, Bool-cases, >>=-eq-some, if_true,
  get_elem?, some_injective,
}
use tp_2021_1c_en_c_errados.Protocol.Fields.{Pos}
use tp_2021_1c_en_c_errados.Discordia.Crew.{
  parsear_tarea, hay_tarea, tripulante_obtener_proxima_tarea, cmp_pos, ejecutar_en_cpu,
  sin_expulsar, trabajar, tripulante_turno, Tarea, Tripulante, Commons, Red, Turno,
}
use tp_2021_1c_en_c_errados.Discordia.Planner.{
  cola, find_and_terminate_from, find_and_terminate_from_block, io_find_and_terminate,
  io_find_and_terminate_from_block, ds_planificador_find_and_terminate_trip,
  ds_planificador_eliminar_tripulante, Planificador,
}
use tp_2021_1c_en_c_errados.Discordia.Queues.{
  sacar_tid, sacar_de, Cola, QueueType, queue_new, queue_ready, queue_exec, queue_block,
  queue_sabotage,
}
use tp_2021_1c_en_c_errados.Discordia.System.{tras_turno, Cpu, con, Sistema}
use tp_2021_1c_en_c_errados.Discordia.Planner.Weights.{peso_trip, peso}
use tp_2021_1c_en_c_errados.Discordia.Queues.Weights.{suma_tid}
use tp_2021_1c_en_c_errados.Discordia.System.Census.{peso_cpu, Sana}
use tp_2021_1c_en_c_errados.Discordia.System.Steps.{turno-tid}

abbrev pub uno : ℕ → ℕ → ℕ
uno tid k = if k == tid then 1 else 0

sacar_tid-none :
    (tid : ℕ) (ts : List Tripulante) → suma_tid (uno tid) ts ≡ 0 → sacar_tid tid ts ≡ none
unfolding sacar_tid suma
sacar_tid-none tid [] h = refl
sacar_tid-none tid (t ∷ ts) h = elim (Bool-cases (t.tid == tid)) [
  | inl e ↦ absurd (ground arith)
  | inr e ↦ rw (e, sacar_tid-none tid ts (ground arith)) refl
]

sacar_de-none : (tid : ℕ) (q : Cola) → suma_tid (uno tid) q.elementos ≡ 0 → sacar_de tid q ≡ none
unfolding sacar_de
sacar_de-none tid q h = rw (sacar_tid-none tid q.elementos h, sacar_de) refl

cola-suma :
    (g : ℕ → ℕ) (tipo : QueueType) (p : Planificador)
    → suma_tid g (cola tipo p).elementos ≤ peso g p
unfolding cola
cola-suma g queue_new p = omega arith
cola-suma g queue_ready p = omega arith
cola-suma g queue_exec p = omega arith
cola-suma g queue_block p = omega arith
cola-suma g queue_sabotage p = omega arith

module _ (tid : ℕ) (p : Planificador) (away : peso (uno tid) p ≡ 0) where
  find_and_terminate_from-none :
      (tipo : QueueType) (otro : ℕ → Planificador → Planificador)
      → find_and_terminate_from tipo otro tid p ≡ otro tid p
  unfolding find_and_terminate_from
  find_and_terminate_from-none tipo otro =
      rw
        (
          sacar_de-none tid (cola tipo p) (omega (arith, cola-suma (uno tid) tipo p)),
          find_and_terminate_from,
        )
        refl

  io_find_and_terminate-none :
      (actual : Option Tripulante) → p.curr_trip ≡ actual → io_find_and_terminate actual tid p ≡ p
  unfolding io_find_and_terminate find_and_terminate_from_block peso_trip
  io_find_and_terminate-none none e = find_and_terminate_from-none queue_block (λ _ p. p)
  io_find_and_terminate-none (some t) e =
      let own : peso_trip (uno tid) p.curr_trip ≡ uno tid t.tid = rw e refl in
      elim (Bool-cases (t.tid == tid)) [
        | inl f ↦ absurd (ground arith)
        | inr f ↦ simp f (find_and_terminate_from-none queue_block (λ _ p. p))
      ]

  -- The search finds nobody, and changes nothing.
  find_and_terminate_trip-none : ds_planificador_find_and_terminate_trip tid p ≡ p
  unfolding ds_planificador_find_and_terminate_trip io_find_and_terminate_from_block
  find_and_terminate_trip-none =
      find_and_terminate_from-none queue_new _
      ∙ find_and_terminate_from-none queue_ready _
      ∙ find_and_terminate_from-none queue_exec _
      ∙ find_and_terminate_from-none queue_sabotage _
      ∙ io_find_and_terminate-none p.curr_trip refl

suma-get_elem? :
    (f : Cpu → ℕ) (cpus : List Cpu) (i : ℕ) (cpu : Cpu)
    → get_elem? cpus i ≡ some cpu
    → f cpu ≤ suma f cpus
unfolding suma
suma-get_elem? f [] i cpu h = cc
suma-get_elem? f (x ∷ xs) zero cpu h = let e = ap f (some_injective h) in omega arith
suma-get_elem? f (x ∷ xs) (suc i) cpu h = omega (arith, suma-get_elem? f xs i cpu h)

hay_tarea-none : (s : Option Tarea) → not (hay_tarea s) ≡ true → s ≡ none
unfolding hay_tarea
hay_tarea-none none h = refl
hay_tarea-none (some t) h = cc

-- Who asks to be expelled has no task.
ejecutar_en_cpu-sin_tarea :
    (c : Commons) (t : Tripulante) (tarea : Tarea) (red : Red) (r : Turno)
    → ejecutar_en_cpu c t tarea red ≡ some r
    → r.expulsar ≡ true
    → r.trip.tarea_actual ≡ none
unfolding ejecutar_en_cpu tripulante_obtener_proxima_tarea
ejecutar_en_cpu-sin_tarea c t tarea red r h asks =
    elim (Bool-cases (sub32 tarea.tiempo_bloqueado 1 == 0)) [
      | inl z ↦
          let ((hay, t', red'), f, k) = >>=-eq-some _ _ (simp z at h) in
          let (siguiente, g, l) = >>=-eq-some (parsear_tarea c _) _ f in
          let a : hay_tarea siguiente ≡ hay = ap (λ x. x.0) (some_injective l) in
          let b : siguiente ≡ t'.tarea_actual = ap (λ x. x.1.tarea_actual) (some_injective l) in
          let d : not hay ≡ r.expulsar = ap (λ x. x.expulsar) (some_injective k) in
          let e : t'.tarea_actual ≡ r.trip.tarea_actual =
            ap (λ x. x.trip.tarea_actual) (some_injective k) in
          sym e ∙ sym b ∙ hay_tarea-none siguiente (ap not a ∙ d ∙ asks)
      | inr z ↦ let k = ap (λ x. x.expulsar) (some_injective (simp z at h)) in cc
    ]

turno-sin_tarea :
    (c : Commons) (sabotaje : Bool) (pos : Pos) (t : Tripulante) (red : Red) (r : Turno)
    → tripulante_turno c sabotaje pos t red ≡ some r
    → r.expulsar ≡ true
    → r.trip.tarea_actual ≡ none
unfolding tripulante_turno trabajar sin_expulsar
turno-sin_tarea c true pos t red r h asks = let k = ap (λ x. x.expulsar) (some_injective h) in cc
turno-sin_tarea c false pos t red r h asks =
    let (tarea, _, k) = >>=-eq-some t.tarea_actual _ h in
    elim (Bool-cases (cmp_pos t.pos tarea.pos)) [
      | inl e ↦ elim (Bool-cases tarea.is_blocking) [
        | inl b ↦ let l = ap (λ x. x.expulsar) (some_injective (simp (e, b) at k)) in cc
        | inr b ↦ ejecutar_en_cpu-sin_tarea c t tarea red r (simp (e, b) at k) asks
      ]
      | inr e ↦ let l = ap (λ x. x.expulsar) (some_injective (simp e at k)) in cc
    ]

-- In a state in which nobody is lost, with a tid that was started once: where the crew member asks
-- to be expelled in its turn of CPU while the planner is paused, the request has no effect, and its
-- next turn outside of a sabotage crashes.
pub expulsion_perdida :
    (c : Commons) (n i : ℕ) (s : Sistema) (t : Tripulante) (r : Turno)
    → Sana n s
    → suma (uno t.tid) s.iniciados ≡ 1
    → get_elem? s.cpus i ≡ some (con t)
    → s.plan.pause ≡ true
    → tripulante_turno c s.plan.esta_en_sabotaje s.plan.sabotaje_pos t s.plan.red ≡ some r
    → r.expulsar ≡ true
    → (tras_turno r s.plan ≡ record s.plan { red = r.red })
      × ((pos : Pos) (red : Red) → tripulante_turno c false pos r.trip red ≡ none)
unfolding tras_turno ds_planificador_eliminar_tripulante tripulante_turno trabajar peso_cpu
expulsion_perdida c n i s t r h once at paused turn asks =
    let same = turno-tid c s.plan.esta_en_sabotaje s.plan.sabotaje_pos t s.plan.red r turn in
    let held = suma-get_elem? (peso_cpu (uno t.tid)) s.cpus i (con t) at in
    let one : uno t.tid t.tid ≡ 1 = ground arith in
    let away : peso (uno t.tid) s.plan ≡ 0 = omega (arith, h.todos (uno t.tid)) in
    let away' : peso (uno r.trip.tid) s.plan ≡ 0 = ap (λ k. peso (uno k) s.plan) same ∙ away in
    let none' =
      turno-sin_tarea c s.plan.esta_en_sabotaje s.plan.sabotaje_pos t s.plan.red r turn asks in
    (
      if_true r.expulsar _ _ asks
          ∙ if_true s.plan.pause _ _ paused
          ∙ find_and_terminate_trip-none r.trip.tid (record s.plan { red = r.red }) away',
      λ pos red. simp none',
    )
