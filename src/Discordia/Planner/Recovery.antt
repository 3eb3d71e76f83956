-- ===== src/Discordia/Planner/Recovery.antt =====
-- The end of a sabotage in Discordia/src/planificador/planificador.c: `rutina_bloqueados_sabotaje`
-- counts the turns of the loop down, and then the crew is back in READY.
use tp_2021_1c_en_c_errados.Prelude.{
  u32_mod, sub32, ℕ, zero, suc, ◌<◌, ◌≡◌, refl, sym, ap, ◌∙◌, subst, true, false, not, Option, some,
  List, [], ◌∷◌, ◌++◌, append_assoc, append-nil, map, arith, ◌==◌, if◌then◌else◌, ◌>>=◌, if_true,
  length,
}
use tp_2021_1c_en_c_errados.Discordia.Crew.{tripulante_change_state, ready, Tripulante}
use tp_2021_1c_en_c_errados.Discordia.Planner.{cola, con_cola, encolar, pasar_a, Planificador}
use tp_2021_1c_en_c_errados.Discordia.Queues.{ds_queue_mt_pop, Cola, queue_ready, queue_sabotage}
use tp_2021_1c_en_c_errados.Discordia.Planner.Admission.{mover_todos, vaciar}
use tp_2021_1c_en_c_errados.Discordia.Planner.Admits.{con_estado, Contada, pop-some}
use tp_2021_1c_en_c_errados.Discordia.Planner.Cycle.{ds_planificador_check_exec_queue}
use tp_2021_1c_en_c_errados.Discordia.Planner.Sabotage.{rutina_bloqueados_sabotaje}
use tp_2021_1c_en_c_errados.Discordia.Planner.Shares.{push-elementos}
use tp_2021_1c_en_c_errados.Discordia.Queues.Laws.{push-bound}

-- `k` turns of `ds_planificador_check_exec_queue`.
unfoldable pub revisiones : ℕ → Planificador → Option Planificador
revisiones zero p = some p
revisiones (suc k) p = do p' ← ds_planificador_check_exec_queue p; revisiones k p'

pop-cola :
    (p : Planificador) (t : Tripulante) (ts : List Tripulante)
    → Contada p.colas.sabotage
    → p.colas.sabotage.elementos ≡ t ∷ ts
    → ds_queue_mt_pop (cola queue_sabotage p)
      ≡ some (t, record p.colas.sabotage { elementos = ts; curr_elements = length ts })
unfolding cola
pop-cola p t ts = pop-some p.colas.sabotage t ts

pasar_a_ready_lem :
    (p : Planificador) (t : Tripulante) (q : Cola)
    → p.colas.ready.max_size ≡ 0
    → ((pasar_a ready queue_ready t (con_cola queue_sabotage q p)).colas.ready.elementos
        ≡ p.colas.ready.elementos ++ con_estado ready t ∷ [])
      × ((pasar_a ready queue_ready t (con_cola queue_sabotage q p)).colas.ready.max_size
          ≡ p.colas.ready.max_size)
      × ((pasar_a ready queue_ready t (con_cola queue_sabotage q p)).colas.sabotage ≡ q)
unfolding pasar_a encolar con_cola cola tripulante_change_state
pasar_a_ready_lem p t q free =
    let u = con_estado ready t in
    (push-elementos p.colas.ready u free, push-bound p.colas.ready u, refl)

-- Everybody goes from the queue of the sabotage to the end of READY.
mover_todos_lem :
    (ts : List Tripulante) (p : Planificador)
    → p.colas.ready.max_size ≡ 0
    → Contada p.colas.sabotage
    → p.colas.sabotage.elementos ≡ ts
    → (p' : Planificador) × (mover_todos queue_sabotage ready queue_ready (length ts) p ≡ some p')
      × (p'.colas.sabotage.elementos ≡ [])
      × (p'.colas.ready.elementos ≡ p.colas.ready.elementos ++ map (con_estado ready) ts)
unfolding mover_todos
mover_todos_lem [] p free count e = (p, refl, e, sym (append-nil p.colas.ready.elementos))
mover_todos_lem (t ∷ ts) p free (count, small) e =
    let l : length p.colas.sabotage.elementos ≡ suc (length ts) = ap length e in
    let q = record p.colas.sabotage { elementos = ts; curr_elements = length ts } in
    let p1 = pasar_a ready queue_ready t (con_cola queue_sabotage q p) in
    let (same, bound, left) = pasar_a_ready_lem p t q free in
    let popped = pop-cola p t ts (count, small) e in
    let (p', f, gone, all) =
      mover_todos_lem ts p1 (bound ∙ free) (subst Contada (sym left) (refl, omega arith))
        (ap (λ x. x.elementos) left) in
    (
      p',
      rw (popped, ◌>>=◌) f,
      gone,
      all
          ∙ ap (λ x. x ++ map (con_estado ready) ts) same
          ∙ append_assoc p.colas.ready.elementos (con_estado ready t ∷ [])
              (map (con_estado ready) ts),
    )

-- The planner is handling a sabotage, with `k` turns to wait.
pub record Esperando (k : ℕ) (p : Planificador) : Type 0 where
  pub manejar : p.manejar_cola_sabotaje ≡ true
  pub restante : p.tiempo_restante_block_sabo ≡ k
  pub ready_libre : p.colas.ready.max_size ≡ 0
  pub contada : Contada p.colas.sabotage

-- The sabotage is over, with the crew that waited behind the rest of READY, in the same order.
pub record Recuperado (p p' : Planificador) : Type 0 where
  pub sin_sabotaje : p'.esta_en_sabotaje ≡ false
  pub sin_manejo : p'.manejar_cola_sabotaje ≡ false
  pub nadie_espera : p'.colas.sabotage.elementos ≡ []
  pub en_ready :
      p'.colas.ready.elementos
      ≡ p.colas.ready.elementos ++ map (con_estado ready) p.colas.sabotage.elementos

en_manejo :
    (p : Planificador)
    → p.manejar_cola_sabotaje ≡ true
    → (x y : Option Planificador) → (if not p.manejar_cola_sabotaje then x else y) ≡ y
en_manejo p e x y = rw e refl

sin_tiempo :
    (p : Planificador)
    → p.tiempo_restante_block_sabo ≡ 0
    → (x y : Option Planificador) → (if not (p.tiempo_restante_block_sabo == 0) then x else y) ≡ y
sin_tiempo p e x y = rw e refl

ultima_revision :
    (p : Planificador)
    → Esperando 0 p
    → (p' : Planificador) × (ds_planificador_check_exec_queue p ≡ some p') × Recuperado p p'
unfolding ds_planificador_check_exec_queue rutina_bloqueados_sabotaje vaciar cola
ultima_revision p h =
    let (p1, f, gone, all) =
      mover_todos_lem p.colas.sabotage.elementos p h.ready_libre h.contada refl in
    let moved : mover_todos queue_sabotage ready queue_ready p.colas.sabotage.curr_elements p
        ≡ some p1 =
      ap (λ k. mover_todos queue_sabotage ready queue_ready k p) h.contada.0 ∙ f in
    (
      record p1 { manejar_cola_sabotaje = false; esta_en_sabotaje = false },
      en_manejo p h.manejar _ _
          ∙ sin_tiempo p h.restante _ _
          ∙ ap
              (λ (r : Option Planificador).
                ◌>>=◌ {A = Planificador} r
                  λ x. some (record x { manejar_cola_sabotaje = false; esta_en_sabotaje = false }))
              moved,
      record { sin_sabotaje = refl; sin_manejo = refl; nadie_espera = gone; en_ready = all },
    )

una_revision :
    (k : ℕ) (p : Planificador)
    → suc k < u32_mod
    → Esperando (suc k) p
    → ds_planificador_check_exec_queue p ≡ some (record p { tiempo_restante_block_sabo = k })
unfolding ds_planificador_check_exec_queue rutina_bloqueados_sabotaje
una_revision k p small h =
    let some_left : not (p.tiempo_restante_block_sabo == 0) ≡ true =
      let e = h.restante in ground arith in
    let less : sub32 p.tiempo_restante_block_sabo 1 ≡ k = let e = h.restante in omega arith in
    en_manejo p h.manejar _ _
    ∙ if_true (not (p.tiempo_restante_block_sabo == 0)) _ _ some_left
    ∙ (λ i. some (record p { tiempo_restante_block_sabo = less i }))

-- A sabotage that the planner handles ends: with the count of the queue right and READY without a
-- bound, after as many reviews of EXEC as there are turns left to wait and one more, the planner is
-- out of the sabotage, and those that waited are in READY, behind the others and in their order.
pub revisiones_lem :
    (k : ℕ) (p : Planificador)
    → k < u32_mod
    → Esperando k p
    → (p' : Planificador) × (revisiones (suc k) p ≡ some p') × Recuperado p p'
unfolding revisiones
revisiones_lem zero p small h =
    let (p', f, done) = ultima_revision p h in (p', rw (f, ◌>>=◌) refl, done)
revisiones_lem (suc k) p small h =
    let (p', f, done) =
      revisiones_lem k (record p { tiempo_restante_block_sabo = k }) (omega arith)
        (record {
          manejar = h.manejar;
          restante = refl;
          ready_libre = h.ready_libre;
          contada = h.contada;
        }) in
    (
      p',
      rw (una_revision k p small h, ◌>>=◌) f,
      record {
        sin_sabotaje = done.sin_sabotaje;
        sin_manejo = done.sin_manejo;
        nadie_espera = done.nadie_espera;
        en_ready = done.en_ready;
      },
    )
