-- ===== src/Discordia/System/Steps.antt =====
-- Every step of the threads of Discordia/src/planificador keeps the census.
use tp_2021_1c_en_c_errados.Prelude.{
  if-both, suma, suma-append, suma-set, sub32, ℕ, ◌+◌, ◌≤◌, ◌<◌, ◌≡◌, refl, sym, ap, ◌∙◌, ◌≢◌, inl,
  inr, Bool, true, false, some, [], ◌∷◌, arith, ◌==◌, if◌then◌else◌, Bool-cases, >>=-eq-some,
  length, get_elem?, All, some_injective,
}
use tp_2021_1c_en_c_errados.Protocol.Fields.{Pos}
use tp_2021_1c_en_c_errados.Discordia.Crew.{
  tripulante_create, cmp_pos, tripulante_mover, ejecutar_en_cpu, sin_expulsar, trabajar,
  tripulante_ejecutar_rutina_sabotaje, tripulante_turno, Tarea, Tripulante, Commons, Red, Turno,
}
use tp_2021_1c_en_c_errados.Discordia.Planner.{
  cola, con_cola, encolar, ds_planificador_iniciar_tripulante, ds_planificador_iniciar,
  ds_planificador_pausar, ds_planificador_notificar_sabotaje, Planificador,
}
use tp_2021_1c_en_c_errados.Discordia.Queues.{Cola, queue_new, queue_exec}
use tp_2021_1c_en_c_errados.Discordia.System.{
  despertar, ejecutar_siguiente_ciclo, tras_turno, EnEspera, revisando, dormido, despierto,
  ejecutando, en_espera, lista, con, hecha, Sistema, Step, iniciar_tripulante, eliminar, pausar,
  iniciar, sabotear, revisar, empezar, tomar_trip, sin_trip, turno, devolver, ejecutar_io, admitir,
  revisar_exec, acabar, admitiendo, terminando, Reach, here, next,
}
use tp_2021_1c_en_c_errados.Discordia.Planner.Admission.{ds_planificador_admit_from_ready_to_exec}
use tp_2021_1c_en_c_errados.Discordia.Planner.Cycle.{terminar_ciclo}
use tp_2021_1c_en_c_errados.Discordia.Planner.Device.{ciclo_de_io-Conserva}
use tp_2021_1c_en_c_errados.Discordia.Planner.Keeps.{
  empezar_ciclo-Conserva, admit_from_ready_to_exec-Conserva, check_exec_queue-Conserva,
  terminar_ciclo-Conserva,
}
use tp_2021_1c_en_c_errados.Discordia.Planner.Moves.{proxima_tarea-tid}
use tp_2021_1c_en_c_errados.Discordia.Planner.Searches.{eliminar-Busca}
use tp_2021_1c_en_c_errados.Discordia.Planner.Weights.{
  peso, Lleva, Conserva, con_cola-Debe, encolar-Lleva, encolar_exec-Lleva, Achica, Orden, es_new,
}
use tp_2021_1c_en_c_errados.Discordia.Queues.Laws.{pop-Saca, push-EnCuenta, Saca}
use tp_2021_1c_en_c_errados.Discordia.Queues.Weights.{Ordena}
use tp_2021_1c_en_c_errados.Discordia.System.Census.{
  peso_cpu, ocupada, EnEspera-suma, suma-map_lista, plan-Sana, quieta-Sana, cpu-Sana, Sana,
}

-- A turn does not change whose it is.
ejecutar_en_cpu-tid :
    (c : Commons) (t : Tripulante) (tarea : Tarea) (red : Red) (r : Turno)
    → ejecutar_en_cpu c t tarea red ≡ some r
    → r.trip.tid ≡ t.tid
unfolding ejecutar_en_cpu
ejecutar_en_cpu-tid c t tarea red r h = elim (Bool-cases (sub32 tarea.tiempo_bloqueado 1 == 0)) [
  | inl z ↦
      let ((hay, t', red'), f, k) = >>=-eq-some _ _ (simp z at h) in
      sym (ap (λ x. x.trip.tid) (some_injective k)) ∙ proxima_tarea-tid c _ _ hay t' red' f
  | inr z ↦ sym (ap (λ x. x.trip.tid) (some_injective (simp z at h)))
]

trabajar-tid :
    (c : Commons) (t : Tripulante) (red : Red) (r : Turno)
    → trabajar c t red ≡ some r
    → r.trip.tid ≡ t.tid
unfolding trabajar sin_expulsar tripulante_mover
trabajar-tid c t red r h =
    let (tarea, _, k) = >>=-eq-some t.tarea_actual _ h in
    elim (Bool-cases (cmp_pos t.pos tarea.pos)) [
      | inl e ↦ elim (Bool-cases tarea.is_blocking) [
        | inl b ↦ sym (ap (λ x. x.trip.tid) (some_injective (simp (e, b) at k)))
        | inr b ↦ ejecutar_en_cpu-tid c t tarea red r (simp (e, b) at k)
      ]
      | inr e ↦ sym (ap (λ x. x.trip.tid) (some_injective (simp e at k)))
    ]

rutina_sabotaje-tid :
    (t : Tripulante) (pos : Pos) (red : Red)
    → (tripulante_ejecutar_rutina_sabotaje t pos red).0.tid ≡ t.tid
unfolding tripulante_ejecutar_rutina_sabotaje tripulante_mover
rutina_sabotaje-tid t pos red =
    if-both (λ (x : Tripulante × Red). x.0.tid ≡ t.tid) (cmp_pos pos t.pos) refl refl

pub turno-tid :
    (c : Commons) (sabotaje : Bool) (pos : Pos) (t : Tripulante) (red : Red) (r : Turno)
    → tripulante_turno c sabotaje pos t red ≡ some r
    → r.trip.tid ≡ t.tid
unfolding tripulante_turno sin_expulsar
turno-tid c true pos t red r h =
    sym (ap (λ x. x.trip.tid) (some_injective h)) ∙ rutina_sabotaje-tid t pos red
turno-tid c false pos t red r h = trabajar-tid c t red r h

-- The call that a turn makes to be expelled.
tras_turno-Conserva :
    (n : ℕ) (r : Turno) (p : Planificador)
    → Orden n p.colas
    → Conserva n p (tras_turno r p) × Achica p (tras_turno r p)
unfolding tras_turno
tras_turno-Conserva n r p o =
    if-both (λ x. Conserva n p x × Achica p x) r.expulsar
      (eliminar-Busca n r.trip.tid (record p { red = r.red }) o) ((o, λ g. refl), omega arith)

iniciar_tripulante-suma :
    (n : ℕ) (pid tid : ℕ) (pos : Pos) (p : Planificador)
    → Orden n p.colas
    → Lleva n (λ g. peso g p + g tid) (ds_planificador_iniciar_tripulante pid tid pos p)
      × ((ds_planificador_iniciar_tripulante pid tid pos p).colas.exec ≡ p.colas.exec)
unfolding ds_planificador_iniciar_tripulante tripulante_create encolar con_cola
iniciar_tripulante-suma n pid tid pos p o =
    let t = tripulante_create pid tid pos p.quantum in
    (encolar-Lleva n queue_new (λ g. peso g p + g tid) p t es_new (o, λ g. refl), refl)

despertar-quietas :
    (s : Sistema)
    → (s.fase ≢ ejecutando → All EnEspera s.cpus)
    → despertar s.fase ≢ ejecutando
    → All EnEspera s.cpus
unfolding despertar
despertar-quietas s h k = h (λ e. k (rw e refl))

-- The places of EXEC where a CPU takes one out, and where it puts one back.
tomar-lugar :
    (p : Planificador) (t : Tripulante) (q : Cola)
    → Saca (cola queue_exec p) t q
    → length (con_cola queue_exec q p).colas.exec.elementos + ocupada (con t)
      ≤ length p.colas.exec.elementos + ocupada lista
unfolding cola con_cola ocupada
tomar-lugar p t q out = omega (arith, out.largo)

module _ (n : ℕ) where
  devolver-lugar :
      (p : Planificador) (t : Tripulante)
      → Orden n p.colas
      → p.colas.exec.curr_elements < n
      → length (encolar queue_exec t p).colas.exec.elementos + ocupada en_espera
        ≤ length p.colas.exec.elementos + ocupada (hecha t)
  unfolding encolar cola con_cola ocupada
  devolver-lugar p t o room =
      omega (arith, (push-EnCuenta p.colas.exec t o.exec (omega (arith, o.bound))).1)

  -- What is put back has its place: the CPU counts as one.
  devolver-room :
      (s : Sistema) (i : ℕ) (t : Tripulante)
      → Sana n s
      → get_elem? s.cpus i ≡ some (hecha t)
      → s.plan.colas.exec.curr_elements < n
  unfolding ocupada
  devolver-room s i t h at =
      omega (arith, h.lugar, h.orden.exec.justa, suma-set ocupada s.cpus i (hecha t) en_espera at)

  admitir-Sana :
      (s : Sistema) (p : Planificador)
      → Sana n s
      → All EnEspera s.cpus
      → Conserva n s.plan p
      → Sana n (ejecutar_siguiente_ciclo p s)
  unfolding ejecutar_siguiente_ciclo ocupada peso_cpu
  admitir-Sana s p h quiet (o, w) = record {
    orden = o;
    lugar = omega (arith, suma-map_lista ocupada refl s.cpus, o.exec.cabe, o.bound);
    quietas = λ k. absurd (k refl);
    todos = λ g. omega (
      arith,
      h.todos g,
      w g,
      suma-map_lista (peso_cpu g) refl s.cpus,
      EnEspera-suma (peso_cpu g) refl s.cpus quiet,
    );
  }

module _ (c : Commons) (sorts : Ordena c) (n : ℕ) where
  pub Step-Sana : (s t : Sistema) → Sana n s → Step c s t → Sana n t
  unfolding suma peso_cpu ocupada ds_planificador_pausar ds_planificador_iniciar
      ds_planificador_notificar_sabotaje
  Step-Sana s _ h (iniciar_tripulante pid tid pos) =
      let ((o, w), same) = iniciar_tripulante-suma n pid tid pos s.plan h.orden in
      let e : length (ds_planificador_iniciar_tripulante pid tid pos s.plan).colas.exec.elementos
          ≡ length s.plan.colas.exec.elementos =
        ap (λ q. length q.elementos) same in
      record {
        orden = o;
        lugar = omega (arith, h.lugar, e);
        quietas = h.quietas;
        todos = λ g. let a = suma-append g s.iniciados (tid ∷ []) in omega (arith, h.todos g, w g);
      }
  Step-Sana s _ h (eliminar tid) =
      let (k, a) = eliminar-Busca n tid s.plan h.orden in
      plan-Sana n s h _ s.fase s.io h.quietas k a
  Step-Sana s _ h pausar =
      plan-Sana n s h (ds_planificador_pausar s.plan) s.fase s.io h.quietas (h.orden, λ g. refl)
        (omega arith)
  Step-Sana s _ h iniciar =
      plan-Sana n s h (ds_planificador_iniciar s.plan) (despertar s.fase) s.io
        (despertar-quietas s h.quietas) (h.orden, λ g. refl) (omega arith)
  Step-Sana s _ h (sabotear pos) =
      plan-Sana n s h (ds_planificador_notificar_sabotaje pos s.plan) s.fase s.io h.quietas
        (h.orden, λ g. refl) (omega arith)
  Step-Sana s _ h (revisar e) =
      quieta-Sana n s h s.plan (if s.plan.pause then dormido else despierto) s.io
        (h.quietas (λ k. cc)) (h.orden, λ g. refl)
  Step-Sana s _ h (empezar p e f) =
      quieta-Sana n s h p admitiendo s.io (h.quietas (λ k. cc))
        (empezar_ciclo-Conserva n c s.plan p sorts h.orden f)
  Step-Sana s _ h (admitir e) =
      admitir-Sana n s (ds_planificador_admit_from_ready_to_exec s.plan) h (h.quietas (λ k. cc))
        (admit_from_ready_to_exec-Conserva n s.plan h.orden)
  Step-Sana s _ h (tomar_trip i t q at e) =
      let out = pop-Saca (cola queue_exec s.plan) t q e in
      let (o, w) = con_cola-Debe n queue_exec s.plan t q h.orden out in
      cpu-Sana n s h (con_cola queue_exec q s.plan) i lista (con t) at (λ k. cc) o
        (tomar-lugar s.plan t q out) (λ g. omega (arith, w g))
  Step-Sana s _ h (sin_trip i at e) =
      cpu-Sana n s h s.plan i lista en_espera at (λ k. cc) h.orden (omega arith) (λ g. omega arith)
  Step-Sana s _ h (turno i t r at e) =
      let ((o, w), less) = tras_turno-Conserva n r s.plan h.orden in
      let same = turno-tid c s.plan.esta_en_sabotaje s.plan.sabotaje_pos t s.plan.red r e in
      cpu-Sana n s h (tras_turno r s.plan) i (con t) (hecha r.trip) at (λ k. cc) o
        (omega (arith, less)) (λ g. let k = ap g same in omega (arith, w g))
  Step-Sana s _ h (devolver i t at) =
      let room = devolver-room n s i t h at in
      let w0 = λ (g : ℕ → ℕ). peso g s.plan + g t.tid in
      let (o, w) = encolar_exec-Lleva n w0 s.plan t (h.orden, λ g. refl) room in
      cpu-Sana n s h (encolar queue_exec t s.plan) i (hecha t) en_espera at (λ k. cc) o
        (devolver-lugar n s.plan t h.orden room) (λ g. omega (arith, w g))
  Step-Sana s _ h (ejecutar_io p e f) =
      let (k, same) = ciclo_de_io-Conserva n c s.plan p h.orden f in
      let size : length p.colas.exec.elementos ≡ length s.plan.colas.exec.elementos =
        ap (λ q. length q.elementos) same in
      plan-Sana n s h p s.fase false h.quietas k (omega arith)
  Step-Sana s _ h (revisar_exec p e f quiet k) =
      quieta-Sana n s h p terminando s.io quiet (check_exec_queue-Conserva n s.plan p h.orden k)
  Step-Sana s _ h (acabar e) =
      quieta-Sana n s h (terminar_ciclo s.plan) revisando s.io (h.quietas (λ k. cc))
        (terminar_ciclo-Conserva n s.plan h.orden)

  -- Whatever the threads do, in whatever order: nobody is lost and nobody is there twice.
  pub Reach-Sana : (s t : Sistema) → Sana n s → Reach c s t → Sana n t
  Reach-Sana s _ h here = h
  Reach-Sana s t h (next {t = u} r st) = Step-Sana u t (Reach-Sana s u h r) st
