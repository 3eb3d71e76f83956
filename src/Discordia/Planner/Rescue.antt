-- ===== src/Discordia/Planner/Rescue.antt =====
-- The crew member that goes to a sabotage, and the end of the sabotage, in
-- Discordia/src/planificador/planificador.c.
use tp_2021_1c_en_c_errados.Prelude.{
  if-both, u32_mod, ℕ, suc, ◌+◌, ◌-◌, ◌%◌, ◌≤◌, ◌<◌, ◌≡◌, refl, ap, ◌∙◌, ◌≢◌, ◌⊎◌, inl, inr, false,
  Option, none, some, List, [], ◌∷◌, arith, ltb, ◌==◌, ltb→lt, Bool-cases, ◌>>=◌, get_elem?, All,
  All-get_elem?,
}
use tp_2021_1c_en_c_errados.Protocol.Fields.{Pos}
use tp_2021_1c_en_c_errados.Discordia.Crew.{Tripulante, Commons}
use tp_2021_1c_en_c_errados.Discordia.Crew.Turns.{distancia}
use tp_2021_1c_en_c_errados.Discordia.Planner.{cola, con_cola, Planificador}
use tp_2021_1c_en_c_errados.Discordia.Queues.{
  sacar_tid, sacar_de, ds_queue_mt_pop_by_tid, ds_queue_mt_sort_by_lowest_tid, Cola, QueueType,
  queue_new, queue_ready, queue_exec, queue_block, queue_sabotage,
}
use tp_2021_1c_en_c_errados.Discordia.Planner.Admission.{mover_todos, vaciar, vaciar_por_tid}
use tp_2021_1c_en_c_errados.Discordia.Planner.Sabotage.{
  distancia_trip, mas_cercano, ds_planificador_init_rutina_sabotaje,
}

-- A crew member that no other in the list is nearer than; `d` is the distance as the code has it.
pub record MasCercano (d : Tripulante → ℕ) (ts : List Tripulante) (t : Tripulante) : Type 0 where
  pub indice : ℕ
  pub ahi : get_elem? ts indice ≡ some t
  pub minimo : All (λ u. d t ≤ d u) ts

-- The loop keeps what it has where nothing is nearer, or takes one of the list.
pub mas_cercano-cases :
    (unificado : ℕ) (ts : List Tripulante) (pos_minima tid : ℕ)
    → (All (λ u. pos_minima ≤ distancia_trip unificado u) ts
        × (mas_cercano unificado ts pos_minima tid ≡ tid))
      ⊎ ((t : Tripulante) × MasCercano (distancia_trip unificado) ts t
          × (distancia_trip unificado t < pos_minima)
          × (mas_cercano unificado ts pos_minima tid ≡ t.tid))
unfolding mas_cercano
mas_cercano-cases unificado [] pos_minima tid = inl (tt, refl)
mas_cercano-cases unificado (t ∷ ts) pos_minima tid =
    let d = distancia_trip unificado in
    elim (Bool-cases (ltb (d t) pos_minima)) [
      | inl e ↦
          let nearer = ltb→lt (d t) pos_minima e in
          elim (mas_cercano-cases unificado ts (d t) t.tid) [
            | inl (far, f) ↦
                inr (
                  t,
                  record { indice = 0; ahi = refl; minimo = (omega arith, far) },
                  nearer,
                  rw e f,
                )
            | inr (u, best, lt, f) ↦ inr (
              u,
              record {
                indice = suc best.indice;
                ahi = best.ahi;
                minimo = (omega arith, best.minimo);
              },
              omega arith,
              rw e f,
            )
          ]
      | inr e ↦ elim (mas_cercano-cases unificado ts pos_minima tid) [
        | inl (far, f) ↦ inl ((ground arith, far), rw e f)
        | inr (u, best, lt, f) ↦ inr (
          u,
          record { indice = suc best.indice; ahi = best.ahi; minimo = (ground arith, best.minimo) },
          lt,
          rw e f,
        )
      ]
    ]

-- The distance that is meant, where the crew member is not beyond the sabotage.
abbrev pub AntesDelSabotaje : ℕ → Tripulante → Type 0
AntesDelSabotaje unificado t = t.pos.x + t.pos.y ≤ unificado

distancia_trip_lem :
    (unificado : ℕ) (t : Tripulante)
    → unificado < 4294967295
    → AntesDelSabotaje unificado t
    → distancia_trip unificado t ≡ unificado - (t.pos.x + t.pos.y)
unfolding distancia_trip
distancia_trip_lem unificado t small before = omega arith

minimo_lem :
    (unificado : ℕ) (u : Tripulante) (ts : List Tripulante)
    → unificado < 4294967295
    → distancia_trip unificado u ≡ unificado - (u.pos.x + u.pos.y)
    → All (AntesDelSabotaje unificado) ts
    → All (λ v. distancia_trip unificado u ≤ distancia_trip unificado v) ts
    → All (λ v. unificado - (u.pos.x + u.pos.y) ≤ unificado - (v.pos.x + v.pos.y)) ts
minimo_lem unificado u [] small e h k = tt
minimo_lem unificado u (v ∷ ts) small e (before, h) (least, k) = (
  omega (arith, distancia_trip_lem unificado v small before),
  minimo_lem unificado u ts small e h k,
)

-- Where nobody has a larger sum of coordinates than the sabotage, the crew member that is sent is
-- one of the list with the smallest difference of the sums.
mas_cercano_lem :
    (unificado : ℕ) (t : Tripulante) (ts : List Tripulante)
    → unificado < 4294967295
    → All (AntesDelSabotaje unificado) (t ∷ ts)
    → (u : Tripulante) × MasCercano (λ v. unificado - (v.pos.x + v.pos.y)) (t ∷ ts) u
      × (mas_cercano unificado (t ∷ ts) 4294967295 0 ≡ u.tid)
mas_cercano_lem unificado t ts small (first, before) =
    elim (mas_cercano-cases unificado (t ∷ ts) 4294967295 0) [
      | inl ((far, _), _) ↦ absurd (omega (arith, distancia_trip_lem unificado t small first))
      | inr (u, best, _, f) ↦
          let here =
            All-get_elem? (AntesDelSabotaje unificado) (t ∷ ts) best.indice (first, before)
              best.ahi in
          let same = distancia_trip_lem unificado u small here in
          (
            u,
            record {
              indice = best.indice;
              ahi = best.ahi;
              minimo = minimo_lem unificado u (t ∷ ts) small same (first, before) best.minimo;
            },
            f,
          )
    ]

-- A crew member that has not gone past the sabotage along either axis.
abbrev pub NoLoPaso : Pos → Tripulante → Type 0
NoLoPaso sabotaje t = (t.pos.x ≤ sabotaje.x) × (t.pos.y ≤ sabotaje.y)

NoLoPaso-AntesDelSabotaje :
    (sabotaje : Pos) (ts : List Tripulante)
    → All (NoLoPaso sabotaje) ts
    → All (AntesDelSabotaje (sabotaje.x + sabotaje.y)) ts
NoLoPaso-AntesDelSabotaje sabotaje [] h = tt
NoLoPaso-AntesDelSabotaje sabotaje (t ∷ ts) (first, h) =
    (omega arith, NoLoPaso-AntesDelSabotaje sabotaje ts h)

-- The least difference of sums is then the least number of places to go.
minimo-distancia :
    (sabotaje : Pos) (u : Tripulante) (ts : List Tripulante)
    → NoLoPaso sabotaje u
    → All (NoLoPaso sabotaje) ts
    → All
        (λ v.
          sabotaje.x + sabotaje.y - (u.pos.x + u.pos.y)
          ≤ sabotaje.x + sabotaje.y - (v.pos.x + v.pos.y))
        ts
    → All (λ v. distancia u.pos sabotaje ≤ distancia v.pos sabotaje) ts
minimo-distancia sabotaje u [] own h k = tt
minimo-distancia sabotaje u (v ∷ ts) own (first, h) (least, k) =
    (omega arith, minimo-distancia sabotaje u ts own h k)

-- Where nobody has gone past the sabotage along either axis, the crew member that is sent is one of
-- the list from which the sabotage is the fewest places away, counted along both axes.
pub mas_cercano-distancia :
    (sabotaje : Pos) (t : Tripulante) (ts : List Tripulante)
    → sabotaje.x + sabotaje.y < 4294967295
    → All (NoLoPaso sabotaje) (t ∷ ts)
    → (u : Tripulante) × MasCercano (λ v. distancia v.pos sabotaje) (t ∷ ts) u
      × (mas_cercano (sabotaje.x + sabotaje.y) (t ∷ ts) 4294967295 0 ≡ u.tid)
mas_cercano-distancia sabotaje t ts small h =
    let (u, best, f) =
      mas_cercano_lem (sabotaje.x + sabotaje.y) t ts small
        (NoLoPaso-AntesDelSabotaje sabotaje (t ∷ ts) h) in
    let own = All-get_elem? (NoLoPaso sabotaje) (t ∷ ts) best.indice h best.ahi in
    (
      u,
      record {
        indice = best.indice;
        ahi = best.ahi;
        minimo = minimo-distancia sabotaje u (t ∷ ts) own h best.minimo;
      },
      f,
    )

-- Nobody is chosen: the tid is 0, and nobody has it.
abbrev pub Inalcanzable : ℕ → Tripulante → Type 0
Inalcanzable unificado t = (distancia_trip unificado t ≡ 4294967295) × (t.tid ≢ 0)

sacar_cero :
    (unificado : ℕ) (ts : List Tripulante) → All (Inalcanzable unificado) ts → sacar_tid 0 ts ≡ none
unfolding sacar_tid
sacar_cero unificado [] h = refl
sacar_cero unificado (t ∷ ts) ((_, other), h) =
    let e : (t.tid == 0) ≡ false = ground arith in rw (e, sacar_cero unificado ts h) refl

mas_cercano-none :
    (unificado : ℕ) (ts : List Tripulante)
    → All (Inalcanzable unificado) ts
    → mas_cercano unificado ts 4294967295 0 ≡ 0
unfolding mas_cercano
mas_cercano-none unificado [] h = refl
mas_cercano-none unificado (t ∷ ts) ((far, _), h) =
    let e : ltb (distancia_trip unificado t) 4294967295 ≡ false = ground arith in
    rw (e, mas_cercano-none unificado ts h) refl

nadie :
    (unificado : ℕ) (q : Cola)
    → All (Inalcanzable unificado) q.elementos
    → ds_queue_mt_pop_by_tid q (mas_cercano unificado q.elementos 4294967295 0) ≡ none
unfolding ds_queue_mt_pop_by_tid sacar_de
nadie unificado q far =
    let tid = mas_cercano-none unificado q.elementos far in
    let gone = sacar_cero unificado q.elementos far in
    if-both (λ (x : Option (Tripulante × Cola)). x ≡ none) (q.curr_elements == 0) refl
      (ap (λ k. sacar_de k q) tid ∙ rw (gone, sacar_de) refl)

mover_ninguno :
    (c : Commons) (desde : QueueType) (p : Planificador)
    → (cola desde p).curr_elements ≡ 0
    → vaciar_por_tid c desde p
      ≡ some (con_cola desde (ds_queue_mt_sort_by_lowest_tid c (cola desde p)) p)
unfolding vaciar_por_tid vaciar mover_todos ds_queue_mt_sort_by_lowest_tid cola con_cola
mover_ninguno c queue_new p e = rw (e, mover_todos) refl
mover_ninguno c queue_ready p e = rw (e, mover_todos) refl
mover_ninguno c queue_exec p e = rw (e, mover_todos) refl
mover_ninguno c queue_block p e = rw (e, mover_todos) refl
mover_ninguno c queue_sabotage p e = rw (e, mover_todos) refl

-- With nobody in EXEC and READY, the start of the handling of a sabotage crashes when each crew
-- member that waits for it is one place beyond the sabotage and has a tid other than 0, or when
-- nobody waits, as when the whole crew is in the I/O or new.
pub init_rutina_sabotaje-none :
    (c : Commons) (p : Planificador)
    → p.colas.exec.curr_elements ≡ 0
    → p.colas.ready.curr_elements ≡ 0
    → All
        (Inalcanzable ((p.sabotaje_pos.x + p.sabotaje_pos.y) % u32_mod))
        p.colas.sabotage.elementos
    → ds_planificador_init_rutina_sabotaje c p ≡ none
unfolding ds_planificador_init_rutina_sabotaje cola con_cola
init_rutina_sabotaje-none c p e f far =
    let unificado = (p.sabotaje_pos.x + p.sabotaje_pos.y) % u32_mod in
    let p0 = record p { inicializar_rutina_sabotaje = false } in
    let p1 = con_cola queue_exec (ds_queue_mt_sort_by_lowest_tid c (cola queue_exec p0)) p0 in
    let p2 = con_cola queue_ready (ds_queue_mt_sort_by_lowest_tid c (cola queue_ready p1)) p1 in
    let nobody : ds_queue_mt_pop_by_tid (cola queue_sabotage p2)
          (mas_cercano unificado (cola queue_sabotage p2).elementos 4294967295 0)
        ≡ none =
      nadie unificado p.colas.sabotage far in
    rw (mover_ninguno c queue_exec p0 e, ◌>>=◌, mover_ninguno c queue_ready p1 f, nobody) refl
