-- ===== src/Discordia/Planner/Admits.antt =====
-- Who is moved, and in which order, where Discordia/src/planificador/planificador.c moves crew
-- members from one queue to another.
use tp_2021_1c_en_c_errados.Discordia.Crew.{exec, tripulante_change_state, TripState, Tripulante}
use tp_2021_1c_en_c_errados.Prelude.{
  u32_mod, sub32, ℕ, zero, suc, ◌+◌, ◌-◌, ◌<◌, ◌≡◌, refl, sym, ap, ◌∙◌, subst, true, false, ◌||◌,
  none, some, List, [], ◌∷◌, ◌++◌, append_assoc, append-nil, map, arith, ltb, ◌==◌, if_true, length,
  take, drop, length-append,
}
use tp_2021_1c_en_c_errados.Discordia.Planner.{cola, con_cola, encolar, pasar_a, Planificador}
use tp_2021_1c_en_c_errados.Discordia.Queues.{
  ds_queue_mt_is_full, ds_queue_mt_push, queue_pop, con_menos, ds_queue_mt_pop, Cola, queue_ready,
  queue_exec,
}
use tp_2021_1c_en_c_errados.Discordia.Planner.Admission.{
  admitir_listos, ds_planificador_admit_from_ready_to_exec,
}
use tp_2021_1c_en_c_errados.Discordia.Planner.Weights.{
  pesos, con_cola-Debe, pasar_a_exec-Lleva, Orden,
}
use tp_2021_1c_en_c_errados.Discordia.Queues.Laws.{pop-Saca, EnCuenta}

abbrev pub con_estado : TripState → Tripulante → Tripulante
con_estado state t = record t { curr_state = state }

-- A count of elements that is right, without a bound on the queue.
abbrev pub Contada : Cola → Type 0
Contada q = (q.curr_elements ≡ length q.elementos) × (length q.elementos < u32_mod)

pop-none : (q : Cola) → Contada q → q.elementos ≡ [] → ds_queue_mt_pop q ≡ none
unfolding ds_queue_mt_pop
pop-none q (count, small) e =
    let z : q.curr_elements ≡ 0 = count ∙ ap length e in
    if_true (q.curr_elements == 0) _ _ (ground arith)

queue_pop-cons :
    (q : Cola) (xs : List Tripulante) (t : Tripulante) (ts : List Tripulante)
    → xs ≡ t ∷ ts
    → queue_pop xs ≡ some (t, ts)
unfolding queue_pop
queue_pop-cons q xs t ts e = rw e refl

pub pop-some :
    (q : Cola) (t : Tripulante) (ts : List Tripulante)
    → Contada q
    → q.elementos ≡ t ∷ ts
    → ds_queue_mt_pop q ≡ some (t, record q { elementos = ts; curr_elements = length ts })
unfolding ds_queue_mt_pop con_menos
pop-some q t ts (count, small) e =
    let l : length q.elementos ≡ suc (length ts) = ap length e in
    let some_left : (q.curr_elements == 0) ≡ false = ground arith in
    let k : sub32 q.curr_elements 1 ≡ length ts = omega arith in
    rw (some_left, queue_pop-cons q q.elementos t ts e)
      (λ i. some (t, record q { elementos = ts; curr_elements = k i }))

-- READY fills the free places of EXEC from its front.
pub record Admitida (k : ℕ) (ts : List Tripulante) (p p' : Planificador) : Type 0 where
  pub exec : p'.colas.exec.elementos ≡ p.colas.exec.elementos ++ map (con_estado exec) (take k ts)
  pub ready : p'.colas.ready.elementos ≡ drop k ts

take-nil : (k : ℕ) (xs : List Tripulante) → xs ≡ xs ++ map (con_estado exec) (take k [])
take-nil zero xs = sym (append-nil xs)
take-nil (suc k) xs = sym (append-nil xs)

drop-nil : (k : ℕ) → ◌≡◌ {A = List Tripulante} [] (drop k [])
drop-nil zero = refl
drop-nil (suc k) = refl

lleno :
    (n : ℕ) (q : Cola)
    → EnCuenta q
    → q.max_size ≡ n
    → length q.elementos ≡ n
    → ds_queue_mt_is_full q ≡ true
unfolding ds_queue_mt_is_full
lleno n q c e l = let a = c.alguna in let b = c.justa in ground arith

libre :
    (n : ℕ) (q : Cola)
    → EnCuenta q
    → q.max_size ≡ n
    → length q.elementos < n
    → ds_queue_mt_is_full q ≡ false
unfolding ds_queue_mt_is_full
libre n q c e l = let a = c.alguna in let b = c.justa in ground arith

-- One crew member goes from READY to EXEC.
module _ (n : ℕ) (p : Planificador) (t : Tripulante) (q : Cola) where
  en_exec :
      Orden n p.colas
      → length p.colas.exec.elementos < n
      → (con_cola queue_ready q p).colas.exec.curr_elements < n
  unfolding con_cola
  en_exec o l = let b = o.exec.justa in omega arith

  pasar_a_exec_lem :
      Orden n p.colas
      → length p.colas.exec.elementos < n
      → ((pasar_a exec queue_exec t (con_cola queue_ready q p)).colas.exec.elementos
          ≡ p.colas.exec.elementos ++ con_estado exec t ∷ [])
        × (length (pasar_a exec queue_exec t (con_cola queue_ready q p)).colas.exec.elementos
            ≡ suc (length p.colas.exec.elementos))
  unfolding pasar_a encolar con_cola cola tripulante_change_state ds_queue_mt_push
  pasar_a_exec_lem o l =
      let u = con_estado exec t in
      let b = o.exec.justa in
      let m = o.bound in
      let room : ((p.colas.exec.max_size == 0)
            || ltb p.colas.exec.curr_elements p.colas.exec.max_size)
          ≡ true =
        ground arith in
      let longer = length-append p.colas.exec.elementos (u ∷ []) in
      rw room (refl, omega (arith, longer))

  ready-queda : (pasar_a exec queue_exec t (con_cola queue_ready q p)).colas.ready ≡ q
  unfolding pasar_a encolar con_cola cola tripulante_change_state
  ready-queda = refl

admitir_listos_lem :
    (n k : ℕ) (ts : List Tripulante) (p : Planificador)
    → Orden n p.colas
    → Contada p.colas.ready
    → p.colas.ready.elementos ≡ ts
    → length p.colas.exec.elementos + k ≡ n
    → Admitida k ts p (admitir_listos (length ts) p)
unfolding admitir_listos cola
admitir_listos_lem n k [] p o count e room = record {
  exec = take-nil k p.colas.exec.elementos;
  ready = e ∙ drop-nil k;
}
admitir_listos_lem n zero (t ∷ ts) p o count e room =
    let full : ds_queue_mt_is_full p.colas.exec ≡ true =
      lleno n p.colas.exec o.exec o.bound (omega arith) in
    rw (pop-some p.colas.ready t ts count e, full, admitir_listos)
      (record { exec = sym (append-nil p.colas.exec.elementos); ready = e })
admitir_listos_lem n (suc k) (t ∷ ts) p o (count, small) e room =
    let l : length p.colas.ready.elementos ≡ suc (length ts) = ap length e in
    let q = record p.colas.ready { elementos = ts; curr_elements = length ts } in
    let popped = pop-some p.colas.ready t ts (count, small) e in
    let free : ds_queue_mt_is_full p.colas.exec ≡ false =
      libre n p.colas.exec o.exec o.bound (omega arith) in
    let p1 = con_cola queue_ready q p in
    let p2 = pasar_a exec queue_exec t p1 in
    let out = con_cola-Debe n queue_ready p t q o (pop-Saca p.colas.ready t q popped) in
    let (o2, w) = pasar_a_exec-Lleva n (pesos p) p1 t out (en_exec n p t q o (omega arith)) in
    let (same, more) = pasar_a_exec_lem n p t q o (omega arith) in
    let r =
      admitir_listos_lem n k ts p2 o2
        (subst Contada (sym (ready-queda n p t q)) (refl, omega arith))
        (ap (λ x. x.elementos) (ready-queda n p t q)) (omega (arith, more)) in
    rw (popped, free, admitir_listos)
      (record {
        exec =
            r.exec
            ∙ ap (λ x. x ++ map (con_estado exec) (take k ts)) same
            ∙ append_assoc p.colas.exec.elementos (con_estado exec t ∷ [])
                (map (con_estado exec) (take k ts));
        ready = r.ready;
      })

-- With the queues as the planner keeps them and the count of READY right, READY gives its first crew
-- members to the free places of EXEC, which stand behind those that are there, and keeps the others
-- in their order.
pub admit_from_ready_to_exec_lem :
    (n : ℕ) (p : Planificador)
    → Orden n p.colas
    → Contada p.colas.ready
    → Admitida
        (n - length p.colas.exec.elementos)
        p.colas.ready.elementos
        p
        (ds_planificador_admit_from_ready_to_exec p)
unfolding ds_planificador_admit_from_ready_to_exec cola
admit_from_ready_to_exec_lem n p o (count, small) =
    let ts = p.colas.ready.elementos in
    let k = n - length p.colas.exec.elementos in
    subst (λ x. Admitida k ts p (admitir_listos x p)) (sym count)
      (admitir_listos_lem n k ts p o (count, small) refl (omega (arith, o.exec.cabe, o.bound)))
