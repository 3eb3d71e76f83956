-- ===== src/Discordia/Queues/Laws.antt =====
-- What the operations of Discordia/src/planificador/queues/queue_mt.c do to the sum over a queue and
-- to its count of elements.
-- A count of elements that is right.
use tp_2021_1c_en_c_errados.Prelude.{
  suma, suma-append, ℕ, suc, ◌+◌, ◌≤◌, ◌<◌, ◌≡◌, refl, ap, ◌⊎◌, inl, inr, true, ◌||◌, none, some,
  List, [], ◌∷◌, arith, ltb, ◌==◌, Bool-cases, Option-cases, length, length-append, some_injective,
}
use tp_2021_1c_en_c_errados.Discordia.Crew.{Tripulante}
use tp_2021_1c_en_c_errados.Discordia.Queues.{
  ds_queue_mt_push, queue_pop, con_menos, ds_queue_mt_pop, sacar_tid, sacar_de,
  ds_queue_mt_pop_by_tid, Cola,
}
use tp_2021_1c_en_c_errados.Discordia.Queues.Weights.{suma_tid, sacar_tid-suma, sacar_tid-length}

pub record EnCuenta (q : Cola) : Type 0 where
  pub justa : q.curr_elements ≡ length q.elementos
  pub cabe : length q.elementos ≤ q.max_size
  pub chica : q.max_size < 4294967296
  pub alguna : 0 < q.max_size

-- `t` is taken out of a queue.
pub record Saca (q : Cola) (t : Tripulante) (q' : Cola) : Type 0 where
  pub peso : (g : ℕ → ℕ) → suma_tid g q'.elementos + g t.tid ≡ suma_tid g q.elementos
  pub largo : suc (length q'.elementos) ≡ length q.elementos
  pub bound : q'.max_size ≡ q.max_size
  pub cuenta : EnCuenta q → EnCuenta q'

con_menos-EnCuenta :
    (q : Cola) (t : Tripulante) (ts : List Tripulante)
    → suc (length ts) ≡ length q.elementos
    → EnCuenta q
    → EnCuenta (con_menos q (t, ts)).1
unfolding con_menos
con_menos-EnCuenta q t ts e c = record {
  justa = omega (arith, c.justa, c.cabe, c.chica);
  cabe = omega (arith, c.cabe);
  chica = c.chica;
  alguna = c.alguna;
}

con_menos-Saca :
    (q : Cola) (t : Tripulante) (ts : List Tripulante)
    → ((g : ℕ → ℕ) → suma_tid g ts + g t.tid ≡ suma_tid g q.elementos)
    → suc (length ts) ≡ length q.elementos
    → Saca q t (con_menos q (t, ts)).1
unfolding con_menos
con_menos-Saca q t ts h e = record {
  peso = h;
  largo = e;
  bound = refl;
  cuenta = con_menos-EnCuenta q t ts e;
}

-- What is found in a queue is taken out of it.
pub sacar_de-Saca :
    (tid : ℕ) (q : Cola) (t : Tripulante) (q' : Cola) → sacar_de tid q ≡ some (t, q') → Saca q t q'
unfolding sacar_de con_menos
sacar_de-Saca tid q t q' h = elim (Option-cases (sacar_tid tid q.elementos)) [
  | inl e ↦ let k = rw (e, sacar_de) at h in cc
  | inr ((u, us), e) ↦
      let k = some_injective (rw (e, sacar_de) at h) in
      let a : u ≡ t = ap (λ x. x.0) k in
      let b = ap (λ x. x.1) k in
      rw (← a, ← b)
        (con_menos-Saca q u us (λ g. sacar_tid-suma g tid q.elementos u us e)
          (sacar_tid-length tid q.elementos u us e))
]

pub pop_by_tid-Saca :
    (tid : ℕ) (q : Cola) (t : Tripulante) (q' : Cola)
    → ds_queue_mt_pop_by_tid q tid ≡ some (t, q')
    → Saca q t q'
unfolding ds_queue_mt_pop_by_tid
pop_by_tid-Saca tid q t q' h = elim (Bool-cases (q.curr_elements == 0)) [
  | inl e ↦ let k = rw e at h in cc
  | inr e ↦ sacar_de-Saca tid q t q' (rw e at h)
]

pop-cons :
    (q : Cola) (xs : List Tripulante) (t : Tripulante) (q' : Cola)
    → q.elementos ≡ xs
    → (elim (queue_pop xs) [ none ↦ none | some r ↦ some (con_menos q r) ]) ≡ some (t, q')
    → Saca q t q'
unfolding queue_pop con_menos suma
pop-cons q [] t q' e h = cc
pop-cons q (x ∷ xs) t q' e h =
    let k = some_injective h in
    let a : x ≡ t = ap (λ x. x.0) k in
    let b = ap (λ x. x.1) k in
    rw (← a, ← b) (con_menos-Saca q x xs (λ g. rw e (omega arith)) (rw e refl))

pub pop-Saca :
    (q : Cola) (t : Tripulante) (q' : Cola) → ds_queue_mt_pop q ≡ some (t, q') → Saca q t q'
unfolding ds_queue_mt_pop
pop-Saca q t q' h = elim (Bool-cases (q.curr_elements == 0)) [
  | inl e ↦ let k = rw e at h in cc
  | inr e ↦ pop-cons q q.elementos t q' refl (rw e at h)
]

-- A queue that takes one more.
abbrev pub Recibe : Cola → Type 0
Recibe q = (q.max_size ≡ 0) ⊎ (q.curr_elements < q.max_size)

pub push-suma :
    (g : ℕ → ℕ) (q : Cola) (t : Tripulante)
    → Recibe q
    → suma_tid g (ds_queue_mt_push q t).elementos ≡ suma_tid g q.elementos + g t.tid
unfolding ds_queue_mt_push suma
push-suma g q t r =
    let s = suma-append (λ t. g t.tid) q.elementos (t ∷ []) in
    let room : ((q.max_size == 0) || ltb q.curr_elements q.max_size) ≡ true = elim r [
      | inl z ↦ ground arith
      | inr l ↦ ground arith
    ] in
    rw room (omega (arith, s))

pub push-bound : (q : Cola) (t : Tripulante) → (ds_queue_mt_push q t).max_size ≡ q.max_size
unfolding ds_queue_mt_push
push-bound q t = ground arith

pub push-EnCuenta :
    (q : Cola) (t : Tripulante)
    → EnCuenta q
    → q.curr_elements < q.max_size
    → EnCuenta (ds_queue_mt_push q t)
      × (length (ds_queue_mt_push q t).elementos ≡ suc (length q.elementos))
unfolding ds_queue_mt_push
push-EnCuenta q t c r =
    let l = length-append q.elementos (t ∷ []) in
    let room : ((q.max_size == 0) || ltb q.curr_elements q.max_size) ≡ true = ground arith in
    rw room (
      record {
        justa = omega (arith, l, c.justa, c.chica);
        cabe = omega (arith, l, c.justa);
        chica = c.chica;
        alguna = c.alguna;
      },
      omega (arith, l),
    )
