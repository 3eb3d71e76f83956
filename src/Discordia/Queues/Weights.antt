-- ===== src/Discordia/Queues/Weights.antt =====
-- How a weight of the tids adds up over a queue of
-- Discordia/src/planificador/queues/queue_mt.c. With the weight that is 1 at one tid and 0 elsewhere
-- the sum counts a crew member.
use mathlib.Core.Logic.{∥∥₁_elim}
use mathlib.Core.List.{Perm}
use mathlib.Core.List.Permᴰ.{Permᴰ, nil, cons, swap, trans}
use native.Mathlib.Nat.{ℕ_set}
use tp_2021_1c_en_c_errados.Prelude.{
  suma, ℕ, suc, ◌+◌, ◌≡◌, refl, ap, ◌∙◌, inl, inr, Bool, some, List, [], ◌∷◌, arith, ◌==◌,
  Bool-cases, Option-cases, length, some_injective,
}
use tp_2021_1c_en_c_errados.Discordia.Crew.{Tripulante, Commons}
use tp_2021_1c_en_c_errados.Discordia.Queues.{sacar_tid}

-- A weight is summed over the crew members.
abbrev pub suma_tid : (ℕ → ℕ) → List Tripulante → ℕ
suma_tid g ts = suma (λ t. g t.tid) ts

-- The documented behaviour of `list_sort` of so-commons-library: the elements stay the same.
pub record Ordena (c : Commons) : Type 0 where
  pub permuta :
      (menor : Tripulante → Tripulante → Bool) (ts : List Tripulante)
      → Perm (c.list_sort menor ts) ts

module _ (g : ℕ → ℕ) where
  Permᴰ-suma : {xs ys : List Tripulante} → Permᴰ xs ys → suma_tid g xs ≡ suma_tid g ys
  unfolding suma
  Permᴰ-suma nil = refl
  Permᴰ-suma (cons e p) = let h = ap (λ t. g t.tid) e in omega (arith, Permᴰ-suma p)
  Permᴰ-suma (swap e f) = let h = ap (λ t. g t.tid) e in let k = ap (λ t. g t.tid) f in omega arith
  Permᴰ-suma (trans p q) = Permᴰ-suma p ∙ Permᴰ-suma q

  pub Perm-suma : {xs ys : List Tripulante} → Perm xs ys → suma_tid g xs ≡ suma_tid g ys
  Perm-suma {xs} {ys} p = ∥∥₁_elim p (ℕ_set (suma_tid g xs) (suma_tid g ys)) Permᴰ-suma

Permᴰ-length : {xs ys : List Tripulante} → Permᴰ xs ys → length xs ≡ length ys
Permᴰ-length nil = refl
Permᴰ-length (cons e p) = omega (arith, Permᴰ-length p)
Permᴰ-length (swap e f) = refl
Permᴰ-length (trans p q) = Permᴰ-length p ∙ Permᴰ-length q

pub Perm-length : {xs ys : List Tripulante} → Perm xs ys → length xs ≡ length ys
Perm-length {xs} {ys} p = ∥∥₁_elim p (ℕ_set (length xs) (length ys)) Permᴰ-length

module _ (g : ℕ → ℕ) where
  pub sacar_tid-suma :
      (tid : ℕ) (ts : List Tripulante) (u : Tripulante) (us : List Tripulante)
      → sacar_tid tid ts ≡ some (u, us)
      → suma_tid g us + g u.tid ≡ suma_tid g ts
  unfolding sacar_tid suma
  sacar_tid-suma tid [] u us h = cc
  sacar_tid-suma tid (t ∷ ts) u us h = elim (Bool-cases (t.tid == tid)) [
    | inl e ↦
        let k = some_injective (rw e at h) in
        let a : t ≡ u = ap (λ x. x.0) k in
        let b : ts ≡ us = ap (λ x. x.1) k in rw (← a, ← b) (omega arith)
    | inr e ↦ elim (Option-cases (sacar_tid tid ts)) [
      | inl f ↦ let k = rw (e, f) at h in cc
      | inr (r, f) ↦
          let k = some_injective (rw (e, f) at h) in
          let a : r.0 ≡ u = ap (λ x. x.0) k in
          let b : t ∷ r.1 ≡ us = ap (λ x. x.1) k in
          rw (← a, ← b) (omega (arith, sacar_tid-suma tid ts r.0 r.1 f))
    ]
  ]

pub sacar_tid-length :
    (tid : ℕ) (ts : List Tripulante) (u : Tripulante) (us : List Tripulante)
    → sacar_tid tid ts ≡ some (u, us)
    → suc (length us) ≡ length ts
unfolding sacar_tid
sacar_tid-length tid [] u us h = cc
sacar_tid-length tid (t ∷ ts) u us h = elim (Bool-cases (t.tid == tid)) [
  | inl e ↦ let k = some_injective (rw e at h) in let b : ts ≡ us = ap (λ x. x.1) k in rw (← b) refl
  | inr e ↦ elim (Option-cases (sacar_tid tid ts)) [
    | inl f ↦ let k = rw (e, f) at h in cc
    | inr (r, f) ↦
        let k = some_injective (rw (e, f) at h) in
        let b : t ∷ r.1 ≡ us = ap (λ x. x.1) k in
        rw (← b) (omega (arith, sacar_tid-length tid ts r.0 r.1 f))
  ]
]
