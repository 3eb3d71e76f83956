-- ===== src/Ram/Segments/Order.antt =====
-- Lists of segments in the order of their addresses, and the test of
-- Mi-RAM-HQ/src/memoria/esquemas/segmentacion/segmentacion.c for a compact memory.
use tp_2021_1c_en_c_errados.Prelude.{
  subst, ℕ, ◌+◌, ◌≤◌, ◌<◌, ◌≡◌, ◌⊎◌, inl, inr, refl, List, [], ◌∷◌, true, false, All, All-map,
  arith, Bool-cases,
}
use tp_2021_1c_en_c_errados.Ram.Segments.{
  Segmento, menos_uno, es_libre, cantidad_libres, es_ultimo, esta_compactado,
}

-- Each segment starts where the one before it ends, from `a` to `b`; a free one has no owner.
abbrev pub Contiguo : ℕ → List Segmento → ℕ → Type 0
Contiguo a [] b = a ≡ b
Contiguo a (s ∷ ss) b =
    (s.inicio ≡ a)
    × (0 < s.tamanio)
    × (es_libre s ≡ true → s.id_propietario ≡ menos_uno)
    × Contiguo (a + s.tamanio) ss b

pub Contiguo-le : (a : ℕ) (ss : List Segmento) (b : ℕ) → Contiguo a ss b → a ≤ b
Contiguo-le a [] b h = omega arith
Contiguo-le a (s ∷ ss) b (_, _, _, h) = omega (arith, Contiguo-le (a + s.tamanio) ss b h)

pub Contiguo-above :
    (a : ℕ) (ss : List Segmento) (b : ℕ) → Contiguo a ss b → All (λ t. a ≤ t.inicio) ss
Contiguo-above a [] b h = tt
Contiguo-above a (s ∷ ss) b (at, pos, _, h) =
    (omega arith, All-map _ ss (λ t low. omega arith) (Contiguo-above (a + s.tamanio) ss b h))

-- One free segment, at the end of the list.
abbrev pub EsCompacto : List Segmento → Type 0
EsCompacto [] = ⊥
EsCompacto (s ∷ ss) = ((es_libre s ≡ true) × (ss ≡ [])) ⊎ ((es_libre s ≡ false) × EsCompacto ss)

EsCompacto-cantidad : (ss : List Segmento) → EsCompacto ss → cantidad_libres ss ≡ 1
unfolding cantidad_libres
EsCompacto-cantidad [] h = absurd h
EsCompacto-cantidad (s ∷ ss) (inl (e, n)) = rw (e, n) refl
EsCompacto-cantidad (s ∷ ss) (inr (e, h)) = rw e (omega (arith, EsCompacto-cantidad ss h))

EsCompacto-es_ultimo :
    (a : ℕ) (ss : List Segmento) (b : ℕ)
    → Contiguo a ss b
    → b < 2147483648
    → EsCompacto ss
    → es_ultimo b ss ≡ true
unfolding es_ultimo
EsCompacto-es_ultimo a [] b c small h = absurd h
EsCompacto-es_ultimo a (s ∷ ss) b (at, pos, _, c) small (inl (e, n)) =
    let last : a + s.tamanio ≡ b =
      let d : Contiguo (a + s.tamanio) [] b = subst (λ l. Contiguo (a + s.tamanio) l b) n c in d in
    ground arith
EsCompacto-es_ultimo a (s ∷ ss) b (at, pos, _, c) small (inr (e, h)) =
    let rest = EsCompacto-es_ultimo (a + s.tamanio) ss b c small h in ground arith

-- In a memory in order that lies below 2^31, the test says just that.
pub EsCompacto-esta_compactado :
    (a : ℕ) (ss : List Segmento) (b : ℕ)
    → Contiguo a ss b
    → b < 2147483648
    → EsCompacto ss
    → esta_compactado b ss ≡ true
unfolding esta_compactado
EsCompacto-esta_compactado a ss b c small h =
    rw (EsCompacto-cantidad ss h, EsCompacto-es_ultimo a ss b c small h) refl

none_free_es_ultimo : (b : ℕ) (ss : List Segmento) → cantidad_libres ss ≡ 0 → es_ultimo b ss ≡ false
unfolding cantidad_libres es_ultimo
none_free_es_ultimo b [] h = refl
none_free_es_ultimo b (s ∷ ss) h = elim (Bool-cases (es_libre s)) [
  | inl e ↦ ground arith
  | inr e ↦ let rest = none_free_es_ultimo b ss (ground arith) in ground arith
]

Contiguo-end : (b : ℕ) (ss : List Segmento) → Contiguo b ss b → ss ≡ []
Contiguo-end b [] h = refl
Contiguo-end b (s ∷ ss) (at, pos, _, h) = absurd (omega (arith, Contiguo-le (b + s.tamanio) ss b h))

last-EsCompacto :
    (a : ℕ) (ss : List Segmento) (b : ℕ)
    → Contiguo a ss b
    → b < 2147483648
    → cantidad_libres ss ≡ 1
    → es_ultimo b ss ≡ true
    → EsCompacto ss
unfolding cantidad_libres es_ultimo
last-EsCompacto a [] b c small one last = absurd (omega arith)
last-EsCompacto a (s ∷ ss) b (at, pos, _, c) small one last = elim (Bool-cases (es_libre s)) [
  | inl e ↦
      let quiet = none_free_es_ultimo b ss (ground arith) in
      let low = Contiguo-le (a + s.tamanio) ss b c in
      let end : a + s.tamanio ≡ b = ground arith in
      inl (e, Contiguo-end b ss (subst (λ x. Contiguo x ss b) end c))
  | inr e ↦ inr (e, last-EsCompacto (a + s.tamanio) ss b c small (ground arith) (ground arith))
]

pub esta_compactado-EsCompacto :
    (a : ℕ) (ss : List Segmento) (b : ℕ)
    → Contiguo a ss b
    → b < 2147483648
    → esta_compactado b ss ≡ true
    → EsCompacto ss
unfolding esta_compactado
esta_compactado-EsCompacto a ss b c small h =
    last-EsCompacto a ss b c small (ground arith) (ground arith)
