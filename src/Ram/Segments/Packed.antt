-- ===== src/Ram/Segments/Packed.antt =====
-- What a compaction of Mi-RAM-HQ/src/memoria/esquemas/segmentacion/segmentacion.c makes of a list
-- of segments in order.
use mathlib.Core.Path.{ap₂}
use tp_2021_1c_en_c_errados.Prelude.{
  suma, ℕ, ◌+◌, ◌-◌, ◌≡◌, inl, inr, refl, sym, ap, ◌∙◌, List, [], ◌∷◌, ◌++◌, false, if◌then◌else◌,
  arith, Bool-cases, subst,
}
use tp_2021_1c_en_c_errados.Ram.Segments.{Segmento, menos_uno, es_libre, segmento_libre}
use tp_2021_1c_en_c_errados.Ram.Segments.Cover.{bytes_libres}
use tp_2021_1c_en_c_errados.Ram.Segments.Order.{Contiguo, EsCompacto}
use tp_2021_1c_en_c_errados.Ram.Segments.Step.{paso}

-- The occupied segments in their order, without gaps from `a` on.
unfoldable pub apilar : ℕ → List Segmento → List Segmento
apilar a [] = []
apilar a (s ∷ ss) =
    if es_libre s then apilar a ss else record s { inicio = a } ∷ apilar (a + s.tamanio) ss

paso-cons :
    (s t : Segmento) (ss : List Segmento)
    → es_libre s ≡ false
    → paso (s ∷ t ∷ ss) ≡ s ∷ paso (t ∷ ss)
unfolding paso
paso-cons s t ss e = rw e refl

apilar-cons :
    (a : ℕ) (s : Segmento) (ss : List Segmento)
    → es_libre s ≡ false
    → apilar a (s ∷ ss) ≡ record s { inicio = a } ∷ apilar (a + s.tamanio) ss
unfolding apilar
apilar-cons a s ss e = rw e refl

pub paso-apilar : (a : ℕ) (ss : List Segmento) → apilar a (paso ss) ≡ apilar a ss
unfolding paso apilar
paso-apilar a [] = refl
paso-apilar a (s ∷ []) = refl
paso-apilar a (s ∷ t ∷ ss) = elim (Bool-cases (es_libre s)) [
  | inl e ↦ elim (Bool-cases (es_libre t)) [ inl f ↦ rw (e, f, e) refl | inr f ↦ rw (e, f, f) refl ]
  | inr e ↦
      ap (apilar a) (paso-cons s t ss e)
      ∙ apilar-cons a s (paso (t ∷ ss)) e
      ∙ ap (◌∷◌ (record s { inicio = a })) (paso-apilar (a + s.tamanio) (t ∷ ss))
      ∙ sym (apilar-cons a s (t ∷ ss) e)
]

-- The list that a compaction is to leave: the occupied segments, then one free one.
abbrev pub compactada : List Segmento → ℕ → List Segmento
compactada ss b =
    apilar 0 ss ++ segmento_libre (b - suma bytes_libres ss) (suma bytes_libres ss) ∷ []

libre-eta :
    (s : Segmento)
    → s.tipo ≡ menos_uno
    → s.id_propietario ≡ menos_uno
    → s ≡ segmento_libre s.inicio s.tamanio
libre-eta s h k = ap₂ (λ (t i : ℕ). record s { tipo = t; id_propietario = i }) h k

pub EsCompacto-apilar :
    (a : ℕ) (ss : List Segmento) (b : ℕ)
    → Contiguo a ss b
    → EsCompacto ss
    → ss ≡ apilar a ss ++ segmento_libre (b - suma bytes_libres ss) (suma bytes_libres ss) ∷ []
unfolding apilar suma
EsCompacto-apilar a [] b c h = absurd h
EsCompacto-apilar a (s ∷ ss) b (at, pos, own, c) (inl (e, n)) =
    let c' : Contiguo (a + s.tamanio) [] b = subst (λ l. Contiguo (a + s.tamanio) l b) n c in
    let size : s.tamanio + 0 ≡ s.tamanio = omega arith in
    let start : b - s.tamanio ≡ s.inicio = omega arith in
    rw (e, n, size, start) (ap (λ x. x ∷ []) (libre-eta s (ground arith) (own e)))
EsCompacto-apilar a (s ∷ ss) b (at, pos, own, c) (inr (e, h)) =
    let size : 0 + suma bytes_libres ss ≡ suma bytes_libres ss = omega arith in
    let same : s ≡ record s { inicio = a } = ap (λ i. record s { inicio = i }) at in
    rw (e, size)
      (ap₂ (λ (x : Segmento) (xs : List Segmento). x ∷ xs) same
        (EsCompacto-apilar (a + s.tamanio) ss b c h))
