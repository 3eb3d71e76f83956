-- ===== src/Ram/Segments/Step.antt =====
-- One step of the compaction of Mi-RAM-HQ/src/memoria/esquemas/segmentacion/segmentacion.c on a
-- list of segments that stands in the order of its addresses.
use tp_2021_1c_en_c_errados.Prelude.{
  suma, some_injective, All, ℕ, zero, suc, ◌+◌, ◌%◌, ◌≤◌, ◌<◌, ◌≡◌, ◌⊎◌, inl, inr, refl, ap, ◌∙◌,
  List, [], ◌∷◌, true, false, ◌&&◌, if◌then◌else◌, get_elem?, some, none, Option, All-get_elem?,
  arith, Bool-cases, u32_mod, subst, leb, ltb,
}
use tp_2021_1c_en_c_errados.Ram.Segments.{
  Segmento, es_libre, segmento_libre, cantidad_libres, elegir, reacomodar, clave, first_fit,
}
use tp_2021_1c_en_c_errados.Ram.Segments.Fit.{elegir_lem}
use tp_2021_1c_en_c_errados.Ram.Segments.Cover.{bytes_libres}
use tp_2021_1c_en_c_errados.Ram.Segments.Order.{Contiguo, Contiguo-le, Contiguo-above, EsCompacto}

-- The first free segment is joined with a free one behind it, or changes places with an occupied one.
unfoldable pub paso : List Segmento → List Segmento
paso [] = []
paso (s ∷ []) = s ∷ []
paso (s ∷ t ∷ ss) =
    let rest = paso (t ∷ ss) in
    if es_libre s
    then (if es_libre t
        then record s { tamanio = (s.tamanio + t.tamanio) % u32_mod } ∷ ss
        else record s { tamanio = t.tamanio; tipo = t.tipo; id_propietario = t.id_propietario }
          ∷ segmento_libre ((s.inicio + t.tamanio) % u32_mod) s.tamanio
          ∷ ss)
    else s ∷ rest

-- Where the code steps, from the segment with index `i` on.
pub record Paso (memoria i : ℕ) (ss : List Segmento) : Type 0 where
  pub j : ℕ
  pub s : Segmento
  pub t : Segmento
  pub indice : elegir (clave first_fit) ss 0 i memoria none ≡ some (i + j)
  pub libre : get_elem? ss j ≡ some s
  pub siguiente : get_elem? ss (suc j) ≡ some t
  pub lista : reacomodar ss j s t ≡ paso ss

-- Nothing behind a segment starts lower.
elegir-Contiguo :
    (a : ℕ) (ss : List Segmento) (b n i actual : ℕ) (hallado : Option ℕ)
    → Contiguo a ss b
    → actual ≤ a
    → elegir (clave first_fit) ss n i actual hallado ≡ hallado
elegir-Contiguo a ss b n i actual hallado c low =
    elim (elegir_lem (clave first_fit) ss n i actual hallado) [
      | inl (e, _) ↦ e
      | inr (j, s, _, el, less) ↦
          absurd (omega (arith, All-get_elem? _ ss j (Contiguo-above a ss b c) el.lugar))
    ]

reacomodar-cons :
    (x : Segmento) (ss : List Segmento) (j : ℕ) (s t : Segmento)
    → reacomodar (x ∷ ss) (suc j) s t ≡ x ∷ reacomodar ss j s t
unfolding reacomodar
reacomodar-cons x ss j s t = elim (Bool-cases (es_libre t)) [
  | inl e ↦ rw e refl
  | inr e ↦ rw e refl
]

-- Below 2^31 and in order, a memory with a free segment is compact or the code steps.
pub Paso-cases :
    (memoria i a : ℕ) (ss : List Segmento) (b : ℕ)
    → Contiguo a ss b
    → b ≤ memoria
    → 0 < cantidad_libres ss
    → EsCompacto ss ⊎ Paso memoria i ss
unfolding elegir cantidad_libres reacomodar paso
Paso-cases memoria i a [] b c inside some_free = absurd (omega arith)
Paso-cases memoria i a (s ∷ []) b (at, pos, _, c) inside some_free =
    elim (Bool-cases (es_libre s)) [ inl e ↦ inl (inl (e, refl)) | inr e ↦ absurd (ground arith) ]
Paso-cases memoria i a (s ∷ t ∷ ss) b (at, pos, _, c) inside some_free =
    elim (Bool-cases (es_libre s)) [
      | inl e ↦
          let low = Contiguo-le (a + s.tamanio) (t ∷ ss) b c in
          let chosen : (es_libre s && (leb 0 s.tamanio && ltb s.inicio memoria)) ≡ true =
            ground arith in
          let rest =
            elegir-Contiguo (a + s.tamanio) (t ∷ ss) b 0 (suc i) s.inicio (some i) c
              (omega arith) in
          inr (record {
            j = 0;
            s = s;
            t = t;
            indice = rw chosen (rest ∙ ap some (omega arith));
            libre = refl;
            siguiente = refl;
            lista = (rw e refl);
          })
      | inr e ↦
          let skipped : (es_libre s && (leb 0 s.tamanio && ltb s.inicio memoria)) ≡ false =
            ground arith in
          elim (Paso-cases memoria (suc i) (a + s.tamanio) (t ∷ ss) b c inside (ground arith)) [
            | inl h ↦ inl (inr (e, h))
            | inr p ↦ inr (record {
              j = suc p.j;
              s = p.s;
              t = p.t;
              indice = rw skipped (p.indice ∙ ap some (omega arith));
              libre = p.libre;
              siguiente = p.siguiente;
              lista = reacomodar-cons s (t ∷ ss) p.j p.s p.t ∙ (rw (e, p.lista) refl);
            })
          ]
    ]

unfoldable pub cantidad_ocupados : List Segmento → ℕ
cantidad_ocupados [] = 0
cantidad_ocupados (s ∷ ss) = (if es_libre s then 0 else 1) + cantidad_ocupados ss

-- The segments, and for each free one the occupied ones behind it.
unfoldable pub medida : List Segmento → ℕ
medida [] = 0
medida (s ∷ ss) = 1 + (if es_libre s then cantidad_ocupados ss else 0) + medida ss

pub paso-medida :
    (ss : List Segmento) → 0 < cantidad_libres ss → ¬ EsCompacto ss → medida (paso ss) < medida ss
unfolding paso medida cantidad_ocupados cantidad_libres
paso-medida [] some_free more = absurd (omega arith)
paso-medida (s ∷ []) some_free more = elim (Bool-cases (es_libre s)) [
  | inl e ↦ absurd (more (inl (e, refl)))
  | inr e ↦ absurd (ground arith)
]
paso-medida (s ∷ t ∷ ss) some_free more = elim (Bool-cases (es_libre s)) [
  | inl e ↦ elim (Bool-cases (es_libre t)) [ inl f ↦ ground arith | inr f ↦ ground arith ]
  | inr e ↦ let rest = paso-medida (t ∷ ss) (ground arith) (λ h. more (inr (e, h))) in ground arith
]

pub paso-libres : (ss : List Segmento) → 0 < cantidad_libres ss → 0 < cantidad_libres (paso ss)
unfolding paso cantidad_libres
paso-libres [] some_free = some_free
paso-libres (s ∷ []) some_free = some_free
paso-libres (s ∷ t ∷ ss) some_free = elim (Bool-cases (es_libre s)) [
  | inl e ↦ elim (Bool-cases (es_libre t)) [ inl f ↦ ground arith | inr f ↦ ground arith ]
  | inr e ↦ let rest = paso-libres (t ∷ ss) (ground arith) in ground arith
]

pub paso-Contiguo :
    (a : ℕ) (ss : List Segmento) (b : ℕ) → b < 2147483648 → Contiguo a ss b → Contiguo a (paso ss) b
unfolding paso
paso-Contiguo a [] b small c = c
paso-Contiguo a (s ∷ []) b small c = c
paso-Contiguo a (s ∷ t ∷ ss) b small (at, pos, own, (at', pos', own', c)) =
    let low = Contiguo-le (a + s.tamanio + t.tamanio) ss b c in
    elim (Bool-cases (es_libre s)) [
      | inl e ↦ elim (Bool-cases (es_libre t)) [
        | inl f ↦
            let sum : (s.tamanio + t.tamanio) % u32_mod ≡ s.tamanio + t.tamanio = omega arith in
            rw (e, f) (at, omega arith, own, subst (λ x. Contiguo x ss b) (omega arith) c)
        | inr f ↦
            let sum : (s.inicio + t.tamanio) % u32_mod ≡ a + t.tamanio = omega arith in
            rw (e, f)
              (
                at,
                pos',
                own',
                (sum, pos, (λ _. refl), subst (λ x. Contiguo x ss b) (omega arith) c),
              )
      ]
      | inr e ↦
          rw e (at, pos, own, paso-Contiguo (a + s.tamanio) (t ∷ ss) b small (at', pos', own', c))
    ]

pub paso-bytes :
    (a : ℕ) (ss : List Segmento) (b : ℕ)
    → b < 2147483648
    → Contiguo a ss b
    → suma bytes_libres (paso ss) ≡ suma bytes_libres ss
unfolding paso suma
paso-bytes a [] b small c = refl
paso-bytes a (s ∷ []) b small c = refl
paso-bytes a (s ∷ t ∷ ss) b small (at, pos, own, (at', pos', own', c)) =
    let low = Contiguo-le (a + s.tamanio + t.tamanio) ss b c in
    elim (Bool-cases (es_libre s)) [
      | inl e ↦ elim (Bool-cases (es_libre t)) [ inl f ↦ ground arith | inr f ↦ ground arith ]
      | inr e ↦
          let rest = paso-bytes (a + s.tamanio) (t ∷ ss) b small (at', pos', own', c) in
          ground arith
    ]

-- What holds of the free segments, and does not ask where a segment starts, a step keeps.
pub paso-All :
    (Q : Segmento → Type 0)
    → ((s : Segmento) → es_libre s ≡ true → Q s)
    → ((s : Segmento) (i : ℕ) → Q s → Q (record s { inicio = i }))
    → (ss : List Segmento) → All Q ss
    → All Q (paso ss)
unfolding paso
paso-All Q free moved [] h = h
paso-All Q free moved (s ∷ []) h = h
paso-All Q free moved (s ∷ t ∷ ss) (h, (k, hs)) = elim (Bool-cases (es_libre s)) [
  | inl e ↦ elim (Bool-cases (es_libre t)) [
    | inl f ↦ rw (e, f) (free _ e, hs)
    | inr f ↦ rw (e, f) (moved t s.inicio k, (free _ refl, hs))
  ]
  | inr e ↦ rw e (h, paso-All Q free moved (t ∷ ss) (k, hs))
]

-- A segment fits where the one before it starts.
pub Contiguo-next :
    (a : ℕ) (ss : List Segmento) (b j : ℕ) (s t : Segmento)
    → Contiguo a ss b
    → get_elem? ss j ≡ some s
    → get_elem? ss (suc j) ≡ some t
    → s.inicio + t.tamanio ≤ b
Contiguo-next a [] b j s t c h k = cc
Contiguo-next a (x ∷ []) b zero s t c h k = cc
Contiguo-next a (x ∷ y ∷ ss) b zero s t (at, _, _, (at', _, _, c)) h k =
    let first : x.inicio ≡ s.inicio = ap (λ z. z.inicio) (some_injective h) in
    let second : y.tamanio ≡ t.tamanio = ap (λ z. z.tamanio) (some_injective k) in
    omega (arith, Contiguo-le (a + x.tamanio + y.tamanio) ss b c)
Contiguo-next a (x ∷ ss) b (suc j) s t (_, _, _, c) h k =
    Contiguo-next (a + x.tamanio) ss b j s t c h k
