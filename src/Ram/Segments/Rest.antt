-- ===== src/Ram/Segments/Rest.antt =====
-- The rest of a segment that is taken, `segmentacion_buscar_segmento` of
-- Mi-RAM-HQ/src/memoria/esquemas/segmentacion/segmentacion.c.
use tp_2021_1c_en_c_errados.Prelude.{
  suma, inr, inl, ℕ, ◌+◌, ◌-◌, ◌≤◌, ◌<◌, ◌≡◌, ◌≢◌, [], ◌∷◌, arith, ◌⊎◌, ℕ_discrete, ◌%◌, u32_mod,
  sub32,
}
use tp_2021_1c_en_c_errados.Ram.Segments.{segmento_libre, Segmento, menos_uno, ocupado, resto}
use tp_2021_1c_en_c_errados.Ram.Segments.Fit.{Inside}
use tp_2021_1c_en_c_errados.Ram.Segments.Cover.{uno_dentro, libre_dentro, bytes_libres}

-- The rest of a segment in a memory of less than 2^31 bytes does not wrap around.
pub resto-cases :
    (s : Segmento) (n : ℕ)
    → n ≤ s.tamanio
    → s.inicio + s.tamanio < 2147483648
    → ((s.tamanio ≡ n) × (resto s n ≡ []))
      ⊎ ((n < s.tamanio) × (resto s n ≡ segmento_libre (s.inicio + n) (s.tamanio - n) ∷ []))
unfolding resto
resto-cases s n fits small = elim (ℕ_discrete s.tamanio n) [
  | yes e ↦ inl (e, ground arith)
  | no ne ↦
      let at : (s.inicio + n) % u32_mod ≡ s.inicio + n = omega arith in
      let size : sub32 s.tamanio n ≡ s.tamanio - n = omega arith in
      inr (omega arith, ground (arith, at, size))
]

module _ (s : Segmento) (n tipo pid : ℕ) (fits : n ≤ s.tamanio)
    (small : s.inicio + s.tamanio < 2147483648) where
  pub once-split :
      (a : ℕ)
      → uno_dentro a (ocupado s n tipo pid) + suma (uno_dentro a) (resto s n) ≡ uno_dentro a s
  unfolding suma
  once-split a = elim (resto-cases s n fits small) [
    | inl (e, r) ↦ rw r (ground arith)
    | inr (lt, r) ↦ rw r (ground arith)
  ]

  pub total-split : n + suma (λ u. u.tamanio) (resto s n) ≡ s.tamanio
  unfolding suma
  total-split = elim (resto-cases s n fits small) [
    | inl (e, r) ↦ rw r (omega arith)
    | inr (lt, r) ↦ rw r (omega arith)
  ]

  pub bytes-split :
      tipo ≢ menos_uno
      → bytes_libres (ocupado s n tipo pid) + suma bytes_libres (resto s n) + n ≡ s.tamanio
  unfolding suma
  bytes-split taken = elim (resto-cases s n fits small) [
    | inl (e, r) ↦ rw r (ground arith)
    | inr (lt, r) ↦ rw r (ground arith)
  ]

  pub Inside-split : (memoria : ℕ) → s.inicio + s.tamanio ≤ memoria → Inside memoria (resto s n)
  Inside-split memoria inside = elim (resto-cases s n fits small) [
    | inl (e, r) ↦ rw r tt
    | inr (lt, r) ↦ rw r ((omega arith, omega arith), tt)
  ]

  -- What is free in the segment once its start is taken.
  pub libre-split_in :
      tipo ≢ menos_uno
      → (a : ℕ) → s.inicio ≤ a
      → a < s.inicio + n
      → libre_dentro a (ocupado s n tipo pid) + suma (libre_dentro a) (resto s n) ≡ 0
  unfolding suma
  libre-split_in taken a low high = elim (resto-cases s n fits small) [
    | inl (e, r) ↦ rw r (ground arith)
    | inr (lt, r) ↦ rw r (ground arith)
  ]

  pub libre-split_out :
      tipo ≢ menos_uno
      → s.tipo ≡ menos_uno
      → (a : ℕ) → (a < s.inicio) ⊎ (s.inicio + n ≤ a)
      → libre_dentro a (ocupado s n tipo pid) + suma (libre_dentro a) (resto s n) ≡ libre_dentro a s
  unfolding suma
  libre-split_out taken free a out = elim (resto-cases s n fits small) [
    | inl (e, r) ↦ rw r (ground arith)
    | inr (lt, r) ↦ rw r (ground arith)
  ]
