-- ===== src/Ram/Allocation/Patota.antt =====
-- The segments of a new patota of
-- Mi-RAM-HQ/src/memoria/esquemas/segmentacion/segmentacion.c.
use tp_2021_1c_en_c_errados.Prelude.{
  suma, ℕ, zero, suc, ◌+◌, ◌*◌, ◌-◌, ◌%◌, ◌≤◌, ◌<◌, ◌≡◌, refl, ap, ◌∙◌, subst, List, [], ◌∷◌, ◌++◌,
  true, length, arith, sub32, u32_mod,
}
use tp_2021_1c_en_c_errados.Prelude.Run
use tp_2021_1c_en_c_errados.Prelude.Run.{Run, done, or_abort}
use tp_2021_1c_en_c_errados.Ram.Segments.{hay_segmento_libre}
use tp_2021_1c_en_c_errados.Ram.Segments.Cover.{bytes_libres}
use tp_2021_1c_en_c_errados.Ram.Tables.{SegmentoTripulante}
use tp_2021_1c_en_c_errados.Ram.Segmentation.{Memoria}
use tp_2021_1c_en_c_errados.Ram.Allocation.{
  obtener_tripulantes, obtener_segmentos, nueva_patota, nuevo_slot,
}
use tp_2021_1c_en_c_errados.Ram.Allocation.Reserve.{EnRegla, obtener_segmento-Reservado}

-- The crew has its segments: `n` bytes less are free, and of `k` free bytes in a row the rest is.
pub record Tripulacion (m : Memoria) (n k : ℕ) (m' : Memoria) : Type 0 where
  pub regla : EnRegla m'
  pub bytes : suma bytes_libres m'.listado_segmentos + n ≡ suma bytes_libres m.listado_segmentos
  pub igual : m' ≡ record m { listado_segmentos = m'.listado_segmentos }
  pub hueco : hay_segmento_libre m'.listado_segmentos (k - n) ≡ true

obtener_tripulantes-Tripulacion :
    (fuel : ℕ) (m : Memoria) (pid cant k : ℕ)
    → EnRegla m
    → 21 * cant < k
    → hay_segmento_libre m.listado_segmentos k ≡ true
    → (slots : List SegmentoTripulante) × (m' : Memoria) × (obtener_tripulantes fuel m pid cant
        ≡ done (slots, m'))
      × Tripulacion m (21 * cant) k m'
unfolding obtener_tripulantes
obtener_tripulantes-Tripulacion fuel m pid zero k p lt h =
    let all : k ≡ k - 21 * 0 = omega arith in
    (
      [],
      m,
      refl,
      record {
        regla = p;
        bytes = omega arith;
        igual = refl;
        hueco = subst (λ i. hay_segmento_libre m.listado_segmentos i ≡ true) all h;
      },
    )
obtener_tripulantes-Tripulacion fuel m pid (suc cant) k p lt h =
    let (inicio, n, e, r, more) =
      obtener_segmento-Reservado fuel m 21 2 pid k p (omega arith) (omega arith) (omega arith) h in
    let (slots, z, f, t) =
      obtener_tripulantes-Tripulacion fuel n pid cant (k - 21) r.regla (omega arith)
        (more (omega arith)) in
    let left : k - 21 - 21 * cant ≡ k - 21 * suc cant = omega arith in
    (
      nuevo_slot inicio ∷ slots,
      z,
      rw (e, Run.◌>>=◌, f) refl,
      record {
        regla = t.regla;
        bytes = omega (arith, t.bytes, r.bytes);
        igual =
            t.igual
            ∙ ap (λ (y : Memoria). record y { listado_segmentos = z.listado_segmentos }) r.igual;
        hueco = subst (λ i. hay_segmento_libre z.listado_segmentos i ≡ true) left t.hueco;
      },
    )

-- The bytes that a patota takes.
abbrev pub tamanio_patota : ℕ → List ℕ → ℕ
tamanio_patota cant tareas = 8 + 21 * cant + (length tareas + 1)

-- The segments of a patota, its table in the list, and the free bytes counted down.
pub record ConPatota (m : Memoria) (pid cant : ℕ) (tareas : List ℕ) (m' : Memoria) : Type 0 where
  pub pcb : ℕ
  pub inicio_tareas : ℕ
  pub slots : List SegmentoTripulante
  pub regla : EnRegla m'
  pub bytes :
      suma bytes_libres m'.listado_segmentos + tamanio_patota cant tareas
      ≡ suma bytes_libres m.listado_segmentos
  pub dentro_pcb : pcb + 8 ≤ m.tamanio_memoria
  pub dentro_tareas : inicio_tareas + (length tareas + 1) ≤ m.tamanio_memoria
  pub mfisica : m'.mfisica ≡ m.mfisica
  pub memoria : m'.tamanio_memoria ≡ m.tamanio_memoria
  pub patotas :
      m'.listado_patotas
      ≡ m.listado_patotas ++ nueva_patota pid pcb 8 inicio_tareas (length tareas + 1) slots ∷ []
  pub espacio :
      m'.espacio_libre
      ≡ sub32 (sub32 (sub32 m.espacio_libre 8) (length tareas + 1)) (21 * cant % u32_mod)

pub obtener_segmentos-ConPatota :
    (fuel : ℕ) (m : Memoria) (pid cant : ℕ) (tareas : List ℕ)
    → EnRegla m
    → hay_segmento_libre m.listado_segmentos (tamanio_patota cant tareas) ≡ true
    → (m' : Memoria) × (obtener_segmentos fuel m pid 8 (length tareas + 1) cant ≡ done m')
      × ConPatota m pid cant tareas m'
unfolding obtener_segmentos
obtener_segmentos-ConPatota fuel m pid cant tareas p h =
    let k = tamanio_patota cant tareas in
    let large = length tareas + 1 in
    let (slots, a, e, t) = obtener_tripulantes-Tripulacion fuel m pid cant k p (omega arith) h in
    let left : k - 21 * cant ≡ 8 + large = omega arith in
    let room = subst (λ i. hay_segmento_libre a.listado_segmentos i ≡ true) left t.hueco in
    let (at_tareas, b, f, r, more) =
      obtener_segmento-Reservado fuel a large 1 pid (8 + large) t.regla (omega arith) (omega arith)
        (omega arith) room in
    let left' : 8 + large - large ≡ 8 = omega arith in
    let room' =
      subst (λ i. hay_segmento_libre b.listado_segmentos i ≡ true) left' (more (omega arith)) in
    let (at_pcb, c, g, q, _) =
      obtener_segmento-Reservado fuel b 8 0 pid 8 r.regla (omega arith) (omega arith) (omega arith)
        room' in
    let same : c ≡ record m { listado_segmentos = c.listado_segmentos } =
      q.igual
      ∙ ap (λ (y : Memoria). record y { listado_segmentos = c.listado_segmentos }) r.igual
      ∙ ap (λ (y : Memoria). record y { listado_segmentos = c.listado_segmentos }) t.igual in
    let size_a : a.tamanio_memoria ≡ m.tamanio_memoria = ap (λ y. y.tamanio_memoria) t.igual in
    let size_b : b.tamanio_memoria ≡ m.tamanio_memoria =
      ap (λ y. y.tamanio_memoria) r.igual ∙ size_a in
    let paid = ap (λ y. y.espacio_libre) same in
    (
      record c {
        listado_patotas = c.listado_patotas ++ nueva_patota pid at_pcb 8 at_tareas large slots ∷ [];
        espacio_libre = sub32 (sub32 (sub32 c.espacio_libre 8) large) (21 * cant % u32_mod);
      },
      rw (e, Run.◌>>=◌, f, g) refl,
      record {
        pcb = at_pcb;
        inicio_tareas = at_tareas;
        slots = slots;
        regla = q.regla;
        bytes = omega (arith, t.bytes, r.bytes, q.bytes);
        dentro_pcb = omega (arith, q.dentro);
        dentro_tareas = omega (arith, r.dentro);
        mfisica = ap (λ y. y.mfisica) same;
        memoria = ap (λ y. y.tamanio_memoria) same;
        patotas =
            ap (λ y. y.listado_patotas ++ nueva_patota pid at_pcb 8 at_tareas large slots ∷ [])
              same;
        espacio =
            ap (λ y. sub32 (sub32 (sub32 y.espacio_libre 8) large) (21 * cant % u32_mod)) same;
      },
    )
