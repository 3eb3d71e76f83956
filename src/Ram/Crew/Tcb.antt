-- ===== src/Ram/Crew/Tcb.antt =====
-- The TCB of a crew member, written and read by
-- Mi-RAM-HQ/src/memoria/esquemas/segmentacion/segmentacion.c.
use tp_2021_1c_en_c_errados.Prelude.{
  ℕ, ◌+◌, ◌≤◌, ◌≡◌, ◌⊎◌, refl, ap, ◌∙◌, subst, List, [], ◌∷◌, some, ◌>>=◌, length, arith, le32,
  copy_from, splice, length-splice, IsU32,
}
use tp_2021_1c_en_c_errados.Ram.Physical.{leer32}
use tp_2021_1c_en_c_errados.Ram.Physical.Copies.{
  copy_from-splice, copy_from-splice_other, leer32-splice_other,
}
use tp_2021_1c_en_c_errados.Ram.Segmentation.{Memoria}
use tp_2021_1c_en_c_errados.Ram.Crew.{Tripulante, direccion_tcb, obtener_tcb}

-- The bytes of the TCB at `a`.
pub record Tcb (mfisica : List ℕ) (a : ℕ) (info : Tripulante) : Type 0 where
  pub room : a + 21 ≤ length mfisica
  pub estado : copy_from mfisica (a + 4) 1 ≡ some (info.estado ∷ [])
  pub x : leer32 mfisica (a + 5) ≡ some info.pos.x
  pub y : leer32 mfisica (a + 9) ≡ some info.pos.y
  pub proxima : leer32 mfisica (a + 13) ≡ some info.proxima_tarea

-- The tables lead to the TCB of the crew member.
pub record Guardado (m : Memoria) (a : ℕ) (info : Tripulante) : Type 0 where
  pub direccion : direccion_tcb m info.pid info.tid ≡ some a
  pub bytes : Tcb m.mfisica a info

pub Guardado-obtener_tcb :
    (m : Memoria) (a : ℕ) (info : Tripulante)
    → Guardado m a info
    → obtener_tcb m info.pid info.tid ≡ some info
unfolding obtener_tcb
Guardado-obtener_tcb m a info g =
    rw (g.direccion, ◌>>=◌, g.bytes.estado, g.bytes.x, g.bytes.y, g.bytes.proxima) refl

pub leer32-splice :
    (mfisica : List ℕ) (a v : ℕ)
    → a + 4 ≤ length mfisica
    → IsU32 v
    → leer32 (splice mfisica a (le32 v)) a ≡ some v
unfolding leer32
leer32-splice mfisica a v room word =
    let at : a + 0 ≡ a = omega arith in
    let read = copy_from-splice mfisica a (le32 v) 0 4 room (omega arith) in
    rw (subst (λ i. copy_from (splice mfisica a (le32 v)) i 4 ≡ some (le32 v)) at read, ◌>>=◌)
      (ap some (omega arith))

-- A write before or behind a TCB leaves it alone.
pub Tcb-splice_other :
    (mfisica : List ℕ) (offset : ℕ) (bytes : List ℕ) (a : ℕ) (info : Tripulante)
    → offset + length bytes ≤ length mfisica
    → (a + 17 ≤ offset) ⊎ (offset + length bytes ≤ a + 4)
    → Tcb mfisica a info
    → Tcb (splice mfisica offset bytes) a info
Tcb-splice_other mfisica offset bytes a info inside apart t = record {
  room = omega (arith, t.room, length-splice mfisica offset bytes inside);
  estado = copy_from-splice_other mfisica offset bytes (a + 4) 1 inside (omega arith) ∙ t.estado;
  x = leer32-splice_other mfisica offset bytes (a + 5) inside (omega arith) ∙ t.x;
  y = leer32-splice_other mfisica offset bytes (a + 9) inside (omega arith) ∙ t.y;
  proxima = leer32-splice_other mfisica offset bytes (a + 13) inside (omega arith) ∙ t.proxima;
}

module _ (mfisica : List ℕ) (a : ℕ) (info : Tripulante) (t : Tcb mfisica a info) where
  pub Tcb-estado :
      (estado : ℕ) → Tcb (splice mfisica (a + 4) (estado ∷ [])) a (record info { estado = estado })
  Tcb-estado estado =
      let room = t.room in
      let inside : a + 4 + 1 ≤ length mfisica = omega arith in
      let at : a + 4 + 0 ≡ a + 4 = omega arith in
      let bytes : List ℕ = estado ∷ [] in
      let read = copy_from-splice mfisica (a + 4) bytes 0 1 inside (omega arith) in
      record {
        room = omega (arith, length-splice mfisica (a + 4) bytes inside);
        estado = subst (λ i. copy_from (splice mfisica (a + 4) bytes) i 1 ≡ some bytes) at read;
        x = leer32-splice_other mfisica (a + 4) bytes (a + 5) inside (omega arith) ∙ t.x;
        y = leer32-splice_other mfisica (a + 4) bytes (a + 9) inside (omega arith) ∙ t.y;
        proxima =
            leer32-splice_other mfisica (a + 4) bytes (a + 13) inside (omega arith) ∙ t.proxima;
      }

  pub Tcb-x :
      (v : ℕ)
      → IsU32 v
      → Tcb (splice mfisica (a + 5) (le32 v)) a (record info { pos = record info.pos { x = v } })
  Tcb-x v word =
      let room = t.room in
      let inside : a + 5 + 4 ≤ length mfisica = omega arith in
      record {
        room = omega (arith, length-splice mfisica (a + 5) (le32 v) inside);
        estado =
            copy_from-splice_other mfisica (a + 5) (le32 v) (a + 4) 1 inside (omega arith)
            ∙ t.estado;
        x = leer32-splice mfisica (a + 5) v inside word;
        y = leer32-splice_other mfisica (a + 5) (le32 v) (a + 9) inside (omega arith) ∙ t.y;
        proxima =
            leer32-splice_other mfisica (a + 5) (le32 v) (a + 13) inside (omega arith) ∙ t.proxima;
      }

  pub Tcb-y :
      (v : ℕ)
      → IsU32 v
      → Tcb (splice mfisica (a + 9) (le32 v)) a (record info { pos = record info.pos { y = v } })
  Tcb-y v word =
      let room = t.room in
      let inside : a + 9 + 4 ≤ length mfisica = omega arith in
      record {
        room = omega (arith, length-splice mfisica (a + 9) (le32 v) inside);
        estado =
            copy_from-splice_other mfisica (a + 9) (le32 v) (a + 4) 1 inside (omega arith)
            ∙ t.estado;
        x = leer32-splice_other mfisica (a + 9) (le32 v) (a + 5) inside (omega arith) ∙ t.x;
        y = leer32-splice mfisica (a + 9) v inside word;
        proxima =
            leer32-splice_other mfisica (a + 9) (le32 v) (a + 13) inside (omega arith) ∙ t.proxima;
      }

  pub Tcb-proxima :
      (v : ℕ)
      → IsU32 v
      → Tcb (splice mfisica (a + 13) (le32 v)) a (record info { proxima_tarea = v })
  Tcb-proxima v word =
      let room = t.room in
      let inside : a + 13 + 4 ≤ length mfisica = omega arith in
      record {
        room = omega (arith, length-splice mfisica (a + 13) (le32 v) inside);
        estado =
            copy_from-splice_other mfisica (a + 13) (le32 v) (a + 4) 1 inside (omega arith)
            ∙ t.estado;
        x = leer32-splice_other mfisica (a + 13) (le32 v) (a + 5) inside (omega arith) ∙ t.x;
        y = leer32-splice_other mfisica (a + 13) (le32 v) (a + 9) inside (omega arith) ∙ t.y;
        proxima = leer32-splice mfisica (a + 13) v inside word;
      }
