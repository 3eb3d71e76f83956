-- ===== src/Ram/Allocation/Compaction.antt =====
-- The loop of the compaction of Mi-RAM-HQ/src/memoria/esquemas/segmentacion/segmentacion.c.
use tp_2021_1c_en_c_errados.Prelude.{
  false, All-get_elem?, true, ◌≤◌, All, map, length, ℕ, zero, suc, ◌+◌, ◌<◌, ◌≡◌, inl, inr, refl,
  sym, ◌∙◌, List, some, ◌>>=◌, if◌then◌else◌, arith, Bool-cases,
}
use tp_2021_1c_en_c_errados.Prelude.Run.{Run, done}
use tp_2021_1c_en_c_errados.Ram.Segments.Step.{
  paso-All, Contiguo-next, paso, Paso-cases, medida, paso-medida, paso-libres, paso-Contiguo,
  paso-bytes,
}
use tp_2021_1c_en_c_errados.Ram.Allocation.Slots.{Forma, forma, TablaDentro}
use tp_2021_1c_en_c_errados.Ram.Allocation.Move.{
  Movida, Movible, actualizar_estructura_y_memoria-inside,
}
use tp_2021_1c_en_c_errados.Ram.Segments.Packed.{paso-apilar, compactada, EsCompacto-apilar}
use tp_2021_1c_en_c_errados.Ram.Segments.{
  Segmento, esta_compactado, cantidad_libres, primer_libre, reacomodar, es_libre,
}
use tp_2021_1c_en_c_errados.Ram.Segments.Order.{
  Contiguo, EsCompacto, EsCompacto-esta_compactado, esta_compactado-EsCompacto,
}
use tp_2021_1c_en_c_errados.Ram.Tables.{PatotaYTabla}
use tp_2021_1c_en_c_errados.Ram.Segmentation.{
  Memoria, reasignar_en, reasignar_desde, reasignar_segmento, actualizar_estructura_y_memoria,
}
use tp_2021_1c_en_c_errados.Ram.Allocation.{compactar}

-- The segments of the memory stand in order, and one of them is free.
pub record EnOrden (m : Memoria) : Type 0 where
  pub small : m.tamanio_memoria < 2147483648
  pub contiguo : Contiguo 0 m.listado_segmentos m.tamanio_memoria
  pub alguno : 0 < cantidad_libres m.listado_segmentos

-- The bytes and the tables belong to the memory, and the tables have what each segment holds.
pub record Coherente (m : Memoria) : Type 0 where
  pub entera : length m.mfisica ≡ m.tamanio_memoria
  pub dentro : All (TablaDentro m.tamanio_memoria) m.listado_patotas
  pub movibles : All (Movible (map forma m.listado_patotas)) m.listado_segmentos

-- What a step changes.
pub record Reasignada (m m' : Memoria) : Type 0 where
  pub lista : m'.listado_segmentos ≡ paso m.listado_segmentos
  pub memoria : m'.tamanio_memoria ≡ m.tamanio_memoria
  pub espacio : m'.espacio_libre ≡ m.espacio_libre
  pub formas : map forma m'.listado_patotas ≡ map forma m.listado_patotas

abbrev con_paso : Memoria → ℕ → Segmento → Segmento → List ℕ × List PatotaYTabla → Memoria
con_paso m i s t r = record m {
  listado_segmentos = reacomodar m.listado_segmentos i s t;
  mfisica = r.0;
  listado_patotas = r.1;
}

-- Nothing is moved for a free segment.
libre-Movible : (fs : List Forma) (s : Segmento) → es_libre s ≡ true → Movible fs s
libre-Movible fs s e =
    ((λ h. absurd (ground arith)), (λ h. absurd (ground arith)), (λ h. absurd (ground arith)))

paso-Movible :
    (fs : List Forma) (ss : List Segmento) → All (Movible fs) ss → All (Movible fs) (paso ss)
paso-Movible fs ss h = paso-All (Movible fs) (libre-Movible fs) (λ s i q. q) ss h

-- The bytes and the tables that the step on the list leads to.
movida :
    (m : Memoria) (libre : ℕ) (t : Segmento)
    → Coherente m
    → Movible (map forma m.listado_patotas) t
    → libre + t.tamanio ≤ m.tamanio_memoria
    → Movida m.tamanio_memoria m.listado_patotas (
        if es_libre t
        then some (m.mfisica, m.listado_patotas)
        else actualizar_estructura_y_memoria m.mfisica m.listado_patotas libre t)
movida m libre t c h room = elim (Bool-cases (es_libre t)) [
  | inl e ↦ (m.mfisica, m.listado_patotas, rw e refl, c.entera, c.dentro, refl)
  | inr e ↦
      let (bytes, ps, f, whole, inside, same) =
        actualizar_estructura_y_memoria-inside m.tamanio_memoria m.mfisica m.listado_patotas libre t
          c.entera c.dentro room h in
      (bytes, ps, rw e f, whole, inside, same)
]

-- In a coherent memory a step does not abort: it is the step on the list.
reasignar_segmento_lem :
    (m : Memoria)
    → EnOrden m
    → Coherente m
    → ¬ EsCompacto m.listado_segmentos
    → (m' : Memoria) × (reasignar_segmento m ≡ done m') × Reasignada m m' × Coherente m'
unfolding reasignar_segmento primer_libre reasignar_en reasignar_desde reacomodar
reasignar_segmento_lem m o c more =
    let ss = m.listado_segmentos in
    let fs = map forma m.listado_patotas in
    elim (Paso-cases m.tamanio_memoria 0 0 ss m.tamanio_memoria o.contiguo (omega arith) o.alguno) [
      | inl h ↦ absurd (more h)
      | inr p ↦
          let at : 0 + p.j ≡ p.j = omega arith in
          let room =
            Contiguo-next 0 ss m.tamanio_memoria p.j p.s p.t o.contiguo p.libre p.siguiente in
          let own = All-get_elem? (Movible fs) ss (suc p.j) c.movibles p.siguiente in
          let (bytes, ps, e, whole, inside, same) = movida m p.s.inicio p.t c own room in
          (
            con_paso m p.j p.s p.t (bytes, ps),
            rw (p.indice, ◌>>=◌, at, p.libre, p.siguiente, e) refl,
            record { lista = p.lista; memoria = refl; espacio = refl; formas = same },
            record {
              entera = whole;
              dentro = inside;
              movibles = rw (p.lista, same) (paso-Movible fs ss c.movibles);
            },
          )
    ]

EnOrden-paso :
    (m m' : Memoria)
    → EnOrden m
    → Reasignada m m'
    → EnOrden m'
      × (compactada m'.listado_segmentos m'.tamanio_memoria
          ≡ compactada m.listado_segmentos m.tamanio_memoria)
EnOrden-paso m m' o r =
    let ss = m.listado_segmentos in
    let b = m.tamanio_memoria in
    (
      record {
        small = omega (arith, r.memoria, o.small);
        contiguo = rw (r.lista, r.memoria) (paso-Contiguo 0 ss b o.small o.contiguo);
        alguno = rw r.lista (paso-libres ss o.alguno);
      },
      rw (r.lista, r.memoria, paso-apilar 0 ss, paso-bytes 0 ss b o.small o.contiguo) refl,
    )

-- The end of a compaction: the memory packed, and as large and as free as before, with the tables
-- that it had but for the addresses in them.
pub record Compactada (m m' : Memoria) : Type 0 where
  pub lista : m'.listado_segmentos ≡ compactada m.listado_segmentos m.tamanio_memoria
  pub memoria : m'.tamanio_memoria ≡ m.tamanio_memoria
  pub espacio : m'.espacio_libre ≡ m.espacio_libre
  pub formas : map forma m'.listado_patotas ≡ map forma m.listado_patotas

-- A turn of the loop.
compactar-turn :
    (fuel : ℕ) (m n : Memoria) (r : Run Memoria)
    → esta_compactado m.tamanio_memoria m.listado_segmentos ≡ false
    → reasignar_segmento m ≡ done n
    → compactar fuel n ≡ r
    → compactar (suc fuel) m ≡ r
unfolding compactar
compactar-turn fuel m n r e f g = rw (e, f) g

-- A coherent memory below 2^31 bytes, with its segments in order and one of them free, is compacted
-- within as many turns as `medida` says: the loop ends and does not abort, the occupied segments
-- are packed in their order with one free segment behind them, the tables keep all but their
-- addresses, and the memory is coherent again.
pub compactar_lem :
    (fuel : ℕ) (m : Memoria)
    → EnOrden m
    → Coherente m
    → medida m.listado_segmentos < fuel
    → (m' : Memoria) × (compactar fuel m ≡ done m') × Compactada m m' × Coherente m'
unfolding compactar
compactar_lem zero m o c fuelled = absurd (omega arith)
compactar_lem (suc fuel) m o c fuelled =
    let ss = m.listado_segmentos in
    let b = m.tamanio_memoria in
    elim (Bool-cases (esta_compactado b ss)) [
      | inl e ↦
          let end = esta_compactado-EsCompacto 0 ss b o.contiguo o.small e in
          let packed = EsCompacto-apilar 0 ss b o.contiguo end in
          (
            m,
            rw e refl,
            record { lista = packed; memoria = refl; espacio = refl; formas = refl },
            c,
          )
      | inr e ↦
          let more : ¬ EsCompacto ss =
            λ h. let t = sym e ∙ EsCompacto-esta_compactado 0 ss b o.contiguo o.small h in cc in
          let (n, f, r, c') = reasignar_segmento_lem m o c more in
          let (o', same) = EnOrden-paso m n o r in
          let less = paso-medida ss o.alguno more in
          let sooner : medida n.listado_segmentos < fuel = rw r.lista (omega arith) in
          let (z, g, d, c'') = compactar_lem fuel n o' c' sooner in
          (
            z,
            compactar-turn fuel m n (done z) e f g,
            record {
              lista = d.lista ∙ same;
              memoria = d.memoria ∙ r.memoria;
              espacio = d.espacio ∙ r.espacio;
              formas = d.formas ∙ r.formas;
            },
            c'',
          )
    ]
