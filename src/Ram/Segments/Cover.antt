-- ===== src/Ram/Segments/Cover.antt =====
-- What the list of segments of Mi-RAM-HQ/src/memoria/esquemas/segmentacion/segmentacion.c says of
-- each address of the memory, whatever the order of the list.
use tp_2021_1c_en_c_errados.Prelude.{
  suma, suma_le, ℕ, ◌+◌, ◌≤◌, ◌<◌, ◌≡◌, List, Bool, ◌&&◌, ltb, leb, if◌then◌else◌, arith,
}
use tp_2021_1c_en_c_errados.Ram.Segments.{Segmento, es_libre}
use tp_2021_1c_en_c_errados.Ram.Segments.Fit.{Inside}

-- The sum of a number over the segments.
abbrev pub dentro : ℕ → Segmento → Bool
dentro a s = leb s.inicio a && ltb a (s.inicio + s.tamanio)

-- How many segments, and how many free ones, an address lies in; how many bytes are free.
abbrev pub uno_dentro : ℕ → Segmento → ℕ
uno_dentro a s = if dentro a s then 1 else 0

abbrev pub libre_dentro : ℕ → Segmento → ℕ
libre_dentro a s = if es_libre s && dentro a s then 1 else 0

abbrev pub bytes_libres : Segmento → ℕ
bytes_libres s = if es_libre s then s.tamanio else 0

-- The segments lie in a memory of less than 2^31 bytes, none is empty, their sizes add up to the
-- memory, and each address is in one.
pub record IsPartition (memoria : ℕ) (ss : List Segmento) : Type 0 where
  pub small : memoria < 2147483648
  pub inside : Inside memoria ss
  pub total : suma (λ s. s.tamanio) ss ≡ memoria
  pub once : (a : ℕ) → a < memoria → suma (uno_dentro a) ss ≡ 1

abbrev pub EstaLibre : List Segmento → ℕ → Type 0
EstaLibre ss a = 0 < suma (libre_dentro a) ss

pub libre-le-uno : (a : ℕ) (ss : List Segmento) → suma (libre_dentro a) ss ≤ suma (uno_dentro a) ss
libre-le-uno a ss = suma_le (libre_dentro a) (uno_dentro a) ss λ s. ground arith

pub bytes-le-memoria :
    (memoria : ℕ) (ss : List Segmento) → IsPartition memoria ss → suma bytes_libres ss ≤ memoria
bytes-le-memoria memoria ss p =
    omega (arith, suma_le bytes_libres (λ s. s.tamanio) ss (λ s. ground arith), p.total)
