-- ===== src/Ram/Physical.antt =====
-- The physical memory of Mi-RAM-HQ/src/memoria/esquemas/segmentacion/segmentacion.c, a list of
-- bytes. `none` is a copy from or to an address outside of it.
pub mod Copies
use tp_2021_1c_en_c_errados.Prelude.{
  ℕ, ◌+◌, List, [], ◌∷◌, Option, none, some, ◌>>=◌, leb, if◌then◌else◌, length, copy_from, splice,
  un32, le32,
}
use tp_2021_1c_en_c_errados.Protocol.Fields.{Pos}

-- `memcpy` to the memory.
unfoldable pub poner : List ℕ → ℕ → List ℕ → Option (List ℕ)
poner mfisica offset bytes =
    if leb (offset + length bytes) (length mfisica)
    then some (splice mfisica offset bytes)
    else none

-- Blocks of bytes copied one behind the other.
unfoldable pub poner_todo : List ℕ → ℕ → List (List ℕ) → Option (List ℕ)
poner_todo mfisica offset [] = some mfisica
poner_todo mfisica offset (b ∷ bs) = do
  escrita ← poner mfisica offset b
  poner_todo escrita (offset + length b) bs

-- `memcpy` within the memory. Where the two ranges overlap the C standard leaves the result open;
-- here the bytes are read before any is written.
unfoldable pub mover : List ℕ → ℕ → ℕ → ℕ → Option (List ℕ)
mover mfisica destino origen n = do bytes ← copy_from mfisica origen n; poner mfisica destino bytes

unfoldable pub leer32 : List ℕ → ℕ → Option ℕ
leer32 mfisica offset = do bytes ← copy_from mfisica offset 4; un32 bytes

-- A new TCB: the tid, the state 'N', the position, the next task and the address of the PCB.
unfoldable pub tcb : ℕ → Pos → List (List ℕ)
tcb tid pos = le32 tid ∷ (78 ∷ []) ∷ le32 pos.x ∷ le32 pos.y ∷ le32 0 ∷ le32 0 ∷ []
