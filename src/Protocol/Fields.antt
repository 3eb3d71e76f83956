-- ===== src/Protocol/Fields.antt =====
-- The fields of messages that are no uint32_t: a `u_pos_t` (utils/typedefs.h) and a `char`.
use tp_2021_1c_en_c_errados.Prelude.{
  ℕ, ◌+◌, ◌≤◌, ◌≡◌, List, [], ◌∷◌, ◌++◌, Option, none, some, ◌>>=◌, arith, le32, un32, IsU32,
  IsByte, drop, length,
}
use tp_2021_1c_en_c_errados.Protocol.Buffer.{Buffer, write, read}
use tp_2021_1c_en_c_errados.Protocol.Buffer.Growth.{limit}
use tp_2021_1c_en_c_errados.Protocol.Buffer.Contents.{Holds, write-Holds, read-Holds}

pub record Pos : Type 0 where
  pub x : ℕ
  pub y : ℕ

pub record IsPos (p : Pos) : Type 0 where
  pub x_fits : IsU32 p.x
  pub y_fits : IsU32 p.y

abbrev pub pos_bytes : Pos → List ℕ
pos_bytes p = le32 p.x ++ le32 p.y

unfoldable pub write_pos : Buffer → Pos → Option Buffer
write_pos b p = write b (pos_bytes p) 8

unfoldable pub read_pos : Buffer → ℕ → Option Pos
read_pos b offset = do
  bytes ← read b 8 offset
  x ← un32 bytes
  y ← un32 (drop 4 bytes)
  some (record { x = x; y = y })

abbrev first_byte : List ℕ → Option ℕ
first_byte [] = none
first_byte (c ∷ cs) = some c

unfoldable pub write_char : Buffer → ℕ → Option Buffer
write_char b c = write b (c ∷ []) 1

unfoldable pub read_char : Buffer → ℕ → Option ℕ
read_char b offset = do bytes ← read b 1 offset; first_byte bytes

pub write_pos-Holds :
    (b : Buffer) (bytes : List ℕ) (p : Pos)
    → Holds b bytes
    → length bytes + 8 ≤ limit
    → (b' : Buffer) × (write_pos b p ≡ some b') × Holds b' (bytes ++ pos_bytes p)
unfolding write_pos
write_pos-Holds b bytes p h fits = write-Holds b bytes (pos_bytes p) h fits

pub read_pos-Holds :
    (b : Buffer) (front : List ℕ) (p : Pos) (back : List ℕ)
    → Holds b (front ++ (pos_bytes p ++ back))
    → length front + 8 ≤ limit
    → IsPos p
    → read_pos b (length front) ≡ some p
unfolding read_pos
read_pos-Holds b front p back h small v =
    rw (read-Holds b front (pos_bytes p) back h small) (ground arith)

pub write_char-Holds :
    (b : Buffer) (bytes : List ℕ) (c : ℕ)
    → Holds b bytes
    → length bytes + 1 ≤ limit
    → (b' : Buffer) × (write_char b c ≡ some b') × Holds b' (bytes ++ c ∷ [])
unfolding write_char
write_char-Holds b bytes c h fits = write-Holds b bytes (c ∷ []) h fits

pub read_char-Holds :
    (b : Buffer) (front : List ℕ) (c : ℕ) (back : List ℕ)
    → Holds b (front ++ (c ∷ back))
    → length front + 1 ≤ limit
    → IsByte c
    → read_char b (length front) ≡ some c
unfolding read_char
read_char-Holds b front c back h small v = rw (read-Holds b front (c ∷ []) back h small)
