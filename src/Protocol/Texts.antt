-- ===== src/Protocol/Texts.antt =====
-- C texts in messages: `strdup`, and a block that a length and the text's bytes are written from.
use tp_2021_1c_en_c_errados.Prelude.{
  ℕ, ◌+◌, ◌≤◌, ◌≡◌, refl, List, [], ◌∷◌, ◌++◌, Option, some, ◌>>=◌, arith, length, take_all, ap,
  strlen, copy_from, c_string, IsText, strlen-c_string, length-append, append-nil, le→leb,
}
use tp_2021_1c_en_c_errados.Protocol.Buffer.{Buffer, read}
use tp_2021_1c_en_c_errados.Protocol.Buffer.Growth.{limit}
use tp_2021_1c_en_c_errados.Protocol.Buffer.Contents.{Holds, read-Holds}

-- `strdup` of the text in a block.
unfoldable pub strdup : List ℕ → Option (List ℕ)
strdup block = do n ← strlen block; copy_from block 0 (n + 1)

-- A block that holds one text, its zero byte included, and nothing behind it.
pub record IsStored (block : List ℕ) : Type 0 where
  pub text : List ℕ
  pub is_text : IsText text
  pub stored : block ≡ c_string text

abbrev pub stored : (s : List ℕ) → IsText s → IsStored (c_string s)
stored s h = record { text = s; is_text = h; stored = refl }

pub strlen-IsStored :
    {block : List ℕ} → IsStored block → (n : ℕ) × (strlen block ≡ some n) × (n + 1 ≡ length block)
strlen-IsStored {block} s = (
  length s.text,
  rw (s.stored) (strlen-c_string s.text s.is_text),
  rw (s.stored) (omega (arith, length-append s.text (0 ∷ []))),
)

-- The copy of a stored text is that text, whatever lies behind it.
pub strdup-c_string : (s : List ℕ) → IsText s → strdup (c_string s) ≡ some (c_string s)
unfolding strdup copy_from
strdup-c_string s h =
    let e : length s + 1 ≡ length (c_string s) = omega (arith, length-append s (0 ∷ [])) in
    rw (strlen-c_string s h) (
      rw (le→leb (0 + (length s + 1)) (length (c_string s)) (omega arith))
        (ap some (take_all (length s + 1) (c_string s) (omega arith))))

pub read_last-Holds :
    (b : Buffer) (front s : List ℕ)
    → Holds b (front ++ s)
    → length front + length s ≤ limit
    → read b (length s) (length front) ≡ some s
read_last-Holds b front s h small = read-Holds b front s [] (rw append-nil h) small
