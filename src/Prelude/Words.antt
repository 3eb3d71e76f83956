-- ===== src/Prelude/Words.antt =====
-- The unsigned C integers as native numbers, their bytes in memory (least significant first),
-- and C strings.
use Prim.Native.Nat.{ℕ, suc, ◌+◌, ◌-◌, ◌*◌, ◌/◌, ◌%◌, ◌^◌, ◌<◌}
use mathlib.Core.Path.{◌≡◌, refl}
use mathlib.Core.Logic.{◌≢◌}
use mathlib.Core.List.{List, [], ◌∷◌, ◌++◌}
use mathlib.Core.Option.{Option, none, some}
use native.Mathlib.Omega.{arith}
use tp_2021_1c_en_c_errados.Prelude.Tests.{leb, ◌==◌, if◌then◌else◌, ◌>>=◌}
use tp_2021_1c_en_c_errados.Prelude.Lists.{length, take, drop, All}

abbrev pub u32_mod : ℕ
u32_mod = 2 ^ 32

abbrev pub u64_mod : ℕ
u64_mod = 2 ^ 64

abbrev pub IsByte : ℕ → Type 0
IsByte v = v < 256

abbrev pub IsU32 : ℕ → Type 0
IsU32 v = v < u32_mod

-- A uint32_t `a - b`.
abbrev pub sub32 : ℕ → ℕ → ℕ
sub32 a b = (a + u32_mod - b) % u32_mod

-- The four bytes of a uint32_t.
abbrev pub le32 : ℕ → List ℕ
le32 v = (v % 256) ∷ (v / 256 % 256) ∷ (v / 65536 % 256) ∷ (v / 16777216 % 256) ∷ []

-- The uint32_t that lies in memory.
abbrev pub un32 : List ℕ → Option ℕ
un32 (a ∷ b ∷ c ∷ d ∷ _) = some (a + 256 * b + 65536 * c + 16777216 * d)
un32 _ = none

-- `memcpy` of `n` bytes that start at `off` in a block; outside of the block it is a fault.
unfoldable pub copy_from : List ℕ → ℕ → ℕ → Option (List ℕ)
copy_from block off n =
    if leb (off + n) (length block) then some (take n (drop off block)) else none

-- `strlen`: none is a read past the end of the block.
unfoldable pub strlen : List ℕ → Option ℕ
strlen [] = none
strlen (c ∷ cs) = let rest = strlen cs in if c == 0 then some 0 else rest >>= λ n. some (suc n)

-- The block in which C stores a text.
abbrev pub c_string : List ℕ → List ℕ
c_string s = s ++ 0 ∷ []

-- A text has no zero byte inside.
abbrev pub IsText : List ℕ → Type 0
IsText s = All (λ c. c ≢ 0) s

pub strlen-c_string : (s : List ℕ) → IsText s → strlen (c_string s) ≡ some (length s)
unfolding strlen
strlen-c_string [] h = refl
strlen-c_string (c ∷ cs) h = ground (arith, strlen-c_string cs h.1)
