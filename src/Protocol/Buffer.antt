-- ===== src/Protocol/Buffer.antt =====
-- utils/src/protocol/buffer.c: a growing byte buffer. `none` is an abort of the program: a failed
-- U_ASSERT, or a memcpy outside of its block. `content` holds the bytes below `size`; those that
-- `u_realloc` leaves unset above it are not modelled, and nothing reads them.
pub mod Growth
pub mod Contents
use tp_2021_1c_en_c_errados.Prelude.{
  ℕ, zero, suc, ◌+◌, ◌*◌, ◌/◌, ◌%◌, List, [], ◌++◌, Option, none, some, ltb, leb, if◌then◌else◌,
  ◌>>=◌, copy_from, take, u32_mod, u64_mod, le32, un32,
}

pub record Buffer : Type 0 where
  pub size : ℕ
  pub capacity : ℕ
  pub content : List ℕ

abbrev pub create : Buffer
create = record { size = 0; capacity = 0; content = [] }

-- `capacity * 3 / 2 + 1` on a uint32_t.
unfoldable pub next_capacity : ℕ → ℕ
next_capacity c = (c * 3 % u32_mod / 2 + 1) % u32_mod

-- The loop of CHECK_FOR_RESIZE on fuel; `none` means that the fuel ran out.
unfoldable pub grow : ℕ → ℕ → ℕ → Option ℕ
unfolding next_capacity
grow zero capacity required = none
grow (suc fuel) capacity required =
    let rest = grow fuel (next_capacity capacity) required in
    if ltb capacity required then rest else some capacity

-- `u_buffer_write`. The loop is given one round for each byte required and one more.
unfoldable pub write : Buffer → List ℕ → ℕ → Option Buffer
write b source n = do
  let required = (b.size + n) % u64_mod
  capacity ← grow (suc required) b.capacity required
  bytes ← copy_from source 0 n
  some (record {
    size = (b.size + n) % u32_mod;
    capacity = capacity;
    content = take b.size b.content ++ bytes;
  })

-- `u_buffer_read`, with CHECK_OUT_OF_BOUND.
unfoldable pub read : Buffer → ℕ → ℕ → Option (List ℕ)
read b n offset = if leb ((offset + n) % u64_mod) b.size then copy_from b.content offset n else none

-- `u_buffer_duplicate` copies every byte.
abbrev pub duplicate : Buffer → Buffer
duplicate other = record { size = other.size; capacity = other.capacity; content = other.content }

-- A write and a read of a uint32_t variable.
unfoldable pub write32 : Buffer → ℕ → Option Buffer
unfolding write
write32 b v = write b (le32 v) 4

unfoldable pub read32 : Buffer → ℕ → Option ℕ
unfolding read
read32 b offset = do bytes ← read b 4 offset; un32 bytes
