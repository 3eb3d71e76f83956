-- ===== src/Protocol/Buffer/Contents.antt =====
-- What a buffer of utils/src/protocol/buffer.c holds after a row of writes, and what reads give
-- back.
use tp_2021_1c_en_c_errados.Prelude.{
  ℕ, suc, ◌+◌, ◌%◌, ◌≤◌, ◌≡◌, refl, some, List, [], ◌++◌, arith, length, length-append, take_all,
  take, take-append, drop-append, copy_from, IsU32, le32, un32, le→leb, subst, ap,
}
use tp_2021_1c_en_c_errados.Protocol.Buffer.{Buffer, create, write, read, write32, read32}
use tp_2021_1c_en_c_errados.Protocol.Buffer.Growth.{limit, grow_enough}

-- The buffer holds exactly these bytes, and they fit its block.
pub record Holds (b : Buffer) (bytes : List ℕ) : Type 0 where
  pub held : b.content ≡ bytes
  pub counted : b.size ≡ length bytes
  pub allocated : b.size ≤ b.capacity

pub create-Holds : Holds create []
create-Holds = record { held = refl; counted = refl; allocated = omega arith }

copy_from_all : (s : List ℕ) → copy_from s 0 (length s) ≡ some s
unfolding copy_from
copy_from_all s =
    rw (le→leb (0 + length s) (length s) (omega arith)) (ap some (take_all _ s (omega arith)))

-- A write to a well-formed buffer succeeds as long as the total stays below the limit; it appends
-- the bytes, keeps the earlier ones, and leaves the buffer well formed.
pub write-Holds :
    (b : Buffer) (bytes s : List ℕ)
    → Holds b bytes
    → length bytes + length s ≤ limit
    → (b' : Buffer) × (write b s (length s) ≡ some b') × Holds b' (bytes ++ s)
unfolding write
write-Holds b bytes s h fits =
    let (c, found, room, _) =
      grow_enough (suc ((b.size + length s) % 18446744073709551616)) b.capacity
        ((b.size + length s) % 18446744073709551616) (omega arith) (omega arith) in
    (
      record {
        size = (b.size + length s) % 4294967296;
        capacity = c;
        content = take b.size b.content ++ s;
      },
      rw (found, copy_from_all s),
      record {
        held = rw (h.held, take_all b.size bytes (omega arith));
        counted = omega (arith, length-append bytes s);
        allocated = omega arith;
      },
    )

-- A read inside of a well-formed buffer gives the bytes that stand there.
pub read-Holds :
    (b : Buffer) (front s back : List ℕ)
    → Holds b (front ++ (s ++ back))
    → length front + length s ≤ limit
    → read b (length s) (length front) ≡ some s
unfolding read copy_from
read-Holds b front s back h small =
    let all : length (front ++ (s ++ back)) ≡ length front + length s + length back =
      omega (arith, length-append front (s ++ back), length-append s back) in
    rw (h.held) (
      rw
        (le→leb ((length front + length s) % 18446744073709551616) b.size
          (omega (arith, h.counted)))
        (rw (le→leb (length front + length s) (length (front ++ (s ++ back))) (omega arith)) (
          rw (drop-append (length front) front (s ++ back) refl)
            (ap some (take-append (length s) s back refl)))))

pub write32-Holds :
    (b : Buffer) (bytes : List ℕ) (v : ℕ)
    → Holds b bytes
    → length bytes + 4 ≤ limit
    → (b' : Buffer) × (write32 b v ≡ some b') × Holds b' (bytes ++ le32 v)
unfolding write32
write32-Holds b bytes v h fits = write-Holds b bytes (le32 v) h fits

un32-le32 : (v : ℕ) (back : List ℕ) → IsU32 v → un32 (le32 v ++ back) ≡ some v
un32-le32 v back h = ap some (omega arith)

pub read32-Holds :
    (b : Buffer) (front : List ℕ) (v : ℕ) (back : List ℕ)
    → Holds b (front ++ (le32 v ++ back))
    → length front + 4 ≤ limit
    → IsU32 v
    → read32 b (length front) ≡ some v
unfolding read32
read32-Holds b front v back h small word =
    rw (read-Holds b front (le32 v) back h small) (ap some (omega arith))

-- The same bytes, bracketed otherwise.
pub Holds-eq : {b : Buffer} {xs ys : List ℕ} → xs ≡ ys → Holds b xs → Holds b ys
Holds-eq {b} e h = subst (Holds b) e h

-- A uint32_t at a computed offset.
pub read32_at :
    (b : Buffer) (front : List ℕ) (v : ℕ) (back : List ℕ) (offset : ℕ)
    → offset ≡ length front
    → Holds b (front ++ (le32 v ++ back))
    → offset + 4 ≤ limit
    → IsU32 v
    → read32 b offset ≡ some v
read32_at b front v back offset at_front h small word =
    rw at_front (read32-Holds b front v back h (omega arith) word)
