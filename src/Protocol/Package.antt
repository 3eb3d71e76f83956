-- ===== src/Protocol/Package.antt =====
-- utils/src/protocol/package.c: an opcode, the size of the payload, and the payload.
use tp_2021_1c_en_c_errados.Prelude.{
  ℕ, ◌+◌, ◌≤◌, ◌≡◌, List, [], ◌++◌, Option, some, ◌>>=◌, arith, le32, length,
}
use tp_2021_1c_en_c_errados.Protocol.Buffer.{Buffer, create, duplicate, write, write32}
use tp_2021_1c_en_c_errados.Protocol.Buffer.Growth.{limit}
use tp_2021_1c_en_c_errados.Protocol.Buffer.Contents.{
  Holds, create-Holds, write-Holds, write32-Holds,
}

pub record Package : Type 0 where
  pub op_code_msg : ℕ
  pub buffer : Buffer

unfoldable pub package_create : ℕ → Buffer → Package
package_create opcode buffer = record { op_code_msg = opcode; buffer = duplicate buffer }

unfoldable pub package_serialize : Package → Option Buffer
package_serialize p = do
  buffer ← write32 create p.op_code_msg
  buffer ← write32 buffer p.buffer.size
  write buffer p.buffer.content p.buffer.size

-- A package on the wire.
abbrev pub frame : ℕ → List ℕ → List ℕ
frame opcode payload = le32 opcode ++ le32 (length payload) ++ payload

-- A package made of a buffer that holds a payload of at most 1431655757 bytes serialises, and the
-- result holds the opcode, the length of the payload and the payload, in this order.
pub package_serialize-Holds :
    (opcode : ℕ) (b : Buffer) (payload : List ℕ)
    → Holds b payload
    → length payload + 8 ≤ limit
    → (out : Buffer) × (package_serialize (package_create opcode b) ≡ some out)
      × Holds out (frame opcode payload)
unfolding package_serialize package_create
package_serialize-Holds opcode b payload h small =
    rw (h.counted, h.held)
      (let (b0, e0, h0) = write32-Holds create [] opcode create-Holds (omega arith) in
        let (b1, e1, h1) = write32-Holds b0 (le32 opcode) (length payload) h0 (omega arith) in
        let (b2, e2, h2) =
          write-Holds b1 (le32 opcode ++ le32 (length payload)) payload h1 (omega arith) in
        (b2, rw (e0, e1, e2), h2))
