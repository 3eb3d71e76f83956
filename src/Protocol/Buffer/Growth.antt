-- ===== src/Protocol/Buffer/Growth.antt =====
-- The resize loop of utils/src/protocol/buffer.c: it ends, and makes room.
use tp_2021_1c_en_c_errados.Prelude.{
  ℕ, zero, suc, ◌+◌, ◌*◌, ◌/◌, ◌-◌, ◌≤◌, ◌<◌, ◌≡◌, some, arith, Bool-cases, inl, inr, ltb,
}
use tp_2021_1c_en_c_errados.Protocol.Buffer.{next_capacity, grow}

-- Up to here `capacity * 3` does not wrap: 2 ^ 32 / 3.
abbrev pub limit : ℕ
limit = 1431655765

next_capacity_grows :
    (c : ℕ) → c < limit → (c < next_capacity c) × (next_capacity c ≡ c * 3 / 2 + 1)
unfolding next_capacity
next_capacity_grows c h = omega arith

-- Whatever the capacity is, the resize loop ends for every request up to 1431655765 bytes: as
-- many rounds as bytes are missing, and one, are enough. The capacity that it leaves has room for
-- the request and is not smaller than the capacity before.
pub grow_enough :
    (fuel c required : ℕ)
    → required ≤ limit
    → required - c < fuel
    → (c' : ℕ) × (grow fuel c required ≡ some c') × (required ≤ c') × (c ≤ c')
unfolding grow
grow_enough zero c required small enough = absurd (omega arith)
grow_enough (suc fuel) c required small enough = elim (Bool-cases (ltb c required)) [
  | inl more ↦
      let (up, _) = next_capacity_grows c (ground arith) in
      let (c', found, room, wider) =
        grow_enough fuel (next_capacity c) required small (ground arith) in
      (c', rw more found, room, omega arith)
  | inr done ↦ (c, rw done, ground arith, omega arith)
]
