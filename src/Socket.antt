-- ===== src/Socket.antt =====
-- utils/src/network/socket.c: `u_socket_send` and `u_socket_recv`. The kernel is not modelled: how
-- much of each request it takes comes as a list of answers, and what a peer sends is a list of
-- bytes that ends where the connection is closed.
pub mod Sends
pub mod Examples
use tp_2021_1c_en_c_errados.Prelude.{
  ℕ, zero, suc, ◌+◌, ◌-◌, ◌≤◌, ◌<◌, ◌≡◌, ◌≢◌, refl, List, [], ◌∷◌, ◌++◌, Option, none, some, ◌>>=◌,
  arith, length, Bool, true, false, if◌then◌else◌, ltb, leb, copy_from, take, drop, append_assoc,
  append-nil, take_all, length-drop, length-append, le→leb,
}

-- An answer of `send`: the number of bytes taken, or EPIPE or ENOTCONN.
pub data Answer : Type 0 where
  sent : ℕ → Answer
  broken : Answer

-- What a call of `u_socket_send` comes to: its result and the bytes that left, or it still waits
-- for the kernel.
pub data Sending : Type 0 where
  returned : Bool → List ℕ → Sending
  waiting : Sending
  fault : Sending

-- The `do` loop; `wire` holds what has left so far.
send_loop : List Answer → List ℕ → ℕ → ℕ → List ℕ → Sending
send_loop [] block bytes_sended bytes_to_send wire = waiting
send_loop (broken ∷ answers) block bytes_sended bytes_to_send wire = returned false wire
send_loop (sent k ∷ answers) block bytes_sended bytes_to_send wire =
    elim (copy_from block bytes_sended k) [
      | none ↦ fault
      | some chunk ↦
          let more = send_loop answers block k (bytes_to_send - k) (wire ++ chunk) in
          if ltb 0 (bytes_to_send - k) then more else returned true (wire ++ chunk)
    ]

unfoldable pub u_socket_send : List Answer → List ℕ → ℕ → Sending
unfolding send_loop
u_socket_send answers block size = send_loop answers block 0 size []

-- An answer of `u_socket_recv` for a variable of `n` bytes: false at the end of the stream, true
-- with the bytes, or true although the stream ended inside of the variable.
pub data Received : Type 0 where
  closed : Received
  got : List ℕ → List ℕ → Received
  cut : Received

unfoldable pub u_socket_recv : List ℕ → ℕ → Received
u_socket_recv [] n = closed
u_socket_recv (c ∷ stream) zero = closed
u_socket_recv (c ∷ stream) (suc n) =
    if leb (suc n) (length (c ∷ stream))
    then got (take (suc n) (c ∷ stream)) (drop (suc n) (c ∷ stream))
    else cut
