-- ===== src/Socket/Sends.antt =====
-- What leaves through `u_socket_send` of utils/src/network/socket.c.
use tp_2021_1c_en_c_errados.Prelude.{
  ◌∙◌, ℕ, ◌+◌, ◌-◌, ◌≤◌, ◌<◌, ◌≡◌, refl, List, [], ◌∷◌, ◌++◌, some, arith, length, true, copy_from,
  take, drop, append-nil, length-append, le→leb, take-append, drop-append, ap,
}
use tp_2021_1c_en_c_errados.Socket.{Answer, sent, returned, u_socket_send, send_loop}

-- One round of the loop, when it is the last and when it is not.
send_loop_last :
    (answers : List Answer) (block wire chunk : List ℕ) (at k left : ℕ)
    → copy_from block at k ≡ some chunk
    → left ≤ k
    → send_loop (sent k ∷ answers) block at left wire ≡ returned true (wire ++ chunk)
unfolding send_loop
send_loop_last answers block wire chunk at k left e h = ground arith

send_loop_more :
    (answers : List Answer) (block wire chunk : List ℕ) (at k left : ℕ)
    → copy_from block at k ≡ some chunk
    → k < left
    → send_loop (sent k ∷ answers) block at left wire
      ≡ send_loop answers block k (left - k) (wire ++ chunk)
unfolding send_loop
send_loop_more answers block wire chunk at k left e h = ground arith

copy_from_middle :
    (front s back : List ℕ) → copy_from (front ++ (s ++ back)) (length front) (length s) ≡ some s
unfolding copy_from
copy_from_middle front s back =
    rw
      (le→leb (length front + length s) (length (front ++ (s ++ back)))
        (omega (arith, length-append front (s ++ back), length-append s back)))
      (rw (drop-append (length front) front (s ++ back) refl) (ap some (take-append _ s back refl)))

copy_from_front : (s back : List ℕ) → copy_from (s ++ back) 0 (length s) ≡ some s
copy_from_front s back = copy_from_middle [] s back

copy_from_inside :
    (block : List ℕ) (at n : ℕ)
    → at + n ≤ length block
    → copy_from block at n ≡ some (take n (drop at block))
unfolding copy_from
copy_from_inside block at n h = rw (le→leb (at + n) (length block) h)

copy_from_back : (front s : List ℕ) → copy_from (front ++ s) (length front) (length s) ≡ some s
copy_from_back front s = rw append-nil at (copy_from_middle front s [])

-- If the kernel takes the block at once, or in two parts, the call succeeds and the whole block
-- leaves, in order.
pub u_socket_send_two :
    (front back : List ℕ)
    → 0 < length back
    → (u_socket_send (sent (length (front ++ back)) ∷ []) (front ++ back) (length (front ++ back))
        ≡ returned true (front ++ back))
      × (u_socket_send
            (sent (length front) ∷ sent (length back) ∷ [])
            (front ++ back)
            (length (front ++ back))
          ≡ returned true (front ++ back))
unfolding u_socket_send
u_socket_send_two front back hb =
    let whole = front ++ back in
    let total = length-append front back in
    (
      send_loop_last [] whole [] whole 0 (length whole) (length whole)
          (rw append-nil at (copy_from_front whole [])) (omega arith),
      send_loop_more (sent (length back) ∷ []) whole [] front 0 (length front) (length whole)
            (copy_from_front front back) (omega arith)
          ∙ send_loop_last [] whole front back (length front) (length back)
              (length whole - length front) (copy_from_back front back) (omega arith),
    )

-- If it takes the block in three parts, the call reports success, but what leaves last is not the
-- rest of the block: it is read at the length of the second part, counted from the block's start.
pub u_socket_send_three :
    (a b c : List ℕ)
    → 0 < length b
    → 0 < length c
    → u_socket_send
        (sent (length a) ∷ sent (length b) ∷ sent (length c) ∷ [])
        (a ++ (b ++ c))
        (length (a ++ (b ++ c)))
      ≡ returned true (a ++ b ++ take (length c) (drop (length b) (a ++ (b ++ c))))
unfolding u_socket_send
u_socket_send_three a b c hb hc =
    let whole = a ++ (b ++ c) in
    let total = length-append a (b ++ c) in
    let rest = length-append b c in
    send_loop_more (sent (length b) ∷ sent (length c) ∷ []) whole [] a 0 (length a) (length whole)
      (copy_from_front a (b ++ c)) (omega arith)
    ∙ send_loop_more (sent (length c) ∷ []) whole a b (length a) (length b)
        (length whole - length a) (copy_from_middle a b c) (omega arith)
    ∙ send_loop_last [] whole (a ++ b) (take (length c) (drop (length b) whole)) (length b)
        (length c) (length whole - length a - length b)
        (copy_from_inside whole (length b) (length c) (omega arith)) (omega arith)
