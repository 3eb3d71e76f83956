-- ===== src/Mongo/ClientHandler/Ends.antt =====
-- The fuel of the model of I-Mongo-Store/src/server/client_handler.c is enough on every stream.
use tp_2021_1c_en_c_errados.Prelude.{if◌then◌else◌, subst}
use tp_2021_1c_en_c_errados.Prelude.{
  ℕ, zero, suc, ◌≤◌, ◌<◌, ◌≢◌, List, [], ◌∷◌, ◌++◌, Option, none, some, length, length-drop, drop,
  take, arith, Bool, true, false, leb, un32, ◌>>=◌,
}
use tp_2021_1c_en_c_errados.Socket.{Received, closed, got, cut, u_socket_recv}
use tp_2021_1c_en_c_errados.Protocol.Buffer.{Buffer, create, write}
use tp_2021_1c_en_c_errados.Mongo.ClientHandler.{
  Request, Outcome, ended, aborted, cut_off, out_of_fuel, Handled, handled, failed, incomplete,
  is_valid_opcode, deserialize_msg, dispatch, get_msg, sized, check_opcode, headed, handler_loop,
  handler_task,
}

-- At most `n` bytes are left.
abbrev Leaves : Handled → ℕ → Type 0
Leaves (handled left requests) n = length left ≤ n
Leaves failed n = Unit {0}
Leaves incomplete n = Unit {0}

-- What a read that succeeds leaves is shorter.
abbrev Takes : Received → ℕ → Type 0
Takes (got word rest) n = length rest < n
Takes _ n = Unit {0}

Leaves-more : (h : Handled) (n k : ℕ) → Leaves h n → n ≤ k → Leaves h k
Leaves-more (handled left requests) n k l le = omega arith
Leaves-more failed n k l le = tt
Leaves-more incomplete n k l le = tt

if_got-Takes :
    (enough : Bool) (word rest : List ℕ) (n : ℕ)
    → length rest < n
    → Takes (if enough then got word rest else cut) n
if_got-Takes true word rest n h = h
if_got-Takes false word rest n h = tt

u_socket_recv-Takes : (stream : List ℕ) (n : ℕ) → Takes (u_socket_recv stream n) (length stream)
unfolding u_socket_recv
u_socket_recv-Takes [] n = tt
u_socket_recv-Takes (c ∷ stream) zero = tt
u_socket_recv-Takes (c ∷ stream) (suc n) =
    if_got-Takes (leb (suc n) (length (c ∷ stream))) (c ∷ take n stream) (drop n stream)
      (suc (length stream)) (omega (arith, length-drop n stream))

dispatch-Leaves :
    (op : ℕ) (buffer : Option Buffer) (rest : List ℕ)
    → Leaves (dispatch op buffer rest) (length rest)
unfolding dispatch
dispatch-Leaves op buffer rest = requested (buffer >>= deserialize_msg op)
  where
    requested :
        (r : Option Request)
        → Leaves
            (elim r [ none ↦ failed | some request ↦ handled rest (request ∷ []) ])
            (length rest)
    requested none = tt
    requested (some request) = omega arith

get_msg-Leaves : (stream : List ℕ) (op n : ℕ) → Leaves (get_msg stream op n) (length stream)
unfolding get_msg
get_msg-Leaves stream op n = taken (u_socket_recv stream n) (u_socket_recv-Takes stream n)
  where
    taken :
        (r : Received)
        → Takes r (length stream)
        → Leaves
            (elim r [
              | closed ↦ handled stream []
              | got msg rest ↦ dispatch op (write create msg n) rest
              | cut ↦ incomplete
            ])
            (length stream)
    taken closed h = omega arith
    taken (got msg rest) h =
        Leaves-more (dispatch op (write create msg n) rest) (length rest) (length stream)
          (dispatch-Leaves op (write create msg n) rest) (omega arith)
    taken cut h = tt

sized-Leaves : (word rest : List ℕ) (op : ℕ) → Leaves (sized word rest op) (length rest)
unfolding sized
sized-Leaves word rest op = read (un32 word)
  where
    read :
        (n : Option ℕ)
        → Leaves (elim n [ none ↦ failed | some n ↦ get_msg rest op n ]) (length rest)
    read none = tt
    read (some n) = get_msg-Leaves rest op n

if-Leaves :
    (valid : Bool) (h1 h2 : Handled) (n : ℕ)
    → Leaves h1 n
    → Leaves h2 n
    → Leaves (if valid then h1 else h2) n
if-Leaves true h1 h2 n l1 l2 = l1
if-Leaves false h1 h2 n l1 l2 = l2

check_opcode-Leaves : (stream : List ℕ) (op : ℕ) → Leaves (check_opcode stream op) (length stream)
unfolding check_opcode
check_opcode-Leaves stream op =
    if-Leaves (is_valid_opcode op) (read (u_socket_recv stream 4)) (handled stream [])
      (length stream) (taken (u_socket_recv stream 4) (u_socket_recv-Takes stream 4)) (omega arith)
  where
    read : Received → Handled
    read closed = handled stream []
    read (got word rest) = sized word rest op
    read cut = incomplete

    taken : (r : Received) → Takes r (length stream) → Leaves (read r) (length stream)
    taken closed h = omega arith
    taken (got word rest) h =
        Leaves-more (sized word rest op) (length rest) (length stream) (sized-Leaves word rest op)
          (omega arith)
    taken cut h = tt

headed-Leaves : (word rest : List ℕ) → Leaves (headed word rest) (length rest)
unfolding headed
headed-Leaves word rest = read (un32 word)
  where
    read :
        (n : Option ℕ)
        → Leaves (elim n [ none ↦ failed | some opcode ↦ check_opcode rest opcode ]) (length rest)
    read none = tt
    read (some opcode) = check_opcode-Leaves rest opcode

-- It does not run out of fuel.
abbrev IsOver : Outcome → Type 0
IsOver out_of_fuel = ⊥
IsOver _ = Unit {0}

handler_loop-IsOver :
    (fuel : ℕ) (stream : List ℕ) (before : List Request)
    → length stream < fuel
    → IsOver (handler_loop fuel stream before)
unfolding handler_loop
handler_loop-IsOver zero stream before h = absurd (omega arith)
handler_loop-IsOver (suc fuel) stream before h =
    taken (λ left requests l. handler_loop-IsOver fuel left (before ++ requests) l)
      (u_socket_recv stream 4) (u_socket_recv-Takes stream 4)
  where
    next : Handled → Outcome
    next (handled left requests) = handler_loop fuel left (before ++ requests)
    next failed = aborted before
    next incomplete = cut_off before

    round : Received → Outcome
    round closed = ended before
    round (got word rest) = next (headed word rest)
    round cut = cut_off before

    Later : Type 0
    Later =
        (left : List ℕ) (requests : List Request)
        → length left < fuel
        → IsOver (handler_loop fuel left (before ++ requests))

    going : Later → (r : Handled) (n : ℕ) → Leaves r n → n < fuel → IsOver (next r)
    going later (handled left requests) n l p = later left requests (omega arith)
    going later failed n l p = tt
    going later incomplete n l p = tt

    taken : Later → (r : Received) → Takes r (length stream) → IsOver (round r)
    taken later closed t = tt
    taken later (got word rest) t =
        going later (headed word rest) (length rest) (headed-Leaves word rest) (omega arith)
    taken later cut t = tt

-- The length of the stream and one more is fuel enough for any bytes, well formed or not.
pub handler_task_ends : (stream : List ℕ) → handler_task stream ≢ out_of_fuel
unfolding handler_task
handler_task_ends stream e =
    subst IsOver e (handler_loop-IsOver (suc (length stream)) stream [] (omega arith))
