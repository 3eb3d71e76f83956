-- ===== src/Protocol/Messages/ListaTripulantes.antt =====
-- utils/src/protocol/messages/lista_tripulantes.c
use tp_2021_1c_en_c_errados.Prelude.{
  ℕ, zero, suc, ◌+◌, ◌*◌, ◌≤◌, ◌≡◌, refl, sym, ◌∙◌, ap, List, [], ◌∷◌, ◌++◌, append_assoc,
  append-nil, Option, some, ◌>>=◌, arith, le32, IsU32, IsByte, length, length-append, All,
}
use tp_2021_1c_en_c_errados.Protocol.Buffer.{Buffer, create, write32, read32}
use tp_2021_1c_en_c_errados.Protocol.Buffer.Growth.{limit}
use tp_2021_1c_en_c_errados.Protocol.Buffer.Contents.{
  Holds, Holds-eq, read32_at, create-Holds, write32-Holds, read32-Holds,
}
use tp_2021_1c_en_c_errados.Protocol.Fields.{
  write_char, read_char, write_char-Holds, read_char-Holds,
}

pub record TripulanteInfo : Type 0 where
  pub pid : ℕ
  pub tid : ℕ
  pub estado : ℕ

pub record Message : Type 0 where
  pub tripulantes : List TripulanteInfo

abbrev pub crear : Message
crear = record { tripulantes = [] }

-- `list_add` puts the copy at the end.
unfoldable pub agregar : Message → TripulanteInfo → Message
agregar m trip = record { tripulantes = m.tripulantes ++ trip ∷ [] }

write_in_buffer : Buffer → TripulanteInfo → Option Buffer
write_in_buffer buffer trip = do
  buffer ← write32 buffer trip.pid
  buffer ← write32 buffer trip.tid
  write_char buffer trip.estado

-- `list_iterate` with `_write_in_buffer`.
write_each : Buffer → List TripulanteInfo → Option Buffer
write_each buffer [] = some buffer
write_each buffer (trip ∷ trips) = do buffer ← write_in_buffer buffer trip; write_each buffer trips

unfoldable pub serialize : Message → Option Buffer
unfolding write_each write_in_buffer
serialize m = do buffer ← write32 create (length m.tripulantes); write_each buffer m.tripulantes

read_trip : Buffer → ℕ → Option TripulanteInfo
read_trip buffer offset = do
  pid ← read32 buffer offset
  tid ← read32 buffer (offset + 4)
  estado ← read_char buffer (offset + 8)
  some (record { pid = pid; tid = tid; estado = estado })

-- The loop of `deserialize` from `offset` on, with the rounds that are left.
read_each : Buffer → ℕ → ℕ → Message → Option Message
unfolding agregar
read_each buffer zero offset m = some m
read_each buffer (suc left) offset m = do
  trip ← read_trip buffer offset
  read_each buffer left (offset + 9) (agregar m trip)

unfoldable pub deserialize : Buffer → Option Message
unfolding read_each read_trip
deserialize buffer = do cant_trip ← read32 buffer 0; read_each buffer cant_trip 4 crear

pub record IsInfo (t : TripulanteInfo) : Type 0 where
  pub pid_fits : IsU32 t.pid
  pub tid_fits : IsU32 t.tid
  pub estado_fits : IsByte t.estado

pub record IsValid (m : Message) : Type 0 where
  pub infos : All IsInfo m.tripulantes
  pub short : length m.tripulantes * 9 + 4 ≤ limit

abbrev pub trip_bytes : TripulanteInfo → List ℕ
trip_bytes t = le32 t.pid ++ le32 t.tid ++ t.estado ∷ []

abbrev pub trips_bytes : List TripulanteInfo → List ℕ
trips_bytes [] = []
trips_bytes (t ∷ ts) = trip_bytes t ++ trips_bytes ts

-- The message on the wire.
abbrev pub bytes : Message → List ℕ
bytes m = le32 (length m.tripulantes) ++ trips_bytes m.tripulantes

write_in_buffer-Holds :
    (b : Buffer) (front : List ℕ) (t : TripulanteInfo)
    → Holds b front
    → length front + 9 ≤ limit
    → (b' : Buffer) × (write_in_buffer b t ≡ some b') × Holds b' (front ++ trip_bytes t)
unfolding write_in_buffer
write_in_buffer-Holds b front t h small =
    let (b0, e0, h0) = write32-Holds b front t.pid h (omega arith) in
    let (b1, e1, h1) =
      write32-Holds b0 (front ++ le32 t.pid) t.tid h0
        (omega (arith, length-append front (le32 t.pid))) in
    let (b2, e2, h2) = write_char-Holds b1 (front ++ le32 t.pid ++ le32 t.tid) t.estado h1 (
      omega (
        arith,
        length-append front (le32 t.pid),
        length-append (front ++ le32 t.pid) (le32 t.tid),
      )) in
    (
      b2,
      rw (e0, e1, e2),
      Holds-eq
          (append_assoc (front ++ le32 t.pid) (le32 t.tid) (t.estado ∷ [])
            ∙ append_assoc front (le32 t.pid) (le32 t.tid ++ t.estado ∷ []))
          h2,
    )

write_each-Holds :
    (b : Buffer) (front : List ℕ) (ts : List TripulanteInfo)
    → Holds b front
    → length front + length ts * 9 ≤ limit
    → (b' : Buffer) × (write_each b ts ≡ some b') × Holds b' (front ++ trips_bytes ts)
unfolding write_each
write_each-Holds b front [] h small = (b, refl, rw append-nil h)
write_each-Holds b front (t ∷ ts) h small =
    let (b0, e0, h0) = write_in_buffer-Holds b front t h (omega arith) in
    let (b1, e1, h1) =
      write_each-Holds b0 (front ++ trip_bytes t) ts h0
        (omega (arith, length-append front (trip_bytes t))) in
    (b1, rw e0 e1, Holds-eq (append_assoc front (trip_bytes t) (trips_bytes ts)) h1)

pub serializar-Holds :
    (m : Message) → IsValid m → (b : Buffer) × (serialize m ≡ some b) × Holds b (bytes m)
unfolding serialize
serializar-Holds m v =
    let (b0, e0, h0) = write32-Holds create [] (length m.tripulantes) create-Holds (omega arith) in
    let (b1, e1, h1) =
      write_each-Holds b0 (le32 (length m.tripulantes)) m.tripulantes h0 (omega (arith, v.short)) in
    (b1, rw e0 e1, h1)

read_trip-Holds :
    (b : Buffer) (front : List ℕ) (t : TripulanteInfo) (back : List ℕ)
    → Holds b (front ++ (trip_bytes t ++ back))
    → length front + 9 ≤ limit
    → IsInfo t
    → read_trip b (length front) ≡ some t
unfolding read_trip
read_trip-Holds b front t back h small v =
    let fore : List ℕ = front ++ le32 t.pid in
    let fore_length : length fore ≡ length front + 4 =
      omega (arith, length-append front (le32 t.pid)) in
    let h1 : Holds b (fore ++ (le32 t.tid ++ (t.estado ∷ back))) =
      Holds-eq (sym (append_assoc front (le32 t.pid) _)) h in
    let h2 : Holds b ((fore ++ le32 t.tid) ++ (t.estado ∷ back)) =
      Holds-eq (sym (append_assoc fore (le32 t.tid) _)) h1 in
    let e2 : length front + 8 ≡ length (fore ++ le32 t.tid) =
      omega (arith, length-append fore (le32 t.tid), fore_length) in
    rw (
      read32-Holds b front t.pid _ h (omega arith) v.pid_fits,
      read32_at b fore t.tid _ (length front + 4) (sym fore_length) h1 (omega arith) v.tid_fits,
      e2,
      read_char-Holds b (fore ++ le32 t.tid) t.estado back h2 (omega arith) v.estado_fits,
    )

read_each-Holds :
    (b : Buffer) (front : List ℕ) (ts done : List TripulanteInfo) (offset : ℕ)
    → offset ≡ length front
    → Holds b (front ++ trips_bytes ts)
    → length front + length ts * 9 ≤ limit
    → All IsInfo ts
    → read_each b (length ts) offset (record { tripulantes = done })
      ≡ some (record { tripulantes = done ++ ts })
unfolding read_each
read_each-Holds b front [] done offset at_front h small v = rw append-nil
read_each-Holds b front (t ∷ ts) done offset at_front h small v =
    let h1 : Holds b (front ++ trip_bytes t ++ trips_bytes ts) =
      Holds-eq (sym (append_assoc front (trip_bytes t) (trips_bytes ts))) h in
    let e : offset + 9 ≡ length (front ++ trip_bytes t) =
      omega (arith, length-append front (trip_bytes t)) in
    rw (at_front, read_trip-Holds b front t (trips_bytes ts) h (omega arith) v.0)
      (rw (← at_front, agregar)
        (read_each-Holds b (front ++ trip_bytes t) ts (done ++ t ∷ []) (offset + 9) e h1
            (omega (arith, e)) v.1
          ∙ ap (λ (l : List TripulanteInfo). some (record { tripulantes = l }))
              (append_assoc done (t ∷ []) ts)))

pub deserializar-Holds :
    (m : Message) (b : Buffer) → IsValid m → Holds b (bytes m) → deserialize b ≡ some m
unfolding deserialize
deserializar-Holds m b v h =
    rw
      (read32-Holds b [] (length m.tripulantes) (trips_bytes m.tripulantes) h (omega arith)
        (omega (arith, v.short)))
      (read_each-Holds b (le32 (length m.tripulantes)) m.tripulantes [] 4 refl h
        (omega (arith, v.short)) v.infos)
