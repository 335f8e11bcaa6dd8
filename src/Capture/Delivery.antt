-- ===== src/Capture/Delivery.antt =====
-- The bytes that the capture program reads arrive at the server's processor, in order.
use dgnss_server.Common.{
  ℕ, zero, suc, ◌%◌, ◌≤◌, ◌<◌, ◌^◌, ◌≡◌, inl, inr, refl, ◌∙◌, ap, subst, arith, Bool, true, false,
  some, List, [], ◌∷◌, ◌++◌, length, All, ltb, ◌==◌, if◌then◌else◌, ◌||◌, ==_iff, Bool-cases,
}
use dgnss_server.Double.{Double}
use dgnss_server.Time.{GTime}
use dgnss_server.Assist.{Assist, assist_data_input}
use dgnss_server.Assist.Init.{assist_data_init}
use dgnss_server.Comn.ByteBuffer.{new_byte_buffer}
use dgnss_server.Comn.ByteBuffer.Contents.{contents, IsByteBuffer, write_bytes-IsWritten}
use dgnss_server.Server.{AgnssFrameHeader, find}
use dgnss_server.Capture.{
  SinkMessage, Connection, ConnMap, CaptureEvent, connected, received, ended, find_conn, set_conn,
  create_connection, on_open, on_close, on_read, process_data, fire_result, write_status,
  write_data, copy_str, listener_callback, read_callback, on_event, capture,
}
use dgnss_server.Capture.Arrival.{IsFrom, IsHeader, fed, assist_of, deliver, deliver_lem}
use dgnss_server.Capture.Closing.{find_conn-set_conn, find_conn-set_conn_ne, closed, ended_lem}

-- Sockets are in use from their connection to the end of their streams, and only then read, fewer
-- than 2^31 bytes at a time; and the times are those of a time_t.
abbrev others : ℕ → List ℕ → List ℕ
others fd [] = []
others fd (k ∷ ks) = if k == fd then others fd ks else k ∷ others fd ks

abbrev is_in : ℕ → List ℕ → Bool
is_in fd [] = false
is_in fd (k ∷ ks) = k == fd || is_in fd ks

abbrev pub InOrder : List ℕ → List CaptureEvent → Type 0
InOrder used [] = Unit
InOrder used (connected fd info time ∷ es) =
    (is_in fd used ≡ false) × (time < 2 ^ 63) × InOrder (fd ∷ used) es
InOrder used (received fd bytes time ∷ es) =
    (is_in fd used ≡ true) × (time < 2 ^ 63) × (length bytes < 2 ^ 31) × InOrder used es
InOrder used (ended fd info time ∷ es) =
    (is_in fd used ≡ true) × (time < 2 ^ 63) × InOrder (others fd used) es

-- The name of a device that a header can hold.
pub record IsDevice (device : List ℕ) : Type 0 where
  pub named : All (λ (c : ℕ). (1 ≤ c) × (c < 256)) device
  pub short : length device ≤ 31

module _ {F : Type 0} ⦃d : Double F⦄ where
  -- What the bytes that are read make of a state, each piece at the clock of its time.
  unfoldable pub fed_events : (ℕ → GTime F) → List CaptureEvent → Assist F → Assist F
  fed_events clock [] s = s
  fed_events clock (connected fd info time ∷ es) s = fed_events clock es s
  fed_events clock (received fd bytes time ∷ es) s =
      fed_events clock es (assist_data_input (clock time) s bytes)
  fed_events clock (ended fd info time ∷ es) s = fed_events clock es s

copy_str_all :
    (room : ℕ) (src : List ℕ)
    → length src ≤ room
    → All (λ (c : ℕ). (1 ≤ c) × (c < 256)) src
    → copy_str room src ≡ src
unfolding copy_str
copy_str_all zero [] h k = refl
copy_str_all zero (c ∷ cs) h k = absurd (omega arith)
copy_str_all (suc room) [] h k = refl
copy_str_all (suc room) (c ∷ cs) h k =
    let some_char : (c == 0) ≡ false = ground (arith, k.0.0) in
    rw some_char (ap (λ (t : List ℕ). c ∷ t) (copy_str_all room cs (omega arith) k.1))

-- Each socket in use has its open connection for the device.
abbrev IsOpen : List ℕ → ConnMap → ℕ → Type 0
IsOpen device conns fd =
    (c : Connection) × (find_conn fd conns ≡ some c)
    × (c.device ≡ device)
    × (c.device_type ≡ 0)
    × (c.has_bev ≡ true)
    × (c.has_server ≡ true)

is_in-holds : (P : ℕ → Type 0) (fd : ℕ) (used : List ℕ) → All P used → is_in fd used ≡ true → P fd
is_in-holds P fd [] h e = absurd (cc)
is_in-holds P fd (k ∷ ks) h e = elim (Bool-cases (k == fd)) [
  | inl same ↦ subst P ((==_iff k fd).0 same) h.0
  | inr other ↦ is_in-holds P fd ks h.1 (rw other at e)
]

-- A change of one connection leaves the others open.
IsOpen-set_conn :
    (device : List ℕ) (fd : ℕ) (c : Connection) (conns : ConnMap) (k : ℕ)
    → (k == fd) ≡ false
    → IsOpen device conns k
    → IsOpen device (set_conn fd c conns) k
IsOpen-set_conn device fd c conns k other (o, there, name, type, bev, server) = (
  o,
  find_conn-set_conn_ne fd k c conns (λ e. ground (arith, e, other)) ∙ there,
  name,
  type,
  bev,
  server,
)

All-others :
    (device : List ℕ) (fd : ℕ) (c : Connection) (conns : ConnMap) (used : List ℕ)
    → All (IsOpen device conns) used
    → All (IsOpen device (set_conn fd c conns)) (others fd used)
All-others device fd c conns [] h = tt
All-others device fd c conns (k ∷ ks) h = elim (Bool-cases (k == fd)) [
  | inl e ↦ rw e (All-others device fd c conns ks h.1)
  | inr e ↦ rw e (IsOpen-set_conn device fd c conns k e h.0, All-others device fd c conns ks h.1)
]

All-unused :
    (device : List ℕ) (fd : ℕ) (c : Connection) (conns : ConnMap) (used : List ℕ)
    → is_in fd used ≡ false
    → All (IsOpen device conns) used
    → All (IsOpen device (set_conn fd c conns)) used
All-unused device fd c conns [] new h = tt
All-unused device fd c conns (k ∷ ks) new h =
    let other : (k == fd) ≡ false = ground (arith, new) in
    let rest : is_in fd ks ≡ false = ground (arith, new) in
    (IsOpen-set_conn device fd c conns k other h.0, All-unused device fd c conns ks rest h.1)

create_connection-IsOpen :
    (device : List ℕ) (fd : ℕ) (conns : ConnMap)
    → IsOpen device (set_conn fd (create_connection device fd) conns) fd
unfolding create_connection
create_connection-IsOpen device fd conns =
    let c = create_connection device fd in
    (c, find_conn-set_conn fd c conns, refl, refl, refl, refl)

received_lem :
    (device : List ℕ) (fd : ℕ) (bytes : List ℕ) (time : ℕ) (conns : ConnMap) (c : Connection)
    → find_conn fd conns ≡ some c
    → c.has_bev ≡ true
    → on_event device (received fd bytes time) conns ≡ (on_read c bytes time, conns)
unfolding on_event read_callback
received_lem device fd bytes time conns c h bev =
    ap (read_callback fd bytes time conns) h ∙ (rw bev refl)

process_data_lem :
    (bytes : List ℕ)
    → 0 < length bytes
    → length bytes < 2 ^ 32
    → contents (process_data bytes) ≡ bytes
unfolding process_data new_byte_buffer
process_data_lem bytes some_bytes few =
    let v : IsByteBuffer new_byte_buffer = record { size = refl; room = inl (refl, refl) } in
    (write_bytes-IsWritten new_byte_buffer v bytes some_bytes (omega arith)).appended

module _ {F : Type 0} ⦃d : Double F⦄ (clock : ℕ → GTime F) (device : List ℕ)
    (known : IsDevice device) where
  -- Messages of the device that make of a state what `want` says.
  abbrev IsCaptured : List SinkMessage → (Assist F → Assist F) → Type 0
  IsCaptured sent want = All (IsFrom device) sent × ((s : Assist F) → fed clock sent s ≡ want s)

  written_name : (name : List ℕ) → name ≡ device → copy_str 31 name ≡ device
  written_name name e = ap (copy_str 31) e ∙ copy_str_all 31 device known.short known.named

  parts-IsHeader :
      (h : AgnssFrameHeader)
      → h.device ≡ device
      → h.tag < 2 ^ 31
      → h.subtype < 2 ^ 31
      → h.device_type ≡ 0
      → h.time < 2 ^ 63
      → h.length_of < 2 ^ 31
      → IsHeader h
  parts-IsHeader h e tag subtype type time long = record {
    named = rw e known.named;
    short = rw e known.short;
    tag_in = tag;
    subtype_in = subtype;
    device_type_in = omega (arith, type);
    time_in = time;
    length_in = long;
  }

  status-IsCaptured :
      (name : List ℕ) (device_type status : ℕ) (info : List ℕ) (time : ℕ) (sent : List SinkMessage)
      (want : Assist F → Assist F)
      → name ≡ device
      → device_type ≡ 0
      → status < 2
      → time < 2 ^ 63
      → IsCaptured sent want
      → IsCaptured (write_status name device_type status info time ∷ sent) want
  unfolding write_status fed assist_data_input
  status-IsCaptured name device_type status info time sent want e type few at h =
      let named = written_name name e in
      (
        (
          record {
            name = named;
            header_fits = parts-IsHeader _ named (omega arith) (omega arith) type at (omega arith);
            kind = inl refl;
          },
          h.0,
        ),
        h.1,
      )

  on_read-IsCaptured :
      (c : Connection) (time : ℕ) (bytes : List ℕ) (sent : List SinkMessage)
      (want : Assist F → Assist F)
      → c.device ≡ device
      → c.device_type ≡ 0
      → time < 2 ^ 63
      → length bytes < 2 ^ 31
      → IsCaptured sent want
      → IsCaptured
          (on_read c bytes time ++ sent)
          (λ s. want (assist_data_input (clock time) s bytes))
  unfolding on_read fire_result write_data fed
  on_read-IsCaptured c time [] sent want e type at few h =
      (h.0, λ s. unfold assist_data_input in h.1 s)
  on_read-IsCaptured c time (b ∷ bs) sent want e type at few h =
      let some_bytes : ltb 0 (length (b ∷ bs)) ≡ true = ground arith in
      let same = process_data_lem (b ∷ bs) (omega arith) (omega arith) in
      let named = written_name c.device e in
      let size : length (contents (process_data (b ∷ bs))) % 2 ^ 32 < 2 ^ 31 =
        rw same (omega arith) in
      rw some_bytes (
        (
          record {
            name = named;
            header_fits = parts-IsHeader _ named (omega arith) (omega arith) type at size;
            kind = inr refl;
          },
          h.0,
        ),
        λ s. h.1 _ ∙ ap (λ (t : List ℕ). want (assist_data_input (clock time) s t)) same,
      )

  online :
      (fd : ℕ) (info : List ℕ) (time : ℕ) (sent : List SinkMessage) (want : Assist F → Assist F)
      → time < 2 ^ 63
      → IsCaptured sent want
      → IsCaptured (on_open (create_connection device fd) info time ++ sent) want
  unfolding on_open create_connection
  online fd info time sent want at h =
      status-IsCaptured device 0 _ info time sent want refl refl (omega arith) at h

  offline :
      (c : Connection) (info : List ℕ) (time : ℕ) (sent : List SinkMessage)
      (want : Assist F → Assist F)
      → c.device ≡ device
      → c.device_type ≡ 0
      → time < 2 ^ 63
      → IsCaptured sent want
      → IsCaptured (on_close c info time ++ sent) want
  unfolding on_close
  offline c info time sent want name type at h =
      status-IsCaptured c.device c.device_type _ info time sent want name type (omega arith) at h

  connected_lem :
      (fd : ℕ) (info : List ℕ) (time : ℕ) (conns : ConnMap)
      → on_event device (connected fd info time) conns ≡ (
        on_open (create_connection device fd) info time,
        set_conn fd (create_connection device fd) conns,
      )
  unfolding on_event listener_callback
  connected_lem fd info time conns = refl

  capture-IsCaptured :
      (es : List CaptureEvent) (used : List ℕ) (conns : ConnMap)
      → All (IsOpen device conns) used
      → InOrder used es
      → IsCaptured (capture device es conns) (fed_events clock es)
  unfolding capture fed_events
  capture-IsCaptured [] used conns open_ones order = (tt, λ s. unfold fed in refl)
  capture-IsCaptured (connected fd info time ∷ es) used conns open_ones order =
      let c = create_connection device fd in
      let opened = All-unused device fd c conns used order.0 open_ones in
      let rest =
        capture-IsCaptured es (fd ∷ used) (set_conn fd c conns)
          (create_connection-IsOpen device fd conns, opened) order.2 in
      rw (connected_lem fd info time conns) (online fd info time _ _ order.1 rest)
  capture-IsCaptured (received fd bytes time ∷ es) used conns open_ones order =
      let (c, there, name, type, bev, server) =
        is_in-holds (IsOpen device conns) fd used open_ones order.0 in
      let rest = capture-IsCaptured es used conns open_ones order.3 in
      rw (received_lem device fd bytes time conns c there bev)
        (on_read-IsCaptured c time bytes _ _ name type order.1 order.2 rest)
  capture-IsCaptured (ended fd info time ∷ es) used conns open_ones order =
      let (c, there, name, type, bev, server) =
        is_in-holds (IsOpen device conns) fd used open_ones order.0 in
      let left = set_conn fd (closed c) conns in
      let rest =
        capture-IsCaptured es (others fd used) left
          (All-others device fd (closed c) conns used open_ones) order.2 in
      rw (ended_lem device fd info time conns c there bev server)
        (offline c info time _ _ name type order.1 rest)

-- From no connections, for a device whose name has fewer than 32 bytes and no zero, with sockets
-- that are read only from their connection to the end of their streams, fewer than 2^31 bytes at a
-- time, and with headers that the server reads back as they were sent if their fields can hold
-- them: after the messages of the capture program, the device's processor in a server that had
-- none is in the state that AssistData_Input makes, from that of AssistData_Init, of all pieces
-- that were read, each once, in their order, and at the server's clock for its time.
pub deliver-capture :
    {F : Type 0} ⦃d : Double F⦄ (of_header : AgnssFrameHeader → List ℕ)
    (to_header : List ℕ → AgnssFrameHeader)
    (back : (h : AgnssFrameHeader) → IsHeader h → to_header (of_header h) ≡ h) (clock : ℕ → GTime F)
    (device : List ℕ) (es : List CaptureEvent)
    → IsDevice device
    → InOrder [] es
    → assist_of (find device (deliver of_header to_header clock (capture device es []) []))
      ≡ fed_events clock es assist_data_init
unfolding find assist_of
deliver-capture of_header to_header back clock device es known order =
    let (from, made) = capture-IsCaptured clock device known es [] [] tt order in
    deliver_lem of_header to_header back clock device (capture device es []) [] from tt
    ∙ made assist_data_init
