-- ===== src/Capture.antt =====
-- The capture program of AgnssCapture: the connections of TcpServer.cpp, TcpConnection.cpp,
-- CaptureTcpServer.cpp and CaptureTcpConnection.cpp, and the messages that CCaptureSink.cpp sends
-- to the server. What libevent reads, the names of the peers and the times are arguments; a
-- connection is called back only while it has its bufferevent, and creating one does not fail. The
-- thread of the server, its start and stop, and the log are left out.
pub mod Arrival
pub mod Delivery
pub mod Closing
use mathlib.Core.Option
use dgnss_server.Common.{
  ℕ, zero, suc, ◌%◌, ◌^◌, Bool, true, false, not, ◌&&◌, none, some, List, [], ◌∷◌, ◌++◌, length,
  take, ltb, ◌==◌, if◌then◌else◌,
}
use dgnss_server.Comn.ByteBuffer.{ByteBuffer, new_byte_buffer, write_bytes}
use dgnss_server.Server.{AgnssFrameHeader, tag_status, tag_data}

abbrev pub status_offline : ℕ
status_offline = 0

abbrev pub status_online : ℕ
status_online = 1

-- A message of the sink: the header's struct, and the second part.
pub record SinkMessage : Type 0 where
  pub header : AgnssFrameHeader
  pub body : List ℕ

-- `none` is the socket -1, and `false` NULL for the server and the bufferevent.
pub record Connection : Type 0 where
  pub fd : Option.Option ℕ
  pub has_server : Bool
  pub has_bev : Bool
  pub device : List ℕ
  pub device_type : ℕ

-- The map `m_connMap`, in the order of the sockets.
abbrev pub ConnMap : Type 0
ConnMap = List (ℕ × Connection)

unfoldable pub find_conn : ℕ → ConnMap → Option.Option Connection
find_conn fd [] = none
find_conn fd ((k, c) ∷ rest) = let found = find_conn fd rest in if k == fd then some c else found

unfoldable pub set_conn : ℕ → Connection → ConnMap → ConnMap
set_conn fd c [] = (fd, c) ∷ []
set_conn fd c ((k, old) ∷ rest) =
    let later = set_conn fd c rest in
    if k == fd
    then (fd, c) ∷ rest
    else if ltb fd k
    then (fd, c) ∷ (k, old) ∷ rest
    else (k, old) ∷ later

unfoldable pub remove_conn : ℕ → ConnMap → ConnMap
remove_conn fd [] = []
remove_conn fd ((k, c) ∷ rest) =
    let later = remove_conn fd rest in if k == fd then rest else (k, c) ∷ later

-- `copyStr` into an array of `room + 1` zeros, as the text that then stands there.
unfoldable pub copy_str : ℕ → List ℕ → List ℕ
copy_str zero src = []
copy_str (suc room) [] = []
copy_str (suc room) (c ∷ cs) = let rest = copy_str room cs in if c == 0 then [] else c ∷ rest

-- The headers: a device's name is cut off after 31 bytes, and a length is the pattern of an int.
unfoldable pub write_status : List ℕ → ℕ → ℕ → List ℕ → ℕ → SinkMessage
write_status device device_type status info time = record {
  header = record {
    tag = tag_status;
    subtype = status;
    device_type = device_type;
    device = copy_str 31 device;
    time = time;
    length_of = 0;
  };
  body = info;
}

unfoldable pub write_data : List ℕ → ℕ → List ℕ → ℕ → SinkMessage
write_data device device_type bytes time = record {
  header = record {
    tag = tag_data;
    subtype = 0;
    device_type = device_type;
    device = copy_str 31 device;
    time = time;
    length_of = length bytes % 2 ^ 32;
  };
  body = bytes;
}

unfoldable pub on_open : Connection → List ℕ → ℕ → List SinkMessage
on_open c info time = write_status c.device c.device_type status_online info time ∷ []

unfoldable pub on_close : Connection → List ℕ → ℕ → List SinkMessage
on_close c info time = write_status c.device c.device_type status_offline info time ∷ []

-- `processData`, with the buffer that `handleRecv` makes.
unfoldable pub process_data : List ℕ → ByteBuffer
process_data bytes = write_bytes new_byte_buffer bytes

-- `fireResult`.
unfoldable pub fire_result : Connection → ByteBuffer → ℕ → SinkMessage
fire_result c result time =
    write_data c.device c.device_type (take result.length_of result.bytes) time

-- `onRead`, with the bytes that `bufferevent_read` gives.
unfoldable pub on_read : Connection → List ℕ → ℕ → List SinkMessage
on_read c bytes time =
    if ltb 0 (length bytes) then fire_result c (process_data bytes) time ∷ [] else []

-- `create` of CaptureTcpServer, then `setContext`: the device's type is not handed on.
unfoldable pub create_connection : List ℕ → ℕ → Connection
create_connection device fd = record {
  fd = some fd;
  has_server = true;
  has_bev = true;
  device = device;
  device_type = 0;
}

-- `internalClose` before it calls the server, and whether it calls it.
unfoldable pub internal_close : Connection → Bool × Connection
internal_close c =
    if c.has_server
    then (true, record c { fd = none; has_server = false; has_bev = false })
    else (false, c)

-- `close` of TcpServer on a socket: its connection is removed and closed. A connection is closed
-- with the server's `close` on the socket -1, which is no key of the map.
unfoldable pub close_found :
    ℕ → List ℕ → ℕ → ConnMap → Option.Option Connection → Bool × List SinkMessage × ConnMap
close_found fd info time conns none = (false, [], conns)
close_found fd info time conns (some c) = (true, on_close c info time, remove_conn fd conns)

unfoldable pub server_close : ℕ → List ℕ → ℕ → ConnMap → Bool × List SinkMessage × ConnMap
server_close fd info time conns = close_found fd info time conns (find_conn fd conns)

-- `closeAll`, where the names of the peers are `info`.
unfoldable pub close_all : List ℕ → ℕ → ConnMap → List SinkMessage × ConnMap
close_all info time [] = ([], [])
close_all info time ((k, c) ∷ rest) =
    let (later, left) = close_all info time rest in (on_close c info time ++ later, left)

-- `listenerCallback` for the socket of a new connection.
unfoldable pub listener_callback : List ℕ → ℕ → List ℕ → ℕ → ConnMap → List SinkMessage × ConnMap
listener_callback device fd info time conns =
    let c = create_connection device fd in (on_open c info time, set_conn fd c conns)

-- The callbacks of a connection with the socket `fd`: what it reads, and the end of its stream or
-- an error, on which it closes itself.
unfoldable pub read_callback :
    ℕ → List ℕ → ℕ → ConnMap → Option.Option Connection → List SinkMessage × ConnMap
read_callback fd bytes time conns none = ([], conns)
read_callback fd bytes time conns (some c) = (if c.has_bev then on_read c bytes time else [], conns)

unfoldable pub event_callback :
    ℕ → List ℕ → ℕ → ConnMap → Option.Option Connection → List SinkMessage × ConnMap
event_callback fd info time conns none = ([], conns)
event_callback fd info time conns (some c) =
    if c.has_bev
    then (on_close c info time, set_conn fd (internal_close c).1 conns)
    else ([], conns)

pub data CaptureEvent : Type 0 where
  connected : ℕ → List ℕ → ℕ → CaptureEvent
  received : ℕ → List ℕ → ℕ → CaptureEvent
  ended : ℕ → List ℕ → ℕ → CaptureEvent

-- What an event sends, and the connections after it.
unfoldable pub on_event : List ℕ → CaptureEvent → ConnMap → List SinkMessage × ConnMap
on_event device (connected fd info time) conns = listener_callback device fd info time conns
on_event device (received fd bytes time) conns =
    read_callback fd bytes time conns (find_conn fd conns)
on_event device (ended fd info time) conns = event_callback fd info time conns (find_conn fd conns)

unfoldable pub capture : List ℕ → List CaptureEvent → ConnMap → List SinkMessage
capture device [] conns = []
capture device (e ∷ es) conns =
    let (sent, conns') = on_event device e conns in sent ++ capture device es conns'
