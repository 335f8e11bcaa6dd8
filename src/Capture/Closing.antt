-- ===== src/Capture/Closing.antt =====
-- A connection that ends stays in the map of the server.
use mathlib.Core.Option
use dgnss_server.Common.{
  ℕ, ◌≡◌, ◌≢◌, refl, ◌∙◌, ap, arith, Bool, true, false, none, some, List, [], ◌∷◌, ltb, ◌==◌,
  if◌then◌else◌, Bool-cases, inl, inr, ==_iff,
}
use dgnss_server.Capture.{
  SinkMessage, Connection, ConnMap, find_conn, set_conn, remove_conn, on_close, internal_close,
  close_found, server_close, event_callback, on_event, ended,
}

pub find_conn-set_conn :
    (fd : ℕ) (c : Connection) (conns : ConnMap) → find_conn fd (set_conn fd c conns) ≡ some c
unfolding find_conn set_conn
find_conn-set_conn fd c [] = let self : (fd == fd) ≡ true = ground arith in rw self
find_conn-set_conn fd c ((k, old) ∷ rest) =
    let self : (fd == fd) ≡ true = ground arith in
    elim (Bool-cases (k == fd)) [
      | inl e ↦ rw (e, self) refl
      | inr e ↦ elim (Bool-cases (ltb fd k)) [
        | inl l ↦ rw (e, l, self) refl
        | inr l ↦ rw (e, l, e) (find_conn-set_conn fd c rest)
      ]
    ]

pub find_conn-set_conn_ne :
    (fd other : ℕ) (c : Connection) (conns : ConnMap)
    → fd ≢ other
    → find_conn other (set_conn fd c conns) ≡ find_conn other conns
unfolding find_conn set_conn
find_conn-set_conn_ne fd other c [] ne =
    let test : (fd == other) ≡ false = ground (arith, ne) in rw test
find_conn-set_conn_ne fd other c ((k, old) ∷ rest) ne =
    let test : (fd == other) ≡ false = ground (arith, ne) in
    elim (Bool-cases (k == fd)) [
      | inl e ↦
          let same : k ≡ fd = (==_iff k fd).0 e in
          let no_k : (k == other) ≡ false = ground (arith, ne, same) in rw (e, test, no_k) refl
      | inr e ↦ elim (Bool-cases (ltb fd k)) [
        | inl l ↦ rw (e, l, test) refl
        | inr l ↦
            rw (e, l)
              (ap (λ (found : Option.Option Connection). if k == other then some old else found)
                (find_conn-set_conn_ne fd other c rest ne))
      ]
    ]

-- The connection once it has closed itself.
abbrev pub closed : Connection → Connection
closed c = record c { fd = none; has_server = false; has_bev = false }

pub ended_lem :
    (device : List ℕ) (fd : ℕ) (info : List ℕ) (time : ℕ) (conns : ConnMap) (c : Connection)
    → find_conn fd conns ≡ some c
    → c.has_bev ≡ true
    → c.has_server ≡ true
    → on_event device (ended fd info time) conns
      ≡ (on_close c info time, set_conn fd (closed c) conns)
unfolding on_event event_callback internal_close
ended_lem device fd info time conns c h bev server =
    ap (event_callback fd info time conns) h ∙ (rw (bev, server) refl)

server_close_lem :
    (fd : ℕ) (info : List ℕ) (time : ℕ) (conns : ConnMap) (c : Connection)
    → find_conn fd conns ≡ some c
    → server_close fd info time conns ≡ (true, on_close c info time, remove_conn fd conns)
unfolding server_close close_found
server_close_lem fd info time conns c h = ap (close_found fd info time conns) h

-- When the stream of an open connection ends, the connection reports that its device is offline,
-- but stays in the server's map under its socket; a `close` of the server on this socket then
-- finds it there, and the device is reported offline a second time.
pub ended-reported_twice :
    (device : List ℕ) (fd : ℕ) (info info' : List ℕ) (time time' : ℕ) (conns : ConnMap)
    (c : Connection)
    → find_conn fd conns ≡ some c
    → c.has_bev ≡ true
    → c.has_server ≡ true
    → let (sent, left) = on_event device (ended fd info time) conns in
      let (found, again, rest) = server_close fd info' time' left in
      (sent ≡ on_close c info time)
      × (find_conn fd left ≡ some (record c { fd = none; has_server = false; has_bev = false }))
      × (found ≡ true)
      × (again ≡ on_close c info' time')
unfolding on_close
ended-reported_twice device fd info info' time time' conns c h bev server =
    let there = find_conn-set_conn fd (closed c) conns in
    let twice = server_close_lem fd info' time' (set_conn fd (closed c) conns) (closed c) there in
    rw (ended_lem device fd info time conns c h bev server) (
      refl,
      there,
      ap (λ (r : Bool × List SinkMessage × ConnMap). r.0) twice,
      ap (λ (r : Bool × List SinkMessage × ConnMap). r.1) twice,
    )
