-- ===== src/Examples/Captured.antt =====
-- Examples of the capture program with two connections of the device "A".
use dgnss_server.Common.{
  ◌∙◌, zero, suc, ◌+◌, ◌-◌, ◌*◌, ◌/◌, ◌%◌, ◌^◌, ◌≤◌, ◌<◌, ◌++◌, ◌==◌, ap, length, drop, replicate,
  All, length-append, length-replicate, ℕ, arith, ◌≡◌, refl, true, false, some, none, List, [], ◌∷◌,
}
use mathlib.Core.List.{append_assoc}
use dgnss_server.Double.{whole}
use dgnss_server.Assist.Init.{assist_data_init}
use dgnss_server.Server.{AgnssFrameHeader, find}
use dgnss_server.Capture.{
  Connection, ConnMap, CaptureEvent, connected, received, ended, find_conn, on_close, on_event,
  server_close, capture, copy_str,
}
use dgnss_server.Capture.Arrival.{IsHeader, assist_of, deliver}
use dgnss_server.Capture.Delivery.{fed_events, deliver-capture}
use dgnss_server.Capture.Closing.{ended-reported_twice}
use dgnss_server.Examples.{now}

-- The struct AgnssFrameHeader on a machine with little-endian numbers: three ints, the array of
-- the device's name, four bytes of padding, the time, the length, and padding again.
abbrev write_number : ℕ → ℕ → List ℕ
write_number zero n = []
write_number (suc k) n = n % 256 ∷ write_number k (n / 256)

abbrev read_number : ℕ → List ℕ → ℕ
read_number zero bs = 0
read_number (suc k) [] = 0
read_number (suc k) (b ∷ bs) = b + 256 * read_number k bs

abbrev name_field : List ℕ → List ℕ
name_field device = device ++ 0 ∷ replicate (35 - length device) 0

abbrev of_header : AgnssFrameHeader → List ℕ
of_header h =
    write_number 4 h.tag
    ++ (write_number 4 h.subtype
        ++ (write_number 4 h.device_type
            ++ (name_field h.device
                ++ (write_number 8 h.time ++ (write_number 4 h.length_of ++ replicate 4 0)))))

abbrev to_header : List ℕ → AgnssFrameHeader
to_header bytes = record {
  tag = read_number 4 bytes;
  subtype = read_number 4 (drop 4 bytes);
  device_type = read_number 4 (drop 8 bytes);
  device = copy_str 31 (drop 12 bytes);
  time = read_number 8 (drop 36 (drop 12 bytes));
  length_of = read_number 4 (drop 8 (drop 36 (drop 12 bytes)));
}

-- 256 ^ k.
abbrev bound : ℕ → ℕ
bound zero = 1
bound (suc k) = 256 * bound k

number_back : (k n : ℕ) (rest : List ℕ) → n < bound k → read_number k (write_number k n ++ rest) ≡ n
number_back zero n rest h = omega arith
number_back (suc k) n rest h = omega (arith, number_back k (n / 256) rest (omega arith))

name_back :
    (room : ℕ) (device rest : List ℕ)
    → All (λ (c : ℕ). (1 ≤ c) × (c < 256)) device
    → length device ≤ room
    → copy_str room (device ++ 0 ∷ rest) ≡ device
unfolding copy_str
name_back zero [] rest h k = refl
name_back zero (c ∷ cs) rest h k = absurd (omega arith)
name_back (suc room) [] rest h k = refl
name_back (suc room) (c ∷ cs) rest h k =
    let some_char : (c == 0) ≡ false = ground (arith, h.0.0) in
    rw some_char (ap (λ (t : List ℕ). c ∷ t) (name_back room cs rest h.1 (omega arith)))

drop_all : (n : ℕ) (xs ys : List ℕ) → length xs ≡ n → drop n (xs ++ ys) ≡ ys
drop_all zero [] ys h = refl
drop_all zero (x ∷ xs) ys h = absurd (omega arith)
drop_all (suc n) [] ys h = absurd (omega arith)
drop_all (suc n) (x ∷ xs) ys h = drop_all n xs ys (omega arith)

length-name_field : (device : List ℕ) → length device ≤ 31 → length (name_field device) ≡ 36
length-name_field device h = omega (
  arith,
  length-append device (0 ∷ replicate (35 - length device) 0),
  length-replicate {A = ℕ} (35 - length device) 0,
)

header_back : (h : AgnssFrameHeader) → IsHeader h → to_header (of_header h) ≡ h
header_back h v =
    let tail = write_number 8 h.time ++ (write_number 4 h.length_of ++ replicate 4 0) in
    let third = name_field h.device ++ tail in
    let second = write_number 4 h.device_type ++ third in
    let first = write_number 4 h.subtype ++ second in
    let past : drop 36 (name_field h.device ++ tail) ≡ tail =
      drop_all 36 (name_field h.device) tail (length-name_field h.device v.short) in
    let name : copy_str 31 (name_field h.device ++ tail) ≡ h.device =
      ap (copy_str 31) (append_assoc h.device (0 ∷ replicate (35 - length h.device) 0) tail)
      ∙ name_back 31 h.device _ v.named v.short in
    let time : read_number 8 (drop 36 (name_field h.device ++ tail)) ≡ h.time =
      ap (read_number 8) past
      ∙ number_back 8 h.time (write_number 4 h.length_of ++ replicate 4 0)
          (omega (arith, v.time_in)) in
    let long : read_number 4 (drop 8 (drop 36 (name_field h.device ++ tail))) ≡ h.length_of =
      ap (λ (t : List ℕ). read_number 4 (drop 8 t)) past
      ∙ number_back 4 h.length_of (replicate 4 0) (omega (arith, v.length_in)) in
    λ i. record {
      tag = number_back 4 h.tag first (omega (arith, v.tag_in)) i;
      subtype = number_back 4 h.subtype second (omega (arith, v.subtype_in)) i;
      device_type = number_back 4 h.device_type third (omega (arith, v.device_type_in)) i;
      device = name i;
      time = time i;
      length_of = long i;
    }

abbrev device_a : List ℕ
device_a = 65 ∷ []

-- The second connection has the socket of the first one again.
abbrev events : List CaptureEvent
events =
    connected 7 (49 ∷ []) 100
    ∷ received 7 (0xAA ∷ 0x44 ∷ []) 101
    ∷ ended 7 (49 ∷ []) 102
    ∷ connected 7 (50 ∷ []) 103
    ∷ received 7 [] 104
    ∷ received 7 (0x12 ∷ []) 105
    ∷ []

-- The clock shows the same time throughout.
deliver-capture_example :
    assist_of
      (find device_a (deliver of_header to_header (λ t. now) (capture device_a events []) []))
    ≡ fed_events (λ t. now) events assist_data_init
deliver-capture_example =
    deliver-capture of_header to_header header_back (λ t. now) device_a events
      (record { named = omega arith; short = omega arith })
      (
        refl,
        omega arith,
        (
          refl,
          omega arith,
          omega arith,
          (refl, omega arith, (refl, omega arith, (refl, omega arith, omega arith, received_last))),
        ),
      )
  where
    received_last : (true ≡ true) × (105 < 2 ^ 63) × (1 < 2 ^ 31) × Unit {0}
    received_last = (refl, omega arith, omega arith, tt)

abbrev connection_a : Connection
connection_a = record {
  fd = some 7;
  has_server = true;
  has_bev = true;
  device = device_a;
  device_type = 0;
}

abbrev one_open : ConnMap
one_open = (7, connection_a) ∷ []

one_open-there : find_conn 7 one_open ≡ some connection_a
unfolding find_conn
one_open-there = refl

ended-reported_twice_example :
    let (sent, left) = on_event device_a (ended 7 (49 ∷ []) 100) one_open in
    let (found, again, rest) = server_close 7 (63 ∷ []) 200 left in
    (sent ≡ on_close connection_a (49 ∷ []) 100)
    × (find_conn 7 left
        ≡ some (record connection_a { fd = none; has_server = false; has_bev = false }))
    × (found ≡ true)
    × (again ≡ on_close connection_a (63 ∷ []) 200)
ended-reported_twice_example =
    ended-reported_twice device_a 7 (49 ∷ []) (63 ∷ []) 100 200 one_open connection_a one_open-there
      refl refl
