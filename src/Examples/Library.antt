-- ===== src/Examples/Library.antt =====
-- Examples of the common C++ library and of the checksum's division.
use dgnss_server.Common.{
  ℕ, map, leb, ◌==◌, ◌&&◌, ◌||◌, if◌then◌else◌, inr, replicate, ◌+◌, ◌*◌, ◌/◌, ◌≤◌, ◌≡◌, ◌≢◌, ◌⊎◌,
  refl, arith, Bool, true, false, not, none, some, List, [], ◌∷◌, length,
}
use dgnss_server.Common.Int.{ℤ, pos}
use dgnss_server.Crc.{crc24q}
use dgnss_server.Crc.Division.{remainder, crc24q-remainder}
use dgnss_server.Comn.IoBuffer.{IoBuffer}
use dgnss_server.Comn.IoBuffer.Refine.{IsBuffer, contents}
use dgnss_server.Comn.IoBuffer.Calls.{Call, writing, reading, skipping, replies, perform, on_queue}
use dgnss_server.Comn.IoBuffer.Queue.{replies_refine}
use dgnss_server.Comn.Timer.{
  TimerId, TimerTask, cancel, add_timer, add_elapse, checkout_front, check_expire,
}
use dgnss_server.Comn.Timer.Order.{
  removing, inserting, checking_out, steps, IsSorted, From, Earliest, steps-IsSorted,
  checkout_front-Earliest,
}
use dgnss_server.Comn.Timer.Names.{IsUnique, cancel-add, check_expire-IsUnique}
use dgnss_server.Comn.Timer.Rounds.{quiet, serve, serve-none_due}
use dgnss_server.Comn.ByteBuffer.{ByteBuffer, write_bytes}
use dgnss_server.Comn.ByteBuffer.Contents.{IsWritten, write_bytes-IsWritten}
use dgnss_server.Comn.PercentEncoding.{blank, is_mark, encode_percent, decode_percent}
use dgnss_server.Comn.PercentEncoding.RoundTrip.{decode_percent-encode_percent}
use dgnss_server.Comn.Base64.{encode, decode}
use dgnss_server.Comn.Base64.RoundTrip.{decode-encode}
use dgnss_server.Comn.Base64.Errors.{is_text, decode-Outcome}

abbrev station_head : List ℕ
station_head = 0xD3 ∷ 0 ∷ 19 ∷ 62 ∷ []

crc24q-remainder_example : crc24q station_head (length station_head) ≡ remainder station_head 0
crc24q-remainder_example = crc24q-remainder station_head (omega arith)

-- A buffer of eight bytes of which three are read.
abbrev half_read : IoBuffer
half_read = record {
  bytes = 1 ∷ 2 ∷ 3 ∷ 4 ∷ 5 ∷ 6 ∷ 7 ∷ 8 ∷ [];
  size = 8;
  read_pos = 3;
  write_pos = 8;
  step = 1024;
}

half_read-IsBuffer : IsBuffer half_read
half_read-IsBuffer = record {
  size_is = refl;
  order = omega arith;
  inside = omega arith;
  short = omega arith;
}

-- The first call moves the bytes, the third makes the array larger.
abbrev calls : List Call
calls =
    writing (9 ∷ 10 ∷ [])
    ∷ reading 4
    ∷ writing (11 ∷ 12 ∷ 13 ∷ 14 ∷ 15 ∷ [])
    ∷ skipping 2
    ∷ reading 9
    ∷ []

replies_refine_example :
    replies perform calls half_read ≡ replies on_queue calls (contents half_read)
replies_refine_example = replies_refine calls half_read half_read-IsBuffer (omega arith)

-- The timer "A" of 3000 ms.
abbrev task_a : TimerTask ℕ
task_a = record { id = 65 ∷ []; handler = some 0; interval = 3000; is_repeat = true; expire = 100 }

abbrev task_b : TimerTask ℕ
task_b = record { id = 66 ∷ []; handler = some 1; interval = 20; is_repeat = false; expire = 107 }

abbrev tasks : List (TimerTask ℕ)
tasks = task_a ∷ task_b ∷ []

tasks-IsSorted : IsSorted tasks
tasks-IsSorted = omega arith

tasks-IsUnique : IsUnique tasks
tasks-IsUnique = (((λ e. ground (arith, e)), tt), (tt, tt))

abbrev always : ℕ → TimerId → ℕ → Bool
always h id ms = true

steps-IsSorted_example :
    IsSorted (steps (inserting task_a ∷ checking_out 100 ∷ removing (66 ∷ []) ∷ []) tasks)
steps-IsSorted_example =
    steps-IsSorted (inserting task_a ∷ checking_out 100 ∷ removing (66 ∷ []) ∷ []) tasks
      tasks-IsSorted

checkout_front-Earliest_example : Earliest 95 tasks (checkout_front 95 tasks)
checkout_front-Earliest_example = checkout_front-Earliest 95 tasks tasks-IsSorted

cancel-add_example :
    (let (fresh, ys) = add_timer (67 ∷ []) (some 2) 50 100 tasks in
      IsUnique ys
      × (fresh ≡ not (cancel (67 ∷ []) tasks).0)
      × (cancel (67 ∷ []) ys ≡ (true, (cancel (67 ∷ []) tasks).1)))
    × (let (fresh, ys) = add_elapse (67 ∷ []) (some 2) 50 100 tasks in
        IsUnique ys
        × (fresh ≡ not (cancel (67 ∷ []) tasks).0)
        × (cancel (67 ∷ []) ys ≡ (true, (cancel (67 ∷ []) tasks).1)))
cancel-add_example = cancel-add (67 ∷ []) 2 50 100 tasks tasks-IsUnique

check_expire-IsUnique_example : IsUnique (check_expire (quiet always) 100 101 102 tasks).1
check_expire-IsUnique_example =
    check_expire-IsUnique (quiet always) 100 101 102 tasks
      (λ h id ms xs none unique. (none, unique)) tasks-IsUnique

serve-none_due_example :
    (timeout : ℤ) × (rest : List (TimerTask ℕ)) × (serve always 5 100 tasks ≡ some (timeout, rest))
    × (timeout ≢ pos 0)
    × From 111 rest
serve-none_due_example =
    serve-none_due always 100 tasks tasks-IsSorted
      ((λ e. omega arith), ((λ e. ground (arith, e)), tt))

decode-encode_example :
    (text : List ℕ) × (encode 9 (77 ∷ 97 ∷ 110 ∷ 33 ∷ []) ≡ some text)
    × (length text ≡ (4 + 2) / 3 * 4)
    × (decode 4 text ≡ some (77 ∷ 97 ∷ 110 ∷ 33 ∷ []))
decode-encode_example =
    decode-encode (77 ∷ 97 ∷ 110 ∷ 33 ∷ []) 9 4 (omega arith) (omega arith) (omega arith)
      (omega arith)

-- Two characters and an end mark.
abbrev marked : List ℕ
marked = 84 ∷ 87 ∷ 0 ∷ []

decode-Outcome_example :
    ((is_text marked ≡ false) × (decode 8 marked ≡ none))
    ⊎ ((is_text marked ≡ true) × (out : List ℕ) × (decode 8 marked ≡ some out) × (length out ≤ 8))
decode-Outcome_example = decode-Outcome marked 8 (omega arith)

-- A buffer of 18 bytes, of which two are held.
abbrev almost_full : ByteBuffer
almost_full = record { bytes = 1 ∷ 2 ∷ replicate 16 0; capacity = 18; length_of = 2 }

write_bytes-IsWritten_example :
    IsWritten almost_full
      (record { size = refl; room = inr (omega arith) })
      (3 ∷ 4 ∷ 5 ∷ [])
      (write_bytes almost_full (3 ∷ 4 ∷ 5 ∷ []))
write_bytes-IsWritten_example =
    write_bytes-IsWritten almost_full (record { size = refl; room = inr (omega arith) })
      (3 ∷ 4 ∷ 5 ∷ []) (omega arith) (omega arith)

-- The C library's `isalnum` and `isspace` on ASCII.
abbrev is_alnum : ℕ → Bool
is_alnum c = (leb 48 c && leb c 57) || (leb 65 c && leb c 90) || (leb 97 c && leb c 122)

abbrev is_space : ℕ → Bool
is_space c = c == 32 || (leb 9 c && leb c 13)

-- The text "a b+" and a tabulator.
abbrev spaced : List ℕ
spaced = 97 ∷ 32 ∷ 98 ∷ 43 ∷ 9 ∷ []

decode_percent-encode_percent_example :
    decode_percent (encode_percent is_alnum is_space spaced)
    ≡ map
        (λ (ch : ℕ).
          if is_mark ch then ch else if is_alnum ch then ch else if is_space ch then blank else ch)
        spaced
decode_percent-encode_percent_example =
    decode_percent-encode_percent is_alnum is_space spaced (omega arith) refl refl
