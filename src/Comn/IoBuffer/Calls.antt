-- ===== src/Comn/IoBuffer/Calls.antt =====
-- The calls of an IOBuffer, and the same calls of a queue of bytes.
use dgnss_server.Common.{
  ℕ, ◌+◌, List, [], ◌∷◌, ◌++◌, length, take, drop, if◌then◌else◌, leb, Bool, true, false,
}
use dgnss_server.Comn.IoBuffer.{IoBuffer, expect, clear_buffer, read, read_string, write, skip}

pub data Call : Type 0 where
  writing : List ℕ → Call
  reading : ℕ → Call
  reading_string : ℕ → Call
  skipping : ℕ → Call
  expecting : ℕ → Call
  clearing : Call

-- What a call returns: a number of bytes, bytes, or whether it is done.
pub data Reply : Type 0 where
  count : ℕ → Reply
  got : List ℕ → Reply
  done : Bool → Reply

unfoldable pub perform : Call → IoBuffer → Reply × IoBuffer
perform (writing src) b = let (n, b') = write b src in (count n, b')
perform (reading n) b = let (bytes, b') = read b n in (got bytes, b')
perform (reading_string n) b = let (bytes, b') = read_string [] b n in (got bytes, b')
perform (skipping n) b = let (ok, b') = skip b n in (done ok, b')
perform (expecting n) b = (done true, expect b n)
perform clearing b = (done true, clear_buffer b)

-- The same call of a queue of bytes.
unfoldable pub on_queue : Call → List ℕ → Reply × List ℕ
on_queue (writing src) q = (count (length src), q ++ src)
on_queue (reading n) q = (got (take n q), drop n q)
on_queue (reading_string n) q = (got (take n q), drop n q)
on_queue (skipping n) q = if leb n (length q) then (done true, drop n q) else (done false, q)
on_queue (expecting n) q = (done true, q)
on_queue clearing q = (done true, [])

-- The replies of a sequence of calls.
unfoldable pub replies {ℓ} : {S : Type ℓ} → (Call → S → Reply × S) → List Call → S → List Reply
replies step [] s = []
replies step (c ∷ cs) s = let (r, s') = step c s in r ∷ replies step cs s'

-- The bytes of room that a sequence of calls asks for.
abbrev pub room_of : Call → ℕ
room_of (writing src) = length src
room_of (reading n) = 0
room_of (reading_string n) = 0
room_of (skipping n) = 0
room_of (expecting n) = n
room_of clearing = 0

abbrev pub total_room : List Call → ℕ
total_room [] = 0
total_room (c ∷ cs) = room_of c + total_room cs
