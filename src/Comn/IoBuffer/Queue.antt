-- ===== src/Comn/IoBuffer/Queue.antt =====
-- IOBuffer implements a queue of bytes.
use dgnss_server.Common.{
  ℕ, ◌+◌, ◌^◌, ◌<◌, ◌≡◌, refl, sym, ◌∙◌, ap, ap₂, arith, List, [], ◌∷◌, length, min, ◌==◌, leb,
  Bool-cases, inl, inr, ==_iff, leb→le,
}
use dgnss_server.Comn.Memory.{slice, ◌+size◌}
use dgnss_server.Comn.IoBuffer.{
  IoBuffer, readable, clear_buffer, read, read_string, write, skip, check_readable,
}
use dgnss_server.Comn.IoBuffer.Refine.{
  IsBuffer, contents, length-contents, readable-eq, itself-IsKept, expect-IsKept,
}
use dgnss_server.Comn.IoBuffer.Calls.{
  Call, writing, reading, reading_string, skipping, expecting, clearing, Reply, count, got, perform,
  on_queue, replies, room_of, total_room,
}
use dgnss_server.Comn.IoBuffer.Fits.{
  Fits, kept-Fits, advanced-Fits, write-Fits, recycle-Fits, unread-Fits, copied,
}

abbrev Agrees : Call → IoBuffer → Type 0
Agrees c b =
    ((perform c b).0 ≡ (on_queue c (contents b)).0)
    × Fits b (room_of c) (on_queue c (contents b)).1 (perform c b).1

module _ (b : IoBuffer) (v : IsBuffer b) where
  reading-Agrees : (n : ℕ) → Agrees (reading n) b
  unfolding perform on_queue read
  reading-Agrees n = elim (Bool-cases (n == 0)) [
    | inl e ↦
        let none = (==_iff n 0).0 e in rw (e, none) (refl, kept-Fits b v b 0 (itself-IsKept b v))
    | inr e ↦ rw e (ap got (copied b v n), advanced-Fits b v n)
  ]

  reading_string-Agrees : (n : ℕ) → Agrees (reading_string n) b
  unfolding perform on_queue read_string
  reading_string-Agrees n = elim (Bool-cases (min n (readable b) == 0)) [
    | inl e ↦
        let none = (==_iff (min n (readable b)) 0).0 e in
        let nothing = ap (λ (k : ℕ). got (slice b.bytes b.read_pos k)) (sym none) in
        rw e (nothing ∙ ap got (copied b v n), unread-Fits b v n none)
    | inr e ↦ rw e (ap got (copied b v n), recycle-Fits b v n)
  ]

  skipping-Agrees : (n : ℕ) → Agrees (skipping n) b
  unfolding perform on_queue skip check_readable
  skipping-Agrees n =
      let size = length-contents b v ∙ sym (readable-eq b v) in
      elim (Bool-cases (leb n (readable b))) [
        | inl e ↦
            let few = leb→le n (readable b) e in
            let at : b.read_pos +size n ≡ b.read_pos + min n (readable b) =
              omega (arith, v, readable-eq b v) in
            rw (size, e, at) (refl, recycle-Fits b v n)
        | inr e ↦ rw (size, e) (refl, kept-Fits b v b 0 (itself-IsKept b v))
      ]

  clearing-Agrees : Agrees clearing b
  unfolding perform on_queue clear_buffer
  clearing-Agrees = (
    refl,
    record {
      valid = record {
        size_is = v.size_is;
        order = omega arith;
        inside = omega arith;
        short = v.short;
      };
      same = refl;
      end = omega arith;
      step_is = refl;
    },
  )

  writing-Agrees :
      (src : List ℕ) → b.write_pos + length src + b.step < 2 ^ 64 → Agrees (writing src) b
  unfolding perform on_queue
  writing-Agrees src small = (ap count (written_count src), write-Fits b v src small)
    where
      written_count : (src : List ℕ) → (write b src).0 ≡ length src
      written_count [] = unfold write in refl
      written_count (x ∷ xs) = unfold write in ground arith

  perform-Agrees : (c : Call) → b.write_pos + room_of c + b.step < 2 ^ 64 → Agrees c b
  unfolding perform on_queue
  perform-Agrees (writing src) small = writing-Agrees src small
  perform-Agrees (reading n) small = reading-Agrees n
  perform-Agrees (reading_string n) small = reading_string-Agrees n
  perform-Agrees (skipping n) small = skipping-Agrees n
  perform-Agrees (expecting n) small = (refl, kept-Fits b v _ n (expect-IsKept b v n small).0)
  perform-Agrees clearing small = clearing-Agrees

-- While the positions and the sizes asked for stay below 2^64, a buffer in its well-formed states
-- gives the same replies to every sequence of calls of `write`, `read`, `readString`, `skip`,
-- `expect` and `clear` as a queue of bytes that starts with the buffer's contents: bytes are read
-- in the order in which they were written, each once, whatever is moved or allocated in between.
pub replies_refine :
    (cs : List Call) (b : IoBuffer)
    → IsBuffer b
    → b.write_pos + total_room cs + b.step < 2 ^ 64
    → replies perform cs b ≡ replies on_queue cs (contents b)
unfolding replies
replies_refine [] b v small = refl
replies_refine (c ∷ cs) b v small =
    let (same, f) = perform-Agrees b v c (omega arith) in
    let rest = replies_refine cs (perform c b).1 f.valid (omega (arith, f.end, f.step_is)) in
    ap₂ (λ (r : Reply) (rs : List Reply). r ∷ rs) same
      (rest ∙ ap (λ (q : List ℕ). replies on_queue cs q) f.same)
