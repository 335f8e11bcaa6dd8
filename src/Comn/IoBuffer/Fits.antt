-- ===== src/Comn/IoBuffer/Fits.antt =====
-- What `read`, `write` and `skip` do to the bytes that a buffer holds.
use dgnss_server.Common.{
  ℕ, ◌+◌, ◌-◌, ◌^◌, ◌≤◌, ◌<◌, ◌≡◌, subst, refl, sym, ◌∙◌, ap, ap₂, arith, List, [], ◌∷◌, ◌++◌,
  length, get_or, take, drop, min, ◌==◌, false, dec_lt, length-append,
}
use dgnss_server.Comn.Memory.{
  slice, blit, ◌+size◌, length-blit, get_or-blit_inside, get_or-blit_before, take-slice, drop-slice,
  get_or-slice, list_ext, get_or-append_before, get_or-append_after, append_nothing,
}
use dgnss_server.Comn.IoBuffer.{IoBuffer, readable, expect, recycle, write}
use dgnss_server.Comn.IoBuffer.Refine.{
  IsBuffer, contents, length-contents, readable-eq, itself-IsKept, IsKept, expect-IsKept,
  recycle-IsKept,
}

-- How a buffer after a call fits the queue after it.
pub record Fits (b : IoBuffer) (more : ℕ) (q : List ℕ) (c : IoBuffer) : Type 0 where
  pub valid : IsBuffer c
  pub same : contents c ≡ q
  pub end : c.write_pos ≤ b.write_pos + more
  pub step_is : c.step ≡ b.step

module _ (b : IoBuffer) (v : IsBuffer b) where
  pub kept-Fits : (c : IoBuffer) (more : ℕ) → IsKept b v c → Fits b more (contents b) c
  kept-Fits c more k = record {
    valid = k.valid;
    same = k.same;
    end = omega (arith, k.positions);
    step_is = k.step_is;
  }

  -- The buffer whose read position is advanced, as `read` and `skip` do.
  pub advanced-Fits :
      (n : ℕ)
      → Fits b 0 (drop n (contents b)) (record b { read_pos = b.read_pos + min n (readable b) })
  advanced-Fits n =
      let k = readable-eq b v in
      let valid : IsBuffer (record b { read_pos = b.read_pos + min n (readable b) }) = record {
        size_is = v.size_is;
        order = omega (arith, v);
        inside = v.inside;
        short = v.short;
      } in
      record { valid = valid; same = advanced k; end = omega arith; step_is = refl }
    where
      advanced :
          readable b ≡ b.write_pos - b.read_pos
          → contents (record b { read_pos = b.read_pos + min n (readable b) }) ≡ drop n (contents b)
      advanced k =
          let m = b.write_pos - b.read_pos in
          let start : b.read_pos + min n (readable b) ≡ b.read_pos + min n m = omega arith in
          let rest : b.write_pos - (b.read_pos + min n (readable b)) ≡ m - min n m = omega arith in
          ap₂ (λ (at left : ℕ). slice b.bytes at left) start rest
          ∙ sym (drop-slice n b.bytes b.read_pos m (omega (arith, v)))

  module _ (src : List ℕ) (room : b.write_pos + length src ≤ b.size) where
    abbrev written : IoBuffer
    written = record b {
      bytes = blit b.bytes b.write_pos src;
      write_pos = b.write_pos + length src;
    }

    written-IsBuffer : IsBuffer written
    written-IsBuffer = record {
      size_is = length-blit b.bytes b.write_pos src ∙ v.size_is;
      order = omega (arith, v);
      inside = room;
      short = v.short;
    }

    written_at :
        (i : ℕ)
        → i < length (contents written)
        → get_or (contents written) i 0 ≡ get_or (contents b ++ src) i 0
    written_at i h =
        let n = length-contents b v in
        let m = length-contents written written-IsBuffer in
        let read_at =
          get_or-slice written.bytes b.read_pos (written.write_pos - b.read_pos) i (omega arith) in
        elim (dec_lt i (length (contents b))) [
          | yes lt ↦
              read_at
              ∙ get_or-blit_before b.bytes b.write_pos src (b.read_pos + i) (omega arith)
              ∙ sym (get_or-slice b.bytes b.read_pos (b.write_pos - b.read_pos) i (omega arith))
              ∙ sym (get_or-append_before (contents b) src i lt)
          | no ge ↦
              let j = i - length (contents b) in
              let at : b.read_pos + i ≡ b.write_pos + j = omega (arith, v) in
              let after : length (contents b) + j ≡ i = omega arith in
              read_at
              ∙ ap (λ (k : ℕ). get_or (blit b.bytes b.write_pos src) k 0) at
              ∙ get_or-blit_inside b.bytes b.write_pos src j (omega (arith, v)) (omega (arith, v))
              ∙ sym (get_or-append_after (contents b) src j)
              ∙ ap (λ (k : ℕ). get_or (contents b ++ src) k 0) after
        ]

    contents-written : contents written ≡ contents b ++ src
    contents-written =
        list_ext (contents written) (contents b ++ src)
          (omega (
            arith,
            v,
            length-contents b v,
            length-contents written written-IsBuffer,
            length-append (contents b) src,
          ))
          written_at

module _ (b : IoBuffer) (v : IsBuffer b) where
  pub write-Fits :
      (src : List ℕ)
      → b.write_pos + length src + b.step < 2 ^ 64
      → Fits b (length src) (contents b ++ src) (write b src).1
  unfolding write
  write-Fits [] small =
      subst (λ (q : List ℕ). Fits b 0 q b) (sym (append_nothing (contents b)))
        (kept-Fits b v b 0 (itself-IsKept b v))
  write-Fits (x ∷ xs) small =
      let src = x ∷ xs in
      let test : (length src == 0) ≡ false = ground arith in
      let (k, room) = expect-IsKept b v (length src) small in
      let c = expect b (length src) in
      let w = written-IsBuffer c k.valid src room in
      let end : c.write_pos +size length src ≡ c.write_pos + length src = omega (arith, k.valid) in
      rw test (
        rw end (record {
          valid = w;
          same = contents-written c k.valid src room ∙ ap (λ (q : List ℕ). q ++ src) k.same;
          end = omega (arith, k.positions);
          step_is = k.step_is;
        }))

  pub recycle-Fits :
      (n : ℕ)
      → Fits b 0
          (drop n (contents b))
          (recycle (record b { read_pos = b.read_pos + min n (readable b) }))
  recycle-Fits n =
      let f = advanced-Fits b v n in
      let k = recycle-IsKept _ f.valid in
      record {
        valid = k.valid;
        same = k.same ∙ f.same;
        end = omega (arith, k.positions, f.end);
        step_is = k.step_is ∙ f.step_is;
      }

  -- `read_string` and `skip` where there is nothing to do.
  pub unread-Fits : (n : ℕ) → min n (readable b) ≡ 0 → Fits b 0 (drop n (contents b)) b
  unread-Fits n e =
      let same : record b { read_pos = b.read_pos + min n (readable b) } ≡ b =
        ap (λ (at : ℕ). record b { read_pos = at }) (omega arith) in
      subst (λ (c : IoBuffer). Fits b 0 (drop n (contents b)) c) same (advanced-Fits b v n)

  -- The bytes that `read` and `readString` copy.
  pub copied : (n : ℕ) → slice b.bytes b.read_pos (min n (readable b)) ≡ take n (contents b)
  copied n =
      ap (λ (k : ℕ). slice b.bytes b.read_pos (min n k)) (readable-eq b v)
      ∙ sym (take-slice n b.bytes b.read_pos (b.write_pos - b.read_pos))
