-- ===== src/Comn/ByteBuffer/Contents.antt =====
-- The bytes that a ByteBuffer holds, and the end mark behind them.
use dgnss_server.Common.{
  ℕ, ◌+◌, ◌-◌, ◌*◌, ◌%◌, ◌^◌, ◌≤◌, ◌<◌, ◌≡◌, ◌⊎◌, inl, inr, refl, sym, ◌∙◌, ap, subst, arith, false,
  List, ◌++◌, length, take, drop, set, replicate, leb, ◌==◌, get_or, min, length-take, length-set,
  length-replicate, length-append, get_or-set_self, get_or-set_ne, Bool-cases, dec_lt, ==_iff,
}
use dgnss_server.Comn.Memory.{
  ◌+size◌, slice, blit, length-blit, get_or-blit_inside, get_or-blit_before, get_or-take,
  get_or-append_before, get_or-append_after, length-slice, list_ext, drop-slice, take-blit,
  drop_past,
}
use dgnss_server.Comn.ByteBuffer.{ByteBuffer, reserved_size, internal_ensure, write_bytes, trim}

abbrev pub contents : ByteBuffer → List ℕ
contents b = take b.length_of b.bytes

-- The array has its size, and room for the end mark once there is one.
pub record IsByteBuffer (b : ByteBuffer) : Type 0 where
  pub size : length b.bytes ≡ b.capacity
  pub room : (b.capacity ≡ 0) × (b.length_of ≡ 0) ⊎ (b.length_of < b.capacity)

module _ (b : ByteBuffer) (v : IsByteBuffer b) where
  fits : b.length_of ≤ length b.bytes
  fits = bound v.room
    where
      bound :
          (b.capacity ≡ 0) × (b.length_of ≡ 0) ⊎ (b.length_of < b.capacity)
          → b.length_of ≤ length b.bytes
      bound (inl e) = omega (arith, v.size)
      bound (inr lt) = omega (arith, v.size)

  length-contents : length (contents b) ≡ b.length_of
  length-contents = omega (arith, length-take b.length_of b.bytes, fits)

  -- What `internalEnsure` leaves for `n` bytes.
  record IsEnsured (n : ℕ) (c : ByteBuffer) : Type 0 where
    size : length c.bytes ≡ c.capacity
    room : n + reserved_size ≤ c.capacity
    length_is : c.length_of ≡ b.length_of
    same : (i : ℕ) → i < b.length_of → get_or c.bytes i 0 ≡ get_or b.bytes i 0

  internal_ensure-IsEnsured :
      (n : ℕ)
      → b.length_of ≤ n
      → (b.capacity + n + 16) * 2 < 2 ^ 64
      → IsEnsured n (internal_ensure b n)
  unfolding internal_ensure
  internal_ensure-IsEnsured n more small =
      let sum : n +size reserved_size ≡ n + 16 = omega arith in
      let larger : (b.capacity + (n +size reserved_size)) * 2 % 2 ^ 64 ≡ (b.capacity + n + 16) * 2 =
        omega arith in
      elim (Bool-cases (leb (n +size reserved_size) b.capacity)) [
        | inl e ↦ rw e (record {
          size = v.size;
          room = ground (arith, sum);
          length_is = refl;
          same = λ i h. refl;
        })
        | inr e ↦
            let old = contents b in
            let fresh : List ℕ =
              replicate ((b.capacity + (n +size reserved_size)) * 2 % 2 ^ 64) 0 in
            rw e (record {
              size =
                  length-set (blit fresh 0 old) b.length_of 0
                  ∙ length-blit fresh 0 old
                  ∙ length-replicate {A = ℕ} _ 0;
              room = omega (arith, larger);
              length_is = refl;
              same = λ i h. copied fresh i h (
                  omega (
                    arith,
                    larger,
                    length-replicate {A = ℕ} ((b.capacity + (n +size reserved_size)) * 2 % 2 ^ 64)
                        0,
                  ));
            })
      ]
    where
      copied :
          (fresh : List ℕ) (i : ℕ)
          → i < b.length_of
          → b.length_of < length fresh
          → get_or (set (blit fresh 0 (contents b)) b.length_of 0) i 0 ≡ get_or b.bytes i 0
      copied fresh i h enough =
          let zero_add : 0 + i ≡ i = omega arith in
          get_or-set_ne (blit fresh 0 (contents b)) b.length_of i 0 0 (λ e. omega arith)
          ∙ ap (λ (j : ℕ). get_or (blit fresh 0 (contents b)) j 0) (sym zero_add)
          ∙ get_or-blit_inside fresh 0 (contents b) i (omega (arith, length-contents)) (omega arith)
          ∙ get_or-take b.length_of b.bytes i h

  -- What `write` leaves.
  pub record IsWritten (src : List ℕ) (c : ByteBuffer) : Type 0 where
    pub valid : IsByteBuffer c
    pub appended : contents c ≡ contents b ++ src
    pub end_mark : get_or c.bytes c.length_of 0 ≡ 0

  module _ (src : List ℕ) (room : ByteBuffer) (e : IsEnsured (b.length_of + length src) room) where
    abbrev put_there : ByteBuffer
    put_there = record room {
      bytes = set (blit room.bytes room.length_of src) (room.length_of + length src) 0;
      length_of = room.length_of + length src;
    }

    size_there : length put_there.bytes ≡ room.capacity
    size_there =
        length-set (blit room.bytes room.length_of src) _ 0
        ∙ length-blit room.bytes room.length_of src
        ∙ e.size

    there_at :
        (i : ℕ)
        → i < length (contents put_there)
        → get_or (contents put_there) i 0 ≡ get_or (contents b ++ src) i 0
    there_at i h =
        let end = room.length_of + length src in
        let short : i < end = omega (arith, length-take end put_there.bytes) in
        let n = length-contents in
        let start =
          get_or-take end put_there.bytes i short
          ∙ get_or-set_ne (blit room.bytes room.length_of src) end i 0 0 (λ z. omega arith) in
        elim (dec_lt i b.length_of) [
          | yes lt ↦
              start
              ∙ get_or-blit_before room.bytes room.length_of src i (omega (arith, e.length_is))
              ∙ e.same i lt
              ∙ sym (get_or-take b.length_of b.bytes i lt)
              ∙ sym (get_or-append_before (contents b) src i (omega arith))
          | no ge ↦
              let j = i - b.length_of in
              let at : i ≡ room.length_of + j = omega (arith, e.length_is) in
              let after : length (contents b) + j ≡ i = omega arith in
              start
              ∙ ap (λ (k : ℕ). get_or (blit room.bytes room.length_of src) k 0) at
              ∙ get_or-blit_inside room.bytes room.length_of src j (omega (arith, e.length_is))
                  (omega (arith, e.length_is, e.size, e.room))
              ∙ sym (get_or-append_after (contents b) src j)
              ∙ ap (λ (k : ℕ). get_or (contents b ++ src) k 0) after
        ]

    there-IsWritten : IsWritten src put_there
    there-IsWritten = record {
      valid = record { size = size_there; room = inr (omega (arith, e.length_is, e.room)) };
      appended =
          list_ext (contents put_there) (contents b ++ src)
            (omega (
              arith,
              length-take put_there.length_of put_there.bytes,
              size_there,
              e.room,
              e.length_is,
              length-append (contents b) src,
              length-contents,
            ))
            there_at;
      end_mark =
          get_or-set_self (blit room.bytes room.length_of src) (room.length_of + length src) 0 0
            (omega (arith, length-blit room.bytes room.length_of src, e.size, e.room, e.length_is));
    }

  -- `write` of at least one byte appends the bytes to those that are held, whether or not the array
  -- grows, and puts an end mark behind them, where the new size stays below 2^64.
  pub write_bytes-IsWritten :
      (src : List ℕ)
      → 0 < length src
      → (b.capacity + b.length_of + length src + 16) * 2 < 2 ^ 64
      → IsWritten src (write_bytes b src)
  unfolding write_bytes
  write_bytes-IsWritten src some_bytes small =
      let sum : b.length_of +size length src ≡ b.length_of + length src = omega arith in
      let test : (length src == 0) ≡ false = ground arith in
      let e = internal_ensure-IsEnsured (b.length_of + length src) (omega arith) (omega arith) in
      let end : (internal_ensure b (b.length_of + length src)).length_of +size length src
          ≡ (internal_ensure b (b.length_of + length src)).length_of + length src =
        omega (arith, e.length_is) in
      rw (test, sum, end) (there-IsWritten src _ e)

  -- `trim` takes bytes off the front, and keeps the rest in place.
  pub trim_lem : (n : ℕ) → contents (trim b n) ≡ drop n (contents b)
  unfolding trim
  trim_lem n = elim (Bool-cases (b.capacity == 0)) [
    | inl e ↦ rw e (nothing ((==_iff b.capacity 0).0 e))
    | inr e ↦ elim (Bool-cases (leb b.length_of n)) [
      | inl l ↦
          let past : b.length_of ≤ n = ground arith in
          rw (e, l) (sym (drop_past n (contents b) (omega (arith, length-contents))))
      | inr l ↦
          let few : min n b.length_of ≡ n = ground arith in
          let rest = slice b.bytes n (b.length_of - n) in
          let size = length-slice b.bytes n (b.length_of - n) (ground (arith, fits)) in
          let zero_add : 0 + n ≡ n = omega arith in
          rw (e, l)
            (subst (λ (k : ℕ). take k (blit b.bytes 0 rest) ≡ rest) size
                (take-blit b.bytes rest (omega (arith, fits)))
              ∙ sym (
                  drop-slice n b.bytes 0 b.length_of (omega (arith, fits))
                  ∙ rw (few, zero_add) refl))
    ]
  ]
    where
      nothing : b.capacity ≡ 0 → contents b ≡ drop n (contents b)
      nothing e =
          drop_past 0 (contents b) (omega (arith, length-contents, fits, v.size))
          ∙ sym (drop_past n (contents b) (omega (arith, length-contents, fits, v.size)))
