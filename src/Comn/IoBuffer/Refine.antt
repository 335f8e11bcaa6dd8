-- ===== src/Comn/IoBuffer/Refine.antt =====
-- IOBuffer is a queue of bytes: what is written is read, in order.
use dgnss_server.Common.{
  ℕ, ◌+◌, ◌-◌, ◌^◌, ◌≤◌, ◌<◌, ◌≡◌, refl, sym, ◌∙◌, ap, arith, List, length, get_or, ◌==◌, leb, true,
  false, Bool-cases, inl, inr, ℕ_discrete, length-replicate, ==_iff,
}
use dgnss_server.Comn.Memory.{
  slice, blit, ◌+size◌, length-blit, get_or-blit_inside, length-slice, get_or-slice, list_ext,
}
use dgnss_server.Comn.IoBuffer.{IoBuffer, readable, move_data, expect, fresh, clear_buffer, recycle}
use dgnss_server.Comn.IoBuffer.Move.{move_chunks-IsMoved}

-- The positions are in order and inside the array.
pub record IsBuffer (b : IoBuffer) : Type 0 where
  pub size_is : length b.bytes ≡ b.size
  pub order : b.read_pos ≤ b.write_pos
  pub inside : b.write_pos ≤ b.size
  pub short : b.size < 2 ^ 64

-- The bytes that are still to be read.
abbrev pub contents : IoBuffer → List ℕ
contents b = slice b.bytes b.read_pos (b.write_pos - b.read_pos)

module _ (b : IoBuffer) (v : IsBuffer b) where
  pub readable-eq : readable b ≡ b.write_pos - b.read_pos
  unfolding readable
  readable-eq = omega (arith, v)

  pub length-contents : length (contents b) ≡ b.write_pos - b.read_pos
  length-contents = length-slice b.bytes b.read_pos _ (omega (arith, v))

  contents_at :
      (i : ℕ)
      → i < b.write_pos - b.read_pos
      → get_or (contents b) i 0 ≡ get_or b.bytes (b.read_pos + i) 0
  contents_at i h = get_or-slice b.bytes b.read_pos _ i h

  -- Another buffer with the same bytes from its own position on holds the same.
  same_contents :
      (c : IoBuffer)
      → IsBuffer c
      → c.write_pos - c.read_pos ≡ b.write_pos - b.read_pos
      → ((i : ℕ)
          → i < b.write_pos - b.read_pos
          → get_or c.bytes (c.read_pos + i) 0 ≡ get_or b.bytes (b.read_pos + i) 0)
      → contents c ≡ contents b
  same_contents c w n same =
      list_ext (contents c) (contents b)
        (length-slice c.bytes c.read_pos _ (omega (arith, w)) ∙ n ∙ sym length-contents)
        (λ i h.
          let lt : i < b.write_pos - b.read_pos = omega (
            arith,
            length-slice c.bytes c.read_pos (c.write_pos - c.read_pos) (omega (arith, w)),
          ) in
          get_or-slice c.bytes c.read_pos _ i (omega arith) ∙ same i lt ∙ sym (contents_at i lt))

  -- What `moveData` and `expect` leave: the same bytes to be read, at the start of the array.
  pub record IsKept (c : IoBuffer) : Type 0 where
    pub valid : IsBuffer c
    pub same : contents c ≡ contents b
    pub positions : (c.read_pos ≤ b.read_pos) × (c.write_pos ≤ b.write_pos)
    pub step_is : c.step ≡ b.step

  pub itself-IsKept : IsKept b
  itself-IsKept = record {
    valid = v;
    same = refl;
    positions = (omega arith, omega arith);
    step_is = refl;
  }

  moved-IsKept :
      (bytes : List ℕ) (size : ℕ)
      → length bytes ≡ size
      → b.write_pos - b.read_pos ≤ size
      → size < 2 ^ 64
      → ((i : ℕ)
          → i < b.write_pos - b.read_pos
          → get_or bytes i 0 ≡ get_or b.bytes (i + b.read_pos) 0)
      → IsKept (record b { bytes = bytes; size = size; write_pos = readable b; read_pos = 0 })
  moved-IsKept bytes size e fits short same =
      let c : IoBuffer = record b {
        bytes = bytes;
        size = size;
        write_pos = readable b;
        read_pos = 0;
      } in
      let valid : IsBuffer c = record {
        size_is = e;
        order = omega arith;
        inside = omega (arith, readable-eq);
        short = short;
      } in
      record {
        valid = valid;
        same = same_contents c valid (omega (arith, readable-eq)) (λ i h.
            let zero_add : 0 + i ≡ i = omega arith in
            let comm : i + b.read_pos ≡ b.read_pos + i = omega arith in
            ap (λ (j : ℕ). get_or bytes j 0) zero_add
            ∙ same i h
            ∙ ap (λ (j : ℕ). get_or b.bytes j 0) comm);
        positions = (omega arith, omega (arith, readable-eq));
        step_is = refl;
      }

  -- A `memcpy` of the bytes to be read to the start of an array.
  front :
      (bytes : List ℕ) (i : ℕ)
      → b.write_pos - b.read_pos ≤ length bytes
      → i < b.write_pos - b.read_pos
      → get_or (blit bytes 0 (slice b.bytes b.read_pos (readable b))) i 0
        ≡ get_or b.bytes (i + b.read_pos) 0
  front bytes i room h =
      let n : length (slice b.bytes b.read_pos (readable b)) ≡ b.write_pos - b.read_pos =
        length-slice b.bytes b.read_pos (readable b) (omega (arith, v, readable-eq))
        ∙ readable-eq in
      let zero_add : 0 + i ≡ i = omega arith in
      let comm : b.read_pos + i ≡ i + b.read_pos = omega arith in
      ap (λ (j : ℕ). get_or (blit bytes 0 (slice b.bytes b.read_pos (readable b))) j 0)
        (sym zero_add)
      ∙ get_or-blit_inside bytes 0 (slice b.bytes b.read_pos (readable b)) i (omega arith)
          (omega arith)
      ∙ get_or-slice b.bytes b.read_pos (readable b) i (omega (arith, readable-eq))
      ∙ ap (λ (j : ℕ). get_or b.bytes j 0) comm

  pub move_data-IsKept : IsKept (move_data b)
  unfolding move_data
  move_data-IsKept = elim (ℕ_discrete b.read_pos 0) [
    | yes e ↦ let test : (b.read_pos == 0) ≡ true = ground arith in rw test itself-IsKept
    | no ne ↦
        let test : (b.read_pos == 0) ≡ false = ground arith in
        elim (Bool-cases (leb (readable b) b.read_pos)) [
          | inl e ↦
              rw (test, e)
                (moved-IsKept _ b.size (length-blit b.bytes 0 _ ∙ v.size_is) (omega (arith, v))
                  v.short (λ i h. front b.bytes i (omega (arith, v)) h))
          | inr e ↦
              let more : b.read_pos < readable b = ground arith in
              let m =
                move_chunks-IsMoved b.read_pos (readable b) b.bytes (omega arith) more
                  (omega (arith, v, readable-eq)) in
              rw (test, e)
                (moved-IsKept _ b.size (m.size ∙ v.size_is) (omega (arith, v)) v.short
                  (λ i h. m.moved i (omega (arith, readable-eq))))
        ]
  ]

  move_data-room :
      ((move_data b).write_pos ≡ b.write_pos - b.read_pos) × ((move_data b).size ≡ b.size)
  unfolding move_data
  move_data-room = elim (Bool-cases (b.read_pos == 0)) [
    | inl e ↦ rw e (ground (arith, v), refl)
    | inr e ↦ elim (Bool-cases (leb (readable b) b.read_pos)) [
      | inl l ↦ rw (e, l) (readable-eq, refl)
      | inr l ↦ rw (e, l) (readable-eq, refl)
    ]
  ]

  -- `expect` keeps the bytes and makes room for `n` more.
  pub expect-IsKept :
      (n : ℕ)
      → b.write_pos + n + b.step < 2 ^ 64
      → IsKept (expect b n) × ((expect b n).write_pos + n ≤ (expect b n).size)
  unfolding expect
  expect-IsKept n small =
      let sum : b.write_pos +size n ≡ b.write_pos + n = omega arith in
      let larger : b.write_pos +size n +size b.step ≡ b.write_pos + n + b.step = omega arith in
      let left = readable-eq in
      elim (Bool-cases (n == 0)) [
        | inl e ↦ rw e (itself-IsKept, ground (arith, v))
        | inr e1 ↦ elim (Bool-cases (leb (b.write_pos +size n) b.size)) [
          | inl e ↦ rw (e1, e) (itself-IsKept, ground (arith, sum))
          | inr e2 ↦ elim (Bool-cases (length b.bytes == 0)) [
            | inl e ↦
                rw (e1, e2, e)
                  (fresh_kept n (omega arith) ((==_iff (length b.bytes) 0).0 e), omega arith)
            | inr e3 ↦ elim (Bool-cases (leb (readable b +size n) b.size)) [
              | inl e ↦
                  rw (e1, e2, e3, e) (move_data-IsKept, ground (arith, left, move_data-room, small))
              | inr e4 ↦
                  rw (e1, e2, e3, e4)
                    (
                      moved-IsKept _ _ (length-blit _ 0 _ ∙ length-replicate {A = ℕ} _ 0)
                          (omega (arith, larger)) (omega (arith, larger))
                          (λ i h.
                            front _ i
                              (omega (
                                arith,
                                larger,
                                length-replicate {A = ℕ} (b.write_pos +size n +size b.step) 0,
                              ))
                              h),
                      omega (arith, larger, left),
                    )
            ]
          ]
        ]
      ]
    where
      fresh_kept :
          (n : ℕ)
          → n < 2 ^ 64
          → length b.bytes ≡ 0
          → IsKept (record b { bytes = fresh n; size = n; read_pos = 0; write_pos = 0 })
      fresh_kept n short e =
          let valid : IsBuffer
              (record b { bytes = fresh n; size = n; read_pos = 0; write_pos = 0 }) =
            record {
              size_is = length-replicate n 0;
              order = omega arith;
              inside = omega arith;
              short = short;
            } in
          record {
            valid = valid;
            same = same_contents _ valid (omega (arith, v)) (λ i h. absurd (omega (arith, v)));
            positions = (omega arith, omega arith);
            step_is = refl;
          }

  pub recycle-IsKept : IsKept (recycle b)
  unfolding recycle clear_buffer
  recycle-IsKept = elim (Bool-cases (b.read_pos == b.write_pos)) [
    | inl e ↦
        let same = (==_iff b.read_pos b.write_pos).0 e in
        let valid : IsBuffer (clear_buffer b) = record {
          size_is = v.size_is;
          order = omega arith;
          inside = omega arith;
          short = v.short;
        } in
        rw e (record {
          valid = valid;
          same = same_contents _ valid (omega arith) (λ i h. absurd (omega arith));
          positions = (omega arith, omega arith);
          step_is = refl;
        })
    | inr e ↦ rw e itself-IsKept
  ]
