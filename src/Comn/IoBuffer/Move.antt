-- ===== src/Comn/IoBuffer/Move.antt =====
-- moveData moves the bytes that are still to be read to the start of the array.
use dgnss_server.Common.{
  ℕ, zero, suc, ◌+◌, ◌-◌, ◌*◌, ◌/◌, ◌%◌, ◌≤◌, ◌<◌, ◌≡◌, subst, refl, sym, ◌∙◌, ap, arith, List,
  length, get_or, for_loop, if◌then◌else◌, ◌==◌, Bool-cases, inl, inr, dec_lt, ℕ_discrete, ==_iff,
  mul-le-mul_right, mod-lt,
}
use native.Mathlib.Nat.{div-add-mod'}
use dgnss_server.Comn.Memory.{
  slice, blit, length-blit, get_or-blit_inside, get_or-blit_before, get_or-blit_after, length-slice,
  get_or-slice,
}
use dgnss_server.Comn.IoBuffer.{move_chunk, move_chunks}

-- An array whose first `done` bytes are those `r` further on in the array `old`, and whose other
-- bytes are the old ones.
pub record IsMoved (r : ℕ) (old new : List ℕ) (done : ℕ) : Type 0 where
  pub size : length new ≡ length old
  pub moved : (i : ℕ) → i < done → get_or new i 0 ≡ get_or old (i + r) 0
  pub rest : (i : ℕ) → done ≤ i → get_or new i 0 ≡ get_or old i 0

module _ (r n : ℕ) (old new : List ℕ) (at : ℕ) (m : IsMoved r old new at) (few : n ≤ r)
    (room : at + r + n ≤ length old) where
  abbrev chunk : List ℕ
  chunk = slice new (at + r) n

  length-chunk : length chunk ≡ n
  length-chunk = length-slice new (at + r) n (omega (arith, m.size))

  copied : (i : ℕ) → i < n → get_or (blit new at chunk) (at + i) 0 ≡ get_or old (at + i + r) 0
  copied i h =
      let e : at + r + i ≡ at + i + r = omega arith in
      get_or-blit_inside new at chunk i (omega (arith, length-chunk)) (omega (arith, m.size))
      ∙ get_or-slice new (at + r) n i h
      ∙ m.rest (at + r + i) (omega arith)
      ∙ ap (λ (j : ℕ). get_or old j 0) e

  -- One `memcpy` moves `n` bytes more.
  IsMoved-blit : IsMoved r old (blit new at chunk) (at + n)
  IsMoved-blit = record {
    size = length-blit new at chunk ∙ m.size;
    moved = λ i h. elim (dec_lt i at) [
      | yes lt ↦ get_or-blit_before new at chunk i lt ∙ m.moved i lt
      | no ge ↦
          let e : at + (i - at) ≡ i = omega arith in
          subst (λ (j : ℕ). get_or (blit new at chunk) j 0 ≡ get_or old (j + r) 0) e
            (copied (i - at) (omega arith))
    ];
    rest = λ i h.
        get_or-blit_after new at chunk i (omega (arith, length-chunk)) ∙ m.rest i (omega arith);
  }

-- The loop of `moveData` after `n` rounds from the round `i` on.
IsMoved-for_loop :
    (r n i : ℕ) (old new : List ℕ) (dest : ℕ)
    → IsMoved r old new (i * r)
    → (i + n) * r + r ≤ length old
    → let s = for_loop n i (move_chunk r) (new, dest) in
      IsMoved r old s.0 ((i + n) * r) × ((0 < n) → s.1 + r ≡ (i + n) * r)
unfolding for_loop move_chunk
IsMoved-for_loop r zero i old new dest m room =
    let e : i + zero ≡ i = omega arith in (rw e m, λ h. absurd (omega arith))
IsMoved-for_loop r (suc n) i old new dest m room =
    let next : (i + 1) * r ≡ i * r + r = grind arith in
    let end : i + 1 + n ≡ i + suc n = omega arith in
    let low : (i + 1) * r ≤ (i + suc n) * r = mul-le-mul_right r (omega arith) in
    let new' = blit new (i * r) (slice new (i * r + r) r) in
    let step = IsMoved-blit r r old new (i * r) m (omega arith) (omega arith) in
    let rest = IsMoved-for_loop r n (i + 1) old new' (i * r) (rw next step) (rw end room) in
    (
      subst (λ (k : ℕ). IsMoved r old (for_loop n (i + 1) (move_chunk r) (new', i * r)).0 (k * r))
          end rest.0,
      λ h. elim (ℕ_discrete n 0) [
        | yes e ↦ last n e
        | no ne ↦ rest.1 (omega arith) ∙ ap (λ (k : ℕ). k * r) end
      ],
    )
  where
    last :
        (n : ℕ)
        → n ≡ 0
        → (for_loop n (i + 1) (move_chunk r) (blit new (i * r) (slice new (i * r + r) r), i * r)).1
            + r
          ≡ (i + suc n) * r
    last zero e = grind arith
    last (suc n) e = absurd (omega arith)

-- The last `memcpy` of `moveData`, where the loop has moved `done` bytes.
last_chunk :
    (r left done dest : ℕ) (old new : List ℕ)
    → IsMoved r old new done
    → dest + r ≡ done
    → left < r
    → done + r + left ≤ length old
    → IsMoved r old
        (if left == 0 then new else blit new (dest + r) (slice new (dest + r + r) left))
        (done + left)
last_chunk r left done dest old new m e few room = elim (Bool-cases (left == 0)) [
  | inl none_left ↦
      let same : done ≡ done + left = omega (arith, (==_iff left 0).0 none_left) in
      rw none_left (subst (λ (k : ℕ). IsMoved r old new k) same m)
  | inr some_left ↦ rw (some_left, e) (IsMoved-blit r left old new done m (omega arith) room)
]

-- The whole loop with its remainder: the first `n` bytes are those that were `r` further on.
pub move_chunks-IsMoved :
    (r n : ℕ) (old : List ℕ)
    → 0 < r
    → r < n
    → r + n ≤ length old
    → IsMoved r old (move_chunks r n old) n
unfolding move_chunks
move_chunks-IsMoved r n old some_read more room =
    let parts : n ≡ n / r * r + n % r = omega (arith, div-add-mod' n r) in
    let few : n % r < r = mod-lt n some_read in
    let whole : 0 + n / r ≡ n / r = omega arith in
    let one : 0 < n / r = one_chunk (n / r) parts few in
    let start : IsMoved r old old (0 * r) = record {
      size = refl;
      moved = λ i h. absurd (omega arith);
      rest = λ i h. refl;
    } in
    let loop = IsMoved-for_loop r (n / r) 0 old old 0 start (rw whole (omega arith)) in
    let out = for_loop (n / r) 0 (move_chunk r) (old, 0) in
    let moved = subst (λ (k : ℕ). IsMoved r old out.0 (k * r)) whole loop.0 in
    subst (λ (k : ℕ). IsMoved r old (move_chunks r n old) k) (sym parts)
      (last_chunk r (n % r) (n / r * r) out.1 old out.0 moved (loop.1 one ∙ rw whole) few
        (omega arith))
  where
    one_chunk : (k : ℕ) → n ≡ k * r + n % r → n % r < r → 0 < k
    one_chunk zero e h = absurd (omega arith)
    one_chunk (suc k) e h = omega arith
