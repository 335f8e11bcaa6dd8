-- ===== src/Time/Leaps.antt =====
-- UTC and GPS time: utc2gpst and gpst2utc on whole seconds.
use dgnss_server.Common.{
  ℕ, suc, ◌+◌, ◌-◌, ◌^◌, ◌≤◌, ◌<◌, ◌≡◌, refl, sym, ◌∙◌, ap, arith, true, false, List, [], ◌∷◌, All,
  leb, Bool-cases, inl, inr,
}
use dgnss_server.Common.Int.{ℤ, pos, negsuc, pos_part, neg_part, ◌+ℤ◌, ◌-ℤ◌, neg_ℤ, leb_ℤ}
use dgnss_server.Double.{Double, IsExact, IsExactInt, IsInt32}
use dgnss_server.Time.{
  GTime, Leap, leaps, leap_time, timeadd, timediff, year_days, utc2gpst_rows, utc2gpst,
  gpst2utc_rows, gpst2utc,
}
use dgnss_server.Time.Calendar.{Stamp, IsStamp, stamp_seconds, epoch2time-stamp}

-- The start of a row of the table, and by how many seconds GPS time is then ahead.
abbrev midnight : Leap → Stamp
midnight l = record { year = l.year; mon = l.mon; day = l.day; hour = 0; minute = 0; sec = 0 }

abbrev start : Leap → ℕ
start l = stamp_seconds (midnight l)

abbrev ahead : Leap → ℕ
ahead l = neg_part l.offset

record IsRow (l : Leap) : Type 0 where
  dated : IsStamp (midnight l)
  after : 18 ≤ start l
  before : start l < 2 ^ 32
  some_seconds : 1 ≤ ahead l
  few_seconds : ahead l ≤ 18
  negative : pos_part l.offset ≡ 0

-- Older rows are less far ahead.
abbrev AreRows : List Leap → Type 0
AreRows [] = Unit
AreRows (l ∷ ls) = IsRow l × All (λ (m : Leap). ahead m ≤ ahead l) ls × AreRows ls

leaps-AreRows : AreRows leaps
unfolding year_days
leaps-AreRows = omega arith

row_offset : (o : ℤ) → 1 ≤ neg_part o → o ≡ negsuc (neg_part o - 1)
row_offset (pos n) h = absurd (omega arith)
row_offset (negsuc n) h = ap negsuc (omega arith)

sum_pos : (a b : ℕ) → pos a +ℤ pos b ≡ pos (a + b)
unfolding ◌+ℤ◌
sum_pos a b = ground arith

sum_neg : (a k : ℕ) → suc k ≤ a → pos a +ℤ negsuc k ≡ pos (a - suc k)
unfolding ◌+ℤ◌
sum_neg a k h = ground arith

neg_offset : (o : ℤ) → 1 ≤ neg_part o → neg_ℤ o ≡ pos (neg_part o)
unfolding ◌-ℤ◌
neg_offset (pos n) h = absurd (omega arith)
neg_offset (negsuc n) h = ground arith

not_nought : (o : ℤ) → 1 ≤ neg_part o → o ≡ pos 0 → ⊥
not_nought o h e = absurd (omega (arith, ap neg_part e))

sum_offset : (a : ℕ) (o : ℤ) → 1 ≤ neg_part o → neg_part o ≤ a → pos a +ℤ o ≡ pos (a - neg_part o)
sum_offset a (pos n) h k = absurd (omega arith)
sum_offset a (negsuc n) h k = sum_neg a n k

difference : (z : ℤ) → z -ℤ z ≡ pos 0
unfolding ◌-ℤ◌
difference z = ground arith

plus_nought : (z : ℤ) → z +ℤ pos 0 ≡ z
unfolding ◌+ℤ◌
plus_nought z = ground arith

nought_plus : (z : ℤ) → pos 0 +ℤ z ≡ z
unfolding ◌+ℤ◌
nought_plus z = ground arith

minus_nought : (z : ℤ) → z -ℤ pos 0 ≡ z
unfolding ◌-ℤ◌
minus_nought z = ground arith

not_before : (s t : ℕ) → leb_ℤ (pos 0) (pos t -ℤ pos s) ≡ leb s t
unfolding ◌-ℤ◌
not_before s t = ground arith

difference-IsExactInt : (s t : ℕ) → s < 2 ^ 41 → t < 2 ^ 41 → IsExactInt (pos t -ℤ pos s)
unfolding ◌-ℤ◌
difference-IsExactInt s t h k = ground arith

module _ {F : Type 0} ⦃d : Double F⦄ (exact : IsExact F) where
  open d use {of_int, add, sub, neg, le}

  -- A whole second.
  abbrev pub second : ℕ → GTime F
  second t = record { time = pos t; sec = of_int (pos 0) }

  timeadd-second :
      (t r : ℕ) (z : ℤ) → IsInt32 z → pos t +ℤ z ≡ pos r → timeadd (second t) (of_int z) ≡ second r
  unfolding timeadd
  timeadd-second t r z int e =
      let h : IsExactInt z = omega (arith, int) in
      let none : IsExactInt (pos 0) = omega arith in
      let sum : add (of_int (pos 0)) (of_int z) ≡ of_int z =
        exact.add-of_int (pos 0) z none h (rw (nought_plus z) h) ∙ ap of_int (nought_plus z) in
      let rest : sub (of_int z) (of_int z) ≡ of_int (pos 0) =
        exact.sub-of_int z z h h (rw (difference z) none) ∙ ap of_int (difference z) in
      rw (sum, exact.floor-of_int z h, exact.to_int-of_int z int, rest, e)

  timediff-second :
      (s t : ℕ)
      → s < 2 ^ 41
      → t < 2 ^ 41
      → le (of_int (pos 0)) (timediff (second t) (second s)) ≡ leb s t
  unfolding timediff
  timediff-second s t h k =
      let z = pos t -ℤ pos s in
      let small : IsExactInt z = difference-IsExactInt s t h k in
      let none : IsExactInt (pos 0) = omega arith in
      let sum : add (of_int z) (of_int (pos 0)) ≡ of_int z =
        exact.add-of_int z (pos 0) small none (rw (plus_nought z) small)
        ∙ ap of_int (plus_nought z) in
      let rest : sub (of_int z) (of_int (pos 0)) ≡ of_int z =
        exact.sub-of_int z (pos 0) small none (rw (minus_nought z) small)
        ∙ ap of_int (minus_nought z) in
      ap (λ x. le (of_int (pos 0)) (sub x (of_int (pos 0)))) sum
      ∙ ap (le (of_int (pos 0))) rest
      ∙ exact.le-of_int (pos 0) z none small
      ∙ not_before s t

  row_time : (l : Leap) → IsRow l → leap_time l ≡ second (start l)
  row_time l r = epoch2time-stamp exact (midnight l) r.dated

  forth :
      (l : Leap) (t : ℕ)
      → IsRow l
      → timeadd (second t) (neg (of_int l.offset)) ≡ second (t + ahead l)
  forth l t r =
      let small : IsExactInt l.offset = (omega (arith, r.negative), omega (arith, r.few_seconds)) in
      let away : neg (of_int l.offset) ≡ of_int (pos (ahead l)) =
        exact.neg-of_int l.offset small (λ e. not_nought l.offset r.some_seconds e)
        ∙ ap of_int (neg_offset l.offset r.some_seconds) in
      ap (timeadd (second t)) away
      ∙ timeadd-second t (t + ahead l) (pos (ahead l)) (omega (arith, r.few_seconds), omega arith)
          (sum_pos t (ahead l))

  back :
      (l : Leap) (t : ℕ)
      → IsRow l
      → ahead l ≤ t
      → timeadd (second t) (of_int l.offset) ≡ second (t - ahead l)
  back l t r h =
      let small : IsInt32 l.offset = (omega (arith, r.negative), omega (arith, r.few_seconds)) in
      timeadd-second t (t - ahead l) l.offset small (sum_offset t l.offset r.some_seconds h)

  reached :
      (l : Leap) (t : ℕ)
      → IsRow l
      → t < 2 ^ 41
      → le (of_int (pos 0)) (timediff (second t) (leap_time l)) ≡ leb (start l) t
  reached l t r h = rw (row_time l r) (timediff-second (start l) t (omega (arith, r.before)) h)

  -- What the two loops do with the second t, of which the offset is at most k.
  record Passes (ls : List Leap) (t k : ℕ) : Type 0 where
    gained : ℕ
    few : gained ≤ k
    there : utc2gpst_rows ls (second t) ≡ second (t + gained)
    home : gpst2utc_rows ls (second (t + gained)) ≡ second t

  pass_hit :
      (l : Leap) (ls : List Leap) (t k : ℕ)
      → IsRow l
      → t < 2 ^ 40
      → ahead l ≤ k
      → leb (start l) t ≡ true
      → Passes (l ∷ ls) t k
  unfolding utc2gpst_rows gpst2utc_rows
  pass_hit l ls t k r below few hit =
      let tu : timeadd (second (t + ahead l)) (of_int l.offset) ≡ second t =
        back l (t + ahead l) r (omega arith) ∙ ap second (omega arith) in
      record {
        gained = ahead l;
        few = few;
        there = rw (reached l t r (omega arith), hit) (forth l t r);
        home = rw (tu, reached l t r (omega arith), hit) refl;
      }

  pass_miss :
      (l : Leap) (ls : List Leap) (t k : ℕ)
      → IsRow l
      → 18 ≤ t
      → t < 2 ^ 40
      → ahead l ≤ k
      → leb (start l) t ≡ false
      → Passes ls t (ahead l)
      → Passes (l ∷ ls) t k
  unfolding utc2gpst_rows gpst2utc_rows
  pass_miss l ls t k r some below few miss p =
      let small : p.gained ≤ 18 = omega (arith, p.few, r.few_seconds) in
      let u = t + p.gained - ahead l in
      let tu : timeadd (second (t + p.gained)) (of_int l.offset) ≡ second u =
        back l (t + p.gained) r (omega (arith, r.few_seconds)) in
      let still : leb (start l) u ≡ false = ground (arith, miss, p.few) in
      record {
        gained = p.gained;
        few = omega (arith, p.few);
        there = rw (reached l t r (omega arith), miss) p.there;
        home = rw (tu, reached l u r (omega arith), still) p.home;
      }

  pass :
      (ls : List Leap) (t k : ℕ)
      → AreRows ls
      → All (λ (m : Leap). ahead m ≤ k) ls
      → 18 ≤ t
      → t < 2 ^ 40
      → Passes ls t k
  unfolding utc2gpst_rows gpst2utc_rows
  pass [] t k rows most some below =
      let same : t + 0 ≡ t = omega arith in
      record { gained = 0; few = omega arith; there = ap second (sym same); home = ap second same }
  pass (l ∷ ls) t k (r, older, rows) most some below =
      let rest = pass ls t (ahead l) rows older some below in
      elim (Bool-cases (leb (start l) t)) [
        | inl hit ↦ pass_hit l ls t k r below most.0 hit
        | inr miss ↦ pass_miss l ls t k r some below most.0 miss rest
      ]

  -- From 18 seconds after 1970 on, and for 34,000 years, gpst2utc gives back the whole second of
  -- UTC that utc2gpst took, if the doubles are exact on whole numbers: the rows of the table are
  -- found again though the second that the one compares is the offset away from the other's.
  pub gpst2utc-utc2gpst : (t : ℕ) → 18 ≤ t → t < 2 ^ 40 → gpst2utc (utc2gpst (second t)) ≡ second t
  unfolding utc2gpst gpst2utc
  gpst2utc-utc2gpst t some below =
      let p = pass leaps t 18 leaps-AreRows (omega arith) some below in
      ap (gpst2utc_rows leaps) p.there ∙ p.home
