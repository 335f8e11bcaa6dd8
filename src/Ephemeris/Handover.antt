-- ===== src/Ephemeris/Handover.antt =====
-- The handover of weeks in decode_subfrm3, on whole seconds.
use dgnss_server.Common.{
  ℕ, ◌+◌, ◌-◌, ◌*◌, ◌^◌, ◌≤◌, ◌<◌, ◌≡◌, refl, ◌∙◌, ap, arith, ltb, ltb→lt, Bool-cases, inl, inr,
}
use dgnss_server.Common.Int.{ℤ, pos, negsuc, pos_part, neg_part, ◌+ℤ◌, ◌-ℤ◌, ◌*ℤ◌, ltb_ℤ, int32}
use dgnss_server.Double.{Double, IsExact, IsExactInt}
use dgnss_server.Ephemeris.Frames.{ltb-le}
use dgnss_server.Ephemeris.{handover, half_week}

-- The time of the ephemeris lies within half a week of the time of transmission, in seconds from
-- the start of its week, and the two weeks with their seconds name the same time.
pub record IsHandover (toes week tow : ℕ) (week' tow' : ℤ) : Type 0 where
  pub near_past : pos_part tow' ≤ toes + 302400 + neg_part tow'
  pub near_future : toes + neg_part tow' ≤ pos_part tow' + 302400
  pub same : pos 604800 *ℤ week' +ℤ tow' ≡ pos (604800 * week + tow)

next_week : (week : ℕ) → week < 2 ^ 20 → int32 (pos week +ℤ pos 1) ≡ pos (week + 1)
unfolding ◌+ℤ◌
next_week week h = ground arith

last_week : (week : ℕ) → 1 ≤ week → week < 2 ^ 20 → int32 (pos week -ℤ pos 1) ≡ pos (week - 1)
unfolding ◌-ℤ◌
last_week week h k = ground arith

seconds_back : (tow : ℕ) → tow < 604800 → pos tow -ℤ pos 604800 ≡ negsuc (604800 - tow - 1)
unfolding ◌-ℤ◌
seconds_back tow h = ground arith

seconds_forward : (tow : ℕ) → pos tow +ℤ pos 604800 ≡ pos (tow + 604800)
unfolding ◌+ℤ◌
seconds_forward tow = ground arith

back-IsHandover :
    (toes week tow : ℕ)
    → toes + 302400 < tow
    → tow < 604800
    → IsHandover toes week tow (pos (week + 1)) (negsuc (604800 - tow - 1))
back-IsHandover toes week tow h k = record {
  near_past = omega arith;
  near_future = omega arith;
  same = unfold ◌+ℤ◌ ◌*ℤ◌ in ground arith;
}

forward-IsHandover :
    (toes week tow : ℕ)
    → tow + 302400 < toes
    → toes < 604800
    → 1 ≤ week
    → IsHandover toes week tow (pos (week - 1)) (pos (tow + 604800))
forward-IsHandover toes week tow h k l = record {
  near_past = omega arith;
  near_future = omega arith;
  same = unfold ◌+ℤ◌ ◌*ℤ◌ in ground arith;
}

stay-IsHandover :
    (toes week tow : ℕ)
    → tow ≤ toes + 302400
    → toes ≤ tow + 302400
    → IsHandover toes week tow (pos week) (pos tow)
stay-IsHandover toes week tow h k = record {
  near_past = omega arith;
  near_future = omega arith;
  same = unfold ◌+ℤ◌ ◌*ℤ◌ in ground arith;
}

early : (toes tow : ℕ) → ltb_ℤ (pos toes) (pos tow -ℤ pos 302400) ≡ ltb (toes + 302400) tow
unfolding ◌-ℤ◌
early toes tow = ground arith

late : (toes tow : ℕ) → ltb_ℤ (pos tow +ℤ pos 302400) (pos toes) ≡ ltb (tow + 302400) toes
unfolding ◌+ℤ◌
late toes tow = ground arith

sub-IsExactInt : (a b : ℕ) → a < 2 ^ 30 → b < 2 ^ 30 → IsExactInt (pos a -ℤ pos b)
unfolding ◌-ℤ◌
sub-IsExactInt a b h k = ground arith

add-IsExactInt : (a b : ℕ) → a < 2 ^ 30 → b < 2 ^ 30 → IsExactInt (pos a +ℤ pos b)
unfolding ◌+ℤ◌
add-IsExactInt a b h k = ground arith

module _ {F : Type 0} ⦃d : Double F⦄ (exact : IsExact F) (toes week tow : ℕ)
    (in_week : toes < 604800) (of_week : tow < 604800) (some_week : 1 ≤ week)
    (small : week < 2 ^ 20) where
  open d use {of_int, add, sub, lt}

  tow_less :
      (b : ℕ) → b < 2 ^ 30 → sub (of_int (pos tow)) (of_int (pos b)) ≡ of_int (pos tow -ℤ pos b)
  tow_less b h =
      exact.sub-of_int (pos tow) (pos b) (omega arith) (omega arith)
        (sub-IsExactInt tow b (omega arith) h)

  tow_more :
      (b : ℕ) → b < 2 ^ 30 → add (of_int (pos tow)) (of_int (pos b)) ≡ of_int (pos tow +ℤ pos b)
  tow_more b h =
      exact.add-of_int (pos tow) (pos b) (omega arith) (omega arith)
        (add-IsExactInt tow b (omega arith) h)

  too_early : lt (of_int (pos toes)) (sub (of_int (pos tow)) half_week) ≡ ltb (toes + 302400) tow
  too_early =
      ap (λ (x : F). lt (of_int (pos toes)) x) (tow_less 302400 (omega arith))
      ∙ exact.lt-of_int (pos toes) (pos tow -ℤ pos 302400) (omega arith)
          (sub-IsExactInt tow 302400 (omega arith) (omega arith))
      ∙ early toes tow

  too_late : lt (add (of_int (pos tow)) half_week) (of_int (pos toes)) ≡ ltb (tow + 302400) toes
  too_late =
      ap (λ (x : F). lt x (of_int (pos toes))) (tow_more 302400 (omega arith))
      ∙ exact.lt-of_int (pos tow +ℤ pos 302400) (pos toes)
          (add-IsExactInt tow 302400 (omega arith) (omega arith)) (omega arith)
      ∙ late toes tow

  -- For a week from 1 to 2^20, a time of the ephemeris and a time of transmission that are whole
  -- seconds below 604800, and doubles that are exact on whole numbers up to 2^53, handover names the
  -- same time of transmission by a week from whose start the time of the ephemeris is at most half a
  -- week away from it.
  pub handover-IsHandover :
      (week' tow' : ℤ) × (handover (of_int (pos toes)) (pos week) (of_int (pos tow))
        ≡ (week', of_int tow'))
      × IsHandover toes week tow week' tow'
  unfolding handover
  handover-IsHandover = elim (Bool-cases (ltb (toes + 302400) tow)) [
    | inl e ↦ (
      pos (week + 1),
      negsuc (604800 - tow - 1),
      rw
          (
            too_early,
            e,
            next_week week small,
            tow_less 604800 (omega arith),
            seconds_back tow of_week,
          )
          refl,
      back-IsHandover toes week tow (ltb→lt (toes + 302400) tow e) of_week,
    )
    | inr n ↦ elim (Bool-cases (ltb (tow + 302400) toes)) [
      | inl e ↦ (
        pos (week - 1),
        pos (tow + 604800),
        rw
            (
              too_early,
              n,
              too_late,
              e,
              last_week week some_week small,
              tow_more 604800 (omega arith),
              seconds_forward tow,
            )
            refl,
        forward-IsHandover toes week tow (ltb→lt (tow + 302400) toes e) in_week some_week,
      )
      | inr m ↦ (
        pos week,
        pos tow,
        rw (too_early, n, too_late, m) refl,
        stay-IsHandover toes week tow (ltb-le (toes + 302400) tow n) (ltb-le (tow + 302400) toes m),
      )
    ]
  ]
