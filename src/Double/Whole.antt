-- ===== src/Double/Whole.antt =====
-- Whole numbers in the place of the doubles, for runs and examples: a literal is cut off, and a
-- word of bits stands for its number.
use dgnss_server.Common.{suc, ◌%◌, ◌^◌, refl}
use dgnss_server.Common.Int.{
  ℤ, pos, negsuc, pos_part, ◌+ℤ◌, ◌-ℤ◌, ◌*ℤ◌, neg_ℤ, quot, rem, ltb_ℤ, leb_ℤ, eq_ℤ, to_word32,
}
use dgnss_server.Double.Defs.{Double, IsExact}

-- m * 10^e, cut off towards zero.
abbrev scale : ℤ → ℤ → ℤ
scale m (pos e) = m *ℤ pos (10 ^ e)
scale m (negsuc e) = quot m (10 ^ suc e)

abbrev divide : ℤ → ℤ → ℤ
divide a (pos n) = quot a n
divide a (negsuc n) = neg_ℤ (quot a (suc n))

abbrev magnitude : ℤ → ℤ
magnitude (pos n) = pos n
magnitude (negsuc n) = pos (suc n)

instance abbrev pub whole : Double ℤ
whole = record {
  of_int = λ z. z;
  decimal = scale;
  add = ◌+ℤ◌;
  sub = ◌-ℤ◌;
  mul = ◌*ℤ◌;
  quo = divide;
  neg = neg_ℤ;
  fabs = magnitude;
  floor = λ x. x;
  sqrt = λ x. x;
  fmod = λ a b. rem a (pos_part b);
  single = λ x. x;
  lt = ltb_ℤ;
  le = leb_ℤ;
  eq = eq_ℤ;
  to_int = λ x. x;
  to_word = to_word32;
  to_byte = λ x. to_word32 x % 256;
  of_bits64 = pos;
  of_bits32 = pos;
}

pub whole-IsExact : IsExact ℤ
whole-IsExact = record {
  to_int-of_int = λ z h. refl;
  floor-of_int = λ z h. refl;
  add-of_int = λ a b p q r. refl;
  sub-of_int = λ a b p q r. refl;
  le-of_int = λ a b p q. refl;
  lt-of_int = λ a b p q. refl;
  decimal-of_int = λ m e p. refl;
  neg-of_int = λ z p ne. refl;
}
