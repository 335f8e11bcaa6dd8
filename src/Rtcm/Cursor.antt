-- ===== src/Rtcm/Cursor.antt =====
-- A buffer that is filled from a bit position on: `setbitu(buff, i, len, data); i += len;` and
-- the same with `setbits`.
use dgnss_server.Common.{
  ℕ, ◌+◌, ◌-◌, ◌*◌, ◌%◌, ◌^◌, ◌≤◌, ◌≡◌, inl, refl, ap, ap₂, ◌∙◌, arith, List, [], ◌∷◌, ◌++◌, length,
  All, map, bit_or, bit_and, if◌then◌else◌,
}
use dgnss_server.Common.Int.{ℤ, pos, ltb_ℤ, to_word32}
use dgnss_server.Bits.{setbitu, setbits, getbitu}
use dgnss_server.Bits.Byte.{IsBytes}
use dgnss_server.Bits.Field.{length-setbitu, setbitu-IsBytes, getbitu-setbitu, getbitu-setbitu_ne}

-- A field that the messages write: its number of bits, and its value.
pub data Field : Type 0 where
  unsigned : ℕ → ℕ → Field
  signed : ℕ → ℤ → Field

-- The buffer and the position in it.
abbrev pub Cursor : Type 0
Cursor = List ℕ × ℕ

unfoldable pub put : Field → Cursor → Cursor
put (unsigned len v) (buff, i) = (setbitu buff i len v, i + len)
put (signed len v) (buff, i) = (setbits buff i len v, i + len)

unfoldable pub put_all : List Field → Cursor → Cursor
put_all [] c = c
put_all (f ∷ fs) c = put_all fs (put f c)

abbrev pub width : Field → ℕ
width (unsigned len v) = len
width (signed len v) = len

abbrev pub total : List Field → ℕ
total [] = 0
total (f ∷ fs) = width f + total fs

-- The word that `setbitu` is given.
abbrev pub word : Field → ℕ
word (unsigned len v) = v
word (signed len v) =
    if ltb_ℤ v (pos 0)
    then bit_or (to_word32 v) (2 ^ (len - 1))
    else bit_and (to_word32 v) (2 ^ 32 - 1 - 2 ^ (len - 1))

-- The fields of these widths that stand in the buffer from `i` on.
unfoldable pub get_all : List ℕ → List Field → ℕ → List ℕ
get_all buff [] i = []
get_all buff (f ∷ fs) i = getbitu buff i (width f) ∷ get_all buff fs (i + width f)

pub put-eq :
    (f : Field) (c : Cursor) → put f c ≡ (setbitu c.0 c.1 (width f) (word f), c.1 + width f)
unfolding put setbits
put-eq (unsigned len v) c = refl
put-eq (signed len v) c = refl

pub put_all-position : (fs : List Field) (c : Cursor) → (put_all fs c).1 ≡ c.1 + total fs
unfolding put_all
put_all-position [] c = omega arith
put_all-position (f ∷ fs) c = put_all-position fs (put f c) ∙ rw (put-eq f c) (omega arith)

pub put_all-append :
    (xs ys : List Field) (c : Cursor) → put_all (xs ++ ys) c ≡ put_all ys (put_all xs c)
unfolding put_all
put_all-append [] ys c = refl
put_all-append (x ∷ xs) ys c = put_all-append xs ys (put x c)

pub length-put_all : (fs : List Field) (c : Cursor) → length (put_all fs c).0 ≡ length c.0
unfolding put_all
length-put_all [] c = refl
length-put_all (f ∷ fs) c =
    length-put_all fs (put f c) ∙ rw (put-eq f c) (length-setbitu c.0 c.1 (width f) (word f))

pub put_all-IsBytes : (fs : List Field) (c : Cursor) → IsBytes c.0 → IsBytes (put_all fs c).0
unfolding put_all
put_all-IsBytes [] c h = h
put_all-IsBytes (f ∷ fs) c h =
    put_all-IsBytes fs (put f c) (rw (put-eq f c) (setbitu-IsBytes c.0 c.1 (width f) (word f) h))

-- Writing from a position on leaves every field before it.
pub put_all_before :
    (fs : List Field) (c : Cursor) (q n : ℕ)
    → IsBytes c.0
    → c.1 + total fs ≤ 8 * length c.0
    → n ≤ 32
    → q + n ≤ c.1
    → getbitu (put_all fs c).0 q n ≡ getbitu c.0 q n
unfolding put_all
put_all_before [] c q n h fits short before = refl
put_all_before (f ∷ fs) c q n h fits short before =
    let w : ℕ = word f in
    let len = length-setbitu c.0 c.1 (width f) w in
    put_all_before fs (put f c) q n (rw (put-eq f c) (setbitu-IsBytes c.0 c.1 (width f) w h))
      (rw (put-eq f c, len) (omega arith)) short (rw (put-eq f c) (omega arith))
    ∙ rw (put-eq f c)
        (getbitu-setbitu_ne c.0 c.1 (width f) w h q n (omega arith) short (inl before))

-- Fields of up to 32 bits that are written one after the other inside the buffer are read back,
-- each cut to its number of bits.
pub get_all-put_all :
    (fs : List Field) (c : Cursor)
    → IsBytes c.0
    → c.1 + total fs ≤ 8 * length c.0
    → All (λ f. width f ≤ 32) fs
    → get_all (put_all fs c).0 fs c.1 ≡ map (λ f. word f % 2 ^ width f) fs
unfolding put_all get_all
get_all-put_all [] c h fits short = refl
get_all-put_all (f ∷ fs) c h fits short =
    let w : ℕ = word f in
    let buff' = setbitu c.0 c.1 (width f) w in
    let h' = setbitu-IsBytes c.0 c.1 (width f) w h in
    let fits' : c.1 + width f + total fs ≤ 8 * length buff' =
      rw (length-setbitu c.0 c.1 (width f) w) (omega arith) in
    let first =
      put_all_before fs (buff', c.1 + width f) c.1 (width f) h' fits' short.0 (omega arith)
      ∙ getbitu-setbitu c.0 c.1 (width f) w h (omega arith) short.0 in
    let rest = get_all-put_all fs (buff', c.1 + width f) h' fits' short.1 in
    ap (λ (k : Cursor). get_all (put_all fs k).0 (f ∷ fs) c.1) (put-eq f c)
    ∙ ap₂ (λ (x : ℕ) (xs : List ℕ). x ∷ xs) first rest

-- Buffers that agree on every field from `i` up to `n` have the same fields there.
pub get_all_ext :
    (xs ys : List ℕ) (fs : List Field) (i n : ℕ)
    → All (λ f. width f ≤ 32) fs
    → i + total fs ≤ n
    → ((q w : ℕ) → w ≤ 32 → i ≤ q → q + w ≤ n → getbitu xs q w ≡ getbitu ys q w)
    → get_all xs fs i ≡ get_all ys fs i
unfolding get_all
get_all_ext xs ys [] i n short fits same = refl
get_all_ext xs ys (f ∷ fs) i n short fits same =
    ap₂ (λ (x : ℕ) (t : List ℕ). x ∷ t) (same i (width f) short.0 (omega arith) (omega arith))
      (get_all_ext xs ys fs (i + width f) n short.1 (omega arith)
        (λ q w h lo hi. same q w h (omega arith) hi))
