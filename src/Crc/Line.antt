-- ===== src/Crc/Line.antt =====
-- MxtChkSum_Chk of AgnssServer/AssistData.c: whether a text line carries its checksum. The `%x` of
-- sscanf is that of the C library in the C locale.
use dgnss_server.Common.{
  ℕ, zero, suc, ◌+◌, ◌-◌, ◌*◌, ◌/◌, ◌%◌, ◌^◌, ◌≤◌, ◌<◌, ◌≡◌, refl, ◌∙◌, ap, arith, true, false,
  ◌&&◌, ◌||◌, List, [], ◌∷◌, ◌++◌, length, drop, All, leb, ltb, ◌==◌, if◌then◌else◌, holds_below,
  holds_below_lt, ==_iff,
}
use dgnss_server.Common.Int.{pos, ◌-ℤ◌, to_word32}
use dgnss_server.Bits.{byte_at}
use dgnss_server.Comn.Memory.{get_or-append_before, get_or-append_after}
use dgnss_server.Config.{skip_space, is_space}
use dgnss_server.Crc.{mxt_chk_sum_cal, check_sum_loop}
use dgnss_server.Crc.Signed.{str_len}

-- A hexadecimal digit, or 16 for another character.
unfoldable pub scan_digit : ℕ → ℕ
scan_digit c =
    if leb 48 c && leb c 57
    then c - 48
    else if leb 65 c && leb c 70
    then c - 55
    else if leb 97 c && leb c 102
    then c - 87
    else 16

-- The digits up to the first other character, on top of those in front of them.
unfoldable pub scan_digits : ℕ → List ℕ → ℕ
scan_digits v [] = v
scan_digits v (c ∷ cs) =
    let rest = scan_digits (v * 16 + scan_digit c) cs in if scan_digit c == 16 then v else rest

unfoldable pub scan_prefix : List ℕ → ℕ
scan_prefix [] = 0
scan_prefix (c ∷ []) = scan_digits 0 (c ∷ [])
scan_prefix (c ∷ x ∷ cs) =
    if c == 48 && (x == 120 || x == 88) then scan_digits 0 cs else scan_digits 0 (c ∷ x ∷ cs)

unfoldable pub scan_sign : List ℕ → ℕ
scan_sign [] = 0
scan_sign (c ∷ cs) =
    if c == 45
    then (2 ^ 32 - scan_prefix cs) % 2 ^ 32
    else if c == 43
    then scan_prefix cs
    else scan_prefix (c ∷ cs)

-- `sscanf(str, "%x", &CheckSum)` of a number below 2^32: 0 is what CheckSum was before.
unfoldable pub scan_hex : List ℕ → ℕ
scan_hex str = scan_sign (skip_space str)

-- The character that is so many places before the end; 0 before the start.
abbrev char_before_end : List ℕ → ℕ → ℕ
char_before_end str k = if ltb (str_len str) k then 0 else byte_at str (str_len str - k)

-- The length `len-6` becomes an unsigned number in the loop of `MxtChkSum_Cal`.
unfoldable pub mxt_chk_sum_chk : List ℕ → ℕ
mxt_chk_sum_chk str =
    let len = str_len str in
    let framed =
      (char_before_end str 5 == 42)
      && (char_before_end str 2 == 13)
      && (char_before_end str 1 == 10) in
    let sum = mxt_chk_sum_cal (drop 1 str) (to_word32 (pos len -ℤ pos 6)) in
    if framed && (scan_hex (drop (len - 4) str) == sum) then 1 else 0

-- A digit of `%X`.
abbrev pub digit : ℕ → ℕ
digit n = if ltb n 10 then 48 + n else 55 + n

-- The end of a line with a checksum, as `"*%02X\r\n"` prints it, and the line.
abbrev pub line_end : ℕ → List ℕ
line_end s = 42 ∷ digit (s / 16) ∷ digit (s % 16) ∷ 13 ∷ 10 ∷ []

abbrev pub line : ℕ → List ℕ → ℕ → List ℕ
line lead text s = lead ∷ text ++ line_end s

scan_hex-digits : (s : ℕ) → s < 256 → scan_hex (drop 1 (line_end s)) ≡ s
scan_hex-digits s h =
    (==_iff (scan_hex (drop 1 (line_end s))) s).0
      (holds_below_lt 256 (λ (c : ℕ). scan_hex (drop 1 (line_end c)) == c) s tested h)
  where
    tested : holds_below 256 (λ (c : ℕ). scan_hex (drop 1 (line_end c)) == c) ≡ true
    tested =
        unfold holds_below scan_hex scan_sign scan_prefix scan_digits scan_digit skip_space
          is_space in
        refl

str_len-append :
    (text : List ℕ) (s : ℕ)
    → s < 256
    → All (λ c. 1 ≤ c) text
    → str_len (text ++ line_end s) ≡ length text + 5
unfolding str_len
str_len-append [] s h t = ground arith
str_len-append (c ∷ cs) s h (p, ps) = ground (arith, p, str_len-append cs s h ps)

drop_line : (text rest : List ℕ) (k : ℕ) → drop (length text + k) (text ++ rest) ≡ drop k rest
drop_line [] rest k = let e : zero + k ≡ k = omega arith in rw e refl
drop_line (c ∷ cs) rest k =
    let e : suc (length cs) + k ≡ suc (length cs + k) = omega arith in rw e (drop_line cs rest k)

check_sum_loop-text :
    (text rest : List ℕ) (n i sum : ℕ)
    → i + n ≤ length text
    → check_sum_loop (text ++ rest) n i sum ≡ check_sum_loop text n i sum
unfolding check_sum_loop
check_sum_loop-text text rest zero i sum h = refl
check_sum_loop-text text rest (suc n) i sum h =
    rw (get_or-append_before text rest i (omega arith))
      (check_sum_loop-text text rest n (i + 1) _ (omega arith))

module _ (lead : ℕ) (text : List ℕ) (s : ℕ) (small : s < 256) (visible : 1 ≤ lead)
    (plain : All (λ c. 1 ≤ c) text) where
  len_line : str_len (line lead text s) ≡ length text + 6
  len_line = str_len-append (lead ∷ text) s small (visible, plain) ∙ omega arith

  end_line :
      (k : ℕ) → 1 ≤ k → k ≤ 5 → char_before_end (line lead text s) k ≡ byte_at (line_end s) (5 - k)
  end_line k lo hi =
      let inside : ltb (length text + 6) k ≡ false = ground arith in
      let place : length text + 6 - k ≡ length (lead ∷ text) + (5 - k) = omega arith in
      rw (len_line, inside, place) (get_or-append_after (lead ∷ text) (line_end s) (5 - k))

  scan_line : scan_hex (drop (str_len (line lead text s) - 4) (line lead text s)) ≡ s
  scan_line =
      let place : length text + 6 - 4 ≡ length (lead ∷ text) + 1 = omega arith in
      rw (len_line, place, drop_line (lead ∷ text) (line_end s) 1) (scan_hex-digits s small)

  sum_line :
      length text < 2 ^ 31
      → mxt_chk_sum_cal
          (drop 1 (line lead text s))
          (to_word32 (pos (str_len (line lead text s)) -ℤ pos 6))
        ≡ mxt_chk_sum_cal text (length text)
  unfolding mxt_chk_sum_cal ◌-ℤ◌
  sum_line short =
      let len = length text in
      let same : to_word32 (pos (len + 6) -ℤ pos 6) ≡ len = ground arith in
      let count : to_word32 (pos (str_len (line lead text s)) -ℤ pos 6) ≡ len = rw len_line same in
      ap (λ (n : ℕ). check_sum_loop (text ++ line_end s) n 0 0) count
      ∙ check_sum_loop-text text (line_end s) len 0 0 (omega arith)

  -- A line of a first character, a text, `*`, the two hexadecimal digits of a byte and the end of
  -- the line, without a zero inside, is accepted exactly when the byte is the checksum of the text.
  pub mxt_chk_sum_chk-line :
      length text < 2 ^ 31
      → mxt_chk_sum_chk (line lead text s)
        ≡ (if s == mxt_chk_sum_cal text (length text) then 1 else 0)
  unfolding mxt_chk_sum_chk
  mxt_chk_sum_chk-line short =
      rw
        (
          end_line 5 (omega arith) (omega arith),
          end_line 2 (omega arith) (omega arith),
          end_line 1 (omega arith) (omega arith),
          scan_line,
          sum_line short,
        )
        refl
