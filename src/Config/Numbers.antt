-- ===== src/Config/Numbers.antt =====
-- Ints that are written into the configuration and read again.
use mathlib.Core.List.{append-nil}
use dgnss_server.Common.{
  ℕ, zero, suc, ◌+◌, ◌-◌, ◌*◌, ◌/◌, ◌%◌, ◌^◌, ◌<◌, ◌≤◌, ◌≡◌, ◌≢◌, ◌&&◌, refl, sym, ◌∙◌, ap, arith,
  true, false, List, [], ◌∷◌, All, inl, inr, leb, ltb, ltb→lt, pow-suc, Bool-cases,
}
use dgnss_server.Common.Int.{ℤ, pos, negsuc}
use dgnss_server.Comn.IniFile.Lookup.{query-set_value_self}
use dgnss_server.Config.{
  AppConfig, split_path, is_space, skip_space, read_word, found_word, get, get_int, set_string,
  set_int, is_digit, digits_from, int_of, int_at, read_int, print_digits, print_int,
}
use dgnss_server.Config.Words.{IsWord, read_word_lem}

-- Reading the digits that are printed in front of a text.
digits_from-digit :
    (acc d : ℕ) (text : List ℕ)
    → d < 10
    → digits_from acc ((b'0' + d) ∷ text) ≡ digits_from (acc * 10 + d) text
unfolding digits_from is_digit
digits_from-digit acc d text h =
    let e : b'0' + d - b'0' ≡ d = omega arith in
    let is : (leb b'0' (b'0' + d) && leb (b'0' + d) b'9') ≡ true = ground arith in rw (is, e) refl

digits_from-print_digits :
    (left n : ℕ) (text : List ℕ)
    → n < 10 ^ left
    → digits_from 0 (print_digits left n text) ≡ digits_from n text
unfolding print_digits
digits_from-print_digits zero n text h =
    let e : 0 ≡ n = omega arith in ap (λ (m : ℕ). digits_from m text) e
digits_from-print_digits (suc left) n text h = elim (Bool-cases (ltb n 10)) [
  | inl last ↦
      let e : 0 * 10 + n ≡ n = omega arith in
      rw (last, digits_from-digit 0 n text (ltb→lt n 10 last), e) refl
  | inr more ↦
      let e : n / 10 * 10 + n % 10 ≡ n = omega arith in
      rw
        (
          more,
          digits_from-print_digits left (n / 10) ((b'0' + n % 10) ∷ text)
              (omega (arith, pow-suc 10 left)),
          digits_from-digit (n / 10) (n % 10) text (omega arith),
          e,
        )
        refl
]

-- They are digits.
abbrev AreDigits : List ℕ → Type 0
AreDigits = All (λ c. (b'0' ≤ c) × (c ≤ b'9'))

AreDigits-print_digits :
    (left n : ℕ) (text : List ℕ) → AreDigits text → AreDigits (print_digits left n text)
unfolding print_digits
AreDigits-print_digits zero n text h = h
AreDigits-print_digits (suc left) n text h = elim (Bool-cases (ltb n 10)) [
  | inl last ↦ let small = ltb→lt n 10 last in rw last ((omega arith, omega arith), h)
  | inr more ↦ rw more (
      AreDigits-print_digits left (n / 10) ((b'0' + n % 10) ∷ text) ((omega arith, omega arith), h))
]

print_digits-ne : (left n c : ℕ) (text : List ℕ) → print_digits left n (c ∷ text) ≢ []
unfolding print_digits
print_digits-ne zero n c text h = cc
print_digits-ne (suc left) n c text h =
    ground (arith, print_digits-ne left (n / 10) (b'0' + n % 10) (c ∷ text))

print_ten-ne : (n : ℕ) → print_digits 10 n [] ≢ []
unfolding print_digits
print_ten-ne n h = ground (arith, print_digits-ne 9 (n / 10) (b'0' + n % 10) [])

is_space-digit : (c : ℕ) → b'0' ≤ c → is_space c ≡ false
unfolding is_space
is_space-digit c h = ground arith

AreDigits-word : (text : List ℕ) → AreDigits text → All (λ c. is_space c ≡ false) text
AreDigits-word [] h = tt
AreDigits-word (c ∷ cs) h = (is_space-digit c h.0.0, AreDigits-word cs h.1)

int_at-digits :
    (text : List ℕ) (value : ℤ)
    → AreDigits text
    → text ≢ []
    → int_at text value ≡ int_of false (digits_from 0 text)
unfolding int_at
int_at-digits [] value h ne = absurd (ne refl)
int_at-digits (c ∷ cs) value h ne = ground arith

abbrev pub IsInt : ℤ → Type 0
IsInt (pos n) = n < 2 ^ 31
IsInt (negsuc n) = n < 2 ^ 31

IsWord-of : (w : List ℕ) → w ≢ [] → All (λ c. is_space c ≡ false) w → IsWord w
IsWord-of [] ne h = ne refl
IsWord-of (c ∷ cs) ne h = h

int_of-pos : (n : ℕ) → n < 2 ^ 31 → int_of false n ≡ pos n
unfolding int_of
int_of-pos n h = ground arith

int_of-negsuc : (n : ℕ) → n < 2 ^ 31 → int_of true (n + 1) ≡ negsuc n
unfolding int_of
int_of-negsuc n h = let e : n + 1 ≡ suc n = omega arith in rw e (ground arith)

int_at-minus :
    (text : List ℕ) (value : ℤ) → int_at (b'-' ∷ text) value ≡ int_of true (digits_from 0 text)
unfolding int_at
int_at-minus text value = refl

print_int-IsWord : (z : ℤ) → IsWord (print_int z)
unfolding print_int
print_int-IsWord (pos n) =
    IsWord-of (print_digits 10 n []) (print_ten-ne n)
      (AreDigits-word (print_digits 10 n []) (AreDigits-print_digits 10 n [] tt))
print_int-IsWord (negsuc n) = (
  unfold is_space in refl,
  AreDigits-word (print_digits 10 (n + 1) []) (AreDigits-print_digits 10 (n + 1) [] tt),
)

skip_space-IsWord : (w : List ℕ) → IsWord w → skip_space w ≡ w
unfolding skip_space
skip_space-IsWord [] h = absurd h
skip_space-IsWord (c ∷ cs) h = rw h.0

read_word-IsWord : (w : List ℕ) → IsWord w → read_word w [] ≡ w
read_word-IsWord w h =
    ap (λ (t : List ℕ). read_word t []) (sym (append-nil w)) ∙ read_word_lem [] w [] [] tt h tt

digits_from-ten : (n : ℕ) → n < 10 ^ 10 → digits_from 0 (print_digits 10 n []) ≡ n
digits_from-ten n h = digits_from-print_digits 10 n [] h ∙ unfold digits_from in refl

int_at-print_int : (z value : ℤ) → IsInt z → int_at (print_int z) value ≡ z
unfolding print_int
int_at-print_int (pos n) value h =
    int_at-digits (print_digits 10 n []) value (AreDigits-print_digits 10 n [] tt) (print_ten-ne n)
    ∙ ap (int_of false) (digits_from-ten n (omega arith))
    ∙ int_of-pos n h
int_at-print_int (negsuc n) value h =
    int_at-minus (print_digits 10 (n + 1) []) value
    ∙ ap (int_of true) (digits_from-ten (n + 1) (omega arith))
    ∙ int_of-negsuc n h

-- An int that fits into 32 bits and is set at a path is what getInt returns there.
pub get_int-set_int :
    (path : List ℕ) (z default : ℤ) (c : AppConfig)
    → IsInt z
    → get_int path default (set_int path z c) ≡ z
unfolding get_int get set_int set_string
get_int-set_int path z default c h =
    let sec = (split_path path).0 in
    let key = (split_path path).1 in
    rw (query-set_value_self sec key (print_int z) c.ini_file) (
      unfold found_word in
      rw (read_word-IsWord (print_int z) (print_int-IsWord z)) (
        unfold read_int in
        rw (skip_space-IsWord (print_int z) (print_int-IsWord z)) (int_at-print_int z default h)))
