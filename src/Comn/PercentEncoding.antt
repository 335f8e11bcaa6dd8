-- ===== src/Comn/PercentEncoding.antt =====
-- The class PercentEncoding of comn/src/PercentEncoding.cpp. Characters are bytes; `isalnum` and
-- `isspace` of the C library are parameters.
pub mod RoundTrip
use dgnss_server.Common.{
  ℕ, ◌+◌, ◌-◌, ◌*◌, ◌/◌, ◌%◌, Bool, ◌&&◌, ◌||◌, List, [], ◌∷◌, ◌++◌, leb, ◌==◌, if◌then◌else◌,
}

unfoldable pub hex_to_ascii : ℕ → ℕ
hex_to_ascii ch =
    if leb 48 ch && leb ch 57
    then ch - 48
    else if leb 97 ch && leb ch 102
    then ch - 97 + 10
    else if leb 65 ch && leb ch 70
    then ch - 65 + 10
    else 48

unfoldable pub ascii_to_hex : ℕ → ℕ
ascii_to_hex ch = if leb ch 9 then 48 + ch else if leb ch 15 then 65 + ch - 10 else 48

-- `charToHex`: the high part and the low part.
unfoldable pub char_to_hex : ℕ → ℕ × ℕ
char_to_hex ch = (ascii_to_hex (ch / 16 % 16), ascii_to_hex (ch % 16))

unfoldable pub hex_to_char : ℕ → ℕ → ℕ
hex_to_char high low = (hex_to_ascii high * 16 % 256 + hex_to_ascii low) % 256

abbrev pub percent : ℕ
percent = 37

abbrev pub plus : ℕ
plus = 43

abbrev pub blank : ℕ
blank = 32

-- The characters "-", ".", "_" and "~".
unfoldable pub is_mark : ℕ → Bool
is_mark ch = ch == 45 || ch == 46 || ch == 95 || ch == 126

module _ (is_alnum is_space : ℕ → Bool) where
  unfoldable pub encode_char : ℕ → List ℕ
  encode_char ch =
      let (high, low) = char_to_hex ch in
      if is_mark ch
      then ch ∷ []
      else if is_alnum ch
      then ch ∷ []
      else if is_space ch
      then percent ∷ 50 ∷ 48 ∷ []
      else percent ∷ high ∷ low ∷ []

  unfoldable pub encode_percent : List ℕ → List ℕ
  encode_percent [] = []
  encode_percent (x ∷ xs) = encode_char x ++ encode_percent xs

-- `decode`; a "%" with fewer than two characters behind it ends the text.
unfoldable pub decode_percent : List ℕ → List ℕ
decode_percent [] = []
decode_percent (a ∷ []) = if a == percent then [] else (if a == plus then blank else a) ∷ []
decode_percent (a ∷ b ∷ []) =
    let rest = decode_percent (b ∷ []) in
    if a == percent then [] else (if a == plus then blank else a) ∷ rest
decode_percent (a ∷ b ∷ c ∷ xs) =
    let rest = decode_percent (b ∷ c ∷ xs) in
    let behind = decode_percent xs in
    if a == percent then hex_to_char b c ∷ behind else (if a == plus then blank else a) ∷ rest
