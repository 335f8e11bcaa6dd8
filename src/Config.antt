-- ===== src/Config.antt =====
-- The configuration of the server and of the capture program: the class AppConfig of
-- AgnssServer/AppConfig.cpp, which AgnssCapture has a copy of, over IniFile. Texts hold no
-- character NUL. What an open file holds is an argument, and none where it cannot be opened.
pub mod Words
pub mod Numbers
pub mod Stored
use dgnss_server.Common.{
  ℕ, zero, suc, ◌+◌, ◌-◌, ◌*◌, ◌/◌, ◌%◌, ◌^◌, Bool, true, false, ◌&&◌, ◌||◌, Option, none, some,
  List, [], ◌∷◌, ◌++◌, map, take, drop, leb, ltb, ◌==◌, if◌then◌else◌,
}
use dgnss_server.Common.Int.{ℤ, pos, negsuc}
use dgnss_server.Comn.Text.{same_text}
use dgnss_server.Comn.IniFile.{IniEntry, IniSection, IniFile, find_first, load, save}
use dgnss_server.Comn.IniFile.Calls.{
  exist_section, find_section, lookup_entry, value_of, set_value, query,
}

pub record AppConfig : Type 0 where
  pub filename : List ℕ
  pub ini_file : IniFile

-- `load` and `reload`, of a file that holds the text.
unfoldable pub load_config : List ℕ → Option (List ℕ) → AppConfig → AppConfig × Bool
load_config filename text c =
    let (file, done) = load text c.ini_file in
    if done
    then (record { filename = filename; ini_file = file }, true)
    else (record c { ini_file = file }, false)

unfoldable pub reload : Option (List ℕ) → AppConfig → AppConfig × Bool
reload text c = let (file, done) = load text c.ini_file in (record c { ini_file = file }, done)

-- What `save` writes.
unfoldable pub save_config : AppConfig → List ℕ
save_config c = save c.ini_file

-- The section and the key of a path.
abbrev pub app : List ℕ
app = b'A' ∷ b'p' ∷ b'p' ∷ []

unfoldable pub split_at : List ℕ → Option ℕ → List ℕ × List ℕ
split_at path none = (app, path)
split_at path (some at) = (take at path, drop (at + 1) path)

unfoldable pub split_path : List ℕ → List ℕ × List ℕ
split_path path = split_at path (find_first b'.' path)

-- The white space of `isspace` in the C locale.
unfoldable pub is_space : ℕ → Bool
is_space c = c == 32 || leb 9 c && leb c 13

-- `iss >> value` for a string: the text up to the next white space, and a string that is left
-- alone where there is nothing but white space.
unfoldable pub word : List ℕ → List ℕ
word [] = []
word (c ∷ cs) = if is_space c then [] else c ∷ word cs

unfoldable pub skip_space : List ℕ → List ℕ
skip_space [] = []
skip_space (c ∷ cs) = if is_space c then skip_space cs else c ∷ cs

unfoldable pub word_or : List ℕ → List ℕ → List ℕ
word_or value [] = value
word_or value (c ∷ cs) = word (c ∷ cs)

unfoldable pub read_word : List ℕ → List ℕ → List ℕ
read_word text value = word_or value (skip_space text)

-- `queryValue` for a string, on what the key has.
unfoldable pub found_word : Option (List ℕ) → List ℕ → List ℕ × Bool
found_word none value = (value, false)
found_word (some text) value = (read_word text value, true)

-- `get`: what becomes of `value`, and whether the path is there.
unfoldable pub get : List ℕ → List ℕ → AppConfig → List ℕ × Bool
get path value c = let (sec, key) = split_path path in found_word (query sec key c.ini_file) value

-- `get` and `getString` with a value by default.
unfoldable pub get_string : List ℕ → List ℕ → AppConfig → List ℕ
get_string path default c = (get path default c).0

-- `iss >> value` for an int: digits behind a sign, cut off at the bounds of an int; a text without
-- digits gives 0, and an empty one leaves the int alone.
unfoldable pub is_digit : ℕ → Bool
is_digit c = leb b'0' c && leb c b'9'

unfoldable pub digits_from : ℕ → List ℕ → ℕ
digits_from n [] = n
digits_from n (c ∷ cs) =
    let rest = digits_from (n * 10 + (c - b'0')) cs in if is_digit c then rest else n

unfoldable pub int_of : Bool → ℕ → ℤ
int_of false n = if ltb n (2 ^ 31) then pos n else pos (2 ^ 31 - 1)
int_of true zero = pos 0
int_of true (suc n) = if ltb n (2 ^ 31) then negsuc n else negsuc (2 ^ 31 - 1)

unfoldable pub int_at : List ℕ → ℤ → ℤ
int_at [] value = value
int_at (c ∷ cs) value =
    if c == b'-'
    then int_of true (digits_from 0 cs)
    else if c == b'+'
    then int_of false (digits_from 0 cs)
    else int_of false (digits_from 0 (c ∷ cs))

unfoldable pub read_int : List ℕ → ℤ → ℤ
read_int text value = int_at (skip_space text) value

unfoldable pub get_int : List ℕ → ℤ → AppConfig → ℤ
get_int path default c =
    let (str, there) = get path [] c in if there then read_int str default else default

-- `icompare` of a text with "false".
unfoldable pub to_lower : ℕ → ℕ
to_lower c = if leb b'A' c && leb c b'Z' then c + 32 else c

abbrev pub false_text : List ℕ
false_text = b'f' ∷ b'a' ∷ b'l' ∷ b's' ∷ b'e' ∷ []

unfoldable pub bool_of : List ℕ → Bool
bool_of [] = false
bool_of (c ∷ cs) =
    if same_text (c ∷ cs) (b'0' ∷ [])
    then false
    else if same_text (map to_lower (c ∷ cs)) false_text
    then false
    else true

unfoldable pub get_bool : List ℕ → Bool → AppConfig → Bool
get_bool path default c = let (str, there) = get path [] c in if there then bool_of str else default

unfoldable pub set_string : List ℕ → List ℕ → AppConfig → AppConfig
set_string path value c =
    let (sec, key) = split_path path in record c { ini_file = set_value sec key value c.ini_file }

-- `ss << t` for an int, whose digits are ten at most.
unfoldable pub print_digits : ℕ → ℕ → List ℕ → List ℕ
print_digits zero n text = text
print_digits (suc left) n text =
    let more = print_digits left (n / 10) ((b'0' + n % 10) ∷ text) in
    if ltb n 10 then (b'0' + n) ∷ text else more

unfoldable pub print_int : ℤ → List ℕ
print_int (pos n) = print_digits 10 n []
print_int (negsuc n) = b'-' ∷ print_digits 10 (n + 1) []

-- `set` for an int.
unfoldable pub set_int : List ℕ → ℤ → AppConfig → AppConfig
set_int path value c = set_string path (print_int value) c

unfoldable pub entry_keys : List IniEntry → List (List ℕ)
entry_keys [] = []
entry_keys (e ∷ es) = e.key ∷ entry_keys es

unfoldable pub keys_of : Option IniSection → List (List ℕ)
keys_of none = []
keys_of (some s) = entry_keys s.entries

unfoldable pub get_keys : List ℕ → AppConfig → List (List ℕ)
get_keys path c = keys_of (find_section path c.ini_file.sections)
