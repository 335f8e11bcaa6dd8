-- ===== src/Comn/IniFile.antt =====
-- The class IniFile of comn/src/IniFile.cpp and comn/include/IniFile.h. A text is the list of its
-- characters; what a file holds is an argument, and none where it cannot be opened.
pub mod Calls
pub mod Lines
pub mod Loaded
pub mod RoundTrip
pub mod Lookup
pub mod Names
use dgnss_server.Common.{
  ℕ, suc, ◌+◌, ◌-◌, Bool, true, false, ◌&&◌, ◌||◌, Option, none, some, List, [], ◌∷◌, ◌++◌, take,
  drop, ◌==◌, if◌then◌else◌,
}

-- `IniEntry`
pub record IniEntry : Type 0 where
  pub key : List ℕ
  pub value : List ℕ
  pub comment : List ℕ

-- `IniSection`, with the elements of its `entryArray`
pub record IniSection : Type 0 where
  pub name : List ℕ
  pub entries : List IniEntry

pub record IniFile : Type 0 where
  pub sections : List IniSection
  pub file_comment : List ℕ

pub data LineFlag : Type 0 where
  line_unknown line_empty line_comment line_section line_entry : LineFlag

abbrev pub new_section : List ℕ → IniSection
new_section name = record { name = name; entries = [] }

abbrev pub new_entry : List ℕ → IniEntry
new_entry key = record { key = key; value = []; comment = [] }

abbrev pub new_ini_file : IniFile
new_ini_file = record { sections = []; file_comment = [] }

-- `find_first_of` and `find_last_of` of one character.
unfoldable pub find_first : ℕ → List ℕ → Option ℕ
find_first c [] = none
find_first c (x ∷ xs) =
    let rest = find_first c xs in
    if x == c then some 0 else elim rest [ none ↦ none | some i ↦ some (suc i) ]

unfoldable pub find_last : ℕ → List ℕ → Option ℕ
find_last c [] = none
find_last c (x ∷ xs) = elim (find_last c xs) [
  | some i ↦ some (suc i)
  | none ↦ if x == c then some 0 else none
]

-- `getFirstVisibleChar`
unfoldable pub first_visible : List ℕ → ℕ
first_visible [] = 0
first_visible (x ∷ xs) = if x == b' ' || x == b'\t' then first_visible xs else x

-- The test for an equals sign at the end of `parseLine`.
unfoldable pub entry_or_unknown : Option ℕ → LineFlag
entry_or_unknown none = line_unknown
entry_or_unknown (some i) = line_entry

unfoldable pub parse_line : List ℕ → LineFlag
parse_line [] = line_empty
parse_line (x ∷ xs) =
    let first = first_visible (x ∷ xs) in
    if first == b';' || first == b'#'
    then line_comment
    else if first == b'['
    then line_section
    else entry_or_unknown (find_first b'=' (x ∷ xs))

-- `parseSectionName` of a line whose first visible character is "[", which stands before any "]".
unfoldable pub section_name_at : List ℕ → Option ℕ → Option ℕ → List ℕ
section_name_at line none stop = []
section_name_at line (some start) none = drop start line
section_name_at line (some start) (some stop) = take (stop - start - 1) (drop (start + 1) line)

unfoldable pub parse_section_name : List ℕ → List ℕ
parse_section_name line = section_name_at line (find_first b'[' line) (find_last b']' line)

-- `parseEntry` of a line with an equals sign: the key and the value.
unfoldable pub split_entry : List ℕ → Option ℕ → List ℕ × List ℕ
split_entry line none = (line, line)
split_entry line (some i) = (take i line, drop (i + 1) line)

unfoldable pub parse_entry : List ℕ → List ℕ × List ℕ
parse_entry line = split_entry line (find_first b'=' line)

-- What `std::getline` gives of a text, call after call.
unfoldable pub add_char : ℕ → List (List ℕ) → List (List ℕ)
add_char c [] = if c == b'\n' then [] ∷ [] else (c ∷ []) ∷ []
add_char c (line ∷ lines) = if c == b'\n' then [] ∷ line ∷ lines else (c ∷ line) ∷ lines

unfoldable pub lines_of : List ℕ → List (List ℕ)
lines_of [] = []
lines_of (c ∷ text) = add_char c (lines_of text)

-- The variables of `load` in its second loop, where `entry` is cleared in every round that fills it.
pub record Loading : Type 0 where
  pub section : IniSection
  pub comment : List ℕ
  pub sections : List IniSection

-- `empty` of a string and of a vector
abbrev pub is_nil {ℓ} : {A : Type ℓ} → List A → Bool
is_nil [] = true
is_nil (x ∷ xs) = false

-- `IniSection::empty`
unfoldable pub is_empty_section : IniSection → Bool
is_empty_section s = is_nil s.name && is_nil s.entries

-- A section that is not empty goes to the others.
unfoldable pub push_section : Loading → List IniSection
push_section st =
    if is_empty_section st.section then st.sections else st.sections ++ st.section ∷ []

unfoldable pub add_comment : Loading → List ℕ → Loading
add_comment st line = record st { comment = st.comment ++ line ++ b'\n' ∷ [] }

-- The cases of the switch.
unfoldable pub load_line : LineFlag → List ℕ → Loading → Loading
load_line line_section line st = record st {
  section = new_section (parse_section_name line);
  sections = push_section st;
}
load_line line_comment line st = add_comment st line
load_line line_entry line st =
    let (key, value) = parse_entry line in
    let entry : IniEntry = record { key = key; value = value; comment = st.comment } in
    record st {
      section = record st.section { entries = st.section.entries ++ entry ∷ [] };
      comment = [];
    }
load_line line_empty line st = st
load_line line_unknown line st = add_comment st line

-- The second loop on a line, its flag and the lines that follow, and the last section.
unfoldable pub load_loop : LineFlag → List ℕ → List (List ℕ) → Loading → List IniSection
load_loop flag line [] st = push_section (load_line flag line st)
load_loop flag line (next ∷ lines) st =
    load_loop (parse_line next) next lines (load_line flag line st)

-- Before the loop.
abbrev pub loading : Loading
loading = record { section = new_section []; comment = []; sections = [] }

-- The first loop. Where the lines end in it, the switch is run once more on the last flag; it
-- then adds a line to `comment`, which nothing reads.
unfoldable pub is_comment : LineFlag → Bool
is_comment line_comment = true
is_comment line_unknown = false
is_comment line_empty = false
is_comment line_section = false
is_comment line_entry = false

unfoldable pub load_header : LineFlag → List ℕ → List (List ℕ) → IniFile
load_header flag file_comment [] = record {
  sections = load_loop flag [] [] loading;
  file_comment = file_comment;
}
load_header flag file_comment (line ∷ lines) =
    let rest = load_header (parse_line line) (file_comment ++ line ++ b'\n' ∷ []) lines in
    if is_comment (parse_line line) then rest else record {
      sections = load_loop (parse_line line) line lines loading;
      file_comment = file_comment;
    }

-- `load` of a file that holds the text.
unfoldable pub load_text : List ℕ → IniFile
load_text text = load_header line_unknown [] (lines_of text)

-- `load`
unfoldable pub load : Option (List ℕ) → IniFile → IniFile × Bool
load none file = (file, false)
load (some text) file = (load_text text, true)

unfoldable pub save_entries : List IniEntry → List ℕ
save_entries [] = []
save_entries (e ∷ es) = e.comment ++ (e.key ++ b'=' ∷ (e.value ++ b'\n' ∷ save_entries es))

unfoldable pub save_sections : List IniSection → List ℕ
save_sections [] = []
save_sections (s ∷ ss) =
    b'\n' ∷ b'[' ∷ (s.name ++ b']' ∷ b'\n' ∷ (save_entries s.entries ++ save_sections ss))

-- What `save` writes.
unfoldable pub save : IniFile → List ℕ
save file = file.file_comment ++ save_sections file.sections
