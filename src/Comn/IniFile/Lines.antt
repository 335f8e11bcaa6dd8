-- ===== src/Comn/IniFile/Lines.antt =====
-- What the parts of `load` make of lines that `save` writes: getline, parseLine, parseEntry and
-- parseSectionName.
use dgnss_server.Common.{
  ℕ, zero, suc, ◌+◌, ◌-◌, ◌≡◌, ◌≢◌, refl, ap, ap₂, ◌∙◌, arith, Option, none, some, List, [], ◌∷◌,
  ◌++◌, length, take, drop, All, All-take, inl, inr, Option-cases,
}
use dgnss_server.Comn.IniFile.{
  line_section, line_entry, find_first, find_last, first_visible, parse_line, parse_section_name,
  parse_entry, lines_of, add_char, entry_or_unknown, section_name_at, split_entry,
}

-- A text without a character, and without an end of line.
abbrev pub Lacks : ℕ → List ℕ → Type 0
Lacks c = All (λ x. x ≢ c)

abbrev pub NoEnd : List ℕ → Type 0
NoEnd = Lacks b'\n'

add_char_end : (lines : List (List ℕ)) → add_char b'\n' lines ≡ [] ∷ lines
unfolding add_char
add_char_end [] = refl
add_char_end (line ∷ lines) = refl

pub lines_of-line :
    (line rest : List ℕ) → NoEnd line → lines_of (line ++ b'\n' ∷ rest) ≡ line ∷ lines_of rest
unfolding lines_of
lines_of-line [] rest h = add_char_end (lines_of rest)
lines_of-line (x ∷ xs) rest h =
    rw (lines_of-line xs rest h.1) (unfold add_char in ground (arith, h.0))

add_char-NoEnd : (c : ℕ) (lines : List (List ℕ)) → All NoEnd lines → All NoEnd (add_char c lines)
unfolding add_char
add_char-NoEnd c [] h = ground arith
add_char-NoEnd c (line ∷ lines) h = ground arith

pub lines_of-NoEnd : (text : List ℕ) → All NoEnd (lines_of text)
unfolding lines_of
lines_of-NoEnd [] = tt
lines_of-NoEnd (c ∷ text) = add_char-NoEnd c (lines_of text) (lines_of-NoEnd text)

take_prefix : (xs ys : List ℕ) → take (length xs) (xs ++ ys) ≡ xs
take_prefix [] ys = refl
take_prefix (x ∷ xs) ys = ap (◌∷◌ x) (take_prefix xs ys)

drop_prefix : (xs : List ℕ) (c : ℕ) (ys : List ℕ) → drop (length xs + 1) (xs ++ c ∷ ys) ≡ ys
drop_prefix [] c ys = refl
drop_prefix (x ∷ xs) c ys =
    let e : suc (length xs) + 1 ≡ suc (length xs + 1) = omega arith in rw e (drop_prefix xs c ys)

All-drop {κ} : (P : ℕ → Type κ) (n : ℕ) (xs : List ℕ) → All P xs → All P (drop n xs)
All-drop P zero xs h = h
All-drop P (suc n) [] h = tt
All-drop P (suc n) (x ∷ xs) h = All-drop P n xs h.1

find_first_at :
    (c : ℕ) (xs ys : List ℕ) → Lacks c xs → find_first c (xs ++ c ∷ ys) ≡ some (length xs)
unfolding find_first
find_first_at c [] ys h = ground arith
find_first_at c (x ∷ xs) ys h = ground (arith, find_first_at c xs ys h.1, h.0)

find_first-Lacks : (c : ℕ) (xs : List ℕ) (i : ℕ) → find_first c xs ≡ some i → Lacks c (take i xs)
unfolding find_first
find_first-Lacks c [] i e = cc
find_first-Lacks c (x ∷ xs) zero e = tt
find_first-Lacks c (x ∷ xs) (suc i) e = ground (arith, find_first-Lacks c xs i)

find_last_at : (c : ℕ) (xs : List ℕ) → find_last c (xs ++ c ∷ []) ≡ some (length xs)
unfolding find_last
find_last_at c [] = ground arith
find_last_at c (x ∷ xs) = rw (find_last_at c xs)

pub parse_entry_lem :
    (key value : List ℕ) → Lacks b'=' key → parse_entry (key ++ b'=' ∷ value) ≡ (key, value)
unfolding parse_entry split_entry
parse_entry_lem key value h =
    rw (find_first_at b'=' key value h)
      (ap₂ (λ (s t : List ℕ). (s, t)) (take_prefix key (b'=' ∷ value)) (drop_prefix key b'=' value))

unfoldable pub section_line : List ℕ → List ℕ
section_line name = b'[' ∷ (name ++ b']' ∷ [])

pub parse_section_name_lem : (name : List ℕ) → parse_section_name (section_line name) ≡ name
unfolding parse_section_name section_name_at section_line find_first
parse_section_name_lem name =
    let inner : suc (length name) - 0 - 1 ≡ length name = omega arith in
    ap (λ (stop : Option ℕ). section_name_at (section_line name) (some 0) stop)
      (find_last_at b']' (b'[' ∷ name))
    ∙ rw inner (take_prefix name (b']' ∷ []))

-- A key whose line is neither a comment nor a section.
abbrev pub IsVisible : ℕ → Type 0
IsVisible c = (c ≢ b';') × (c ≢ b'#') × (c ≢ b'[')

abbrev pub IsKey : List ℕ → Type 0
IsKey key = NoEnd key × Lacks b'=' key × IsVisible (first_visible (key ++ b'=' ∷ []))

first_visible_end :
    (key value : List ℕ) → first_visible (key ++ b'=' ∷ value) ≡ first_visible (key ++ b'=' ∷ [])
unfolding first_visible
first_visible_end [] value = refl
first_visible_end (x ∷ xs) value = ground (arith, first_visible_end xs value)

pub parse_line-entry :
    (key value : List ℕ) → IsKey key → parse_line (key ++ b'=' ∷ value) ≡ line_entry
unfolding parse_line entry_or_unknown
parse_line-entry [] value h = unfold first_visible find_first in ground arith
parse_line-entry (x ∷ xs) value h =
    ground (arith, first_visible_end (x ∷ xs) value, find_first_at b'=' (x ∷ xs) value h.1, h.2)

pub parse_line-section : (name : List ℕ) → parse_line (section_line name) ≡ line_section
unfolding parse_line section_line first_visible
parse_line-section name = ground arith

first_visible-take :
    (line : List ℕ) (i : ℕ)
    → find_first b'=' line ≡ some i
    → first_visible (take i line ++ b'=' ∷ []) ≡ first_visible line
unfolding find_first first_visible
first_visible-take [] i e = cc
first_visible-take (x ∷ xs) zero e = ground arith
first_visible-take (x ∷ xs) (suc i) e = ground (arith, first_visible-take xs i)

-- What the flag of an entry says of the line.
parse_line-IsVisible :
    (line : List ℕ) → parse_line line ≡ line_entry → IsVisible (first_visible line)
unfolding parse_line entry_or_unknown
parse_line-IsVisible [] e = cc
parse_line-IsVisible (x ∷ xs) e = (ground arith, ground arith, ground arith)

parse_line-find_first :
    (line : List ℕ) → parse_line line ≡ line_entry → (i : ℕ) × (find_first b'=' line ≡ some i)
parse_line-find_first [] e = unfold parse_line in cc
parse_line-find_first (x ∷ xs) e = elim (Option-cases (find_first b'=' (x ∷ xs))) [
  | inl absent ↦ unfold parse_line entry_or_unknown in ground arith
  | inr at ↦ at
]

pub parse_entry-IsKey :
    (line : List ℕ) → NoEnd line → parse_line line ≡ line_entry → IsKey (parse_entry line).0
unfolding parse_entry split_entry
parse_entry-IsKey line h e =
    let (i, at) = parse_line-find_first line e in
    rw at (
      All-take (λ (x : ℕ). x ≢ b'\n') i line h,
      find_first-Lacks b'=' line i at,
      rw (first_visible-take line i at) (parse_line-IsVisible line e),
    )

split_entry-NoEnd : (line : List ℕ) (i : Option ℕ) → NoEnd line → NoEnd (split_entry line i).1
unfolding split_entry
split_entry-NoEnd line none h = h
split_entry-NoEnd line (some i) h = All-drop (λ (x : ℕ). x ≢ b'\n') (i + 1) line h

pub parse_entry-NoEnd : (line : List ℕ) → NoEnd line → NoEnd (parse_entry line).1
unfolding parse_entry
parse_entry-NoEnd line h = split_entry-NoEnd line (find_first b'=' line) h

section_name_at-NoEnd :
    (line : List ℕ) (start stop : Option ℕ) → NoEnd line → NoEnd (section_name_at line start stop)
unfolding section_name_at
section_name_at-NoEnd line none stop h = tt
section_name_at-NoEnd line (some start) none h = All-drop (λ (x : ℕ). x ≢ b'\n') start line h
section_name_at-NoEnd line (some start) (some stop) h =
    All-take (λ (x : ℕ). x ≢ b'\n') (stop - start - 1) (drop (start + 1) line)
      (All-drop (λ (x : ℕ). x ≢ b'\n') (start + 1) line h)

pub parse_section_name-NoEnd : (line : List ℕ) → NoEnd line → NoEnd (parse_section_name line)
unfolding parse_section_name
parse_section_name-NoEnd line h =
    section_name_at-NoEnd line (find_first b'[' line) (find_last b']' line) h
