-- ===== src/Comn/IniFile/Loaded.antt =====
-- What `load` makes of a text: files whose parts stand on lines of their own.
use mathlib.Core.List.{append_assoc}
use dgnss_server.Common.{
  ℕ, ◌≡◌, refl, true, false, List, [], ◌∷◌, ◌++◌, All, All-append, ◌⊎◌, inl, inr, Bool-cases,
}
use dgnss_server.Comn.IniFile.{
  IniEntry, IniSection, IniFile, LineFlag, line_unknown, line_empty, line_comment, line_section,
  line_entry, is_comment, parse_line, parse_entry, lines_of, Loading, is_empty_section,
  push_section, add_comment, load_line, load_loop, loading, load_header, load_text,
}
use dgnss_server.Comn.IniFile.Lines.{
  NoEnd, IsKey, lines_of-NoEnd, parse_entry-IsKey, parse_entry-NoEnd, parse_section_name-NoEnd,
}

-- Lines with their ends.
unfoldable pub unlines : List (List ℕ) → List ℕ
unlines [] = []
unlines (line ∷ lines) = line ++ b'\n' ∷ unlines lines

pub unlines-append :
    (lines : List (List ℕ)) (line : List ℕ)
    → unlines lines ++ line ++ b'\n' ∷ [] ≡ unlines (lines ++ line ∷ [])
unfolding unlines
unlines-append [] line = refl
unlines-append (l ∷ lines) line =
    simp (append_assoc) (rw (← unlines-append lines line) (simp append_assoc))

-- A line of a comment at the head of the file, and of one before an entry.
abbrev pub IsHeaderLine : List ℕ → Type 0
IsHeaderLine line = NoEnd line × (parse_line line ≡ line_comment)

abbrev pub IsCommentLine : List ℕ → Type 0
IsCommentLine line =
    NoEnd line × ((parse_line line ≡ line_comment) ⊎ (parse_line line ≡ line_unknown))

abbrev pub IsLinesOf : (List ℕ → Type 0) → List ℕ → Type 0
IsLinesOf P text = (lines : List (List ℕ)) × (text ≡ unlines lines) × All P lines

pub record IsEntry (e : IniEntry) : Type 0 where
  pub key : IsKey e.key
  pub value : NoEnd e.value
  pub comment : IsLinesOf IsCommentLine e.comment

pub record IsSection (s : IniSection) : Type 0 where
  pub name : NoEnd s.name
  pub entries : All IsEntry s.entries
  pub in_use : is_empty_section s ≡ false

-- A file that `save` writes so that it can be read back.
pub record IsStorable (file : IniFile) : Type 0 where
  pub header : IsLinesOf IsHeaderLine file.file_comment
  pub sections : All IsSection file.sections

record IsLoading (st : Loading) : Type 0 where
  name : NoEnd st.section.name
  entries : All IsEntry st.section.entries
  comment : IsLinesOf IsCommentLine st.comment
  sections : All IsSection st.sections

push_section-IsSection : (st : Loading) → IsLoading st → All IsSection (push_section st)
unfolding push_section
push_section-IsSection st h = elim (Bool-cases (is_empty_section st.section)) [
  | inl empty ↦ rw empty h.sections
  | inr in_use ↦
      let last : IsSection st.section = record {
        name = h.name;
        entries = h.entries;
        in_use = in_use;
      } in
      rw in_use (All-append IsSection st.sections (st.section ∷ []) h.sections (last, tt))
]

IsLinesOf-add :
    (P : List ℕ → Type 0) (text line : List ℕ)
    → IsLinesOf P text
    → P line
    → IsLinesOf P (text ++ line ++ b'\n' ∷ [])
IsLinesOf-add P text line (lines, e, all) p = (
  lines ++ line ∷ [],
  rw e (unlines-append lines line),
  All-append P lines (line ∷ []) all (p, tt),
)

add_comment-IsLoading :
    (st : Loading) (line : List ℕ)
    → IsLoading st
    → IsCommentLine line
    → IsLoading (add_comment st line)
unfolding add_comment
add_comment-IsLoading st line h p = record {
  name = h.name;
  entries = h.entries;
  comment = IsLinesOf-add IsCommentLine st.comment line h.comment p;
  sections = h.sections;
}

load_line-IsLoading :
    (flag : LineFlag) (line : List ℕ) (st : Loading)
    → NoEnd line
    → parse_line line ≡ flag
    → IsLoading st
    → IsLoading (load_line flag line st)
unfolding load_line
load_line-IsLoading line_section line st p e h = record {
  name = parse_section_name-NoEnd line p;
  entries = tt;
  comment = h.comment;
  sections = push_section-IsSection st h;
}
load_line-IsLoading line_comment line st p e h = add_comment-IsLoading st line h (p, inl e)
load_line-IsLoading line_entry line st p e h =
    let entry : IniEntry = record {
      key = (parse_entry line).0;
      value = (parse_entry line).1;
      comment = st.comment;
    } in
    let new : IsEntry entry = record {
      key = parse_entry-IsKey line p e;
      value = parse_entry-NoEnd line p;
      comment = h.comment;
    } in
    record {
      name = h.name;
      entries = All-append IsEntry st.section.entries (entry ∷ []) h.entries (new, tt);
      comment = ([], unfold unlines in refl, tt);
      sections = h.sections;
    }
load_line-IsLoading line_empty line st p e h = h
load_line-IsLoading line_unknown line st p e h = add_comment-IsLoading st line h (p, inr e)

-- The rounds of the second loop on lines.
unfoldable pub load_all : List (List ℕ) → Loading → List IniSection
load_all [] st = push_section st
load_all (line ∷ lines) st = load_all lines (load_line (parse_line line) line st)

pub load_loop-load_all :
    (line : List ℕ) (lines : List (List ℕ)) (st : Loading)
    → load_loop (parse_line line) line lines st ≡ load_all (line ∷ lines) st
unfolding load_loop load_all
load_loop-load_all line [] st = refl
load_loop-load_all line (next ∷ lines) st =
    load_loop-load_all next lines (load_line (parse_line line) line st)

load_all-IsSection :
    (lines : List (List ℕ)) (st : Loading)
    → All NoEnd lines
    → IsLoading st
    → All IsSection (load_all lines st)
unfolding load_all
load_all-IsSection [] st p h = push_section-IsSection st h
load_all-IsSection (line ∷ lines) st p h =
    load_all-IsSection lines (load_line (parse_line line) line st) p.1
      (load_line-IsLoading (parse_line line) line st p.0 refl h)

loading-IsLoading : IsLoading loading
loading-IsLoading = record {
  name = tt;
  entries = tt;
  comment = ([], unfold unlines in refl, tt);
  sections = tt;
}

-- The flag before the first line and after a line of the header.
abbrev pub IsHeaderFlag : LineFlag → Type 0
IsHeaderFlag flag = (flag ≡ line_unknown) ⊎ (flag ≡ line_comment)

pub load_loop_end : (flag : LineFlag) → IsHeaderFlag flag → load_loop flag [] [] loading ≡ []
unfolding load_loop load_line add_comment push_section is_empty_section
load_loop_end line_unknown h = refl
load_loop_end line_comment h = refl
load_loop_end line_empty h = refl
load_loop_end line_section (inl e) = cc
load_loop_end line_section (inr e) = cc
load_loop_end line_entry (inl e) = cc
load_loop_end line_entry (inr e) = cc

is_comment-eq : (flag : LineFlag) → is_comment flag ≡ true → flag ≡ line_comment
unfolding is_comment
is_comment-eq line_comment e = refl
is_comment-eq line_unknown e = cc
is_comment-eq line_empty e = cc
is_comment-eq line_section e = cc
is_comment-eq line_entry e = cc

-- The first line that is no comment goes to the second loop.
pub load_header_other :
    (flag : LineFlag) (comment line : List ℕ) (lines : List (List ℕ))
    → is_comment (parse_line line) ≡ false
    → load_header flag comment (line ∷ lines)
      ≡ record { sections = load_all (line ∷ lines) loading; file_comment = comment }
unfolding load_header
load_header_other flag comment line lines h = rw (h, load_loop-load_all line lines loading)

load_header-IsStorable :
    (flag : LineFlag) (comment : List ℕ) (lines : List (List ℕ))
    → IsHeaderFlag flag
    → IsLinesOf IsHeaderLine comment
    → All NoEnd lines
    → IsStorable (load_header flag comment lines)
unfolding load_header
load_header-IsStorable flag comment [] f c h = record {
  header = c;
  sections = rw (load_loop_end flag f) tt;
}
load_header-IsStorable flag comment (line ∷ lines) f c h =
    elim (Bool-cases (is_comment (parse_line line))) [
      | inl yes_comment ↦
          let e = is_comment-eq (parse_line line) yes_comment in
          rw yes_comment (
            load_header-IsStorable (parse_line line) (comment ++ line ++ b'\n' ∷ []) lines (inr e)
              (IsLinesOf-add IsHeaderLine comment line c (h.0, e)) h.1)
      | inr other ↦ rw other (record {
        header = c;
        sections =
            rw (load_loop-load_all line lines loading)
              (load_all-IsSection (line ∷ lines) loading h loading-IsLoading);
      })
    ]

pub load_text-IsStorable : (text : List ℕ) → IsStorable (load_text text)
unfolding load_text
load_text-IsStorable text =
    load_header-IsStorable line_unknown [] (lines_of text) (inl refl)
      ([], unfold unlines in refl, tt) (lines_of-NoEnd text)
