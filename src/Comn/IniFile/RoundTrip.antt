-- ===== src/Comn/IniFile/RoundTrip.antt =====
-- `load` of what `save` writes.
use mathlib.Core.List.{append_assoc, append-nil}
use dgnss_server.Common.{
  ℕ, ◌≡◌, refl, sym, ◌∙◌, ap, arith, true, ◌≢◌, some, List, [], ◌∷◌, ◌++◌, All, All-append, inl,
  inr,
}
use dgnss_server.Comn.IniFile.{
  IniEntry, IniSection, IniFile, LineFlag, line_unknown, line_empty, line_comment, line_section,
  line_entry, is_comment, new_section, parse_line, lines_of, Loading, is_empty_section,
  push_section, add_comment, load_line, loading, load_header, load_text, load, save_entries,
  save_sections, save,
}
use dgnss_server.Comn.IniFile.Lines.{
  NoEnd, lines_of-line, section_line, parse_entry_lem, parse_section_name_lem, parse_line-entry,
  parse_line-section,
}
use dgnss_server.Comn.IniFile.Loaded.{
  unlines, IsHeaderLine, IsCommentLine, IsEntry, IsSection, IsStorable, load_all, load_loop_end,
  IsHeaderFlag, load_header_other, load_text-IsStorable,
}

-- The second loop on a line in front of a text.
load_all-line :
    (flag : LineFlag) (line rest : List ℕ) (st : Loading)
    → NoEnd line
    → parse_line line ≡ flag
    → load_all (lines_of (line ++ b'\n' ∷ rest)) st
      ≡ load_all (lines_of rest) (load_line flag line st)
unfolding load_all
load_all-line flag line rest st h e =
    rw (lines_of-line line rest h)
      (ap (λ (f : LineFlag). load_all (lines_of rest) (load_line f line st)) e)

load_line_comment :
    (line : List ℕ) (st : Loading)
    → IsCommentLine line
    → load_line (parse_line line) line st ≡ add_comment st line
unfolding load_line
load_line_comment line st (h, inl e) = rw e
load_line_comment line st (h, inr e) = rw e

-- On the lines of a comment.
load_all-unlines :
    (lines : List (List ℕ)) (rest : List ℕ) (st : Loading)
    → All IsCommentLine lines
    → load_all (lines_of (unlines lines ++ rest)) st
      ≡ load_all (lines_of rest) (record st { comment = st.comment ++ unlines lines })
unfolding unlines
load_all-unlines [] rest st h = rw append-nil
load_all-unlines (line ∷ lines) rest st h =
    let to_comment = λ (c : List ℕ). load_all (lines_of rest) (record st { comment = c }) in
    let joined : (st.comment ++ line ++ b'\n' ∷ []) ++ unlines lines
        ≡ st.comment ++ (line ++ b'\n' ∷ unlines lines) =
      simp append_assoc in
    ap (λ (t : List ℕ). load_all (lines_of t) st) (append_assoc line (b'\n' ∷ unlines lines) rest)
    ∙ load_all-line (parse_line line) line (unlines lines ++ rest) st h.0.0 refl
    ∙ ap (λ (s : Loading). load_all (lines_of (unlines lines ++ rest)) s)
        (load_line_comment line st h.0)
    ∙ load_all-unlines lines rest (add_comment st line) h.1
    ∙ unfold add_comment in ap to_comment joined

-- On the entries of a section.
add_entries : List IniEntry → Loading → Loading
add_entries es st = record st {
  section = record st.section { entries = st.section.entries ++ es };
  comment = [];
}

load_line_entry :
    (e : IniEntry) (st : Loading)
    → IsEntry e
    → st.comment ≡ e.comment
    → load_line line_entry (e.key ++ b'=' ∷ e.value) st ≡ add_entries (e ∷ []) st
unfolding load_line add_entries
load_line_entry e st h c = rw (parse_entry_lem e.key e.value h.key.1, c)

entry_line-NoEnd : (e : IniEntry) → IsEntry e → NoEnd (e.key ++ b'=' ∷ e.value)
entry_line-NoEnd e h =
    All-append (λ (x : ℕ). x ≢ b'\n') e.key (b'=' ∷ e.value) h.key.0 (omega arith, h.value)

section_line-NoEnd : (name : List ℕ) → NoEnd name → NoEnd (section_line name)
unfolding section_line
section_line-NoEnd name h =
    (omega arith, All-append (λ (x : ℕ). x ≢ b'\n') name (b']' ∷ []) h (omega arith, tt))

load_all-save_entries :
    (es : List IniEntry) (rest : List ℕ) (st : Loading)
    → st.comment ≡ []
    → All IsEntry es
    → load_all (lines_of (save_entries es ++ rest)) st
      ≡ load_all (lines_of rest) (add_entries es st)
unfolding save_entries
load_all-save_entries [] rest st c h = unfold add_entries in rw (append-nil, ← c) refl
load_all-save_entries (e ∷ es) rest st c h =
    let (lines, comment, all) = h.0.comment in
    let st1 = record st { comment = st.comment ++ unlines lines } in
    let line = e.key ++ b'=' ∷ e.value in
    let tail = save_entries es ++ rest in
    let parts : (e.comment ++ (e.key ++ b'=' ∷ (e.value ++ b'\n' ∷ save_entries es))) ++ rest
        ≡ unlines lines ++ (line ++ b'\n' ∷ tail) =
      rw comment (simp append_assoc) in
    let same : st1.comment ≡ e.comment = rw (c, comment) in
    let joined : add_entries es (add_entries (e ∷ []) st1) ≡ add_entries (e ∷ es) st =
      unfold add_entries in
      ap
        (λ (t : List IniEntry).
          add_entries t (record st { section = record st.section { entries = [] } }))
        (append_assoc st.section.entries (e ∷ []) es) in
    ap (λ (t : List ℕ). load_all (lines_of t) st) parts
    ∙ load_all-unlines lines (line ++ b'\n' ∷ tail) st all
    ∙ load_all-line line_entry line tail st1 (entry_line-NoEnd e h.0)
        (parse_line-entry e.key e.value h.0.key)
    ∙ ap (λ (s : Loading). load_all (lines_of tail) s) (load_line_entry e st1 h.0 same)
    ∙ load_all-save_entries es rest (add_entries (e ∷ []) st1) (unfold add_entries in refl) h.1
    ∙ ap (λ (s : Loading). load_all (lines_of rest) s) joined

push_section_in_use :
    (st : Loading) (s : IniSection)
    → st.section ≡ s
    → IsSection s
    → push_section st ≡ st.sections ++ s ∷ []
unfolding push_section
push_section_in_use st s e h = rw (e, h.in_use)

load_all-save_sections :
    (ss : List IniSection) (st : Loading)
    → st.comment ≡ []
    → All IsSection ss
    → load_all (lines_of (save_sections ss)) st ≡ push_section st ++ ss
unfolding save_sections
load_all-save_sections [] st c h = unfold lines_of load_all in rw append-nil
load_all-save_sections (s ∷ ss) st c h =
    let body = save_entries s.entries ++ save_sections ss in
    let st1 : Loading = record {
      section = new_section s.name;
      comment = st.comment;
      sections = push_section st;
    } in
    let title = b'[' ∷ (s.name ++ b']' ∷ b'\n' ∷ body) in
    let header : section_line s.name ++ b'\n' ∷ body ≡ title =
      unfold section_line in simp append_assoc in
    let headed : load_line line_section (section_line s.name) st ≡ st1 =
      unfold load_line in rw (parse_section_name_lem s.name) in
    let pushed : push_section (add_entries s.entries st1) ≡ push_section st ++ s ∷ [] =
      push_section_in_use (add_entries s.entries st1) s (unfold add_entries in refl) h.0
      ∙ (unfold add_entries in refl) in
    let skipped : load_all (lines_of title) (load_line line_empty [] st)
        ≡ load_all (lines_of (section_line s.name ++ b'\n' ∷ body)) st =
      unfold load_line in ap (λ (t : List ℕ). load_all (lines_of t) st) (sym header) in
    load_all-line line_empty [] title st tt (unfold parse_line in refl)
    ∙ skipped
    ∙ load_all-line line_section (section_line s.name) body st (section_line-NoEnd s.name h.0.name)
        (parse_line-section s.name)
    ∙ ap (λ (r : Loading). load_all (lines_of body) r) headed
    ∙ load_all-save_entries s.entries (save_sections ss) st1 c h.0.entries
    ∙ load_all-save_sections ss (add_entries s.entries st1) (unfold add_entries in refl) h.1
    ∙ ap (λ (r : List IniSection). r ++ ss) pushed
    ∙ append_assoc (push_section st) (s ∷ []) ss

load_header_comment :
    (flag : LineFlag) (comment line : List ℕ) (lines : List (List ℕ))
    → parse_line line ≡ line_comment
    → load_header flag comment (line ∷ lines)
      ≡ load_header (parse_line line) (comment ++ line ++ b'\n' ∷ []) lines
unfolding load_header is_comment
load_header_comment flag comment line lines e = rw e

load_header-save_sections :
    (flag : LineFlag) (comment : List ℕ) (lines : List (List ℕ)) (ss : List IniSection)
    → IsHeaderFlag flag
    → All IsHeaderLine lines
    → All IsSection ss
    → load_header flag comment (lines_of (unlines lines ++ save_sections ss))
      ≡ record { sections = ss; file_comment = comment ++ unlines lines }
load_header-save_sections flag comment [] [] f h k =
    unfold unlines save_sections lines_of load_header in rw (append-nil, load_loop_end flag f)
load_header-save_sections flag comment [] (s ∷ ss) f h k =
    let body = b'[' ∷ (s.name ++ b']' ∷ b'\n' ∷ (save_entries s.entries ++ save_sections ss)) in
    let first : lines_of (save_sections (s ∷ ss)) ≡ [] ∷ lines_of body =
      unfold save_sections in lines_of-line [] body tt in
    let sections : load_all ([] ∷ lines_of body) loading ≡ s ∷ ss =
      ap (λ (t : List (List ℕ)). load_all t loading) (sym first)
      ∙ load_all-save_sections (s ∷ ss) loading refl k
      ∙ (unfold push_section is_empty_section in refl) in
    unfold unlines in
    ap (λ (t : List (List ℕ)). load_header flag comment t) first
    ∙ load_header_other flag comment [] (lines_of body) (unfold parse_line is_comment in refl)
    ∙ rw (sections, append-nil)
load_header-save_sections flag comment (line ∷ lines) ss f h k =
    let comment1 = comment ++ line ++ b'\n' ∷ [] in
    let text = unlines lines ++ save_sections ss in
    let first : lines_of (unlines (line ∷ lines) ++ save_sections ss) ≡ line ∷ lines_of text =
      unfold unlines in
      ap (λ (t : List ℕ). lines_of t) (append_assoc line (b'\n' ∷ unlines lines) (save_sections ss))
      ∙ lines_of-line line text h.0.0 in
    let joined : comment1 ++ unlines lines ≡ comment ++ unlines (line ∷ lines) =
      unfold unlines in simp append_assoc in
    ap (λ (t : List (List ℕ)). load_header flag comment t) first
    ∙ load_header_comment flag comment line (lines_of text) h.0.1
    ∙ load_header-save_sections (parse_line line) comment1 lines ss (inr h.0.1) h.1 k
    ∙ ap (λ (t : List ℕ). record { sections = ss; file_comment = t }) joined

-- `load` gives back what `save` wrote of a file whose parts stand on lines of their own.
pub load_text-save : (file : IniFile) → IsStorable file → load_text (save file) ≡ file
unfolding load_text save
load_text-save file h =
    let (lines, e, all) = h.header in
    rw e (load_header-save_sections line_unknown [] lines file.sections (inl refl) all h.sections)

-- What `load` makes of any text is what it makes again of the text that `save` then writes.
pub load-save-load :
    (text : List ℕ) (file : IniFile)
    → load (some (save (load_text text))) file ≡ (load_text text, true)
unfolding load
load-save-load text file =
    ap (λ (f : IniFile). (f, true)) (load_text-save (load_text text) (load_text-IsStorable text))
