-- ===== src/Comn/IniFile/Names.antt =====
-- Sections of different names, with entries of different keys, and the calls that keep them so.
use dgnss_server.Common.{
  ℕ, ◌≡◌, ◌≢◌, refl, sym, arith, false, List, [], ◌∷◌, ◌++◌, map, All, All-append, Bool-cases, inl,
  inr,
}
use dgnss_server.Comn.Text.{same_text, same_text_no}
use dgnss_server.Comn.IniFile.{IniEntry, IniSection, IniFile, new_section, new_entry, new_ini_file}
use dgnss_server.Comn.IniFile.Calls.{
  found, ensure_entry, set_entry, remove_entry, clear_comments, find_section, change_section,
  ensure_section, exist_section, insert_section, erase_section, remove_section, remove_comment,
  remove_comments, set_comment, remove_key, set_value, set_file_comment,
}

-- What is called, with its arguments.
pub data IniCall : Type 0 where
  set_value_call : List ℕ → List ℕ → List ℕ → IniCall
  set_comment_call : List ℕ → List ℕ → List ℕ → IniCall
  insert_section_call : List ℕ → IniCall
  remove_section_call : List ℕ → IniCall
  remove_comment_call : List ℕ → IniCall
  remove_comments_call : IniCall
  remove_key_call : List ℕ → List ℕ → IniCall
  set_file_comment_call : List ℕ → IniCall
  clear_call : IniCall

unfoldable pub call : IniCall → IniFile → IniFile
call (set_value_call name key value) file = set_value name key value file
call (set_comment_call name key comment) file = set_comment name key comment file
call (insert_section_call name) file = (insert_section name file).0
call (remove_section_call name) file = remove_section name file
call (remove_comment_call name) file = remove_comment name file
call remove_comments_call file = remove_comments file
call (remove_key_call name key) file = remove_key name key file
call (set_file_comment_call comment) file = set_file_comment comment file
call clear_call file = new_ini_file

unfoldable pub calls : List IniCall → IniFile → IniFile
calls [] file = file
calls (c ∷ cs) file = calls cs (call c file)

abbrev pub NoKey : List ℕ → List IniEntry → Type 0
NoKey key = All (λ (e : IniEntry). e.key ≢ key)

abbrev pub AreKeys : List IniEntry → Type 0
AreKeys [] = Unit
AreKeys (e ∷ es) = NoKey e.key es × AreKeys es

abbrev pub NoSection : List ℕ → List IniSection → Type 0
NoSection name = All (λ (s : IniSection). s.name ≢ name)

abbrev pub AreSections : List IniSection → Type 0
AreSections [] = Unit
AreSections (s ∷ ss) = NoSection s.name ss × AreKeys s.entries × AreSections ss

module _ (change : IniEntry → IniEntry) (keeps : (e : IniEntry) → (change e).key ≡ e.key) where
  NoKey-ensure :
      (other key : List ℕ) (es : List IniEntry)
      → other ≢ key
      → NoKey other es
      → NoKey other (ensure_entry change key es)
  unfolding ensure_entry
  NoKey-ensure other key [] ne h = (rw (keeps (new_entry key)) (λ e. ne (sym e)), tt)
  NoKey-ensure other key (e ∷ es) ne h = elim (Bool-cases (same_text e.key key)) [
    | inl same ↦ rw same (rw (keeps e) h.0, h.1)
    | inr differ ↦ rw differ (h.0, NoKey-ensure other key es ne h.1)
  ]

  AreKeys-ensure :
      (key : List ℕ) (es : List IniEntry) → AreKeys es → AreKeys (ensure_entry change key es)
  unfolding ensure_entry
  AreKeys-ensure key [] h = (tt, tt)
  AreKeys-ensure key (e ∷ es) h = elim (Bool-cases (same_text e.key key)) [
    | inl same ↦ rw same (rw (keeps e) h.0, h.1)
    | inr differ ↦
        rw differ
          (NoKey-ensure e.key key es (same_text_no e.key key differ) h.0, AreKeys-ensure key es h.1)
  ]

  NoKey-map : (other : List ℕ) (es : List IniEntry) → NoKey other es → NoKey other (map change es)
  NoKey-map other [] h = tt
  NoKey-map other (e ∷ es) h = (rw (keeps e) h.0, NoKey-map other es h.1)

  AreKeys-map : (es : List IniEntry) → AreKeys es → AreKeys (map change es)
  AreKeys-map [] h = tt
  AreKeys-map (e ∷ es) h = (rw (keeps e) (NoKey-map e.key es h.0), AreKeys-map es h.1)

NoKey-remove :
    (other key : List ℕ) (es : List IniEntry) → NoKey other es → NoKey other (remove_entry key es)
unfolding remove_entry
NoKey-remove other key [] h = tt
NoKey-remove other key (e ∷ es) h = ground (arith, NoKey-remove other key es)

AreKeys-remove : (key : List ℕ) (es : List IniEntry) → AreKeys es → AreKeys (remove_entry key es)
unfolding remove_entry
AreKeys-remove key [] h = tt
AreKeys-remove key (e ∷ es) h = elim (Bool-cases (same_text e.key key)) [
  | inl same ↦ rw same h.1
  | inr other ↦ rw other (NoKey-remove e.key key es h.0, AreKeys-remove key es h.1)
]

-- A change of a section that keeps its name and different keys.
record IsChange (change : IniSection → IniSection) : Type 0 where
  keeps : (s : IniSection) → (change s).name ≡ s.name
  keys : (s : IniSection) → AreKeys s.entries → AreKeys (change s).entries

module _ (change : IniSection → IniSection) (c : IsChange change) where
  NoSection-change :
      (other name : List ℕ) (ss : List IniSection)
      → NoSection other ss
      → NoSection other (change_section change name ss)
  unfolding change_section
  NoSection-change other name [] h = tt
  NoSection-change other name (s ∷ ss) h = elim (Bool-cases (same_text s.name name)) [
    | inl same ↦ rw same (rw (c.keeps s) h.0, h.1)
    | inr differ ↦ rw differ (h.0, NoSection-change other name ss h.1)
  ]

  AreSections-change :
      (name : List ℕ) (ss : List IniSection)
      → AreSections ss
      → AreSections (change_section change name ss)
  unfolding change_section
  AreSections-change name [] h = tt
  AreSections-change name (s ∷ ss) h = elim (Bool-cases (same_text s.name name)) [
    | inl same ↦ rw same (rw (c.keeps s) h.0, c.keys s h.1, h.2)
    | inr differ ↦
        rw differ (NoSection-change s.name name ss h.0, h.1, AreSections-change name ss h.2)
  ]

  NoSection-ensure :
      (other name : List ℕ) (ss : List IniSection)
      → other ≢ name
      → NoSection other ss
      → NoSection other (ensure_section change name ss)
  unfolding ensure_section
  NoSection-ensure other name [] ne h = (rw (c.keeps (new_section name)) (λ e. ne (sym e)), tt)
  NoSection-ensure other name (s ∷ ss) ne h = elim (Bool-cases (same_text s.name name)) [
    | inl same ↦ rw same (rw (c.keeps s) h.0, h.1)
    | inr differ ↦ rw differ (h.0, NoSection-ensure other name ss ne h.1)
  ]

  AreSections-ensure :
      (name : List ℕ) (ss : List IniSection)
      → AreSections ss
      → AreSections (ensure_section change name ss)
  unfolding ensure_section
  AreSections-ensure name [] h = (tt, c.keys (new_section name) tt, tt)
  AreSections-ensure name (s ∷ ss) h = elim (Bool-cases (same_text s.name name)) [
    | inl same ↦ rw same (rw (c.keeps s) h.0, c.keys s h.1, h.2)
    | inr differ ↦ rw differ (
      NoSection-ensure s.name name ss (same_text_no s.name name differ) h.0,
      h.1,
      AreSections-ensure name ss h.2,
    )
  ]

  NoSection-map :
      (other : List ℕ) (ss : List IniSection) → NoSection other ss → NoSection other (map change ss)
  NoSection-map other [] h = tt
  NoSection-map other (s ∷ ss) h = (rw (c.keeps s) h.0, NoSection-map other ss h.1)

  AreSections-map : (ss : List IniSection) → AreSections ss → AreSections (map change ss)
  AreSections-map [] h = tt
  AreSections-map (s ∷ ss) h =
      (rw (c.keeps s) (NoSection-map s.name ss h.0), c.keys s h.1, AreSections-map ss h.2)

ensure_entry-IsChange :
    (change : IniEntry → IniEntry) (key : List ℕ)
    → ((e : IniEntry) → (change e).key ≡ e.key)
    → IsChange (λ (s : IniSection). record s { entries = ensure_entry change key s.entries })
ensure_entry-IsChange change key keeps = record {
  keeps = λ s. refl;
  keys = λ s h. AreKeys-ensure change keeps key s.entries h;
}

clear_comments-IsChange : IsChange clear_comments
unfolding clear_comments
clear_comments-IsChange = record {
  keeps = λ s. refl;
  keys = λ s h. AreKeys-map (λ (e : IniEntry). record e { comment = [] }) (λ e. refl) s.entries h;
}

remove_entry-IsChange :
    (key : List ℕ)
    → IsChange (λ (s : IniSection). record s { entries = remove_entry key s.entries })
remove_entry-IsChange key = record {
  keeps = λ s. refl;
  keys = λ s h. AreKeys-remove key s.entries h;
}

NoSection-erase :
    (other name : List ℕ) (ss : List IniSection)
    → NoSection other ss
    → NoSection other (erase_section name ss)
unfolding erase_section
NoSection-erase other name [] h = tt
NoSection-erase other name (s ∷ ss) h = ground (arith, NoSection-erase other name ss)

AreSections-erase :
    (name : List ℕ) (ss : List IniSection) → AreSections ss → AreSections (erase_section name ss)
unfolding erase_section
AreSections-erase name [] h = tt
AreSections-erase name (s ∷ ss) h = elim (Bool-cases (same_text s.name name)) [
  | inl same ↦ rw same h.2
  | inr other ↦ rw other (NoSection-erase s.name name ss h.0, h.1, AreSections-erase name ss h.2)
]

AreSections-add :
    (name : List ℕ) (ss : List IniSection)
    → found (find_section name ss) ≡ false
    → AreSections ss
    → AreSections (ss ++ new_section name ∷ [])
unfolding found find_section
AreSections-add name [] e h = (tt, tt, tt)
AreSections-add name (s ∷ ss) e h = elim (Bool-cases (same_text s.name name)) [
  | inl same ↦ absurd (ground arith)
  | inr other ↦ (
    All-append (λ (t : IniSection). t.name ≢ s.name) ss (new_section name ∷ []) h.0
        (λ f. same_text_no s.name name other (sym f), tt),
    h.1,
    AreSections-add name ss (rw other at e) h.2,
  )
]

insert_section-AreSections :
    (name : List ℕ) (file : IniFile)
    → AreSections file.sections
    → AreSections (insert_section name file).0.sections
unfolding insert_section exist_section
insert_section-AreSections name file h =
    elim (Bool-cases (found (find_section name file.sections))) [
      | inl there ↦ rw there h
      | inr free ↦ rw free (AreSections-add name file.sections free h)
    ]

call-AreSections :
    (c : IniCall) (file : IniFile) → AreSections file.sections → AreSections (call c file).sections
unfolding call
call-AreSections (set_value_call name key value) file h =
    unfold set_value set_entry in
    AreSections-ensure _
      (ensure_entry-IsChange (λ (e : IniEntry). record e { value = value }) key (λ e. refl)) name
      file.sections h
call-AreSections (set_comment_call name key comment) file h =
    unfold set_comment in
    AreSections-ensure _
      (ensure_entry-IsChange (λ (e : IniEntry). record e { comment = comment }) key (λ e. refl))
      name file.sections h
call-AreSections (insert_section_call name) file h = insert_section-AreSections name file h
call-AreSections (remove_section_call name) file h =
    unfold remove_section in AreSections-erase name file.sections h
call-AreSections (remove_comment_call name) file h =
    unfold remove_comment in
    AreSections-change clear_comments clear_comments-IsChange name file.sections h
call-AreSections remove_comments_call file h =
    unfold remove_comments in AreSections-map clear_comments clear_comments-IsChange file.sections h
call-AreSections (remove_key_call name key) file h =
    unfold remove_key in AreSections-change _ (remove_entry-IsChange key) name file.sections h
call-AreSections (set_file_comment_call comment) file h = unfold set_file_comment in h
call-AreSections clear_call file h = tt

-- Any calls on a file whose sections have different names and whose entries have different keys in
-- each section leave it so.
pub calls-AreSections :
    (cs : List IniCall) (file : IniFile)
    → AreSections file.sections
    → AreSections (calls cs file).sections
unfolding calls
calls-AreSections [] file h = h
calls-AreSections (c ∷ cs) file h = calls-AreSections cs (call c file) (call-AreSections c file h)
