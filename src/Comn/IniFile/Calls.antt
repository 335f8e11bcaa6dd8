-- ===== src/Comn/IniFile/Calls.antt =====
-- The calls of IniFile and IniSection on what was loaded. An iterator is the element that it is at.
use dgnss_server.Common.{
  ℕ, Bool, true, false, Option, none, some, List, [], ◌∷◌, ◌++◌, map, length, get_or, if◌then◌else◌,
}
use dgnss_server.Comn.Text.{same_text}
use dgnss_server.Comn.IniFile.{IniEntry, IniSection, IniFile, new_section, new_entry}

unfoldable pub found {ℓ} : {A : Type ℓ} → Option A → Bool
found none = false
found (some a) = true

-- `IniSection::findIterator`
unfoldable pub find_entry : List ℕ → List IniEntry → Option IniEntry
find_entry key [] = none
find_entry key (e ∷ es) = if same_text e.key key then some e else find_entry key es

-- `IniSection::ensure`, and a change of the entry that it returns.
unfoldable pub ensure_entry : (IniEntry → IniEntry) → List ℕ → List IniEntry → List IniEntry
ensure_entry change key [] = change (new_entry key) ∷ []
ensure_entry change key (e ∷ es) =
    if same_text e.key key then change e ∷ es else e ∷ ensure_entry change key es

-- `IniSection::set`
unfoldable pub set_entry : List ℕ → List ℕ → IniSection → IniSection
set_entry key value s = record s {
  entries = ensure_entry (λ (e : IniEntry). record e { value = value }) key s.entries;
}

-- `IniSection::get`
unfoldable pub value_of : Option IniEntry → Option (List ℕ)
value_of none = none
value_of (some e) = some e.value

unfoldable pub get_entry : List ℕ → IniSection → Option (List ℕ)
get_entry key s = value_of (find_entry key s.entries)

-- `IniSection::remove`
unfoldable pub remove_entry : List ℕ → List IniEntry → List IniEntry
remove_entry key [] = []
remove_entry key (e ∷ es) = if same_text e.key key then es else e ∷ remove_entry key es

-- `IniSection::removeComment`
unfoldable pub clear_comments : IniSection → IniSection
clear_comments s = record s {
  entries = map (λ (e : IniEntry). record e { comment = [] }) s.entries;
}

-- `IniFile::findIterator`
unfoldable pub find_section : List ℕ → List IniSection → Option IniSection
find_section name [] = none
find_section name (s ∷ ss) = if same_text s.name name then some s else find_section name ss

-- A change of the section that `findIterator` is at, if there is one.
unfoldable pub change_section :
    (IniSection → IniSection) → List ℕ → List IniSection → List IniSection
change_section change name [] = []
change_section change name (s ∷ ss) =
    if same_text s.name name then change s ∷ ss else s ∷ change_section change name ss

-- `IniFile::ensure`, and a change of the section that it returns.
unfoldable pub ensure_section :
    (IniSection → IniSection) → List ℕ → List IniSection → List IniSection
ensure_section change name [] = change (new_section name) ∷ []
ensure_section change name (s ∷ ss) =
    if same_text s.name name then change s ∷ ss else s ∷ ensure_section change name ss

unfoldable pub exist_section : List ℕ → IniFile → Bool
exist_section name file = found (find_section name file.sections)

unfoldable pub insert_section : List ℕ → IniFile → IniFile × Bool
insert_section name file =
    if exist_section name file
    then (file, false)
    else (record file { sections = file.sections ++ new_section name ∷ [] }, true)

unfoldable pub erase_section : List ℕ → List IniSection → List IniSection
erase_section name [] = []
erase_section name (s ∷ ss) = if same_text s.name name then ss else s ∷ erase_section name ss

unfoldable pub remove_section : List ℕ → IniFile → IniFile
remove_section name file = record file { sections = erase_section name file.sections }

-- `removeComment` of a section, and of all.
unfoldable pub remove_comment : List ℕ → IniFile → IniFile
remove_comment name file = record file {
  sections = change_section clear_comments name file.sections;
}

unfoldable pub remove_comments : IniFile → IniFile
remove_comments file = record file { sections = map clear_comments file.sections }

unfoldable pub set_comment : List ℕ → List ℕ → List ℕ → IniFile → IniFile
set_comment name key comment file = record file {
  sections =
      ensure_section
        (λ (s : IniSection). record s {
          entries = ensure_entry (λ (e : IniEntry). record e { comment = comment }) key s.entries;
        })
        name file.sections;
}

-- The entry of a key in a section.
unfoldable pub entry_in : List ℕ → Option IniSection → Option IniEntry
entry_in key none = none
entry_in key (some s) = find_entry key s.entries

unfoldable pub lookup_entry : List ℕ → List ℕ → IniFile → Option IniEntry
lookup_entry name key file = entry_in key (find_section name file.sections)

unfoldable pub get_comment : List ℕ → List ℕ → IniFile → List ℕ
get_comment name key file = elim (lookup_entry name key file) [ none ↦ [] | some e ↦ e.comment ]

unfoldable pub get_key_count : List ℕ → IniFile → ℕ
get_key_count name file = elim (find_section name file.sections) [
  | none ↦ 0
  | some s ↦ length s.entries
]

unfoldable pub exist_key : List ℕ → List ℕ → IniFile → Bool
exist_key name key file = found (lookup_entry name key file)

unfoldable pub remove_key : List ℕ → List ℕ → IniFile → IniFile
remove_key name key file = record file {
  sections =
      change_section (λ (s : IniSection). record s { entries = remove_entry key s.entries }) name
        file.sections;
}

-- The text of a key, if it is there.
unfoldable pub query : List ℕ → List ℕ → IniFile → Option (List ℕ)
query name key file = value_of (lookup_entry name key file)

-- `getValue` with a text by default.
unfoldable pub get_value : List ℕ → List ℕ → List ℕ → IniFile → List ℕ
get_value name key default file = elim (lookup_entry name key file) [
  | none ↦ default
  | some e ↦ e.value
]

unfoldable pub set_value : List ℕ → List ℕ → List ℕ → IniFile → IniFile
set_value name key value file = record file {
  sections = ensure_section (set_entry key value) name file.sections;
}

unfoldable pub set_file_comment : List ℕ → IniFile → IniFile
set_file_comment comment file = record file { file_comment = comment }

-- `getSection` of an index in range.
unfoldable pub get_section : ℕ → IniFile → IniSection
get_section idx file = get_or file.sections idx (new_section [])
