-- ===== src/Config/Stored.antt =====
-- A configuration that is changed, saved and loaded again.
use dgnss_server.Common.{
  ℕ, ◌≡◌, refl, ◌∙◌, false, some, List, [], ◌∷◌, All, inl, inr, if◌then◌else◌, Bool-cases,
}
use dgnss_server.Comn.Text.{same_text}
use dgnss_server.Comn.IniFile.{IniEntry, IniSection, new_section, is_nil, is_empty_section, load}
use dgnss_server.Comn.IniFile.Calls.{ensure_entry, set_entry, ensure_section, set_value}
use dgnss_server.Comn.IniFile.Lines.{NoEnd, IsKey}
use dgnss_server.Comn.IniFile.Loaded.{unlines, IsEntry, IsSection, IsStorable}
use dgnss_server.Comn.IniFile.RoundTrip.{load_text-save}
use dgnss_server.Config.{
  AppConfig, split_path, read_word, get, get_string, set_string, reload, save_config,
}
use dgnss_server.Config.Words.{same_path, get_string-set_string}

module _ (key value : List ℕ) (k : IsKey key) (v : NoEnd value) where
  IsEntry-ensure :
      (es : List IniEntry)
      → All IsEntry es
      → All IsEntry (ensure_entry (λ (e : IniEntry). record e { value = value }) key es)
  unfolding ensure_entry
  IsEntry-ensure [] h =
      (record { key = k; value = v; comment = ([], unfold unlines in refl, tt) }, tt)
  IsEntry-ensure (e ∷ es) h = elim (Bool-cases (same_text e.key key)) [
    | inl same ↦ rw same (record { key = h.0.key; value = v; comment = h.0.comment }, h.1)
    | inr other ↦ rw other (h.0, IsEntry-ensure es h.1)
  ]

  ensure_entry_in_use :
      (es : List IniEntry)
      → is_nil (ensure_entry (λ (e : IniEntry). record e { value = value }) key es) ≡ false
  unfolding ensure_entry
  ensure_entry_in_use [] = refl
  ensure_entry_in_use (e ∷ es) = elim (Bool-cases (same_text e.key key)) [
    | inl same ↦ rw same
    | inr other ↦ rw other
  ]

  set_entry_in_use : (s : IniSection) → is_empty_section (set_entry key value s) ≡ false
  unfolding is_empty_section set_entry
  set_entry_in_use s =
      rw (ensure_entry_in_use s.entries)
        (elim (Bool-cases (is_nil s.name)) [ inl e ↦ rw e | inr e ↦ rw e ])

  IsSection-set :
      (s : IniSection) → NoEnd s.name → All IsEntry s.entries → IsSection (set_entry key value s)
  IsSection-set s n h = record {
    name = unfold set_entry in n;
    entries = unfold set_entry in IsEntry-ensure s.entries h;
    in_use = set_entry_in_use s;
  }

  IsSection-ensure :
      (name : List ℕ) (ss : List IniSection)
      → NoEnd name
      → All IsSection ss
      → All IsSection (ensure_section (set_entry key value) name ss)
  unfolding ensure_section
  IsSection-ensure name [] n h = (IsSection-set (new_section name) n tt, tt)
  IsSection-ensure name (s ∷ ss) n h = elim (Bool-cases (same_text s.name name)) [
    | inl same ↦ rw same (IsSection-set s h.0.name h.0.entries, h.1)
    | inr other ↦ rw other (h.0, IsSection-ensure name ss n h.1)
  ]

-- A path whose parts fit on lines of their own.
abbrev pub IsPath : List ℕ → Type 0
IsPath path = NoEnd (split_path path).0 × IsKey (split_path path).1

pub set_string-IsStorable :
    (path value : List ℕ) (c : AppConfig)
    → IsPath path
    → NoEnd value
    → IsStorable c.ini_file
    → IsStorable (set_string path value c).ini_file
unfolding set_string set_value
set_string-IsStorable path value c p v h = record {
  header = h.header;
  sections =
      IsSection-ensure (split_path path).1 value p.1 v (split_path path).0 c.ini_file.sections p.0
        h.sections;
}

reload-save_config :
    (c other : AppConfig)
    → IsStorable c.ini_file
    → (reload (some (save_config c)) other).0.ini_file ≡ c.ini_file
unfolding reload save_config load
reload-save_config c other h = load_text-save c.ini_file h

get_string_ini :
    (path default : List ℕ) (c d : AppConfig)
    → c.ini_file ≡ d.ini_file
    → get_string path default c ≡ get_string path default d
unfolding get_string get
get_string_ini path default c d e = rw e

-- A value that is set in a configuration which can be stored, and whose path and text hold no end of
-- line, is there when what `save` writes is loaded again, and all other paths read as before.
pub get_string-reload :
    (path value other default : List ℕ) (c d : AppConfig)
    → IsStorable c.ini_file
    → IsPath path
    → NoEnd value
    → get_string other default (reload (some (save_config (set_string path value c))) d).0
      ≡ (if same_path path other then read_word value default else get_string other default c)
get_string-reload path value other default c d h p v =
    let new = set_string path value c in
    get_string_ini other default (reload (some (save_config new)) d).0 new
      (reload-save_config new d (set_string-IsStorable path value c p v h))
    ∙ get_string-set_string path value other default c
