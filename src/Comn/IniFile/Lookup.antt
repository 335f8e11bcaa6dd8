-- ===== src/Comn/IniFile/Lookup.antt =====
-- What a lookup finds after a change of an entry.
use dgnss_server.Common.{
  ℕ, ◌≡◌, ◌≢◌, refl, sym, ◌∙◌, ap, arith, true, false, Option, none, some, List, [], ◌∷◌, ◌⊎◌, inl,
  inr, Bool-cases,
}
use dgnss_server.Comn.Text.{same_text, same_text_refl, same_text_eq, same_text_no, other_text}
use dgnss_server.Comn.IniFile.{IniEntry, IniSection, IniFile, new_section, new_entry}
use dgnss_server.Comn.IniFile.Calls.{
  find_entry, ensure_entry, set_entry, value_of, find_section, ensure_section, entry_in,
  lookup_entry, query, set_value,
}

same_text_other :
    (text name other : List ℕ)
    → name ≢ other
    → same_text text name ≡ true
    → same_text text other ≡ false
same_text_other text name other ne e =
    other_text text other (λ (f : text ≡ other). ne (sym (same_text_eq text name e) ∙ f))

abbrev section_or_new : List ℕ → Option IniSection → IniSection
section_or_new name none = new_section name
section_or_new name (some s) = s

find_section-ensure_self :
    (change : IniSection → IniSection) (name : List ℕ) (ss : List IniSection)
    → ((s : IniSection) → (change s).name ≡ s.name)
    → find_section name (ensure_section change name ss)
      ≡ some (change (section_or_new name (find_section name ss)))
unfolding find_section ensure_section
find_section-ensure_self change name [] keeps = rw (keeps (new_section name), same_text_refl name)
find_section-ensure_self change name (s ∷ ss) keeps =
    ground (arith, keeps s, find_section-ensure_self change name ss keeps)

find_section-ensure_other :
    (change : IniSection → IniSection) (name other : List ℕ) (ss : List IniSection)
    → ((s : IniSection) → (change s).name ≡ s.name)
    → name ≢ other
    → find_section other (ensure_section change name ss) ≡ find_section other ss
unfolding find_section ensure_section
find_section-ensure_other change name other [] keeps ne =
    rw (keeps (new_section name), other_text name other ne)
find_section-ensure_other change name other (s ∷ ss) keeps ne = ground (
  arith,
  keeps s,
  same_text_other s.name name other ne,
  find_section-ensure_other change name other ss keeps ne,
)

abbrev entry_or_new : List ℕ → Option IniEntry → IniEntry
entry_or_new key none = new_entry key
entry_or_new key (some e) = e

find_entry-ensure_self :
    (change : IniEntry → IniEntry) (key : List ℕ) (es : List IniEntry)
    → ((e : IniEntry) → (change e).key ≡ e.key)
    → find_entry key (ensure_entry change key es)
      ≡ some (change (entry_or_new key (find_entry key es)))
unfolding find_entry ensure_entry
find_entry-ensure_self change key [] keeps = rw (keeps (new_entry key), same_text_refl key)
find_entry-ensure_self change key (e ∷ es) keeps =
    ground (arith, keeps e, find_entry-ensure_self change key es keeps)

find_entry-ensure_other :
    (change : IniEntry → IniEntry) (key other : List ℕ) (es : List IniEntry)
    → ((e : IniEntry) → (change e).key ≡ e.key)
    → key ≢ other
    → find_entry other (ensure_entry change key es) ≡ find_entry other es
unfolding find_entry ensure_entry
find_entry-ensure_other change key other [] keeps ne =
    rw (keeps (new_entry key), other_text key other ne)
find_entry-ensure_other change key other (e ∷ es) keeps ne = ground (
  arith,
  keeps e,
  same_text_other e.key key other ne,
  find_entry-ensure_other change key other es keeps ne,
)

pub query-set_value_self :
    (name key value : List ℕ) (file : IniFile)
    → query name key (set_value name key value file) ≡ some value
unfolding query lookup_entry set_value entry_in set_entry value_of
query-set_value_self name key value file =
    rw (find_section-ensure_self (set_entry key value) name file.sections (λ s. refl)) (
      rw (
        find_entry-ensure_self (λ (e : IniEntry). record e { value = value }) key
          (section_or_new name (find_section name file.sections)).entries (λ e. refl)))

entry_in-or_new :
    (name key : List ℕ) (s : Option IniSection)
    → find_entry key (section_or_new name s).entries ≡ entry_in key s
unfolding entry_in find_entry
entry_in-or_new name key none = refl
entry_in-or_new name key (some s) = refl

-- Another key of the same section.
query-set_value_key :
    (name key value other_key : List ℕ) (file : IniFile)
    → key ≢ other_key
    → query name other_key (set_value name key value file) ≡ query name other_key file
unfolding query lookup_entry set_value
query-set_value_key name key value other_key file ne =
    let old = section_or_new name (find_section name file.sections) in
    let kept : entry_in other_key (some (set_entry key value old))
        ≡ find_entry other_key old.entries =
      unfold entry_in set_entry in
      find_entry-ensure_other (λ (e : IniEntry). record e { value = value }) key other_key
        old.entries (λ e. refl) ne in
    ap (λ (s : Option IniSection). value_of (entry_in other_key s))
      (find_section-ensure_self (set_entry key value) name file.sections
        (λ s. unfold set_entry in refl))
    ∙ ap (λ (e : Option IniEntry). value_of e)
        (kept ∙ entry_in-or_new name other_key (find_section name file.sections))

query-set_value_section :
    (name key value other other_key : List ℕ) (file : IniFile)
    → name ≢ other
    → query other other_key (set_value name key value file) ≡ query other other_key file
unfolding query lookup_entry set_value
query-set_value_section name key value other other_key file ne = rw (
    find_section-ensure_other (set_entry key value) name other file.sections
      (λ s. unfold set_entry in refl) ne)

pub query-set_value_other :
    (name key value other other_key : List ℕ) (file : IniFile)
    → (name ≢ other) ⊎ (key ≢ other_key)
    → query other other_key (set_value name key value file) ≡ query other other_key file
query-set_value_other name key value other other_key file (inl ne) =
    query-set_value_section name key value other other_key file ne
query-set_value_other name key value other other_key file (inr ne) =
    elim (Bool-cases (same_text name other)) [
      | inl same ↦
          let e = same_text_eq name other same in
          rw (← e) (query-set_value_key name key value other_key file ne)
      | inr differ ↦
          query-set_value_section name key value other other_key file
            (same_text_no name other differ)
    ]
