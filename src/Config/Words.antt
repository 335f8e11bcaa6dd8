-- ===== src/Config/Words.antt =====
-- What `get` finds after `set`, and the word that it reads.
use dgnss_server.Common.{
  ℕ, ◌≡◌, refl, ◌∙◌, ap, Bool, true, false, ◌&&◌, Option, some, List, [], ◌∷◌, ◌++◌, All, inl, inr,
  if◌then◌else◌, Bool-cases,
}
use dgnss_server.Comn.Text.{same_text, same_text_eq, same_text_no}
use dgnss_server.Comn.IniFile.Calls.{query, set_value}
use dgnss_server.Comn.IniFile.Lookup.{query-set_value_self, query-set_value_other}
use dgnss_server.Config.{
  AppConfig, split_path, is_space, word, skip_space, word_or, read_word, found_word, get,
  get_string, set_string,
}

-- A word, and what ends one.
abbrev pub IsWord : List ℕ → Type 0
IsWord [] = ⊥
IsWord (c ∷ cs) = All (λ x. is_space x ≡ false) (c ∷ cs)

abbrev pub IsWordEnd : List ℕ → Type 0
IsWordEnd [] = Unit
IsWordEnd (c ∷ cs) = is_space c ≡ true

word-append :
    (w rest : List ℕ) → All (λ x. is_space x ≡ false) w → IsWordEnd rest → word (w ++ rest) ≡ w
unfolding word
word-append [] [] h k = refl
word-append [] (c ∷ cs) h k = rw k
word-append (x ∷ w) rest h k = rw h.0 (ap (◌∷◌ x) (word-append w rest h.1 k))

pub read_word_lem :
    (spaces w rest value : List ℕ)
    → All (λ x. is_space x ≡ true) spaces
    → IsWord w
    → IsWordEnd rest
    → read_word (spaces ++ (w ++ rest)) value ≡ w
unfolding read_word skip_space
read_word_lem [] [] rest value s h k = absurd h
read_word_lem [] (c ∷ w) rest value s h k = rw h.0 (unfold word_or in word-append (c ∷ w) rest h k)
read_word_lem (x ∷ spaces) w rest value s h k = rw s.0 (read_word_lem spaces w rest value s.1 h k)

-- Whether two paths name the same key of the same section.
unfoldable pub same_path : List ℕ → List ℕ → Bool
same_path path other =
    let (sec, key) = split_path path in
    let (sec', key') = split_path other in same_text sec sec' && same_text key key'

query-set_path :
    (sec key value sec' key' : List ℕ) (c : AppConfig)
    → query sec' key' (set_value sec key value c.ini_file) ≡ (
        if same_text sec sec' && same_text key key' then some value else query sec' key' c.ini_file)
query-set_path sec key value sec' key' c = elim (Bool-cases (same_text sec sec')) [
  | inl same_sec ↦ elim (Bool-cases (same_text key key')) [
    | inl same_key ↦
        let s = same_text_eq sec sec' same_sec in
        let k = same_text_eq key key' same_key in
        rw (same_sec, same_key) (rw (← s, ← k) (query-set_value_self sec key value c.ini_file))
    | inr differ ↦
        rw (same_sec, differ)
          (query-set_value_other sec key value sec' key' c.ini_file
            (inr (same_text_no key key' differ)))
  ]
  | inr differ ↦ rw differ (
      query-set_value_other sec key value sec' key' c.ini_file (inl (same_text_no sec sec' differ)))
]

found_word-if :
    (b : Bool) (value default : List ℕ) (o : Option (List ℕ))
    → (found_word (if b then some value else o) default).0
      ≡ (if b then read_word value default else (found_word o default).0)
unfolding found_word
found_word-if true value default o = refl
found_word-if false value default o = refl

pub get_string-set_string :
    (path value other default : List ℕ) (c : AppConfig)
    → get_string other default (set_string path value c)
      ≡ (if same_path path other then read_word value default else get_string other default c)
unfolding get_string get set_string same_path
get_string-set_string path value other default c =
    let sec = (split_path path).0 in
    let key = (split_path path).1 in
    let sec' = (split_path other).0 in
    let key' = (split_path other).1 in
    ap (λ (o : Option (List ℕ)). (found_word o default).0)
      (query-set_path sec key value sec' key' c)
    ∙ found_word-if (same_text sec sec' && same_text key key') value default
        (query sec' key' c.ini_file)
