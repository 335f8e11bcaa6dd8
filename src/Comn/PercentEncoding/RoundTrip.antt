-- ===== src/Comn/PercentEncoding/RoundTrip.antt =====
-- `decode` gives back the characters that `encode` was given, but for the white space.
use dgnss_server.Common.{
  ℕ, ◌<◌, ◌≡◌, refl, ap, ◌∙◌, arith, Bool, true, false, List, [], ◌∷◌, ◌++◌, All, ◌==◌, ==_iff,
  if◌then◌else◌, Bool-cases, inl, inr, holds_below, holds_below_lt, map,
}
use dgnss_server.Comn.PercentEncoding.{
  hex_to_ascii, ascii_to_hex, char_to_hex, hex_to_char, percent, plus, blank, is_mark, encode_char,
  encode_percent, decode_percent,
}

decode_plain :
    (a : ℕ) (xs : List ℕ)
    → (a == percent) ≡ false
    → (a == plus) ≡ false
    → decode_percent (a ∷ xs) ≡ a ∷ decode_percent xs
unfolding decode_percent
decode_plain a [] h k = rw (h, k) refl
decode_plain a (b ∷ []) h k = rw (h, k) refl
decode_plain a (b ∷ c ∷ xs) h k = rw (h, k) refl

hex_back : (ch : ℕ) → ch < 256 → hex_to_char (char_to_hex ch).0 (char_to_hex ch).1 ≡ ch
hex_back ch h = (==_iff (hex_to_char (char_to_hex ch).0 (char_to_hex ch).1) ch).0 (
    holds_below_lt 256 (λ (c : ℕ). hex_to_char (char_to_hex c).0 (char_to_hex c).1 == c) ch tested
      h)
  where
    tested :
        holds_below 256 (λ (c : ℕ). hex_to_char (char_to_hex c).0 (char_to_hex c).1 == c) ≡ true
    tested = unfold holds_below hex_to_char char_to_hex hex_to_ascii ascii_to_hex in refl

mark_plain : (ch : ℕ) → is_mark ch ≡ true → ((ch == percent) ≡ false) × ((ch == plus) ≡ false)
unfolding is_mark
mark_plain ch h = ground (arith, h)

module _ (is_alnum is_space : ℕ → Bool) where
  -- What is left of a character: white space becomes a blank.
  abbrev pub kept : ℕ → ℕ
  kept ch = if is_mark ch then ch else if is_alnum ch then ch else if is_space ch then blank else ch

  decode-encode_char :
      (ch : ℕ) (xs : List ℕ)
      → ch < 256
      → is_alnum percent ≡ false
      → is_alnum plus ≡ false
      → decode_percent (encode_char is_alnum is_space ch ++ xs) ≡ kept ch ∷ decode_percent xs
  unfolding encode_char
  decode-encode_char ch xs byte no_percent no_plus = elim (Bool-cases (is_mark ch)) [
    | inl e ↦ let (p, q) = mark_plain ch e in rw e (decode_plain ch xs p q)
    | inr e ↦ elim (Bool-cases (is_alnum ch)) [
      | inl f ↦ rw (e, f) (decode_plain ch xs (not_percent f) (not_plus f))
      | inr f ↦ elim (Bool-cases (is_space ch)) [
        | inl g ↦ rw (e, f, g) (unfold decode_percent hex_to_char hex_to_ascii in refl)
        | inr g ↦
            rw (e, f, g)
              (unfold decode_percent in ap (λ (a : ℕ). a ∷ decode_percent xs) (hex_back ch byte))
      ]
    ]
  ]
    where
      not_percent : is_alnum ch ≡ true → (ch == percent) ≡ false
      not_percent f = elim (Bool-cases (ch == percent)) [
        | inl e ↦
            let same = (==_iff ch percent).0 e in
            let both : is_alnum percent ≡ true = rw same at f in cc
        | inr e ↦ e
      ]

      not_plus : is_alnum ch ≡ true → (ch == plus) ≡ false
      not_plus f = elim (Bool-cases (ch == plus)) [
        | inl e ↦
            let same = (==_iff ch plus).0 e in let both : is_alnum plus ≡ true = rw same at f in cc
        | inr e ↦ e
      ]

  -- Where `isalnum` is false of "%" and "+", `decode` of what `encode` makes of a text gives back the
  -- text, with a blank for each white space character.
  pub decode_percent-encode_percent :
      (xs : List ℕ)
      → All (λ (x : ℕ). x < 256) xs
      → is_alnum percent ≡ false
      → is_alnum plus ≡ false
      → decode_percent (encode_percent is_alnum is_space xs)
        ≡ map
            (λ (ch : ℕ).
              if is_mark ch
              then ch
              else if is_alnum ch
              then ch
              else if is_space ch
              then blank
              else ch)
            xs
  unfolding encode_percent
  decode_percent-encode_percent [] bytes no_percent no_plus = unfold decode_percent in refl
  decode_percent-encode_percent (x ∷ xs) bytes no_percent no_plus =
      decode-encode_char x (encode_percent is_alnum is_space xs) bytes.0 no_percent no_plus
      ∙ ap (λ (t : List ℕ). kept x ∷ t)
          (decode_percent-encode_percent xs bytes.1 no_percent no_plus)
