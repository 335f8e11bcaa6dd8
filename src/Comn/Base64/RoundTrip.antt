-- ===== src/Comn/Base64/RoundTrip.antt =====
-- `decode` gives back what `encode` was given.
use dgnss_server.Common.{
  ℕ, zero, suc, ◌+◌, ◌*◌, ◌/◌, ◌%◌, ◌≤◌, ◌<◌, ◌≡◌, refl, sym, ◌∙◌, ap, ap₂, arith, false, some,
  List, [], ◌∷◌, ◌++◌, length, All, ltb, leb, ◌==◌, Bool-cases, inl, inr, length-append,
}
use dgnss_server.Comn.Memory.{append_nothing}
use dgnss_server.Comn.Base64.{equals_sign, decode_loop, decode, encode_loop, pad, encode}
use dgnss_server.Comn.Base64.Steps.{
  sextet, bits_after, rest_text, Follows, v_after, silent, writing, encode_0, encode_2, encode_4,
  encode_6, step_0, step_2, step_4, step_6, written_2, written_4, written_6, last_byte,
}

-- The characters `pd` that end a text.
module _ (pd : List ℕ) (ends : (i v room : ℕ) → decode_loop pd i v room ≡ some []) where
  abbrev Decodes : List ℕ → ℕ → ℕ → ℕ → List ℕ → Type 0
  Decodes cs i v room out = decode_loop (cs ++ pd) i v room ≡ some out

  abbrev DecodesRest : ℕ → ℕ → List ℕ → ℕ → ℕ → ℕ → Type 0
  DecodesRest shift bits xs i v room =
      Follows shift bits i v → Decodes (rest_text shift bits xs) i v (suc room) (bits % 256 ∷ xs)

  put_together :
      (cs : List ℕ) (i v room m n : ℕ) (ms ns : List ℕ)
      → decode_loop cs i v room ≡ some (m ∷ ms)
      → m ≡ n
      → ms ≡ ns
      → decode_loop cs i v room ≡ some (n ∷ ns)
  put_together cs i v room m n ms ns h e f = h ∙ ap₂ (λ (a : ℕ) (t : List ℕ). some (a ∷ t)) e f

  rest_lem :
      (xs : List ℕ) (bits i v room : ℕ)
      → All (λ (x : ℕ). x < 256) xs
      → length xs ≤ room
      → DecodesRest 2 bits xs i v room
        × DecodesRest 4 bits xs i v room
        × DecodesRest 6 bits xs i v room
  rest_lem [] bits i v room bytes fits = (
    (λ f.
        put_together _ i v (suc room) _ _ _ _
          (writing (sextet bits 2) (omega arith) pd [] i v room 0 (f.phase) (ends _ _ room))
          (omega (arith, f)) refl),
    (λ f.
        put_together _ i v (suc room) _ _ _ _
          (writing (sextet bits 4) (omega arith) pd [] i v room 1 (f.phase) (ends _ _ room))
          (omega (arith, f)) refl),
    (λ f.
        put_together _ i v (suc room) _ _ _ _
          (writing (sextet bits 6) (omega arith) pd [] i v room 2 (f.phase) (ends _ _ room))
          (omega (arith, f)) refl),
  )
  rest_lem (x ∷ xs) bits i v zero bytes fits = absurd (omega arith)
  rest_lem (x ∷ xs) bits i v (suc room) bytes fits =
      let c = bits_after bits x in
      let last = ap (λ (t : ℕ). t ∷ xs) (last_byte x bytes.0 bits i v) in
      let ih = λ (j w : ℕ). rest_lem xs c j w room bytes.1 (omega arith) in
      let v2 = v_after v (sextet c 10) in
      let v4 = v_after v (sextet c 12) in
      let v6 = v_after v (sextet c 14) in
      let w6 = v_after v6 (sextet c 8) in
      (
        (λ f. rw (encode_2 x xs bits) (
            put_together _ i v (suc (suc room)) _ _ _ _
              (writing (sextet c 10) (omega arith) _ _ i v (suc room) 0 f.phase
                ((ih (i + 1) v2).1 (step_2 x bytes.0 bits i v f)))
              (written_2 x bytes.0 bits i v f) last)),
        (λ f. rw (encode_4 x xs bits) (
            put_together _ i v (suc (suc room)) _ _ _ _
              (writing (sextet c 12) (omega arith) _ _ i v (suc room) 1 f.phase
                ((ih (i + 1) v4).2 (step_4 x bytes.0 bits i v f)))
              (written_4 x bytes.0 bits i v f) last)),
        (λ f. rw (encode_6 x xs bits) (
            put_together _ i v (suc (suc room)) _ _ _ _
              (writing (sextet c 14) (omega arith) _ _ i v (suc room) 2 f.phase (
                silent (sextet c 8) (omega arith) _ _ (i + 1) v6 (suc room) (omega (arith, f))
                  ((ih (i + 1 + 1) w6).0 (step_6 x bytes.0 bits i v f))))
              (written_6 x bytes.0 bits i v f) last)),
      )

  whole_lem :
      (xs : List ℕ) (room : ℕ)
      → All (λ (x : ℕ). x < 256) xs
      → length xs ≤ room
      → Decodes (encode_loop xs 0 0) 0 0 room xs
  whole_lem [] room bytes fits = unfold encode_loop in ends 0 0 room
  whole_lem (x ∷ xs) zero bytes fits = absurd (omega arith)
  whole_lem (x ∷ xs) (suc room) bytes fits =
      let c = bits_after 0 x in
      let v0 = v_after 0 (sextet c 8) in
      let zero_add : 0 + 1 ≡ 1 = omega arith in
      rw (encode_0 x xs 0) (
        silent (sextet c 8) (omega arith) _ _ 0 0 (suc room) refl
          ((rest_lem xs c (0 + 1) v0 room bytes.1 (omega arith)).0 (step_0 x bytes.0 0 0 0 refl))
        ∙ ap (λ (t : ℕ). some (t ∷ xs)) (last_byte x bytes.0 0 0 0))

-- The characters that fill up a text.
abbrev Padded : ℕ → List ℕ → Type 0
Padded rounds out =
    (pd : List ℕ) × (pad rounds out ≡ out ++ pd)
    × ((i v room : ℕ) → decode_loop pd i v room ≡ some [])

append_assoc : (xs ys zs : List ℕ) → xs ++ ys ++ zs ≡ xs ++ (ys ++ zs)
append_assoc [] ys zs = refl
append_assoc (x ∷ xs) ys zs = ap (λ (t : List ℕ). x ∷ t) (append_assoc xs ys zs)

pad_lem : (rounds : ℕ) (out : List ℕ) → Padded rounds out
unfolding pad decode_loop
pad_lem zero out = ([], sym (append_nothing out), λ i v room. refl)
pad_lem (suc rounds) out = elim (Bool-cases (length out % 4 == 0)) [
  | inl e ↦ rw e ([], sym (append_nothing out), λ i v room. refl)
  | inr e ↦
      let (pd, same, ends) = pad_lem rounds (out ++ (equals_sign ∷ [])) in
      rw e (equals_sign ∷ pd, same ∙ append_assoc out (equals_sign ∷ []) pd, λ i v room. refl)
]

length-pad : (out : List ℕ) → length (pad 3 out) ≡ (length out + 3) / 4 * 4
unfolding pad
length-pad out =
    let one = equals_sign ∷ [] in
    ground (
      arith,
      length-append out one,
      length-append (out ++ one) one,
      length-append (out ++ one ++ one) one,
    )

length-rest :
    (xs : List ℕ) (bits : ℕ)
    → (length (rest_text 2 bits xs) ≡ (8 * length xs + 7) / 6)
      × (length (rest_text 4 bits xs) ≡ (8 * length xs + 9) / 6)
      × (length (rest_text 6 bits xs) ≡ (8 * length xs + 11) / 6)
length-rest [] bits = (refl, refl, refl)
length-rest (x ∷ xs) bits =
    let ih = length-rest xs (bits_after bits x) in
    (
      omega (arith, ih, ap length (encode_2 x xs bits)),
      omega (arith, ih, ap length (encode_4 x xs bits)),
      omega (arith, ih, ap length (encode_6 x xs bits)),
    )

length-encode_loop : (xs : List ℕ) → length (encode_loop xs 0 0) ≡ (8 * length xs + 5) / 6
length-encode_loop [] = unfold encode_loop in refl
length-encode_loop (x ∷ xs) =
    omega (arith, length-rest xs (bits_after 0 x), ap length (encode_0 x xs 0))

-- For a list of fewer than 0x3FFFFFFF bytes and an output with room for four characters for each
-- three bytes, rounded up, and the end mark, `encode` returns a text of exactly these characters,
-- from which `decode` gives back the bytes if its output has room for them.
pub decode-encode :
    (xs : List ℕ) (out_size room : ℕ)
    → All (λ (x : ℕ). x < 256) xs
    → length xs < 0x3FFFFFFF
    → (length xs + 2) / 3 * 4 + 1 ≤ out_size
    → length xs ≤ room
    → (text : List ℕ) × (encode out_size xs ≡ some text)
      × (length text ≡ (length xs + 2) / 3 * 4)
      × (decode room text ≡ some xs)
unfolding encode decode
decode-encode xs out_size room bytes few enough fits =
    let text = encode_loop xs 0 0 in
    let (pd, same, ends) = pad_lem 3 text in
    let count : leb (0xffffffff / 4) (length xs) ≡ false = ground arith in
    let space : ltb out_size ((length xs + 2) / 3 * 4 + 1) ≡ false = ground arith in
    (
      pad 3 text,
      rw (count, space) refl,
      omega (arith, length-pad text, length-encode_loop xs),
      rw same (whole_lem pd ends xs room bytes fits),
    )
