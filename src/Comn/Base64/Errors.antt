-- ===== src/Comn/Base64/Errors.antt =====
-- When `decode` returns -1.
use mathlib.Core.Option
use dgnss_server.Common.{
  ℕ, ◌+◌, ◌-◌, ◌%◌, ◌≤◌, ◌<◌, ◌≡◌, ◌⊎◌, inl, inr, refl, ap, arith, Bool, true, false, not, ◌&&◌,
  ◌||◌, none, some, List, [], ◌∷◌, length, All, ltb, leb, ◌==◌, if◌then◌else◌, holds_below,
  holds_below_lt, Bool-cases,
}
use dgnss_server.Comn.Base64.{equals_sign, refused, next_v, decode_loop, decode}

-- A letter, a digit, "+" or "/".
unfoldable pub is_base64 : ℕ → Bool
is_base64 c =
    (leb 65 c && leb c 90)
    || (leb 97 c && leb c 122)
    || (leb 48 c && leb c 57)
    || c == 43
    || c == 47

-- Only such characters stand before the end or the first "=".
unfoldable pub is_text : List ℕ → Bool
is_text [] = true
is_text (c ∷ cs) = if c == equals_sign then true else is_base64 c && is_text cs

abbrev same_bool : Bool → Bool → Bool
same_bool true b = b
same_bool false b = not b

same_bool_eq : (a b : Bool) → same_bool a b ≡ true → a ≡ b
same_bool_eq true true h = refl
same_bool_eq true false h = cc
same_bool_eq false false h = refl
same_bool_eq false true h = cc

all_chars : holds_below 256 (λ (c : ℕ). same_bool (is_base64 c) (not (refused c))) ≡ true
all_chars = unfold holds_below is_base64 refused in refl

refused_lem : (c : ℕ) → c < 256 → is_base64 c ≡ not (refused c)
refused_lem c h =
    same_bool_eq _ _
      (holds_below_lt 256 (λ (d : ℕ). same_bool (is_base64 d) (not (refused d))) c all_chars h)

abbrev Outcome : Bool → ℕ → Option.Option (List ℕ) → Type 0
Outcome text room result =
    ((text ≡ false) × (result ≡ none))
    ⊎ ((text ≡ true) × (out : List ℕ) × (result ≡ some out) × (length out ≤ room))

Outcome-byte :
    (text : Bool) (room byte : ℕ) (writes : Bool) (rest : Option.Option (List ℕ))
    → (writes ≡ true → 0 < room)
    → Outcome text (if writes then room - 1 else room) rest
    → Outcome text room (if writes then Option.map (λ (out : List ℕ). byte ∷ out) rest else rest)
Outcome-byte text room byte true rest h (inl (e, r)) =
    inl (e, ap (Option.map (λ (out : List ℕ). byte ∷ out)) r)
Outcome-byte text room byte true rest h (inr (e, out, r, fits)) =
    let some_room = h refl in
    inr (e, byte ∷ out, ap (Option.map (λ (out : List ℕ). byte ∷ out)) r, omega arith)
Outcome-byte text room byte false rest h o = o

decode_loop_lem :
    (cs : List ℕ) (i v room : ℕ)
    → All (λ (c : ℕ). c < 256) cs
    → Outcome (is_text cs) room (decode_loop cs i v room)
unfolding decode_loop is_text
decode_loop_lem [] i v room bytes = inr (refl, [], refl, omega arith)
decode_loop_lem (c ∷ cs) i v room bytes =
    let char = refused_lem c bytes.0 in
    let writes = not (i % 4 == 0) && ltb 0 room in
    let ih = decode_loop_lem cs (i + 1) (next_v v c) (if writes then room - 1 else room) bytes.1 in
    elim (Bool-cases (c == equals_sign)) [
      | inl e ↦ rw e (inr (refl, [], refl, omega arith))
      | inr e ↦ elim (Bool-cases (refused c)) [
        | inl r ↦ let bad : is_base64 c ≡ false = rw r at char in rw (e, r, bad) (inl (refl, refl))
        | inr r ↦
            let good : is_base64 c ≡ true = rw r at char in
            rw (e, r, good) (Outcome-byte (is_text cs) room _ writes _ (λ w. ground (arith, w)) ih)
      ]
    ]

-- For a text of characters below 256, `decode` returns -1 exactly when a character other than a
-- letter, a digit, "+" or "/" stands before the end and before the first "="; else it returns a
-- number of bytes, and writes as many, that its output has room for.
pub decode-Outcome :
    (text : List ℕ) (room : ℕ)
    → All (λ (c : ℕ). c < 256) text
    → ((is_text text ≡ false) × (decode room text ≡ none))
      ⊎ ((is_text text ≡ true)
          × (out : List ℕ) × (decode room text ≡ some out)
          × (length out ≤ room))
unfolding decode
decode-Outcome text room bytes = decode_loop_lem text 0 0 room bytes
