-- ===== src/Comn/Text.antt =====
-- Texts, as lists of characters, and their comparison.
use dgnss_server.Common.{
  ℕ, ◌≡◌, ◌≢◌, refl, ap₂, Bool, true, false, ◌&&◌, List, [], ◌∷◌, ◌==◌, arith, Bool-cases, inl, inr,
}

unfoldable pub same_text : List ℕ → List ℕ → Bool
same_text [] [] = true
same_text [] (y ∷ ys) = false
same_text (x ∷ xs) [] = false
same_text (x ∷ xs) (y ∷ ys) = x == y && same_text xs ys

pub same_text_refl : (xs : List ℕ) → same_text xs xs ≡ true
unfolding same_text
same_text_refl [] = refl
same_text_refl (x ∷ xs) = ground (arith, same_text_refl xs)

pub same_text_eq : (xs ys : List ℕ) → same_text xs ys ≡ true → xs ≡ ys
unfolding same_text
same_text_eq [] [] h = refl
same_text_eq [] (y ∷ ys) h = cc
same_text_eq (x ∷ xs) [] h = cc
same_text_eq (x ∷ xs) (y ∷ ys) h =
    let first : x ≡ y = ground (arith, h) in
    let rest : same_text xs ys ≡ true = ground (arith, h) in
    ap₂ (λ (a : ℕ) (t : List ℕ). a ∷ t) first (same_text_eq xs ys rest)

pub same_text_no : (xs ys : List ℕ) → same_text xs ys ≡ false → xs ≢ ys
same_text_no xs ys h e =
    let self = same_text_refl ys in let both : same_text ys ys ≡ false = rw e at h in cc

pub other_text : (xs ys : List ℕ) → xs ≢ ys → same_text xs ys ≡ false
other_text xs ys h = elim (Bool-cases (same_text xs ys)) [
  | inl e ↦ absurd (h (same_text_eq xs ys e))
  | inr e ↦ e
]
