-- ===== src/Comn/Memory.antt =====
-- Arrays of bytes, what `memcpy` reads and writes, and sizes of type size_t.
use dgnss_server.Common.{
  ℕ, zero, suc, ◌+◌, ◌-◌, ◌%◌, ◌^◌, ◌≤◌, ◌<◌, ◌≡◌, refl, sym, ◌∙◌, ap, ap₂, arith, List, [], ◌∷◌,
  ◌++◌, length, get_or, take, drop, min, length-take,
}

-- A sum of type size_t.
infixl 65 ◌+size◌
abbrev pub ◌+size◌ : ℕ → ℕ → ℕ
a +size b = (a + b) % 2 ^ 64

-- A difference of type size_t.
infixl 65 ◌-size◌
abbrev pub ◌-size◌ : ℕ → ℕ → ℕ
a -size b = (a + 2 ^ 64 - b) % 2 ^ 64

-- The `n` bytes from `at` on.
abbrev pub slice : List ℕ → ℕ → ℕ → List ℕ
slice xs at n = take n (drop at xs)

-- `memcpy(xs + at, ys, length(ys))`; what would lie past the end of `xs` is dropped.
unfoldable pub blit : List ℕ → ℕ → List ℕ → List ℕ
blit [] at ys = []
blit (x ∷ xs) zero [] = x ∷ xs
blit (x ∷ xs) zero (y ∷ ys) = y ∷ blit xs zero ys
blit (x ∷ xs) (suc at) ys = x ∷ blit xs at ys

pub length-blit : (xs : List ℕ) (at : ℕ) (ys : List ℕ) → length (blit xs at ys) ≡ length xs
unfolding blit
length-blit [] at ys = refl
length-blit (x ∷ xs) zero [] = refl
length-blit (x ∷ xs) zero (y ∷ ys) = ap suc (length-blit xs zero ys)
length-blit (x ∷ xs) (suc at) ys = ap suc (length-blit xs at ys)

pub get_or-blit_inside :
    (xs : List ℕ) (at : ℕ) (ys : List ℕ) (i : ℕ)
    → i < length ys
    → at + i < length xs
    → get_or (blit xs at ys) (at + i) 0 ≡ get_or ys i 0
unfolding blit
get_or-blit_inside [] at ys i h k = absurd (omega arith)
get_or-blit_inside (x ∷ xs) zero [] i h k = absurd (omega arith)
get_or-blit_inside (x ∷ xs) zero (y ∷ ys) zero h k = refl
get_or-blit_inside (x ∷ xs) zero (y ∷ ys) (suc i) h k =
    let e : zero + suc i ≡ suc (zero + i) = omega arith in
    rw e (get_or-blit_inside xs zero ys i (omega arith) (omega arith))
get_or-blit_inside (x ∷ xs) (suc at) ys i h k =
    let e : suc at + i ≡ suc (at + i) = omega arith in
    rw e (get_or-blit_inside xs at ys i h (omega arith))

pub get_or-blit_before :
    (xs : List ℕ) (at : ℕ) (ys : List ℕ) (i : ℕ)
    → i < at
    → get_or (blit xs at ys) i 0 ≡ get_or xs i 0
unfolding blit
get_or-blit_before [] at ys i h = refl
get_or-blit_before (x ∷ xs) zero ys i h = absurd (omega arith)
get_or-blit_before (x ∷ xs) (suc at) ys zero h = refl
get_or-blit_before (x ∷ xs) (suc at) ys (suc i) h = get_or-blit_before xs at ys i (omega arith)

pub get_or-blit_after :
    (xs : List ℕ) (at : ℕ) (ys : List ℕ) (i : ℕ)
    → at + length ys ≤ i
    → get_or (blit xs at ys) i 0 ≡ get_or xs i 0
unfolding blit
get_or-blit_after [] at ys i h = refl
get_or-blit_after (x ∷ xs) zero [] i h = refl
get_or-blit_after (x ∷ xs) zero (y ∷ ys) zero h = absurd (omega arith)
get_or-blit_after (x ∷ xs) zero (y ∷ ys) (suc i) h = get_or-blit_after xs zero ys i (omega arith)
get_or-blit_after (x ∷ xs) (suc at) ys zero h = absurd (omega arith)
get_or-blit_after (x ∷ xs) (suc at) ys (suc i) h = get_or-blit_after xs at ys i (omega arith)

pub length-drop : (n : ℕ) (xs : List ℕ) → length (drop n xs) ≡ length xs - n
length-drop zero xs = omega arith
length-drop (suc n) [] = omega arith
length-drop (suc n) (x ∷ xs) = omega (arith, length-drop n xs)

pub get_or-drop : (n : ℕ) (xs : List ℕ) (i : ℕ) → get_or (drop n xs) i 0 ≡ get_or xs (n + i) 0
get_or-drop zero xs i = let e : zero + i ≡ i = omega arith in rw e
get_or-drop (suc n) [] i = refl
get_or-drop (suc n) (x ∷ xs) i =
    let e : suc n + i ≡ suc (n + i) = omega arith in rw e (get_or-drop n xs i)

pub get_or-take : (n : ℕ) (xs : List ℕ) (i : ℕ) → i < n → get_or (take n xs) i 0 ≡ get_or xs i 0
get_or-take zero xs i h = absurd (omega arith)
get_or-take (suc n) [] i h = refl
get_or-take (suc n) (x ∷ xs) zero h = refl
get_or-take (suc n) (x ∷ xs) (suc i) h = get_or-take n xs i (omega arith)

module _ (xs : List ℕ) (at n : ℕ) where
  pub length-slice : at + n ≤ length xs → length (slice xs at n) ≡ n
  length-slice h = omega (arith, length-take n (drop at xs), length-drop at xs)

  pub get_or-slice : (i : ℕ) → i < n → get_or (slice xs at n) i 0 ≡ get_or xs (at + i) 0
  get_or-slice i h = get_or-take n (drop at xs) i h ∙ get_or-drop at xs i

pub get_or-append_before :
    (xs ys : List ℕ) (i : ℕ) → i < length xs → get_or (xs ++ ys) i 0 ≡ get_or xs i 0
get_or-append_before [] ys i h = absurd (omega arith)
get_or-append_before (x ∷ xs) ys zero h = refl
get_or-append_before (x ∷ xs) ys (suc i) h = get_or-append_before xs ys i (omega arith)

pub get_or-append_after :
    (xs ys : List ℕ) (i : ℕ) → get_or (xs ++ ys) (length xs + i) 0 ≡ get_or ys i 0
get_or-append_after [] ys i = let e : zero + i ≡ i = omega arith in rw e
get_or-append_after (x ∷ xs) ys i =
    let e : suc (length xs) + i ≡ suc (length xs + i) = omega arith in
    rw e (get_or-append_after xs ys i)

-- Lists of the same length with the same elements are equal.
pub list_ext :
    (xs ys : List ℕ)
    → length xs ≡ length ys
    → ((i : ℕ) → i < length xs → get_or xs i 0 ≡ get_or ys i 0)
    → xs ≡ ys
list_ext [] [] h same = refl
list_ext [] (y ∷ ys) h same = absurd (omega arith)
list_ext (x ∷ xs) [] h same = absurd (omega arith)
list_ext (x ∷ xs) (y ∷ ys) h same =
    ap₂ (λ (a : ℕ) (t : List ℕ). a ∷ t) (same 0 (omega arith))
      (list_ext xs ys (omega arith) (λ i lt. same (suc i) (omega arith)))

take-take : (n m : ℕ) (xs : List ℕ) → take n (take m xs) ≡ take (min n m) xs
take-take zero m xs = let e : min zero m ≡ 0 = omega arith in rw e
take-take (suc n) zero xs = let e : min (suc n) zero ≡ 0 = omega arith in rw e
take-take (suc n) (suc m) [] = let e : min (suc n) (suc m) ≡ suc (min n m) = omega arith in rw e
take-take (suc n) (suc m) (x ∷ xs) =
    let e : min (suc n) (suc m) ≡ suc (min n m) = omega arith in
    rw e (ap (λ (t : List ℕ). x ∷ t) (take-take n m xs))

take_nothing : (n : ℕ) → ◌≡◌ {A = List ℕ} (take n []) []
take_nothing zero = refl
take_nothing (suc n) = refl

drop_nothing : (n : ℕ) → ◌≡◌ {A = List ℕ} (drop n []) []
drop_nothing zero = refl
drop_nothing (suc n) = refl

drop-take : (n m : ℕ) (xs : List ℕ) → n ≤ m → drop n (take m xs) ≡ take (m - n) (drop n xs)
drop-take zero m xs h = let e : m - zero ≡ m = omega arith in rw e
drop-take (suc n) zero xs h = absurd (omega arith)
drop-take (suc n) (suc m) [] h = sym (take_nothing (suc m - suc n))
drop-take (suc n) (suc m) (x ∷ xs) h =
    let e : suc m - suc n ≡ m - n = omega arith in rw e (drop-take n m xs (omega arith))

drop-drop : (n at : ℕ) (xs : List ℕ) → drop n (drop at xs) ≡ drop (at + n) xs
drop-drop n zero xs = let e : zero + n ≡ n = omega arith in rw e
drop-drop n (suc at) [] = drop_nothing n ∙ sym (drop_nothing (suc at + n))
drop-drop n (suc at) (x ∷ xs) =
    let e : suc at + n ≡ suc (at + n) = omega arith in rw e (drop-drop n at xs)

drop_all : (n : ℕ) (xs : List ℕ) → drop n xs ≡ drop (min n (length xs)) xs
drop_all zero xs = let e : min zero (length xs) ≡ 0 = omega arith in rw e
drop_all (suc n) [] = let e : min (suc n) 0 ≡ 0 = omega arith in rw e
drop_all (suc n) (x ∷ xs) =
    let e : min (suc n) (suc (length xs)) ≡ suc (min n (length xs)) = omega arith in
    rw e (drop_all n xs)

-- The start and the rest of a slice.
pub take-slice : (n : ℕ) (xs : List ℕ) (at m : ℕ) → take n (slice xs at m) ≡ slice xs at (min n m)
take-slice n xs at m = take-take n m (drop at xs)

pub drop-slice :
    (n : ℕ) (xs : List ℕ) (at m : ℕ)
    → at + m ≤ length xs
    → drop n (slice xs at m) ≡ slice xs (at + min n m) (m - min n m)
drop-slice n xs at m fits =
    drop_all n (slice xs at m)
    ∙ ap (λ (k : ℕ). drop (min n k) (slice xs at m)) (length-slice xs at m fits)
    ∙ drop-take (min n m) m (drop at xs) (omega arith)
    ∙ ap (λ (t : List ℕ). take (m - min n m) t) (drop-drop (min n m) at xs)

pub append_nothing : (xs : List ℕ) → xs ++ [] ≡ xs
append_nothing [] = refl
append_nothing (x ∷ xs) = ap (λ (t : List ℕ). x ∷ t) (append_nothing xs)

-- `memcpy` to the start of an array, and what is read of it.
pub take-blit : (xs ys : List ℕ) → length ys ≤ length xs → take (length ys) (blit xs 0 ys) ≡ ys
unfolding blit
take-blit [] [] h = refl
take-blit [] (y ∷ ys) h = absurd (omega arith)
take-blit (x ∷ xs) [] h = refl
take-blit (x ∷ xs) (y ∷ ys) h = ap (λ (t : List ℕ). y ∷ t) (take-blit xs ys (omega arith))

pub drop_past : (n : ℕ) (xs : List ℕ) → length xs ≤ n → drop n xs ≡ []
drop_past zero [] h = refl
drop_past zero (x ∷ xs) h = absurd (omega arith)
drop_past (suc n) [] h = refl
drop_past (suc n) (x ∷ xs) h = drop_past n xs (omega arith)
