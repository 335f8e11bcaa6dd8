-- ===== src/Assist/Split.antt =====
-- raw2rtcm: the observations of GPS go to one output and the others to the other, in order.
use dgnss_server.Common.{
  ℕ, zero, suc, ◌+◌, ◌≤◌, ◌<◌, ◌≡◌, refl, sym, ◌∙◌, ap, ap₂, arith, Bool, not, List, [], ◌∷◌, ◌++◌,
  length, get_or, set, take, for_loop, each, length-set, ltb, if◌then◌else◌, Bool-cases, if_holds,
  inl, inr,
}
use mathlib.Core.List.{append_assoc, append-nil}
use dgnss_server.Common.Int.{pos}
use dgnss_server.Double.{Double}
use dgnss_server.Receiver.{Obs, ObsTable, Raw, item, max_obs, blank_obs}
use dgnss_server.Rtcm.{Rtcm}
use dgnss_server.Assist.{split_obs, raw2rtcm, append_obs}

module _ {ℓ} {A : Type ℓ} where
  -- The elements that pass a test.
  abbrev pub select : (A → Bool) → List A → List A
  select p [] = []
  select p (x ∷ xs) = let rest = select p xs in if p x then x ∷ rest else rest

  select_cons :
      (p : A → Bool) (x : A) (rest : List A)
      → select p (x ∷ []) ++ select p rest ≡ select p (x ∷ rest)
  select_cons p x rest = elim (Bool-cases (p x)) [ inl e ↦ rw e | inr e ↦ rw e ]

  append_selected :
      (p : A → Bool) (xs : List A) (x : A) (rest : List A) {ys : List A}
      → ys ≡ xs ++ select p (x ∷ [])
      → ys ++ select p rest ≡ xs ++ select p (x ∷ rest)
  append_selected p xs x rest e =
      ap (λ (t : List A). t ++ select p rest) e
      ∙ append_assoc xs (select p (x ∷ [])) (select p rest)
      ∙ ap (λ (t : List A). xs ++ t) (select_cons p x rest)

  each-shift : (n i : ℕ) (f : ℕ → A) → each n (i + 1) f ≡ each n i (λ j. f (suc j))
  unfolding each
  each-shift zero i f = refl
  each-shift (suc n) i f =
      let e : i + 1 ≡ suc i = omega arith in
      ap₂ (λ (x : A) (t : List A). x ∷ t) (ap f e) (each-shift n (i + 1) f)

  take-each :
      (n : ℕ) (xs : List A) (d : A) → n ≤ length xs → take n xs ≡ each n 0 (λ j. get_or xs j d)
  unfolding each
  take-each zero xs d h = refl
  take-each (suc n) [] d h = absurd (omega arith)
  take-each (suc n) (x ∷ xs) d h =
      ap (λ (t : List A). x ∷ t)
        (take-each n xs d (omega arith) ∙ sym (each-shift n 0 (λ j. get_or (x ∷ xs) j d)))

  take-set :
      (xs : List A) (n : ℕ) (v : A)
      → n < length xs
      → take (suc n) (set xs n v) ≡ take n xs ++ v ∷ []
  take-set [] n v h = absurd (omega arith)
  take-set (x ∷ xs) zero v h = refl
  take-set (x ∷ xs) (suc n) v h = ap (λ (t : List A). x ∷ t) (take-set xs n v (omega arith))

abbrev Outputs : Type 0 → Type 0
Outputs F = (Rtcm F × ℕ) × (Rtcm F × ℕ)

module _ {F : Type 0} ⦃d : Double F⦄ where
  -- The records in use.
  abbrev pub records : ObsTable F → List (Obs F)
  records obs = take obs.n obs.items

  abbrev pub is_gps : Obs F → Bool
  is_gps o = ltb o.sat 84

  abbrev written : Rtcm F × ℕ → List (Obs F)
  written (out, n) = take n out.obs.items

  -- An output with room for what the loop may still write.
  abbrev HasRoom : Rtcm F × ℕ → ℕ → Type 0
  HasRoom (out, n) left = n + left ≤ length out.obs.items

  append-written :
      (out : Rtcm F) (n : ℕ) (o : Obs F)
      → n < length out.obs.items
      → written (append_obs out n o, n + 1) ≡ written (out, n) ++ o ∷ []
  append-written out n o h =
      let e : n + 1 ≡ suc n = omega arith in rw e (take-set out.obs.items n o h)

  append-HasRoom :
      (out : Rtcm F) (n left : ℕ) (o : Obs F)
      → HasRoom (out, n) (suc left)
      → HasRoom (append_obs out n o, n + 1) left
  append-HasRoom out n left o h = omega (arith, length-set out.obs.items n o)

  -- One round: the record is appended to one of the outputs.
  module _ (o : Obs F) (left : ℕ) (s : Outputs F) (g : HasRoom s.0 (suc left))
      (b : HasRoom s.1 (suc left)) where
    split_obs-written :
        (written (split_obs o s).0 ≡ written s.0 ++ select is_gps (o ∷ []))
        × (written (split_obs o s).1 ≡ written s.1 ++ select (λ o. not (is_gps o)) (o ∷ []))
    unfolding split_obs
    split_obs-written = elim (Bool-cases (ltb o.sat 84)) [
      | inl e ↦ rw e (append-written s.0.0 s.0.1 o (omega arith), sym (append-nil (written s.1)))
      | inr e ↦ rw e (sym (append-nil (written s.0)), append-written s.1.0 s.1.1 o (omega arith))
    ]

    split_obs-HasRoom : HasRoom (split_obs o s).0 left × HasRoom (split_obs o s).1 left
    unfolding split_obs
    split_obs-HasRoom =
        if_holds (λ (t : Outputs F). HasRoom t.0 left × HasRoom t.1 left) (ltb o.sat 84) _ _
          (append-HasRoom s.0.0 s.0.1 left o g, omega arith)
          (omega arith, append-HasRoom s.1.0 s.1.1 left o b)

  split_loop :
      (raw : Raw F) (left i : ℕ) (s : Outputs F)
      → HasRoom s.0 left
      → HasRoom s.1 left
      → let end = for_loop left i (λ j. split_obs (item raw.obs j)) s in
        let seen = each left i (item raw.obs) in
        (written end.0 ≡ written s.0 ++ select is_gps seen)
        × (written end.1 ≡ written s.1 ++ select (λ o. not (is_gps o)) seen)
  unfolding for_loop each
  split_loop raw zero i s g b = (sym (append-nil _), sym (append-nil _))
  split_loop raw (suc left) i s g b =
      let o = item raw.obs i in
      let seen = each left (i + 1) (item raw.obs) in
      let room = split_obs-HasRoom o left s g b in
      let step = split_obs-written o left s g b in
      let rest = split_loop raw left (i + 1) (split_obs o s) room.0 room.1 in
      (
        rest.0 ∙ append_selected is_gps (written s.0) o seen step.0,
        rest.1 ∙ append_selected (λ o. not (is_gps o)) (written s.1) o seen step.1,
      )

  -- After a range message, the records of one output are those of GPS and the records of the other
  -- are the rest, each in the order in which the receiver gave them.
  pub raw2rtcm-records :
      (gpsout bdsout : Rtcm F) (raw : Raw F)
      → length gpsout.obs.items ≡ max_obs
      → length bdsout.obs.items ≡ max_obs
      → length raw.obs.items ≡ max_obs
      → raw.obs.n ≤ max_obs
      → let (gps, bds) = raw2rtcm gpsout bdsout raw (pos 43) in
        (records gps.obs ≡ select is_gps (records raw.obs))
        × (records bds.obs ≡ select (λ o. not (is_gps o)) (records raw.obs))
  unfolding raw2rtcm
  raw2rtcm-records gpsout bdsout raw g b r n =
      let start : Outputs F =
        ((record gpsout { time = raw.time }, 0), (record bdsout { time = raw.time }, 0)) in
      let loop = split_loop raw raw.obs.n 0 start (omega arith) (omega arith) in
      rw (take-each raw.obs.n raw.obs.items blank_obs (omega arith)) loop
