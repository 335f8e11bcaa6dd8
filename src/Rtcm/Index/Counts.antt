-- ===== src/Rtcm/Index/Counts.antt =====
-- The numbers of satellites, signals and cells of a message.
use dgnss_server.Common.{
  ℕ, zero, suc, ◌+◌, ◌≤◌, ◌≡◌, refl, ap, ◌∙◌, arith, List, [], ◌∷◌, length, replicate, ◌==◌,
  if◌then◌else◌, for_loop_invariant, if_holds, length-set, length-replicate,
}
use dgnss_server.Double.{Double}
use dgnss_server.Receiver.{Obs, ObsTable, item}
use dgnss_server.Sat.{nfreq, to_satid}
use dgnss_server.Rtcm.Index.{
  Visit, visit_signal, visit_obs, visit_all, number, number_cells, mark, gen_msm_index,
}

length-number : (xs : List ℕ) (n : ℕ) → length (number xs n).0 ≡ length xs
unfolding number
length-number [] n = refl
length-number (x ∷ xs) n = ap suc (length-number xs (if x == 0 then n else n + 1))

pub number-count : (xs : List ℕ) (n : ℕ) → (number xs n).1 ≤ n + length xs
unfolding number
number-count [] n = omega arith
number-count (x ∷ xs) n = ground (arith, number-count xs n, number-count xs (n + 1))

number_cells-count : (left : ℕ) (xs : List ℕ) (n : ℕ) → n ≤ 64 → (number_cells left xs n).1 ≤ 64
unfolding number_cells
number_cells-count zero xs n h = h
number_cells-count (suc left) [] n h = h
number_cells-count (suc left) (x ∷ xs) n h =
    ground (arith, number_cells-count left xs n, number_cells-count left xs (n + 1))

module _ {κ} {F : Type 0} ⦃d : Double F⦄ {S : Type 0} (sys : ℕ) (body : Visit F → S → S)
    (P : S → Type κ) (keep : (v : Visit F) (s : S) → P s → P (body v s)) where
  visit_signal_invariant :
      (o : Obs F) (sat j : ℕ) (s : S) → P s → P (visit_signal sys body o sat j s)
  unfolding visit_signal
  visit_signal_invariant o sat j s h = if_holds P _ s _ h (keep _ s h)

  visit_obs_invariant : (o : Obs F) (s : S) → P s → P (visit_obs sys body o s)
  unfolding visit_obs
  visit_obs_invariant o s h =
      let sat = to_satid sys o.sat in
      if_holds P _ s _ h (
        for_loop_invariant P nfreq 0 (visit_signal sys body o sat) s (visit_signal_invariant o sat)
          h)

  -- What the body of the loops over the observations keeps, the loops keep.
  pub visit_all_invariant : (obs : ObsTable F) (s : S) → P s → P (visit_all sys body obs s)
  unfolding visit_all
  visit_all_invariant obs s h =
      for_loop_invariant P obs.n 0 _ s (λ i. visit_obs_invariant (item obs i)) h

module _ {F : Type 0} ⦃d : Double F⦄ (obs : ObsTable F) (sys : ℕ) where
  pub marks-length :
      let marks = visit_all sys mark obs (replicate 64 0, replicate 32 0) in
      (length marks.0 ≡ 64) × (length marks.1 ≡ 32)
  unfolding mark
  marks-length =
      visit_all_invariant sys mark (λ (m : List ℕ × List ℕ). (length m.0 ≡ 64) × (length m.1 ≡ 32))
        (λ v s h. (length-set s.0 _ 1 ∙ h.0, length-set s.1 _ 1 ∙ h.1)) obs _
        (length-replicate {A = ℕ} 64 0, length-replicate {A = ℕ} 32 0)

  -- A message has at most 64 satellites, 32 signals and 64 cells.
  pub gen_msm_index_bounds :
      let index = gen_msm_index obs sys in
      (index.nsat ≤ 64) × (index.nsig ≤ 32) × (index.ncell ≤ 64)
  unfolding gen_msm_index
  gen_msm_index_bounds =
      let marks = visit_all sys mark obs (replicate 64 0, replicate 32 0) in
      (
        omega (arith, number-count marks.0 0, marks-length.0),
        omega (arith, number-count marks.1 0, marks-length.1),
        number_cells-count _ _ 0 (omega arith),
      )
