-- ===== src/Rtcm/Index.antt =====
-- gen_msm_index: the satellites, the signals and the cells of a message, numbered from 1.
pub mod Counts
pub mod Inside
use dgnss_server.Common.{
  ℕ, zero, suc, ◌+◌, ◌-◌, ◌*◌, Bool, ◌&&◌, not, List, [], ◌∷◌, get_or, set, replicate, ltb, ◌==◌,
  if◌then◌else◌, for_loop,
}
use dgnss_server.Double.{Double}
use dgnss_server.Receiver.{Obs, ObsTable, item}
use dgnss_server.Sat.{nfreq, to_satid, to_sigid}

-- What the loops over the observations have found when their bodies start: the record, the
-- position in it, the satellite, the signal and the frequency.
pub record Visit (F : Type 0) : Type 0 where
  pub obs : Obs F
  pub j : ℕ
  pub sat : ℕ
  pub sig : ℕ
  pub freq : ℕ

module _ {F : Type 0} ⦃d : Double F⦄ {S : Type 0} (sys : ℕ) (body : Visit F → S → S) where
  unfoldable pub visit_signal : Obs F → ℕ → ℕ → S → S
  visit_signal o sat j s =
      let (sig, freq) = to_sigid sys (get_or o.code j 0) in
      if sig == 0 then s else body (record { obs = o; j = j; sat = sat; sig = sig; freq = freq }) s

  unfoldable pub visit_obs : Obs F → S → S
  visit_obs o s =
      let sat = to_satid sys o.sat in
      if sat == 0 then s else for_loop nfreq 0 (visit_signal o sat) s

  -- The two loops that gen_msm_index has twice, and gen_msm_sat and gen_msm_sig once.
  unfoldable pub visit_all : ObsTable F → S → S
  visit_all obs s = for_loop obs.n 0 (λ i. visit_obs (item obs i)) s

-- `if (ind[i]) ind[i] = ++(*n);` over an array.
unfoldable pub number : List ℕ → ℕ → List ℕ × ℕ
number [] n = ([], n)
number (x ∷ xs) n =
    let n' : ℕ = if x == 0 then n else n + 1 in
    let (ys, m) = number xs n' in ((if x == 0 then x else n') ∷ ys, m)

-- The same over the first `left` cells, up to 64 of them.
unfoldable pub number_cells : ℕ → List ℕ → ℕ → List ℕ × ℕ
number_cells zero xs n = (xs, n)
number_cells (suc left) [] n = ([], n)
number_cells (suc left) (x ∷ xs) n =
    let counts = not (x == 0) && ltb n 64 in
    let n' : ℕ = if counts then n + 1 else n in
    let (ys, m) = number_cells left xs n' in ((if counts then n' else x) ∷ ys, m)

pub record Index : Type 0 where
  pub nsat : ℕ
  pub nsig : ℕ
  pub ncell : ℕ
  pub sat_ind : List ℕ
  pub sig_ind : List ℕ
  pub cell_ind : List ℕ

-- The place of a satellite's signal among the cells.
abbrev pub cell_at : List ℕ → List ℕ → ℕ → ℕ → ℕ → ℕ
cell_at sat_ind sig_ind nsig sat sig =
    get_or sig_ind (sig - 1) 0 - 1 + (get_or sat_ind (sat - 1) 0 - 1) * nsig

module _ {F : Type 0} ⦃d : Double F⦄ where
  -- A write past the arrays would change nothing here; in C it would overrun them.
  unfoldable pub mark : Visit F → List ℕ × List ℕ → List ℕ × List ℕ
  mark v (sat_ind, sig_ind) = (set sat_ind (v.sat - 1) 1, set sig_ind (v.sig - 1) 1)

  unfoldable pub mark_cell : List ℕ → List ℕ → ℕ → Visit F → List ℕ → List ℕ
  mark_cell sat_ind sig_ind nsig v cell_ind =
      set cell_ind (cell_at sat_ind sig_ind nsig v.sat v.sig) 1

  -- The arrays are those of `encode_msm_head`, which start with zeros.
  unfoldable pub gen_msm_index : ObsTable F → ℕ → Index
  gen_msm_index obs sys =
      let marks = visit_all sys mark obs (replicate 64 0, replicate 32 0) in
      let sats = number marks.0 0 in
      let sigs = number marks.1 0 in
      let cells = visit_all sys (mark_cell sats.0 sigs.0 sigs.1) obs (replicate (32 * 64) 0) in
      let numbered = number_cells (sats.1 * sigs.1) cells 0 in
      record {
        nsat = sats.1;
        nsig = sigs.1;
        ncell = numbered.1;
        sat_ind = sats.0;
        sig_ind = sigs.0;
        cell_ind = numbered.0;
      }
