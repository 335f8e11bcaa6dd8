-- ===== src/Rtcm/Index/Inside.antt =====
-- The writes of gen_msm_index into its arrays of 64 satellites, 32 signals and 2048 cells.
use dgnss_server.Common.{ℕ, ◌*◌, ◌≤◌, ◌<◌, List, [], ◌∷◌}
use dgnss_server.Double.{Double}
use dgnss_server.Receiver.{ObsTable}
use dgnss_server.Rtcm.Index.{Visit, Index, visit_all, cell_at}

-- The places that a visit of the loops writes to, in the arrays of the numbers.
pub record IsInside {F : Type 0} (index : Index) (v : Visit F) : Type 0 where
  pub some_sat : 1 ≤ v.sat
  pub sat_in : v.sat ≤ 64
  pub some_sig : 1 ≤ v.sig
  pub sig_in : v.sig ≤ 32
  pub cell_in : cell_at index.sat_ind index.sig_ind index.nsig v.sat v.sig < 32 * 64

module _ {F : Type 0} ⦃d : Double F⦄ (sys : ℕ) where
  -- All visits of the loops, the last one first.
  abbrev pub visits : ObsTable F → List (Visit F)
  visits obs = visit_all sys (λ v vs. v ∷ vs) obs []
