-- ===== src/Rtcm/Cells/Buffer.antt =====
-- gen_msm_sig changes no byte of the message, and no observation.
use dgnss_server.Common.{ℕ, ◌≡◌, refl, List, if_holds}
use dgnss_server.Double.{Double}
use dgnss_server.Rtcm.{Rtcm}
use dgnss_server.Rtcm.Index.{Index, Visit}
use dgnss_server.Rtcm.Index.Counts.{visit_all_invariant}
use dgnss_server.Rtcm.Cells.{Cells, fill_cell, sig_cell, gen_msm_sig}

module _ {F : Type 0} ⦃d : Double F⦄ (rtcm : Rtcm F) (sys : ℕ) (ind : Index) (rrng : List F) where
  KeepsBuff : Cells F → Type 0
  KeepsBuff c = c.rtcm.buff ≡ rtcm.buff

  sig_cell-buff : (v : Visit F) (c : Cells F) → KeepsBuff c → KeepsBuff (sig_cell ind rrng v c)
  unfolding sig_cell fill_cell KeepsBuff
  sig_cell-buff v c h = if_holds (λ (c : Cells F). c.rtcm.buff ≡ rtcm.buff) _ c _ h h

  pub gen_msm_sig-buff : (gen_msm_sig rtcm sys ind rrng).rtcm.buff ≡ rtcm.buff
  unfolding gen_msm_sig KeepsBuff
  gen_msm_sig-buff =
      visit_all_invariant sys (sig_cell ind rrng) KeepsBuff sig_cell-buff rtcm.obs _ refl

  KeepsObs : Cells F → Type 0
  KeepsObs c = c.rtcm.obs ≡ rtcm.obs

  sig_cell-obs : (v : Visit F) (c : Cells F) → KeepsObs c → KeepsObs (sig_cell ind rrng v c)
  unfolding sig_cell fill_cell KeepsObs
  sig_cell-obs v c h = if_holds (λ (c : Cells F). c.rtcm.obs ≡ rtcm.obs) _ c _ h h

  pub gen_msm_sig-obs : (gen_msm_sig rtcm sys ind rrng).rtcm.obs ≡ rtcm.obs
  unfolding gen_msm_sig KeepsObs
  gen_msm_sig-obs =
      visit_all_invariant sys (sig_cell ind rrng) KeepsObs sig_cell-obs rtcm.obs _ refl
