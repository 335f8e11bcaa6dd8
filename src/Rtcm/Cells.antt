-- ===== src/Rtcm/Cells.antt =====
-- The values of the satellites and of the cells: satwavelen, gen_msm_sat and gen_msm_sig, as
-- encode_msm4 calls them, without `info` and `rate`. An array that C leaves without a value starts
-- with zeros here. gen_msm_sig gives no value to the cell number 64, since it skips `cell >= 64`.
pub mod Buffer
use dgnss_server.Common.{
  ℕ, ◌+◌, ◌-◌, ◌*◌, ◌/◌, ◌%◌, bit_or, Bool, true, false, ◌&&◌, ◌||◌, not, List, [], ◌∷◌, get_or,
  set, replicate, ltb, leb, ◌==◌, if◌then◌else◌,
}
use dgnss_server.Common.Int.{ℤ, pos, negsuc, ◌-ℤ◌, eq_ℤ}
use dgnss_server.Double.{Double}
use dgnss_server.Time.{GTime, locktime}
use dgnss_server.Receiver.{Obs, nought, no_time, get2, set2}
use dgnss_server.Sat.{satsys, sys_cmp}
use dgnss_server.Rtcm.{Rtcm, clight, range_ms, p2_10, round}
use dgnss_server.Rtcm.Index.{Visit, Index, visit_all, cell_at}

-- What gen_msm_sig writes: the state, and the arrays by cell.
pub record Cells (F : Type 0) : Type 0 where
  pub rtcm : Rtcm F
  pub psrng : List F
  pub phrng : List F
  pub lock : List ℤ
  pub half : List ℕ
  pub cnr : List F

module _ {F : Type 0} ⦃d : Double F⦄ where
  open d use {of_int, decimal, add, sub, mul, quo, neg, fabs, single, lt, le, eq}

  unfoldable pub satwavelen : ℕ → ℤ → F
  satwavelen sat frq =
      let sys = (satsys sat).0 in
      let first = eq_ℤ frq (pos 0) in
      if sys == sys_cmp
      then (if first then quo clight (decimal (pos 1561098) (pos 3)) else nought)
      else if first
      then quo clight (decimal (pos 157542) (pos 4))
      else nought

  -- The body of the loops of `gen_msm_sat`, on the rough ranges and the rough rates.
  unfoldable pub sat_rates : Index → Visit F → List F × List F → List F × List F
  sat_rates ind v (rrng, rrate) =
      let k = get_or ind.sat_ind (v.sat - 1) 0 - 1 in
      let lambda = satwavelen v.obs.sat (pos v.freq -ℤ pos 1) in
      let p = get_or v.obs.range v.j nought in
      let dop = get_or v.obs.doppler v.j nought in
      let rrng_s = mul (mul (of_int (round (quo (quo p range_ms) p2_10))) range_ms) p2_10 in
      let rrate_s = mul (of_int (round (mul (neg dop) lambda))) (of_int (pos 1)) in
      (
        if eq (get_or rrng k nought) nought && not (eq p nought) then set rrng k rrng_s else rrng,
        if eq (get_or rrate k nought) nought && not (eq dop nought)
            then set rrate k rrate_s
            else rrate,
      )

  unfoldable pub gen_msm_sat : Rtcm F → ℕ → Index → List F × List F
  gen_msm_sat rtcm sys ind =
      visit_all sys (sat_rates ind) rtcm.obs (replicate 64 nought, replicate 64 nought)

  -- `phrng_s` and what becomes of `rtcm->cp[data->sat-1][j]` and of `LLI`.
  unfoldable pub cycle_offset : Rtcm F → Visit F → F → F → List (List F) × ℕ
  cycle_offset rtcm v lambda phrng_s =
      let lli = get_or v.obs.lli v.j 0 in
      let cp = get2 rtcm.cp (v.obs.sat - 1) v.j nought in
      if (lli % 2 == 1) || lt (of_int (pos 1171)) (fabs (sub phrng_s cp))
      then (
        set2 rtcm.cp (v.obs.sat - 1) v.j (mul (of_int (round (quo phrng_s lambda))) lambda),
        bit_or lli 1,
      )
      else (rtcm.cp, lli)

  -- The assignments for the cell, and the state after them.
  unfoldable pub fill_cell : Visit F → F → ℕ → Cells F → Cells F
  fill_cell v rough cell c =
      let o = v.obs in
      let lambda = satwavelen o.sat (pos v.freq -ℤ pos 1) in
      let p = get_or o.range v.j nought in
      let l = get_or o.phase v.j nought in
      let psrng_s = if eq p nought then nought else sub p rough in
      let phrng_s = if eq l nought || le lambda nought then nought else sub (mul l lambda) rough in
      let (cp, lli) = cycle_offset c.rtcm v lambda phrng_s in
      let phrng_s' = sub phrng_s (get2 cp (o.sat - 1) v.j nought) in
      let (lltime, lt) = locktime o.time (get2 c.rtcm.lltime (o.sat - 1) v.j no_time) lli in
      record {
        rtcm = record c.rtcm { cp = cp; lltime = set2 c.rtcm.lltime (o.sat - 1) v.j lltime };
        psrng = if not (eq psrng_s nought) then set c.psrng (cell - 1) psrng_s else c.psrng;
        phrng = if not (eq phrng_s' nought) then set c.phrng (cell - 1) phrng_s' else c.phrng;
        lock = set c.lock (cell - 1) lt;
        half = set c.half (cell - 1) (get_or o.lli v.j 0 / 2 % 2);
        cnr =
            set c.cnr (cell - 1)
              (single (mul (of_int (pos (get_or o.snr v.j 0))) (decimal (pos 25) (negsuc 1))));
      }

  -- The body of the loops of `gen_msm_sig`.
  unfoldable pub sig_cell : Index → List F → Visit F → Cells F → Cells F
  sig_cell ind rrng v c =
      let cell = get_or ind.cell_ind (cell_at ind.sat_ind ind.sig_ind ind.nsig v.sat v.sig) 0 in
      let rough = get_or rrng (get_or ind.sat_ind (v.sat - 1) 0 - 1) nought in
      if leb 64 cell then c else fill_cell v rough cell c

  unfoldable pub gen_msm_sig : Rtcm F → ℕ → Index → List F → Cells F
  gen_msm_sig rtcm sys ind rrng = visit_all sys (sig_cell ind rrng) rtcm.obs (record {
    rtcm = rtcm;
    psrng = replicate 64 nought;
    phrng = replicate 64 nought;
    lock = replicate 64 (pos 0);
    half = replicate 64 0;
    cnr = replicate 64 nought;
  })
