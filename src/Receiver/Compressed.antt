-- ===== src/Receiver/Compressed.antt =====
-- The compressed range message of AgnssServer/AssistData.c, decode_rangecmpb, which nothing calls.
-- Its local `wavelen` is read and never set: that value is an argument.
use dgnss_server.Common.{
  ◌*◌, ◌≤◌, ◌∙◌, ap, ℕ, zero, suc, ◌+◌, ◌-◌, ◌/◌, ◌%◌, ◌^◌, ◌≡◌, inl, inr, arith, true, ◌==◌, ◌&&◌,
  ◌||◌, not, bit_or, List, Option, none, some, Option-cases, if_holds, ℕ_discrete, if◌then◌else◌,
}
use dgnss_server.Common.Int.{ℤ, pos, negsuc, pos_part, ◌+ℤ◌, ◌*ℤ◌, int32, to_int32, ltb_ℤ, eq_ℤ}
use dgnss_server.Double.{Double}
use dgnss_server.Time.{timediff}
use dgnss_server.Bits.{u1, u2, u4, i4, exsign}
use dgnss_server.Sat.{Track, decode_trackstat, checkpri, satno}
use dgnss_server.Receiver.{Raw, Measured, keep_sat, get2, nought, oem4_hlen, decode_rangeb}
use dgnss_server.Receiver.Range.{
  IsObserved, IsRanged, announced, ranged, satno-IsTracked, keep_sat-IsObserved,
  decode_rangeb-IsRanged,
}

-- `OEM4HLEN + 4 + nobs * 24`, an int.
unfoldable pub rangecmp_len : ℤ → ℤ
rangecmp_len nobs = int32 (pos (oem4_hlen + 4) +ℤ int32 (nobs *ℤ pos 24))

rangecmp_len_lem : (n : ℕ) → n ≤ 48806444 → rangecmp_len (pos n) ≡ pos (oem4_hlen + 4 + 24 * n)
unfolding rangecmp_len ◌+ℤ◌ ◌*ℤ◌
rangecmp_len_lem n h = ground arith

module _ {F : Type 0} ⦃d : Double F⦄ (wavelen : F) where
  open d use {of_int, decimal, add, sub, mul, quo, neg, floor, lt, le}

  -- `MAXVAL`.
  abbrev max_val : F
  max_val = of_int (pos 8388608)

  -- The phase, of which the message has the lower part: `adr + MAXVAL * rolls`, less the sign.
  unfoldable pub unroll : F → F → F
  unroll psr adr =
      let adr_rolls = quo (add (quo psr wavelen) adr) max_val in
      let half =
        if le adr_rolls nought
        then neg (decimal (pos 5) (negsuc 0))
        else decimal (pos 5) (negsuc 0) in
      add (neg adr) (mul max_val (floor (add adr_rolls half)))

  unfoldable pub compressed_at : List ℕ → ℕ → Measured F
  compressed_at buff p =
      let psr =
        add (quo (of_int (pos (u4 buff (p + 7) / 2 ^ 4))) (of_int (pos 128)))
          (mul (of_int (pos (u1 buff (p + 11)))) (of_int (pos 2097152))) in
      record {
        psr = psr;
        adr = unroll psr (quo (of_int (i4 buff (p + 12))) (of_int (pos 256)));
        dop = quo (of_int (exsign (u4 buff (p + 4) % 2 ^ 28) 28)) (of_int (pos 256));
        snr = add (of_int (pos (u2 buff (p + 20) % 2 ^ 10 / 2 ^ 5))) (of_int (pos 20));
        lockt = quo (of_int (pos (u4 buff (p + 18) % 2 ^ 21))) (of_int (pos 32));
      }

  -- `lli`, as `loss_of_lock` has it but for a lock time at its largest value.
  unfoldable pub rangecmp_lli : Raw F → ℕ → ℕ → Track → Measured F → ℕ
  rangecmp_lli raw sat p t m =
      let tt = timediff raw.time raw.tobs in
      let since =
        add (sub m.lockt (get2 raw.lockt (sat - 1) p nought)) (decimal (pos 5) (negsuc 1)) in
      let slip =
        (lt m.lockt (decimal (pos 65535968) (negsuc 2)) && le since tt)
        || not (t.halfc == get2 raw.halfc (sat - 1) p 0) in
      let lli : ℕ = if not (eq_ℤ raw.tobs.time (pos 0)) && slip then 1 else 0 in
      if t.parity == 0 then bit_or lli 2 else lli

  -- A satellite that passed the checks of the loop's start.
  unfoldable pub rangecmp_sat : Raw F → ℕ → ℕ → ℕ → Track → Raw F
  rangecmp_sat raw q sat p t =
      let m = compressed_at raw.buff q in
      keep_sat raw sat p t (rangecmp_lli raw sat p t m) (record m {
        psr = if t.clock == 0 then nought else m.psr;
        adr = if t.plock == 0 then nought else m.adr;
        dop = if t.plock == 0 then nought else m.dop;
      })

  -- The checks that end a round by `continue`, and what follows them, with the position found.
  unfoldable pub rangecmp_at : Raw F → ℕ → Track → Option ℕ → Raw F
  rangecmp_at raw q t none = raw
  rangecmp_at raw q t (some p) =
      let sat = satno t.sys (pos (u1 raw.buff (q + 17))) in
      if sat == 0 then raw else rangecmp_sat raw q sat p t

  unfoldable pub rangecmp_tracked : Raw F → ℕ → Option Track → Raw F
  rangecmp_tracked raw q none = raw
  rangecmp_tracked raw q (some t) = rangecmp_at raw q t (checkpri raw.opt t.sys t.code t.freq)

  -- The body of the loop of `decode_rangecmpb`, for the 24 bytes from `q` on.
  unfoldable pub rangecmp_step : Raw F → ℕ → Raw F
  rangecmp_step raw q = rangecmp_tracked raw q (decode_trackstat (u4 raw.buff q))

  unfoldable pub rangecmp_loop : ℕ → ℕ → Raw F → Raw F
  rangecmp_loop zero q raw = raw
  rangecmp_loop (suc left) q raw = rangecmp_loop left (q + 24) (rangecmp_step raw q)

  unfoldable pub decode_rangecmpb : Raw F → ℤ × Raw F
  decode_rangecmpb raw =
      let nobs = to_int32 (u4 raw.buff oem4_hlen) in
      if ltb_ℤ (pos raw.len) (rangecmp_len nobs)
      then (negsuc 0, raw)
      else let raw' = rangecmp_loop (pos_part nobs) (oem4_hlen + 4) raw in
        (pos 43, record raw' { tobs = raw'.time })

  rangecmp_at-IsObserved :
      (raw : Raw F) (q stat : ℕ) (t : Track) (o : Option ℕ)
      → decode_trackstat stat ≡ some t
      → IsObserved raw.obs
      → IsObserved (rangecmp_at raw q t o).obs
  unfolding rangecmp_at rangecmp_sat
  rangecmp_at-IsObserved raw q stat t none h v = v
  rangecmp_at-IsObserved raw q stat t (some p) h v =
      let prn = u1 raw.buff (q + 17) in
      let sat = satno t.sys (pos prn) in
      elim (ℕ_discrete sat 0) [
        | yes e ↦ let skip : (sat == 0) ≡ true = ground arith in rw skip v
        | no ne ↦
            if_holds (λ (r : Raw F). IsObserved r.obs) _ raw _ v
              (keep_sat-IsObserved raw sat p t _ _ (satno-IsTracked stat prn t h ne) v)
      ]

  rangecmp_step-IsObserved :
      (raw : Raw F) (q : ℕ) → IsObserved raw.obs → IsObserved (rangecmp_step raw q).obs
  unfolding rangecmp_step rangecmp_tracked
  rangecmp_step-IsObserved raw q v =
      let stat : ℕ = u4 raw.buff q in
      elim (Option-cases (decode_trackstat stat)) [
        | inl e ↦ rw e v
        | inr (t, e) ↦
            rw e (rangecmp_at-IsObserved raw q stat t (checkpri raw.opt t.sys t.code t.freq) e v)
      ]

  rangecmp_loop-IsObserved :
      (n q : ℕ) (raw : Raw F) → IsObserved raw.obs → IsObserved (rangecmp_loop n q raw).obs
  unfolding rangecmp_loop
  rangecmp_loop-IsObserved zero q raw v = v
  rangecmp_loop-IsObserved (suc n) q raw v =
      rangecmp_loop-IsObserved n (q + 24) (rangecmp_step raw q) (rangecmp_step-IsObserved raw q v)

  decode_rangecmpb-IsRanged :
      (raw : Raw F)
      → IsObserved raw.obs
      → announced raw ≤ 48806444
      → IsRanged 24 raw (decode_rangecmpb raw)
  unfolding decode_rangecmpb
  decode_rangecmpb-IsRanged raw v few =
      let n : ℕ = announced raw in
      let count : to_int32 n ≡ pos n = ground arith in
      let loop = rangecmp_loop-IsObserved (pos_part (to_int32 n)) (oem4_hlen + 4) raw v in
      ranged 24 raw (rangecmp_len (to_int32 n)) _ (ap rangecmp_len count ∙ rangecmp_len_lem n few)
        loop

  -- A range message that announces up to 48806444 records is accepted by `decode_rangeb`, and by
  -- `decode_rangecmpb` whatever the wave length that it reads, exactly when all the records lie in
  -- its length: the return is 43, and the table has at most 64 records of different satellites,
  -- each of GPS or BeiDou, as it had before. Otherwise the return is -1 and nothing changes.
  pub ranges-AreRanged :
      (raw : Raw F)
      → IsObserved raw.obs
      → announced raw ≤ 48806444
      → IsRanged 44 raw (decode_rangeb raw) × IsRanged 24 raw (decode_rangecmpb raw)
  ranges-AreRanged raw v few =
      (decode_rangeb-IsRanged raw v few, decode_rangecmpb-IsRanged raw v few)
