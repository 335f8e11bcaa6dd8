-- ===== src/Receiver.antt =====
-- The receiver's side of AgnssServer/AssistData.c: the frames of the OEM4 protocol, sync_oem4,
-- input_oem4 and decode_oem4, and the range message, decode_rangeb and obsindex (decode_rangecmpb is in Compressed). The state is the
-- part of `raw_t` that they use. `outtype` is left out: AssistData_Init sets it to 0, and nothing
-- sets it otherwise, so the texts for `msgtype` are never made. The lines printed are left out too.
pub mod Frame
pub mod Delivery
pub mod Observation
pub mod Range
pub mod Compressed
pub mod Safety
pub mod Heard
pub mod Known
use dgnss_server.Common.{
  ℕ, zero, suc, ◌+◌, ◌-◌, ◌*◌, ◌/◌, ◌%◌, ◌^◌, bit_or, Bool, true, false, ◌&&◌, ◌||◌, not, Option,
  none, some, List, [], ◌∷◌, get_or, set, length, ltb, leb, ◌==◌, if◌then◌else◌, replicate,
}
use dgnss_server.Common.Int.{ℤ, pos, negsuc, pos_part, ◌+ℤ◌, ◌*ℤ◌, ltb_ℤ, eq_ℤ, int32, to_int32}
use dgnss_server.Double.{Double}
use dgnss_server.Time.{GTime, timediff, gpst2time, adjgpsweek}
use dgnss_server.Bits.{byte_at, u1, u2, u4, u8}
use dgnss_server.Sat.{
  sys_glo, nfreq, Track, decode_trackstat, checkpri, satno, code_none, max_sat_header,
}
use dgnss_server.Crc.{crc32}

abbrev pub oem4_sync1 : ℕ
oem4_sync1 = 0xAA

abbrev pub oem4_sync2 : ℕ
oem4_sync2 = 0x44

abbrev pub oem4_sync3 : ℕ
oem4_sync3 = 0x12

abbrev pub oem4_hlen : ℕ
oem4_hlen = 28

abbrev pub max_raw_len : ℕ
max_raw_len = 4096

abbrev pub max_obs : ℕ
max_obs = 64

abbrev pub id_range : ℕ
id_range = 43

-- `obsd_t`.
pub record Obs (F : Type 0) : Type 0 where
  pub time : GTime F
  pub sat : ℕ
  pub snr : List ℕ
  pub lli : List ℕ
  pub code : List ℕ
  pub phase : List F
  pub range : List F
  pub doppler : List F

-- `obs_t`: the array of 64 records, and how many of them are in use.
pub record ObsTable (F : Type 0) : Type 0 where
  pub n : ℕ
  pub items : List (Obs F)

-- `raw_t`, as far as the receiver's functions use it.
pub record Raw (F : Type 0) : Type 0 where
  pub time : GTime F
  pub tobs : GTime F
  pub obs : ObsTable F
  pub lockt : List (List F)
  pub halfc : List (List ℕ)
  pub nbyte : ℕ
  pub len : ℕ
  pub buff : List ℕ
  pub opt : List ℕ

-- The numbers of one satellite's part of a range message.
pub record Measured (F : Type 0) : Type 0 where
  pub psr : F
  pub adr : F
  pub dop : F
  pub snr : F
  pub lockt : F

module _ {ℓ} {A : Type ℓ} where
  -- An array of arrays.
  abbrev pub get2 : List (List A) → ℕ → ℕ → A → A
  get2 rows i j none_there = get_or (get_or rows i []) j none_there

  abbrev pub set2 : List (List A) → ℕ → ℕ → A → List (List A)
  set2 rows i j v = set rows i (set (get_or rows i []) j v)

-- `sync_oem4`: whether the last three bytes are the sync bytes.
unfoldable pub sync_oem4 : List ℕ → ℕ → Bool × List ℕ
sync_oem4 buff byte =
    let buff1 = set buff 0 (byte_at buff 1) in
    let buff2 = set buff1 1 (byte_at buff1 2) in
    let buff3 = set buff2 2 byte in
    (
      (byte_at buff3 0 == oem4_sync1)
          && (byte_at buff3 1 == oem4_sync2)
          && (byte_at buff3 2 == oem4_sync3),
      buff3,
    )

module _ {F : Type 0} ⦃d : Double F⦄ where
  open d use {
    of_int, decimal, add, sub, mul, neg, fabs, single, lt, le, to_byte, of_bits64, of_bits32,
  }

  abbrev pub nought : F
  nought = of_int (pos 0)

  abbrev pub no_time : GTime F
  no_time = record { time = pos 0; sec = nought }

  -- `data0`.
  abbrev pub blank_obs : Obs F
  blank_obs = record {
    time = no_time;
    sat = 0;
    snr = replicate nfreq 0;
    lli = replicate nfreq 0;
    code = replicate nfreq 0;
    phase = replicate nfreq nought;
    range = replicate nfreq nought;
    doppler = replicate nfreq nought;
  }

  abbrev pub item : ObsTable F → ℕ → Obs F
  item obs i = get_or obs.items i blank_obs

  -- The loop of `obsindex` over the records in use, with `left` rounds to go.
  unfoldable pub find_sat : List (Obs F) → ℕ → ℕ → ℕ → Option ℕ
  find_sat items zero i sat = none
  find_sat items (suc left) i sat =
      let rest = find_sat items left (i + 1) sat in
      if (get_or items i blank_obs).sat == sat then some i else rest

  abbrev fresh_obs : GTime F → ℕ → Obs F
  fresh_obs time sat = record blank_obs { time = time; sat = sat }

  -- `obsindex`: `none` is the return of -1.
  unfoldable pub obsindex : ObsTable F → GTime F → ℕ → Option ℕ × ObsTable F
  obsindex obs time sat =
      if leb max_obs obs.n then (none, obs) else elim (find_sat obs.items obs.n 0 sat) [
        | some i ↦ (some i, obs)
        | none ↦
            (some obs.n, record { n = obs.n + 1; items = set obs.items obs.n (fresh_obs time sat) })
      ]

  unfoldable pub measured_at : List ℕ → ℕ → Measured F
  measured_at buff p = record {
    psr = of_bits64 (u8 buff (p + 4));
    adr = of_bits64 (u8 buff (p + 16));
    dop = of_bits32 (u4 buff (p + 28));
    snr = of_bits32 (u4 buff (p + 32));
    lockt = of_bits32 (u4 buff (p + 36));
  }

  -- `lli`: bit 0 for a loss of lock, bit 1 for an unknown parity.
  unfoldable pub loss_of_lock : Raw F → ℕ → ℕ → Track → Measured F → ℕ
  loss_of_lock raw sat p t m =
      let tt = timediff raw.time raw.tobs in
      let since =
        add (sub m.lockt (get2 raw.lockt (sat - 1) p nought)) (decimal (pos 5) (negsuc 1)) in
      let slip = le since tt || not (t.halfc == get2 raw.halfc (sat - 1) p 0) in
      let lli : ℕ = if not (eq_ℤ raw.tobs.time (pos 0)) && slip then 1 else 0 in
      if t.parity == 0 then bit_or lli 2 else lli

  -- `fabs(timediff(obs.data[0].time, time)) > 1E-9` empties the table.
  abbrev pub is_stale : Raw F → Bool
  is_stale raw = lt (decimal (pos 1) (negsuc 8)) (fabs (timediff (item raw.obs 0).time raw.time))

  unfoldable pub restart : Raw F → ObsTable F
  restart raw = if is_stale raw then record raw.obs { n = 0 } else raw.obs

  -- The assignments to the record at `index`, of `m.adr` to its phase.
  unfoldable pub store_obs : ObsTable F → ℕ → ℕ → ℕ → ℕ → Measured F → ObsTable F
  store_obs obs index p lli code m =
      let o = item obs index in
      let level : ℕ =
        if le nought m.snr && lt m.snr (of_int (pos 255))
        then to_byte (add (mul m.snr (of_int (pos 4))) (decimal (pos 5) (negsuc 0)))
        else 0 in
      record obs {
        items = set obs.items index (record o {
          phase = set o.phase p m.adr;
          range = set o.range p m.psr;
          doppler = set o.doppler p (single m.dop);
          snr = set o.snr p level;
          lli = set o.lli p lli;
          code = set o.code p code;
        });
      }

  -- The end of a round of the loop: the assignments to the tables, with the numbers `m`.
  unfoldable pub keep_sat : Raw F → ℕ → ℕ → Track → ℕ → Measured F → Raw F
  keep_sat raw sat p t lli m =
      let (index, obs) = obsindex (restart raw) raw.time sat in
      record raw {
        lockt = set2 raw.lockt (sat - 1) p m.lockt;
        halfc = set2 raw.halfc (sat - 1) p t.halfc;
        obs = elim index [ none ↦ obs | some i ↦ store_obs obs i p lli t.code m ];
      }

  -- A satellite that passed the checks of the loop's start.
  unfoldable pub range_sat : Raw F → ℕ → ℕ → ℕ → Track → Raw F
  range_sat raw q sat p t =
      let m = measured_at raw.buff q in
      keep_sat raw sat p t (loss_of_lock raw sat p t m) (record m {
        psr = if t.clock == 0 then nought else m.psr;
        adr = neg (if t.plock == 0 then nought else m.adr);
        dop = if t.plock == 0 then nought else m.dop;
      })

  -- The checks that end a round by `continue`, and what follows them, with the position found.
  unfoldable pub range_at : Raw F → ℕ → Track → Option ℕ → Raw F
  range_at raw q t none = raw
  range_at raw q t (some p) =
      let sat = satno t.sys (pos (u2 raw.buff q)) in
      if (t.sys == sys_glo) || (sat == 0) then raw else range_sat raw q sat p t

  unfoldable pub range_tracked : Raw F → ℕ → Option Track → Raw F
  range_tracked raw q none = raw
  range_tracked raw q (some t) = range_at raw q t (checkpri raw.opt t.sys t.code t.freq)

  -- The body of the loop of `decode_rangeb`, for the 44 bytes from `q` on.
  unfoldable pub range_step : Raw F → ℕ → Raw F
  range_step raw q = range_tracked raw q (decode_trackstat (u4 raw.buff (q + 40)))

  -- Bytes behind the end of the buffer are read as 0. Where more than 48806444 records are
  -- announced, the length that is asked for wraps around, and this loop reads there as C does.
  unfoldable pub range_loop : ℕ → ℕ → Raw F → Raw F
  range_loop zero q raw = raw
  range_loop (suc left) q raw = range_loop left (q + 44) (range_step raw q)

-- `OEM4HLEN + 4 + nobs * 44`, an int.
unfoldable pub range_len : ℤ → ℤ
range_len nobs = int32 (pos (oem4_hlen + 4) +ℤ int32 (nobs *ℤ pos 44))

module _ {F : Type 0} ⦃d : Double F⦄ where
  unfoldable pub decode_rangeb : Raw F → ℤ × Raw F
  decode_rangeb raw =
      let nobs = to_int32 (u4 raw.buff oem4_hlen) in
      if ltb_ℤ (pos raw.len) (range_len nobs)
      then (negsuc 0, raw)
      else let raw' = range_loop (pos_part nobs) (oem4_hlen + 4) raw in
        (pos 43, record raw' { tobs = raw'.time })

  -- `now` is the clock's time.
  unfoldable pub decode_oem4 : GTime F → Raw F → ℤ × Raw F
  decode_oem4 now raw =
      let week = adjgpsweek now (pos (u2 raw.buff 14)) in
      let tow = d.mul (d.of_int (pos (u4 raw.buff 16))) (d.decimal (pos 1) (negsuc 2)) in
      let raw' = record raw { time = gpst2time week tow } in
      if not (crc32 raw.buff raw.len == u4 raw.buff raw.len)
      then (negsuc 0, raw)
      else if not (u1 raw.buff 6 / 2 ^ 4 % 4 == 0)
      then (pos 0, raw')
      else if u2 raw.buff 4 == id_range
      then decode_rangeb raw'
      else (pos 0, raw')

  unfoldable pub input_oem4 : GTime F → Raw F → ℕ → ℤ × Raw F
  input_oem4 now raw byte =
      let (synced, shifted) = sync_oem4 raw.buff byte in
      let buff = set raw.buff raw.nbyte byte in
      let nbyte = raw.nbyte + 1 in
      let len = if nbyte == 10 then u2 buff 8 + oem4_hlen else raw.len in
      if raw.nbyte == 0
      then (pos 0, record raw { buff = shifted; nbyte = if synced then 3 else 0 })
      else if (nbyte == 10) && ltb (max_raw_len - 4) len
      then (negsuc 0, record raw { buff = buff; nbyte = 0; len = len })
      else if ltb nbyte 10 || ltb nbyte (len + 4)
      then (pos 0, record raw { buff = buff; nbyte = nbyte; len = len })
      else decode_oem4 now (record raw { buff = buff; nbyte = 0; len = len })
