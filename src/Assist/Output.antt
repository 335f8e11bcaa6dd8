-- ===== src/Assist/Output.antt =====
-- What AssistData_Input publishes after a byte, and when it publishes nothing.
use dgnss_server.Common.{
  ℕ, ◌<◌, ◌≡◌, ◌≢◌, ◌⊎◌, refl, ◌∙◌, ap, arith, false, true, length, ltb, ◌&&◌, not, inl, inr,
  Bool-cases,
}
use dgnss_server.Common.Int.{pos, eq_ℤ, eq_ℤ-eq, eq_ℤ-ne}
use dgnss_server.Double.{Double}
use dgnss_server.Time.{GTime}
use dgnss_server.Sat.{sys_gps, sys_cmp}
use dgnss_server.Receiver.{input_oem4, max_obs}
use dgnss_server.Receiver.Safety.{input_oem4-IsReceiver}
use dgnss_server.Rtcm.{Rtcm}
use dgnss_server.Rtcm.Msm.Size.{message_fields}
use dgnss_server.Rtcm.Message.{begin_message, gen_rtcm3, encode_type1005}
use dgnss_server.Rtcm.Message.Sent.{IsMessage, gps, cmp, gen_rtcm3-obs, gen_rtcm3-IsMessage}
use dgnss_server.Assist.{
  Assist, DgnssDat, raw2rtcm, publish, make_messages, clear_buffers, message, input_byte,
}
use dgnss_server.Assist.Publish.{IsAssist, IsPublished, IsData, raw2rtcm-buff, input_byte-IsAssist}
use dgnss_server.Assist.Split.{records, select, is_gps, raw2rtcm-records}

one_empty : (b g : ℕ) → (ltb 0 b && ltb 0 g) ≡ false → (g ≡ 0) ⊎ (b ≡ 0)
one_empty b g h = ground (arith, h)

published_dat : (dat : DgnssDat) → IsData dat → dat.dgnss_flag ≡ 1 → IsPublished dat
published_dat dat (inl e) flag = absurd (omega (arith, e, flag))
published_dat dat (inr p) flag = p

module _ {F : Type 0} ⦃d : Double F⦄ where
  -- The two outputs that `raw2rtcm` fills from the table that a byte leaves.
  abbrev pub outputs : GTime F → Assist F → ℕ → Rtcm F × Rtcm F
  outputs now s byte =
      raw2rtcm s.gps_dgnssdata s.bds_dgnssdata (input_oem4 now s.raw byte).1 (pos 43)

  -- The three messages after a range message.
  abbrev pub made_of : Assist F → Rtcm F × Rtcm F → DgnssDat
  made_of s (g, b) = record {
    dgnss_flag = 1;
    dgnss_refstat = message (encode_type1005 s.refstation).1;
    dgnss_gps = message (gen_rtcm3 g 1074 0).1;
    dgnss_bds = message (gen_rtcm3 b 1124 1).1;
  }

  -- A byte that is answered by three whole messages: the messages 1074 and 1124 have the fields of
  -- the observations of GPS and of the others, in the order of the receiver's table.
  pub record IsAnswered (now : GTime F) (s : Assist F) (byte : ℕ) : Type 0 where
    pub reported : (input_oem4 now s.raw byte).0 ≡ pos 43
    pub some_gps : 0 < (outputs now s byte).0.obs.n
    pub some_bds : 0 < (outputs now s byte).1.obs.n
    pub published : (input_byte now s byte).dgnss_dat ≡ made_of s (outputs now s byte)
    pub whole : IsPublished (input_byte now s byte).dgnss_dat
    pub gps_records :
        records (outputs now s byte).0.obs
        ≡ select is_gps (records (input_oem4 now s.raw byte).1.obs)
    pub bds_records :
        records (outputs now s byte).1.obs
        ≡ select (λ o. not (is_gps o)) (records (input_oem4 now s.raw byte).1.obs)
    pub gps_fields :
        let g = (outputs now s byte).0 in
        IsMessage (message_fields 1074 (begin_message g) sys_gps 0) (gen_rtcm3 g 1074 0).1
    pub bds_fields :
        let b = (outputs now s byte).1 in
        IsMessage (message_fields 1124 (begin_message b) sys_cmp 1) (gen_rtcm3 b 1124 1).1

  -- A byte that ends no range message, or one without observations of a system.
  abbrev pub IsSilent : GTime F → Assist F → ℕ → Type 0
  IsSilent now s byte =
      ((input_oem4 now s.raw byte).0 ≢ pos 43)
      ⊎ (((outputs now s byte).0.obs.n ≡ 0) ⊎ ((outputs now s byte).1.obs.n ≡ 0))

  publish_both :
      (s : Assist F)
      → (ltb 0 s.bds_dgnssdata.obs.n && ltb 0 s.gps_dgnssdata.obs.n) ≡ true
      → (publish s).dgnss_dat ≡ record {
        dgnss_flag = 1;
        dgnss_refstat = message s.refstation;
        dgnss_gps = message s.gps_dgnssdata;
        dgnss_bds = message s.bds_dgnssdata;
      }
  unfolding publish
  publish_both s both = rw both refl

  publish_none :
      (s : Assist F)
      → (ltb 0 s.bds_dgnssdata.obs.n && ltb 0 s.gps_dgnssdata.obs.n) ≡ false
      → (publish s).dgnss_dat ≡ s.dgnss_dat
  unfolding publish
  publish_none s one = rw one refl

  make_messages-obs :
      (s : Assist F)
      → let (g, b) = raw2rtcm s.gps_dgnssdata s.bds_dgnssdata s.raw (pos 43) in
        ((make_messages s).gps_dgnssdata.obs ≡ g.obs)
        × ((make_messages s).bds_dgnssdata.obs ≡ b.obs)
  unfolding make_messages
  make_messages-obs s = (gen_rtcm3-obs gps _ 0, gen_rtcm3-obs cmp _ 1)

  module _ (now : GTime F) (s : Assist F) (byte : ℕ) where
    pub input_byte-both :
        eq_ℤ (input_oem4 now s.raw byte).0 (pos 43) ≡ true
        → (ltb 0 (outputs now s byte).1.obs.n && ltb 0 (outputs now s byte).0.obs.n) ≡ true
        → (input_byte now s byte).dgnss_dat ≡ made_of s (outputs now s byte)
    unfolding input_byte clear_buffers
    input_byte-both e both =
        let s' = record s { raw = (input_oem4 now s.raw byte).1 } in
        let same = make_messages-obs s' in
        rw e (
          publish_both (make_messages s') (rw (same.0, same.1) both)
          ∙ (unfold make_messages in refl))

    input_byte-one :
        eq_ℤ (input_oem4 now s.raw byte).0 (pos 43) ≡ true
        → (ltb 0 (outputs now s byte).1.obs.n && ltb 0 (outputs now s byte).0.obs.n) ≡ false
        → (input_byte now s byte).dgnss_dat ≡ s.dgnss_dat
    unfolding input_byte clear_buffers
    input_byte-one e one =
        let s' = record s { raw = (input_oem4 now s.raw byte).1 } in
        let same = make_messages-obs s' in
        rw e (
          publish_none (make_messages s') (rw (same.0, same.1) one)
          ∙ (unfold make_messages in refl))

    input_byte-other :
        eq_ℤ (input_oem4 now s.raw byte).0 (pos 43) ≡ false
        → (input_byte now s byte).dgnss_dat ≡ s.dgnss_dat
    unfolding input_byte
    input_byte-other e = rw e refl

    module _ (lt : byte < 256) (v : IsAssist s)
        (room_g : length s.gps_dgnssdata.obs.items ≡ max_obs)
        (room_b : length s.bds_dgnssdata.obs.items ≡ max_obs) where
      answered :
          eq_ℤ (input_oem4 now s.raw byte).0 (pos 43) ≡ true
          → (ltb 0 (outputs now s byte).1.obs.n && ltb 0 (outputs now s byte).0.obs.n) ≡ true
          → IsAnswered now s byte
      answered e both =
          let raw = (input_oem4 now s.raw byte).1 in
          let table = (input_oem4-IsReceiver now s.raw byte lt v.receiver).observed.table in
          let (of_gps, of_bds) =
            raw2rtcm-records s.gps_dgnssdata s.bds_dgnssdata raw room_g room_b table.size
              table.within in
          let same = raw2rtcm-buff s.gps_dgnssdata s.bds_dgnssdata raw in
          let made = input_byte-both e both in
          record {
            reported = eq_ℤ-eq _ (pos 43) e;
            some_gps = ground (arith, both);
            some_bds = ground (arith, both);
            published = made;
            whole =
                published_dat _ (input_byte-IsAssist now s byte lt v).data_is
                  (ap (λ (t : DgnssDat). t.dgnss_flag) made);
            gps_records = of_gps;
            bds_records = of_bds;
            gps_fields =
                (gen_rtcm3-IsMessage gps (outputs now s byte).0 0 (rw same.0 v.gps_buffer.bytes)
                  (rw same.0 v.gps_buffer.size)).1;
            bds_fields =
                (gen_rtcm3-IsMessage cmp (outputs now s byte).1 1 (rw same.1 v.bds_buffer.bytes)
                  (rw same.1 v.bds_buffer.size)).1;
          }

      -- From a well-formed state with room for 64 observations of each system, a byte that ends a
      -- range message after which there are observations of both systems is answered by the flag
      -- and three whole messages, of which the messages 1074 and 1124 have the fields of the
      -- observations of their system, in the order of the receiver's table. Any other byte leaves
      -- what is published as it is.
      pub input_byte-IsAnswered :
          IsAnswered now s byte
          ⊎ (IsSilent now s byte × ((input_byte now s byte).dgnss_dat ≡ s.dgnss_dat))
      input_byte-IsAnswered = elim (Bool-cases (eq_ℤ (input_oem4 now s.raw byte).0 (pos 43))) [
        | inl e ↦
            elim (Bool-cases
              (ltb 0 (outputs now s byte).1.obs.n && ltb 0 (outputs now s byte).0.obs.n)) [
                | inl both ↦ inl (answered e both)
                | inr one ↦ inr (inr (one_empty _ _ one), input_byte-one e one)
              ]
        | inr e ↦ inr (inl (eq_ℤ-ne _ (pos 43) e), input_byte-other e)
      ]
