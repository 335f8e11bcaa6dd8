-- ===== src/Server/Output.antt =====
-- What the server publishes, and that it is published once.
use dgnss_server.Common.{
  ℕ, ◌+◌, ◌*◌, ◌/◌, ◌≤◌, ◌<◌, ◌≡◌, inl, inr, refl, ap, subst, arith, true, some, List, [], ◌∷◌,
  ◌++◌, length, take, replicate, ltb, length-append, length-replicate, All, All-append,
}
use dgnss_server.Double.{Double}
use dgnss_server.Assist.Publish.{IsAssist, IsPublished, IsData}
use dgnss_server.Assist.Rtcm3.{IsRtcm3}
use dgnss_server.Comn.Memory.{blit, take-blit}
use dgnss_server.Comn.Base64
use dgnss_server.Comn.Base64.RoundTrip.{decode-encode}
use dgnss_server.Server.{
  UtcTm, Published, Processor, param_of, out_size, encoded, out_array, write_buffer, get_output,
  publish, send_output, handle_output,
}

-- The field that is sent for up to 1797 bytes.
pub field_lem :
    (bytes : List ℕ)
    → All (λ (x : ℕ). x < 256) bytes
    → length bytes ≤ 1797
    → let n = (length bytes + 2) / 3 * 4 + 1 in
      (text : List ℕ) × (write_buffer (encoded n bytes) n ≡ text ++ (0 ∷ []))
      × (length text ≡ (length bytes + 2) / 3 * 4)
      × (Base64.decode (length bytes) text ≡ some bytes)
unfolding write_buffer encoded out_array
field_lem bytes small few =
    let n = (length bytes + 2) / 3 * 4 + 1 in
    let (text, made, size, back) =
      decode-encode bytes n (length bytes) small (omega arith) (omega arith) (omega arith) in
    let positive : ltb 0 n ≡ true = ground arith in
    let long : length (text ++ (0 ∷ [])) ≡ n = omega (arith, length-append text (0 ∷ [])) in
    let fits =
      take-blit (replicate out_size 0) (text ++ (0 ∷ []))
        (omega (arith, length-replicate {A = ℕ} out_size 0)) in
    let array = ap out_array made in
    (
      text,
      rw (positive, array)
          (subst
            (λ (k : ℕ).
              take k (blit (replicate out_size 0) 0 (text ++ (0 ∷ []))) ≡ text ++ (0 ∷ []))
            long fits),
      size,
      back,
    )

-- What is sent: the Base64 text of three whole RTCM 3 messages, and an end mark.
pub record IsSent (m : Published) (refstat gps bds text : List ℕ) : Type 0 where
  pub refstat_message : IsRtcm3 1005 25 refstat
  pub gps_message : IsRtcm3 1074 564 gps
  pub bds_message : IsRtcm3 1124 564 bds
  pub field : m.aideph_gpsbds ≡ text ++ (0 ∷ [])
  pub short : length text ≤ 1540
  pub back : Base64.decode (length (refstat ++ gps ++ bds)) text ≡ some (refstat ++ gps ++ bds)

module _ {F : Type 0} ⦃d : Double F⦄ where
  -- The processor once its output has been taken.
  abbrev pub taken : Processor F → Processor F
  taken p = record p {
    assist = record p.assist { dgnss_dat = record p.assist.dgnss_dat { dgnss_flag = 0 } };
  }

  -- The message that is made of the three.
  abbrev pub message_of : UtcTm → ℕ → Processor F → Published
  message_of utc time p =
      let dat = p.assist.dgnss_dat in
      publish (taken p) time (param_of utc) (record {
        dgnss_flag = 1;
        dgnss_gps = dat.dgnss_gps;
        dgnss_bds = dat.dgnss_bds;
        dgnss_gpsbds = dat.dgnss_refstat ++ dat.dgnss_gps ++ dat.dgnss_bds;
      })

  pub handle_output_none :
      (utc : UtcTm) (time : ℕ) (p : Processor F)
      → p.assist.dgnss_dat.dgnss_flag ≡ 0
      → handle_output utc time p ≡ ([], p)
  unfolding handle_output get_output send_output
  handle_output_none utc time p e = rw e refl

  pub handle_output_once :
      (utc : UtcTm) (time : ℕ) (p : Processor F)
      → p.assist.dgnss_dat.dgnss_flag ≡ 1
      → handle_output utc time p ≡ (message_of utc time p ∷ [], taken p)
  unfolding handle_output get_output send_output
  handle_output_once utc time p e = rw e refl

  pub message_of-IsSent :
      (utc : UtcTm) (time : ℕ) (p : Processor F)
      → IsPublished p.assist.dgnss_dat
      → let dat = p.assist.dgnss_dat in
        (text : List ℕ) × IsSent
          (message_of utc time p)
          dat.dgnss_refstat
          dat.dgnss_gps
          dat.dgnss_bds
          text
  unfolding publish
  message_of-IsSent utc time p v =
      let dat = p.assist.dgnss_dat in
      let r = dat.dgnss_refstat in
      let g = dat.dgnss_gps in
      let all = r ++ g ++ dat.dgnss_bds in
      let size : length all ≤ 1153 = omega (
        arith,
        length-append (r ++ g) dat.dgnss_bds,
        length-append r g,
        v.refstat.fits,
        v.gps_message.fits,
        v.bds_message.fits,
      ) in
      let bytes =
        All-append (λ (x : ℕ). x < 256) (r ++ g) dat.dgnss_bds
          (All-append (λ (x : ℕ). x < 256) r g v.refstat.bytes v.gps_message.bytes)
          v.bds_message.bytes in
      let (text, made, length_is, back) = field_lem all bytes (omega arith) in
      (
        text,
        record {
          refstat_message = v.refstat;
          gps_message = v.gps_message;
          bds_message = v.bds_message;
          field = made;
          short = omega arith;
          back = back;
        },
      )

  pub taken-IsAssist : (p : Processor F) → IsAssist p.assist → IsAssist (taken p).assist
  taken-IsAssist p v = record {
    receiver = v.receiver;
    station_buffer = v.station_buffer;
    gps_buffer = v.gps_buffer;
    bds_buffer = v.bds_buffer;
    data_is = inl refl;
  }

  -- A processor in a well-formed state whose flag is set sends one message: its field is the Base64
  -- text, with the end mark behind it, of the station message, the GPS message and the BeiDou
  -- message, one after the other, which `decode` gives back. The text has at most 1540 characters.
  -- The flag is cleared and nothing else changed, so that nothing is sent again before a byte comes
  -- in.
  pub handle_output-IsSent :
      (utc : UtcTm) (time : ℕ) (p : Processor F)
      → IsAssist p.assist
      → p.assist.dgnss_dat.dgnss_flag ≡ 1
      → let dat = p.assist.dgnss_dat in
        let (sent, p') = handle_output utc time p in
        ((m : Published) × (text : List ℕ) × (sent ≡ m ∷ [])
          × IsSent m dat.dgnss_refstat dat.dgnss_gps dat.dgnss_bds text)
        × (p' ≡ record p { assist = record p.assist { dgnss_dat = record dat { dgnss_flag = 0 } } })
        × ((later : UtcTm) (time' : ℕ) → handle_output later time' p' ≡ ([], p'))
  handle_output-IsSent utc time p v e =
      let once = handle_output_once utc time p e in
      let (text, sent) = message_of-IsSent utc time p (published v.data_is) in
      rw once (
        (message_of utc time p, text, refl, sent),
        refl,
        λ later time'. handle_output_none later time' (taken p) refl,
      )
    where
      published : IsData p.assist.dgnss_dat → IsPublished p.assist.dgnss_dat
      published (inl zero_flag) = absurd (omega (arith, e))
      published (inr w) = w
