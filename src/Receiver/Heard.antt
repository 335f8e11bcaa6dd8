-- ===== src/Receiver/Heard.antt =====
-- What stands in the stream of bytes where input_oem4 reports a range message.
use mathlib.Core.List.{append_assoc}
use dgnss_server.Common.{
  ℕ, ◌+◌, ◌≤◌, ◌<◌, ◌≡◌, ◌≢◌, ◌⊎◌, inl, inr, refl, sym, ◌∙◌, subst, ◌-◌, arith, true, false, ◌&&◌,
  ◌||◌, ltb, ◌==◌, if◌then◌else◌, List, [], ◌∷◌, ◌++◌, length, take, set, length-set, length-take,
  Bool-cases,
}
use dgnss_server.Common.Int.{ℤ, pos, negsuc}
use dgnss_server.Double.{Double}
use dgnss_server.Time.{GTime}
use dgnss_server.Bits.{byte_at, u2, u4}
use dgnss_server.Bits.Byte.{IsBytes}
use dgnss_server.Crc.{crc32}
use dgnss_server.Receiver.{
  Raw, input_oem4, decode_oem4, oem4_sync1, oem4_hlen, max_raw_len, id_range,
}
use dgnss_server.Receiver.Frame.{
  Framing, framing, IsFraming, framing-decode_oem4, complete, nbyte-lt,
}
use dgnss_server.Receiver.Delivery.{step_idle}
use dgnss_server.Receiver.Safety.{IsReceiver, input_oem4-IsReceiver, decode_oem4_43}
use dgnss_server.Receiver.Known.{
  IsRangeMessage, byte_at-take, u2-take, u4-take, crc32_loop-take, IsSynced, IsInside, IsAwaiting,
  sync_oem4-IsKnown, synced-IsAwaiting, longer-IsInside, IsHeard, IsKnown, stale,
}

header_only :
    (n size : ℕ) → (n == 10) ≡ true → (ltb n 10 || ltb n (size + oem4_hlen + 4)) ≡ false → ⊥
header_only n size e g = ground (arith, e, g)

no_more :
    (n len : ℕ)
    → (n + 1 == 10) ≡ false
    → (n < 10) ⊎ ((n < len + 4) × (len ≤ max_raw_len - 4))
    → (ltb (n + 1) 10 || ltb (n + 1) (len + 4)) ≡ false
    → n + 1 ≡ len + 4
no_more n len e room g = ground (arith, e, room, g)

module _ {F : Type 0} ⦃d : Double F⦄ (now : GTime F) where
  -- The three ends of `input_oem4` inside a message.
  module _ (raw : Raw F) (b : ℕ) (inside : (raw.nbyte == 0) ≡ false) where
    abbrev next : Framing
    next = record {
      buff = set raw.buff raw.nbyte b;
      nbyte = raw.nbyte + 1;
      len = if raw.nbyte + 1 == 10 then u2 (set raw.buff raw.nbyte b) 8 + oem4_hlen else raw.len;
    }

    given_up :
        ((raw.nbyte + 1 == 10) && ltb (max_raw_len - 4) next.len) ≡ true
        → input_oem4 now raw b
          ≡ (negsuc 0, record raw { buff = next.buff; nbyte = 0; len = next.len })
    unfolding input_oem4
    given_up e = rw (inside, e) refl

    going_on :
        ((raw.nbyte + 1 == 10) && ltb (max_raw_len - 4) next.len) ≡ false
        → (ltb (raw.nbyte + 1) 10 || ltb (raw.nbyte + 1) (next.len + 4)) ≡ true
        → input_oem4 now raw b
          ≡ (pos 0, record raw { buff = next.buff; nbyte = next.nbyte; len = next.len })
    unfolding input_oem4
    going_on e f = rw (inside, e, f) refl

    at_end :
        ((raw.nbyte + 1 == 10) && ltb (max_raw_len - 4) next.len) ≡ false
        → (ltb (raw.nbyte + 1) 10 || ltb (raw.nbyte + 1) (next.len + 4)) ≡ false
        → input_oem4 now raw b ≡ decode_oem4 now (complete now raw b)
    unfolding input_oem4
    at_end e f = rw (inside, e, f) refl

  -- The whole message lies at the start of the buffer.
  message-IsRangeMessage :
      (buff : List ℕ) (n len : ℕ)
      → n ≤ length buff
      → IsSynced buff
      → n ≡ len + 4
      → len ≡ u2 buff 8 + oem4_hlen
      → u2 buff 4 ≡ id_range
      → crc32 buff len ≡ u4 buff len
      → IsRangeMessage (take n buff)
  unfolding crc32
  message-IsRangeMessage buff n len fits v end at kind checked =
      let announced : u2 (take n buff) 8 ≡ u2 buff 8 = u2-take buff n 8 (omega arith) in
      let same : u2 (take n buff) 8 + oem4_hlen ≡ len = omega arith in
      record {
        sync1 = byte_at-take buff n 0 (omega arith) ∙ v.sync1;
        sync2 = byte_at-take buff n 1 (omega arith) ∙ v.sync2;
        sync3 = byte_at-take buff n 2 (omega arith) ∙ v.sync3;
        kind = u2-take buff n 4 (omega arith) ∙ kind;
        whole = omega (arith, length-take n buff);
        checked = rw same (
            crc32_loop-take buff n len 0 0 (omega arith)
            ∙ checked
            ∙ sym (u4-take buff n len (omega arith)));
      }

  -- What a byte does to what is known, and what stands behind a return of 43.
  abbrev IsStep : ℤ × Raw F → List ℕ → Type 0
  IsStep (ret, raw) heard = IsKnown (framing raw) heard × (ret ≡ pos 43 → IsHeard heard)

  not_43 : (z : ℤ) → (z ≡ pos 0) ⊎ (z ≡ negsuc 0) → (heard : List ℕ) → z ≡ pos 43 → IsHeard heard
  not_43 z (inl e) heard h = absurd (cc)
  not_43 z (inr e) heard h = absurd (cc)

  module _ (raw : Raw F) (heard : List ℕ) (b : ℕ) (w : IsFraming (framing raw))
      (room : raw.nbyte < length raw.buff) where
    awaiting-IsStep :
        raw.nbyte ≡ 0 → IsAwaiting raw.buff heard → IsStep (input_oem4 now raw b) (heard ++ b ∷ [])
    awaiting-IsStep e a = rw (step_idle now raw b e) (
      sync_oem4-IsKnown raw.buff heard b raw.len (omega (arith, w.whole_buff)) a,
      λ h. not_43 (pos 0) (inl refl) (heard ++ b ∷ []) h,
    )

    -- The byte that ends a message is the last one of its checksum.
    last_byte :
        (inside : (raw.nbyte == 0) ≡ false)
        → let f = next raw b inside in
          (ltb (raw.nbyte + 1) 10 || ltb (raw.nbyte + 1) (f.len + 4)) ≡ false
          → raw.nbyte + 1 ≡ f.len + 4
    last_byte inside g = elim (Bool-cases (raw.nbyte + 1 == 10)) [
      | inl e ↦ absurd (header_only (raw.nbyte + 1) (u2 (set raw.buff raw.nbyte b) 8) e (rw e at g))
      | inr e ↦ rw e (no_more raw.nbyte raw.len e w.room (rw e at g))
    ]

    known_len :
        {len : ℕ}
        → (ltb (raw.nbyte + 1) 10 || ltb (raw.nbyte + 1) (len + 4)) ≡ false
        → (raw.nbyte + 1 < 10) ⊎ (len ≡ u2 (set raw.buff raw.nbyte b) 8 + oem4_hlen)
        → len ≡ u2 (set raw.buff raw.nbyte b) 8 + oem4_hlen
    known_len g (inl few) = absurd (ground (arith, g, few))
    known_len g (inr e) = e

    inside-IsStep : IsInside (framing raw) heard → IsStep (input_oem4 now raw b) (heard ++ b ∷ [])
    inside-IsStep v =
        let inside : (raw.nbyte == 0) ≡ false = ground (arith, v.started) in
        let f = next raw b inside in
        let more = longer-IsInside (framing raw) heard b v room in
        let guard = (raw.nbyte + 1 == 10) && ltb (max_raw_len - 4) f.len in
        let goes = ltb (raw.nbyte + 1) 10 || ltb (raw.nbyte + 1) (f.len + 4) in
        let over = inl (refl, synced-IsAwaiting f.buff (heard ++ b ∷ []) more.synced) in
        elim (Bool-cases guard) [
          | inl e ↦
              rw (given_up raw b inside e)
                (over, λ h. not_43 (negsuc 0) (inr refl) (heard ++ b ∷ []) h)
          | inr e ↦ elim (Bool-cases goes) [
            | inl g ↦
                rw (going_on raw b inside e g)
                  (inr more, λ h. not_43 (pos 0) (inl refl) (heard ++ b ∷ []) h)
            | inr g ↦ rw (at_end raw b inside e g) (
              subst (λ (t : Framing). IsKnown t (heard ++ b ∷ []))
                  (sym (framing-decode_oem4 now (complete now raw b))) over,
              λ h.
                  let checked = decode_oem4_43 now (complete now raw b) h in
                  (
                    more.before,
                    take (raw.nbyte + 1) f.buff,
                    more.ends,
                    message-IsRangeMessage f.buff (raw.nbyte + 1) f.len
                        (rw length-set (omega arith)) more.synced (last_byte inside g)
                        (known_len g more.len_is) checked.1 checked.0,
                  ),
            )
          ]
        ]

  -- The state after the bytes of a stream.
  unfoldable pub listen : Raw F → List ℕ → Raw F
  listen raw [] = raw
  listen raw (b ∷ bs) = listen (input_oem4 now raw b).1 bs

  byte-IsStep :
      (raw : Raw F) (heard : List ℕ) (b : ℕ)
      → IsReceiver raw
      → IsKnown (framing raw) heard
      → IsStep (input_oem4 now raw b) (heard ++ b ∷ [])
  byte-IsStep raw heard b v (inl (e, a)) =
      awaiting-IsStep raw heard b v.frame (nbyte-lt now raw v.frame) e a
  byte-IsStep raw heard b v (inr i) = inside-IsStep raw heard b v.frame (nbyte-lt now raw v.frame) i

  listen-known :
      (raw : Raw F) (heard bs : List ℕ) (b : ℕ)
      → IsBytes bs
      → IsReceiver raw
      → IsKnown (framing raw) heard
      → (input_oem4 now (listen raw bs) b).0 ≡ pos 43
      → IsHeard (heard ++ (bs ++ b ∷ []))
  unfolding listen
  listen-known raw heard [] b small v known ret = (byte-IsStep raw heard b v known).1 ret
  listen-known raw heard (c ∷ cs) b small v known ret =
      subst IsHeard (append_assoc heard (c ∷ []) (cs ++ b ∷ [])) (
        listen-known (input_oem4 now raw c).1 (heard ++ c ∷ []) cs b small.1
          (input_oem4-IsReceiver now raw c small.0 v) (byte-IsStep raw heard c v known).0 ret)

  -- From a well-formed state that awaits the sync bytes, with none of the first one in the buffer:
  -- whatever bytes come, when `input_oem4` returns 43 on a byte, the stream ends with this byte in
  -- a whole range message, with the sync bytes, the length that it announces, and the CRC of all
  -- bytes in front of its checksum.
  pub listen-IsHeard :
      (raw : Raw F) (bs : List ℕ) (b : ℕ)
      → IsReceiver raw
      → raw.nbyte ≡ 0
      → byte_at raw.buff 1 ≢ oem4_sync1
      → byte_at raw.buff 2 ≢ oem4_sync1
      → IsBytes bs
      → (input_oem4 now (listen raw bs) b).0 ≡ pos 43
      → IsHeard (bs ++ b ∷ [])
  listen-IsHeard raw bs b v idle no_first no_second small ret =
      listen-known raw [] bs b small v (inl (idle, stale no_first no_second)) ret
