-- ===== src/Server/Events.antt =====
-- The server over any sequence of messages and timers.
use mathlib.Core.Option
use dgnss_server.Common.{
  ℕ, ◌≡◌, inl, inr, refl, ap, arith, false, none, some, List, [], ◌∷◌, ◌++◌, ◌==◌, All, All-append,
  Bool-cases, if_holds, ==_iff,
}
use dgnss_server.Double.{Double}
use dgnss_server.Time.{GTime}
use dgnss_server.Bits.Byte.{IsBytes}
use dgnss_server.Assist.{Assist}
use dgnss_server.Assist.Publish.{IsAssist, IsPublished, IsData, assist_data_input-IsAssist}
use dgnss_server.Assist.Init.{assist_data_init-IsAssist}
use dgnss_server.Comn.Text.{same_text}
use dgnss_server.Server.{
  AgnssFrameHeader, UtcTm, Published, Processor, tag_status, tag_data, handle_output, get_output,
  on_timer, before, find, put, AgnssParam, DgnssDatAll, param_of, send_output, processor_for,
  create_data_processor, input, handle_capture_data, handle_capture_message, receive,
}
use dgnss_server.Server.Output.{
  IsSent, handle_output_none, handle_output_once, message_of-IsSent, taken-IsAssist,
}

-- A message of the capture side with its parts, or the timer.
pub data Event (F : Type 0) : Type 0 where
  arrived : GTime F → List (List ℕ) → Event F
  fired : UtcTm → ℕ → Event F

-- A station message, a GPS message and a BeiDou message, of the types 1005, 1074 and 1124, are sent.
abbrev pub IsSentMessage : Published → Type 0
IsSentMessage m =
    (refstat : List ℕ) × (gps : List ℕ) × (bds : List ℕ) × (text : List ℕ) × IsSent m refstat gps
      bds text

module _ {F : Type 0} where
  -- The parts of the messages are bytes.
  abbrev pub AreBytes : List (Event F) → Type 0
  AreBytes [] = Unit
  AreBytes (arrived now parts ∷ es) = All IsBytes parts × AreBytes es
  AreBytes (fired utc time ∷ es) = AreBytes es

  module _ (P : Processor F → Type 0) where
    All-put : (p : Processor F) (ps : List (Processor F)) → P p → All P ps → All P (put p ps)
    unfolding put
    All-put p [] h k = (h, tt)
    All-put p (q ∷ qs) h k =
        if_holds (All P) (same_text q.device p.device) _ _ (h, k.1)
          (if_holds (All P) (before p.device q.device) _ _ (h, k) (k.0, All-put p qs h k.1))

    abbrev Found : Option.Option (Processor F) → Type 0
    Found none = Unit
    Found (some p) = P p

    find-Found : (device : List ℕ) (ps : List (Processor F)) → All P ps → Found (find device ps)
    unfolding find
    find-Found device [] h = tt
    find-Found device (q ∷ qs) h =
        if_holds Found (same_text q.device device) _ _ h.0 (find-Found device qs h.1)

module _ {F : Type 0} ⦃d : Double F⦄ (to_header : List ℕ → AgnssFrameHeader) where
  -- The server over a sequence of events: what it publishes, and its processors.
  unfoldable pub run : List (Event F) → List (Processor F) → List Published × List (Processor F)
  run [] ps = ([], ps)
  run (arrived now parts ∷ es) ps = run es (receive to_header now parts ps)
  run (fired utc time ∷ es) ps =
      let (sent, ps') = on_timer utc time ps in
      let (later, rest) = run es ps' in (sent ++ later, rest)

module _ {F : Type 0} ⦃d : Double F⦄ where
  abbrev IsProcessor : Processor F → Type 0
  IsProcessor p = IsAssist p.assist

  get_output_other :
      (utc : UtcTm) (s : Assist F)
      → (s.dgnss_dat.dgnss_flag == 0) ≡ false
      → (s.dgnss_dat.dgnss_flag == 1) ≡ false
      → let dat = s.dgnss_dat in
        get_output utc s ≡ (
          some (
            param_of utc,
            record {
              dgnss_flag = 0;
              dgnss_gps = dat.dgnss_gps;
              dgnss_bds = dat.dgnss_bds;
              dgnss_gpsbds = dat.dgnss_refstat ++ dat.dgnss_gps ++ dat.dgnss_bds;
            },
          ),
          s,
        )
  unfolding get_output
  get_output_other utc s e f = rw (e, f) refl

  handle_output_other :
      (utc : UtcTm) (time : ℕ) (p : Processor F)
      → (p.assist.dgnss_dat.dgnss_flag == 0) ≡ false
      → (p.assist.dgnss_dat.dgnss_flag == 1) ≡ false
      → handle_output utc time p ≡ ([], p)
  unfolding handle_output send_output
  handle_output_other utc time p e f =
      ap
        (λ (r : Option.Option (AgnssParam × DgnssDatAll) × Assist F).
          (send_output (record p { assist = r.1 }) time r.0, record p { assist = r.1 }))
        (get_output_other utc p.assist e f)

  abbrev Outcome : List Published × Processor F → Type 0
  Outcome r = All IsSentMessage r.0 × IsProcessor r.1

  handle_output_lem :
      (utc : UtcTm) (time : ℕ) (p : Processor F)
      → IsProcessor p
      → Outcome (handle_output utc time p)
  handle_output_lem utc time p v =
      let flag = p.assist.dgnss_dat.dgnss_flag in
      elim (Bool-cases (flag == 0)) [
        | inl e ↦ rw (handle_output_none utc time p ((==_iff flag 0).0 e)) (tt, v)
        | inr e ↦ elim (Bool-cases (flag == 1)) [
          | inl f ↦
              let w = published e v.data_is in
              let (text, sent) = message_of-IsSent utc time p w in
              rw (handle_output_once utc time p ((==_iff flag 1).0 f))
                (((_, _, _, text, sent), tt), taken-IsAssist p v)
          | inr f ↦ rw (handle_output_other utc time p e f) (tt, v)
        ]
      ]
    where
      published :
          (p.assist.dgnss_dat.dgnss_flag == 0) ≡ false
          → IsData p.assist.dgnss_dat
          → IsPublished p.assist.dgnss_dat
      published e (inl zero_flag) = absurd (ground (arith, zero_flag, e))
      published e (inr w) = w

  on_timer_lem :
      (utc : UtcTm) (time : ℕ) (ps : List (Processor F))
      → All IsProcessor ps
      → let (sent, ps') = on_timer utc time ps in All IsSentMessage sent × All IsProcessor ps'
  unfolding on_timer
  on_timer_lem utc time [] h = (tt, tt)
  on_timer_lem utc time (p ∷ ps) h =
      let (sent, v) = handle_output_lem utc time p h.0 in
      let (later, vs) = on_timer_lem utc time ps h.1 in
      (All-append IsSentMessage _ _ sent later, (v, vs))

  input-IsProcessor :
      (now : GTime F) (bytes : List ℕ) (p : Processor F)
      → IsBytes bytes
      → IsProcessor p
      → IsProcessor (input now bytes p)
  unfolding input
  input-IsProcessor now bytes p h v = assist_data_input-IsAssist now p.assist bytes h v

  processor_for-IsProcessor :
      (header : AgnssFrameHeader) (found : Option.Option (Processor F))
      → Found IsProcessor found
      → IsProcessor (processor_for header found)
  unfolding processor_for create_data_processor
  processor_for-IsProcessor header none h = assist_data_init-IsAssist
  processor_for-IsProcessor header (some p) h = h

  handle_capture_data_lem :
      (now : GTime F) (header : AgnssFrameHeader) (bytes : List ℕ) (ps : List (Processor F))
      → IsBytes bytes
      → All IsProcessor ps
      → All IsProcessor (handle_capture_data now header bytes ps)
  unfolding handle_capture_data
  handle_capture_data_lem now header bytes ps h k =
      let v = processor_for-IsProcessor header _ (find-Found IsProcessor header.device ps k) in
      All-put IsProcessor _ ps (input-IsProcessor now bytes _ h v) k

  receive_lem :
      (to_header : List ℕ → AgnssFrameHeader) (now : GTime F) (parts : List (List ℕ))
      (ps : List (Processor F))
      → All IsBytes parts
      → All IsProcessor ps
      → All IsProcessor (receive to_header now parts ps)
  unfolding receive handle_capture_message
  receive_lem to_header now [] ps h k = k
  receive_lem to_header now (head ∷ []) ps h k = k
  receive_lem to_header now (head ∷ body ∷ []) ps h k =
      let header = to_header head in
      if_holds (All IsProcessor) (header.tag == tag_status) _ _ k (
        if_holds (All IsProcessor) (header.tag == tag_data) _ _
          (handle_capture_data_lem now header body ps h.1.0 k) k)
  receive_lem to_header now (head ∷ body ∷ more ∷ rest) ps h k = k

  -- Whatever messages come in, for whatever devices, and whenever the timer fires: from processors
  -- in well-formed states, as from none, the server publishes only messages whose field is the
  -- Base64 text, with an end mark behind it, of three messages of the types 1005 (the station),
  -- 1074 (GPS) and 1124 (BeiDou), in this order, each with the RTCM 3 preamble, its true length and
  -- its checksum, of at most 25, 564 and 564 bytes; and every processor stays well-formed.
  pub run-AreSent :
      (to_header : List ℕ → AgnssFrameHeader) (es : List (Event F)) (ps : List (Processor F))
      → AreBytes es
      → All (λ (p : Processor F). IsAssist p.assist) ps
      → let (sent, rest) = run to_header es ps in
        All IsSentMessage sent × All (λ (p : Processor F). IsAssist p.assist) rest
  unfolding run
  run-AreSent to_header [] ps h k = (tt, k)
  run-AreSent to_header (arrived now parts ∷ es) ps h k =
      run-AreSent to_header es _ h.1 (receive_lem to_header now parts ps h.0 k)
  run-AreSent to_header (fired utc time ∷ es) ps h k =
      let (sent, vs) = on_timer_lem utc time ps k in
      let (later, rest) = run-AreSent to_header es _ h vs in
      (All-append IsSentMessage _ _ sent later, rest)
