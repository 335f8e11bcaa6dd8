-- ===== src/Capture/Arrival.antt =====
-- What the server does with the messages of the capture program's sink.
use mathlib.Core.Option
use dgnss_server.Common.{
  ℕ, ◌≤◌, ◌<◌, ◌^◌, length, ◌≡◌, ◌⊎◌, inl, inr, refl, sym, ◌∙◌, ap, subst, arith, true, false, none,
  some, List, [], ◌∷◌, All, ◌==◌, if◌then◌else◌, Bool-cases,
}
use dgnss_server.Double.{Double}
use dgnss_server.Time.{GTime}
use dgnss_server.Assist.{Assist, assist_data_input}
use dgnss_server.Assist.Init.{assist_data_init}
use dgnss_server.Comn.Text.{same_text, same_text_refl}
use dgnss_server.Server.{
  AgnssFrameHeader, Processor, tag_status, tag_data, before, find, put, create_data_processor,
  input, processor_for, handle_capture_data, handle_capture_message, receive,
}
use dgnss_server.Capture.{SinkMessage}

-- The bytes of a message that are data.
abbrev pub data_of : SinkMessage → List ℕ
data_of m = if m.header.tag == tag_data then m.body else []

-- A header whose struct the server can read back: the name has fewer than 32 bytes and no zero,
-- and the numbers are those of an int and of a time_t.
pub record IsHeader (h : AgnssFrameHeader) : Type 0 where
  pub named : All (λ (c : ℕ). (1 ≤ c) × (c < 256)) h.device
  pub short : length h.device ≤ 31
  pub tag_in : h.tag < 2 ^ 31
  pub subtype_in : h.subtype < 2 ^ 31
  pub device_type_in : h.device_type < 2 ^ 31
  pub time_in : h.time < 2 ^ 63
  pub length_in : h.length_of < 2 ^ 31

-- A message of the device: a status or data.
pub record IsFrom (device : List ℕ) (m : SinkMessage) : Type 0 where
  pub name : m.header.device ≡ device
  pub header_fits : IsHeader m.header
  pub kind : (m.header.tag ≡ tag_status) ⊎ (m.header.tag ≡ tag_data)

module _ {F : Type 0} ⦃d : Double F⦄ where
  -- The state of the device's processor, of a new one where there is none.
  unfoldable pub assist_of : Option.Option (Processor F) → Assist F
  assist_of none = assist_data_init
  assist_of (some p) = p.assist

  find-put : (p : Processor F) (ps : List (Processor F)) → find p.device (put p ps) ≡ some p
  unfolding find put
  find-put p [] = rw (same_text_refl p.device) refl
  find-put p (q ∷ qs) = elim (Bool-cases (same_text q.device p.device)) [
    | inl e ↦ rw (e, same_text_refl p.device) refl
    | inr e ↦ elim (Bool-cases (before p.device q.device)) [
      | inl b ↦ rw (e, b, same_text_refl p.device) refl
      | inr b ↦ rw (e, b, e) (find-put p qs)
    ]
  ]

  abbrev pub Named : List ℕ → Option.Option (Processor F) → Type 0
  Named device none = Unit
  Named device (some p) = p.device ≡ device

  -- What the data of the messages makes of a state, with the clock at each message.
  unfoldable pub fed : (ℕ → GTime F) → List SinkMessage → Assist F → Assist F
  fed clock [] s = s
  fed clock (m ∷ ms) s = fed clock ms (assist_data_input (clock m.header.time) s (data_of m))

  -- The server over the messages of the sink, as structs that it reads back. Its clock is a
  -- function of the time at which a message was sent.
  unfoldable pub deliver :
      (AgnssFrameHeader → List ℕ)
      → (List ℕ → AgnssFrameHeader)
      → (ℕ → GTime F)
      → List SinkMessage
      → List (Processor F)
      → List (Processor F)
  deliver of_header to_header clock [] ps = ps
  deliver of_header to_header clock (m ∷ ms) ps =
      deliver of_header to_header clock ms
        (receive to_header (clock m.header.time) (of_header m.header ∷ m.body ∷ []) ps)

  -- How a device's processor follows from the one before a step.
  record Follows (now : GTime F) (device bytes : List ℕ) (ps ps' : List (Processor F))
      : Type 0 where
    named : Named device (find device ps')
    fed_is : assist_of (find device ps') ≡ assist_data_input now (assist_of (find device ps)) bytes

  processor_for_lem :
      (header : AgnssFrameHeader) (found : Option.Option (Processor F))
      → Named header.device found
      → ((processor_for header found).device ≡ header.device)
        × ((processor_for header found).assist ≡ assist_of found)
  unfolding processor_for create_data_processor assist_of
  processor_for_lem header none h = (refl, refl)
  processor_for_lem header (some p) h = (h, refl)

  handle_capture_data-Follows :
      (now : GTime F) (header : AgnssFrameHeader) (bytes : List ℕ) (ps : List (Processor F))
      → Named header.device (find header.device ps)
      → Follows now header.device bytes ps (handle_capture_data now header bytes ps)
  unfolding handle_capture_data
  handle_capture_data-Follows now header bytes ps h =
      let (name, state) = processor_for_lem header (find header.device ps) h in
      let p = input now bytes (processor_for header (find header.device ps)) in
      let p_name : p.device ≡ header.device = unfold input in name in
      let there : find header.device (put p ps) ≡ some p =
        subst (λ (device : List ℕ). find device (put p ps) ≡ some p) p_name (find-put p ps) in
      record {
        named = subst (Named header.device) (sym there) p_name;
        fed_is =
            ap assist_of there
            ∙ (unfold assist_of in
                unfold input in ap (λ (s : Assist F). assist_data_input now s bytes) state);
      }

  module _ (of_header : AgnssFrameHeader → List ℕ) (to_header : List ℕ → AgnssFrameHeader)
      (back : (h : AgnssFrameHeader) → IsHeader h → to_header (of_header h) ≡ h) where
    received-Follows :
        (now : GTime F) (device : List ℕ) (m : SinkMessage) (ps : List (Processor F))
        → IsFrom device m
        → Named device (find device ps)
        → Follows now device
            (data_of m)
            ps
            (receive to_header now (of_header m.header ∷ m.body ∷ []) ps)
    unfolding receive
    received-Follows now device m ps f h =
        subst
          (λ (header : AgnssFrameHeader).
            Follows now device (data_of m) ps (handle_capture_message now header m.body ps))
          (sym (back m.header f.header_fits)) (handled f.kind)
      where
        handled :
            (m.header.tag ≡ tag_status) ⊎ (m.header.tag ≡ tag_data)
            → Follows now device (data_of m) ps (handle_capture_message now m.header m.body ps)
        handled (inl e) =
            let status : (m.header.tag == tag_status) ≡ true = ground (arith, e) in
            let no_data : (m.header.tag == tag_data) ≡ false = ground (arith, e) in
            unfold handle_capture_message in
            rw (status, no_data) (record { named = h; fed_is = unfold assist_data_input in refl })
        handled (inr e) =
            let no_status : (m.header.tag == tag_status) ≡ false = ground (arith, e) in
            let some_data : (m.header.tag == tag_data) ≡ true = ground (arith, e) in
            unfold handle_capture_message in
            rw (no_status, some_data)
              (subst
                (λ (name : List ℕ).
                  Named name (find name ps)
                  → Follows now name m.body ps (handle_capture_data now m.header m.body ps))
                f.name (handle_capture_data-Follows now m.header m.body ps) h)

    pub deliver_lem :
        (clock : ℕ → GTime F) (device : List ℕ) (ms : List SinkMessage) (ps : List (Processor F))
        → All (IsFrom device) ms
        → Named device (find device ps)
        → assist_of (find device (deliver of_header to_header clock ms ps))
          ≡ fed clock ms (assist_of (find device ps))
    unfolding deliver fed
    deliver_lem clock device [] ps from h = refl
    deliver_lem clock device (m ∷ ms) ps from h =
        let f = received-Follows (clock m.header.time) device m ps from.0 h in
        deliver_lem clock device ms _ from.1 f.named ∙ ap (fed clock ms) f.fed_is
