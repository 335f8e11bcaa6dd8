-- ===== src/Receiver/Delivery.antt =====
-- A whole frame, fed byte by byte to input_oem4 while it awaits a message.
use dgnss_server.Common.{
  ℕ, zero, suc, ◌+◌, ◌-◌, ◌≤◌, ◌<◌, ◌≡◌, ◌≢◌, ◌⊎◌, refl, sym, ap, ◌∙◌, arith, true, false, List, [],
  ◌∷◌, ◌++◌, get_or, set, length, drop, replicate, if◌then◌else◌, ltb, ◌==◌, length-append,
}
use mathlib.Core.List.{append_assoc}
use dgnss_server.Common.Int.{ℤ, pos}
use dgnss_server.Double.{Double}
use dgnss_server.Time.{GTime}
use dgnss_server.Bits.{u2}
use dgnss_server.Receiver.{
  Raw, sync_oem4, input_oem4, decode_oem4, oem4_hlen, max_raw_len, oem4_sync1, oem4_sync2,
  oem4_sync3,
}

module _ {ℓ} {A : Type ℓ} where
  set-append :
      (p : List A) (x : A) (xs : List A) (v : A) → set (p ++ x ∷ xs) (length p) v ≡ p ++ v ∷ xs
  set-append [] x xs v = refl
  set-append (y ∷ p) x xs v = ap (λ t. y ∷ t) (set-append p x xs v)

  get_or-append :
      (p xs : List A) (i : ℕ) (a : A) → i < length p → get_or (p ++ xs) i a ≡ get_or p i a
  get_or-append [] xs i a h = elim h [ ]
  get_or-append (y ∷ p) xs zero a h = refl
  get_or-append (y ∷ p) xs (suc i) a h = get_or-append p xs i a (omega arith)

u2-append : (p xs : List ℕ) (i : ℕ) → i + 1 < length p → u2 (p ++ xs) i ≡ u2 p i
unfolding u2
u2-append p xs i h = rw (get_or-append p xs i 0 (omega arith), get_or-append p xs (i + 1) 0 h)

module _ (x y z : ℕ) (t : List ℕ) where
  shift_first : sync_oem4 (x ∷ y ∷ z ∷ t) oem4_sync1 ≡ (false, y ∷ z ∷ oem4_sync1 ∷ t)
  unfolding sync_oem4
  shift_first = ground arith

shift_second :
    (y z : ℕ) (t : List ℕ)
    → sync_oem4 (y ∷ z ∷ oem4_sync1 ∷ t) oem4_sync2 ≡ (false, z ∷ oem4_sync1 ∷ oem4_sync2 ∷ t)
unfolding sync_oem4
shift_second y z t = ground arith

shift_third :
    (z : ℕ) (t : List ℕ)
    → sync_oem4 (z ∷ oem4_sync1 ∷ oem4_sync2 ∷ t) oem4_sync3
      ≡ (true, oem4_sync1 ∷ oem4_sync2 ∷ oem4_sync3 ∷ t)
unfolding sync_oem4
shift_third z t = refl

module _ {F : Type 0} ⦃d : Double F⦄ (now : GTime F) where
  -- The returns of `input_oem4` on the bytes of a list, and the state after them.
  pub feed : Raw F → List ℕ → List ℤ × Raw F
  feed raw [] = ([], raw)
  feed raw (b ∷ bs) =
      let (r, raw') = input_oem4 now raw b in let (rs, end) = feed raw' bs in (r ∷ rs, end)

  feed-cons :
      (raw raw' : Raw F) (b : ℕ) (bs : List ℕ) (r : ℤ) {rs : List ℤ} {end : Raw F}
      → input_oem4 now raw b ≡ (r, raw')
      → feed raw' bs ≡ (rs, end)
      → feed raw (b ∷ bs) ≡ (r ∷ rs, end)
  unfolding feed
  feed-cons raw raw' b bs r h k = rw (h, k)

  feed-one :
      (raw : Raw F) (b : ℕ)
      → let (r, raw') = input_oem4 now raw b in feed raw (b ∷ []) ≡ (r ∷ [], raw')
  unfolding feed
  feed-one raw b = refl

  -- While a message is awaited.
  pub step_idle :
      (raw : Raw F) (b : ℕ)
      → raw.nbyte ≡ 0
      → let (synced, buff) = sync_oem4 raw.buff b in
        input_oem4 now raw b ≡ (pos 0, record raw { buff = buff; nbyte = if synced then 3 else 0 })
  unfolding input_oem4
  step_idle raw b e = ground arith

  -- A byte inside a message.
  step_more :
      (raw : Raw F) (b : ℕ) (p : List ℕ) (x : ℕ) (xs : List ℕ) (len : ℕ)
      → raw.buff ≡ p ++ x ∷ xs
      → raw.nbyte ≡ length p
      → 3 ≤ length p
      → (length p + 1 ≡ 10 → (u2 (p ++ b ∷ xs) 8 + oem4_hlen ≡ len) × (len ≤ max_raw_len - 4))
      → (length p + 1 ≢ 10 → raw.len ≡ len)
      → (length p + 1 < 10) ⊎ (length p + 1 < len + 4)
      → input_oem4 now raw b
        ≡ (pos 0, record raw { buff = p ++ b ∷ xs; nbyte = length p + 1; len = len })
  unfolding input_oem4
  step_more raw b p x xs len e n three ten other more =
      ground (arith, set-append p x xs b, ap (λ (t : List ℕ). set t raw.nbyte b) e, nth_byte)
    where
      nth_byte : (raw.nbyte + 1 == 10) ≡ (length p + 1 == 10)
      nth_byte = rw n

  step_last :
      (raw : Raw F) (b : ℕ) (p : List ℕ) (x : ℕ) (xs : List ℕ) (len : ℕ)
      → raw.buff ≡ p ++ x ∷ xs
      → raw.nbyte ≡ length p
      → 10 ≤ length p
      → raw.len ≡ len
      → length p + 1 ≡ len + 4
      → input_oem4 now raw b
        ≡ decode_oem4 now (record raw { buff = p ++ b ∷ xs; nbyte = 0; len = len })
  unfolding input_oem4
  step_last raw b p x xs len e n ten l end =
      ground (arith, set-append p x xs b, ap (λ (t : List ℕ). set t raw.nbyte b) e)

  module _ (frame : List ℕ) (len : ℕ) (announced : u2 frame 8 + oem4_hlen ≡ len)
      (fits : len ≤ max_raw_len - 4) (whole : length frame ≡ len + 4) where
    abbrev delivered : Raw F → List ℕ → ℤ × Raw F
    delivered raw tail = decode_oem4 now (record raw { buff = frame ++ tail; nbyte = 0; len = len })

    -- The length that the state holds after a byte that is not the last.
    abbrev known_len : Raw F → ℕ → ℕ
    known_len raw n = if ltb n 10 then raw.len else len

    next_header :
        (p s xs : List ℕ) (b : ℕ)
        → p ++ b ∷ s ≡ frame
        → length p + 1 ≡ 10
        → u2 (p ++ b ∷ xs) 8 ≡ u2 frame 8
    next_header p s xs b e ten =
        let long : 8 + 1 < length (p ++ b ∷ []) = rw length-append (omega arith) in
        rw (← e, ← append_assoc p (b ∷ []) xs, ← append_assoc p (b ∷ []) s)
          (u2-append (p ++ b ∷ []) xs 8 long ∙ sym (u2-append (p ++ b ∷ []) s 8 long))

    feed_rest :
        (s : List ℕ) (b : ℕ) (p tail : List ℕ) (raw : Raw F)
        → p ++ b ∷ s ≡ frame
        → raw.buff ≡ p ++ tail
        → length s < length tail
        → raw.nbyte ≡ length p
        → 3 ≤ length p
        → (10 ≤ length p → raw.len ≡ len)
        → feed raw (b ∷ s) ≡ (
          replicate (length s) (pos 0) ++ (delivered raw (drop (suc (length s)) tail)).0 ∷ [],
          (delivered raw (drop (suc (length s)) tail)).1,
        )
    feed_rest s b p [] raw e at room n three l = absurd (omega arith)
    feed_rest [] b p (x ∷ xs) raw e at room n three l =
        let size : length p + 1 ≡ len + 4 = sym (length-append p (b ∷ [])) ∙ ap length e ∙ whole in
        let ten : 10 ≤ length p = omega arith in
        let joined : p ++ b ∷ xs ≡ frame ++ xs =
          sym (append_assoc p (b ∷ []) xs) ∙ ap (λ (t : List ℕ). t ++ xs) e in
        feed-one raw b ∙ rw (step_last raw b p x xs len at n ten (l ten) size, joined)
    feed_rest (c ∷ s) b p (x ∷ xs) raw e at room n three l =
        let size : length p + suc (suc (length s)) ≡ len + 4 =
          sym (length-append p (b ∷ c ∷ s)) ∙ ap length e ∙ whole in
        let p' = p ++ b ∷ [] in
        let longer : length p' ≡ length p + 1 = length-append p (b ∷ []) in
        let raw' : Raw F = record raw {
          buff = p ++ b ∷ xs;
          nbyte = length p + 1;
          len = known_len raw (length p + 1);
        } in
        let step : input_oem4 now raw b ≡ (pos 0, raw') =
          step_more raw b p x xs (known_len raw (length p + 1)) at n three
            (λ ten. ground (arith, next_header p (c ∷ s) xs b e ten)) (λ other. ground (arith, l))
            (ground arith) in
        let rest =
          feed_rest s c p' xs raw' (append_assoc p (b ∷ []) (c ∷ s) ∙ e)
            (sym (append_assoc p (b ∷ []) xs)) (omega arith) (sym longer) (omega arith)
            (λ h. ground arith) in
        feed-cons raw raw' b (c ∷ s) (pos 0) step rest

    module _ (b : ℕ) (s : List ℕ) (raw : Raw F)
        (synced : frame ≡ oem4_sync1 ∷ oem4_sync2 ∷ oem4_sync3 ∷ b ∷ s) (idle : raw.nbyte ≡ 0) where
      after_sync :
          (buff : List ℕ)
          → raw.buff ≡ buff
          → length buff ≡ max_raw_len
          → feed raw frame ≡ (
            pos 0
                ∷ pos 0
                ∷ pos 0
                ∷ (replicate (length s) (pos 0)
                    ++ (delivered raw (drop (length frame) buff)).0 ∷ []),
            (delivered raw (drop (length frame) buff)).1,
          )
      after_sync [] at room = absurd (omega arith)
      after_sync (x ∷ []) at room = absurd (omega arith)
      after_sync (x ∷ y ∷ []) at room = absurd (omega arith)
      after_sync (x ∷ y ∷ z ∷ t) at room =
          let long : suc (suc (suc (suc (length s)))) ≡ len + 4 = sym (ap length synced) ∙ whole in
          let raw1 : Raw F = record raw { buff = y ∷ z ∷ oem4_sync1 ∷ t; nbyte = 0 } in
          let raw2 : Raw F = record raw { buff = z ∷ oem4_sync1 ∷ oem4_sync2 ∷ t; nbyte = 0 } in
          let raw3 : Raw F = record raw {
            buff = oem4_sync1 ∷ oem4_sync2 ∷ oem4_sync3 ∷ t;
            nbyte = 3;
          } in
          let step1 : input_oem4 now raw oem4_sync1 ≡ (pos 0, raw1) =
            step_idle raw oem4_sync1 idle ∙ rw (at, shift_first x y z t) in
          let step2 : input_oem4 now raw1 oem4_sync2 ≡ (pos 0, raw2) =
            step_idle raw1 oem4_sync2 refl ∙ rw (shift_second y z t) in
          let step3 : input_oem4 now raw2 oem4_sync3 ≡ (pos 0, raw3) =
            step_idle raw2 oem4_sync3 refl ∙ rw (shift_third z t) in
          let rest =
            feed_rest s b (oem4_sync1 ∷ oem4_sync2 ∷ oem4_sync3 ∷ []) t raw3 (sym synced) refl
              (omega arith) refl (omega arith) (λ h. absurd (omega arith)) in
          let left : drop (length frame) (x ∷ y ∷ z ∷ t) ≡ drop (suc (length s)) t = rw synced in
          ap (feed raw) synced
          ∙ feed-cons raw raw1 oem4_sync1 _ (pos 0) step1 (
              feed-cons raw1 raw2 oem4_sync2 _ (pos 0) step2
                (feed-cons raw2 raw3 oem4_sync3 _ (pos 0) step3 rest))
          ∙ rw left

      -- A message that is awaited from its first byte on, whose first three bytes are the sync
      -- bytes and whose length is the one that it announces, within the buffer: every byte but the
      -- last returns 0, and the last returns what `decode_oem4` does on the whole message, which
      -- lies at the start of the buffer.
      pub feed_frame :
          length raw.buff ≡ max_raw_len
          → feed raw frame ≡ (
            pos 0
                ∷ pos 0
                ∷ pos 0
                ∷ (replicate (length s) (pos 0)
                    ++ (delivered raw (drop (length frame) raw.buff)).0 ∷ []),
            (delivered raw (drop (length frame) raw.buff)).1,
          )
      feed_frame room = after_sync raw.buff refl room
