-- ===== src/Receiver/Known.antt =====
-- What a stream of bytes has to do with the state of the frame machine of input_oem4.
use mathlib.Core.List.{append_assoc}
use dgnss_server.Common.{
  ℕ, zero, suc, ◌+◌, ◌≤◌, ◌<◌, ◌≡◌, ◌≢◌, ◌⊎◌, inl, inr, refl, sym, ◌∙◌, ap, arith, true, false,
  ◌&&◌, ltb, ◌==◌, if◌then◌else◌, List, [], ◌∷◌, ◌++◌, length, take, set, get_or-set_ne, Bool-cases,
}
use dgnss_server.Bits.{byte_at, u2, u4}
use dgnss_server.Crc.{crc32, crc32_loop}
use dgnss_server.Receiver.{sync_oem4, oem4_sync1, oem4_sync2, oem4_sync3, oem4_hlen, id_range}
use dgnss_server.Receiver.Frame.{Framing}

-- A whole range message: the sync bytes, the length that it announces, with the header and the
-- checksum, and the checksum of all bytes in front of it.
pub record IsRangeMessage (msg : List ℕ) : Type 0 where
  pub sync1 : byte_at msg 0 ≡ oem4_sync1
  pub sync2 : byte_at msg 1 ≡ oem4_sync2
  pub sync3 : byte_at msg 2 ≡ oem4_sync3
  pub kind : u2 msg 4 ≡ id_range
  pub whole : length msg ≡ u2 msg 8 + oem4_hlen + 4
  pub checked : crc32 msg (u2 msg 8 + oem4_hlen) ≡ u4 msg (u2 msg 8 + oem4_hlen)

-- The stream ends with a whole range message.
abbrev pub IsHeard : List ℕ → Type 0
IsHeard heard = (before : List ℕ) × (msg : List ℕ) × (heard ≡ before ++ msg) × IsRangeMessage msg

pub byte_at-take : (xs : List ℕ) (n j : ℕ) → j < n → byte_at (take n xs) j ≡ byte_at xs j
byte_at-take [] zero j h = absurd (omega arith)
byte_at-take [] (suc n) j h = refl
byte_at-take (x ∷ xs) zero j h = absurd (omega arith)
byte_at-take (x ∷ xs) (suc n) zero h = refl
byte_at-take (x ∷ xs) (suc n) (suc j) h = byte_at-take xs n j (omega arith)

pub u2-take : (xs : List ℕ) (n j : ℕ) → j + 2 ≤ n → u2 (take n xs) j ≡ u2 xs j
unfolding u2
u2-take xs n j h =
    rw (byte_at-take xs n j (omega arith), byte_at-take xs n (j + 1) (omega arith)) refl

pub u4-take : (xs : List ℕ) (n j : ℕ) → j + 4 ≤ n → u4 (take n xs) j ≡ u4 xs j
unfolding u4
u4-take xs n j h = rw (u2-take xs n j (omega arith), u2-take xs n (j + 2) (omega arith)) refl

pub crc32_loop-take :
    (xs : List ℕ) (n left i crc : ℕ)
    → i + left ≤ n
    → crc32_loop (take n xs) left i crc ≡ crc32_loop xs left i crc
unfolding crc32_loop
crc32_loop-take xs n zero i crc h = refl
crc32_loop-take xs n (suc left) i crc h =
    rw (byte_at-take xs n i (omega arith)) (crc32_loop-take xs n left (i + 1) _ (omega arith))

take-set : (xs : List ℕ) (n v : ℕ) → n < length xs → take (n + 1) (set xs n v) ≡ take n xs ++ v ∷ []
take-set [] n v h = absurd (omega arith)
take-set (x ∷ xs) zero v h = refl
take-set (x ∷ xs) (suc n) v h =
    let e : suc n + 1 ≡ suc (n + 1) = omega arith in
    rw e (ap (λ (t : List ℕ). x ∷ t) (take-set xs n v (omega arith)))

-- What the bytes so far have to do with the state of the frame machine: inside a message the
-- buffer starts with the last ones of them, and while the sync bytes are awaited, its second and
-- third byte are the last two of them, or cannot be the first sync byte.
pub record IsSynced (buff : List ℕ) : Type 0 where
  pub sync1 : byte_at buff 0 ≡ oem4_sync1
  pub sync2 : byte_at buff 1 ≡ oem4_sync2
  pub sync3 : byte_at buff 2 ≡ oem4_sync3

pub record IsInside (f : Framing) (heard : List ℕ) : Type 0 where
  pub started : 3 ≤ f.nbyte
  pub before : List ℕ
  pub ends : heard ≡ before ++ take f.nbyte f.buff
  pub synced : IsSynced f.buff
  pub len_is : (f.nbyte < 10) ⊎ (f.len ≡ u2 f.buff 8 + oem4_hlen)

pub data IsAwaiting (buff heard : List ℕ) : Type 0 where
  two :
      (before : List ℕ)
      → heard ≡ before ++ byte_at buff 1 ∷ byte_at buff 2 ∷ []
      → IsAwaiting buff heard
  one :
      (before : List ℕ)
      → heard ≡ before ++ byte_at buff 2 ∷ []
      → byte_at buff 1 ≢ oem4_sync1
      → IsAwaiting buff heard
  stale : byte_at buff 1 ≢ oem4_sync1 → byte_at buff 2 ≢ oem4_sync1 → IsAwaiting buff heard

abbrev pub IsKnown : Framing → List ℕ → Type 0
IsKnown f heard = ((f.nbyte ≡ 0) × IsAwaiting f.buff heard) ⊎ IsInside f heard

-- A byte while the sync bytes are awaited.
pub sync_oem4-IsKnown :
    (buff heard : List ℕ) (b len : ℕ)
    → 3 ≤ length buff
    → IsAwaiting buff heard
    → let (synced, buff') = sync_oem4 buff b in
      IsKnown
        (record { buff = buff'; nbyte = if synced then 3 else 0; len = len })
        (heard ++ b ∷ [])
unfolding sync_oem4
sync_oem4-IsKnown [] heard b len h w = absurd (omega arith)
sync_oem4-IsKnown (x ∷ []) heard b len h w = absurd (omega arith)
sync_oem4-IsKnown (x ∷ y ∷ []) heard b len h w = absurd (omega arith)
sync_oem4-IsKnown (x ∷ y ∷ z ∷ t) heard b len h w =
    elim (Bool-cases ((y == oem4_sync1) && (z == oem4_sync2) && (b == oem4_sync3))) [
      | inl e ↦ rw e (inr (begun e w))
      | inr e ↦ rw e (inl (refl, shifted w))
    ]
  where
    begun :
        ((y == oem4_sync1) && (z == oem4_sync2) && (b == oem4_sync3)) ≡ true
        → IsAwaiting (x ∷ y ∷ z ∷ t) heard
        → IsInside (record { buff = y ∷ z ∷ b ∷ t; nbyte = 3; len = len }) (heard ++ b ∷ [])
    begun e (two before at) = record {
      started = omega arith;
      before = before;
      ends = ap (λ (u : List ℕ). u ++ b ∷ []) at ∙ append_assoc before (y ∷ z ∷ []) (b ∷ []);
      synced = record {
        sync1 = ground (arith, e);
        sync2 = ground (arith, e);
        sync3 = ground (arith, e);
      };
      len_is = inl (omega arith);
    }
    begun e (one before at ne) = absurd (ne (ground (arith, e)))
    begun e (stale ne other) = absurd (ne (ground (arith, e)))

    shifted : IsAwaiting (x ∷ y ∷ z ∷ t) heard → IsAwaiting (y ∷ z ∷ b ∷ t) (heard ++ b ∷ [])
    shifted (two before at) = two (before ++ y ∷ []) (
        ap (λ (u : List ℕ). u ++ b ∷ []) at
        ∙ append_assoc before (y ∷ z ∷ []) (b ∷ [])
        ∙ sym (append_assoc before (y ∷ []) (z ∷ b ∷ [])))
    shifted (one before at ne) =
        two before (ap (λ (u : List ℕ). u ++ b ∷ []) at ∙ append_assoc before (z ∷ []) (b ∷ []))
    shifted (stale ne other) = one heard refl other

-- After a message, or one that is given up.
pub synced-IsAwaiting : (buff heard : List ℕ) → IsSynced buff → IsAwaiting buff heard
synced-IsAwaiting buff heard v =
    stale (λ e. absurd (omega (arith, v.sync2, e))) (λ e. absurd (omega (arith, v.sync3, e)))

-- A byte inside a message.
module _ (f : Framing) (heard : List ℕ) (b : ℕ) (v : IsInside f heard)
    (room : f.nbyte < length f.buff) where
  abbrev longer : Framing
  longer = record {
    buff = set f.buff f.nbyte b;
    nbyte = f.nbyte + 1;
    len = if f.nbyte + 1 == 10 then u2 (set f.buff f.nbyte b) 8 + oem4_hlen else f.len;
  }

  kept_byte : (j : ℕ) → j < f.nbyte → byte_at (set f.buff f.nbyte b) j ≡ byte_at f.buff j
  kept_byte j lt = get_or-set_ne f.buff f.nbyte j b 0 (λ e. absurd (omega (arith, e)))

  kept_len : 10 ≤ f.nbyte → u2 (set f.buff f.nbyte b) 8 ≡ u2 f.buff 8
  unfolding u2
  kept_len h = rw (kept_byte 8 (omega arith), kept_byte 9 (omega arith)) refl

  longer-IsSynced : IsSynced (set f.buff f.nbyte b)
  longer-IsSynced = record {
    sync1 = kept_byte 0 (omega (arith, v.started)) ∙ v.synced.sync1;
    sync2 = kept_byte 1 (omega (arith, v.started)) ∙ v.synced.sync2;
    sync3 = kept_byte 2 (omega (arith, v.started)) ∙ v.synced.sync3;
  }

  longer-len : (f.nbyte + 1 < 10) ⊎ (longer.len ≡ u2 longer.buff 8 + oem4_hlen)
  longer-len = elim (Bool-cases (f.nbyte + 1 == 10)) [
    | inl e ↦ rw e (inr refl)
    | inr e ↦ rw e (past e v.len_is)
  ]
    where
      past :
          (f.nbyte + 1 == 10) ≡ false
          → (f.nbyte < 10) ⊎ (f.len ≡ u2 f.buff 8 + oem4_hlen)
          → (f.nbyte + 1 < 10) ⊎ (f.len ≡ u2 (set f.buff f.nbyte b) 8 + oem4_hlen)
      past e (inl few) = inl (ground (arith, e, few))
      past e (inr at) = elim (Bool-cases (ltb (f.nbyte + 1) 10)) [
        | inl few ↦ inl (ground (arith, few))
        | inr many ↦
            inr (at ∙ ap (λ (n : ℕ). n + oem4_hlen) (sym (kept_len (ground (arith, e, many)))))
      ]

  pub longer-IsInside : IsInside longer (heard ++ b ∷ [])
  longer-IsInside = record {
    started = omega (arith, v.started);
    before = v.before;
    ends =
        ap (λ (u : List ℕ). u ++ b ∷ []) v.ends
        ∙ append_assoc v.before (take f.nbyte f.buff) (b ∷ [])
        ∙ ap (λ (u : List ℕ). v.before ++ u) (sym (take-set f.buff f.nbyte b room));
    synced = longer-IsSynced;
    len_is = longer-len;
  }
