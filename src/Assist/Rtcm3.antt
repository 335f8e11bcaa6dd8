-- ===== src/Assist/Rtcm3.antt =====
-- The messages as a receiver of RTCM 3 checks them.
use dgnss_server.Common.{
  ℕ, zero, suc, ◌+◌, ◌-◌, ◌*◌, ◌/◌, ◌%◌, ◌^◌, mod-eq_of_lt, ◌≤◌, ◌<◌, ◌≡◌, refl, sym, ◌∙◌, ap,
  arith, List, [], ◌∷◌, length, get_or, take, length-take, All-take,
}
use dgnss_server.Bits.{getbitu, bit_mask}
use dgnss_server.Bits.Byte.{IsBytes}
use dgnss_server.Bits.Field.{getbitu-eq, field_ext}
use dgnss_server.Crc.{crc24q}
use dgnss_server.Crc.Bounds.{crc24q_ext}
use dgnss_server.Rtcm.{Rtcm, buff_size, rtcm3_preamb}
use dgnss_server.Rtcm.Cursor.{Field, unsigned, total, get_all}
use dgnss_server.Rtcm.Message.Sent.{IsMessage}
use dgnss_server.Assist.{message}

-- What a receiver of RTCM 3 checks of the bytes of a message of the type, of up to `most` bytes.
pub record IsRtcm3 (type most : ℕ) (xs : List ℕ) : Type 0 where
  pub fits : length xs ≤ most
  pub bytes : IsBytes xs
  pub preamble : getbitu xs 0 8 ≡ rtcm3_preamb
  pub type_is : getbitu xs 24 12 ≡ type
  pub announced : getbitu xs 14 10 + 6 ≡ length xs
  pub parity : getbitu xs (8 * (length xs - 3)) 24 ≡ crc24q xs (length xs - 3)

pub get_or-take : (xs : List ℕ) (n j : ℕ) → j < n → get_or (take n xs) j 0 ≡ get_or xs j 0
get_or-take [] zero j h = absurd (omega arith)
get_or-take [] (suc n) j h = refl
get_or-take (x ∷ xs) zero j h = absurd (omega arith)
get_or-take (x ∷ xs) (suc n) zero h = refl
get_or-take (x ∷ xs) (suc n) (suc j) h = get_or-take xs n j (omega arith)

getbitu-take :
    (xs : List ℕ) (n q w : ℕ) → w ≤ 32 → q + w ≤ 8 * n → getbitu (take n xs) q w ≡ getbitu xs q w
getbitu-take xs n q w short h =
    getbitu-eq _ q w short
    ∙ field_ext (take n xs) xs q w
        (λ j lo hi. ap (λ (b : ℕ). b / bit_mask j % 2) (get_or-take xs n (j / 8) (omega arith)))
    ∙ sym (getbitu-eq xs q w short)

-- The type is the first field.
pub first_type :
    {F : Type 0} (type : ℕ) (fs : List Field) (rtcm : Rtcm F)
    → type < 2 ^ 12
    → IsMessage (unsigned 12 type ∷ fs) rtcm
    → getbitu rtcm.buff 24 12 ≡ type
unfolding get_all
first_type type fs rtcm small m = ap (λ (xs : List ℕ). get_or xs 0 0) m.body ∙ mod-eq_of_lt small

-- The bytes of a message are one for a receiver of RTCM 3.
pub message-IsRtcm3 :
    {F : Type 0} (fs : List Field) (rtcm : Rtcm F) (type most : ℕ)
    → IsMessage fs rtcm
    → getbitu rtcm.buff 24 12 ≡ type
    → 24 ≤ total fs
    → (24 + total fs + 7) / 8 + 3 ≤ most
    → most ≤ buff_size
    → IsRtcm3 type most (message rtcm)
message-IsRtcm3 fs rtcm type most m type_is least large room =
    let n : ℕ = rtcm.nbyte in
    let len_is : rtcm.len + 3 ≡ n = sym m.nbyte_is in
    let size : length (take n rtcm.buff) ≡ n =
      omega (arith, length-take n rtcm.buff, m.size, m.len_is, len_is) in
    let body : n - 3 ≡ rtcm.len = omega arith in
    let enough : 6 ≤ rtcm.len = omega (arith, m.len_is) in
    record {
      fits = rw size (omega (arith, m.len_is));
      bytes = All-take (λ (x : ℕ). x < 256) n rtcm.buff m.bytes;
      preamble = getbitu-take rtcm.buff n 0 8 (omega arith) (omega arith) ∙ m.preamble;
      type_is = getbitu-take rtcm.buff n 24 12 (omega arith) (omega arith) ∙ type_is;
      announced =
          rw size (
            omega (arith, getbitu-take rtcm.buff n 14 10 (omega arith) (omega arith), m.announced));
      parity =
          rw (size, body)
            (getbitu-take rtcm.buff n (8 * rtcm.len) 24 (omega arith) (omega arith)
              ∙ m.parity
              ∙ crc24q_ext rtcm.buff (take n rtcm.buff) rtcm.len
                  (λ j lt. sym (get_or-take rtcm.buff n j (omega arith))));
    }
