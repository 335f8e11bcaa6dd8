-- ===== src/Crc/Bounds.antt =====
-- What crc24q returns: 24 bits, which depend on the bytes that are summed and on no other.
use dgnss_server.Common.{
  bit_xor, ℕ, zero, suc, ◌+◌, ◌/◌, ◌^◌, ◌<◌, ◌≡◌, refl, arith, List, [], ◌∷◌, get_or, All,
  All-get_or, Bool, true, ◌&&◌, ltb,
}
use dgnss_server.Bits.{byte_at}
use dgnss_server.Crc.{crc24q_step, crc24q_loop, crc24q, tbl_crc24q}
use dgnss_server.Crc.Xor.{bit_xor-lt}

abbrev small : List ℕ → Bool
small [] = true
small (x ∷ xs) = ltb x (2 ^ 24) && small xs

All-small : (xs : List ℕ) → small xs ≡ true → All (λ x. x < 2 ^ 24) xs
All-small [] h = tt
All-small (x ∷ xs) h = (ground arith, All-small xs (ground arith))

pub table_entry : (i : ℕ) → get_or tbl_crc24q i 0 < 2 ^ 24
table_entry i =
    All-get_or (λ (x : ℕ). x < 2 ^ 24) tbl_crc24q i 0 (All-small tbl_crc24q refl) (omega arith)

pub crc24q_step-lt : (crc byte : ℕ) → crc24q_step crc byte < 2 ^ 24
unfolding crc24q_step
crc24q_step-lt crc byte =
    bit_xor-lt 24 _ _ (omega arith) (table_entry (bit_xor (crc / 2 ^ 16) byte))

crc24q_loop-lt :
    (buff : List ℕ) (left i crc : ℕ) → crc < 2 ^ 24 → crc24q_loop buff left i crc < 2 ^ 24
unfolding crc24q_loop
crc24q_loop-lt buff zero i crc h = h
crc24q_loop-lt buff (suc left) i crc h =
    crc24q_loop-lt buff left (i + 1) _ (crc24q_step-lt crc (byte_at buff i))

pub crc24q-lt : (buff : List ℕ) (len : ℕ) → crc24q buff len < 2 ^ 24
unfolding crc24q
crc24q-lt buff len = crc24q_loop-lt buff len 0 0 (omega arith)

crc24q_loop_ext :
    (xs ys : List ℕ) (left i crc : ℕ)
    → ((j : ℕ) → j < i + left → byte_at xs j ≡ byte_at ys j)
    → crc24q_loop xs left i crc ≡ crc24q_loop ys left i crc
unfolding crc24q_loop
crc24q_loop_ext xs ys zero i crc h = refl
crc24q_loop_ext xs ys (suc left) i crc h =
    rw (h i (omega arith)) (crc24q_loop_ext xs ys left (i + 1) _ (λ j lt. h j (omega arith)))

-- Buffers with the same first bytes have the same checksum of these bytes.
pub crc24q_ext :
    (xs ys : List ℕ) (len : ℕ)
    → ((j : ℕ) → j < len → byte_at xs j ≡ byte_at ys j)
    → crc24q xs len ≡ crc24q ys len
unfolding crc24q
crc24q_ext xs ys len h = crc24q_loop_ext xs ys len 0 0 (λ j lt. h j (omega arith))
