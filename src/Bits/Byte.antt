-- ===== src/Bits/Byte.antt =====
-- One bit of a byte, and one bit of a buffer, written and read.
use dgnss_server.Common.{
  ℕ, ◌-◌, ◌*◌, ◌/◌, ◌%◌, ◌^◌, ◌<◌, bit_and, bit_or, Bool, true, false, ◌&&◌, List, length, set,
  ◌==◌, ltb, if◌then◌else◌, ◌≡◌, refl, ◌≢◌, arith, holds_below, holds_below_lt, ==_iff, ltb→lt,
  length-set, get_or-set_self, get_or-set_ne, All, All-set, All-get_or, ℕ_discrete,
}
use dgnss_server.Bits.{byte_at, bit_mask, set_bit, bit_at}

abbrev pub IsBytes : List ℕ → Type 0
IsBytes = All (λ b. b < 256)

-- The byte that `set_bit` stores.
abbrev put_bit : ℕ → ℕ → Bool → ℕ
put_bit b k v = if v then bit_or b (2 ^ k) else bit_and b (2 ^ 32 - 1 - 2 ^ k)

abbrev bit_value : Bool → ℕ
bit_value v = if v then 1 else 0

abbrev byte_law : Bool → ℕ → ℕ → ℕ → Bool
byte_law v b k l =
    ltb (put_bit b k v) 256
    && (put_bit b k v / 2 ^ l % 2 == (if k == l then bit_value v else b / 2 ^ l % 2))

byte_table :
    (v : Bool)
    → holds_below 256 (λ b. holds_below 8 (λ k. holds_below 8 (λ l. byte_law v b k l))) ≡ true
unfolding holds_below
byte_table true = refl
byte_table false = refl

module _ (v : Bool) (b k : ℕ) (hb : b < 256) (hk : k < 8) where
  byte_law_holds : (l : ℕ) → l < 8 → byte_law v b k l ≡ true
  byte_law_holds l hl =
      holds_below_lt 8 _ l (holds_below_lt 8 _ k (holds_below_lt 256 _ b (byte_table v) hb) hk) hl

  put_bit-lt : put_bit b k v < 256
  put_bit-lt = ltb→lt _ _ (ground (arith, byte_law_holds 0))

  put_bit-digit :
      (l : ℕ) → l < 8 → put_bit b k v / 2 ^ l % 2 ≡ (if k == l then bit_value v else b / 2 ^ l % 2)
  put_bit-digit l hl = (==_iff _ _).0 (ground (arith, byte_law_holds l hl))

set_bit-eq :
    (buff : List ℕ) (i : ℕ) (v : Bool)
    → set_bit buff i v ≡ set buff (i / 8) (put_bit (byte_at buff (i / 8)) (7 - i % 8) v)
unfolding set_bit
set_bit-eq buff i true = refl
set_bit-eq buff i false = refl

pub length-set_bit : (buff : List ℕ) (i : ℕ) (v : Bool) → length (set_bit buff i v) ≡ length buff
length-set_bit buff i v = rw set_bit-eq (length-set buff (i / 8) _)

byte_at-lt : (buff : List ℕ) (i : ℕ) → IsBytes buff → byte_at buff i < 256
byte_at-lt buff i h = All-get_or (λ b. b < 256) buff i 0 h (omega arith)

pub set_bit-IsBytes : (buff : List ℕ) (i : ℕ) (v : Bool) → IsBytes buff → IsBytes (set_bit buff i v)
set_bit-IsBytes buff i v h = rw set_bit-eq (
    All-set (λ b. b < 256) buff (i / 8) _ h
      (put_bit-lt v (byte_at buff (i / 8)) (7 - i % 8) (byte_at-lt buff (i / 8) h) (omega arith)))

-- The bit that was written is read, within the buffer.
pub bit_at-set_bit_self :
    (buff : List ℕ) (i : ℕ) (v : Bool)
    → IsBytes buff
    → i < 8 * length buff
    → bit_at (set_bit buff i v) i ≡ bit_value v
bit_at-set_bit_self buff i v h lt =
    rw (set_bit-eq, get_or-set_self buff (i / 8) _ 0 (omega arith))
      (ground (
        arith,
        put_bit-digit v (byte_at buff (i / 8)) (7 - i % 8) (byte_at-lt buff (i / 8) h) (omega arith)
            (7 - i % 8),
      ))

-- Every other bit stays.
pub bit_at-set_bit_ne :
    (buff : List ℕ) (i j : ℕ) (v : Bool)
    → IsBytes buff
    → i < 8 * length buff
    → i ≢ j
    → bit_at (set_bit buff i v) j ≡ bit_at buff j
bit_at-set_bit_ne buff i j v h lt ne = elim (ℕ_discrete (i / 8) (j / 8)) [
  | yes e ↦ rw (set_bit-eq, ← e, get_or-set_self buff (i / 8) _ 0 (omega arith)) (other e)
  | no d ↦ rw (set_bit-eq, get_or-set_ne buff (i / 8) (j / 8) _ 0 d)
]
  where
    other :
        i / 8 ≡ j / 8
        → put_bit (byte_at buff (i / 8)) (7 - i % 8) v / bit_mask j % 2
          ≡ byte_at buff (i / 8) / bit_mask j % 2
    other e = ground (
      arith,
      put_bit-digit v (byte_at buff (i / 8)) (7 - i % 8) (byte_at-lt buff (i / 8) h) (omega arith)
          (7 - j % 8),
    )
