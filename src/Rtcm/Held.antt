-- ===== src/Rtcm/Held.antt =====
-- What getbitu and getbits read from fields that were written one after the other.
use dgnss_server.Common.{
  ℕ, ◌+◌, ◌*◌, ◌%◌, ◌^◌, ◌≤◌, ◌<◌, ◌≡◌, ◌∙◌, sym, subst, arith, List, [], ◌∷◌, length, All,
  mod-eq_of_lt,
}
use dgnss_server.Bits.{getbitu, getbits, setbitu}
use dgnss_server.Bits.Byte.{IsBytes}
use dgnss_server.Bits.Field.{length-setbitu, setbitu-IsBytes, getbitu-setbitu}
use dgnss_server.Bits.Signed.{Fits, getbits_word}
use dgnss_server.Rtcm.Cursor.{
  Field, unsigned, signed, Cursor, put_all, put-eq, put_all_before, width, word, total,
}

-- A value that its field can hold.
abbrev pub HasRoom : Field → Type 0
HasRoom (unsigned len v) = (len ≤ 32) × (v < 2 ^ len)
HasRoom (signed len v) = (0 < len) × (len ≤ 32) × Fits len v

-- A field that a reader finds at a position, and fields one after the other.
abbrev pub Holds : List ℕ → Field → ℕ → Type 0
Holds buff (unsigned len v) i = getbitu buff i len ≡ v
Holds buff (signed len v) i = getbits buff i len ≡ v

abbrev pub HoldsAll : List ℕ → List Field → ℕ → Type 0
HoldsAll buff [] i = Unit
HoldsAll buff (f ∷ fs) i = Holds buff f i × HoldsAll buff fs (i + width f)

HasRoom-width : (f : Field) → HasRoom f → width f ≤ 32
HasRoom-width (unsigned len v) r = r.0
HasRoom-width (signed len v) r = r.1

HasRoom-widths : (fs : List Field) → All HasRoom fs → All (λ f. width f ≤ 32) fs
HasRoom-widths [] r = tt
HasRoom-widths (f ∷ fs) r = (HasRoom-width f r.0, HasRoom-widths fs r.1)

word-Holds :
    (buff : List ℕ) (f : Field) (i : ℕ)
    → HasRoom f
    → getbitu buff i (width f) ≡ word f % 2 ^ width f
    → Holds buff f i
word-Holds buff (unsigned len v) i r e = e ∙ mod-eq_of_lt r.1
word-Holds buff (signed len v) i r e = getbits_word len r.0 r.1 buff i v r.2 e

-- Fields that have room and are written inside the buffer are all found.
pub put_all-HoldsAll :
    (fs : List Field) (c : Cursor)
    → IsBytes c.0
    → c.1 + total fs ≤ 8 * length c.0
    → All HasRoom fs
    → HoldsAll (put_all fs c).0 fs c.1
unfolding put_all
put_all-HoldsAll [] c h fits room = tt
put_all-HoldsAll (f ∷ fs) c h fits room =
    let w : ℕ = word f in
    let buff' = setbitu c.0 c.1 (width f) w in
    let h' = setbitu-IsBytes c.0 c.1 (width f) w h in
    let short = HasRoom-width f room.0 in
    let fits' : c.1 + width f + total fs ≤ 8 * length buff' =
      rw (length-setbitu c.0 c.1 (width f) w) (omega arith) in
    let first =
      put_all_before fs (buff', c.1 + width f) c.1 (width f) h' fits' short (omega arith)
      ∙ getbitu-setbitu c.0 c.1 (width f) w h (omega arith) short in
    subst (λ (k : Cursor). HoldsAll (put_all fs k).0 (f ∷ fs) c.1) (sym (put-eq f c))
      (word-Holds _ f c.1 room.0 first, put_all-HoldsAll fs (buff', c.1 + width f) h' fits' room.1)
