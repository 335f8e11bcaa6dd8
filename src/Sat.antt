-- ===== src/Sat.antt =====
-- Satellite numbers and signal codes of AgnssServer/AssistData.c: satsys, satno, to_satid,
-- code2obs, to_sigid, decode_trackstat, checkpri, with the constants of that file and of
-- AgnssServer/AssistData.h. AssistData.c sets NSATQZS to 0 after it has included the header.
pub mod Number
pub mod Signal
use dgnss_server.Common.{
  ℕ, zero, suc, ◌+◌, ◌-◌, ◌*◌, ◌/◌, ◌%◌, ◌^◌, Bool, true, false, ◌&&◌, ◌||◌, not, Option, none,
  some, List, [], ◌∷◌, get_or, ltb, leb, ◌==◌, if◌then◌else◌,
}
use dgnss_server.Common.Int.{ℤ, pos, pos_part, leb_ℤ}

abbrev pub sys_none : ℕ
sys_none = 0x00

abbrev pub sys_gps : ℕ
sys_gps = 0x01

abbrev pub sys_glo : ℕ
sys_glo = 0x04

abbrev pub sys_gal : ℕ
sys_gal = 0x08

abbrev pub sys_qzs : ℕ
sys_qzs = 0x10

abbrev pub sys_cmp : ℕ
sys_cmp = 0x20

abbrev pub nsat_gps : ℕ
nsat_gps = 32

abbrev pub nsat_glo : ℕ
nsat_glo = 24

abbrev pub nsat_gal : ℕ
nsat_gal = 27

abbrev pub nsat_qzs : ℕ
nsat_qzs = 0

abbrev pub nsat_cmp : ℕ
nsat_cmp = 37

-- MAXSAT as it expands in AssistData.c.
abbrev pub max_sat : ℕ
max_sat = nsat_gps + nsat_glo + nsat_gal + nsat_qzs + nsat_cmp

-- MAXSAT as it expands in AssistData.h, the length of the arrays by satellite.
abbrev pub max_sat_header : ℕ
max_sat_header = nsat_gps + nsat_glo + nsat_gal + 7 + nsat_cmp

abbrev pub nfreq : ℕ
nfreq = 3

-- The system and the number within the system.
unfoldable pub satsys : ℕ → ℕ × ℕ
satsys sat =
    let glo = sat - nsat_gps in
    let gal = glo - nsat_glo in
    let qzs = gal - nsat_gal in
    let cmp = qzs - nsat_qzs in
    if (sat == 0) || ltb max_sat sat
    then (sys_none, 0)
    else if leb sat nsat_gps
    then (sys_gps, sat + 1 - 1)
    else if leb glo nsat_glo
    then (sys_glo, glo + 1 - 1)
    else if leb gal nsat_gal
    then (sys_gal, gal + 1 - 1)
    else if leb qzs nsat_qzs
    then (sys_qzs, qzs + 193 - 1)
    else if leb cmp nsat_cmp
    then (sys_cmp, cmp + 0)
    else (sys_none, 0)

abbrev outside : ℕ → ℕ → ℕ → Bool
outside lo hi prn = ltb prn lo || ltb hi prn

unfoldable pub satno : ℕ → ℤ → ℕ
satno sys p =
    let prn = pos_part p in
    if leb_ℤ p (pos 0)
    then 0
    else if sys == sys_gps
    then (if outside 1 32 prn then 0 else prn - 1 + 1)
    else if sys == sys_glo
    then (if outside 1 24 prn then 0 else nsat_gps + prn - 1 + 1)
    else if sys == sys_gal
    then (if outside 1 27 prn then 0 else nsat_gps + nsat_glo + prn - 1 + 1)
    else if sys == sys_qzs
    then (if outside 193 199 prn then 0 else nsat_gps + nsat_glo + nsat_gal + prn - 193 + 1)
    else if sys == sys_cmp
    then (if outside 161 197 prn
        then 0
        else nsat_gps + nsat_glo + nsat_gal + nsat_qzs + prn - 161 + 1)
    else 0

unfoldable pub to_satid : ℕ → ℕ → ℕ
to_satid sys sat = let (s, prn) = satsys sat in if not (s == sys) then 0 else prn

-- The codes that the functions name; the table of all 49 is `obscodes`.
abbrev pub code_none : ℕ
code_none = 0

abbrev pub code_l1c : ℕ
code_l1c = 1

abbrev pub code_l1p : ℕ
code_l1p = 2

abbrev pub code_l1y : ℕ
code_l1y = 4

abbrev pub code_l1m : ℕ
code_l1m = 5

abbrev pub code_l1n : ℕ
code_l1n = 6

abbrev pub code_l2d : ℕ
code_l2d = 15

abbrev pub code_l2x : ℕ
code_l2x = 18

abbrev pub code_l2p : ℕ
code_l2p = 19

abbrev pub code_l2y : ℕ
code_l2y = 21

abbrev pub code_l2m : ℕ
code_l2m = 22

abbrev pub code_l2n : ℕ
code_l2n = 23

abbrev pub code_l1i : ℕ
code_l1i = 47

abbrev pub max_code : ℕ
max_code = 48

-- A signal's name of two characters as a number, 256 times the first plus the second, and 0 for
-- the empty name.
abbrev pub name : ℕ → ℕ → ℕ
name a b = 256 * a + b

abbrev pub obscodes : List ℕ
obscodes =
    0
    ∷ name b'1' b'C'
    ∷ name b'1' b'P'
    ∷ name b'1' b'W'
    ∷ name b'1' b'Y'
    ∷ name b'1' b'M'
    ∷ name b'1' b'N'
    ∷ name b'1' b'S'
    ∷ name b'1' b'L'
    ∷ name b'1' b'E'
    ∷ name b'1' b'A'
    ∷ name b'1' b'B'
    ∷ name b'1' b'X'
    ∷ name b'1' b'Z'
    ∷ name b'2' b'C'
    ∷ name b'2' b'D'
    ∷ name b'2' b'S'
    ∷ name b'2' b'L'
    ∷ name b'2' b'X'
    ∷ name b'2' b'P'
    ∷ name b'2' b'W'
    ∷ name b'2' b'Y'
    ∷ name b'2' b'M'
    ∷ name b'2' b'N'
    ∷ name b'5' b'I'
    ∷ name b'5' b'Q'
    ∷ name b'5' b'X'
    ∷ name b'7' b'I'
    ∷ name b'7' b'Q'
    ∷ name b'7' b'X'
    ∷ name b'6' b'A'
    ∷ name b'6' b'B'
    ∷ name b'6' b'C'
    ∷ name b'6' b'X'
    ∷ name b'6' b'Z'
    ∷ name b'6' b'S'
    ∷ name b'6' b'L'
    ∷ name b'8' b'L'
    ∷ name b'8' b'Q'
    ∷ name b'8' b'X'
    ∷ name b'2' b'I'
    ∷ name b'2' b'Q'
    ∷ name b'6' b'I'
    ∷ name b'6' b'Q'
    ∷ name b'3' b'I'
    ∷ name b'3' b'Q'
    ∷ name b'3' b'X'
    ∷ name b'1' b'I'
    ∷ name b'1' b'Q'
    ∷ 0
    ∷ []

abbrev pub obsfreqs : List ℕ
obsfreqs =
    0 ∷ 1 ∷ 1 ∷ 1 ∷ 1 ∷ 1 ∷ 1 ∷ 1 ∷ 1 ∷ 1 ∷ 1 ∷ 1 ∷ 1 ∷ 1 ∷ 2 ∷ 2 ∷ 2 ∷ 2 ∷ 2 ∷ 2 ∷ 2 ∷ 2 ∷ 2 ∷ 2
    ∷ 3 ∷ 3 ∷ 3 ∷ 5 ∷ 5 ∷ 5 ∷ 4 ∷ 4 ∷ 4 ∷ 4 ∷ 4 ∷ 4 ∷ 4 ∷ 6 ∷ 6 ∷ 6 ∷ 2 ∷ 2 ∷ 4 ∷ 4 ∷ 3 ∷ 3 ∷ 3 ∷ 1
    ∷ 1 ∷ 0 ∷ []

abbrev pub msm_sig_gps : List ℕ
msm_sig_gps =
    0
    ∷ name b'1' b'C'
    ∷ name b'1' b'P'
    ∷ name b'1' b'W'
    ∷ name b'1' b'Y'
    ∷ name b'1' b'M'
    ∷ 0
    ∷ name b'2' b'C'
    ∷ name b'2' b'P'
    ∷ name b'2' b'W'
    ∷ name b'2' b'Y'
    ∷ name b'2' b'M'
    ∷ 0
    ∷ 0
    ∷ name b'2' b'S'
    ∷ name b'2' b'L'
    ∷ name b'2' b'X'
    ∷ 0
    ∷ 0
    ∷ 0
    ∷ 0
    ∷ name b'5' b'I'
    ∷ name b'5' b'Q'
    ∷ name b'5' b'X'
    ∷ 0
    ∷ 0
    ∷ 0
    ∷ 0
    ∷ 0
    ∷ name b'1' b'S'
    ∷ name b'1' b'L'
    ∷ name b'1' b'X'
    ∷ []

abbrev pub msm_sig_cmp : List ℕ
msm_sig_cmp =
    0
    ∷ name b'1' b'I'
    ∷ name b'1' b'Q'
    ∷ name b'1' b'X'
    ∷ 0
    ∷ 0
    ∷ 0
    ∷ name b'6' b'I'
    ∷ name b'6' b'Q'
    ∷ name b'6' b'X'
    ∷ 0
    ∷ 0
    ∷ 0
    ∷ name b'7' b'I'
    ∷ name b'7' b'Q'
    ∷ name b'7' b'X'
    ∷ 0
    ∷ 0
    ∷ 0
    ∷ 0
    ∷ 0
    ∷ 0
    ∷ 0
    ∷ 0
    ∷ 0
    ∷ 0
    ∷ 0
    ∷ 0
    ∷ 0
    ∷ 0
    ∷ 0
    ∷ 0
    ∷ []

-- The name of a code and its frequency.
unfoldable pub code2obs : ℕ → ℕ × ℕ
code2obs code =
    if leb code code_none || ltb max_code code
    then (0, 0)
    else (get_or obscodes code 0, get_or obsfreqs code 0)

-- The replacement of signals that the message format does not define.
unfoldable pub defined_code : ℕ → ℕ → ℕ
defined_code sys code =
    if not (sys == sys_gps)
    then code
    else if (code == code_l1y) || (code == code_l1m) || (code == code_l1n)
    then code_l1p
    else if (code == code_l2d) || (code == code_l2y) || (code == code_l2m) || (code == code_l2n)
    then code_l2p
    else code

-- The loop of `to_sigid` over the table, at index `i`.
unfoldable pub find_sig : List ℕ → ℕ → ℕ → ℕ
find_sig [] sig i = 0
find_sig (m ∷ ms) sig i = let rest = find_sig ms sig (i + 1) in if sig == m then i + 1 else rest

-- The signal number, 0 for none, and the frequency.
unfoldable pub to_sigid : ℕ → ℕ → ℕ × ℕ
to_sigid sys code =
    let (sig, freq) = code2obs (defined_code sys code) in
    if sig == 0
    then (0, freq)
    else if sys == sys_gps
    then (find_sig msm_sig_gps sig 0, freq)
    else if sys == sys_cmp
    then (find_sig msm_sig_cmp sig 0, freq)
    else (0, freq)

-- What `decode_trackstat` writes through its pointers when it does not fail.
pub record Track : Type 0 where
  pub sys : ℕ
  pub code : ℕ
  pub track : ℕ
  pub plock : ℕ
  pub clock : ℕ
  pub parity : ℕ
  pub halfc : ℕ
  pub freq : ℕ

-- `none` is the return of -1.
unfoldable pub decode_trackstat : ℕ → Option Track
decode_trackstat stat =
    let sat_sys = stat / 2 ^ 16 % 8 in
    let sig_type = stat / 2 ^ 21 % 0x20 in
    let found : ℕ → ℕ → Track = λ sys code. record {
      sys = sys;
      code = code;
      track = stat % 0x20;
      plock = stat / 2 ^ 10 % 2;
      clock = stat / 2 ^ 12 % 2;
      parity = stat / 2 ^ 11 % 2;
      halfc = stat / 2 ^ 28 % 2;
      freq = 0;
    } in
    if sat_sys == 0
    then (if sig_type == 0 then some (found sys_gps code_l1c) else none)
    else if sat_sys == 4
    then (if (sig_type == 0) || (sig_type == 4) then some (found sys_cmp code_l1i) else none)
    else none

-- Whether a text stands in another, as `strstr` tells it; a text is the list of its characters.
abbrev starts_with : List ℕ → List ℕ → Bool
starts_with text [] = true
starts_with [] (c ∷ cs) = false
starts_with (t ∷ ts) (c ∷ cs) = (t == c) && starts_with ts cs

unfoldable pub strstr : List ℕ → List ℕ → Bool
strstr [] word = starts_with [] word
strstr (t ∷ ts) word = starts_with (t ∷ ts) word || strstr ts word

abbrev pub opt_gl1p : List ℕ
opt_gl1p = b'-' ∷ b'G' ∷ b'L' ∷ b'1' ∷ b'P' ∷ []

abbrev pub opt_gl2x : List ℕ
opt_gl2x = b'-' ∷ b'G' ∷ b'L' ∷ b'2' ∷ b'X' ∷ []

abbrev pub opt_ephall : List ℕ
opt_ephall = b'-' ∷ b'E' ∷ b'P' ∷ b'H' ∷ b'A' ∷ b'L' ∷ b'L' ∷ []

-- The position of a signal's observations, with NEXOBS = 0; `none` is the return of -1.
unfoldable pub checkpri : List ℕ → ℕ → ℕ → ℕ → Option ℕ
checkpri opt sys code freq =
    let by_freq = if ltb freq nfreq then some freq else none in
    if not (sys == sys_gps)
    then by_freq
    else if strstr opt opt_gl1p && (freq == 0)
    then (if code == code_l1p then some 0 else none)
    else if strstr opt opt_gl2x && (freq == 1)
    then (if code == code_l2x then some 1 else none)
    else if (code == code_l1p) || (code == code_l2x)
    then none
    else by_freq
