-- ===== src/Examples/Coding.antt =====
-- Example of the lines with a checksum.
use dgnss_server.Common.{ℕ, ◌≡◌, arith, List, [], ◌∷◌}
use dgnss_server.Crc.{mxt_chk_sum_cal, check_sum_loop}
use dgnss_server.Crc.Line.{mxt_chk_sum_chk, line, mxt_chk_sum_chk-line}

-- `$GPGGA,1*4B`
abbrev gga : List ℕ
gga = 71 ∷ 80 ∷ 71 ∷ 71 ∷ 65 ∷ 44 ∷ 49 ∷ []

mxt_chk_sum_chk-line_example : mxt_chk_sum_chk (line 36 gga 75) ≡ 1
unfolding mxt_chk_sum_cal check_sum_loop
mxt_chk_sum_chk-line_example =
    mxt_chk_sum_chk-line 36 gga 75 (omega arith) (omega arith) (omega arith) (omega arith)
