-- ===== src/Sat/Signal.antt =====
-- Signal numbers of the messages.
use dgnss_server.Common.{
  ℕ, suc, ◌+◌, ◌<◌, ◌≡◌, ◌⊎◌, inl, inr, refl, arith, if◌then◌else◌, ◌==◌, List, [], ◌∷◌, length,
  get_or, some, Bool-cases, ◌∙◌,
}
use dgnss_server.Sat.{
  sys_gps, sys_cmp, code_l1c, code_l1i, msm_sig_gps, msm_sig_cmp, code2obs, defined_code, find_sig,
  to_sigid, Track, decode_trackstat,
}

-- What `find_sig` returns for a nonempty name is 0, or one more than an index at which it stands.
find_sig_lem :
    (ms : List ℕ) (sig i : ℕ)
    → (find_sig ms sig i ≡ 0)
      ⊎ ((k : ℕ) × (find_sig ms sig i ≡ i + k + 1) × (k < length ms) × (get_or ms k 0 ≡ sig))
unfolding find_sig
find_sig_lem [] sig i = inl refl
find_sig_lem (m ∷ ms) sig i = elim (Bool-cases (sig == m)) [
  | inl e ↦ inr (0, rw e (omega arith), omega arith, ground arith)
  | inr e ↦ rw e (shift (find_sig_lem ms sig (i + 1)))
]
  where
    shift :
        (find_sig ms sig (i + 1) ≡ 0)
          ⊎ ((k : ℕ) × (find_sig ms sig (i + 1) ≡ i + 1 + k + 1)
              × (k < length ms)
              × (get_or ms k 0 ≡ sig))
        → (find_sig ms sig (i + 1) ≡ 0)
          ⊎ ((k : ℕ) × (find_sig ms sig (i + 1) ≡ i + k + 1)
              × (k < length (m ∷ ms))
              × (get_or (m ∷ ms) k 0 ≡ sig))
    shift (inl e) = inl e
    shift (inr (k, e, lt, at)) = inr (suc k, e ∙ omega arith, omega arith, at)

-- The table of a system's signals, the GPS one for GPS.
abbrev pub sig_table : ℕ → List ℕ
sig_table sys = if sys == sys_gps then msm_sig_gps else msm_sig_cmp

abbrev sig_name : ℕ → ℕ → ℕ
sig_name sys code = (code2obs (defined_code sys code)).0

-- For GPS and BeiDou a signal number is 0, or from 1 to 32 and the place in the system's table at
-- which the name of the code, or of the code that replaces it, stands.
pub to_sigid_lem :
    (sys code : ℕ)
    → (sys ≡ sys_gps) ⊎ (sys ≡ sys_cmp)
    → ((to_sigid sys code).0 ≡ 0)
      ⊎ ((k : ℕ) × ((to_sigid sys code).0 ≡ k + 1)
          × (k < 32)
          × (get_or (sig_table sys) k 0 ≡ (code2obs (defined_code sys code)).0))
unfolding to_sigid
to_sigid_lem sys code (inl e) =
    rw e (ground (arith, find_sig_lem msm_sig_gps (sig_name sys_gps code) 0))
to_sigid_lem sys code (inr e) =
    rw e (ground (arith, find_sig_lem msm_sig_cmp (sig_name sys_cmp code) 0))

-- Every signal that `decode_trackstat` accepts is GPS L1C/A or BeiDou B1I, at the first frequency,
-- and has the signal number 2 of its system.
pub decode_trackstat-sigid :
    (stat : ℕ) {t : Track}
    → decode_trackstat stat ≡ some t
    → (((t.sys ≡ sys_gps) × (t.code ≡ code_l1c)) ⊎ ((t.sys ≡ sys_cmp) × (t.code ≡ code_l1i)))
      × (t.freq ≡ 0)
      × (to_sigid t.sys t.code ≡ (2, 1))
unfolding decode_trackstat to_sigid code2obs defined_code find_sig
decode_trackstat-sigid stat e = ground arith
