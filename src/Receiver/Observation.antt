-- ===== src/Receiver/Observation.antt =====
-- The table of observations: obsindex finds a satellite's record or makes one.
use dgnss_server.Common.{
  ℕ, zero, suc, ◌+◌, ◌≤◌, ◌<◌, ◌≡◌, ◌≢◌, ◌⊎◌, inl, inr, refl, sym, ◌∙◌, ap, arith, false, List,
  get_or, set, length, leb, Option, none, some, Option-cases, length-set, get_or-set_self,
  get_or-set_ne, ℕ_discrete,
}
use dgnss_server.Double.{Double}
use dgnss_server.Time.{GTime}
use dgnss_server.Receiver.{Obs, ObsTable, max_obs, blank_obs, find_sat, obsindex, fresh_obs}

module _ {F : Type 0} ⦃d : Double F⦄ where
  abbrev pub sat_at : List (Obs F) → ℕ → ℕ
  sat_at items i = (get_or items i blank_obs).sat

  -- The records in use have different satellites, and the array has 64 records.
  pub record IsTable (obs : ObsTable F) : Type 0 where
    pub size : length obs.items ≡ max_obs
    pub within : obs.n ≤ max_obs
    pub distinct : (i j : ℕ) → i < j → j < obs.n → sat_at obs.items i ≢ sat_at obs.items j

  find_sat-some :
      (items : List (Obs F)) (left i sat k : ℕ)
      → find_sat items left i sat ≡ some k
      → (i ≤ k) × (k < i + left) × (sat_at items k ≡ sat)
  unfolding find_sat
  find_sat-some items zero i sat k h = absurd (cc)
  find_sat-some items (suc left) i sat k h = ground (arith, find_sat-some items left (i + 1) sat k)

  find_sat-none :
      (items : List (Obs F)) (left i sat : ℕ)
      → find_sat items left i sat ≡ none
      → (j : ℕ) → i ≤ j
      → j < i + left
      → sat_at items j ≢ sat
  unfolding find_sat
  find_sat-none items zero i sat h j lo hi = absurd (omega arith)
  find_sat-none items (suc left) i sat h j lo hi = elim (ℕ_discrete i j) [
    | yes e ↦ rw (← e) (ground arith)
    | no ne ↦ find_sat-none items left (i + 1) sat (ground arith) j (omega arith) (omega arith)
  ]

  -- What a call of `obsindex` with room in the table leaves.
  pub record IsIndexed (obs : ObsTable F) (time : GTime F) (sat : ℕ)
      (result : Option ℕ × ObsTable F) : Type 0 where
    pub index : ℕ
    pub returns : result.0 ≡ some index
    pub in_use : index < result.1.n
    pub sat_is : sat_at result.1.items index ≡ sat
    pub grows : (result.1.n ≡ obs.n) ⊎ ((result.1.n ≡ obs.n + 1) × (index ≡ obs.n))
    -- the record that was there, in the same table, or a new one where there was none
    pub origin :
        ((index < obs.n) × (sat_at obs.items index ≡ sat) × (result.1 ≡ obs))
        ⊎ ((result.1.n ≡ obs.n + 1)
            × (index ≡ obs.n)
            × (get_or result.1.items index blank_obs ≡ fresh_obs time sat)
            × ((j : ℕ) → j < obs.n → sat_at obs.items j ≢ sat))
    pub others :
        (j : ℕ) → j ≢ index → get_or result.1.items j blank_obs ≡ get_or obs.items j blank_obs
    pub valid : IsTable result.1

  module _ (obs : ObsTable F) (time : GTime F) (sat : ℕ) (v : IsTable obs) where
    grown : ObsTable F
    grown = record { n = obs.n + 1; items = set obs.items obs.n (fresh_obs time sat) }

    grown-sat : obs.n < max_obs → sat_at (set obs.items obs.n (fresh_obs time sat)) obs.n ≡ sat
    grown-sat room =
        ap (λ (o : Obs F). o.sat)
          (get_or-set_self obs.items obs.n (fresh_obs time sat) blank_obs (omega (arith, v.size)))

    grown-other :
        (j : ℕ)
        → j ≢ obs.n
        → sat_at (set obs.items obs.n (fresh_obs time sat)) j ≡ sat_at obs.items j
    grown-other j ne =
        ap (λ (o : Obs F). o.sat)
          (get_or-set_ne obs.items obs.n j (fresh_obs time sat) blank_obs (λ e. ne (sym e)))

    grown-IsTable : find_sat obs.items obs.n 0 sat ≡ none → obs.n < max_obs → IsTable grown
    unfolding grown
    grown-IsTable absent room = record {
      size = length-set obs.items obs.n _ ∙ v.size;
      within = omega arith;
      distinct = λ i j lt hi. elim (ℕ_discrete j obs.n) [
        | yes e ↦
            rw (grown-other i (omega arith), e, grown-sat room)
              (find_sat-none obs.items obs.n 0 sat absent i (omega arith) (omega arith))
        | no ne ↦
            rw (grown-other i (omega arith), grown-other j ne) (v.distinct i j lt (omega arith))
      ];
    }

    found-IsIndexed :
        (i : ℕ) → find_sat obs.items obs.n 0 sat ≡ some i → IsIndexed obs time sat (some i, obs)
    found-IsIndexed i e =
        let at = find_sat-some obs.items obs.n 0 sat i e in
        record {
          index = i;
          returns = refl;
          in_use = omega (arith, at.1);
          sat_is = at.2;
          grows = inl refl;
          origin = inl (omega (arith, at.1), at.2, refl);
          others = λ j ne. refl;
          valid = v;
        }

    grown-IsIndexed :
        find_sat obs.items obs.n 0 sat ≡ none
        → obs.n < max_obs
        → IsIndexed obs time sat (some obs.n, grown)
    unfolding grown
    grown-IsIndexed absent room = record {
      index = obs.n;
      returns = refl;
      in_use = omega arith;
      sat_is = grown-sat room;
      grows = inr (refl, refl);
      origin = inr (
        refl,
        refl,
        get_or-set_self obs.items obs.n (fresh_obs time sat) blank_obs (omega (arith, v.size)),
        λ j lt. find_sat-none obs.items obs.n 0 sat absent j (omega arith) (omega arith),
      );
      others = λ j ne. get_or-set_ne obs.items obs.n j _ blank_obs (λ e. ne (sym e));
      valid = unfold grown in grown-IsTable absent room;
    }

    -- With room in the table, `obsindex` returns the index of a record in use for the satellite: the
    -- one that was there, in a table that stays as it was, or, where no record in use was the
    -- satellite's, a new one at the end, of the time and the satellite. It changes no other record,
    -- and keeps the satellites of the records different.
    pub obsindex-IsIndexed : obs.n < max_obs → IsIndexed obs time sat (obsindex obs time sat)
    unfolding obsindex
    obsindex-IsIndexed room =
        let open_guard : leb max_obs obs.n ≡ false = ground arith in
        elim (Option-cases (find_sat obs.items obs.n 0 sat)) [
          | inl e ↦ rw (open_guard, e) (unfold grown in grown-IsIndexed e room)
          | inr (i, e) ↦ rw (open_guard, e) (found-IsIndexed i e)
        ]

    -- A full table is refused, also for a satellite that has a record.
    pub obsindex_full : obs.n ≡ max_obs → obsindex obs time sat ≡ (none, obs)
    unfolding obsindex
    obsindex_full full = ground arith
