-- ===== src/Comn/Timer/Order.antt =====
-- The tasks of CTimerQueue stay in the order of their times, whoever changes the list.
use dgnss_server.Common.{
  ℕ, ◌+◌, ◌-◌, ◌≤◌, ◌<◌, ◌≡◌, refl, ap, arith, true, false, ◌&&◌, Option, none, some, List, [], ◌∷◌,
  All, if_holds, Bool-cases, inl, inr, ltb, leb, if◌then◌else◌,
}
use dgnss_server.Common.Int.{ℤ, pos, negsuc}
use dgnss_server.Comn.Text.{same_text}
use dgnss_server.Comn.Timer.{
  TimerId, TimerTask, insert_task, remove, OnTimer, checkout_front, check_expire, after_checkout,
  run_task, next_time, deviation,
}

-- The steps that hold the lock: those of `remove`, `insertTask`, `checkoutFront` and `clear`.
pub data Step (H : Type 0) : Type 0 where
  removing : TimerId → Step H
  inserting : TimerTask H → Step H
  checking_out : ℕ → Step H
  clearing : Step H

module _ {H : Type 0} where
  -- No task of the list is due before the time `e`.
  abbrev pub From : ℕ → List (TimerTask H) → Type 0
  From e xs = All (λ (x : TimerTask H). e ≤ x.expire) xs

  abbrev pub IsSorted : List (TimerTask H) → Type 0
  IsSorted [] = Unit
  IsSorted (x ∷ xs) = From x.expire xs × IsSorted xs

  pub All-insert_task :
      (P : TimerTask H → Type 0) (t : TimerTask H) (xs : List (TimerTask H))
      → P t
      → All P xs
      → All P (insert_task t xs)
  unfolding insert_task
  All-insert_task P t [] h k = (h, tt)
  All-insert_task P t (x ∷ xs) h k =
      if_holds (All P) (ltb t.expire x.expire) (t ∷ x ∷ xs) (x ∷ insert_task t xs) (h, k)
        (k.0, All-insert_task P t xs h k.1)

  pub All-remove :
      (P : TimerTask H → Type 0) (id : TimerId) (xs : List (TimerTask H))
      → All P xs
      → All P (remove id xs).1
  unfolding remove
  All-remove P id [] h = tt
  All-remove P id (x ∷ xs) h = elim (Bool-cases (same_text x.id id)) [
    | inl k ↦ rw k h.1
    | inr k ↦ rw k (h.0, All-remove P id xs h.1)
  ]

  pub From-later : (d e : ℕ) (xs : List (TimerTask H)) → d ≤ e → From e xs → From d xs
  From-later d e [] h k = tt
  From-later d e (x ∷ xs) h k = (omega arith, From-later d e xs h k.1)

  pub insert_task-IsSorted :
      (t : TimerTask H) (xs : List (TimerTask H)) → IsSorted xs → IsSorted (insert_task t xs)
  unfolding insert_task
  insert_task-IsSorted t [] h = (tt, tt)
  insert_task-IsSorted t (x ∷ xs) h = elim (Bool-cases (ltb t.expire x.expire)) [
    | inl e ↦
        let lt : t.expire < x.expire = ground arith in
        rw e ((omega arith, From-later t.expire x.expire xs (omega arith) h.0), h)
    | inr e ↦
        let ge : x.expire ≤ t.expire = ground arith in
        rw e (
          All-insert_task (λ (y : TimerTask H). x.expire ≤ y.expire) t xs ge h.0,
          insert_task-IsSorted t xs h.1,
        )
  ]

  pub remove-IsSorted :
      (id : TimerId) (xs : List (TimerTask H)) → IsSorted xs → IsSorted (remove id xs).1
  unfolding remove
  remove-IsSorted id [] h = tt
  remove-IsSorted id (x ∷ xs) h = elim (Bool-cases (same_text x.id id)) [
    | inl k ↦ rw k h.1
    | inr k ↦
        rw k (
          All-remove (λ (y : TimerTask H). x.expire ≤ y.expire) id xs h.0,
          remove-IsSorted id xs h.1,
        )
  ]

  checkout_front-IsSorted :
      (now : ℕ) (xs : List (TimerTask H)) → IsSorted xs → IsSorted (checkout_front now xs).2
  unfolding checkout_front
  checkout_front-IsSorted now [] h = tt
  checkout_front-IsSorted now (x ∷ xs) h = elim (Bool-cases (leb x.expire (now + deviation))) [
    | inl e ↦ rw e h.1
    | inr e ↦ rw e h
  ]

  unfoldable pub step : Step H → List (TimerTask H) → List (TimerTask H)
  step (removing id) xs = (remove id xs).1
  step (inserting t) xs = insert_task t xs
  step (checking_out now) xs = (checkout_front now xs).2
  step clearing xs = []

  unfoldable pub steps : List (Step H) → List (TimerTask H) → List (TimerTask H)
  steps [] xs = xs
  steps (s ∷ ss) xs = steps ss (step s xs)

  -- Any sequence of the steps that hold the lock, however the threads interleave them, keeps the
  -- tasks in the order of their times.
  pub steps-IsSorted :
      (ss : List (Step H)) (xs : List (TimerTask H)) → IsSorted xs → IsSorted (steps ss xs)
  unfolding steps step
  steps-IsSorted [] xs h = h
  steps-IsSorted (removing id ∷ ss) xs h = steps-IsSorted ss _ (remove-IsSorted id xs h)
  steps-IsSorted (inserting t ∷ ss) xs h = steps-IsSorted ss _ (insert_task-IsSorted t xs h)
  steps-IsSorted (checking_out now ∷ ss) xs h =
      steps-IsSorted ss _ (checkout_front-IsSorted now xs h)
  steps-IsSorted (clearing ∷ ss) xs h = steps-IsSorted ss [] tt

  -- What `checkoutFront` says of a list: nothing is there, the first task is not due yet, as no
  -- task is, or the task that is taken out is due and no other task is due before it.
  abbrev pub Earliest :
      ℕ → List (TimerTask H) → Option (TimerTask H) × ℤ × List (TimerTask H) → Type 0
  Earliest now xs (none, pos wait, rest) = (rest ≡ xs) × (deviation < wait) × From (now + wait) xs
  Earliest now xs (none, negsuc n, rest) = (xs ≡ []) × (rest ≡ [])
  Earliest now xs (some t, timeout, rest) =
      (xs ≡ t ∷ rest) × (timeout ≡ pos 0) × (t.expire ≤ now + deviation) × From t.expire rest

  -- At the time `now`, and for a list in the order of the times, `checkoutFront` takes out a task
  -- that is due within the 10 ms of the deviation and before which no other task is due; where it
  -- takes none out of a list that is not empty, no task is due before the timeout that it gives has
  -- passed, which is more than 10 ms; the timeout -1 is given only for the empty list.
  pub checkout_front-Earliest :
      (now : ℕ) (xs : List (TimerTask H)) → IsSorted xs → Earliest now xs (checkout_front now xs)
  unfolding checkout_front
  checkout_front-Earliest now [] h = (refl, refl)
  checkout_front-Earliest now (x ∷ xs) h = elim (Bool-cases (leb x.expire (now + deviation))) [
    | inl e ↦ let due : x.expire ≤ now + 10 = ground arith in rw e (refl, refl, due, h.0)
    | inr e ↦
        let wait : 10 < x.expire - now = ground arith in
        rw e (
          refl,
          wait,
          (omega arith, From-later (now + (x.expire - now)) x.expire xs (omega arith) h.0),
        )
  ]

  checkout_front_due :
      (now : ℕ) (x : TimerTask H) (xs : List (TimerTask H))
      → leb x.expire (now + deviation) ≡ true
      → checkout_front now (x ∷ xs) ≡ (some x, pos 0, xs)
  unfolding checkout_front
  checkout_front_due now x xs e = rw e refl

  checkout_front_early :
      (now : ℕ) (x : TimerTask H) (xs : List (TimerTask H))
      → leb x.expire (now + deviation) ≡ false
      → checkout_front now (x ∷ xs) ≡ (none, pos (x.expire - now), x ∷ xs)
  unfolding checkout_front
  checkout_front_early now x xs e = rw e refl

  module _ (on_timer : OnTimer H) (now c b : ℕ) (x : TimerTask H) (xs : List (TimerTask H)) where
    -- The round that runs the first task.
    pub check_expire_due :
        leb x.expire (now + deviation) ≡ true
        → check_expire on_timer now c b (x ∷ xs) ≡ (
            let (answer, ran, ys) = run_task on_timer x.handler x xs in
            (pos 0, if answer && ran.is_repeat then insert_task (next_time c b ran) ys else ys))
    unfolding check_expire after_checkout
    check_expire_due e = ap (after_checkout on_timer c b) (checkout_front_due now x xs e)

    pub check_expire_early :
        leb x.expire (now + deviation) ≡ false
        → check_expire on_timer now c b (x ∷ xs) ≡ (pos (x.expire - now), x ∷ xs)
    unfolding check_expire after_checkout
    check_expire_early e = ap (after_checkout on_timer c b) (checkout_front_early now x xs e)
