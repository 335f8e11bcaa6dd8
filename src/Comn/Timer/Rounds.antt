-- ===== src/Comn/Timer/Rounds.antt =====
-- The rounds of the thread of CTimerQueue that follow each other without waiting.
use dgnss_server.Common.{
  ℕ, zero, suc, ◌+◌, ◌-◌, ◌*◌, ◌≤◌, ◌<◌, ◌≡◌, ◌≢◌, refl, arith, Bool, true, false, ◌&&◌, Option,
  none, some, List, [], ◌∷◌, All, Bool-cases, inl, inr, ltb, leb, ◌==◌, if◌then◌else◌, length,
}
use dgnss_server.Common.Int.{ℤ, pos, negsuc, eq_ℤ}
use dgnss_server.Comn.Timer.{
  TimerId, TimerTask, OnTimer, insert_task, update_expire, update_expire_from, checkout_front,
  check_expire, after_checkout, next_time, run_task, deviation,
}
use dgnss_server.Comn.Timer.Order.{
  check_expire_due, check_expire_early, From, From-later, IsSorted, insert_task-IsSorted,
  All-insert_task,
}

module _ {H : Type 0} where
  -- Handlers that leave the interval and the list, and return `answer`.
  abbrev pub quiet : (H → TimerId → ℕ → Bool) → OnTimer H
  quiet answer h id ms xs = (answer h id ms, ms, xs)

  -- The loop of `run` while `checkExpire` gives the timeout 0, with which `timedwait` does not
  -- wait; the clock shows `now` all the time.
  unfoldable pub serve :
      (H → TimerId → ℕ → Bool) → ℕ → ℕ → List (TimerTask H) → Option (ℤ × List (TimerTask H))
  serve answer zero now xs = none
  serve answer (suc fuel) now xs =
      let (timeout, ys) = check_expire (quiet answer) now now now xs in
      let rest = serve answer fuel now ys in
      if eq_ℤ timeout (pos 0) then rest else some (timeout, ys)

  -- A repeating timer does not fire more than once in the time of the deviation.
  abbrev pub IsSlow : TimerTask H → Type 0
  IsSlow t = t.is_repeat ≡ true → deviation < t.interval

  -- How often a task can be due while the clock stands still.
  abbrev dues : ℕ → TimerTask H → ℕ
  dues now t = if ltb t.expire now then 2 else if leb t.expire (now + deviation) then 1 else 0

  abbrev total_dues : ℕ → List (TimerTask H) → ℕ
  total_dues now [] = 0
  total_dues now (x ∷ xs) = dues now x + total_dues now xs

  total_dues-insert_task :
      (now : ℕ) (t : TimerTask H) (xs : List (TimerTask H))
      → total_dues now (insert_task t xs) ≡ dues now t + total_dues now xs
  unfolding insert_task
  total_dues-insert_task now t [] = omega arith
  total_dues-insert_task now t (x ∷ xs) = elim (Bool-cases (ltb t.expire x.expire)) [
    | inl e ↦ rw e refl
    | inr e ↦ rw e (omega (arith, total_dues-insert_task now t xs))
  ]

  total_dues_most : (now : ℕ) (xs : List (TimerTask H)) → total_dues now xs ≤ 2 * length xs
  total_dues_most now [] = omega arith
  total_dues_most now (x ∷ xs) =
      let one : dues now x ≤ 2 = ground arith in omega (arith, one, total_dues_most now xs)

  fewer_dues :
      (now : ℕ) (t : TimerTask H)
      → t.expire ≤ now + 10
      → 10 < t.interval
      → dues now (next_time now now t) < dues now t
  unfolding next_time update_expire update_expire_from
  fewer_dues now t due slow = ground arith

  next_time-IsSlow : (c b : ℕ) (t : TimerTask H) → IsSlow t → IsSlow (next_time c b t)
  unfolding next_time update_expire update_expire_from
  next_time-IsSlow c b t h = elim (Bool-cases (ltb (t.expire + t.interval) c)) [
    | inl e ↦ rw e h
    | inr e ↦ rw e h
  ]

  -- One round that runs the first task.
  record Round (now : ℕ) (xs ys : List (TimerTask H)) : Type 0 where
    sorted : IsSorted ys
    slow : All IsSlow ys
    fewer : total_dues now ys < total_dues now xs

  round_lem :
      (answer : Bool) (now : ℕ) (x : TimerTask H) (xs : List (TimerTask H))
      → x.expire ≤ now + 10
      → IsSorted (x ∷ xs)
      → All IsSlow (x ∷ xs)
      → Round now
          (x ∷ xs)
          (if answer && x.is_repeat then insert_task (next_time now now x) xs else xs)
  round_lem answer now x xs due sorted slow = elim (Bool-cases (answer && x.is_repeat)) [
    | inl e ↦
        let t = next_time now now x in
        let repeats : x.is_repeat ≡ true = ground (arith, e) in
        rw e (record {
          sorted = insert_task-IsSorted t xs sorted.1;
          slow = All-insert_task IsSlow t xs (next_time-IsSlow now now x slow.0) slow.1;
          fewer =
              omega (arith, total_dues-insert_task now t xs, fewer_dues now x due (slow.0 repeats));
        })
    | inr e ↦
        let some_due : 0 < dues now x = ground (arith, due) in
        rw e (record { sorted = sorted.1; slow = slow.1; fewer = omega (arith, some_due) })
  ]

  run_quiet :
      (answer : H → TimerId → ℕ → Bool) (h : Option H) (t : TimerTask H) (xs : List (TimerTask H))
      → ((run_task (quiet answer) h t xs).1 ≡ t) × ((run_task (quiet answer) h t xs).2 ≡ xs)
  unfolding run_task
  run_quiet answer none t xs = (refl, refl)
  run_quiet answer (some v) t xs = (refl, refl)

  abbrev Served : (H → TimerId → ℕ → Bool) → ℕ → ℕ → List (TimerTask H) → Type 0
  Served answer n now xs =
      (timeout : ℤ) × (rest : List (TimerTask H)) × (serve answer n now xs ≡ some (timeout, rest))
      × (timeout ≢ pos 0)
      × From (now + suc deviation) rest

  serve_enough :
      (answer : H → TimerId → ℕ → Bool) (n now : ℕ) (xs : List (TimerTask H))
      → total_dues now xs < n
      → IsSorted xs
      → All IsSlow xs
      → Served answer n now xs
  unfolding serve
  serve_enough answer zero now xs enough sorted slow = absurd (omega arith)
  serve_enough answer (suc n) now [] enough sorted slow = (
    negsuc 0,
    [],
    unfold check_expire checkout_front after_checkout in refl,
    (λ e. ground (arith, e)),
    tt,
  )
  serve_enough answer (suc n) now (x ∷ xs) enough sorted slow =
      elim (Bool-cases (leb x.expire (now + deviation))) [
        | inl e ↦
            let due : x.expire ≤ now + 10 = ground (arith, e) in
            let (reply, ran, ys) = run_task (quiet answer) x.handler x xs in
            let r = round_lem reply now x xs due sorted slow in
            let same = run_quiet answer x.handler x xs in
            rw (check_expire_due (quiet answer) now now now x xs e, same.0, same.1)
              (serve_enough answer n now _ (omega (arith, r.fewer)) r.sorted r.slow)
        | inr e ↦
            let wait : 10 < x.expire - now = ground (arith, e) in
            let test : (x.expire - now + 0 == 0 + 0) ≡ false = ground arith in
            rw (check_expire_early (quiet answer) now now now x xs e, test)
              (
                pos (x.expire - now),
                x ∷ xs,
                refl,
                (λ z. ground (arith, z, wait)),
                (omega arith, From-later (now + suc deviation) x.expire xs (omega arith) sorted.0),
              )
      ]

  -- While the clock stands still, with handlers that change neither the interval nor the list, tasks in the order of
  -- their times and repeating timers of more than 10 ms, the rounds of `run` that follow without
  -- waiting end: after at most two rounds for each task and one more, `checkExpire` gives a timeout
  -- other than 0, and no task is left that is due within the 10 ms of the deviation.
  pub serve-none_due :
      (answer : H → TimerId → ℕ → Bool) (now : ℕ) (xs : List (TimerTask H))
      → IsSorted xs
      → All IsSlow xs
      → (timeout : ℤ) × (rest : List (TimerTask H)) × (serve answer (suc (2 * length xs)) now xs
          ≡ some (timeout, rest))
        × (timeout ≢ pos 0)
        × From (now + suc deviation) rest
  serve-none_due answer now xs sorted slow =
      serve_enough answer (suc (2 * length xs)) now xs (omega (arith, total_dues_most now xs))
        sorted slow
