-- ===== src/Comn/Timer.antt =====
-- The timers of comn/src/CTimerQueue.cpp and comn/include/CTimerQueue.h: a list of tasks in the
-- order of their times, which one thread runs and any thread changes. Times are milliseconds of a
-- clock that shows no negative time, and the sums of type int64_t do not overflow. A handler is a
-- value of a parameter, and its `onTimer` a parameter, which may change the list. Each function
-- that holds the lock is one step. The thread itself and its waiting are left out.
pub mod Order
pub mod Names
pub mod Rounds
use dgnss_server.Common.{
  ℕ, ◌+◌, ◌-◌, Bool, true, false, not, ◌&&◌, Option, none, some, List, [], ◌∷◌, ltb, leb,
  if◌then◌else◌,
}
use dgnss_server.Common.Int.{ℤ, pos, negsuc}
use dgnss_server.Comn.Text.{same_text}

abbrev pub TimerId : Type 0
TimerId = List ℕ

pub record TimerTask (H : Type 0) : Type 0 where
  pub id : TimerId
  pub handler : Option H
  pub interval : ℕ
  pub is_repeat : Bool
  pub expire : ℕ

abbrev pub deviation : ℕ
deviation = 10

-- `onTimer` gets the handler, the task's id and interval, and the list; it may change the interval
-- and the list.
abbrev pub OnTimer : Type 0 → Type 0
OnTimer H = H → TimerId → ℕ → List (TimerTask H) → Bool × ℕ × List (TimerTask H)

module _ {H : Type 0} where
  unfoldable pub timer_task : TimerId → H → ℕ → Bool → TimerTask H
  timer_task id h ms repeats = record {
    id = id;
    handler = some h;
    interval = ms;
    is_repeat = repeats;
    expire = ms;
  }

  unfoldable pub update_expire : TimerTask H → TimerTask H
  update_expire t = record t { expire = t.expire + t.interval }

  unfoldable pub update_expire_from : TimerTask H → ℕ → TimerTask H
  update_expire_from t base = record t { expire = t.interval + base }

  -- `insert` at the place that `findWithExpire` gives, which is that of the first task with a later
  -- time in a list that is in order.
  unfoldable pub insert_task : TimerTask H → List (TimerTask H) → List (TimerTask H)
  insert_task t [] = t ∷ []
  insert_task t (x ∷ xs) =
      let rest = insert_task t xs in if ltb t.expire x.expire then t ∷ x ∷ xs else x ∷ rest

  -- `remove`, with the task that `find` gives: whether there is one, and the list.
  unfoldable pub remove : TimerId → List (TimerTask H) → Bool × List (TimerTask H)
  remove id [] = (false, [])
  remove id (x ∷ xs) =
      let (found, rest) = remove id xs in
      if same_text x.id id then (true, xs) else (found, x ∷ rest)

  unfoldable pub cancel : TimerId → List (TimerTask H) → Bool × List (TimerTask H)
  cancel id tasks = remove id tasks

  -- `add` at the time `now`. The source takes the lock for `remove`, and again for `insertTask`:
  -- this is a call that no other thread's call comes between.
  unfoldable pub add_task : TimerTask H → ℕ → List (TimerTask H) → Bool × List (TimerTask H)
  add_task t now tasks =
      let (found, rest) = remove t.id tasks in
      (not found, insert_task (update_expire_from t now) rest)

  unfoldable pub add_timer :
      TimerId → Option H → ℕ → ℕ → List (TimerTask H) → Bool × List (TimerTask H)
  add_timer id none ms now tasks = (false, tasks)
  add_timer id (some h) ms now tasks = add_task (timer_task id h ms true) now tasks

  unfoldable pub add_elapse :
      TimerId → Option H → ℕ → ℕ → List (TimerTask H) → Bool × List (TimerTask H)
  add_elapse id none ms now tasks = (false, tasks)
  add_elapse id (some h) ms now tasks = add_task (timer_task id h ms false) now tasks

  -- The task that is taken out, the timeout, and the list.
  unfoldable pub checkout_front :
      ℕ → List (TimerTask H) → Option (TimerTask H) × ℤ × List (TimerTask H)
  checkout_front now [] = (none, negsuc 0, [])
  checkout_front now (x ∷ xs) =
      if leb x.expire (now + deviation)
      then (some x, pos 0, xs)
      else (none, pos (x.expire - now), x ∷ xs)

  -- The answer, the task with its interval, and the list.
  unfoldable pub run_task :
      OnTimer H
      → Option H
      → TimerTask H
      → List (TimerTask H)
      → Bool × TimerTask H × List (TimerTask H)
  run_task on_timer none t tasks = (false, t, tasks)
  run_task on_timer (some h) t tasks =
      let (answer, interval, rest) = on_timer h t.id t.interval tasks in
      (answer, record t { interval = interval }, rest)

  -- The time at which a task that has run is due again; the clock is read twice.
  unfoldable pub next_time : ℕ → ℕ → TimerTask H → TimerTask H
  next_time compared base t =
      let later = update_expire t in
      if ltb later.expire compared then update_expire_from later base else later

  -- `checkExpire` after `checkoutFront`.
  unfoldable pub after_checkout :
      OnTimer H → ℕ → ℕ → Option (TimerTask H) × ℤ × List (TimerTask H) → ℤ × List (TimerTask H)
  after_checkout on_timer compared base (none, timeout, tasks) = (timeout, tasks)
  after_checkout on_timer compared base (some t, timeout, tasks) =
      let (done, ran, rest) = run_task on_timer t.handler t tasks in
      (
        pos 0,
        if done && ran.is_repeat then insert_task (next_time compared base ran) rest else rest,
      )

  -- `checkExpire`, where the clock is read up to three times: the timeout, and the list.
  unfoldable pub check_expire : OnTimer H → ℕ → ℕ → ℕ → List (TimerTask H) → ℤ × List (TimerTask H)
  check_expire on_timer now compared base tasks =
      after_checkout on_timer compared base (checkout_front now tasks)
