-- ===== src/Comn/Timer/Names.antt =====
-- No two tasks of CTimerQueue have the same id, as long as one call runs at a time.
use dgnss_server.Common.{
  ℕ, ◌+◌, ◌≡◌, ◌≢◌, refl, sym, ap, ◌∙◌, Bool, true, false, not, Option, none, some, List, [], ◌∷◌,
  All, Bool-cases, inl, inr, ltb, leb, if_holds,
}
use dgnss_server.Comn.Text.{same_text, same_text_refl, same_text_eq, same_text_no, other_text}
use dgnss_server.Comn.Timer.{
  TimerId, TimerTask, OnTimer, insert_task, remove, cancel, add_task, add_timer, add_elapse,
  timer_task, update_expire, update_expire_from, checkout_front, check_expire, after_checkout,
  next_time, run_task, deviation,
}
use dgnss_server.Comn.Timer.Order.{
  All-insert_task, All-remove, check_expire_due, check_expire_early,
}

module _ {H : Type 0} where
  abbrev pub HasNo : TimerId → List (TimerTask H) → Type 0
  HasNo id xs = All (λ (x : TimerTask H). x.id ≢ id) xs

  abbrev pub IsUnique : List (TimerTask H) → Type 0
  IsUnique [] = Unit
  IsUnique (x ∷ xs) = HasNo x.id xs × IsUnique xs

  remove-HasNo : (id : TimerId) (xs : List (TimerTask H)) → IsUnique xs → HasNo id (remove id xs).1
  unfolding remove
  remove-HasNo id [] h = tt
  remove-HasNo id (x ∷ xs) h = elim (Bool-cases (same_text x.id id)) [
    | inl e ↦ let same = same_text_eq x.id id e in rw e (subst_id x.id same h.0)
    | inr e ↦ rw e (same_text_no x.id id e, remove-HasNo id xs h.1)
  ]
    where
      subst_id : (k : TimerId) → k ≡ id → HasNo k xs → HasNo id xs
      subst_id k same h = rw (sym same) h

  remove-IsUnique :
      (id : TimerId) (xs : List (TimerTask H)) → IsUnique xs → IsUnique (remove id xs).1
  unfolding remove
  remove-IsUnique id [] h = tt
  remove-IsUnique id (x ∷ xs) h = elim (Bool-cases (same_text x.id id)) [
    | inl e ↦ rw e h.1
    | inr e ↦
        rw e (All-remove (λ (y : TimerTask H). y.id ≢ x.id) id xs h.0, remove-IsUnique id xs h.1)
  ]

  insert_task-IsUnique :
      (t : TimerTask H) (xs : List (TimerTask H))
      → HasNo t.id xs
      → IsUnique xs
      → IsUnique (insert_task t xs)
  unfolding insert_task
  insert_task-IsUnique t [] h k = (tt, tt)
  insert_task-IsUnique t (x ∷ xs) h k =
      if_holds IsUnique (ltb t.expire x.expire) (t ∷ x ∷ xs) (x ∷ insert_task t xs) (h, k)
        (
          All-insert_task (λ (y : TimerTask H). y.id ≢ x.id) t xs (λ e. h.0 (sym e)) k.0,
          insert_task-IsUnique t xs h.1 k.1,
        )

  remove-insert_task :
      (t : TimerTask H) (xs : List (TimerTask H))
      → HasNo t.id xs
      → remove t.id (insert_task t xs) ≡ (true, xs)
  unfolding remove insert_task
  remove-insert_task t [] h = let e : (same_text t.id t.id) ≡ true = same_text_refl t.id in rw e
  remove-insert_task t (x ∷ xs) h =
      let self : (same_text t.id t.id) ≡ true = same_text_refl t.id in
      let other : (same_text x.id t.id) ≡ false = other_text x.id t.id h.0 in
      elim (Bool-cases (ltb t.expire x.expire)) [
        | inl e ↦ rw (e, self) refl
        | inr e ↦
            rw (e, other)
              (ap (λ (r : Bool × List (TimerTask H)). (r.0, x ∷ r.1)) (remove-insert_task t xs h.1))
      ]

  add_task_lem :
      (t : TimerTask H) (now : ℕ) (xs : List (TimerTask H))
      → IsUnique xs
      → let (fresh, ys) = add_task t now xs in
        IsUnique ys
        × (fresh ≡ not (cancel t.id xs).0)
        × (cancel t.id ys ≡ (true, (cancel t.id xs).1))
  unfolding add_task cancel update_expire_from
  add_task_lem t now xs h =
      let later = update_expire_from t now in
      let gone = remove-HasNo t.id xs h in
      (
        insert_task-IsUnique later (remove t.id xs).1 gone (remove-IsUnique t.id xs h),
        refl,
        remove-insert_task later (remove t.id xs).1 gone,
      )

  -- Where no two tasks have the same id, adding a repeating or a single timer with a handler, in a
  -- call that no other thread's call comes between, leaves it so and says whether the id was free.
  -- Cancelling the timer then succeeds, and leaves the list that cancelling the id alone would have
  -- left: an earlier task with the id does not come back.
  pub cancel-add :
      (id : TimerId) (h : H) (ms now : ℕ) (xs : List (TimerTask H))
      → IsUnique xs
      → (let (fresh, ys) = add_timer id (some h) ms now xs in
          IsUnique ys × (fresh ≡ not (cancel id xs).0) × (cancel id ys ≡ (true, (cancel id xs).1)))
        × (let (fresh, ys) = add_elapse id (some h) ms now xs in
            IsUnique ys
            × (fresh ≡ not (cancel id xs).0)
            × (cancel id ys ≡ (true, (cancel id xs).1)))
  unfolding add_timer add_elapse timer_task
  cancel-add id h ms now xs unique = (
    add_task_lem (timer_task id h ms true) now xs unique,
    add_task_lem (timer_task id h ms false) now xs unique,
  )

  -- A handler that leaves no two tasks with the same id, and adds none with the id of the task that it is called for.
  abbrev pub KeepsUnique : OnTimer H → Type 0
  KeepsUnique on_timer =
      (h : H) (id : TimerId) (ms : ℕ) (xs : List (TimerTask H))
      → HasNo id xs
      → IsUnique xs
      → HasNo id (on_timer h id ms xs).2 × IsUnique (on_timer h id ms xs).2

  run_task_lem :
      (on_timer : OnTimer H) (h : Option H) (t : TimerTask H) (xs : List (TimerTask H))
      → KeepsUnique on_timer
      → HasNo t.id xs
      → IsUnique xs
      → ((run_task on_timer h t xs).1.id ≡ t.id)
        × HasNo t.id (run_task on_timer h t xs).2
        × IsUnique (run_task on_timer h t xs).2
  unfolding run_task
  run_task_lem on_timer none t xs keep h k = (refl, h, k)
  run_task_lem on_timer (some v) t xs keep h k =
      let (gone, unique) = keep v t.id t.interval xs h k in (refl, gone, unique)

  next_time-id : (c b : ℕ) (t : TimerTask H) → (next_time c b t).id ≡ t.id
  unfolding next_time update_expire update_expire_from
  next_time-id c b t = if_holds (λ (x : TimerTask H). x.id ≡ t.id) _ _ _ refl refl

  -- `checkExpire` leaves no two tasks with the same id where there were none, if the handlers do so
  -- and add no timer with the id of the task that they are called for.
  pub check_expire-IsUnique :
      (on_timer : OnTimer H) (now compared base : ℕ) (xs : List (TimerTask H))
      → KeepsUnique on_timer
      → IsUnique xs
      → IsUnique (check_expire on_timer now compared base xs).1
  unfolding check_expire checkout_front after_checkout
  check_expire-IsUnique on_timer now c b [] keep h = tt
  check_expire-IsUnique on_timer now c b (x ∷ xs) keep h =
      elim (Bool-cases (leb x.expire (now + deviation))) [
        | inl e ↦
            let (same, gone, unique) = run_task_lem on_timer x.handler x xs keep h.0 h.1 in
            let (done, ran, ys) = run_task on_timer x.handler x xs in
            let t = next_time c b ran in
            rw (check_expire_due on_timer now c b x xs e) (
              if_holds IsUnique _ (insert_task t ys) ys
                (insert_task-IsUnique t ys (rw (next_time-id c b ran ∙ same) gone) unique) unique)
        | inr e ↦ rw (check_expire_early on_timer now c b x xs e) h
      ]
