-- ===== src/Consumer/Pending/Once.antt =====
-- Every submitted delivery is accounted for once.
use docrunr.Base.{
  ℕ, ◌+◌, ◌≡◌, refl, Bool, true, not, ◌||◌, List, [], ◌∷◌, ◌++◌, ◌==◌, ltb, if◌then◌else◌, arith,
  Bool-cases, inl, inr,
}
use docrunr.Consumer.Pending.{
  Pool, Surroundings, new_pool, is_pending, pop_pending, submit, finish_future, drop_future,
  look_up, is_looking, leave, act, run_first, run_callback, begin_stop, Event, submitted, looked,
  acted, ran_callback, stop_began, drained, step, run_events,
}

-- How often a number stands in a list.
abbrev pub count : ℕ → List ℕ → ℕ
count n [] = 0
count n (m ∷ ms) = (if m == n then 1 else 0) + count n ms

count-append : (n : ℕ) (xs ys : List ℕ) → count n (xs ++ ys) ≡ count n xs + count n ys
count-append n [] ys = omega arith
count-append n (x ∷ xs) ys = omega (arith, count-append n xs ys)

module _ {ℓ} {D : Type ℓ} where
  abbrev pub count_pending : ℕ → List (ℕ × D) → ℕ
  count_pending n [] = 0
  count_pending n ((m, d) ∷ ps) = (if m == n then 1 else 0) + count_pending n ps

  count_pending-append :
      (n : ℕ) (xs ys : List (ℕ × D))
      → count_pending n (xs ++ ys) ≡ count_pending n xs + count_pending n ys
  count_pending-append n [] ys = omega arith
  count_pending-append n (x ∷ xs) ys = omega (arith, count_pending-append n xs ys)

  pub count_pending-pop :
      (n future : ℕ) (ps : List (ℕ × D))
      → count_pending n (pop_pending future ps) ≡ (if future == n then 0 else count_pending n ps)
  unfolding pop_pending
  count_pending-pop n future [] = ground arith
  count_pending-pop n future ((m, d) ∷ ps) = ground (arith, count_pending-pop n future ps)

  pub is_pending-pos :
      (future : ℕ) (ps : List (ℕ × D)) → is_pending future ps ≡ ltb 0 (count_pending future ps)
  unfolding is_pending
  is_pending-pos future [] = refl
  is_pending-pos future ((m, d) ∷ ps) = ground (arith, is_pending-pos future ps)

  -- Every future that was submitted is in one of three places, once.
  abbrev pub Accounted : Pool D → Type 0
  Accounted p =
      (n : ℕ)
      → count_pending n p.pending + (count n p.finished + count n p.dropped)
        ≡ (if ltb n p.next_future then 1 else 0)

  submit-Accounted : (d : D) (p : Pool D) → Accounted p → Accounted (submit d p)
  unfolding submit
  submit-Accounted d p h n =
      ground (arith, h n, count_pending-append n p.pending ((p.next_future, d) ∷ []))

  -- A delivery that is popped is one of the finished or one of the dropped.
  popped-Accounted :
      (f : ℕ) (p : Pool D)
      → is_pending f p.pending ≡ true
      → Accounted p
      → (n : ℕ)
      → count_pending n (pop_pending f p.pending)
          + (count n (p.finished ++ f ∷ []) + count n p.dropped)
        ≡ (if ltb n p.next_future then 1 else 0)
  popped-Accounted f p there h n = ground (
    arith,
    h n,
    h f,
    is_pending-pos f p.pending,
    count_pending-pop n f p.pending,
    count-append n p.finished (f ∷ []),
  )

  pub finish_future-Accounted :
      (raises : Bool) (f : ℕ) (p : Pool D) → Accounted p → Accounted (finish_future raises f p).1
  unfolding finish_future
  finish_future-Accounted raises f p h n = elim (Bool-cases (is_pending f p.pending)) [
    | inr gone ↦ rw gone (h n)
    | inl there ↦ rw there (popped-Accounted f p there h n)
  ]

  drop_future-Accounted : (f : ℕ) (p : Pool D) → Accounted p → Accounted (drop_future f p)
  unfolding drop_future
  drop_future-Accounted f p h n = elim (Bool-cases (is_pending f p.pending)) [
    | inr gone ↦ rw gone (h n)
    | inl there ↦ rw there (
        ground (
          arith,
          popped-Accounted f p there h n,
          count-append n p.finished (f ∷ []),
          count-append n p.dropped (f ∷ []),
        ))
  ]

  look_up-Accounted :
      (f : ℕ) (saw_stopping : Bool) (p : Pool D)
      → Accounted p
      → Accounted (look_up f saw_stopping p)
  unfolding look_up
  look_up-Accounted f saw_stopping p h =
      elim (Bool-cases (saw_stopping || not (is_pending f p.pending))) [
        | inl skipped ↦ rw skipped h
        | inr goes ↦ rw goes h
      ]

  act-Accounted :
      (f : ℕ) (around : Surroundings) (p : Pool D) → Accounted p → Accounted (act f around p)
  unfolding act
  act-Accounted f around p h = elim (Bool-cases (not (is_looking f p.looking))) [
    | inl absent ↦ rw absent h
    | inr goes ↦
        let lost = not around.channel_open || not around.connection_open || not around.schedules in
        elim (Bool-cases lost) [
          | inl drops ↦
              rw (goes, drops)
                (drop_future-Accounted f (record p { looking = leave f p.looking }) h)
          | inr waits ↦ rw (goes, waits) h
        ]
  ]

  run_first-Accounted :
      (raises : Bool) (fs : List ℕ) (p : Pool D) → Accounted p → Accounted (run_first raises fs p)
  unfolding run_first
  run_first-Accounted raises [] p h = h
  run_first-Accounted raises (f ∷ fs) p h =
      finish_future-Accounted raises f (record p { callbacks = fs }) h

  step-Accounted : (e : Event D) (p : Pool D) → Accounted p → Accounted (step e p)
  unfolding step run_callback begin_stop
  step-Accounted (submitted d) p h = submit-Accounted d p h
  step-Accounted (looked f saw_stopping) p h = look_up-Accounted f saw_stopping p h
  step-Accounted (acted f around) p h = act-Accounted f around p h
  step-Accounted (ran_callback raises) p h = run_first-Accounted raises p.callbacks p h
  step-Accounted stop_began p h = h
  step-Accounted (drained raises f) p h = finish_future-Accounted raises f p h

  run-Accounted :
      (events : List (Event D)) (p : Pool D) → Accounted p → Accounted (run_events events p)
  unfolding run_events
  run-Accounted [] p h = h
  run-Accounted (e ∷ events) p h = run-Accounted events (step e p) (step-Accounted e p h)

  -- In whatever order the threads of the pool, the thread of the broker and `stop` make their
  -- accesses to the table, and wherever the completion of a delivery raises, each delivery that went
  -- to the pool stands exactly once in the table, among those that were taken for completion, or
  -- among those that were dropped, and no other does.
  pub run_events-Accounted : (events : List (Event D)) → Accounted (run_events events new_pool)
  run_events-Accounted events = run-Accounted events new_pool (λ n. ground arith)
