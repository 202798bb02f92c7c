-- ===== src/JobStore/Flush/Batches.antt =====
-- How the writer cuts the events into batches does not change what is stored.
use docrunr.Base.{
  ℕ, ◌+◌, ◌≡◌, refl, Option, none, some, List, [], ◌∷◌, ◌++◌, append_assoc, arith, Text,
  text_max_assoc, append-nil, ap, ◌∙◌,
}
use docrunr.JobStore.Event.{PersistedJob, Floats}
use docrunr.JobStore.Flush.{
  Store, Batch, add_finished, later, latest_from, latest, advance_last_job_at, write_job,
  write_jobs, start_batch, add_batch, flush_jobs,
}

advance-later :
    (cur best : Option Text) (t : Text)
    → advance_last_job_at cur (some (later best t)) ≡ some (later (advance_last_job_at cur best) t)
unfolding advance_last_job_at
advance-later none none t = refl
advance-later none (some s) t = refl
advance-later (some c) none t = ground arith
advance-later (some c) (some s) t = ground (arith, text_max_assoc c s t)

advance-latest_from :
    (cur best : Option Text) (times : List Text)
    → advance_last_job_at cur (latest_from best times)
      ≡ latest_from (advance_last_job_at cur best) times
unfolding latest_from
advance-latest_from cur best [] = refl
advance-latest_from cur best (t ∷ times) =
    advance-latest_from cur (some (later best t)) times
    ∙ ap (λ b. latest_from b times) (advance-later cur best t)

advance-latest :
    (cur : Option Text) (times : List Text)
    → advance_last_job_at cur (latest times) ≡ latest_from cur times
unfolding latest
advance-latest none times =
    advance-latest_from none none times
    ∙ ap (λ b. latest_from b times) (unfold advance_last_job_at in refl)
advance-latest (some c) times =
    advance-latest_from (some c) none times
    ∙ ap (λ b. latest_from b times) (unfold advance_last_job_at in refl)

latest_from-append :
    (best : Option Text) (ts us : List Text)
    → latest_from best (ts ++ us) ≡ latest_from (latest_from best ts) us
unfolding latest_from
latest_from-append best [] us = refl
latest_from-append best (t ∷ ts) us = latest_from-append (some (later best t)) ts us

add_finished-append :
    (o : Option Text) (ts us : List Text) → add_finished o (ts ++ us) ≡ ts ++ add_finished o us
add_finished-append none ts us = refl
add_finished-append (some []) ts us = refl
add_finished-append (some (c ∷ t)) ts us = append_assoc ts us ((c ∷ t) ∷ [])

module _ {F : Type 0} (floats : Floats F) where
  -- `b` is `c` behind a batch that had counted `n` and `m` and seen `ts`.
  record IsBehind (n m : ℕ) (ts : List Text) (b c : Batch F) : Type 0 where
    rows : b.rows ≡ c.rows
    oks : b.ok_count ≡ n + c.ok_count
    errors : b.error_count ≡ m + c.error_count
    times : b.transitioned_finished_at ≡ ts ++ c.transitioned_finished_at

  write_job-IsBehind :
      {n m : ℕ} {ts : List Text} (b c : Batch F) (job : PersistedJob F)
      → IsBehind n m ts b c
      → IsBehind n m ts (write_job floats job b) (write_job floats job c)
  unfolding write_job
  write_job-IsBehind b c job h = record {
    rows = rw h.rows;
    oks = rw (h.rows, h.oks) (omega arith);
    errors = rw (h.rows, h.errors) (omega arith);
    times = rw (h.rows, h.times) (add_finished-append _ _ c.transitioned_finished_at);
  }

  write_jobs-IsBehind :
      {n m : ℕ} {ts : List Text} (b c : Batch F) (jobs : List (PersistedJob F))
      → IsBehind n m ts b c
      → IsBehind n m ts (write_jobs floats jobs b) (write_jobs floats jobs c)
  unfolding write_jobs
  write_jobs-IsBehind b c [] h = h
  write_jobs-IsBehind b c (job ∷ jobs) h =
      write_jobs-IsBehind (write_job floats job b) (write_job floats job c) jobs
        (write_job-IsBehind b c job h)

  write_jobs-append :
      (xs ys : List (PersistedJob F)) (b : Batch F)
      → write_jobs floats (xs ++ ys) b ≡ write_jobs floats ys (write_jobs floats xs b)
  unfolding write_jobs
  write_jobs-append [] ys b = refl
  write_jobs-append (x ∷ xs) ys b = write_jobs-append xs ys (write_job floats x b)

  -- Jobs written in one batch or in two give the same rows, counters and time of the last job.
  pub flush_jobs-append :
      (xs ys : List (PersistedJob F)) (store : Store F)
      → let one = flush_jobs floats (xs ++ ys) store in
        let two = flush_jobs floats ys (flush_jobs floats xs store) in
        (one.rows ≡ two.rows)
        × (one.stats.processed ≡ two.stats.processed)
        × (one.stats.failed ≡ two.stats.failed)
        × (one.stats.last_job_at ≡ two.stats.last_job_at)
  unfolding flush_jobs add_batch
  flush_jobs-append xs ys store =
      let first = write_jobs floats xs (start_batch floats store.rows) in
      let fresh : Batch F = start_batch floats first.rows in
      let joint = write_jobs-append xs ys (start_batch floats store.rows) in
      let behind : IsBehind first.ok_count first.error_count first.transitioned_finished_at
          (write_jobs floats ys first) (write_jobs floats ys fresh) =
        write_jobs-IsBehind first fresh ys (record {
          rows = refl;
          oks = omega arith;
          errors = omega arith;
          times = rw append-nil;
        }) in
      (
        rw joint behind.rows,
        rw joint (omega (arith, behind.oks)),
        rw joint (omega (arith, behind.errors)),
        rw (joint, behind.times, advance-latest, advance-latest, advance-latest)
            (latest_from-append store.stats.last_job_at first.transitioned_finished_at
              (write_jobs floats ys fresh).transitioned_finished_at),
      )
