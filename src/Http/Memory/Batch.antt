-- ===== src/Http/Memory/Batch.antt =====
-- Any sequence of calls of `record_job` of worker/src/docrunr_worker/health.py, in memory and in the
-- job store.
use docrunr.Base.{
  ◌≡◌, refl, ◌∙◌, sym, Bool, true, false, List, [], ◌∷◌, Text, ℤ, arith, map, All, ◌++◌,
}
use docrunr.JobStatus.{status_of, is_terminal, is_processing}
use docrunr.JobStore.Event.{Event, PersistedJob, Floats, stamp_event, event_to_job}
use docrunr.JobStore.Flush.{
  Store, flush_jobs, flush_batch, write_jobs, add_batch, latest, latest_from, advance_last_job_at,
}
use docrunr.JobStore.Flush.Batches.{flush_jobs-append}
use docrunr.Http.Memory.{Dict, Memory, stamp, record_job, record_jobs}
use docrunr.Http.Memory.Stamped.{
  IsRecordable, event_of, written_job, job_id-stamp, status-stamp, finished_at-stamp,
  job_id-written_job, status-written_job, finished_at-written_job,
}
use docrunr.Http.Memory.Agrees.{Agrees, count_event-Agrees}

terminal-processing :
    (st : Text) → is_terminal (status_of st) ≡ true → is_processing (status_of st) ≡ false
unfolding is_terminal
terminal-processing st h = ground (arith, h)

module _ {F : Type 0} (floats : Floats F) (print_int : ℤ → Text) (is_truthy : F → Bool)
    (clock write_time : Text) where
  -- What the writer of the store gets for a call, where `enqueue_job` and the writer read clocks
  -- of their own.
  abbrev pub queued : Text × Dict F → Text × Event F
  queued (now, result) =
      (write_time, stamp_event floats print_int clock (event_of (stamp now result)))

  abbrev job_of : Text × Dict F → PersistedJob F
  job_of (now, result) = written_job floats print_int now clock write_time result

  record_job-Agrees :
      (now : Text) (result : Dict F) (m : Memory F) (store : Store F)
      → IsRecordable (now, result)
      → Agrees floats print_int is_truthy m store
      → Agrees floats print_int is_truthy
          (record_job floats print_int is_truthy now result m)
          (flush_jobs floats (job_of (now, result) ∷ []) store)
  unfolding record_job
  record_job-Agrees now result m store c h =
      count_event-Agrees floats print_int is_truthy (stamp now result) (job_of (now, result))
        c.job_id c.status now (job_id-stamp floats print_int now clock write_time result c)
        (status-stamp floats print_int now clock write_time result c)
        (job_id-written_job floats print_int now clock write_time result c)
        (status-written_job floats print_int now clock write_time result c) c.plain_status
        c.plain_now
        (λ ended.
          finished_at-stamp floats print_int now clock write_time result c
            (terminal-processing c.status ended))
        (finished_at-written_job floats print_int now clock write_time result c) m store h

  Agrees-append :
      (m : Memory F) (store : Store F) (xs ys : List (PersistedJob F))
      → Agrees floats print_int is_truthy m (flush_jobs floats ys (flush_jobs floats xs store))
      → Agrees floats print_int is_truthy m (flush_jobs floats (xs ++ ys) store)
  Agrees-append m store xs ys h =
      let same = flush_jobs-append floats xs ys store in
      record {
        processed = h.processed ∙ sym same.1;
        failed = h.failed ∙ sym same.2;
        last = h.last ∙ sym same.3;
        jobs = λ k. rw same.0 (h.jobs k);
      }

  flush_nothing-Agrees :
      (m : Memory F) (store : Store F)
      → Agrees floats print_int is_truthy m store
      → Agrees floats print_int is_truthy m (flush_jobs floats [] store)
  unfolding flush_jobs write_jobs add_batch latest latest_from advance_last_job_at
  flush_nothing-Agrees m store h = record {
    processed = omega (arith, h.processed);
    failed = omega (arith, h.failed);
    last = h.last;
    jobs = h.jobs;
  }

  jobs-Agrees :
      (calls : List (Text × Dict F)) (m : Memory F) (store : Store F)
      → All IsRecordable calls
      → Agrees floats print_int is_truthy m store
      → Agrees floats print_int is_truthy
          (record_jobs floats print_int is_truthy calls m)
          (flush_jobs floats (map job_of calls) store)
  unfolding record_jobs
  jobs-Agrees [] m store c h = flush_nothing-Agrees m store h
  jobs-Agrees ((now, result) ∷ calls) m store c h =
      Agrees-append _ store (job_of (now, result) ∷ []) (map job_of calls) (
        jobs-Agrees calls (record_job floats print_int is_truthy now result m)
          (flush_jobs floats (job_of (now, result) ∷ []) store) c.1
          (record_job-Agrees now result m store c.0 h))

  queued-job_of :
      (calls : List (Text × Dict F))
      → map (λ (now, event). event_to_job floats print_int now event) (map queued calls)
        ≡ map job_of calls
  queued-job_of [] = refl
  queued-job_of ((now, result) ∷ calls) = rw (queued-job_of calls) refl

  -- The fallback in memory refines to the store: where the two agree, they do so behind any sequence
  -- of calls of `record_job` with recordable events, which go to the memory one by one and to the
  -- store in one batch that is carried through. So both count the same jobs as processed and
  -- failed, have the same time of the last job, and know the same jobs, each with the same status
  -- and latch.
  pub record_jobs-Agrees :
      (calls : List (Text × Dict F)) (m : Memory F) (store : Store F)
      → All IsRecordable calls
      → Agrees floats print_int is_truthy m store
      → Agrees floats print_int is_truthy
          (record_jobs floats print_int is_truthy calls m)
          (flush_batch floats print_int true (map queued calls) store)
  unfolding flush_batch record_jobs
  record_jobs-Agrees [] m store c h = h
  record_jobs-Agrees (call ∷ calls) m store c h =
      let done = jobs-Agrees (call ∷ calls) m store c h in
      rw (sym (queued-job_of (call ∷ calls))) at done
