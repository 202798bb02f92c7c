-- ===== src/Http/Memory/Agrees.antt =====
-- The jobs and counters that `record_job` of worker/src/docrunr_worker/health.py keeps in memory
-- behave as the table and the counters of the job store.
use docrunr.Base.{
  ℕ, ◌≡◌, refl, ◌∙◌, sym, Bool, true, Option, none, some, List, [], ◌∷◌, Text, codes, text_eq,
  text_eq_iff, if◌then◌else◌, ℤ, arith, Bool-cases, inl, inr,
}
use docrunr.JobStatus.{Status, status_of, Effect, replay_stats_transition, is_terminal}
use docrunr.JobStore.Event.{none_value, str_value, PersistedJob, Floats, print_value}
use docrunr.JobStore.Table.{Row, find_row, find_row-upsert, written, update_row}
use docrunr.JobStore.Flush.{
  Store, row_status, row_suppress, transition, flush_jobs, write_jobs, write_job, add_batch,
  advance_last_job_at, latest, add_finished, latest_from,
}
use docrunr.Http.Memory.{
  Dict, MemoryRow, Memory, get_or, find_job, put_job, new_item, prior_status, prior_suppress,
  status_value, memory_effect, finished_at_iso_for_stats, count_event, job_key, advance_finished,
}
use docrunr.Http.Memory.Stamped.{Plain}

module _ {F : Type 0} where
  find_job-put_job :
      (k job_id : Text) (row : MemoryRow F) (jobs : List (Text × MemoryRow F))
      → find_job k (put_job job_id row jobs)
        ≡ (if text_eq job_id k then some row else find_job k jobs)
  unfolding find_job put_job
  find_job-put_job k job_id row [] = refl
  find_job-put_job k job_id row ((j, old) ∷ jobs) = ground (
    arith,
    find_job-put_job k job_id row jobs,
    text_eq_iff j job_id,
    text_eq_iff j k,
    text_eq_iff job_id k,
  )

module _ {F : Type 0} (zero_duration : F) where
  -- The status, the counters and the latch do not read the duration, and the time only of an event
  -- that is terminal.
  abbrev pub Same : Effect F → Effect F → Type 0
  Same x y =
      (x.ok_delta ≡ y.ok_delta)
      × (x.err_delta ≡ y.err_delta)
      × (x.finished_at ≡ y.finished_at)
      × (x.new_suppress ≡ y.new_suppress)

  transition-Same :
      (cur : Option Status) (suppress : ℕ) (incoming : Status) (d e : F) (s t : Option Text)
      → (is_terminal incoming ≡ true → s ≡ t)
      → Same
          (replay_stats_transition zero_duration cur suppress incoming d s)
          (replay_stats_transition zero_duration cur suppress incoming e t)
  unfolding replay_stats_transition
  transition-Same cur suppress incoming d e s t h = ground arith

module _ {F : Type 0} (floats : Floats F) (print_int : ℤ → Text) (is_truthy : F → Bool) where
  abbrev pub view_memory : Option (MemoryRow F) → Option (Option Status × ℕ)
  view_memory none = none
  view_memory (some row) =
      some (prior_status floats print_int is_truthy (some row), row.replay_stats_suppress)

  abbrev pub view_stored : Option (Row F) → Option (Option Status × ℕ)
  view_stored none = none
  view_stored (some r) = some (some r.job.status, r.replay_stats_suppress)

  -- The same counters and time of the last job, and for each job the same status and latch.
  pub record Agrees (m : Memory F) (store : Store F) : Type 0 where
    pub processed : m.processed ≡ store.stats.processed
    pub failed : m.failed ≡ store.stats.failed
    pub last : m.last_job_finished_at ≡ store.stats.last_job_at
    pub jobs : (k : Text) → view_memory (find_job k m.jobs) ≡ view_stored (find_row k store.rows)

  prior_status-view :
      (row : Option (MemoryRow F)) (r : Option (Row F))
      → view_memory row ≡ view_stored r
      → (prior_status floats print_int is_truthy row ≡ row_status r)
        × (prior_suppress row ≡ row_suppress r)
  prior_status-view none none e = (refl, refl)
  prior_status-view none (some r) e = ground (arith, e)
  prior_status-view (some row) none e = ground (arith, e)
  prior_status-view (some row) (some r) e = ground (arith, e)

  advance_finished-add_batch :
      (last : Option Text) (t : Option Text)
      → advance_finished last t ≡ advance_last_job_at last (latest (add_finished t []))
  unfolding advance_last_job_at latest latest_from
  advance_finished-add_batch last none = refl
  advance_finished-add_batch none (some t) = ground arith
  advance_finished-add_batch (some s) (some t) = ground arith

module _ {F : Type 0} (floats : Floats F) (print_int : ℤ → Text) (is_truthy : F → Bool)
    (event : Dict F) (job : PersistedJob F) (job_id st now : Text)
    (named : event (codes "job_id") ≡ some (str_value job_id))
    (told : event (codes "status") ≡ some (str_value st)) (same_id : job.job_id ≡ job_id)
    (same_status : job.status ≡ status_of st) (plain_status : Plain st) (plain_now : Plain now)
    (ended : is_terminal (status_of st) ≡ true → event (codes "finished_at") ≡ some (str_value now))
    (same_end : is_terminal (status_of st) ≡ true → job.finished_at ≡ some now) where
  job_key-event : job_key floats print_int is_truthy event ≡ job_id
  unfolding job_key print_value
  job_key-event = rw named refl

  same_time :
      is_terminal (status_of st) ≡ true
      → finished_at_iso_for_stats floats print_int is_truthy
          (get_or none_value (event (codes "finished_at")))
        ≡ job.finished_at
  unfolding finished_at_iso_for_stats
  same_time h = rw (ended h, same_end h, plain_now.0, plain_now.1) refl

  effect-Same :
      (prior : Option (MemoryRow F)) (rows : List (Row F))
      → view_memory floats print_int is_truthy prior
        ≡ view_stored floats print_int is_truthy (find_row job.job_id rows)
      → Same floats.zero_float
          (memory_effect floats print_int is_truthy prior event)
          (transition floats rows job)
  unfolding memory_effect print_value
  effect-Same prior rows e =
      let cur = prior_status-view floats print_int is_truthy prior (find_row job.job_id rows) e in
      rw (told, plain_status.0, same_status, cur.0, cur.1)
        (transition-Same floats.zero_float (row_status (find_row job.job_id rows))
          (row_suppress (find_row job.job_id rows)) (status_of st) _ job.duration_seconds _
          job.finished_at same_time)

  status-new_item :
      (prior : Option (MemoryRow F)) → new_item prior event (codes "status") ≡ some (str_value st)
  unfolding new_item text_eq
  status-new_item prior = ground (arith, told)

  row-written :
      (prior : Option (MemoryRow F)) (r : Option (Row F)) (suppress : ℕ)
      → view_memory floats print_int is_truthy
          (some (record { item = new_item prior event; replay_stats_suppress = suppress }))
        ≡ view_stored floats print_int is_truthy (some (written job suppress r))
  unfolding update_row print_value status_value
  row-written prior none suppress = rw (status-new_item prior, same_status) refl
  row-written prior (some r) suppress = rw (status-new_item prior, same_status) refl

  pub count_event-Agrees :
      (m : Memory F) (store : Store F)
      → Agrees floats print_int is_truthy m store
      → Agrees floats print_int is_truthy
          (count_event floats print_int is_truthy event m)
          (flush_jobs floats (job ∷ []) store)
  unfolding count_event flush_jobs write_jobs write_job add_batch
  count_event-Agrees m store h =
      let key : job_key floats print_int is_truthy event ≡ job.job_id =
        job_key-event ∙ sym same_id in
      let prior = find_job job.job_id m.jobs in
      let theirs = transition floats store.rows job in
      let same = effect-Same prior store.rows (h.jobs job.job_id) in
      record {
        processed = rw key (omega (arith, h.processed, same.0));
        failed = rw key (omega (arith, h.failed, same.1));
        last =
            rw (key, same.2, h.last)
              (advance_finished-add_batch floats print_int is_truthy store.stats.last_job_at
                theirs.finished_at);
        jobs = λ k.
            rw (key, find_job-put_job, find_row-upsert, same.3)
              (elim (Bool-cases (text_eq job.job_id k)) [
                | inl own ↦
                    rw own (row-written prior (find_row job.job_id store.rows) theirs.new_suppress)
                | inr other ↦ rw other (h.jobs k)
              ]);
      }
