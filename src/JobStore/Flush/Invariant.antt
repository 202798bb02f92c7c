-- ===== src/JobStore/Flush/Invariant.antt =====
-- The invariant of the store: job ids are unique, the finish times agree with the statuses, and
-- every outcome that a row shows has been counted.
use docrunr.Base.{
  ℕ, ◌+◌, ◌≤◌, ◌≡◌, ◌≢◌, refl, Bool, true, false, ◌||◌, Option, none, some, List, [], ◌∷◌, arith,
  Text, text_eq, if◌then◌else◌, ◌==◌, All, Bool-cases, inl, inr, map, ℤ,
}
use docrunr.JobStatus.{Status, processing, ok, error, other, is_terminal, replay_stats_transition}
use docrunr.JobStore.Event.{
  PersistedJob, Floats, Event, event_to_job, finished_time, as_optional_str,
}
use docrunr.JobStore.Table.{Row, find_row, update_row, upsert, written, Unique, upsert-Unique}
use docrunr.JobStore.Flush.{
  Store, Batch, row_status, row_suppress, write_job, write_jobs, start_batch, add_batch, flush_jobs,
  flush_batch, transition,
}

-- A running job has no finish time, and a finished one has one.
abbrev pub Lifecycle : Status → Option Text → Type 0
Lifecycle processing finished = finished ≡ none
Lifecycle ok finished = finished ≢ none
Lifecycle error finished = finished ≢ none
Lifecycle (other text) finished = Unit

finished_time-Lifecycle :
    {F : Type 0} (floats : Floats F) (print_int : ℤ → Text) (status : Status)
    (finished : Option Text) (now : Text)
    → Lifecycle status (finished_time floats print_int status finished now)
unfolding finished_time
finished_time-Lifecycle floats print_int processing finished now = refl
finished_time-Lifecycle floats print_int ok finished now = λ e. cc
finished_time-Lifecycle floats print_int error finished now = λ e. cc
finished_time-Lifecycle floats print_int (other text) finished now = tt

module _ {F : Type 0} where
  abbrev pub HasLifecycle : PersistedJob F → Type 0
  HasLifecycle job = Lifecycle job.status job.finished_at

  abbrev pub RowHasLifecycle : Row F → Type 0
  RowHasLifecycle r = HasLifecycle r.job

  -- Whether the row shows an outcome, or that its replay is not to be counted.
  abbrev settled : Row F → ℕ
  settled r = if is_terminal r.job.status || (r.replay_stats_suppress == 1) then 1 else 0

  abbrev pub settled_rows : List (Row F) → ℕ
  settled_rows [] = 0
  settled_rows (r ∷ rows) = settled r + settled_rows rows

  abbrev settled_before : Option (Row F) → ℕ
  settled_before none = 0
  settled_before (some r) = settled r

  -- The upsert exchanges one row.
  settled_rows-upsert :
      (job : PersistedJob F) (suppress : ℕ) (rows : List (Row F))
      → settled_rows (upsert job suppress rows) + settled_before (find_row job.job_id rows)
        ≡ settled_rows rows + settled (written job suppress (find_row job.job_id rows))
  unfolding upsert find_row
  settled_rows-upsert job suppress [] = omega arith
  settled_rows-upsert job suppress (r ∷ rows) =
      elim (Bool-cases (text_eq r.job.job_id job.job_id)) [
        | inl same ↦ rw same (omega arith)
        | inr new ↦ rw new (omega (arith, settled_rows-upsert job suppress rows))
      ]

module _ {F : Type 0} (zero_duration : F) where
  -- What the write of one event shows has been shown before, or is counted now.
  settled-transition :
      (job : PersistedJob F) (o : Option (Row F))
      → let effect =
          replay_stats_transition zero_duration
            (row_status o)
            (row_suppress o)
            job.status
            job.duration_seconds
            job.finished_at in
        settled (written job effect.new_suppress o)
        ≤ settled_before o + (effect.ok_delta + effect.err_delta)
  unfolding replay_stats_transition update_row
  settled-transition job none = ground arith
  settled-transition job (some r) = ground arith

module _ {F : Type 0} where
  update_row-Lifecycle :
      (job : PersistedJob F) (suppress : ℕ) (r : Row F)
      → HasLifecycle job
      → RowHasLifecycle (update_row job suppress r)
  unfolding update_row
  update_row-Lifecycle job suppress r h = go job.status job.finished_at h
    where
      go :
          (status : Status) (finished : Option Text)
          → Lifecycle status finished
          → Lifecycle status (if is_terminal status then finished else none)
      go processing finished h = refl
      go ok finished h = h
      go error finished h = h
      go (other text) finished h = tt

  upsert-Lifecycle :
      (job : PersistedJob F) (suppress : ℕ) (rows : List (Row F))
      → HasLifecycle job
      → All RowHasLifecycle rows
      → All RowHasLifecycle (upsert job suppress rows)
  unfolding upsert
  upsert-Lifecycle job suppress [] h k = (h, tt)
  upsert-Lifecycle job suppress (r ∷ rows) h k =
      elim (Bool-cases (text_eq r.job.job_id job.job_id)) [
        | inl same ↦ rw same (update_row-Lifecycle job suppress r h, k.1)
        | inr new ↦ rw new (k.0, upsert-Lifecycle job suppress rows h k.1)
      ]

pub record IsValid {F : Type 0} (store : Store F) : Type 0 where
  pub unique : Unique store.rows
  pub lifecycle : All RowHasLifecycle store.rows
  pub counted : settled_rows store.rows ≤ store.stats.processed + store.stats.failed

module _ {F : Type 0} (floats : Floats F) where
  -- The invariant inside a batch that began with `base` outcomes counted.
  record BatchIsValid (base : ℕ) (b : Batch F) : Type 0 where
    unique : Unique b.rows
    lifecycle : All RowHasLifecycle b.rows
    counted : settled_rows b.rows ≤ base + (b.ok_count + b.error_count)

  write_job-BatchIsValid :
      (base : ℕ) (job : PersistedJob F) (b : Batch F)
      → HasLifecycle job
      → BatchIsValid base b
      → BatchIsValid base (write_job floats job b)
  unfolding write_job
  write_job-BatchIsValid base job b lives h = record {
    unique = upsert-Unique job _ b.rows h.unique;
    lifecycle = upsert-Lifecycle job _ b.rows lives h.lifecycle;
    counted = omega (
      arith,
      h.counted,
      settled_rows-upsert job (transition floats b.rows job).new_suppress b.rows,
      settled-transition floats.zero_float job (find_row job.job_id b.rows),
    );
  }

  write_jobs-BatchIsValid :
      (base : ℕ) (jobs : List (PersistedJob F)) (b : Batch F)
      → All HasLifecycle jobs
      → BatchIsValid base b
      → BatchIsValid base (write_jobs floats jobs b)
  unfolding write_jobs
  write_jobs-BatchIsValid base [] b lives h = h
  write_jobs-BatchIsValid base (job ∷ jobs) b lives h =
      write_jobs-BatchIsValid base jobs (write_job floats job b) lives.1
        (write_job-BatchIsValid base job b lives.0 h)

  flush_jobs-IsValid :
      (jobs : List (PersistedJob F)) (store : Store F)
      → All HasLifecycle jobs
      → IsValid store
      → IsValid (flush_jobs floats jobs store)
  unfolding flush_jobs add_batch
  flush_jobs-IsValid jobs store lives h =
      let start : BatchIsValid (store.stats.processed + store.stats.failed)
          (start_batch floats store.rows) =
        record { unique = h.unique; lifecycle = h.lifecycle; counted = omega (arith, h.counted) } in
      let done = write_jobs-BatchIsValid _ jobs (start_batch floats store.rows) lives start in
      record {
        unique = done.unique;
        lifecycle = done.lifecycle;
        counted = omega (arith, done.counted);
      }

  event_to_job-HasLifecycle :
      (print_int : ℤ → Text) (events : List (Text × Event F))
      → All HasLifecycle (map (λ (now, event). event_to_job floats print_int now event) events)
  unfolding event_to_job
  event_to_job-HasLifecycle print_int [] = tt
  event_to_job-HasLifecycle print_int (e ∷ events) = (
    finished_time-Lifecycle floats print_int _ (as_optional_str floats print_int e.1.finished_at)
        e.0,
    event_to_job-HasLifecycle print_int events,
  )

  -- Every flush, of whatever events and whether or not SQLite commits it, keeps the invariant:
  -- job ids are unique, a row at `processing` has no finish time and one at `ok` or `error` has one,
  -- and the counters add up to at least the number of rows that show an outcome or a replay that is
  -- not to be counted.
  pub flush_batch-IsValid :
      (print_int : ℤ → Text) (commits : Bool) (events : List (Text × Event F)) (store : Store F)
      → IsValid store
      → IsValid (flush_batch floats print_int commits events store)
  unfolding flush_batch
  flush_batch-IsValid print_int commits [] store h = h
  flush_batch-IsValid print_int true (e ∷ events) store h =
      flush_jobs-IsValid
        (map (λ (now, event). event_to_job floats print_int now event) (e ∷ events)) store
        (event_to_job-HasLifecycle print_int (e ∷ events)) h
  flush_batch-IsValid print_int false (e ∷ events) store h = h
