-- ===== src/JobStore/Table.antt =====
-- The table `job_events` and the upsert of `_flush_batch` in
-- worker/src/docrunr_worker/job_store.py. The rows stand in the order of their `id`, which an
-- update keeps; `job_id` is unique.
use docrunr.Base.{
  ℕ, ◌≡◌, refl, inl, inr, Option, none, some, List, [], ◌∷◌, arith, Text, text_eq, text_eq_iff,
  if◌then◌else◌, Bool-cases,
}
use docrunr.JobStatus.{is_terminal, is_processing}
use docrunr.JobStore.Event.{PersistedJob}

pub record Row (F : Type 0) : Type 0 where
  pub job : PersistedJob F
  pub replay_stats_suppress : ℕ

module _ {F : Type 0} where
  -- `SELECT … FROM job_events WHERE job_id = ?`
  unfoldable pub find_row : Text → List (Row F) → Option (Row F)
  find_row job_id [] = none
  find_row job_id (r ∷ rows) =
      let rest = find_row job_id rows in if text_eq r.job.job_id job_id then some r else rest

  -- `ON CONFLICT(job_id) DO UPDATE SET …`
  unfoldable pub update_row : PersistedJob F → ℕ → Row F → Row F
  unfolding is_terminal
  update_row job suppress r = record {
    job = record job {
      job_id = r.job.job_id;
      received_at = if is_processing job.status then job.received_at else r.job.received_at;
      finished_at = if is_terminal job.status then job.finished_at else none;
    };
    replay_stats_suppress = suppress;
  }

  unfoldable pub upsert : PersistedJob F → ℕ → List (Row F) → List (Row F)
  upsert job suppress [] = record { job = job; replay_stats_suppress = suppress } ∷ []
  upsert job suppress (r ∷ rows) =
      let rest = upsert job suppress rows in
      if text_eq r.job.job_id job.job_id then update_row job suppress r ∷ rows else r ∷ rest

  -- The row that the upsert leaves for the job.
  abbrev pub written : PersistedJob F → ℕ → Option (Row F) → Row F
  written job suppress none = record { job = job; replay_stats_suppress = suppress }
  written job suppress (some r) = update_row job suppress r

  job_id-update_row :
      (job : PersistedJob F) (suppress : ℕ) (r : Row F)
      → (update_row job suppress r).job.job_id ≡ r.job.job_id
  unfolding update_row
  job_id-update_row job suppress r = refl

  -- An upsert is seen under its own job only.
  pub find_row-upsert :
      (k : Text) (job : PersistedJob F) (suppress : ℕ) (rows : List (Row F))
      → find_row k (upsert job suppress rows) ≡ (
          if text_eq job.job_id k
          then some (written job suppress (find_row job.job_id rows))
          else find_row k rows)
  unfolding find_row upsert
  find_row-upsert k job suppress [] = refl
  find_row-upsert k job suppress (r ∷ rows) = ground (
    arith,
    find_row-upsert k job suppress rows,
    job_id-update_row job suppress r,
    text_eq_iff r.job.job_id job.job_id,
    text_eq_iff r.job.job_id k,
    text_eq_iff job.job_id k,
  )

  -- The job ids of the rows differ.
  abbrev pub Unique : List (Row F) → Type 0
  Unique [] = Unit
  Unique (r ∷ rows) = (find_row r.job.job_id rows ≡ none) × Unique rows

  pub upsert-Unique :
      (job : PersistedJob F) (suppress : ℕ) (rows : List (Row F))
      → Unique rows
      → Unique (upsert job suppress rows)
  unfolding upsert
  upsert-Unique job suppress [] h = (unfold find_row in refl, tt)
  upsert-Unique job suppress (r ∷ rows) h = elim (Bool-cases (text_eq r.job.job_id job.job_id)) [
    | inl same ↦ rw same (rw job_id-update_row h.0, h.1)
    | inr new ↦ rw new (
      ground (
        arith,
        find_row-upsert r.job.job_id job suppress rows,
        text_eq_iff r.job.job_id job.job_id,
        text_eq_iff job.job_id r.job.job_id,
        h,
      ),
      upsert-Unique job suppress rows h.1,
    )
  ]
