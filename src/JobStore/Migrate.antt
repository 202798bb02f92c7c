-- ===== src/JobStore/Migrate.antt =====
-- `_migrate_job_events_lifecycle` of worker/src/docrunr_worker/job_store.py: a table of an older
-- version is built anew. Its rows stand in the order of their `id`, in which SQLite reads them.
pub mod Rebuilt
use docrunr.Base.{
  ℕ, Bool, true, false, not, ◌||◌, Option, none, some, List, [], ◌∷◌, Text, text_eq, ℤ, pos,
  if◌then◌else◌,
}
use docrunr.JobStatus.{Status}
use docrunr.JobStore.Event.{Floats}
use docrunr.JobStore.Table.{Row}
use docrunr.JobStore.Flush.{Stats, Store, recompute_stats}

-- A row behind `_migrate_job_events_columns`, which adds the columns that are missing. A column
-- `received_at` that is not there is `none`.
pub record OldRow (F : Type 0) : Type 0 where
  pub job_id : Text
  pub status : Status
  pub filename : Text
  pub source_path : Text
  pub markdown_path : Option Text
  pub chunks_path : Option Text
  pub total_tokens : ℤ
  pub total_chars : ℤ
  pub chunk_count : ℤ
  pub duration_seconds : F
  pub error_text : Option Text
  pub received_at : Option Text
  pub finished_at : Option Text
  pub mime_type : Option Text
  pub size_bytes : Option ℤ
  pub priority : Option ℤ

pub record OldTable (F : Type 0) : Type 0 where
  pub has_received : Bool
  pub finished_not_null : Bool
  pub rows : List (OldRow F)

-- The table as it is, at most with an empty column more; the new table; or the `IntegrityError` of
-- a row with no time for `received_at`.
pub data Migrated (F : Type 0) : Type 0 where
  unchanged refused : Migrated F
  rebuilt : Store F → Migrated F

-- `COALESCE(value, default)`
abbrev pub coalesce : {A : Type 0} → Option A → A → A
coalesce none default = default
coalesce (some value) default = value

module _ {F : Type 0} where
  abbrev pub has_newer : Text → List (OldRow F) → Bool
  has_newer job_id [] = false
  has_newer job_id (r ∷ rows) = text_eq r.job_id job_id || has_newer job_id rows

  -- `WHERE id IN (SELECT MAX(id) FROM job_events GROUP BY job_id)`
  pub newest : List (OldRow F) → List (OldRow F)
  newest [] = []
  newest (r ∷ rows) = let rest = newest rows in if has_newer r.job_id rows then rest else r ∷ rest

  -- The columns of the `INSERT`; `total_chars` is not among them and takes its default.
  abbrev pub new_row : OldRow F → Text → Row F
  new_row r received_at = record {
    job = record {
      job_id = r.job_id;
      status = r.status;
      filename = r.filename;
      source_path = r.source_path;
      markdown_path = r.markdown_path;
      chunks_path = r.chunks_path;
      total_tokens = r.total_tokens;
      total_chars = pos 0;
      chunk_count = r.chunk_count;
      duration_seconds = r.duration_seconds;
      error_text = r.error_text;
      received_at = received_at;
      finished_at = r.finished_at;
      updated_at = none;
      mime_type = coalesce r.mime_type [];
      size_bytes = coalesce r.size_bytes (pos 0);
      priority = coalesce r.priority (pos 0);
    };
    replay_stats_suppress = 0;
  }

  -- `COALESCE(received_at, finished_at)`
  abbrev pub time_of : OldRow F → Option Text
  time_of r = elim r.received_at [ some t ↦ some t | none ↦ r.finished_at ]

  abbrev pub insert_row : OldRow F → Option Text → Option (List (Row F)) → Option (List (Row F))
  insert_row r none rest = none
  insert_row r (some t) none = none
  insert_row r (some t) (some rows) = some (new_row r t ∷ rows)

  pub insert_rows : List (OldRow F) → Option (List (Row F))
  insert_rows [] = some []
  insert_rows (r ∷ rows) = insert_row r (time_of r) (insert_rows rows)

module _ {F : Type 0} (floats : Floats F) where
  abbrev pub with_rows : Stats F → Option (List (Row F)) → Migrated F
  with_rows stats none = refused
  with_rows stats (some rows) =
      rebuilt (recompute_stats floats (record { rows = rows; stats = stats }))

  unfoldable pub migrate_lifecycle : OldTable F → Stats F → Migrated F
  unfolding insert_rows newest
  migrate_lifecycle table stats =
      if not table.has_received || table.finished_not_null
      then with_rows stats (insert_rows (newest table.rows))
      else unchanged
