-- ===== src/Tests/Tables.antt =====
-- The tables of the two stores at small inputs; numbers stand for floats.
use docrunr.Base.{
  ℕ, ◌+◌, ◌≡◌, refl, true, false, none, some, List, [], ◌∷◌, Text, codes, ℤ, pos, text_eq,
}
use docrunr.JobStatus
use docrunr.JobStatus.{Status}
use docrunr.JobStore.Event.{PersistedJob, Floats, none_value, str_value, int_value}
use docrunr.JobStore.Table.{find_row}
use docrunr.JobStore.Flush.{Store, Stats, flush_jobs, flush_batch, recompute_stats}
use docrunr.JobStore.Flush.History.{own, life, find_row-flush_jobs}
use docrunr.JobStore.Migrate.{OldRow, OldTable, new_row, migrate_lifecycle}
use docrunr.JobStore.Migrate.Rebuilt.{IsRebuilt, migrate_lifecycle-IsRebuilt}
use docrunr.Llm.Store
use docrunr.Llm.Store.{LlmEvent, LlmStore}
use docrunr.Llm.Store.Refines.{view, view_event, flush_batch-view}

abbrev seconds : Floats ℕ
seconds = record {
  zero_float = 0;
  add_float = λ a b. a + b;
  truncate = pos;
  of_int = λ n. 0;
  parse_float = λ t. none;
  print_float = λ x. [];
}

abbrev unseen : ℤ → Text
unseen n = []

abbrev job_of : Text → Status → PersistedJob ℕ
job_of id status = record {
  job_id = id;
  status = status;
  filename = codes "f";
  source_path = codes "s";
  markdown_path = none;
  chunks_path = none;
  total_tokens = pos 0;
  total_chars = pos 0;
  chunk_count = pos 0;
  duration_seconds = 2;
  error_text = none;
  received_at = codes "1";
  finished_at = some (codes "2");
  updated_at = none;
  mime_type = [];
  size_bytes = pos 0;
  priority = pos 0;
}

abbrev no_stats : Stats ℕ
no_stats = record { processed = 0; failed = 0; total_duration = 0; last_job_at = none }

abbrev no_rows : Store ℕ
no_rows = record { rows = []; stats = no_stats }

abbrev mixed : List (PersistedJob ℕ)
mixed =
    job_of (codes "a") JobStatus.processing
    ∷ job_of (codes "b") JobStatus.ok
    ∷ job_of (codes "a") JobStatus.error
    ∷ []

find_row-flush_jobs_example :
    find_row (codes "a") (flush_jobs seconds mixed no_rows).rows
    ≡ life seconds (own seconds (codes "a") mixed) (find_row (codes "a") [])
find_row-flush_jobs_example = find_row-flush_jobs seconds (codes "a") mixed no_rows

abbrev old_row : Text → ℤ → OldRow ℕ
old_row finished chars = record {
  job_id = codes "a";
  status = JobStatus.ok;
  filename = codes "f";
  source_path = codes "s";
  markdown_path = none;
  chunks_path = none;
  total_tokens = pos 3;
  total_chars = chars;
  chunk_count = pos 1;
  duration_seconds = 2;
  error_text = none;
  received_at = none;
  finished_at = some finished;
  mime_type = some [];
  size_bytes = some (pos 5);
  priority = some (pos 0);
}

abbrev old_table : OldTable ℕ
old_table = record {
  has_received = false;
  finished_not_null = true;
  rows = old_row (codes "1") (pos 0) ∷ old_row (codes "2") (pos 0) ∷ [];
}

abbrev moved_table : Store ℕ
moved_table = record {
  rows = new_row (old_row (codes "2") (pos 0)) (codes "2") ∷ [];
  stats = record { processed = 1; failed = 0; total_duration = 2; last_job_at = some (codes "2") };
}

migrate_lifecycle-IsRebuilt_example : IsRebuilt seconds old_table.rows moved_table
unfolding migrate_lifecycle recompute_stats text_eq
migrate_lifecycle-IsRebuilt_example =
    migrate_lifecycle-IsRebuilt seconds old_table no_stats moved_table refl

abbrev embedded : LlmEvent ℕ
embedded = record {
  job_id = str_value (codes "a");
  status = str_value (codes "ok");
  filename = str_value (codes "f");
  source_path = str_value (codes "s");
  chunks_path = str_value (codes "c");
  llm_profile = str_value (codes "m");
  provider = str_value (codes "p");
  chunk_count = int_value (pos 2);
  vector_count = int_value (pos 1);
  duration_seconds = int_value (pos 2);
  artifact_path = none_value;
  error_text = none_value;
  received_at = none_value;
  finished_at = str_value (codes "2");
  updated_at = none_value;
}

abbrev no_llm_rows : LlmStore ℕ
no_llm_rows = record { rows = []; stats = no_stats }

flush_batch-view_example :
    view (Store.flush_batch seconds unseen true ((codes "3", embedded) ∷ []) no_llm_rows)
    ≡ flush_batch seconds unseen true ((codes "3", view_event embedded) ∷ []) no_rows
flush_batch-view_example =
    flush_batch-view seconds unseen true ((codes "3", embedded) ∷ []) no_llm_rows
