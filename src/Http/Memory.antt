-- ===== src/Http/Memory.antt =====
-- The jobs and counters that worker/src/docrunr_worker/health.py keeps in memory where no store is
-- attached or a store raises: `WorkerStats.record_job` and `_upsert_memory_job`. `F` is Python's
-- float.
pub mod Stamped
pub mod Agrees
pub mod Batch
use docrunr.Base.{
  ℕ, ◌+◌, ◌≡◌, Bool, true, false, Option, none, some, List, [], ◌∷◌, Text, codes, text_eq, text_ltb,
  strip, is_empty, if◌then◌else◌, ℤ, pos,
}
use docrunr.JobStatus.{Status, status_of, Effect, replay_stats_transition}
use docrunr.JobStore.Event.{
  Value, none_value, bool_value, int_value, float_value, str_value, other_value, Floats,
  print_value, non_empty,
}

-- A dictionary: `none` is a missing key, which is not the value `None`.
abbrev pub Dict : Type 0 → Type 0
Dict F = Text → Option (Value F)

-- A value of `_jobs_by_id`. Its `replay_stats_suppress` is a key of its own.
pub record MemoryRow (F : Type 0) : Type 0 where
  pub item : Dict F
  pub replay_stats_suppress : ℕ

-- The counters of `WorkerStats`, and `_jobs_by_id` in the order of its keys.
pub record Memory (F : Type 0) : Type 0 where
  pub processed : ℕ
  pub failed : ℕ
  pub total_duration : F
  pub last_job_finished_at : Option Text
  pub jobs : List (Text × MemoryRow F)

-- `_max_iso_z` for a second time that is not `None`
abbrev pub max_iso_z : Option Text → Text → Text
max_iso_z none t = t
max_iso_z (some s) t = if text_ltb s t then t else s

-- `if counted_fin: …`
abbrev pub advance_finished : Option Text → Option Text → Option Text
advance_finished last none = last
advance_finished last (some t) = if is_empty t then last else some (max_iso_z last t)

module _ {F : Type 0} where
  abbrev or_value : Option (Value F) → Value F → Option (Value F)
  or_value none value = some value
  or_value (some v) value = some v

  abbrev pub set_default_item : Text → Value F → Dict F → Dict F
  set_default_item key value d = λ k. if text_eq k key then or_value (d key) value else d k

  abbrev pub pop_item : Text → Dict F → Dict F
  pop_item key d = λ k. if text_eq k key then none else d k

  abbrev or_prior : Option (Value F) → Option (Value F) → Option (Value F)
  or_prior none prior = prior
  or_prior (some v) prior = some v

  -- `{**prior, **incoming}`
  abbrev pub merge : Dict F → Dict F → Dict F
  merge prior incoming = λ k. or_prior (incoming k) (prior k)

  abbrev pub get_or : Value F → Option (Value F) → Value F
  get_or default none = default
  get_or default (some v) = v

  is_processing_value : Option (Value F) → Bool
  unfolding text_eq
  is_processing_value (some (str_value t)) = text_eq t (codes "processing")
  is_processing_value _ = false

  -- `event.get("status") == PROCESSING`
  unfoldable pub is_receipt : Dict F → Bool
  unfolding is_processing_value
  is_receipt d = is_processing_value (d (codes "status"))

  -- The event as `record_job` hands it on.
  unfoldable pub stamp : Text → Dict F → Dict F
  unfolding is_receipt text_eq
  stamp now result =
      let event = set_default_item (codes "updated_at") (str_value now) result in
      if is_receipt event
      then set_default_item (codes "received_at") (str_value now) event
      else set_default_item (codes "finished_at") (str_value now) event

  unfoldable pub find_job : Text → List (Text × MemoryRow F) → Option (MemoryRow F)
  find_job job_id [] = none
  find_job job_id ((k, row) ∷ jobs) =
      let rest = find_job job_id jobs in if text_eq k job_id then some row else rest

  unfoldable pub put_job :
      Text → MemoryRow F → List (Text × MemoryRow F) → List (Text × MemoryRow F)
  put_job job_id row [] = (job_id, row) ∷ []
  put_job job_id row ((k, old) ∷ jobs) =
      let rest = put_job job_id row jobs in
      if text_eq k job_id then (k, row) ∷ jobs else (k, old) ∷ rest

  abbrev pub prior_item : Option (MemoryRow F) → Dict F
  prior_item none = λ k. none
  prior_item (some row) = row.item

  -- `raw_sup`, which `_coerce_job_int` leaves as it is
  abbrev pub prior_suppress : Option (MemoryRow F) → ℕ
  prior_suppress none = 0
  prior_suppress (some row) = row.replay_stats_suppress

  -- The row that `_upsert_memory_job` writes.
  unfoldable pub new_item : Option (MemoryRow F) → Dict F → Dict F
  unfolding is_receipt text_eq
  new_item prior incoming =
      let row = merge (prior_item prior) incoming in
      if is_receipt incoming then pop_item (codes "finished_at") row else row

-- `is_truthy` is the truth value of a float: it is not zero.
module _ {F : Type 0} (floats : Floats F) (print_int : ℤ → Text) (is_truthy : F → Bool) where
  -- `_finished_at_iso_for_stats`
  unfoldable pub finished_at_iso_for_stats : Value F → Option Text
  unfolding strip print_value
  finished_at_iso_for_stats none_value = none
  finished_at_iso_for_stats (str_value text) = non_empty (strip text)
  finished_at_iso_for_stats value = non_empty (strip (print_value floats print_int value))

  zero : F
  zero = floats.of_int (pos 0)

  parsed_or_zero : Option F → F
  parsed_or_zero none = floats.zero_float
  parsed_or_zero (some x) = x

  -- `_coerce_job_float`. `float` takes no value of another type than these.
  coerce_job_float : Value F → F
  unfolding zero parsed_or_zero
  coerce_job_float none_value = zero
  coerce_job_float (bool_value b) = if b then floats.of_int (pos 1) else zero
  coerce_job_float (int_value n) = floats.of_int n
  coerce_job_float (float_value x) = if is_truthy x then x else zero
  coerce_job_float (str_value text) =
      if is_empty text then zero else parsed_or_zero (floats.parse_float text)
  coerce_job_float (other_value text) = floats.zero_float

  abbrev pub status_value : Option (Value F) → Option Status
  unfolding print_value status_of
  status_value none = none
  status_value (some none_value) = none
  status_value (some v) = some (status_of (print_value floats print_int v))

  -- `cur_status`
  abbrev pub prior_status : Option (MemoryRow F) → Option Status
  prior_status none = none
  prior_status (some row) = status_value (row.item (codes "status"))

  pub job_key : Dict F → Text
  unfolding print_value
  job_key event =
      print_value floats print_int (get_or (str_value (codes "unknown")) (event (codes "job_id")))

  -- What `replay_stats_transition` gives for the event.
  pub memory_effect : Option (MemoryRow F) → Dict F → Effect F
  unfolding strip print_value status_of finished_at_iso_for_stats coerce_job_float
  memory_effect prior event =
      replay_stats_transition floats.zero_float (prior_status prior) (prior_suppress prior)
        (status_of
          (strip (print_value floats print_int (get_or (str_value []) (event (codes "status"))))))
        (coerce_job_float (get_or (int_value (pos 0)) (event (codes "duration_seconds"))))
        (finished_at_iso_for_stats (get_or none_value (event (codes "finished_at"))))

  -- The block under the lock.
  pub count_event : Dict F → Memory F → Memory F
  unfolding job_key memory_effect find_job put_job new_item
  count_event event m =
      let prior = find_job (job_key event) m.jobs in
      let effect = memory_effect prior event in
      record {
        processed = m.processed + effect.ok_delta;
        failed = m.failed + effect.err_delta;
        total_duration = floats.add_float m.total_duration effect.duration_delta;
        last_job_finished_at = advance_finished m.last_job_finished_at effect.finished_at;
        jobs =
            put_job (job_key event)
              (record { item = new_item prior event; replay_stats_suppress = effect.new_suppress })
              m.jobs;
      }

  -- `record_job` where no store takes the event.
  unfoldable pub record_job : Text → Dict F → Memory F → Memory F
  unfolding count_event stamp
  record_job now result m = count_event (stamp now result) m

  -- Calls of `record_job`, each with the clock that it reads.
  unfoldable pub record_jobs : List (Text × Dict F) → Memory F → Memory F
  unfolding record_job
  record_jobs [] m = m
  record_jobs ((now, result) ∷ calls) m = record_jobs calls (record_job now result m)
