-- ===== src/Uploads.antt =====
-- `process_upload_request` of worker/src/docrunr_worker/uploads.py, with `publish_durable_bytes` of
-- worker/src/docrunr_worker/publisher.py. A file comes with a fresh id, the hour, and how the calls
-- that are made for it end. The body of a message is given by its fields.
pub mod Balanced
use docrunr.Base.{
  ℕ, Bool, true, false, not, ◌||◌, Option, none, some, List, [], ◌∷◌, ◌++◌, Text, codes, text_eq,
  is_empty, if◌then◌else◌, suc, ◌⊎◌, inl, inr,
}
use docrunr.JobStore.Event.{Value, int_value}
use docrunr.Base.{pos}
use docrunr.Messages.Names.{
  Hour, safe_client_filename, file_suffix_for_upload, is_allowed_upload_suffix, input_relative_path,
}
use docrunr.Messages.Payload.{job_payload_dict}
use docrunr.Messages.Priority.{validate_extraction_job_priority_value}
use docrunr.Handler.Request.{Message}

-- Where a publication raises: nowhere, at the connection or its channel, at the declaration of the
-- queue, at the publication before the message is out, or behind it.
pub data Publishing : Type 0 where
  goes_out no_connection no_declaration not_sent sent_and_raised : Publishing

-- How `storage.write` ends: the file is there, it raises and leaves none, or it raises part way and
-- leaves a file under the path, as `shutil.copy2` can.
pub data Storing : Type 0 where
  whole left_nothing left_part : Storing

-- What the storage and the broker are made to do. `wrote` leaves a file, whole or not.
pub data Action (F : Type 0) : Type 0 where
  wrote : Text → Action F
  removed : Text → Action F
  declared : Text → Bool → Action F
  sent : Text → Message F → Option ℕ → Action F

pub record FileCalls : Type 0 where
  pub job_id : Text
  pub when : Hour
  pub stages : Bool
  pub stores : Storing
  pub unlinks : Bool
  pub publishes : Publishing
  pub deletes : Bool

pub data Item : Type 0 where
  refused : Text → Text → Item
  queued : Text → Text → Text → ℕ → Item

-- Stopped by an exception, with what was done so far; or the items.
pub record Run (F : Type 0) : Type 0 where
  pub items : List Item
  pub actions : List (Action F)
  pub crashed : Bool

module _ {F : Type 0} where
  -- The messages that leave, and whether it raises.
  publish_message : Text → Message F → Option ℕ → Publishing → List (Action F) × Bool
  publish_message queue body priority goes_out = (sent queue body priority ∷ [], false)
  publish_message queue body priority sent_and_raised = (sent queue body priority ∷ [], true)
  publish_message queue body priority _ = ([], true)

  -- Only the queue of jobs has priorities.
  publish_declared : Bool → Text → Message F → Value F → Publishing → List (Action F) × Bool
  unfolding publish_message validate_extraction_job_priority_value
  publish_declared false queue body priority publishing = publish_message queue body none publishing
  publish_declared true queue body priority publishing =
      elim (validate_extraction_job_priority_value priority) [
        | none ↦ ([], true)
        | some valid ↦ publish_message queue body (some valid) publishing
      ]

  -- `jobs_queue` is `settings.rabbitmq_queue`.
  pub publish_durable_bytes :
      Text → Text → Message F → Value F → Publishing → List (Action F) × Bool
  unfolding publish_declared text_eq
  publish_durable_bytes jobs_queue queue body priority no_connection = ([], true)
  publish_durable_bytes jobs_queue queue body priority no_declaration = ([], true)
  publish_durable_bytes jobs_queue queue body priority publishing =
      let done = publish_declared (text_eq queue jobs_queue) queue body priority publishing in
      (declared queue (text_eq queue jobs_queue) ∷ done.0, done.1)

  -- Behind the publication: a failure removes the stored file.
  published : Text → Text → FileCalls → ℕ → List (Action F) × Bool → Run F
  published name source_path calls priority (actions, false) = record {
    items = queued calls.job_id name source_path priority ∷ [];
    actions = actions;
    crashed = false;
  }
  published name source_path calls priority (actions, true) = record {
    items = refused name (codes "Failed to queue job for processing") ∷ [];
    actions = actions ++ (if calls.deletes then removed source_path ∷ [] else []);
    crashed = false;
  }

  -- `wrote` in front of what follows
  store_and : Text → Run F → Run F
  store_and source_path rest = record rest { actions = wrote source_path ∷ rest.actions }

  crash : Run F
  crash = record { items = []; actions = []; crashed = true }

  refuse : Text → Text → Run F
  refuse name reason = record { items = refused name reason ∷ []; actions = []; crashed = false }

  -- The temporary file, `storage.write`, and the removal of the temporary file in `finally`; an
  -- exception of the last replaces what was to follow.
  store_steps : Text → Text → Bool → Storing → Bool → Run F → Run F
  unfolding store_and crash refuse
  store_steps name source_path false stores unlinks rest = crash
  store_steps name source_path true whole true rest = store_and source_path rest
  store_steps name source_path true whole false rest = store_and source_path crash
  store_steps name source_path true left_nothing true rest =
      refuse name (codes "Failed to store file")
  store_steps name source_path true left_nothing false rest = crash
  store_steps name source_path true left_part true rest =
      store_and source_path (refuse name (codes "Failed to store file"))
  store_steps name source_path true left_part false rest = store_and source_path crash

  module _ (lower : Text → Text) (jobs_queue : Text) (priority : ℕ) (llm_profile : Text) where
    publish_upload : Text → Text → FileCalls → Run F
    unfolding published publish_durable_bytes job_payload_dict crash
    publish_upload name source_path calls =
        elim (job_payload_dict {F = F} calls.job_id name source_path (int_value (pos priority))
          llm_profile) [
            | none ↦ crash
            | some body ↦ published name source_path calls priority (
                publish_durable_bytes jobs_queue jobs_queue body (int_value (pos priority))
                  calls.publishes)
          ]

    store_upload : Text → Text → FileCalls → Run F
    unfolding publish_upload store_steps
    store_upload name source_path calls =
        store_steps name source_path calls.stages calls.stores calls.unlinks
          (publish_upload name source_path calls)

    -- One round of the loop.
    pub upload_file : Text → List ℕ → FileCalls → Run F
    unfolding store_upload refuse
    upload_file filename content calls =
        let name = safe_client_filename filename in
        let suffix = file_suffix_for_upload lower filename in
        if is_empty suffix || not (is_allowed_upload_suffix suffix)
        then refuse name (codes "Unsupported or missing file extension")
        else if is_empty content
        then refuse name (codes "Empty file")
        else store_upload name (input_relative_path lower calls.job_id suffix calls.when) calls

    -- The rounds so far, and the rest behind them.
    and_then : Run F → Run F → Run F
    and_then first rest = if first.crashed then first else record {
      items = first.items ++ rest.items;
      actions = first.actions ++ rest.actions;
      crashed = rest.crashed;
    }

    pub upload_files : List (Text × List ℕ × FileCalls) → Run F
    unfolding and_then upload_file
    upload_files [] = record { items = []; actions = []; crashed = false }
    upload_files ((filename, content, calls) ∷ files) =
        let rest = upload_files files in and_then (upload_file filename content calls) rest

-- What a request to upload gives: `UploadRequestError`, another exception, or a run of the loop.
pub data Uploading (F : Type 0) : Type 0 where
  bad_request : Text → Uploading F
  bad_priority : Uploading F
  ran : Run F → Uploading F

pub with_calls : (ℕ → FileCalls) → ℕ → List (Text × List ℕ) → List (Text × List ℕ × FileCalls)
with_calls calls n [] = []
with_calls calls n ((filename, content) ∷ parts) =
    (filename, content, calls n) ∷ with_calls calls (suc n) parts

module _ {F : Type 0} (lower : Text → Text) (jobs_queue : Text) (priority : ℕ)
    (llm_profile : Text) where
  -- `parts` are the files of the form, or the text of the `ValueError` that its parser raises.
  process_parts : (ℕ → FileCalls) → Text ⊎ List (Text × List ℕ) → Uploading F
  unfolding upload_files with_calls
  process_parts calls (inl message) = bad_request message
  process_parts calls (inr []) =
      bad_request (codes "No file parts found (use form field name \"files\")")
  process_parts calls (inr (part ∷ parts)) =
      ran (upload_files lower jobs_queue priority llm_profile (with_calls calls 0 (part ∷ parts)))

  unfoldable pub process_upload_request :
      (ℕ → FileCalls) → Text ⊎ List (Text × List ℕ) → Uploading F
  unfolding process_parts validate_extraction_job_priority_value
  process_upload_request calls parts =
      elim (validate_extraction_job_priority_value {F = F} (int_value (pos priority))) [
        | none ↦ bad_priority
        | some valid ↦ process_parts calls parts
      ]
