-- ===== src/Uploads/Balanced/Rounds.antt =====
-- One file of an upload: it is queued and stays, or is refused and does not.
use mathlib.Core.Path.{subst, sym}
use docrunr.Base.{
  ℕ, ◌≡◌, refl, Bool, true, false, not, ◌||◌, some, List, [], ◌∷◌, map, Text, text_eq, text_eq_refl,
  is_empty, leb, pos, All, Bool-cases, inl, inr,
}
use docrunr.JobStore.Event.{int_value}
use docrunr.Messages.Names.{safe_client_filename, file_suffix_for_upload, is_allowed_upload_suffix}
use docrunr.Messages.Payload.{job_payload_dict, payload_of}
use docrunr.Messages.Priority.{validate_extraction_job_priority_value, job_queue_max_priority}
use docrunr.Handler.Request.{Message}
use docrunr.Uploads.{
  Storing, whole, left_nothing, left_part, Publishing, goes_out, no_connection, no_declaration,
  not_sent, sent_and_raised, Action, declared, sent, FileCalls, Run, publish_message,
  publish_declared, publish_durable_bytes, published, store_and, crash, refuse, store_steps,
  publish_upload, store_upload, upload_file,
}
use docrunr.Uploads.Balanced.{
  removes, kept, sent_messages, item_messages, item_paths, item_name, is_clean_publishing,
  is_clean_storing, AreClean, path_of, written,
}

module _ {F : Type 0} (lower : Text → Text) (jobs_queue : Text) (priority : ℕ)
    (llm_profile : Text) where
  -- One round, at its name and its path: a file that is queued stays, another does not.
  pub record Round (name path : Text) (run : Run F) : Type 0 where
    pub names : map item_name run.items ≡ name ∷ []
    pub files : kept run.actions ≡ item_paths run.items
    pub messages : sent_messages run.actions ≡ item_messages llm_profile run.items
    pub writes : All (λ p. p ≡ path) (written run.actions)
    pub removals : (p : Text) → text_eq path p ≡ false → removes p run.actions ≡ false

  refuse-Round : (name path reason : Text) → Round name path (refuse name reason)
  unfolding refuse
  refuse-Round name path reason = record {
    names = refl;
    files = refl;
    messages = refl;
    writes = tt;
    removals = λ p h. refl;
  }

  publish_to : Message F → Publishing → List (Action F) × Bool
  publish_to body publishing =
      publish_durable_bytes jobs_queue jobs_queue body (int_value (pos priority)) publishing

  -- What reaches the queue of jobs, by the place where it raises.
  publish_to_lem :
      (body : Message F)
      → leb priority job_queue_max_priority ≡ true
      → (publish_to body goes_out
          ≡ (declared jobs_queue true ∷ sent jobs_queue body (some priority) ∷ [], false))
        × (publish_to body not_sent ≡ (declared jobs_queue true ∷ [], true))
        × (publish_to body no_connection ≡ ([], true))
        × (publish_to body no_declaration ≡ ([], true))
  unfolding publish_to publish_durable_bytes publish_declared publish_message
      validate_extraction_job_priority_value
  publish_to_lem body valid = (
    rw (text_eq_refl jobs_queue, publish_declared, valid) refl,
    rw (text_eq_refl jobs_queue, publish_declared, valid) refl,
    refl,
    refl,
  )

  -- What was sent before a failure that leaves no message.
  attempt : Bool → List (Action F)
  attempt false = []
  attempt true = declared jobs_queue true ∷ []

  failed-Round :
      (name path : Text) (calls : FileCalls) (tried : Bool)
      → calls.deletes ≡ true
      → Round name path (store_and path (published name path calls priority (attempt tried, true)))
  unfolding store_and published attempt
  failed-Round name path calls false deletes = rw deletes (record {
    names = refl;
    files = rw (text_eq_refl path) refl;
    messages = refl;
    writes = (refl, tt);
    removals = λ p h. rw h refl;
  })
  failed-Round name path calls true deletes = rw deletes (record {
    names = refl;
    files = rw (text_eq_refl path) refl;
    messages = refl;
    writes = (refl, tt);
    removals = λ p h. rw h refl;
  })

  sent-Round :
      (name path : Text) (calls : FileCalls)
      → Round name path (
          store_and path (
            published name path calls priority (
              declared jobs_queue true
                  ∷ sent jobs_queue
                      (payload_of calls.job_id name path priority llm_profile)
                      (some priority)
                  ∷ [],
              false,
            )))
  unfolding store_and published
  sent-Round name path calls = record {
    names = refl;
    files = refl;
    messages = refl;
    writes = (refl, tt);
    removals = λ p h. refl;
  }

  published-Round :
      (name path : Text) (calls : FileCalls) (publishing : Publishing)
      → leb priority job_queue_max_priority ≡ true
      → calls.deletes ≡ true
      → is_clean_publishing publishing ≡ true
      → Round name path (
          store_and path (
            published name path calls priority
              (publish_to (payload_of calls.job_id name path priority llm_profile) publishing)))
  unfolding attempt
  published-Round name path calls goes_out valid deletes clean =
      let body = payload_of calls.job_id name path priority llm_profile in
      subst (λ done. Round name path (store_and path (published name path calls priority done)))
        (sym (publish_to_lem body valid).0) (sent-Round name path calls)
  published-Round name path calls not_sent valid deletes clean =
      let body = payload_of calls.job_id name path priority llm_profile in
      subst (λ done. Round name path (store_and path (published name path calls priority done)))
        (sym (publish_to_lem body valid).1) (failed-Round name path calls true deletes)
  published-Round name path calls no_connection valid deletes clean =
      let body = payload_of calls.job_id name path priority llm_profile in
      subst (λ done. Round name path (store_and path (published name path calls priority done)))
        (sym (publish_to_lem body valid).2) (failed-Round name path calls false deletes)
  published-Round name path calls no_declaration valid deletes clean =
      let body = payload_of calls.job_id name path priority llm_profile in
      subst (λ done. Round name path (store_and path (published name path calls priority done)))
        (sym (publish_to_lem body valid).3) (failed-Round name path calls false deletes)
  published-Round name path calls sent_and_raised valid deletes clean = absurd (cc)

  store_steps-Round :
      (name path : Text) (stages : Bool) (stores : Storing) (unlinks : Bool) (rest : Run F)
      → is_clean_storing stores ≡ true
      → (rest.crashed ≡ false → Round name path (store_and path rest))
      → (store_steps name path stages stores unlinks rest).crashed ≡ false
      → Round name path (store_steps name path stages stores unlinks rest)
  unfolding store_steps store_and crash
  store_steps-Round name path false stores unlinks rest clean h safe = absurd (cc)
  store_steps-Round name path true whole true rest clean h safe = h safe
  store_steps-Round name path true whole false rest clean h safe = absurd (cc)
  store_steps-Round name path true left_nothing true rest clean h safe = refuse-Round name path _
  store_steps-Round name path true left_nothing false rest clean h safe = absurd (cc)
  store_steps-Round name path true left_part unlinks rest clean h safe = absurd (cc)

  publish_upload-Round :
      (name path : Text) (calls : FileCalls)
      → AreClean calls
      → (publish_upload {F = F} lower jobs_queue priority llm_profile name path calls).crashed
        ≡ false
      → Round name path
          (store_and path (publish_upload lower jobs_queue priority llm_profile name path calls))
  unfolding publish_upload job_payload_dict validate_extraction_job_priority_value crash publish_to
  publish_upload-Round name path calls clean safe =
      elim (Bool-cases (leb priority job_queue_max_priority)) [
        | inl valid ↦
            rw (valid, job_payload_dict, publish_upload)
              (published-Round name path calls calls.publishes valid clean.0 clean.1)
        | inr too_big ↦ absurd (cc (rw (too_big, job_payload_dict, publish_upload) at safe))
      ]

  -- What one round of the loop leaves.
  pub upload_file-Round :
      (filename : Text) (content : List ℕ) (calls : FileCalls)
      → AreClean calls
      → (upload_file {F = F} lower jobs_queue priority llm_profile filename content calls).crashed
        ≡ false
      → Round
          (safe_client_filename filename)
          (path_of lower filename calls)
          (upload_file lower jobs_queue priority llm_profile filename content calls)
  unfolding upload_file store_upload
  upload_file-Round filename content calls clean safe =
      let suffix = file_suffix_for_upload lower filename in
      let name = safe_client_filename filename in
      let path = path_of lower filename calls in
      elim (Bool-cases (is_empty suffix || not (is_allowed_upload_suffix suffix))) [
        | inl bad ↦ rw bad (refuse-Round name path _)
        | inr good ↦ elim (Bool-cases (is_empty content)) [
          | inl blank ↦ rw (good, blank) (refuse-Round name path _)
          | inr filled ↦
              rw (good, filled)
                (store_steps-Round name path calls.stages calls.stores calls.unlinks
                  (publish_upload lower jobs_queue priority llm_profile name path calls) clean.2
                  (publish_upload-Round name path calls clean) (rw (good, filled) at safe))
        ]
      ]
