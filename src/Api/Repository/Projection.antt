-- ===== src/Api/Repository/Projection.antt =====
-- The messages of the three queues come in any order; what that does to a job.
use docrunr.Base.{
  ◌⊎◌, ◌≡◌, refl, Bool, true, false, not, ◌&&◌, ◌||◌, none, some, List, [], ◌∷◌, Text, text_eq, ℤ,
  arith, Bool-cases, inl, inr, if◌then◌else◌, is_empty, codes, ap,
}
use docrunr.JobStore.Event.{Floats}
use docrunr.Api.Schema.{Job, Database, LifecyclePayload, ResultPayload}
use docrunr.Api.Binding.{encodable, is_text}
use docrunr.Api.Repository.{
  key_text, update_where, update_job, start_row, finish_row, apply_lifecycle,
  apply_extraction_result, occurred, is_queued,
}

module _ {F : Type 0} where
  -- No row of the job waits.
  abbrev NotQueued : Text → List (Job F) → Type 0
  NotQueued id [] = Unit
  NotQueued id (j ∷ js) = (text_eq j.job_id id ≡ true → is_queued j.state ≡ false) × NotQueued id js

  start-NotQueued :
      (occurred_at id : Text) (js : List (Job F))
      → NotQueued id js
      → update_where id (start_row occurred_at) js ≡ js
  start-NotQueued occurred_at id [] h = refl
  start-NotQueued occurred_at id (j ∷ js) h = elim (Bool-cases (text_eq j.job_id id)) [
    | inl found ↦
        let over : is_queued j.state ≡ false = h.0 found in
        rw (found, over) (ap (λ t. j ∷ t) (start-NotQueued occurred_at id js h.1))
    | inr other ↦ rw other (ap (λ t. j ∷ t) (start-NotQueued occurred_at id js h.1))
  ]

  finish-NotQueued :
      (completed : Text) (payload : ResultPayload F) (id : Text) (js : List (Job F))
      → NotQueued id (update_where id (finish_row completed payload) js)
  finish-NotQueued completed payload id [] = tt
  finish-NotQueued completed payload id (j ∷ js) =
      (ground arith, finish-NotQueued completed payload id js)

  start-finish :
      (occurred_at completed : Text) (payload : ResultPayload F) (id : Text) (db : Database F)
      → update_job id (start_row occurred_at) (update_job id (finish_row completed payload) db)
        ≡ update_job id (finish_row completed payload) db
  start-finish occurred_at completed payload id db =
      ap (λ js. record db { jobs = js })
        (start-NotQueued occurred_at id _ (finish-NotQueued completed payload id db.jobs))

  -- The late message is skipped, or it is carried out on what the result left, or it is refused.
  guarded :
      (skipped bound : Bool) (after updated : Database F)
      → (skipped ≡ false → updated ≡ after)
      → ((if skipped then some after else if bound then some updated else none) ≡ some after)
        ⊎ ((if skipped then some after else if bound then some updated else none) ≡ none)
  guarded true bound after updated h = inl refl
  guarded false true after updated h = inl (ap some (h refl))
  guarded false false after updated h = inr refl

  -- What an accepted message left, if it was not skipped.
  ran :
      (skipped bound : Bool) (db updated after : Database F)
      → (if skipped then some db else if bound then some updated else none) ≡ some after
      → skipped ≡ false
      → updated ≡ after
  ran true bound db updated after e h = absurd (cc h)
  ran false true db updated after e h = cc e
  ran false false db updated after e h = absurd (cc e)

module _ {F : Type 0} (floats : Floats F) (print_int : ℤ → Text) where
  -- Once a result of a job has been applied, a lifecycle message of the same job that comes late
  -- changes nothing: it is accepted without effect, or it is refused.
  pub late_lifecycle_keeps_result :
      (payload : ResultPayload F) (message : LifecyclePayload F) (completed now : Text)
      (before after : Database F)
      → apply_extraction_result floats print_int payload completed before ≡ some after
      → message.job_id ≡ payload.job_id
      → (apply_lifecycle floats print_int message now after ≡ some after)
        ⊎ (apply_lifecycle floats print_int message now after ≡ none)
  unfolding apply_extraction_result apply_lifecycle
  late_lifecycle_keeps_result payload message completed now before after e same =
      let id : Text = key_text floats print_int message.job_id in
      let at : Text = occurred floats print_int message.occurred_at now in
      guarded (not (is_text message.state (codes "processing")) || is_empty id)
        (encodable id && encodable at) after (update_job id (start_row at) after)
        (λ acts.
          let result = update_job id (finish_row completed payload) before in
          let named : is_empty id ≡ false = ground arith in
          let e' : result ≡ after = rw same (
            ran (is_empty (key_text floats print_int payload.job_id)) _ before _ after e
              (rw (← same) named)) in
          rw (← e') (start-finish at completed payload id before))
