-- ===== src/Api/Repository/Keeps.antt =====
-- Every operation on the job table keeps its invariant.
use mathlib.Core.Path.{subst}
use docrunr.Base.{
  All-append, ℕ, ◌≡◌, refl, Bool, true, false, ◌||◌, Option, none, some, Text, text_eq_refl, ℤ,
  arith, Bool-cases, inl, inr, if◌then◌else◌,
}
use docrunr.JobStore.Event.{Floats}
use docrunr.Api.Schema.{Database, NewJob, LifecyclePayload, ResultPayload, LlmPayload}
use docrunr.Api.Repository.{
  new_row, has_job, has_item, create_job, delete_job, apply_lifecycle, apply_extraction_result,
  apply_llm_result,
}
use docrunr.Api.Outbox.{mark_published}
use docrunr.Api.Repository.Ids.{Rising-append, Rising-without, Rising-mark}
use docrunr.Api.Repository.Rows.{
  HasTimes, HasParent, IsConsistent, update_job-IsConsistent, start_row-Careful, finish_row-Careful,
  finish_llm_row-Careful, Unique-append, parents-append, has_job-append, Unique-without,
  times-without, parents-without, parents-mark,
}

module _ {F : Type 0} where
  -- A transaction that is rolled back keeps what there was.
  abbrev Keeps : Option (Database F) → Type 0
  Keeps none = Unit
  Keeps (some db) = IsConsistent db

  kept :
      (o : Option (Database F)) (after : Database F) → Keeps o → o ≡ some after → IsConsistent after
  kept o after k e = subst Keeps e k

  guarded-Keeps :
      (skipped bound : Bool) (db updated : Database F)
      → IsConsistent db
      → IsConsistent updated
      → Keeps (if skipped then some db else if bound then some updated else none)
  guarded-Keeps true bound db updated h k = h
  guarded-Keeps false true db updated h k = k
  guarded-Keeps false false db updated h k = tt

  create_job-Keeps :
      (new : NewJob) (now : Text) (db : Database F)
      → IsConsistent db
      → Keeps (create_job new now db)
  unfolding create_job
  create_job-Keeps new now db h =
      elim (Bool-cases (has_job new.job_id db.jobs || has_item new.job_id db.outbox)) [
        | inl taken ↦ rw taken tt
        | inr fresh ↦ rw fresh (record {
          unique = Unique-append _ db.jobs (ground arith) h.unique;
          times = All-append HasTimes db.jobs _ h.times ((refl, refl), tt);
          parents =
              All-append (HasParent _) db.outbox _ (parents-append _ db.jobs db.outbox h.parents) (
                ground (
                  arith,
                  text_eq_refl new.job_id,
                  has_job-append (new_row new now) new.job_id db.jobs,
                ),
                tt,
              );
          rising = Rising-append 0 db.outbox _ h.rising;
        })
      ]

  delete_job-IsConsistent :
      (id : Text) (db : Database F) → IsConsistent db → IsConsistent (delete_job id db)
  unfolding delete_job
  delete_job-IsConsistent id db h = elim (Bool-cases (has_job id db.jobs)) [
    | inr absent ↦ rw absent h
    | inl found ↦ rw found (record {
      unique = Unique-without id db.jobs h.unique;
      times = times-without id db.jobs h.times;
      parents = parents-without id db.jobs db.outbox h.parents;
      rising = Rising-without id 0 db.outbox db.next_id h.rising;
    })
  ]

  mark_published-IsConsistent :
      (now : Text) (id : ℕ) (db : Database F)
      → IsConsistent db
      → IsConsistent (mark_published now id db)
  unfolding mark_published
  mark_published-IsConsistent now id db h = record {
    unique = h.unique;
    times = h.times;
    parents = parents-mark now id db.jobs db.outbox h.parents;
    rising = Rising-mark now id 0 db.outbox db.next_id h.rising;
  }

module _ {F : Type 0} (floats : Floats F) (print_int : ℤ → Text) where
  -- One operation of the service: an upload, the removal of a job, a mark in the outbox, or a
  -- message of one of the three queues.
  pub data Change : Database F → Database F → Type 0 where
    created :
        {before after : Database F} (new : NewJob) (now : Text)
        → create_job new now before ≡ some after
        → Change before after
    deleted : {before : Database F} (job_id : Text) → Change before (delete_job job_id before)
    marked :
        {before : Database F} (now : Text) (id : ℕ) → Change before (mark_published now id before)
    started :
        {before after : Database F} (payload : LifecyclePayload F) (now : Text)
        → apply_lifecycle floats print_int payload now before ≡ some after
        → Change before after
    extracted :
        {before after : Database F} (payload : ResultPayload F) (now : Text)
        → apply_extraction_result floats print_int payload now before ≡ some after
        → Change before after
    embedded :
        {before after : Database F} (payload : LlmPayload F) (now : Text)
        → apply_llm_result floats print_int payload now before ≡ some after
        → Change before after

  module _ (now : Text) (db : Database F) (h : IsConsistent db) where
    apply_lifecycle-Keeps :
        (payload : LifecyclePayload F) → Keeps (apply_lifecycle floats print_int payload now db)
    unfolding apply_lifecycle
    apply_lifecycle-Keeps payload =
        guarded-Keeps _ _ db _ h (update_job-IsConsistent _ (start_row-Careful _) _ db h)

    apply_extraction_result-Keeps :
        (payload : ResultPayload F)
        → Keeps (apply_extraction_result floats print_int payload now db)
    unfolding apply_extraction_result
    apply_extraction_result-Keeps payload =
        guarded-Keeps _ _ db _ h (update_job-IsConsistent _ (finish_row-Careful now payload) _ db h)

    apply_llm_result-Keeps :
        (payload : LlmPayload F) → Keeps (apply_llm_result floats print_int payload now db)
    unfolding apply_llm_result
    apply_llm_result-Keeps payload =
        guarded-Keeps _ _ db _ h
          (update_job-IsConsistent _ (finish_llm_row-Careful now payload) _ db h)

  -- Every operation, with whatever arguments or message, keeps the job table consistent: job ids
  -- are unique, each outbox item belongs to a job and the ids of the items rise, and a job has a
  -- start time just if it is not queued, and an end time just if it has succeeded or failed.
  pub Change-IsConsistent :
      (before after : Database F) → Change before after → IsConsistent before → IsConsistent after
  Change-IsConsistent before after (created new now e) h =
      kept _ after (create_job-Keeps new now before h) e
  Change-IsConsistent before after (deleted id) h = delete_job-IsConsistent id before h
  Change-IsConsistent before after (marked now id) h = mark_published-IsConsistent now id before h
  Change-IsConsistent before after (started payload now e) h =
      kept _ after (apply_lifecycle-Keeps now before h payload) e
  Change-IsConsistent before after (extracted payload now e) h =
      kept _ after (apply_extraction_result-Keeps now before h payload) e
  Change-IsConsistent before after (embedded payload now e) h =
      kept _ after (apply_llm_result-Keeps now before h payload) e
