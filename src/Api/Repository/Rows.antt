-- ===== src/Api/Repository/Rows.antt =====
-- The invariant of the job table, and what the changes of its rows keep of it.
use docrunr.Base.{
  ℕ, ◌≡◌, ◌≢◌, refl, true, false, not, ◌&&◌, ◌||◌, Option, none, List, [], ◌∷◌, ◌∙◌, ◌++◌, Text,
  text_eq, text_eq_iff, All, arith, Bool-cases, inl, inr, ◌==◌,
}
use docrunr.Api.Schema.{
  JobState, queued, processing, succeeded, failed, Job, OutboxItem, Database, ResultPayload,
  LlmPayload,
}
use docrunr.Api.Repository.{
  has_job, without_job, without_item, update_where, update_job, start_row, finish_row,
  finish_llm_row,
}
use docrunr.Api.Repository.Ids.{Rising}
use docrunr.Api.Outbox.{mark_items}

-- A job that waits has neither begun nor ended, one that runs has begun, and one that is over has
-- both times.
abbrev pub Times : JobState → Option Text → Option Text → Type 0
Times queued started completed = (started ≡ none) × (completed ≡ none)
Times processing started completed = (started ≢ none) × (completed ≡ none)
Times succeeded started completed = (started ≢ none) × (completed ≢ none)
Times failed started completed = (started ≢ none) × (completed ≢ none)

module _ {F : Type 0} where
  abbrev pub HasTimes : Job F → Type 0
  HasTimes j = Times j.state j.started_at j.completed_at

  abbrev pub Unique : List (Job F) → Type 0
  Unique [] = Unit
  Unique (j ∷ js) = (has_job j.job_id js ≡ false) × Unique js

  -- The foreign key of the outbox.
  abbrev pub HasParent : List (Job F) → OutboxItem → Type 0
  HasParent js i = has_job i.job_id js ≡ true

  pub record IsConsistent (db : Database F) : Type 0 where
    pub unique : Unique db.jobs
    pub times : All HasTimes db.jobs
    pub parents : All (HasParent db.jobs) db.outbox
    pub rising : Rising 0 db.outbox db.next_id

  -- What an update may do to a row.
  pub record Careful (f : Job F → Job F) : Type 0 where
    pub same_key : (j : Job F) → (f j).job_id ≡ j.job_id
    pub good_times : (j : Job F) → HasTimes j → HasTimes (f j)

  module _ (f : Job F → Job F) (careful : Careful f) (id : Text) where
    has_job-update :
        (k : Text) (js : List (Job F)) → has_job k (update_where id f js) ≡ has_job k js
    has_job-update k [] = refl
    has_job-update k (j ∷ js) = ground (arith, has_job-update k js, careful.same_key j)

    Unique-update : (js : List (Job F)) → Unique js → Unique (update_where id f js)
    Unique-update [] h = tt
    Unique-update (j ∷ js) h =
        (ground (arith, has_job-update j.job_id js, careful.same_key j, h.0), Unique-update js h.1)

    pub times-update : (js : List (Job F)) → All HasTimes js → All HasTimes (update_where id f js)
    times-update [] h = tt
    times-update (j ∷ js) h = elim (Bool-cases (text_eq j.job_id id)) [
      | inl found ↦ rw found (careful.good_times j h.0, times-update js h.1)
      | inr other ↦ rw other (h.0, times-update js h.1)
    ]

    parents-update :
        (js : List (Job F)) (is : List OutboxItem)
        → All (HasParent js) is
        → All (HasParent (update_where id f js)) is
    parents-update js [] h = tt
    parents-update js (i ∷ is) h = (has_job-update i.job_id js ∙ h.0, parents-update js is h.1)

    pub update_job-IsConsistent :
        (db : Database F) → IsConsistent db → IsConsistent (update_job id f db)
    update_job-IsConsistent db h = record {
      unique = Unique-update db.jobs h.unique;
      times = times-update db.jobs h.times;
      parents = parents-update db.jobs db.outbox h.parents;
      rising = h.rising;
    }

  pub start_row-Careful : (occurred_at : Text) → Careful (start_row occurred_at)
  start_row-Careful occurred_at = record {
    same_key = λ j. ground arith;
    good_times = λ j h. ground arith;
  }

  pub finish_row-Careful :
      (completed : Text) (p : ResultPayload F) → Careful (finish_row completed p)
  finish_row-Careful completed p = record { same_key = λ j. refl; good_times = λ j h. ground arith }

  pub finish_llm_row-Careful :
      (completed : Text) (p : LlmPayload F) → Careful (finish_llm_row completed p)
  finish_llm_row-Careful completed p = record { same_key = λ j. refl; good_times = λ j h. h }

module _ {F : Type 0} (new : Job F) where
  pub has_job-append :
      (k : Text) (js : List (Job F))
      → has_job k (js ++ new ∷ []) ≡ has_job k js || text_eq new.job_id k
  has_job-append k [] = ground arith
  has_job-append k (j ∷ js) = ground (arith, has_job-append k js)

  pub Unique-append :
      (js : List (Job F)) → has_job new.job_id js ≡ false → Unique js → Unique (js ++ new ∷ [])
  Unique-append [] fresh h = (refl, tt)
  Unique-append (j ∷ js) fresh h = (
    ground (
      arith,
      has_job-append j.job_id js,
      text_eq_iff new.job_id j.job_id,
      text_eq_iff j.job_id new.job_id,
      h.0,
    ),
    Unique-append js (ground arith) h.1,
  )

  pub parents-append :
      (js : List (Job F)) (is : List OutboxItem)
      → All (HasParent js) is
      → All (HasParent (js ++ new ∷ [])) is
  parents-append js [] h = tt
  parents-append js (i ∷ is) h =
      (ground (arith, has_job-append i.job_id js, h.0), parents-append js is h.1)

module _ {F : Type 0} where
  module _ (id : Text) where
    has_job-without :
        (k : Text) (js : List (Job F))
        → has_job k (without_job id js) ≡ has_job k js && not (text_eq id k)
    has_job-without k [] = refl
    has_job-without k (j ∷ js) = ground (
      arith,
      has_job-without k js,
      text_eq_iff j.job_id id,
      text_eq_iff j.job_id k,
      text_eq_iff id k,
    )

    pub Unique-without : (js : List (Job F)) → Unique js → Unique (without_job id js)
    Unique-without [] h = tt
    Unique-without (j ∷ js) h = elim (Bool-cases (text_eq j.job_id id)) [
      | inl gone ↦ rw gone (Unique-without js h.1)
      | inr kept ↦ rw kept (ground (arith, has_job-without j.job_id js, h.0), Unique-without js h.1)
    ]

    pub times-without : (js : List (Job F)) → All HasTimes js → All HasTimes (without_job id js)
    times-without [] h = tt
    times-without (j ∷ js) h = elim (Bool-cases (text_eq j.job_id id)) [
      | inl gone ↦ rw gone (times-without js h.1)
      | inr kept ↦ rw kept (h.0, times-without js h.1)
    ]

    pub parents-without :
        (js : List (Job F)) (is : List OutboxItem)
        → All (HasParent js) is
        → All (HasParent (without_job id js)) (without_item id is)
    parents-without js [] h = tt
    parents-without js (i ∷ is) h = elim (Bool-cases (text_eq i.job_id id)) [
      | inl gone ↦ rw gone (parents-without js is h.1)
      | inr kept ↦ rw kept (
        ground (
          arith,
          has_job-without i.job_id js,
          text_eq_iff i.job_id id,
          text_eq_iff id i.job_id,
          h.0,
        ),
        parents-without js is h.1,
      )
    ]

  pub parents-mark :
      (now : Text) (id : ℕ) (js : List (Job F)) (is : List OutboxItem)
      → All (HasParent js) is
      → All (HasParent js) (mark_items now id is)
  unfolding mark_items
  parents-mark now id js [] h = tt
  parents-mark now id js (i ∷ is) h = elim (Bool-cases (i.id == id)) [
    | inl found ↦ rw found (h.0, parents-mark now id js is h.1)
    | inr other ↦ rw other (h.0, parents-mark now id js is h.1)
  ]
