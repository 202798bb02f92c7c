-- ===== src/Api/Outbox.antt =====
-- The outbox: `pending_outbox`, `mark_published` and `is_published` of
-- api/src/docrunr_api/repository.py, and `_flush_outbox` of api/src/docrunr_api/broker.py.
pub mod Sends
use docrunr.Base.{
  Bool, true, false, Option, none, some, List, [], ◌∷◌, ◌++◌, Text, text_eq, ◌==◌, take,
  if◌then◌else◌, ℕ,
}
use docrunr.Api.Schema.{OutboxItem, Database}

abbrev pub is_unpublished : OutboxItem → Bool
is_unpublished i = elim i.published_at [ none ↦ true | some at ↦ false ]

-- `WHERE published_at IS NULL ORDER BY id`
unfoldable pub unpublished : List OutboxItem → List OutboxItem
unpublished [] = []
unpublished (i ∷ is) = let rest = unpublished is in if is_unpublished i then i ∷ rest else rest

unfoldable pub mark_items : Text → ℕ → List OutboxItem → List OutboxItem
mark_items now id [] = []
mark_items now id (i ∷ is) =
    (if i.id == id then record i { published_at = some now } else i) ∷ mark_items now id is

published_of : Text → List OutboxItem → Bool
published_of job_id [] = false
published_of job_id (i ∷ is) =
    let rest = published_of job_id is in
    if text_eq i.job_id job_id then elim i.published_at [ none ↦ false | some at ↦ true ] else rest

module _ {F : Type 0} where
  pub pending_outbox : ℕ → Database F → List OutboxItem
  unfolding unpublished
  pending_outbox limit db = take limit (unpublished db.outbox)

  unfoldable pub mark_published : Text → ℕ → Database F → Database F
  unfolding mark_items
  mark_published now id db = record db { outbox = mark_items now id db.outbox }

  pub is_published : Text → Database F → Bool
  unfolding published_of
  is_published job_id db = published_of job_id db.outbox

-- How one round of the loop ends: the publication is confirmed and marked at a time; or it is
-- confirmed and the mark fails; or the broker does not confirm it; or the call raises before the
-- broker has the message.
pub data Confirm : Type 0 where
  confirmed : Text → Confirm
  not_marked refused unsent : Confirm

-- The tables, the items whose messages the broker has taken, in order, and whether the loop came
-- to its end without an exception.
pub record Flushed (F : Type 0) : Type 0 where
  pub db : Database F
  pub sent : List OutboxItem
  pub finished : Bool

abbrev pub outbox_limit : ℕ
outbox_limit = 100

module _ {F : Type 0} where
  -- The loop over `pending_outbox()`. Where no answer is left the broker is gone.
  unfoldable pub flush_items :
      List OutboxItem → List Confirm → Database F → List OutboxItem → Flushed F
  unfolding mark_published
  flush_items [] answers db sent = record { db = db; sent = sent; finished = true }
  flush_items (i ∷ is) [] db sent = record { db = db; sent = sent; finished = false }
  flush_items (i ∷ is) (confirmed now ∷ answers) db sent =
      flush_items is answers (mark_published now i.id db) (sent ++ i ∷ [])
  flush_items (i ∷ is) (not_marked ∷ answers) db sent = record {
    db = db;
    sent = sent ++ i ∷ [];
    finished = false;
  }
  flush_items (i ∷ is) (_ ∷ answers) db sent = record { db = db; sent = sent; finished = false }

  pub flush_outbox : List Confirm → Database F → Flushed F
  unfolding pending_outbox flush_items
  flush_outbox answers db = flush_items (pending_outbox outbox_limit db) answers db []
