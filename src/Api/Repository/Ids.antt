-- ===== src/Api/Repository/Ids.antt =====
-- The ids of the outbox, in the order in which AUTOINCREMENT gave them.
use docrunr.Base.{
  ℕ, ◌+◌, ◌<◌, ◌≤◌, List, [], ◌∷◌, ◌++◌, Text, text_eq, arith, Bool-cases, inl, inr, ◌==◌,
}
use docrunr.Api.Schema.{OutboxItem}
use docrunr.Api.Repository.{without_item}
use docrunr.Api.Outbox.{mark_items}

-- The ids of the outbox rise and are below `next_id`.
abbrev pub Rising : ℕ → List OutboxItem → ℕ → Type 0
Rising lo [] hi = lo < hi + 1
Rising lo (i ∷ is) hi = (lo < i.id + 1) × Rising (i.id + 1) is hi

pub Rising-append :
    (lo : ℕ) (is : List OutboxItem) (item : OutboxItem)
    → Rising lo is item.id
    → Rising lo (is ++ item ∷ []) (item.id + 1)
Rising-append lo [] item h = (h, omega arith)
Rising-append lo (i ∷ is) item h = (h.0, Rising-append (i.id + 1) is item h.1)

pub Rising-lower :
    (low lo : ℕ) (is : List OutboxItem) (hi : ℕ) → low ≤ lo → Rising lo is hi → Rising low is hi
Rising-lower low lo [] hi l h = omega arith
Rising-lower low lo (i ∷ is) hi l h = (omega (arith, h.0), h.1)

pub Rising-without :
    (id : Text) (lo : ℕ) (is : List OutboxItem) (hi : ℕ)
    → Rising lo is hi
    → Rising lo (without_item id is) hi
Rising-without id lo [] hi h = h
Rising-without id lo (i ∷ is) hi h = elim (Bool-cases (text_eq i.job_id id)) [
  | inl gone ↦ rw gone (
      Rising-lower lo (i.id + 1) (without_item id is) hi (omega (arith, h.0))
        (Rising-without id (i.id + 1) is hi h.1))
  | inr kept ↦ rw kept (h.0, Rising-without id (i.id + 1) is hi h.1)
]

pub Rising-mark :
    (now : Text) (id lo : ℕ) (is : List OutboxItem) (hi : ℕ)
    → Rising lo is hi
    → Rising lo (mark_items now id is) hi
unfolding mark_items
Rising-mark now id lo [] hi h = h
Rising-mark now id lo (i ∷ is) hi h = elim (Bool-cases (i.id == id)) [
  | inl found ↦ rw found (h.0, Rising-mark now id (i.id + 1) is hi h.1)
  | inr other ↦ rw other (h.0, Rising-mark now id (i.id + 1) is hi h.1)
]
