-- ===== src/Api/Outbox/Sends.antt =====
-- What a round of `_flush_outbox` sends and what it leaves in the outbox.
use mathlib.Core.Path.{subst}
use docrunr.Base.{
  ℕ, suc, ◌+◌, ◌≤◌, ◌<◌, ◌≡◌, refl, Bool, true, false, List, [], ◌∷◌, ◌++◌, Text, length, take,
  drop, arith, Bool-cases, Option-cases, inl, inr, ◌==◌, append-nil, append_assoc, sym, ◌∙◌, ap,
  take-append-drop,
}
use docrunr.Api.Schema.{OutboxItem, Database}
use docrunr.Api.Repository.Ids.{Rising, Rising-mark}
use docrunr.Api.Repository.Rows.{IsConsistent}
use docrunr.Api.Outbox.{
  unpublished, mark_items, mark_published, pending_outbox, Confirm, confirmed, not_marked, refused,
  unsent, Flushed, flush_items, flush_outbox, outbox_limit,
}

-- A mark on an id below all others changes nothing.
unpublished-mark_below :
    (now : Text) (id lo : ℕ) (is : List OutboxItem) (hi : ℕ)
    → id < lo
    → Rising lo is hi
    → unpublished (mark_items now id is) ≡ unpublished is
unfolding mark_items unpublished
unpublished-mark_below now id lo [] hi below h = refl
unpublished-mark_below now id lo (i ∷ is) hi below h =
    let other : (i.id == id) ≡ false = ground (arith, h.0) in
    rw (other, unpublished-mark_below now id (i.id + 1) is hi (omega (arith, h.0)) h.1)

-- A mark on the first item that is not published takes just that item off the list.
unpublished-mark :
    (now : Text) (lo : ℕ) (os : List OutboxItem) (hi : ℕ) (i : OutboxItem) (is : List OutboxItem)
    → Rising lo os hi
    → unpublished os ≡ i ∷ is
    → unpublished (mark_items now i.id os) ≡ is
unfolding mark_items unpublished
unpublished-mark now lo [] hi i is h e = absurd (cc e)
unpublished-mark now lo (o ∷ os) hi i is h e = elim (Option-cases o.published_at) [
  | inl waits ↦
      let e' = rw waits at e in
      let same : o ≡ i = cc e' in
      let later : unpublished os ≡ is = cc e' in
      let same_id : o.id ≡ i.id = ap (λ x. x.id) same in
      let found : (o.id == i.id) ≡ true = ground arith in
      rw (found, unpublished-mark_below now i.id (o.id + 1) os hi (omega arith) h.1) later
  | inr (at, done) ↦
      let e' : unpublished os ≡ i ∷ is = rw done at e in
      elim (Bool-cases (o.id == i.id)) [
        | inl found ↦ rw found (unpublished-mark now (o.id + 1) os hi i is h.1 e')
        | inr other ↦ rw (other, done) (unpublished-mark now (o.id + 1) os hi i is h.1 e')
      ]
]

module _ {F : Type 0} where
  -- Of `items`, which `rest` follows in the outbox, the first `taken` were sent and the first
  -- `cleared` marked.
  pub record Sends (items rest : List OutboxItem) (before : List OutboxItem) (r : Flushed F)
      : Type 0 where
    pub taken : ℕ
    pub cleared : ℕ
    pub sent_first : r.sent ≡ before ++ take taken items
    pub left : unpublished r.db.outbox ≡ drop cleared items ++ rest
    pub cleared_le : cleared ≤ taken
    pub taken_le : taken ≤ cleared + 1
    pub all_cleared : r.finished ≡ true → cleared ≡ length items

  -- A round that ends before it has marked anything.
  unmarked :
      (n : ℕ) (items rest sent : List OutboxItem) (db : Database F) (finished : Bool)
      → unpublished db.outbox ≡ items ++ rest
      → n ≤ 1
      → (finished ≡ true → 0 ≡ length items)
      → Sends items rest sent (record { db = db; sent = sent ++ take n items; finished = finished })
  unmarked n items rest sent db finished e small whole = record {
    taken = n;
    cleared = 0;
    sent_first = refl;
    left = e;
    cleared_le = omega arith;
    taken_le = omega arith;
    all_cleared = whole;
  }

  unsent_items :
      (items rest sent : List OutboxItem) (db : Database F) (finished : Bool)
      → unpublished db.outbox ≡ items ++ rest
      → (finished ≡ true → 0 ≡ length items)
      → Sends items rest sent (record { db = db; sent = sent; finished = finished })
  unsent_items items rest sent db finished e whole =
      subst (λ s. Sends items rest sent (record { db = db; sent = s; finished = finished }))
        (append-nil sent) (unmarked 0 items rest sent db finished e (omega arith) whole)

  flush_items-Sends :
      (items rest : List OutboxItem) (answers : List Confirm) (db : Database F)
      (sent : List OutboxItem)
      → Rising 0 db.outbox db.next_id
      → unpublished db.outbox ≡ items ++ rest
      → Sends items rest sent (flush_items items answers db sent)
  unfolding flush_items mark_published
  flush_items-Sends [] rest answers db sent h e = unsent_items [] rest sent db true e (λ f. refl)
  flush_items-Sends (i ∷ is) rest [] db sent h e =
      unsent_items (i ∷ is) rest sent db false e (λ f. absurd (cc f))
  flush_items-Sends (i ∷ is) rest (confirmed now ∷ answers) db sent h e =
      let after = mark_published now i.id db in
      let then_ =
        flush_items-Sends is rest answers after (sent ++ i ∷ [])
          (Rising-mark now i.id 0 db.outbox db.next_id h)
          (unpublished-mark now 0 db.outbox db.next_id i (is ++ rest) h e) in
      record {
        taken = suc then_.taken;
        cleared = suc then_.cleared;
        sent_first = then_.sent_first ∙ append_assoc sent (i ∷ []) (take then_.taken is);
        left = then_.left;
        cleared_le = omega (arith, then_.cleared_le);
        taken_le = omega (arith, then_.taken_le);
        all_cleared = λ f. ap suc (then_.all_cleared f);
      }
  flush_items-Sends (i ∷ is) rest (not_marked ∷ answers) db sent h e =
      unmarked 1 (i ∷ is) rest sent db false e (omega arith) (λ f. absurd (cc f))
  flush_items-Sends (i ∷ is) rest (refused ∷ answers) db sent h e =
      unsent_items (i ∷ is) rest sent db false e (λ f. absurd (cc f))
  flush_items-Sends (i ∷ is) rest (unsent ∷ answers) db sent h e =
      unsent_items (i ∷ is) rest sent db false e (λ f. absurd (cc f))

  -- Whatever the broker answers, a round sends the first few of the at most 100 oldest messages
  -- that wait, in order; each that it marks as published has been sent, at most one that it sent
  -- is left unmarked, and the rest of the outbox waits on; and a round that ends without an
  -- exception has marked all of them.
  pub flush_outbox-Sends :
      (answers : List Confirm) (db : Database F)
      → IsConsistent db
      → Sends
          (pending_outbox outbox_limit db)
          (drop outbox_limit (unpublished db.outbox))
          []
          (flush_outbox answers db)
  unfolding flush_outbox pending_outbox
  flush_outbox-Sends answers db h =
      flush_items-Sends (take outbox_limit (unpublished db.outbox))
        (drop outbox_limit (unpublished db.outbox)) answers db [] h.rising
        (sym (take-append-drop outbox_limit (unpublished db.outbox)))
