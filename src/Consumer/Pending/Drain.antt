-- ===== src/Consumer/Pending/Drain.antt =====
-- What `stop` leaves in the table.
use docrunr.Base.{
  ℕ, suc, ◌≡◌, refl, Bool, true, false, List, [], ◌∷◌, ◌==◌, ltb, if◌then◌else◌, arith, ap, ◌∙◌,
  Bool-cases, inl, inr,
}
use docrunr.Consumer.Pending.{
  Pool, new_pool, is_pending, finish_future, finish_all, drain_pending_futures, begin_stop, stop,
  Event, run_events,
}
use docrunr.Consumer.Pending.Once.{
  count_pending, count_pending-pop, is_pending-pos, Accounted, finish_future-Accounted,
  run_events-Accounted,
}

module _ {ℓ} {D : Type ℓ} (raises : ℕ → Bool) where
  -- The completion of no delivery of the list raises.
  abbrev pub AreQuiet : List (ℕ × D) → Type 0
  AreQuiet [] = Unit
  AreQuiet ((f, d) ∷ fs) = (raises f ≡ false) × AreQuiet fs

  pending-finish_future :
      (n f : ℕ) (p : Pool D)
      → count_pending n (finish_future (raises f) f p).1.pending
        ≡ (if f == n then 0 else count_pending n p.pending)
  unfolding finish_future
  pending-finish_future n f p = elim (Bool-cases (is_pending f p.pending)) [
    | inl there ↦ rw there (count_pending-pop n f p.pending)
    | inr gone ↦ rw gone (ground (arith, is_pending-pos f p.pending))
  ]

  -- A round that does not raise finishes all of its futures.
  pending-finish_all :
      (n : ℕ) (fs : List (ℕ × D)) (p : Pool D)
      → (finish_all raises fs p).0 ≡ false
      → count_pending n (finish_all raises fs p).1.pending
        ≡ (if ltb 0 (count_pending n fs) then 0 else count_pending n p.pending)
  unfolding finish_all
  pending-finish_all n [] p safe = refl
  pending-finish_all n ((f, d) ∷ fs) p safe =
      let done = finish_future (raises f) f p in
      elim (Bool-cases done.0) [
        | inl raised ↦ absurd (cc (raised, rw raised at safe))
        | inr quiet ↦ rw quiet (
            ground (
              arith,
              pending-finish_all n fs done.1 (rw quiet at safe),
              pending-finish_future n f p,
            ))
      ]

  no_count : (ps : List (ℕ × D)) → ((n : ℕ) → count_pending n ps ≡ 0) → ps ≡ []
  no_count [] h = refl
  no_count ((m, d) ∷ ps) h = absurd (ground (arith, h m))

  finish_all-quiet :
      (fs : List (ℕ × D)) (p : Pool D) → AreQuiet fs → (finish_all raises fs p).0 ≡ false
  unfolding finish_all finish_future
  finish_all-quiet [] p h = refl
  finish_all-quiet ((f, d) ∷ fs) p h =
      ground (arith, h.0, finish_all-quiet fs (finish_future (raises f) f p).1 h.1)

  finish_all-Accounted :
      (fs : List (ℕ × D)) (p : Pool D) → Accounted p → Accounted (finish_all raises fs p).1
  unfolding finish_all
  finish_all-Accounted [] p h = h
  finish_all-Accounted ((f, d) ∷ fs) p h =
      let done = finish_future (raises f) f p in
      let ended = finish_future-Accounted (raises f) f p h in
      elim (Bool-cases done.0) [
        | inl raised ↦ rw raised ended
        | inr quiet ↦ rw quiet (finish_all-Accounted fs done.1 ended)
      ]

  -- What a run of the loop promises: it is complete if it does not raise.
  record IsDrained (r : Bool × Pool D) : Type ℓ where
    emptied : r.0 ≡ false → r.1.pending ≡ []
    accounted : Accounted r.1

  round_of : ℕ → List (ℕ × D) → Pool D → Bool × Pool D
  round_of fuel [] p = (false, p)
  round_of fuel (f ∷ futures) p =
      let round = finish_all raises (f ∷ futures) p in
      let rest = drain_pending_futures raises fuel round.1 in if round.0 then round else rest

  drain-round_of :
      (fuel : ℕ) (ps : List (ℕ × D)) (p : Pool D)
      → p.pending ≡ ps
      → drain_pending_futures raises (suc fuel) p ≡ round_of fuel ps p
  unfolding drain_pending_futures round_of
  drain-round_of fuel ps p e = go p.pending ∙ ap (λ qs. round_of fuel qs p) e
    where
      go :
          (qs : List (ℕ × D))
          → (elim qs as (λ x. Bool × Pool D) [
            | [] ↦ (false, p)
            | f ∷ futures ↦
                let round = finish_all raises (f ∷ futures) p in
                let rest = drain_pending_futures raises fuel round.1 in
                if round.0 then round else rest
          ])
            ≡ round_of fuel qs p
      go [] = refl
      go (f ∷ futures) = refl

  -- The second round of the loop finds the table empty.
  round_of-IsDrained :
      (ps : List (ℕ × D)) (p : Pool D) → p.pending ≡ ps → Accounted p → IsDrained (round_of 1 ps p)
  unfolding round_of
  round_of-IsDrained [] p e h = record { emptied = λ safe. e; accounted = h }
  round_of-IsDrained (f ∷ futures) p e h =
      let round = finish_all raises (f ∷ futures) p in
      let ended = finish_all-Accounted (f ∷ futures) p h in
      elim (Bool-cases round.0) [
        | inl raised ↦
            rw raised (record { emptied = λ safe. absurd (cc (raised, safe)); accounted = ended })
        | inr quiet ↦
            let empty : round.1.pending ≡ [] =
              no_count _ (λ n. ground (arith, pending-finish_all n (f ∷ futures) p quiet, e)) in
            let last = drain-round_of 0 [] round.1 empty in
            rw (quiet, last) (record { emptied = λ safe. empty; accounted = ended })
      ]

  round_of-quiet :
      (ps : List (ℕ × D)) (p : Pool D) → p.pending ≡ ps → AreQuiet ps → (round_of 1 ps p).0 ≡ false
  unfolding round_of
  round_of-quiet [] p e h = refl
  round_of-quiet (f ∷ futures) p e h =
      let round = finish_all raises (f ∷ futures) p in
      let quiet = finish_all-quiet (f ∷ futures) p h in
      let empty : round.1.pending ≡ [] =
        no_count _ (λ n. ground (arith, pending-finish_all n (f ∷ futures) p quiet, e)) in
      rw (quiet, drain-round_of 0 [] round.1 empty) refl

  -- Behind any steps of the threads, the draining in `stop`, where no other thread steps in, raises
  -- only if the completion of a delivery of the table does. If it does not raise, the table is empty. In either
  -- case each delivery that went to the pool stands exactly once in the table, among those taken
  -- for completion, or among those dropped.
  pub stop_drains :
      (events : List (Event D))
      → let before = run_events events (new_pool {D = D}) in
        let r = stop raises before in
        (AreQuiet before.pending → r.0 ≡ false) × (r.0 ≡ false → r.1.pending ≡ []) × Accounted r.1
  unfolding stop begin_stop
  stop_drains events =
      let before = run_events events (new_pool {D = D}) in
      let p : Pool D = record before { stopping = true } in
      let same = drain-round_of 1 p.pending p refl in
      let drained = round_of-IsDrained p.pending p refl (run_events-Accounted events) in
      rw same (round_of-quiet p.pending p refl, drained.emptied, drained.accounted)
