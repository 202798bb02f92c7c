-- ===== src/Consumer/Conditions.antt =====
-- When a delivery of a worker (worker/src/docrunr_worker/consumer.py and
-- worker-llm/src/docrunr_worker_llm/consumer.py) is settled and answered, and what its last steps do
-- to that.
use docrunr.Base.{
  ℕ, suc, ◌≡◌, ◌≤◌, refl, Bool, true, false, List, [], ◌∷◌, Text, if◌then◌else◌, arith,
}
use docrunr.Consumer.Broker.{
  Action, published_result, published_dlq, acked, nacked, Step, ◌>>◌, catch, raise, if_open, call,
}
use docrunr.Consumer.Hoare.{
  Pred, Triple, Triple-seq, Triple-catch, Triple-raise, Triple-if_open, Triple-if, Triple-call,
  Calls, At,
}

-- How many acknowledgements, positive and negative, the broker took.
abbrev pub settled : List Action → ℕ
settled [] = 0
settled (acked ∷ t) = suc (settled t)
settled (nacked ∷ t) = suc (settled t)
settled (_ ∷ t) = settled t

-- Whether a result or a dead letter has been published.
abbrev pub has_answer : List Action → Bool
has_answer [] = false
has_answer (published_result json ∷ t) = true
has_answer (published_dlq queue reason body ∷ t) = true
has_answer (_ ∷ t) = has_answer t

-- Each acknowledgement comes behind a result or a dead letter.
abbrev pub Justified : List Action → Type 0
Justified [] = Unit
Justified (acked ∷ t) = (has_answer t ≡ true) × Justified t
Justified (_ ∷ t) = Justified t

-- A delivery that is not settled, one with its answer published, a settled one, and one whose
-- steps have raised: it is settled at most once, and not at all while the channel is open.
abbrev pub Unsettled : Pred
Unsettled o t = (settled t ≡ 0) × Justified t

abbrev pub Answered : Pred
Answered o t = (settled t ≡ 0) × Justified t × (has_answer t ≡ true)

abbrev pub Settled : Pred
Settled o t = (settled t ≡ 1) × Justified t

abbrev pub Failed : Pred
Failed o t = (settled t ≤ 1) × Justified t × (o ≡ true → settled t ≡ 0)

pub unsettled-Failed : (o : Bool) (t : List Action) → Unsettled o t → Failed o t
unsettled-Failed o t h = (omega (arith, h.0), h.1, λ e. h.0)

pub answered-Failed : (o : Bool) (t : List Action) → Answered o t → Failed o t
answered-Failed o t h = (omega (arith, h.0), h.1, λ e. h.0)

pub acked-Settled : Triple Answered (call acked) Settled Failed
acked-Settled = Triple-call acked (record {
  carried = λ t h. (omega (arith, h.0), (h.2, h.1));
  unchanged = answered-Failed;
  closed = λ t h. answered-Failed false t h;
  closed_behind = λ t h. (omega (arith, h.0), (h.2, h.1), λ e. absurd (cc e));
})

-- A requeue, where the channel is open.
pub nacked-Settled : Triple (At true Failed) (call nacked) Settled Failed
nacked-Settled = Triple-call nacked (record {
  carried = λ t h. (omega (arith, h.1.2 refl), h.1.1);
  unchanged = λ o t h. h.1;
  closed = λ t h. (h.1.0, h.1.1, λ e. absurd (cc e));
  closed_behind = λ t h. (omega (arith, h.1.2 refl), h.1.1, λ e. absurd (cc e));
})

-- A call that changes nothing of this.
pub same_answer :
    (a : Action)
    → ((t : List Action) → Answered true t → Answered true (a ∷ t))
    → Calls Answered a Answered Answered
same_answer a f = record {
  carried = f;
  unchanged = λ o t h. h;
  closed = λ t h. h;
  closed_behind = λ t h. f t h;
}

-- The publication of an answer.
pub publish-Answered :
    (a : Action)
    → ((t : List Action) → Unsettled true t → Answered true (a ∷ t))
    → Triple Unsettled (call a) Answered Failed
publish-Answered a f = Triple-call a (record {
  carried = f;
  unchanged = unsettled-Failed;
  closed = λ t h. unsettled-Failed false t h;
  closed_behind = λ t h. answered-Failed false (a ∷ t) (f t h);
})

-- What the exception's handler does on an open channel: a first delivery goes back, and another is
-- a dead letter, or goes back where that fails.
pub retry_or_letter-Settled :
    (first : Bool) (letter : Step) (exc : Text)
    → Triple (At true Failed) letter Settled Failed
    → Triple Failed
        (if_open
          (if first then call nacked else catch letter (λ e. if_open (call nacked) (raise e)))
          (raise exc))
        Settled
        Failed
retry_or_letter-Settled first letter exc h =
    let retry = λ (e : Text). if_open (call nacked) (raise e) in
    Triple-if_open (if first then call nacked else catch letter retry) (raise exc)
      (Triple-if first (call nacked) (catch letter retry) (λ once. nacked-Settled)
        (λ again. Triple-catch letter retry h (λ e.
          Triple-if_open (call nacked) (raise e) nacked-Settled (Triple-raise e (λ o t k. k.1)))))
      (Triple-raise exc (λ o t k. k.1))

-- A dead letter is published and acknowledged.
pub letter-Settled :
    (queue exc body : Text) (record_it : Step)
    → Triple Answered record_it Answered Failed
    → Triple
        (At true Failed)
        (call (published_dlq queue exc body) >> record_it >> call acked)
        Settled
        Failed
letter-Settled queue exc body record_it h =
    let publish = call (published_dlq queue exc body) in
    Triple-seq (publish >> record_it) (call acked)
      (Triple-seq {Q = Answered} publish record_it
        (Triple-call (published_dlq queue exc body) (record {
          carried = λ t k. (k.1.2 refl, k.1.1, refl);
          unchanged = λ o t k. k.1;
          closed = λ t k. (k.1.0, k.1.1, λ e. absurd (cc e));
          closed_behind = λ t k. (k.1.0, k.1.1, λ e. absurd (cc e));
        }))
        h)
      acked-Settled
