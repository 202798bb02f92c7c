-- ===== src/Consumer/Hoare.antt =====
-- Rules for what the steps of a delivery leave, by how they end: a condition is one on whether the
-- channel is open and on the trace.
use docrunr.Base.{◌≡◌, refl, Bool, true, false, List, [], ◌∷◌, Text, if◌then◌else◌}
use docrunr.Consumer.Broker.{
  Action, Answer, returns, raises, closes, closes_behind, Broker, Result, ok, raised, Step, next,
  ◌>>◌, pure, raise, handled, catch, if_open, call_open, call, note,
}

abbrev pub Pred : Type 1
Pred = Bool → List Action → Type 0

abbrev pub Post : Result × Broker → Pred → Pred → Type 0
Post (ok, b) Q R = Q b.is_open b.trace
Post (raised e, b) Q R = R b.is_open b.trace

-- From a state with `P`, `m` returns with `Q` or raises with `R`, whatever the broker answers.
pub record Triple (P : Pred) (m : Step) (Q R : Pred) : Type 0 where
  pub from : (b : Broker) → P b.is_open b.trace → Post (m b) Q R

next-Post :
    (x : Result × Broker) (k : Step) {Q S R : Pred}
    → Post x Q R
    → Triple Q k S R
    → Post (next x k) S R
next-Post (ok, b) k h t = t.from b h
next-Post (raised e, b) k h t = h

handled-Post :
    (x : Result × Broker) (handler : Text → Step) {Q R S : Pred}
    → Post x Q R
    → ((e : Text) → Triple R (handler e) Q S)
    → Post (handled x handler) Q S
handled-Post (ok, b) handler h t = h
handled-Post (raised e, b) handler h t = (t e).from b h

pub Triple-seq :
    {P Q S R : Pred} (m k : Step) → Triple P m Q R → Triple Q k S R → Triple P (m >> k) S R
Triple-seq m k h t = record { from = λ b p. next-Post (m b) k (h.from b p) t }

pub Triple-catch :
    {P Q R S : Pred} (m : Step) (handler : Text → Step)
    → Triple P m Q R
    → ((e : Text) → Triple R (handler e) Q S)
    → Triple P (catch m handler) Q S
Triple-catch m handler h t = record { from = λ b p. handled-Post (m b) handler (h.from b p) t }

-- What holds after a raise may be weakened.
pub Triple-weaken :
    {P Q R R' : Pred} (m : Step)
    → ((o : Bool) (t : List Action) → R o t → R' o t)
    → Triple P m Q R
    → Triple P m Q R'
Triple-weaken {P} {Q} {R} {R'} m f h = record { from = λ b p. go (m b) (h.from b p) }
  where
    go : (x : Result × Broker) → Post x Q R → Post x Q R'
    go (ok, b) q = q
    go (raised e, b) r = f b.is_open b.trace r

pub Triple-pure :
    {P Q R : Pred} → ((o : Bool) (t : List Action) → P o t → Q o t) → Triple P pure Q R
Triple-pure f = record { from = λ b p. f b.is_open b.trace p }

pub Triple-raise :
    {P Q R : Pred} (e : Text)
    → ((o : Bool) (t : List Action) → P o t → R o t)
    → Triple P (raise e) Q R
Triple-raise e f = record { from = λ b p. f b.is_open b.trace p }

-- Where a condition is one of an open channel, or of a closed one.
abbrev pub At : Bool → Pred → Pred
At open_now P o t = (o ≡ open_now) × P o t

pub Triple-if_open :
    {P Q R : Pred} (m k : Step)
    → Triple (At true P) m Q R
    → Triple (At false P) k Q R
    → Triple P (if_open m k) Q R
Triple-if_open {P} {Q} {R} m k h t = record { from = λ b p. go b b.is_open refl p }
  where
    go :
        (b : Broker) (open_now : Bool)
        → b.is_open ≡ open_now
        → P b.is_open b.trace
        → Post (if open_now then m b else k b) Q R
    go b true e p = h.from b (e, p)
    go b false e p = t.from b (e, p)

pub Triple-if :
    {P Q R : Pred} (test : Bool) (m k : Step)
    → (test ≡ true → Triple P m Q R)
    → (test ≡ false → Triple P k Q R)
    → Triple P (if test then m else k) Q R
Triple-if true m k h t = h refl
Triple-if false m k h t = t refl

pub Triple-note :
    {P Q R : Pred} (a : Action)
    → ((o : Bool) (t : List Action) → P o t → Q o (a ∷ t))
    → Triple P (note a) Q R
Triple-note a f = record { from = λ b p. f b.is_open b.trace p }

-- What a call needs: `Q` where it was carried out, and `R` where it raises, which leaves the trace
-- and the channel as they are, or finds the channel closed, before or behind the call.
pub record Calls (P : Pred) (a : Action) (Q R : Pred) : Type 0 where
  pub carried : (t : List Action) → P true t → Q true (a ∷ t)
  pub unchanged : (o : Bool) (t : List Action) → P o t → R o t
  pub closed : (t : List Action) → P true t → R false t
  pub closed_behind : (t : List Action) → P true t → R false (a ∷ t)

call_open-Post :
    (P Q R : Pred) (answers : List Answer) (a : Action) (b : Broker)
    → b.is_open ≡ true
    → P true b.trace
    → Calls P a Q R
    → Post (call_open answers a b) Q R
unfolding call_open
call_open-Post P Q R [] a b e p h = rw e (h.carried b.trace p)
call_open-Post P Q R (returns ∷ answers) a b e p h = rw e (h.carried b.trace p)
call_open-Post P Q R (raises x ∷ answers) a b e p h = rw e (h.unchanged true b.trace p)
call_open-Post P Q R (closes x ∷ answers) a b e p h = h.closed b.trace p
call_open-Post P Q R (closes_behind x ∷ answers) a b e p h = h.closed_behind b.trace p

pub Triple-call : {P Q R : Pred} (a : Action) → Calls P a Q R → Triple P (call a) Q R
unfolding call
Triple-call {P} {Q} {R} a h = record { from = λ b p. go b b.is_open refl p }
  where
    go :
        (b : Broker) (open_now : Bool)
        → b.is_open ≡ open_now
        → P b.is_open b.trace
        → Post (if open_now then call_open b.answers a b else (raised [], b)) Q R
    go b true e p = call_open-Post P Q R b.answers a b e (rw e at p) h
    go b false e p = h.unchanged b.is_open b.trace p
