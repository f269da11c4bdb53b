-- ===== src/Redis/Ends.antt =====
-- Postconditions of asynchronous code, with one rule for each way to build it.
use bullmq_rs.Prelude.{
  ap, Bool, true, false, ◌≡◌, refl, if◌then◌else◌, List, ◌∷◌, ℕ, String, subst, sym, ◌∙◌, ◌≢◌,
  arith,
}
use bullmq_rs.Error.{BullmqError, redis, Result, ok, err}
use bullmq_rs.Redis.{
  continue, Value, Reply, value, failure, received, clock, Request, Env, Io, send, now_ms,
  or_cleaned, attempt, read_u64, read_score, read_text, read_texts, read_hash, pure, throw, lift,
  ◌>>=◌,
}

-- `P` of the value and the requests sent when the code returns, `E` when it fails.
abbrev pub Post :
    {A : Type 0}
    → (A → List Request → Type 0)
    → (BullmqError → List Request → Type 0)
    → Result A
    → List Request
    → Type 0
Post P E (ok a) log = P a log
Post P E (err e) log = E e log

pub record Ends {A : Type 0} (env : Env) (log : List Request) (P : A → List Request → Type 0)
    (E : BullmqError → List Request → Type 0) (m : Io A) : Type 0 where
  pub at : Post P E (m env log).0 (m env log).1

module _ {A : Type 0} {env : Env} {P : A → List Request → Type 0}
    {E : BullmqError → List Request → Type 0} where
  pub Ends-pure : (log : List Request) (a : A) → P a log → Ends env log P E (pure a)
  unfolding pure
  Ends-pure log a h = record { at = h }

  pub Ends-throw : (log : List Request) (e : BullmqError) → E e log → Ends env log P E (throw e)
  unfolding throw
  Ends-throw log e h = record { at = h }

  pub Ends-lift : (log : List Request) (r : Result A) → Post P E r log → Ends env log P E (lift r)
  unfolding lift
  Ends-lift log r h = record { at = h }

  pub Ends-if :
      (log : List Request) (b : Bool) (m n : Io A)
      → (b ≡ true → Ends env log P E m)
      → (b ≡ false → Ends env log P E n)
      → Ends env log P E (if b then m else n)
  Ends-if log true m n h k = h refl
  Ends-if log false m n h k = k refl

  pub Ends-weaken :
      {Q : A → List Request → Type 0} (log : List Request) (m : Io A)
      → Ends env log Q E m
      → ((a : A) (log' : List Request) → Q a log' → P a log')
      → Ends env log P E m
  Ends-weaken {Q} log m h k = record { at = go (m env log).0 (m env log).1 h.at }
    where
      go : (r : Result A) (log' : List Request) → Post Q E r log' → Post P E r log'
      go (ok a) log' q = k a log' q
      go (err e) log' q = q

  pub Ends-or_cleaned :
      {Q : A → List Request → Type 0} {F : BullmqError → List Request → Type 0} (log : List Request)
      (m : Io A) (r : Request)
      → Ends env log Q F m
      → ((a : A) (log' : List Request) → Q a log' → P a log')
      → ((e : BullmqError) (log' : List Request) → F e log' → E e (r ∷ log'))
      → Ends env log P E (or_cleaned m r)
  unfolding or_cleaned lift
  Ends-or_cleaned {Q} {F} log m r h good bad = record { at = go (m env log).0 (m env log).1 h.at }
    where
      go :
          (x : Result A) (log' : List Request)
          → Post Q F x log'
          → let k = or_cleaned (lift x) r env log' in Post P E k.0 k.1
      go (ok a) log' q = good a log' q
      go (err e) log' q = bad e log' q

module _ {A B : Type 0} {env : Env} {P : B → List Request → Type 0} {Q : A → List Request → Type 0}
    {E : BullmqError → List Request → Type 0} where
  pub Ends-bind :
      (log : List Request) (m : Io A) (f : A → Io B)
      → Ends env log Q E m
      → ((a : A) (log' : List Request) → Q a log' → Ends env log' P E (f a))
      → Ends env log P E (m >>= f)
  unfolding ◌>>=◌
  Ends-bind log m f hm hf = record { at = go (m env log).0 (m env log).1 hm.at }
    where
      go :
          (r : Result A) (log' : List Request)
          → Post Q E r log'
          → let k = (lift r >>= f) env log' in Post P E k.0 k.1
      go (ok a) log' q = (hf a log' q).at
      go (err e) log' q = q

-- Nothing is claimed.
pub Ends-any :
    {A : Type 0} {env : Env} (log : List Request) (m : Io A)
    → Ends env log (λ _ _. Unit {0}) (λ _ _. Unit {0}) m
Ends-any {A} {env} log m = record { at = go (m env log).0 (m env log).1 }
  where
    go : (r : Result A) (log' : List Request) → Post (λ _ _. Unit {0}) (λ _ _. Unit {0}) r log'
    go (ok a) log' = tt
    go (err e) log' = tt

pub Ends-ok :
    {A : Type 0} {env : Env} {log log' : List Request} {P : A → List Request → Type 0}
    {E : BullmqError → List Request → Type 0} {m : Io A} {a : A}
    → Ends env log P E m
    → m env log ≡ (ok a, log')
    → P a log'
Ends-ok {P} {E} h e = subst (λ r. Post P E r.0 r.1) e h.at

pub Ends-err :
    {A : Type 0} {env : Env} {log log' : List Request} {P : A → List Request → Type 0}
    {E : BullmqError → List Request → Type 0} {m : Io A} {x : BullmqError}
    → Ends env log P E m
    → m env log ≡ (err x, log')
    → E x log'
Ends-err {P} {E} h e = subst (λ r. Post P E r.0 r.1) e h.at

-- A request is in the log whether it is answered or not.
module _ {env : Env} {P : Value → List Request → Type 0}
    {E : BullmqError → List Request → Type 0} where
  pub Ends-send :
      (log : List Request) (r : Request)
      → ((v : Value) → env.answer log r ≡ value v → P v (r ∷ log))
      → ((e : String) → env.answer log r ≡ failure e → E (redis e) (r ∷ log))
      → Ends env log P E (send r)
  unfolding send
  Ends-send log r good bad = record { at = go (env.answer log r) refl }
    where
      go : (x : Reply) → env.answer log r ≡ x → let k = received x in Post P E k (r ∷ log)
      go (value v) h = good v h
      go (failure e) h = bad e h

pub Ends-now_ms :
    {env : Env} {P : ℕ → List Request → Type 0} {E : BullmqError → List Request → Type 0}
    (log : List Request)
    → P (env.now_ms log) (clock ∷ log)
    → Ends env log P E now_ms
unfolding now_ms
Ends-now_ms log h = record { at = h }

-- Code that goes on after a value.
pub bind-ok :
    {A B : Type 0} {env : Env} {log log' : List Request} (m : Io A) (f : A → Io B) (a : A)
    → m env log ≡ (ok a, log')
    → (m >>= f) env log ≡ f a env log'
unfolding ◌>>=◌
bind-ok {env} m f a h = ap (λ p. continue p.0 f env p.1) h

-- Code that does the same as other code from another point on.
pub Ends-after :
    {A : Type 0} {env : Env} {log log' : List Request} {P : A → List Request → Type 0}
    {E : BullmqError → List Request → Type 0} (m k : Io A)
    → m env log ≡ k env log'
    → Ends env log' P E k
    → Ends env log P E m
Ends-after {P} {E} m k e h = record { at = subst (λ r. Post P E r.0 r.1) (sym e) h.at }

attempt-send :
    (env : Env) (log : List Request) (r : Request) (x : Reply)
    → env.answer log r ≡ x
    → attempt (send r) env log ≡ (ok (received x), r ∷ log)
unfolding attempt send
attempt-send env log r x h = rw h refl

pub attempt-value :
    (env : Env) (log : List Request) (r : Request) (v : Value)
    → env.answer log r ≡ value v
    → attempt (send r) env log ≡ (ok (ok v), r ∷ log)
unfolding received
attempt-value env log r v h = attempt-send env log r (value v) h

pub attempt-failure :
    (env : Env) (log : List Request) (r : Request) (e : String)
    → env.answer log r ≡ failure e
    → attempt (send r) env log ≡ (ok (err (redis e)), r ∷ log)
unfolding received
attempt-failure env log r e h = attempt-send env log r (failure e) h

-- A reply that is known beforehand, and a result that is known to be good.
pub Ends-send_value :
    {env : Env} (log : List Request) (r : Request) (v : Value)
    → env.answer log r ≡ value v
    → Ends env log (λ w _. w ≡ v) (λ _ _. ⊥) (send r)
Ends-send_value {env} log r v h =
    Ends-send log r (λ w k. ap content (sym k ∙ h)) (λ e k. absurd (no_failure e (sym k ∙ h)))
  where
    content : Reply → Value
    content (value w) = w
    content (failure e) = v

    no_failure : (e : String) → failure e ≢ value v
    no_failure e q = ground arith

pub Ends-lift_ok :
    {A : Type 0} {env : Env} {P : A → List Request → Type 0}
    {E : BullmqError → List Request → Type 0} (log : List Request) (r : Result A) (a : A)
    → r ≡ ok a
    → P a log
    → Ends env log P E (lift r)
Ends-lift_ok {P} {E} log r a h p = Ends-lift log r (subst (λ x. Post P E x log) (sym h) p)

pub Ends-read_score :
    {env : Env} {P : Bool → List Request → Type 0} {E : BullmqError → List Request → Type 0}
    (log : List Request) (v : Value) (b : Bool)
    → env.to_score v ≡ ok b
    → P b log
    → Ends env log P E (read_score v)
unfolding read_score
Ends-read_score {P} {E} log v b h p = record { at = subst (λ x. Post P E x log) (sym h) p }

-- Code that cannot fail.
pub Ends-sure :
    {A : Type 0} {env : Env} {P : A → List Request → Type 0}
    {E : BullmqError → List Request → Type 0} (log : List Request) (m : Io A)
    → Ends env log P (λ _ _. ⊥) m
    → Ends env log P E m
Ends-sure {A} {env} {P} {E} log m h = record { at = go (m env log).0 (m env log).1 h.at }
  where
    go : (r : Result A) (log' : List Request) → Post P (λ _ _. ⊥) r log' → Post P E r log'
    go (ok a) log' q = q
    go (err e) log' q = absurd q

-- Both postconditions weakened.
pub Ends-map :
    {A : Type 0} {env : Env} {P Q : A → List Request → Type 0}
    {E F : BullmqError → List Request → Type 0} (log : List Request) (m : Io A)
    → Ends env log Q F m
    → ((a : A) (log' : List Request) → Q a log' → P a log')
    → ((e : BullmqError) (log' : List Request) → F e log' → E e log')
    → Ends env log P E m
Ends-map {A} {env} {P} {Q} {E} {F} log m h f g = record { at = go (m env log).0 (m env log).1 h.at }
  where
    go : (r : Result A) (log' : List Request) → Post Q F r log' → Post P E r log'
    go (ok a) log' q = f a log' q
    go (err e) log' q = g e log' q

-- Reading a reply sends nothing.
pub Ends-read_text :
    {env : Env} {P : String → List Request → Type 0} {E : BullmqError → List Request → Type 0}
    (log : List Request) (v : Value)
    → ((s : String) → P s log)
    → ((e : BullmqError) → E e log)
    → Ends env log P E (read_text v)
unfolding read_text
Ends-read_text {env} {P} {E} log v good bad = record { at = go (env.to_text v) }
  where
    go : (r : Result String) → Post P E r log
    go (ok s) = good s
    go (err e) = bad e

pub Ends-read_u64 :
    {env : Env} {P : ℕ → List Request → Type 0} {E : BullmqError → List Request → Type 0}
    (log : List Request) (v : Value) (n : ℕ)
    → env.to_u64 v ≡ ok n
    → P n log
    → Ends env log P E (read_u64 v)
unfolding read_u64
Ends-read_u64 {P} {E} log v n h p = record { at = subst (λ x. Post P E x log) (sym h) p }

pub Ends-read_hash :
    {env : Env} {P : List (String × String) → List Request → Type 0}
    {E : BullmqError → List Request → Type 0} (log : List Request) (v : Value)
    (hash : List (String × String))
    → env.to_hash v ≡ ok hash
    → P hash log
    → Ends env log P E (read_hash v)
unfolding read_hash
Ends-read_hash {P} {E} log v hash h p = record { at = subst (λ x. Post P E x log) (sym h) p }

pub Ends-read_texts :
    {env : Env} {P : List String → List Request → Type 0} {E : BullmqError → List Request → Type 0}
    (log : List Request) (v : Value) (texts : List String)
    → env.to_texts v ≡ ok texts
    → P texts log
    → Ends env log P E (read_texts v)
unfolding read_texts
Ends-read_texts {P} {E} log v texts h p = record { at = subst (λ x. Post P E x log) (sym h) p }
