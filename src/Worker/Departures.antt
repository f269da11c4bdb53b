-- ===== src/Worker/Departures.antt =====
-- What the log of requests says of the jobs that a worker gave back.
use bullmq_rs.Prelude.{◌≡◌, String, Bool, true, List, [], ◌∷◌, ◌++◌, if◌then◌else◌}
use bullmq_rs.Text.{str_eq}
use bullmq_rs.Error.{BullmqError, Result, ok, err}
use bullmq_rs.Scripts.{invoke, registered}
use bullmq_rs.Dict.{contains, string_eq}
use bullmq_rs.Redis.{
  Value, Request, script, Env, Io, send, now_ms, read_bool, attempt, lift, printer, ◌>>=◌, pure,
  throw,
}
use bullmq_rs.Redis.Ends.{
  Post, Ends, Ends-pure, Ends-throw, Ends-if, Ends-bind, Ends-lift, Ends-send, Ends-now_ms,
}
use bullmq_rs.Scripts.Added.{arg}

-- The job with its key, the lock token that the script checks, the state in which the job is left, the
-- attempts that are stored, and the flag that asks for the next job.
pub record Departure : Type 0 where
  pub job_id : String
  pub job_key : String
  pub token : String
  pub target : String
  pub attempts : String
  pub next : String

departure_script : String → List String → List String → List Departure
unfolding arg
departure_script name keys args =
    if str_eq name "moveToFinished"
    then record {
      job_id = arg 7 args;
      job_key = arg 12 keys;
      token = arg 0 args;
      target = arg 3 args;
      attempts = arg 8 args;
      next = arg 5 args;
    }
      ∷ []
    else if str_eq name "moveToDelayed"
    then record {
      job_id = arg 2 args;
      job_key = arg 3 keys;
      token = arg 0 args;
      target = "delayed";
      attempts = arg 5 args;
      next = "";
    }
      ∷ []
    else if str_eq name "moveJobFromActiveToWait"
    then record {
      job_id = arg 0 args;
      job_key = arg 2 args;
      token = arg 1 args;
      target = "wait";
      attempts = "";
      next = "";
    }
      ∷ []
    else []

unfoldable pub departure : Request → List Departure
unfolding departure_script
departure (script name keys args) = departure_script name keys args
departure _ = []

-- Newest first, as the log is.
unfoldable pub departures : List Request → List Departure
unfolding departure
departures [] = []
departures (r ∷ log) = departure r ++ departures log

module _ (env : Env) where
  -- Whether the code returns or fails, what was given back by then is `ds`.
  abbrev pub Gave : {A : Type 0} → List Departure → List Request → Io A → Type 0
  Gave ds log m = Ends env log (λ _ l. departures l ≡ ds) (λ _ l. departures l ≡ ds) m

  abbrev pub Quiet : {A : Type 0} → Io A → Type 0
  Quiet m = (ds : List Departure) (log : List Request) → departures log ≡ ds → Gave ds log m

  pub Gave-send :
      (ds : List Departure) (log : List Request) (r : Request)
      → departure r ++ departures log ≡ ds
      → Gave ds log (send r)
  unfolding departures
  Gave-send ds log r h = Ends-send log r (λ _ _. h) (λ _ _. h)

  pub Quiet-send : (r : Request) → departure r ≡ [] → Quiet (send r)
  Quiet-send r q ds log h = Gave-send ds log r (rw q h)

  pub Quiet-pure : {A : Type 0} (a : A) → Quiet (pure a)
  Quiet-pure a ds log h = Ends-pure log a h

  pub Quiet-throw : {A : Type 0} (e : BullmqError) → Quiet (throw {A = A} e)
  Quiet-throw e ds log h = Ends-throw log e h

  pub Quiet-lift : {A : Type 0} (r : Result A) → Quiet (lift r)
  Quiet-lift (ok a) ds log h = Ends-lift log (ok a) h
  Quiet-lift (err e) ds log h = Ends-lift log (err e) h

  pub Quiet-now_ms : Quiet now_ms
  unfolding departures
  Quiet-now_ms ds log h = Ends-now_ms log h

  pub Quiet-read_bool : (v : Value) → Quiet (read_bool v)
  unfolding read_bool lift
  Quiet-read_bool v ds log h = record { at = (Quiet-lift (env.to_bool v) ds log h).at }

  pub Quiet-printer : Quiet printer
  unfolding printer
  Quiet-printer ds log h = record { at = h }

  pub Quiet-if :
      {A : Type 0} (b : Bool) (m n : Io A) → Quiet m → Quiet n → Quiet (if b then m else n)
  Quiet-if b m n hm hn ds log h = Ends-if log b m n (λ _. hm ds log h) (λ _. hn ds log h)

  pub Gave-then :
      {A B : Type 0} (ds : List Departure) (log : List Request) (m : Io A) (f : A → Io B)
      → Gave ds log m
      → ((a : A) → Quiet (f a))
      → Gave ds log (m >>= f)
  Gave-then ds log m f hm hf = Ends-bind log m f hm (λ a l h. hf a ds l h)

  pub Quiet-bind :
      {A B : Type 0} (m : Io A) (f : A → Io B) → Quiet m → ((a : A) → Quiet (f a)) → Quiet (m >>= f)
  Quiet-bind m f hm hf ds log h = Gave-then ds log m f (hm ds log h) hf

  pub Quiet-invoke :
      (name : String) (keys args : List String)
      → departure (script name keys args) ≡ []
      → Quiet (invoke name keys args)
  unfolding invoke
  Quiet-invoke name keys args q = Quiet-if _ _ _ (Quiet-send _ q) (Quiet-throw _)

  pub Gave-invoke :
      (ds : List Departure) (log : List Request) (name : String) (keys args : List String)
      → contains name registered ≡ true
      → departure (script name keys args) ++ departures log ≡ ds
      → Gave ds log (invoke name keys args)
  unfolding invoke
  Gave-invoke ds log name keys args r h =
      Ends-if log (contains name registered) _ _ (λ _. Gave-send ds log _ h) (λ f. absurd cc)

  -- The code returns, and has given back `ds`.
  abbrev pub Returns : {A : Type 0} → List Departure → List Request → Io A → Type 0
  Returns ds log m = Ends env log (λ _ l. departures l ≡ ds) (λ _ _. ⊥) m

  -- Whatever the attempted call answers, its caller goes on.
  pub Returns-attempt :
      {A : Type 0} (ds : List Departure) (log : List Request) (m : Io A)
      → Gave ds log m
      → Returns ds log (attempt m)
  unfolding attempt
  Returns-attempt {A} ds log m h = record { at = go (m env log).0 (m env log).1 h.at }
    where
      go :
          (r : Result A) (log' : List Request)
          → Post (λ _ l. departures l ≡ ds) (λ _ l. departures l ≡ ds) r log'
          → departures log' ≡ ds
      go (ok a) log' q = q
      go (err e) log' q = q
