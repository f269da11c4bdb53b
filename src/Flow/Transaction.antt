-- ===== src/Flow/Transaction.antt =====
-- The transaction that creates a flow: what Redis holds open after each request, and when the flow's
-- jobs are written.
use bullmq_rs.Prelude.{
  ◌≡◌, refl, ap, ◌∙◌, String, Bool, true, false, ◌||◌, List, [], ◌∷◌, subst, if◌then◌else◌,
}
use bullmq_rs.Text.{str_eq}
use bullmq_rs.Error.{BullmqError, Result, ok, err}
use bullmq_rs.Redis.{
  read_bool, read_int, printer, Value, Request, command, script, clock, Env, Io, send, now_ms, lift,
  ◌>>=◌, pure, throw,
}
use bullmq_rs.Scripts.{invoke}
use bullmq_rs.Redis.Ends.{
  Ends, Ends-pure, Ends-throw, Ends-if, Ends-bind, Ends-lift, Ends-send, Ends-now_ms,
}

pub data TxState : Type 0 where
  idle watching queued : TxState

after_command : String → TxState → TxState
after_command name s =
    if str_eq name "WATCH"
    then watching
    else if str_eq name "MULTI"
    then queued
    else if str_eq name "UNWATCH" || str_eq name "EXEC" || str_eq name "DISCARD"
    then idle
    else s

unfoldable pub after_request : Request → TxState → TxState
unfolding after_command
after_request (command (name ∷ args)) s = after_command name s
after_request _ s = s

-- What the connection holds open after the requests of the log.
unfoldable pub tx_state : List Request → TxState
unfolding after_request
tx_state [] = idle
tx_state (r ∷ log) = after_request r (tx_state log)

-- The requests that write a job: the scripts, and `SADD` on a parent's set of dependencies.
unfoldable pub is_write : Request → Bool
is_write (script name keys args) = true
is_write (command (name ∷ args)) = str_eq name "SADD"
is_write _ = false

-- Every write was made inside a transaction.
abbrev pub IsGuarded : List Request → Type 0
IsGuarded [] = Unit
IsGuarded (r ∷ log) = (is_write r ≡ true → tx_state log ≡ queued) × IsGuarded log

pub record Tx (s : TxState) (log : List Request) : Type 0 where
  pub guarded : IsGuarded log
  pub state : tx_state log ≡ s

-- The state after a request that was sent in state `s`.
pub Tx-request :
    (s : TxState) (r : Request) (log : List Request)
    → (is_write r ≡ true → s ≡ queued)
    → Tx s log
    → Tx (after_request r s) (r ∷ log)
unfolding tx_state
Tx-request s r log guard h = record {
  guarded = ((λ w. h.state ∙ guard w), h.guarded);
  state = ap (after_request r) h.state;
}

module _ (env : Env) where
  -- Code that keeps the state `s`, whether it returns or fails.
  abbrev pub Stays : {A : Type 0} → TxState → Io A → Type 0
  Stays s m =
      (log : List Request) → Tx s log → Ends env log (λ _ log'. Tx s log') (λ _ log'. Tx s log') m

  pub Stays-send :
      (s : TxState) (r : Request)
      → (is_write r ≡ true → s ≡ queued)
      → after_request r s ≡ s
      → Stays s (send r)
  Stays-send s r guard step log h =
      let after : Tx s (r ∷ log) = subst (λ t. Tx t (r ∷ log)) step (Tx-request s r log guard h) in
      Ends-send log r (λ v _. after) (λ e _. after)

  pub Stays-pure : {A : Type 0} (s : TxState) (a : A) → Stays s (pure a)
  Stays-pure s a log h = Ends-pure log a h

  pub Stays-throw : {A : Type 0} (s : TxState) (e : BullmqError) → Stays s (throw {A = A} e)
  Stays-throw s e log h = Ends-throw log e h

  pub Stays-lift : {A : Type 0} (s : TxState) (r : Result A) → Stays s (lift r)
  Stays-lift s (ok a) log h = Ends-lift log (ok a) h
  Stays-lift s (err e) log h = Ends-lift log (err e) h

  pub Stays-now_ms : (s : TxState) → Stays s now_ms
  unfolding tx_state is_write
  Stays-now_ms s log h = Ends-now_ms log (Tx-request s clock log (λ w. cc) h)

  pub Stays-if :
      {A : Type 0} (s : TxState) (b : Bool) (m n : Io A)
      → Stays s m
      → Stays s n
      → Stays s (if b then m else n)
  Stays-if s b m n hm hn log h = Ends-if log b m n (λ _. hm log h) (λ _. hn log h)

  pub Stays-bind :
      {A B : Type 0} (s : TxState) (m : Io A) (f : A → Io B)
      → Stays s m
      → ((a : A) → Stays s (f a))
      → Stays s (m >>= f)
  Stays-bind s m f hm hf log h = Ends-bind log m f (hm log h) (λ a log' h'. hf a log' h')

  -- A script is a write, and leaves the transaction as it is.
  pub Stays-invoke :
      (s : TxState) (name : String) (keys args : List String)
      → s ≡ queued
      → Stays s (invoke name keys args)
  unfolding invoke after_request
  Stays-invoke s name keys args q =
      Stays-if s _ _ _ (Stays-send s _ (λ _. q) refl) (Stays-throw s _)

  pub Stays-read_bool : (s : TxState) (v : Value) → Stays s (read_bool v)
  unfolding read_bool lift
  Stays-read_bool s v log h = record { at = (Stays-lift s (env.to_bool v) log h).at }

  pub Stays-read_int : (s : TxState) (v : Value) → Stays s (read_int v)
  unfolding read_int lift
  Stays-read_int s v log h = record { at = (Stays-lift s (env.to_int v) log h).at }

  pub Stays-printer : (s : TxState) → Stays s printer
  unfolding printer
  Stays-printer s log h = record { at = h }
