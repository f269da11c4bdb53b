-- ===== src/Redis.antt =====
-- The redis client as the source calls it. The server is not part of the repository, so `Env` takes
-- its answers as a parameter: any function of all requests that were sent before. Other clients of the
-- same server are covered, since nothing relates two answers unless a theorem assumes it.
pub mod Ends
use bullmq_rs.Prelude.{ℕ, String, Bool, List, [], ◌∷◌, Option}
use bullmq_rs.Prelude.Int.{ℤ}
use bullmq_rs.Error.{BullmqError, redis, Result, ok, err}

-- `redis::Value`. A bulk string stands by what `String::from_utf8_lossy` makes of it, the only way in
-- which the source reads one; `opaque` stands for the variants that the source never names.
mutual
  pub data Value : Type 0 where
    nil : Value
    int : ℤ → Value
    bulk simple server_error opaque : String → Value
    array : Values → Value

  pub data Values : Type 0 where
    end : Values
    item : Value → Values → Values

unfoldable pub to_list : Values → List Value
to_list end = []
to_list (item v vs) = v ∷ to_list vs

-- `redis::cmd(..)` with its arguments, a script with its keys and arguments, the loading of a script,
-- the opening of a connection, and a look at the clock.
pub data Request : Type 0 where
  command : List String → Request
  load_script connect : String → Request
  script : String → List String → List String → Request
  clock : Request

pub data Reply : Type 0 where
  value : Value → Reply
  failure : String → Reply

-- `answer` and `now_ms` take the requests sent so far, newest first. The other fields are the client
-- library's conversions out of a `Value` and its `Debug` printing; of an `Option<f64>` the source only
-- asks whether there is one.
pub record Env : Type 0 where
  pub answer : List Request → Request → Reply
  pub now_ms : List Request → ℕ
  pub to_int : Value → Result ℤ
  pub to_bool : Value → Result Bool
  pub to_u64 : Value → Result ℕ
  pub to_score : Value → Result Bool
  pub to_text : Value → Result String
  pub to_texts : Value → Result (List String)
  pub to_text_option : Value → Result (Option String)
  pub to_hash : Value → Result (List (String × String))
  pub debug : Value → String

-- What an `async fn` does: it sends requests one after the other, and ends with a `BullmqResult`.
abbrev pub Io : Type 0 → Type 0
Io A = Env → List Request → Result A × List Request

unfoldable pub pure : {A : Type 0} → A → Io A
pure a env log = (ok a, log)

unfoldable pub throw : {A : Type 0} → BullmqError → Io A
throw e env log = (err e, log)

-- A result that needs no request.
unfoldable pub lift : {A : Type 0} → Result A → Io A
lift r env log = (r, log)

-- `{:?}` of a reply.
unfoldable pub printer : Io (Value → String)
printer env log = (ok env.debug, log)

continue : {A B : Type 0} → Result A → (A → Io B) → Io B
continue (ok a) f env log = f a env log
continue (err e) f env log = (err e, log)

infixl 5 ◌>>=◌ ◌>>◌
-- `.await?`; opening this opens `pure`, `throw`, `lift` and `printer` too.
unfoldable pub ◌>>=◌ : {A B : Type 0} → Io A → (A → Io B) → Io B
unfolding continue pure throw lift printer
◌>>=◌ m f env log = let (r, log') = m env log in continue r f env log'

abbrev pub ◌>>◌ : {A B : Type 0} → Io A → Io B → Io B
m >> k = m >>= λ _. k

unfoldable pub received : Reply → Result Value
received (value v) = ok v
received (failure e) = err (redis e)

unfoldable pub send : Request → Io Value
unfolding received
send r env log = (received (env.answer log r), r ∷ log)

unfoldable pub now_ms : Io ℕ
now_ms env log = (ok (env.now_ms log), clock ∷ log)

-- `query_async` with a type to read.
unfoldable pub read_bool : Value → Io Bool
read_bool v env log = (env.to_bool v, log)

unfoldable pub read_int : Value → Io ℤ
read_int v env log = (env.to_int v, log)

unfoldable pub read_u64 : Value → Io ℕ
read_u64 v env log = (env.to_u64 v, log)

unfoldable pub read_score : Value → Io Bool
read_score v env log = (env.to_score v, log)

unfoldable pub read_text : Value → Io String
read_text v env log = (env.to_text v, log)

unfoldable pub read_texts : Value → Io (List String)
read_texts v env log = (env.to_texts v, log)

unfoldable pub read_text_option : Value → Io (Option String)
read_text_option v env log = (env.to_text_option v, log)

unfoldable pub read_hash : Value → Io (List (String × String))
read_hash v env log = (env.to_hash v, log)

-- `if let Err(err) = result { let _ = cmd.await; return Err(err) }`
cleaned : {A : Type 0} → Result A → Request → Io A
cleaned (ok a) r env log = (ok a, log)
cleaned (err e) r env log = (err e, r ∷ log)

unfoldable pub or_cleaned : {A : Type 0} → Io A → Request → Io A
unfolding cleaned
or_cleaned m r env log = let (x, log') = m env log in cleaned x r env log'

-- `match call.await { Ok(..) => .., Err(..) => .. }`
unfoldable pub attempt : {A : Type 0} → Io A → Io (Result A)
attempt m env log = let (r, log') = m env log in (ok r, log')
