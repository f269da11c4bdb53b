-- ===== src/Error.antt =====
-- error.rs: the error type, its printing, and `BullmqResult` with its `?` operator.
use bullmq_rs.Prelude.{String, Option, none, some}
use bullmq_rs.Text.{◌<>◌}

-- A `redis::RedisError` and a `serde_json::Error` stand by the text that their `Display` prints.
pub data BullmqError : Type 0 where
  redis serialization job_not_found : String → BullmqError
  worker_closed lock_mismatch queue_paused : BullmqError
  script_error : String → BullmqError
  rate_limited : BullmqError
  other not_implemented : String → BullmqError

unfoldable pub display : BullmqError → String
display (redis e) = "Redis error: " <> e
display (serialization e) = "Serialization error: " <> e
display (job_not_found id) = "Job not found: " <> id
display worker_closed = "Worker has been shut down"
display lock_mismatch = "Lock token mismatch: job was stalled and recovered"
display queue_paused = "Queue is paused"
display (script_error msg) = "Script error: " <> msg
display rate_limited = "bullmq:rateLimitExceeded"
display (other msg) = msg
display (not_implemented msg) = "Not implemented: " <> msg

pub data Result {ℓ} (A : Type ℓ) : Type ℓ where
  ok : A → Result A
  err : BullmqError → Result A

infixl 5 ◌>>=◌
unfoldable pub ◌>>=◌ {ℓ κ} : {A : Type ℓ} {B : Type κ} → Result A → (A → Result B) → Result B
ok a >>= f = f a
err e >>= f = err e

-- `Option::ok_or`
abbrev pub ok_or {ℓ} : {A : Type ℓ} → Option A → BullmqError → Result A
ok_or none e = err e
ok_or (some a) e = ok a
