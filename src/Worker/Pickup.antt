-- ===== src/Worker/Pickup.antt =====
-- worker.rs: what the main loop makes of a result of moveToActive, up to the job that a task gets.
pub mod Delivered
use bullmq_rs.Prelude.{ℕ, String, Option, none, some, List}
use bullmq_rs.Error.{BullmqError, Result, ok, err}
use bullmq_rs.Types.State.{active}
use bullmq_rs.Job.{Job, JobContext, Serde}
use bullmq_rs.Job.Hash.{from_redis_hash}
use bullmq_rs.Scripts.Active.{MoveToActiveResult}
use bullmq_rs.Worker.Settle.{Config}

-- `throttled` is the time that a limit still holds, and `unreadable` a job that is taken from the set of
-- the renewed ones.
pub data Picked (T J : Type 0) : Type 0 where
  throttled : ℕ → Picked T J
  jobless : Picked T J
  unreadable : String → BullmqError → Picked T J
  started : Job T J → Picked T J

module _ {T J : Type 0} (serde : Serde T J) (config : Config) where
  -- The connection context, the lock token, and the state.
  abbrev pub as_active : Job T J → Job T J
  as_active job = record job {
    ctx = some (record { prefix = config.prefix; queue_name = config.name });
    lock_token = some config.token;
    state = active;
  }

  unfoldable pub of_hash : String → Result (Job T J) → Picked T J
  of_hash job_id (ok job) = started (as_active job)
  of_hash job_id (err e) = unreadable job_id e

  unfoldable pub of_job : Option String → List (String × String) → Picked T J
  unfolding of_hash
  of_job none job_data = jobless
  of_job (some job_id) job_data = of_hash job_id (from_redis_hash serde job_id job_data)

  unfoldable pub of_limit : Option ℕ → Option String → List (String × String) → Picked T J
  unfolding of_job
  of_limit (some ttl) job_id job_data = throttled ttl
  of_limit none job_id job_data = of_job job_id job_data

  unfoldable pub pick_up : MoveToActiveResult → Picked T J
  unfolding of_limit
  pick_up r = of_limit r.rate_limit_ttl r.job_id r.job_data
