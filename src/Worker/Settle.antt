-- ===== src/Worker/Settle.antt =====
-- worker.rs: what a job's task does once its handler has returned.
pub mod Outcomes
use bullmq_rs.Prelude.{
  ℕ, ◌+◌, ◌%◌, ◌^◌, String, Bool, true, false, not, Option, none, some, List, [], ◌∷◌, or_default,
  ltb, if◌then◌else◌,
}
use bullmq_rs.Error.{BullmqError, rate_limited, display, Result, ok, err}
use bullmq_rs.Redis.{Io, ◌>>=◌, ◌>>◌, pure, now_ms, attempt}
use bullmq_rs.Types.Options.{BackoffStrategy, Duration, as_millis, from_secs}
use bullmq_rs.Types.Backoff.{delay_for_attempt}
use bullmq_rs.Types.Worker.{RateLimiterOptions, default_max_events}
use bullmq_rs.Job.{Job, Serde}
use bullmq_rs.Repeat.{Cron}
use bullmq_rs.Scripts.Active.{MoveToActiveResult}
use bullmq_rs.Scripts.Finish.{
  MoveToFinishedResult, done, next_job, move_to_finished, move_to_delayed,
  move_job_from_active_to_wait,
}
use bullmq_rs.Worker.Schedule.{schedule_next_repeatable_job}

-- What the worker's loop fixes for its tasks. `announces` says that a callback or a receiver is there and
-- that `convert_job_to_value` succeeds.
pub record Config : Type 0 where
  pub prefix : String
  pub name : String
  pub token : String
  pub lock_duration_ms : ℕ
  pub limiter : Option RateLimiterOptions
  pub max_metrics_size : Option ℕ
  pub announces : Bool

-- The handler's outcome: `cancelled` is `None`, after the grace period; a handler's error is a
-- `BullmqError` or any other, known by its text.
pub data HandlerError : Type 0 where
  bullmq : BullmqError → HandlerError
  foreign : String → HandlerError

pub data Outcome : Type 0 where
  cancelled finished : Outcome
  failed_with : HandlerError → Outcome

unfoldable pub error_text : HandlerError → String
error_text (bullmq e) = display e
error_text (foreign e) = e

-- `downcast_ref::<BullmqError>()`, then `matches!(e, RateLimited)`
unfoldable pub is_rate_limited : HandlerError → Bool
is_rate_limited (bullmq rate_limited) = true
is_rate_limited (bullmq e) = false
is_rate_limited (foreign e) = false

pub data TaskEvent : Type 0 where
  completed_event : TaskEvent
  failed_event : String → TaskEvent

-- What the task hands to the rest of the worker: a prefetched job, events, and a new `limit_until`.
pub record Settled : Type 0 where
  pub next : Option MoveToActiveResult
  pub events : List TaskEvent
  pub limit_until : Option ℕ

-- Only a reply that holds a job is handed on; errors are logged.
unfoldable pub prefetched_job : Result MoveToFinishedResult → Option MoveToActiveResult
prefetched_job (err e) = none
prefetched_job (ok done) = none
prefetched_job (ok (next_job r)) = elim r.job_id [ none ↦ none | some id ↦ some r ]

unfoldable pub retry_delay : Option BackoffStrategy → ℕ → Duration
retry_delay none attempt = from_secs 1
retry_delay (some b) attempt = delay_for_attempt b attempt

-- `job.attempts_made + 1` on 32 bits, wrapping as in a release build.
abbrev pub counted_attempts : {T J : Type 0} → Job T J → ℕ
counted_attempts job = (job.attempts_made + 1) % 2 ^ 32

module _ {T J : Type 0} (serde : Serde T J) (cron : Cron) (config : Config) (job : Job T J) where
  -- `if job.repeat_job_key.is_some()`: its errors are logged only.
  unfoldable pub repeat_if_scheduled : Io (Result (Unit {0}))
  repeat_if_scheduled =
      attempt (schedule_next_repeatable_job serde cron config.prefix config.name job)

  -- `Some(Ok(()))`
  unfoldable pub settle_finished : Bool → Io Settled
  unfolding prefetched_job repeat_if_scheduled
  settle_finished paused = do
    timestamp ← now_ms
    result ← attempt (
        move_to_finished config.prefix config.name job.id config.token timestamp "{}" "completed"
          default_max_events (not paused) config.lock_duration_ms (counted_attempts job)
          config.limiter config.max_metrics_size)
    repeat_if_scheduled
    pure (record {
      next = prefetched_job result;
      events = if config.announces then completed_event ∷ [] else [];
      limit_until = none;
    })

  unfoldable pub limit_after : Result ℕ → Io (Option ℕ)
  limit_after (err e) = pure none
  limit_after (ok ttl) =
      if ltb 0 ttl then (now_ms >>= λ now. pure (some (now + ttl))) else pure none

  -- `Some(Err(RateLimited))`
  unfoldable pub settle_rate_limited : Io Settled
  unfolding limit_after
  settle_rate_limited = do
    result ← attempt (move_job_from_active_to_wait config.prefix config.name job.id config.token)
    limit ← limit_after result
    pure (record { next = none; events = []; limit_until = limit })

  abbrev failed_settled : HandlerError → Settled
  failed_settled e = record {
    next = none;
    events = if config.announces then failed_event (error_text e) ∷ [] else [];
    limit_until = none;
  }

  -- Attempts remain: back to delayed.
  unfoldable pub settle_retry : HandlerError → Io Settled
  unfolding retry_delay
  settle_retry e = do
    timestamp ← now_ms
    attempt (
        move_to_delayed config.prefix config.name job.id config.token timestamp
          (timestamp + as_millis (retry_delay job.opts.backoff job.attempts_made))
          default_max_events (counted_attempts job))
    pure (failed_settled e)

  -- No attempt remains.
  unfoldable pub settle_failed : HandlerError → Io Settled
  unfolding repeat_if_scheduled
  settle_failed e = do
    timestamp ← now_ms
    attempt (
        move_to_finished config.prefix config.name job.id config.token timestamp (error_text e)
          "failed" default_max_events false config.lock_duration_ms (counted_attempts job)
          config.limiter config.max_metrics_size)
    repeat_if_scheduled
    pure (failed_settled e)

  unfoldable pub settle : Bool → Outcome → Io Settled
  settle paused cancelled = pure (record { next = none; events = []; limit_until = none })
  settle paused finished = settle_finished paused
  settle paused (failed_with e) =
      if is_rate_limited e
      then settle_rate_limited
      else if ltb (counted_attempts job) (or_default job.opts.attempts 1)
      then settle_retry e
      else settle_failed e
