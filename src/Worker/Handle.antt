-- ===== src/Worker/Handle.antt =====
-- worker.rs: the methods of `WorkerHandle`, on what they keep, and the settings of `WorkerBuilder`.
use bullmq_rs.Prelude.{ℕ, max, String, Bool, true, false, not, some, List, [], ◌∷◌, if◌then◌else◌}
use bullmq_rs.Text.{to_string}
use bullmq_rs.Dict.{contains, string_eq}
use bullmq_rs.Redis.{Io, ◌>>◌, pure, send, command}
use bullmq_rs.Types.Options.{Duration, as_millis}
use bullmq_rs.Types.Worker.{
  WorkerOptions, RateLimiterOptions, MetricsOptions, default_worker_options,
}
use bullmq_rs.Queue.Control.{max_safe_integer}
use bullmq_rs.Scripts.{key}
use bullmq_rs.Worker.Machine.{set_remove}

pub data HandleEvent : Type 0 where
  paused_event resumed_event : HandleEvent
  cancelled_event : String → HandleEvent

-- The two watch channels, the jobs with a cancellation token, and the events that were sent, the
-- newest first.
pub record Handle : Type 0 where
  pub paused : Bool
  pub stopping : Bool
  pub cancellations : List String
  pub events : List HandleEvent

-- `pause(true)`, and what `pause(false)` does before it waits.
unfoldable pub pause_worker : Handle → Handle
pause_worker h = record h {
  paused = true;
  events = if h.paused then h.events else paused_event ∷ h.events;
}

unfoldable pub resume_worker : Handle → Handle
resume_worker h = record h {
  paused = false;
  events = if h.paused then resumed_event ∷ h.events else h.events;
}

-- `is_running`, with whether the main task is finished
unfoldable pub is_running : Handle → Bool → Bool
is_running h finished = if h.stopping then false else not finished

unfoldable pub cancel_job : String → Handle → Bool × Handle
cancel_job job_id h =
    if contains job_id h.cancellations
    then (
      true,
      record h {
        cancellations = set_remove job_id h.cancellations;
        events = cancelled_event job_id ∷ h.events;
      },
    )
    else (false, h)

unfoldable pub shutdown_worker : Handle → Handle
shutdown_worker h = record h { stopping = true }

-- `limiter_key` is the queue's.
unfoldable pub rate_limit_worker : (prefix name : String) → Duration → Io (Unit {0})
rate_limit_worker prefix name duration = do
  send (
      command (
        "SET"
        ∷ key prefix name "limiter"
        ∷ to_string max_safe_integer
        ∷ "PX"
        ∷ to_string (as_millis duration)
        ∷ []))
  pure tt

-- The callbacks are left out.
pub record WorkerBuilder : Type 0 where
  pub name : String
  pub prefix : String
  pub options : WorkerOptions

abbrev pub new_worker : String → WorkerBuilder
new_worker name = record { name = name; prefix = "bull"; options = default_worker_options }

abbrev pub with_prefix : String → WorkerBuilder → WorkerBuilder
with_prefix prefix b = record b { prefix = prefix }

-- At least one job at a time.
abbrev pub with_concurrency : ℕ → WorkerBuilder → WorkerBuilder
with_concurrency n b = record b { options = record (b.options) { concurrency = max n 1 } }

abbrev pub with_lock_duration : Duration → WorkerBuilder → WorkerBuilder
with_lock_duration d b = record b { options = record (b.options) { lock_duration = d } }

abbrev pub with_stalled_interval : Duration → WorkerBuilder → WorkerBuilder
with_stalled_interval d b = record b { options = record (b.options) { stalled_interval = d } }

abbrev pub with_max_stalled_count : ℕ → WorkerBuilder → WorkerBuilder
with_max_stalled_count n b = record b { options = record (b.options) { max_stalled_count = n } }

abbrev pub with_skip_stalled_check : Bool → WorkerBuilder → WorkerBuilder
with_skip_stalled_check skip b = record b {
  options = record (b.options) { skip_stalled_check = skip };
}

abbrev pub with_limiter : RateLimiterOptions → WorkerBuilder → WorkerBuilder
with_limiter l b = record b { options = record (b.options) { limiter = some l } }

abbrev pub with_metrics : MetricsOptions → WorkerBuilder → WorkerBuilder
with_metrics m b = record b { options = record (b.options) { metrics = some m } }
