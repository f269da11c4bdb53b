-- ===== src/Worker/Schedule.antt =====
-- worker.rs, `schedule_next_repeatable_job`: after a scheduler's job ends, its next iteration.
pub mod Quietness
use bullmq_rs.Prelude.{
  ℕ, ◌+◌, ◌%◌, ◌^◌, String, Bool, false, Option, none, some, [], ◌∷◌, or_default, ltb, max,
  if◌then◌else◌,
}
use bullmq_rs.Text.{◌<>◌}
use bullmq_rs.Redis.{command, Io, ◌>>=◌, ◌>>◌, pure, lift, send, now_ms, read_bool}
use bullmq_rs.Types.Options.{RepeatOptions, Duration}
use bullmq_rs.Job.{Job, Serde}
use bullmq_rs.Repeat.{Cron, next_pattern_millis, build_iteration_opts}
use bullmq_rs.Scripts.Schedulers.{update_job_scheduler}

-- `count.map(|c| c + 1).unwrap_or(1)`
unfoldable pub next_count : Option ℕ → ℕ
next_count none = 1
next_count (some c) = (c + 1) % 2 ^ 64

-- `if let Some(limit) = limit { count > limit }`
unfoldable pub is_past : ℕ → Option ℕ → Bool
is_past n none = false
is_past n (some limit) = ltb limit n

abbrev pub max_some : Option ℕ → ℕ → Option ℕ
max_some none now = none
max_some (some next) now = some (max next now)

-- `none` where no iteration follows; in 'every' mode the script computes the time, and 0 is passed.
unfoldable pub next_millis :
    Cron → RepeatOptions → Option String → Option Duration → ℕ → Io (Option ℕ)
next_millis cron repeat (some pattern) every now =
    next_pattern_millis cron now repeat pattern >>= λ next. pure (max_some next now)
next_millis cron repeat none (some every) now = pure (some 0)
next_millis cron repeat none none now = pure none

abbrev pub only_with : Option String → ℕ → Option ℕ
only_with none next = none
only_with (some pattern) next = some next

module _ {T J : Type 0} (serde : Serde T J) (cron : Cron) (prefix queue_name : String)
    (job : Job T J) where
  store_next : String → RepeatOptions → Option ℕ → Io (Unit {0})
  store_next scheduler_id repeat none = pure tt
  store_next scheduler_id repeat (some next) = do
    merged ←
        build_iteration_opts job.opts repeat scheduler_id (next_count repeat.count)
          (only_with repeat.pattern next)
    template_data ← lift (serde.payload.encode job.payload)
    delayed_opts ← lift (serde.options.encode merged)
    timestamp ← now_ms
    update_job_scheduler prefix queue_name scheduler_id next template_data delayed_opts timestamp
          job.id
        >> pure tt

  schedule_from : String → RepeatOptions → ℕ → Io (Unit {0})
  unfolding store_next next_millis
  schedule_from scheduler_id repeat clock_now =
      if is_past clock_now repeat.end_date
      then pure tt
      else (let now = max clock_now (or_default job.opts.prev_millis 0) in
          next_millis cron repeat repeat.pattern repeat.every now >>= λ next.
          store_next scheduler_id repeat next)

  schedule_repeat : String → Option RepeatOptions → Io (Unit {0})
  unfolding schedule_from next_count is_past
  schedule_repeat scheduler_id none = pure tt
  schedule_repeat scheduler_id (some repeat) =
      if is_past (next_count repeat.count) repeat.limit
      then pure tt
      else now_ms >>= λ now. schedule_from scheduler_id repeat now

  schedule_scheduler : Option String → Io (Unit {0})
  unfolding schedule_repeat
  schedule_scheduler none = pure tt
  schedule_scheduler (some scheduler_id) = do
    reply ← send (
        command
          ("HEXISTS" ∷ (prefix <> ":" <> queue_name <> ":repeat:" <> scheduler_id) ∷ "ic" ∷ []))
    is_scheduler ← read_bool reply
    if is_scheduler then schedule_repeat scheduler_id job.opts.repeat else pure tt

  unfoldable pub schedule_next_repeatable_job : Io (Unit {0})
  unfolding schedule_scheduler
  schedule_next_repeatable_job = schedule_scheduler job.repeat_job_key
