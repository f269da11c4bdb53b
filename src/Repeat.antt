-- ===== src/Repeat.antt =====
-- repeat.rs: the next iteration of a job scheduler. The cron parser, the time zones and the calendar are
-- libraries: they are the parameter `Cron`.
use bullmq_rs.Prelude.{
  ℕ, ◌-◌, String, Bool, false, Option, none, some, max, or_default, ltb, if◌then◌else◌,
}
use bullmq_rs.Text.{◌<>◌, to_string}
use bullmq_rs.Error.{other, Result, ok, err}
use bullmq_rs.Redis.{Io, ◌>>=◌, pure, lift, now_ms}
use bullmq_rs.Types.Options.{RepeatOptions, JobOptions, from_millis}

-- `parse_error` is the error of `Cron::parse`, if any; `known_zone` says whether a time zone's name
-- parses; `is_instant` whether a number of milliseconds is one instant of the zone (the local one for
-- `none`); `next_occurrence` is `find_next_occurrence(.., false).ok()`, in milliseconds.
pub record Cron : Type 0 where
  pub parse_error : String → Option String
  pub known_zone : String → Bool
  pub is_instant : Option String → ℕ → Bool
  pub next_occurrence : Option String → String → ℕ → Option ℕ

module _ (cron : Cron) where
  occurrence_at : Option String → String → ℕ → Result (Option ℕ)
  occurrence_at region pattern current =
      if cron.is_instant region current
      then ok (cron.next_occurrence region pattern current)
      else err (other "Invalid current timestamp")

  occurrence : Option String → String → ℕ → Result (Option ℕ)
  unfolding occurrence_at
  occurrence none pattern current = occurrence_at none pattern current
  occurrence (some tz) pattern current =
      if cron.known_zone tz
      then occurrence_at (some tz) pattern current
      else err (other ("Invalid timezone: " <> tz))

  parsed_occurrence : Option String → Option String → String → ℕ → Result (Option ℕ)
  unfolding occurrence
  parsed_occurrence (some e) region pattern current =
      err (other ("Invalid cron pattern '" <> pattern <> "': " <> e))
  parsed_occurrence none region pattern current = occurrence region pattern current

  -- `(Some(n), Some(end)) if n > end => None`
  unfoldable pub before_end : Option ℕ → Option ℕ → Option ℕ
  before_end (some n) (some end) = if ltb end n then none else some n
  before_end (some n) none = some n
  before_end none end = none

  unfoldable pub next_pattern_millis : ℕ → RepeatOptions → String → Io (Option ℕ)
  unfolding parsed_occurrence before_end
  next_pattern_millis millis opts pattern =
      if opts.immediately then (now_ms >>= λ now. pure (some now)) else (do
        next ← lift (
            parsed_occurrence (cron.parse_error pattern) opts.tz pattern
              (max millis (or_default opts.start_date 0)))
        pure (before_end next opts.end_date))

kept_offset : Option ℕ → Option ℕ → Option ℕ
kept_offset none offset = none
kept_offset (some every) offset = offset

unfoldable pub next_repeat : RepeatOptions → ℕ → RepeatOptions
unfolding kept_offset
next_repeat repeat iteration_count = record repeat {
  immediately = false;
  count = some iteration_count;
  offset = kept_offset repeat.every repeat.offset;
}

-- The fields that only a cron iteration sets.
iteration_at : JobOptions → String → ℕ → Option ℕ → JobOptions
iteration_at merged scheduler_id now none = record merged {
  job_id = none;
  prev_millis = none;
  delay = none;
}
iteration_at merged scheduler_id now (some next) = record merged {
  job_id = some ("repeat:" <> scheduler_id <> ":" <> to_string next);
  prev_millis = some next;
  delay = some (from_millis (next - now));
}

unfoldable pub iteration_opts_at :
    JobOptions → RepeatOptions → String → ℕ → Option ℕ → ℕ → JobOptions
unfolding next_repeat iteration_at
iteration_opts_at base_opts repeat_opts scheduler_id iteration_count pattern_next_millis now =
    iteration_at
      (record base_opts {
        repeat = some (next_repeat repeat_opts iteration_count);
        repeat_job_key = some scheduler_id;
        timestamp = some now;
      })
      scheduler_id now pattern_next_millis

unfoldable pub build_iteration_opts :
    JobOptions → RepeatOptions → String → ℕ → Option ℕ → Io JobOptions
unfolding iteration_opts_at
build_iteration_opts base_opts repeat_opts scheduler_id iteration_count pattern_next_millis =
    now_ms >>= λ now.
    pure
      (iteration_opts_at base_opts repeat_opts scheduler_id iteration_count pattern_next_millis now)
