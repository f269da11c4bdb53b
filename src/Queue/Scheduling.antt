-- ===== src/Queue/Scheduling.antt =====
-- queue.rs: the job schedulers of a queue, and `get_metrics`.
pub mod Listed
pub mod Refused
use bullmq_rs.Prelude.{
  ℕ, ◌+◌, String, Bool, true, false, ◌||◌, ◌&&◌, not, Option, none, some, List, [], ◌∷◌, ◌++◌,
  or_default, ltb, max, if◌then◌else◌,
}
use bullmq_rs.Prelude.Int.{ℤ}
use bullmq_rs.Text.{◌<>◌}
use bullmq_rs.Error.{BullmqError, other, Result, ok, err, ok_or}
use bullmq_rs.Dict.{lookup, string_eq}
use bullmq_rs.Redis.{Value, Io, ◌>>=◌, pure, throw, lift, send, command, now_ms, read_hash}
use bullmq_rs.Types.State.{JobState, wait, delayed, completed, failed, to_text}
use bullmq_rs.Types.Options.{
  Duration, as_millis, from_millis, RepeatOptions, JobOptions, default_options,
}
use bullmq_rs.Types.Worker.{Metrics}
use bullmq_rs.Job.{Job, JobContext, Serde, Codec, new}
use bullmq_rs.Repeat.{Cron, next_pattern_millis, build_iteration_opts}
use bullmq_rs.Queue.States.{same_state}
use bullmq_rs.Scripts.{key, int_to_string}
use bullmq_rs.Scripts.Schedulers.{remove_job_scheduler}
use bullmq_rs.Scripts.Repeats.{
  ParseFloat, AddJobSchedulerResult, add_job_scheduler, read_job_scheduler, read_metrics,
}
use bullmq_rs.Worker.Schedule.{next_count, is_past, only_with}

pub record JobSchedulerTemplate (T : Type 0) : Type 0 where
  pub name : Option String
  pub payload : Option T
  pub opts : Option JobOptions

pub record JobScheduler (J : Type 0) : Type 0 where
  pub id : String
  pub name : String
  pub next : Option ℕ
  pub iteration_count : Option ℕ
  pub limit : Option ℕ
  pub start_date : Option ℕ
  pub end_date : Option ℕ
  pub tz : Option String
  pub pattern : Option String
  pub every : Option ℕ
  pub offset : Option ℕ
  pub template_data : Option J
  pub template_opts : Option JobOptions

-- A member of a JSON object, and what the crates make of such an object and of a float's text.
pub data Scalar : Type 0 where
  text : String → Scalar
  number : ℕ → Scalar

pub record Formats : Type 0 where
  pub object : List (String × Scalar) → Result String
  pub parse_f64 : ParseFloat

abbrev is_some : {A : Type 0} → Option A → Bool
is_some none = false
is_some (some a) = true

unfoldable pub number_member : String → Option ℕ → List (String × Scalar)
number_member field none = []
number_member field (some n) = (field, number n) ∷ []

unfoldable pub text_member : String → Option String → List (String × Scalar)
text_member field none = []
text_member field (some s) = (field, text s) ∷ []

unfoldable pub every_members : Option Duration → Option ℕ → Option ℕ → List (String × Scalar)
unfolding number_member
every_members none limit offset = number_member "limit" limit
every_members (some every) limit offset =
    ("every", number (as_millis every))
    ∷ (number_member "limit" limit ++ number_member "offset" offset)

-- `scheduler_opts_json`: an offset only in 'every' mode.
unfoldable pub scheduler_opts : String → RepeatOptions → List (String × Scalar)
unfolding number_member text_member every_members
scheduler_opts name repeat =
    ("name", text name)
    ∷ (number_member "startDate" repeat.start_date
        ++ number_member "endDate" repeat.end_date
        ++ text_member "tz" repeat.tz
        ++ text_member "pattern" repeat.pattern
        ++ every_members repeat.every repeat.limit repeat.offset)

-- What upsert_job_scheduler refuses before it asks anything.
unfoldable pub refusal : String → RepeatOptions → Option String
unfolding next_count is_past
refusal scheduler_id repeat =
    if is_some repeat.pattern && is_some repeat.every
    then some "Both .pattern and .every options are defined for this repeatable job"
    else if not (is_some repeat.pattern) && not (is_some repeat.every)
    then some "Either .pattern or .every options must be defined for this repeatable job"
    else if repeat.immediately && is_some repeat.start_date
    then some "Both .immediately and .startDate options are defined for this repeatable job"
    else if is_past (next_count repeat.count) repeat.limit
    then some ("Job scheduler " <> scheduler_id <> " reached its iteration limit")
    else none

encoded_or_empty : {T : Type 0} → Codec T → Option T → Result String
encoded_or_empty c none = ok "{}"
encoded_or_empty c (some v) = c.encode v

decoded_or_required : {T : Type 0} → Result T → Result T
decoded_or_required (ok v) = ok v
decoded_or_required (err e) =
    err (other "JobSchedulerTemplate.data is required for this payload type")

payload_of : {T : Type 0} → Codec T → Option T → Result T
payload_of c none = decoded_or_required (c.decode "{}")
payload_of c (some v) = ok v

ok_value : {A : Type 0} → Result A → Option A
ok_value (ok a) = some a
ok_value (err e) = none

and_then : {A B : Type 0} → Option A → (A → Option B) → Option B
and_then none f = none
and_then (some a) f = f a

-- `scheduler_from_hash` with `hash_num`
unfoldable pub scheduler_from_hash :
    {T J : Type 0}
    → Serde T J
    → ParseFloat
    → String
    → List (String × String)
    → Option ℕ
    → JobScheduler J
unfolding and_then ok_value
scheduler_from_hash serde parse_f64 id map next = record {
  id = id;
  name = or_default (lookup "name" map) "";
  next = next;
  iteration_count = and_then (lookup "ic" map) parse_f64;
  limit = and_then (lookup "limit" map) parse_f64;
  start_date = and_then (lookup "startDate" map) parse_f64;
  end_date = and_then (lookup "endDate" map) parse_f64;
  tz = lookup "tz" map;
  pattern = lookup "pattern" map;
  every = and_then (lookup "every" map) parse_f64;
  offset = and_then (lookup "offset" map) parse_f64;
  template_data = and_then (lookup "data" map) (λ s. ok_value (serde.json.decode s));
  template_opts = and_then (lookup "opts" map) (λ s. ok_value (serde.options.decode s));
}

module _ (prefix name : String) where
  unfoldable pub get_metrics : JobState → ℤ → ℤ → Io Metrics
  get_metrics state start stop =
      if same_state state completed || same_state state failed
      then read_metrics prefix name (to_text state) start stop
      else throw
          (other ("get_metrics only supports completed or failed states, got: " <> to_text state))

  unfoldable pub remove_scheduler : String → Io Bool
  remove_scheduler id = remove_job_scheduler prefix name id

  module _ {T J : Type 0} (serde : Serde T J) (formats : Formats) where
    unfoldable pub found_scheduler :
        String → Option (List (String × String) × ℕ) → Option (JobScheduler J)
    found_scheduler id none = none
    found_scheduler id (some ([], next)) = none
    found_scheduler id (some (f ∷ fields, next)) =
        some (scheduler_from_hash serde formats.parse_f64 id (f ∷ fields) (some next))

    unfoldable pub get_job_scheduler : String → Io (Option (JobScheduler J))
    unfolding found_scheduler
    get_job_scheduler id = read_job_scheduler formats.parse_f64 prefix name id >>= λ found.
        pure (found_scheduler id found)

    -- `next_pattern_millis(..)?.ok_or_else(..)?.max(now)`, or 0 for the script to compute.
    unfoldable pub first_millis : Cron → RepeatOptions → Option String → ℕ → Io ℕ
    first_millis cron repeat none now = pure 0
    first_millis cron repeat (some pattern) now =
        next_pattern_millis cron now repeat pattern >>= λ next.
        lift (ok_or next (other ("No next occurrence for cron pattern '" <> pattern <> "'")))
        >>= λ n. pure (max n now)

    -- The first job of the scheduler, as the script answered.
    unfoldable pub iteration_job :
        String → String → T → JobOptions → AddJobSchedulerResult → Io (Job T J)
    iteration_job scheduler_id job_name payload merged result =
        new result.job_id job_name payload (
          some (record merged {
            job_id = some result.job_id;
            delay = some (from_millis result.delay);
          }))
        >>= λ job. pure (record job {
          state = if ltb 0 result.delay then delayed else wait;
          repeat_job_key = some scheduler_id;
          ctx = some (record { prefix = prefix; queue_name = name });
        })

    unfoldable pub upsert_at :
        Cron → String → RepeatOptions → JobSchedulerTemplate T → JobOptions → ℕ → Io (Job T J)
    unfolding first_millis iteration_job encoded_or_empty payload_of decoded_or_required
    upsert_at cron scheduler_id repeat template template_opts now = do
      next_millis ← first_millis cron repeat repeat.pattern now
      template_data ← lift (encoded_or_empty serde.payload template.payload)
      merged ←
          build_iteration_opts template_opts repeat scheduler_id (next_count repeat.count)
            (only_with repeat.pattern next_millis)
      scheduler_json ←
          lift (formats.object (scheduler_opts (or_default template.name scheduler_id) repeat))
      template_json ← lift (serde.options.encode template_opts)
      delayed_json ← lift (serde.options.encode merged)
      timestamp ← now_ms
      result ←
          add_job_scheduler formats.parse_f64 prefix name scheduler_id next_millis scheduler_json
            template_data template_json delayed_json timestamp none
      payload ← lift (payload_of serde.payload template.payload)
      iteration_job scheduler_id (or_default template.name scheduler_id) payload merged result

    upsert_from : Cron → String → RepeatOptions → JobSchedulerTemplate T → ℕ → Io (Job T J)
    upsert_from cron scheduler_id repeat template now =
        if is_past now repeat.end_date
        then throw (other ("Job scheduler " <> scheduler_id <> " is past its end date"))
        else upsert_at cron scheduler_id repeat template (or_default template.opts default_options)
            (max now (or_default (or_default template.opts default_options).prev_millis 0))

    upsert_checked :
        Cron → String → RepeatOptions → JobSchedulerTemplate T → Option String → Io (Job T J)
    upsert_checked cron scheduler_id repeat template (some message) = throw (other message)
    upsert_checked cron scheduler_id repeat template none =
        now_ms >>= λ now. upsert_from cron scheduler_id repeat template now

    unfoldable pub upsert_job_scheduler :
        Cron → String → RepeatOptions → JobSchedulerTemplate T → Io (Job T J)
    unfolding refusal upsert_checked upsert_from upsert_at
    upsert_job_scheduler cron scheduler_id repeat template =
        upsert_checked cron scheduler_id repeat template (refusal scheduler_id repeat)
