-- ===== src/Job.antt =====
-- job.rs: the job record, its creation, and (below) its Redis hash and its active-handle methods.
pub mod Hash
pub mod Active
pub mod Waiting
use bullmq_rs.Prelude.{ℕ, String, List, [], Option, none, some, or_default}
use bullmq_rs.Error.{Result}
use bullmq_rs.Types.State.{JobState, wait}
use bullmq_rs.Types.Options.{JobOptions, default_options, as_millis}
use bullmq_rs.Redis.{Io, ◌>>=◌, pure, now_ms}

-- What `serde_json` does with one type: `to_string` and `from_str`.
pub record Codec (A : Type 0) : Type 0 where
  pub encode : A → Result String
  pub decode : String → Result A

-- The types that the source serialises: a job's payload `T`, `serde_json::Value` as `J`, and its own.
pub record Serde (T J : Type 0) : Type 0 where
  pub payload : Codec T
  pub json : Codec J
  pub options : Codec JobOptions
  pub texts : Codec (List String)
  pub text : Codec String

pub record JobContext : Type 0 where
  pub prefix : String
  pub queue_name : String

pub record Job (T J : Type 0) : Type 0 where
  pub id : String
  pub name : String
  pub payload : T
  pub state : JobState
  pub opts : JobOptions
  pub timestamp : ℕ
  pub priority : ℕ
  pub delay : ℕ
  pub attempts_made : ℕ
  pub attempts_started : ℕ
  pub progress : Option J
  pub processed_on : Option ℕ
  pub finished_on : Option ℕ
  pub failed_reason : Option String
  pub stacktrace : List String
  pub return_value : Option J
  pub processed_by : Option String
  pub repeat_job_key : Option String
  pub ctx : Option JobContext
  pub lock_token : Option String

abbrev pub option_millis : Option ℕ → ℕ
option_millis none = 0
option_millis (some d) = as_millis d

module _ {T J : Type 0} where
  -- `Job::new` at the time that the clock shows.
  unfoldable pub new_at : String → String → T → Option JobOptions → ℕ → Job T J
  new_at id name data_ opts now =
      let o = or_default opts default_options in
      record {
        id = id;
        name = name;
        payload = data_;
        state = wait;
        opts = o;
        timestamp = now;
        priority = or_default o.priority 0;
        delay = option_millis o.delay;
        attempts_made = 0;
        attempts_started = 0;
        progress = none;
        processed_on = none;
        finished_on = none;
        failed_reason = none;
        stacktrace = [];
        return_value = none;
        processed_by = none;
        repeat_job_key = none;
        ctx = none;
        lock_token = none;
      }

  unfoldable pub new : String → String → T → Option JobOptions → Io (Job T J)
  unfolding new_at
  new id name data_ opts = now_ms >>= λ now. pure (new_at id name data_ opts now)
