-- ===== src/Types/Options.antt =====
-- types.rs: durations, deduplication, backoff, repeat and job options, with their builders.
use bullmq_rs.Prelude.{ℕ, ◌*◌, ◌/◌, ◌%◌, ◌^◌, String, Bool, false, Option, none}

-- `std::time::Duration`, as its number of nanoseconds.
abbrev pub Duration : Type 0
Duration = ℕ

-- `d.as_millis() as u64`
abbrev pub as_millis : Duration → ℕ
as_millis d = d / 1000000 % 2 ^ 64

abbrev pub from_millis : ℕ → Duration
from_millis ms = ms * 1000000

abbrev pub from_secs : ℕ → Duration
from_secs s = s * 1000000000

pub record DeduplicationOptions : Type 0 where
  pub id : String
  pub ttl : Option Duration

pub data BackoffStrategy : Type 0 where
  fixed : Duration → BackoffStrategy
  exponential : Duration → Duration → BackoffStrategy  -- base, max

pub record RepeatOptions : Type 0 where
  pub pattern : Option String
  pub every : Option Duration
  pub limit : Option ℕ
  pub start_date : Option ℕ
  pub end_date : Option ℕ
  pub tz : Option String
  pub immediately : Bool
  pub offset : Option ℕ
  pub count : Option ℕ

pub record JobOptions : Type 0 where
  pub priority : Option ℕ
  pub delay : Option Duration
  pub attempts : Option ℕ
  pub backoff : Option BackoffStrategy
  pub ttl : Option Duration
  pub job_id : Option String
  pub deduplication : Option DeduplicationOptions
  pub repeat : Option RepeatOptions
  pub prev_millis : Option ℕ
  pub repeat_job_key : Option String
  pub timestamp : Option ℕ

-- `#[derive(Default)]`
abbrev pub default_repeat : RepeatOptions
default_repeat = record {
  pattern = none;
  every = none;
  limit = none;
  start_date = none;
  end_date = none;
  tz = none;
  immediately = false;
  offset = none;
  count = none;
}

abbrev pub default_options : JobOptions
default_options = record {
  priority = none;
  delay = none;
  attempts = none;
  backoff = none;
  ttl = none;
  job_id = none;
  deduplication = none;
  repeat = none;
  prev_millis = none;
  repeat_job_key = none;
  timestamp = none;
}
