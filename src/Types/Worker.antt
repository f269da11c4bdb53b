-- ===== src/Types/Worker.antt =====
-- types.rs: limiter, metrics and worker options, and the stream's default length.
use bullmq_rs.Prelude.{ℕ, Bool, false, Option, none, List}
use bullmq_rs.Prelude.Int.{ℤ}
use bullmq_rs.Types.Options.{Duration, from_secs}

pub record RateLimiterOptions : Type 0 where
  pub max : ℕ
  pub duration : Duration

pub record MetricsOptions : Type 0 where
  pub max_data_points : ℕ

pub record MetricsMeta : Type 0 where
  pub count : ℕ
  pub prev_ts : ℕ
  pub prev_count : ℕ

pub record Metrics : Type 0 where
  pub meta : MetricsMeta
  pub points : List ℤ
  pub count : ℕ

pub record WorkerOptions : Type 0 where
  pub concurrency : ℕ
  pub lock_duration : Duration
  pub stalled_interval : Duration
  pub max_stalled_count : ℕ
  pub skip_stalled_check : Bool
  pub limiter : Option RateLimiterOptions
  pub metrics : Option MetricsOptions

abbrev pub default_worker_options : WorkerOptions
default_worker_options = record {
  concurrency = 1;
  lock_duration = from_secs 30;
  stalled_interval = from_secs 30;
  max_stalled_count = 1;
  skip_stalled_check = false;
  limiter = none;
  metrics = none;
}

abbrev pub default_max_events : ℕ
default_max_events = 10000
