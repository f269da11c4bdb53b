-- ===== src/Types/Builders/OfJob.antt =====
-- types.rs: the builder of job options.
use bullmq_rs.Prelude.{ℕ, ◌≡◌, refl, String, Option, none, some}
use bullmq_rs.Types.Options.{
  Duration, DeduplicationOptions, BackoffStrategy, RepeatOptions, JobOptions,
}
use bullmq_rs.Types.Builders.{given, given-set}

record JobOptionsBuilder : Type 0 where
  priority : Option ℕ
  delay : Option Duration
  attempts : Option ℕ
  backoff : Option BackoffStrategy
  ttl : Option Duration
  job_id : Option String
  deduplication : Option DeduplicationOptions
  repeat : Option RepeatOptions
  prev_millis : Option ℕ
  repeat_job_key : Option String
  timestamp : Option ℕ

abbrev new_builder : JobOptionsBuilder
new_builder = record {
  priority = none;
  delay = none;
  attempts = none;
  backoff = none;
  ttl = none;
  job_id = none;
  deduplication = none;
  repeat = none;
  prev_millis = none;
  repeat_job_key = none;
  timestamp = none;
}

abbrev set_priority : ℕ → JobOptionsBuilder → JobOptionsBuilder
set_priority v b = record b { priority = some v }

abbrev set_delay : Duration → JobOptionsBuilder → JobOptionsBuilder
set_delay v b = record b { delay = some v }

abbrev set_attempts : ℕ → JobOptionsBuilder → JobOptionsBuilder
set_attempts v b = record b { attempts = some v }

abbrev set_backoff : BackoffStrategy → JobOptionsBuilder → JobOptionsBuilder
set_backoff v b = record b { backoff = some v }

abbrev set_ttl : Duration → JobOptionsBuilder → JobOptionsBuilder
set_ttl v b = record b { ttl = some v }

abbrev set_job_id : String → JobOptionsBuilder → JobOptionsBuilder
set_job_id v b = record b { job_id = some v }

abbrev set_deduplication : DeduplicationOptions → JobOptionsBuilder → JobOptionsBuilder
set_deduplication v b = record b { deduplication = some v }

abbrev set_repeat : RepeatOptions → JobOptionsBuilder → JobOptionsBuilder
set_repeat v b = record b { repeat = some v }

abbrev set_prev_millis : ℕ → JobOptionsBuilder → JobOptionsBuilder
set_prev_millis v b = record b { prev_millis = some v }

abbrev set_repeat_job_key : String → JobOptionsBuilder → JobOptionsBuilder
set_repeat_job_key v b = record b { repeat_job_key = some v }

abbrev set_timestamp : ℕ → JobOptionsBuilder → JobOptionsBuilder
set_timestamp v b = record b { timestamp = some v }

abbrev build : JobOptionsBuilder → JobOptions
build b = record {
  priority = b.priority;
  delay = b.delay;
  attempts = b.attempts;
  backoff = b.backoff;
  ttl = b.ttl;
  job_id = b.job_id;
  deduplication = b.deduplication;
  repeat = b.repeat;
  prev_millis = b.prev_millis;
  repeat_job_key = b.repeat_job_key;
  timestamp = b.timestamp;
}

-- The calls that set the fields that are there, one after the other.
module _ (o : JobOptions) where
  abbrev with_priority : JobOptionsBuilder
  with_priority = record new_builder { priority = o.priority }

  abbrev with_delay : JobOptionsBuilder
  with_delay = record with_priority { delay = o.delay }

  abbrev with_attempts : JobOptionsBuilder
  with_attempts = record with_delay { attempts = o.attempts }

  abbrev with_backoff : JobOptionsBuilder
  with_backoff = record with_attempts { backoff = o.backoff }

  abbrev with_ttl : JobOptionsBuilder
  with_ttl = record with_backoff { ttl = o.ttl }

  abbrev with_job_id : JobOptionsBuilder
  with_job_id = record with_ttl { job_id = o.job_id }

  abbrev with_deduplication : JobOptionsBuilder
  with_deduplication = record with_job_id { deduplication = o.deduplication }

  abbrev with_repeat : JobOptionsBuilder
  with_repeat = record with_deduplication { repeat = o.repeat }

  abbrev with_prev_millis : JobOptionsBuilder
  with_prev_millis = record with_repeat { prev_millis = o.prev_millis }

  abbrev with_repeat_job_key : JobOptionsBuilder
  with_repeat_job_key = record with_prev_millis { repeat_job_key = o.repeat_job_key }

  abbrev with_timestamp : JobOptionsBuilder
  with_timestamp = record with_repeat_job_key { timestamp = o.timestamp }

  all_set : JobOptionsBuilder
  all_set = given set_timestamp o.timestamp (
      given set_repeat_job_key o.repeat_job_key (
        given set_prev_millis o.prev_millis (
          given set_repeat o.repeat (
            given set_deduplication o.deduplication (
              given set_job_id o.job_id (
                given set_ttl o.ttl (
                  given set_backoff o.backoff (
                    given set_attempts o.attempts
                      (given set_delay o.delay (given set_priority o.priority new_builder))))))))))

  -- Any options can be built: the calls that set the fields that are there give them.
  build-all_set : build all_set ≡ o
  unfolding all_set
  build-all_set =
      rw
        (
          given-set (λ x. record new_builder { priority = x }) set_priority (λ v. refl) o.priority,
          given-set (λ x. record with_priority { delay = x }) set_delay (λ v. refl) o.delay,
          given-set (λ x. record with_delay { attempts = x }) set_attempts (λ v. refl) o.attempts,
          given-set (λ x. record with_attempts { backoff = x }) set_backoff (λ v. refl) o.backoff,
          given-set (λ x. record with_backoff { ttl = x }) set_ttl (λ v. refl) o.ttl,
          given-set (λ x. record with_ttl { job_id = x }) set_job_id (λ v. refl) o.job_id,
          given-set (λ x. record with_job_id { deduplication = x }) set_deduplication (λ v. refl)
              o.deduplication,
          given-set (λ x. record with_deduplication { repeat = x }) set_repeat (λ v. refl) o.repeat,
          given-set (λ x. record with_repeat { prev_millis = x }) set_prev_millis (λ v. refl)
              o.prev_millis,
          given-set (λ x. record with_prev_millis { repeat_job_key = x }) set_repeat_job_key
              (λ v. refl) o.repeat_job_key,
          given-set (λ x. record with_repeat_job_key { timestamp = x }) set_timestamp (λ v. refl)
              o.timestamp,
        )
        refl
