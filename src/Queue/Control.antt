-- ===== src/Queue/Control.antt =====
-- queue.rs: `remove`, `drain`, `update_progress`, the rate limit, the logs, `get_next_job`, and the
-- renewal of many locks.
use bullmq_rs.Prelude.{
  ℕ, String, Bool, false, Option, none, some, List, [], ◌∷◌, ◌++◌, length, ◌==◌, ltb, if◌then◌else◌,
}
use bullmq_rs.Prelude.Int.{ℤ, pos, negsuc}
use bullmq_rs.Text.{◌<>◌, to_string}
use bullmq_rs.Error.{job_not_found, other}
use bullmq_rs.Dict.{contains, string_eq}
use bullmq_rs.Redis.{
  Io, ◌>>=◌, ◌>>◌, pure, throw, lift, send, command, now_ms, read_bool, read_int, read_text,
  read_texts,
}
use bullmq_rs.Types.State.{
  JobState, wait, paused, prioritized, waiting_children, delayed, active, completed, failed,
  to_text,
}
use bullmq_rs.Types.Options.{Duration, as_millis}
use bullmq_rs.Types.Worker.{default_max_events}
use bullmq_rs.Job.{Job, Serde, Codec}
use bullmq_rs.Job.Hash.{from_redis_hash}
use bullmq_rs.Job.Active.{progress_event}
use bullmq_rs.Job.Waiting.{cleanup_job}
use bullmq_rs.Scripts.{key, int_to_string}
use bullmq_rs.Scripts.Active.{MoveToActiveResult}
use bullmq_rs.Scripts.Finish.{move_to_active}
use bullmq_rs.Scripts.Locks.{extend_locks}
use bullmq_rs.Scripts.Upkeep.{add_log, remove_job}

-- `MAX_SAFE_INTEGER`
abbrev pub max_safe_integer : ℕ
max_safe_integer = 9007199254740991

-- `i64 > 0`
unfoldable pub is_positive : ℤ → Bool
is_positive (pos n) = ltb 0 n
is_positive (negsuc n) = false

-- `HashSet::from_iter`
unfoldable pub distinct : List String → List String
distinct [] = []
distinct (id ∷ ids) = let rest = distinct ids in if contains id rest then rest else id ∷ rest

module _ (prefix name : String) where
  unfoldable pub remove : String → Io (Unit {0})
  remove job_id = remove_job prefix name job_id false

  -- LRANGE of a list, ZRANGE of a sorted set, from the first to the last.
  unfoldable pub ids_in : String → JobState → Io (List String)
  ids_in word state = do
    reply ← send (command (word ∷ key prefix name (to_text state) ∷ "0" ∷ "-1" ∷ []))
    read_texts reply

  unfoldable pub cleanup_all : List String → Io (Unit {0})
  cleanup_all [] = pure tt
  cleanup_all (id ∷ ids) = cleanup_job prefix name id >>= λ u. cleanup_all ids

  unfoldable pub drain : Io (Unit {0})
  unfolding ids_in distinct cleanup_all
  drain = do
    a ← ids_in "LRANGE" wait
    b ← ids_in "LRANGE" paused
    c ← ids_in "LRANGE" active
    d ← ids_in "ZRANGE" prioritized
    e ← ids_in "ZRANGE" delayed
    f ← ids_in "ZRANGE" completed
    g ← ids_in "ZRANGE" failed
    h ← ids_in "ZRANGE" waiting_children
    cleanup_all (distinct (a ++ b ++ c ++ d ++ e ++ f ++ g ++ h))
    n ← send (
        command (
          "DEL"
          ∷ key prefix name "wait"
          ∷ key prefix name "paused"
          ∷ key prefix name "active"
          ∷ key prefix name "prioritized"
          ∷ key prefix name "delayed"
          ∷ key prefix name "completed"
          ∷ key prefix name "failed"
          ∷ key prefix name "waiting-children"
          ∷ key prefix name "id"
          ∷ []))
    read_int n
    pure tt

  unfoldable pub rate_limit : Duration → Io (Unit {0})
  rate_limit duration = do
    send (
        command (
          "SET"
          ∷ key prefix name "limiter"
          ∷ to_string max_safe_integer
          ∷ "PX"
          ∷ to_string (as_millis duration)
          ∷ []))
    pure tt

  unfoldable pub remove_rate_limit_key : Io Bool
  unfolding is_positive
  remove_rate_limit_key = do
    reply ← send (command ("DEL" ∷ key prefix name "limiter" ∷ []))
    deleted ← read_int reply
    pure (is_positive deleted)

  unfoldable pub is_queue_paused : Io Bool
  is_queue_paused = do
    reply ← send (command ("HEXISTS" ∷ key prefix name "meta" ∷ "paused" ∷ []))
    read_bool reply

  unfoldable pub add_log_line : String → String → Io ℕ
  add_log_line job_id log_line = add_log prefix name job_id log_line 0

  unfoldable pub get_logs : String → ℤ → ℤ → Io (List String)
  get_logs job_id start stop = do
    reply ← send (
        command (
          "LRANGE"
          ∷ (key prefix name job_id <> ":logs")
          ∷ int_to_string start
          ∷ int_to_string stop
          ∷ []))
    read_texts reply

  unfoldable pub extend_job_locks :
      Codec (List String) → List String → List String → Duration → Io (List String)
  extend_job_locks texts job_ids tokens duration =
      if length job_ids == length tokens
      then extend_locks texts prefix name job_ids tokens (as_millis duration)
      else throw (other "extend_job_locks requires job_ids and tokens of the same length")

  module _ {T J : Type 0} (serde : Serde T J) where
    -- `update_progress` of a queue: once the job is known to exist.
    unfoldable pub publish_progress : String → J → Io (Unit {0})
    publish_progress job_id progress = do
      json ← lift (serde.json.encode progress)
      n ← send (command ("HSET" ∷ key prefix name job_id ∷ "progress" ∷ json ∷ []))
      read_int n
      id ← send (command (progress_event (key prefix name "events") job_id json))
      read_text id
      pure tt

    unfoldable pub update_job_progress : String → J → Io (Unit {0})
    unfolding publish_progress
    update_job_progress job_id progress = do
      reply ← send (command ("EXISTS" ∷ key prefix name job_id ∷ []))
      here ← read_bool reply
      (if here then publish_progress job_id progress else throw (job_not_found job_id))

    -- `let Some(job_id) = result.job_id else { return Ok(None) }`
    unfoldable pub claimed : String → MoveToActiveResult → Option String → Io (Option (Job T J))
    claimed token result none = pure none
    claimed token result (some job_id) =
        lift (from_redis_hash serde job_id result.job_data) >>= λ job. pure (
          some (record job {
            state = active;
            lock_token = some token;
            ctx = some (record { prefix = prefix; queue_name = name });
          }))

    unfoldable pub get_next_job : String → Io (Option (Job T J))
    unfolding claimed
    get_next_job token = do
      now ← now_ms
      result ← move_to_active prefix name token 30000 now default_max_events none
      claimed token result result.job_id
