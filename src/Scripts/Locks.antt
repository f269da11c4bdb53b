-- ===== src/Scripts/Locks.antt =====
-- scripts/commands: extend_lock.rs, extend_locks.rs and move_stalled_jobs_to_wait.rs.
use bullmq_rs.Prelude.{ℕ, String, List, [], ◌∷◌, if◌then◌else◌}
use bullmq_rs.Prelude.Int.{pos, as_u64}
use bullmq_rs.Text.{◌<>◌, to_string}
use bullmq_rs.Error.{lock_mismatch, Result, ok, err}
use bullmq_rs.Redis.{Value, int, array, to_list, Io, ◌>>=◌, pure, lift}
use bullmq_rs.Job.{Codec}
use bullmq_rs.Scripts.{key, invoke}
use bullmq_rs.Scripts.Decode.{int_eq, texts_in}

unfoldable pub extended_result : Value → Result (Unit {0})
extended_result (int code) = if int_eq code (pos 0) then ok tt else err lock_mismatch
extended_result _ = ok tt

unfoldable pub extend_lock : (prefix queue_name job_id token : String) → ℕ → Io (Unit {0})
unfolding extended_result
extend_lock prefix queue_name job_id token lock_duration =
    invoke "extendLock"
      ((prefix <> ":" <> queue_name <> ":" <> job_id <> ":lock")
        ∷ key prefix queue_name "stalled"
        ∷ [])
      (token ∷ to_string lock_duration ∷ job_id ∷ [])
    >>= λ result. lift (extended_result result)

-- `texts` encodes the two vectors as JSON.
unfoldable pub extend_locks :
    Codec (List String)
    → (prefix queue_name : String) → List String
    → List String
    → ℕ
    → Io (List String)
unfolding texts_in
extend_locks texts prefix queue_name job_ids tokens duration_ms = do
  token_json ← lift (texts.encode tokens)
  id_json ← lift (texts.encode job_ids)
  result ←
      invoke "extendLocks" (key prefix queue_name "stalled" ∷ [])
        ((prefix <> ":" <> queue_name <> ":") ∷ token_json ∷ id_json ∷ to_string duration_ms ∷ [])
  pure (texts_in result)

pub record StalledJobsResult : Type 0 where
  pub stalled : ℕ
  pub failed : ℕ

-- `Value::Int(n) => *n as u64, _ => 0`
unfoldable pub count_of : Value → ℕ
count_of (int n) = as_u64 n
count_of _ = 0

unfoldable pub stalled_items : List Value → StalledJobsResult
unfolding count_of
stalled_items (a ∷ b ∷ rest) = record { stalled = count_of a; failed = count_of b }
stalled_items _ = record { stalled = 0; failed = 0 }

unfoldable pub stalled_result : Value → StalledJobsResult
unfolding stalled_items to_list
stalled_result (array items) = stalled_items (to_list items)
stalled_result _ = record { stalled = 0; failed = 0 }

unfoldable pub move_stalled_jobs_to_wait :
    (prefix queue_name : String) (max_stalled_count stalled_interval timestamp max_events : ℕ)
    → Io StalledJobsResult
unfolding stalled_result
move_stalled_jobs_to_wait prefix queue_name max_stalled_count stalled_interval timestamp
      max_events =
    invoke "moveStalledJobsToWait"
      (key prefix queue_name "wait"
        ∷ key prefix queue_name "active"
        ∷ key prefix queue_name "prioritized"
        ∷ key prefix queue_name "stalled"
        ∷ key prefix queue_name "stalled-check"
        ∷ key prefix queue_name "meta"
        ∷ key prefix queue_name "paused"
        ∷ key prefix queue_name "events"
        ∷ [])
      (to_string max_stalled_count
        ∷ to_string stalled_interval
        ∷ to_string timestamp
        ∷ to_string max_events
        ∷ (prefix <> ":" <> queue_name <> ":")
        ∷ key prefix queue_name "marker"
        ∷ key prefix queue_name "pc"
        ∷ [])
    >>= λ result. pure (stalled_result result)
