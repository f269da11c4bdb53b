-- ===== src/Scripts/Schedulers.antt =====
-- scripts/commands: update_job_scheduler.rs and remove_job_scheduler.rs.
use bullmq_rs.Prelude.{ℕ, String, Bool, false, [], ◌∷◌, Option}
use bullmq_rs.Prelude.Int.{pos}
use bullmq_rs.Text.{◌<>◌, to_string}
use bullmq_rs.Redis.{Value, int, Io, ◌>>=◌, pure}
use bullmq_rs.Scripts.{key, invoke}
use bullmq_rs.Scripts.Decode.{int_eq, text?}

unfoldable pub update_job_scheduler :
    (prefix queue_name scheduler_id : String) (next_millis : ℕ)
    (template_data_json delayed_opts_json : String) (timestamp : ℕ) (producer_id : String)
    → Io (Option String)
unfolding text?
update_job_scheduler prefix queue_name scheduler_id next_millis template_data_json delayed_opts_json
      timestamp producer_id =
    invoke "updateJobScheduler"
      (key prefix queue_name "repeat"
        ∷ key prefix queue_name "delayed"
        ∷ key prefix queue_name "wait"
        ∷ key prefix queue_name "paused"
        ∷ key prefix queue_name "meta"
        ∷ key prefix queue_name "prioritized"
        ∷ key prefix queue_name "marker"
        ∷ key prefix queue_name "id"
        ∷ key prefix queue_name "events"
        ∷ key prefix queue_name "pc"
        ∷ key prefix queue_name producer_id
        ∷ key prefix queue_name "active"
        ∷ [])
      (to_string next_millis
        ∷ scheduler_id
        ∷ template_data_json
        ∷ delayed_opts_json
        ∷ to_string timestamp
        ∷ (prefix <> ":" <> queue_name <> ":")
        ∷ producer_id
        ∷ [])
    >>= λ result. pure (text? result)

unfoldable pub is_zero_reply : Value → Bool
is_zero_reply (int code) = int_eq code (pos 0)
is_zero_reply _ = false

unfoldable pub remove_job_scheduler : (prefix queue_name scheduler_id : String) → Io Bool
unfolding is_zero_reply
remove_job_scheduler prefix queue_name scheduler_id =
    invoke "removeJobScheduler"
      (key prefix queue_name "repeat"
        ∷ key prefix queue_name "delayed"
        ∷ key prefix queue_name "events"
        ∷ [])
      (scheduler_id ∷ (prefix <> ":" <> queue_name <> ":") ∷ [])
    >>= λ result. pure (is_zero_reply result)
