-- ===== src/Scripts/Upkeep.antt =====
-- scripts/commands: pause.rs, promote.rs, change_priority.rs, remove_job.rs, clean_jobs_in_set.rs,
-- obliterate.rs, move_jobs_to_wait.rs and add_log.rs.
use bullmq_rs.Prelude.{ℕ, String, Bool, List, [], ◌∷◌, if◌then◌else◌}
use bullmq_rs.Prelude.Int.{ℤ, pos, negsuc, as_u64}
use bullmq_rs.Text.{◌<>◌, to_string}
use bullmq_rs.Error.{job_not_found, script_error, other, Result, ok, err}
use bullmq_rs.Redis.{printer, Value, int, Io, ◌>>=◌, pure, lift}
use bullmq_rs.Scripts.{key, invoke, int_to_string}
use bullmq_rs.Scripts.Decode.{int_eq, texts_in}

unfoldable pub pause_queue : (prefix queue_name : String) → Bool → ℕ → Io (Unit {0})
pause_queue prefix queue_name pause max_events =
    invoke "pause"
      (key prefix queue_name "wait"
        ∷ key prefix queue_name "paused"
        ∷ key prefix queue_name "meta"
        ∷ key prefix queue_name "events"
        ∷ key prefix queue_name "delayed"
        ∷ key prefix queue_name "prioritized"
        ∷ key prefix queue_name "marker"
        ∷ [])
      ((if pause then "pause" else "resume") ∷ to_string max_events ∷ [])
    >>= λ result. pure tt

unfoldable pub promote_result : String → Value → Result (Unit {0})
promote_result job_id (int code) =
    if int_eq code (pos 0)
    then ok tt
    else if int_eq code (negsuc 0)
    then err (other ("Job " <> job_id <> " is not in delayed state"))
    else err (script_error ("promote returned unexpected code: " <> int_to_string code))
promote_result job_id _ = ok tt

unfoldable pub promote : (prefix queue_name job_id : String) → ℕ → ℕ → Io (Unit {0})
unfolding promote_result
promote prefix queue_name job_id max_events timestamp =
    invoke "promote"
      (key prefix queue_name "delayed"
        ∷ key prefix queue_name "wait"
        ∷ key prefix queue_name "paused"
        ∷ key prefix queue_name "meta"
        ∷ key prefix queue_name "prioritized"
        ∷ key prefix queue_name "active"
        ∷ key prefix queue_name "pc"
        ∷ key prefix queue_name "events"
        ∷ key prefix queue_name "marker"
        ∷ [])
      (job_id
        ∷ (prefix <> ":" <> queue_name <> ":" <> job_id)
        ∷ to_string timestamp
        ∷ to_string max_events
        ∷ [])
    >>= λ result. lift (promote_result job_id result)

unfoldable pub priority_result : String → Value → Result (Unit {0})
priority_result job_id (int code) =
    if int_eq code (pos 0)
    then ok tt
    else if int_eq code (negsuc 0)
    then err (job_not_found job_id)
    else err (script_error ("changePriority returned unexpected code: " <> int_to_string code))
priority_result job_id _ = ok tt

unfoldable pub change_priority : (prefix queue_name job_id : String) → ℕ → ℕ → ℕ → Io (Unit {0})
unfolding priority_result
change_priority prefix queue_name job_id priority max_events timestamp =
    invoke "changePriority"
      (key prefix queue_name "meta"
        ∷ key prefix queue_name "prioritized"
        ∷ key prefix queue_name "wait"
        ∷ key prefix queue_name "paused"
        ∷ key prefix queue_name "active"
        ∷ key prefix queue_name "pc"
        ∷ key prefix queue_name "marker"
        ∷ [])
      (to_string priority
        ∷ job_id
        ∷ (prefix <> ":" <> queue_name <> ":" <> job_id)
        ∷ key prefix queue_name "events"
        ∷ to_string timestamp
        ∷ to_string max_events
        ∷ [])
    >>= λ result. lift (priority_result job_id result)

unfoldable pub removed_result : (Value → String) → String → Value → Result (Unit {0})
removed_result debug job_id (int code) =
    if int_eq code (pos 1)
    then ok tt
    else if int_eq code (pos 0)
    then err
        (other ("Job " <> job_id <> " could not be removed because it is locked by another worker"))
    else if int_eq code (negsuc 7)
    then err
        (other ("Job " <> job_id <> " belongs to a job scheduler and cannot be removed directly"))
    else err (script_error ("removeJob returned unexpected value: " <> debug (int code)))
removed_result debug job_id v =
    err (script_error ("removeJob returned unexpected value: " <> debug v))

unfoldable pub remove_job : (prefix queue_name job_id : String) → Bool → Io (Unit {0})
unfolding removed_result
remove_job prefix queue_name job_id remove_children =
    invoke "removeJob"
      ((prefix <> ":" <> queue_name <> ":" <> job_id) ∷ key prefix queue_name "repeat" ∷ [])
      (job_id ∷ (if remove_children then "1" else "0") ∷ (prefix <> ":" <> queue_name <> ":") ∷ [])
    >>= λ result. (printer >>= λ debug. lift (removed_result debug job_id result))

unfoldable pub clean_jobs_in_set : (prefix queue_name set_name : String) → ℕ → ℕ → Io (List String)
unfolding texts_in
clean_jobs_in_set prefix queue_name set_name timestamp limit =
    invoke "cleanJobsInSet"
      (key prefix queue_name set_name
        ∷ key prefix queue_name "events"
        ∷ key prefix queue_name "repeat"
        ∷ [])
      ((prefix <> ":" <> queue_name <> ":") ∷ to_string timestamp ∷ to_string limit ∷ set_name ∷ [])
    >>= λ result. pure (texts_in result)

unfoldable pub obliterate_result : (Value → String) → Value → Result ℤ
obliterate_result debug (int code) =
    if int_eq code (negsuc 0)
    then err (other "Cannot obliterate non-paused queue")
    else if int_eq code (negsuc 1)
    then err (other "Cannot obliterate queue with active jobs")
    else ok code
obliterate_result debug v = err (script_error ("obliterate returned unexpected value: " <> debug v))

unfoldable pub obliterate : (prefix queue_name : String) → ℕ → Bool → Io ℤ
unfolding obliterate_result
obliterate prefix queue_name count force =
    invoke "obliterate" (key prefix queue_name "meta" ∷ (prefix <> ":" <> queue_name <> ":") ∷ [])
      (to_string count ∷ (if force then "force" else "") ∷ [])
    >>= λ result. (printer >>= λ debug. lift (obliterate_result debug result))

unfoldable pub cursor_result : (Value → String) → Value → Result ℤ
cursor_result debug (int cursor) = ok cursor
cursor_result debug v = err (script_error ("moveJobsToWait returned unexpected value: " <> debug v))

unfoldable pub move_jobs_to_wait : (prefix queue_name state : String) → ℕ → String → Io ℤ
unfolding cursor_result
move_jobs_to_wait prefix queue_name state count timestamp =
    invoke "moveJobsToWait"
      (key prefix queue_name ""
        ∷ key prefix queue_name "events"
        ∷ key prefix queue_name state
        ∷ key prefix queue_name "wait"
        ∷ key prefix queue_name "paused"
        ∷ key prefix queue_name "meta"
        ∷ key prefix queue_name "active"
        ∷ key prefix queue_name "marker"
        ∷ [])
      (to_string count ∷ timestamp ∷ state ∷ [])
    >>= λ result. (printer >>= λ debug. lift (cursor_result debug result))

unfoldable pub log_count : Value → ℕ
log_count (int n) = as_u64 n
log_count _ = 0

unfoldable pub add_log : (prefix queue_name job_id log_line : String) → ℕ → Io ℕ
unfolding log_count
add_log prefix queue_name job_id log_line max_log_count =
    invoke "addLog"
      ((prefix <> ":" <> queue_name <> ":" <> job_id <> ":logs")
        ∷ key prefix queue_name "meta"
        ∷ [])
      (log_line ∷ to_string max_log_count ∷ [])
    >>= λ result. pure (log_count result)
