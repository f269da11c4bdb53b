-- ===== src/Scripts/Finish.antt =====
-- scripts/commands: move_to_active.rs, move_to_finished.rs, move_to_delayed.rs, retry_job.rs and
-- move_job_from_active_to_wait.rs, by which a worker takes a job and gives it back.
use bullmq_rs.Prelude.{ℕ, String, Bool, ◌||◌, Option, none, some, [], ◌∷◌, ◌==◌, if◌then◌else◌}
use bullmq_rs.Prelude.Int.{ℤ, pos, negsuc}
use bullmq_rs.Text.{◌<>◌, to_string}
use bullmq_rs.Error.{job_not_found, lock_mismatch, script_error, Result, ok, err}
use bullmq_rs.Redis.{printer, Value, int, array, Io, ◌>>=◌, lift}
use bullmq_rs.Types.Options.{as_millis}
use bullmq_rs.Types.Worker.{RateLimiterOptions}
use bullmq_rs.Scripts.{key, invoke, int_to_string}
use bullmq_rs.Scripts.Decode.{int_eq}
use bullmq_rs.Scripts.Active.{MoveToActiveResult, parse_move_to_active_result}

unfoldable pub limiter_args : Option RateLimiterOptions → String × String
limiter_args none = ("", "")
limiter_args (some l) = (to_string l.max, to_string (as_millis l.duration))

unfoldable pub move_to_active :
    String → String → String → ℕ → ℕ → ℕ → Option RateLimiterOptions → Io MoveToActiveResult
unfolding limiter_args
move_to_active prefix queue_name token lock_duration timestamp max_events limiter =
    let (limiter_max, limiter_duration) = limiter_args limiter in
    invoke "moveToActive"
      (key prefix queue_name "wait"
        ∷ key prefix queue_name "active"
        ∷ key prefix queue_name "prioritized"
        ∷ key prefix queue_name "events"
        ∷ key prefix queue_name "stalled"
        ∷ key prefix queue_name "limiter"
        ∷ key prefix queue_name "delayed"
        ∷ key prefix queue_name "paused"
        ∷ key prefix queue_name "meta"
        ∷ key prefix queue_name "pc"
        ∷ key prefix queue_name "marker"
        ∷ [])
      (token
        ∷ to_string lock_duration
        ∷ to_string timestamp
        ∷ to_string max_events
        ∷ (prefix <> ":" <> queue_name <> ":")
        ∷ limiter_max
        ∷ limiter_duration
        ∷ [])
    >>= λ result. lift (ok (parse_move_to_active_result result))

pub data MoveToFinishedResult : Type 0 where
  done : MoveToFinishedResult
  next_job : MoveToActiveResult → MoveToFinishedResult

unfoldable pub finished_code : String → ℤ → Result MoveToFinishedResult
finished_code job_id code =
    if int_eq code (pos 0)
    then ok done
    else if int_eq code (negsuc 0)
    then err (job_not_found job_id)
    else if int_eq code (negsuc 1) || int_eq code (negsuc 5)
    then err lock_mismatch
    else err (script_error ("moveToFinished returned unexpected code: " <> int_to_string code))

unfoldable pub finished_result : String → Value → Result MoveToFinishedResult
unfolding finished_code
finished_result job_id (int code) = finished_code job_id code
finished_result job_id (array items) = ok (next_job (parse_move_to_active_result (array items)))
finished_result job_id _ = ok done

abbrev flag : Bool → String
flag b = if b then "1" else "0"

abbrev metrics_arg : Option ℕ → String
metrics_arg none = ""
metrics_arg (some m) = to_string m

unfoldable pub move_to_finished :
    (prefix queue_name job_id token : String) (timestamp : ℕ) (result_data target_state : String)
    (max_events : ℕ) (fetch_next : Bool) (lock_duration attempts_made : ℕ)
    (limiter : Option RateLimiterOptions) (max_metrics_size : Option ℕ)
    → Io MoveToFinishedResult
unfolding limiter_args finished_result
move_to_finished prefix queue_name job_id token timestamp result_data target_state max_events
      fetch_next lock_duration attempts_made limiter max_metrics_size =
    let job_key = prefix <> ":" <> queue_name <> ":" <> job_id in
    let (limiter_max, limiter_duration) = limiter_args limiter in
    invoke "moveToFinished"
      (key prefix queue_name "wait"
        ∷ key prefix queue_name "active"
        ∷ key prefix queue_name "prioritized"
        ∷ key prefix queue_name "events"
        ∷ key prefix queue_name "stalled"
        ∷ key prefix queue_name "limiter"
        ∷ key prefix queue_name "delayed"
        ∷ key prefix queue_name "paused"
        ∷ key prefix queue_name target_state
        ∷ key prefix queue_name "meta"
        ∷ key prefix queue_name "pc"
        ∷ key prefix queue_name "marker"
        ∷ job_key
        ∷ (job_key <> ":lock")
        ∷ [])
      (token
        ∷ to_string timestamp
        ∷ result_data
        ∷ target_state
        ∷ to_string max_events
        ∷ flag fetch_next
        ∷ to_string lock_duration
        ∷ job_id
        ∷ to_string attempts_made
        ∷ (prefix <> ":" <> queue_name <> ":")
        ∷ limiter_max
        ∷ limiter_duration
        ∷ metrics_arg max_metrics_size
        ∷ [])
    >>= λ result. lift (finished_result job_id result)

unfoldable pub delayed_code : String → ℤ → Result (Unit {0})
delayed_code job_id code =
    if int_eq code (pos 0)
    then ok tt
    else if int_eq code (negsuc 0)
    then err (job_not_found job_id)
    else if int_eq code (negsuc 1) || int_eq code (negsuc 5)
    then err lock_mismatch
    else err (script_error ("moveToDelayed returned unexpected code: " <> int_to_string code))

unfoldable pub delayed_result : String → Value → Result (Unit {0})
unfolding delayed_code
delayed_result job_id (int code) = delayed_code job_id code
delayed_result job_id _ = ok tt

unfoldable pub move_to_delayed :
    (prefix queue_name job_id token : String) (timestamp delayed_timestamp max_events attempts : ℕ)
    → Io (Unit {0})
unfolding delayed_result
move_to_delayed prefix queue_name job_id token timestamp delayed_timestamp max_events attempts =
    let job_key = prefix <> ":" <> queue_name <> ":" <> job_id in
    invoke "moveToDelayed"
      (key prefix queue_name "active"
        ∷ key prefix queue_name "delayed"
        ∷ key prefix queue_name "events"
        ∷ job_key
        ∷ (job_key <> ":lock")
        ∷ key prefix queue_name "meta"
        ∷ key prefix queue_name "marker"
        ∷ key prefix queue_name "stalled"
        ∷ [])
      (token
        ∷ to_string timestamp
        ∷ job_id
        ∷ to_string delayed_timestamp
        ∷ to_string max_events
        ∷ to_string attempts
        ∷ [])
    >>= λ result. lift (delayed_result job_id result)

unfoldable pub retry_code : String → ℤ → Result (Unit {0})
retry_code job_id code =
    if int_eq code (pos 0)
    then ok tt
    else if int_eq code (negsuc 0)
    then err (job_not_found job_id)
    else if int_eq code (negsuc 1) || int_eq code (negsuc 5)
    then err lock_mismatch
    else err (script_error ("retryJob returned unexpected code: " <> int_to_string code))

unfoldable pub retry_result : String → Value → Result (Unit {0})
unfolding retry_code
retry_result job_id (int code) = retry_code job_id code
retry_result job_id _ = ok tt

unfoldable pub retry_job :
    (prefix queue_name job_id token push_cmd : String) (max_events attempts_made priority : ℕ)
    → Io (Unit {0})
unfolding retry_result
retry_job prefix queue_name job_id token push_cmd max_events attempts_made priority =
    invoke "retryJob"
      (key prefix queue_name "active"
        ∷ key prefix queue_name "wait"
        ∷ key prefix queue_name "stalled"
        ∷ key prefix queue_name "paused"
        ∷ key prefix queue_name "meta"
        ∷ key prefix queue_name "events"
        ∷ key prefix queue_name "delayed"
        ∷ key prefix queue_name "prioritized"
        ∷ key prefix queue_name "pc"
        ∷ key prefix queue_name "marker"
        ∷ (prefix <> ":" <> queue_name <> ":" <> job_id)
        ∷ [])
      (token
        ∷ push_cmd
        ∷ job_id
        ∷ to_string max_events
        ∷ to_string attempts_made
        ∷ to_string priority
        ∷ [])
    >>= λ result. lift (retry_result job_id result)

-- `debug` is the printing of the reply, for the message.
unfoldable pub back_to_wait_result : (Value → String) → String → Value → Result ℕ
back_to_wait_result debug job_id (int (pos code)) = ok code
back_to_wait_result debug job_id (int (negsuc n)) =
    if n == 0
    then err (job_not_found job_id)
    else if n == 1 || n == 5
    then err lock_mismatch
    else err (
        script_error
          ("moveJobFromActiveToWait returned unexpected value: " <> debug (int (negsuc n))))
back_to_wait_result debug job_id v =
    err (script_error ("moveJobFromActiveToWait returned unexpected value: " <> debug v))

unfoldable pub move_job_from_active_to_wait : (prefix queue_name job_id token : String) → Io ℕ
unfolding back_to_wait_result
move_job_from_active_to_wait prefix queue_name job_id token =
    invoke "moveJobFromActiveToWait"
      (key prefix queue_name "active"
        ∷ key prefix queue_name "wait"
        ∷ key prefix queue_name "stalled"
        ∷ key prefix queue_name "paused"
        ∷ key prefix queue_name "meta"
        ∷ key prefix queue_name "limiter"
        ∷ key prefix queue_name "prioritized"
        ∷ key prefix queue_name "marker"
        ∷ key prefix queue_name "events"
        ∷ [])
      (job_id ∷ token ∷ (prefix <> ":" <> queue_name <> ":" <> job_id) ∷ [])
    >>= λ result. (printer >>= λ debug. lift (back_to_wait_result debug job_id result))
