-- ===== src/Job/Active.antt =====
-- job.rs: the methods of a job that holds its queue's connection, up to `move_to_failed`.
pub mod Place
pub mod Told
use bullmq_rs.Prelude.{
  ◌%◌, ◌^◌, ℕ, ◌+◌, String, Bool, true, false, not, Option, none, some, List, [], ◌∷◌, ltb,
  if◌then◌else◌,
}
use bullmq_rs.Text.{◌<>◌, to_string}
use bullmq_rs.Error.{BullmqError, job_not_found, other, Result, ok, err, ok_or}
use bullmq_rs.Redis.{
  Value, nil, Io, ◌>>=◌, ◌>>◌, pure, throw, lift, send, command, now_ms, read_bool, read_int,
  read_score, read_text,
}
use bullmq_rs.Types.State.{
  JobState, wait, paused, prioritized, waiting_children, delayed, active, completed, failed,
  to_text,
}
use bullmq_rs.Job.{Job, JobContext, Serde, Codec}
use bullmq_rs.Scripts.{key}
use bullmq_rs.Scripts.Finish.{move_to_finished, move_to_delayed, retry_job}
use bullmq_rs.Scripts.Upkeep.{add_log, remove_job, promote, change_priority}
use bullmq_rs.Queue.States.{same_state}

-- `matches!(pos, redis::Value::Nil)`
unfoldable pub is_nil : Value → Bool
is_nil nil = true
is_nil _ = false

-- The event that a change of the progress publishes.
unfoldable pub progress_event : (events_key job_id progress_json : String) → List String
progress_event events_key job_id progress_json =
    "XADD"
    ∷ events_key
    ∷ "MAXLEN"
    ∷ "~"
    ∷ to_string 10000
    ∷ "*"
    ∷ "event"
    ∷ "progress"
    ∷ "jobId"
    ∷ job_id
    ∷ "data"
    ∷ progress_json
    ∷ []

-- What `get_state` asks, in its order: of a sorted set whether it has a score for the job, of a list
-- whether it has a position.
unfoldable pub scored : (prefix queue_name job_id suffix : String) → Io Bool
scored prefix queue_name job_id suffix = do
  reply ← send (command ("ZSCORE" ∷ key prefix queue_name suffix ∷ job_id ∷ []))
  read_score reply

unfoldable pub listed : (prefix queue_name job_id suffix : String) → Io Bool
unfolding is_nil
listed prefix queue_name job_id suffix = do
  reply ← send (command ("LPOS" ∷ key prefix queue_name suffix ∷ job_id ∷ []))
  pure (not (is_nil reply))

unfoldable pub is_member : (prefix queue_name job_id : String) → Bool × JobState × String → Io Bool
unfolding scored listed
is_member prefix queue_name job_id (in_set, state, suffix) =
    if in_set
    then scored prefix queue_name job_id suffix
    else listed prefix queue_name job_id suffix

-- `checks_zset`, `checks_list` and the two that follow.
abbrev pub state_checks : List (Bool × JobState × String)
state_checks =
    (true, completed, "completed")
    ∷ (true, failed, "failed")
    ∷ (true, delayed, "delayed")
    ∷ (false, active, "active")
    ∷ (false, wait, "wait")
    ∷ (false, paused, "paused")
    ∷ (true, prioritized, "prioritized")
    ∷ (true, waiting_children, "waiting-children")
    ∷ []

unfoldable pub first_state :
    (prefix queue_name job_id : String) → List (Bool × JobState × String) → Io JobState
unfolding is_member
first_state prefix queue_name job_id [] = throw (job_not_found job_id)
first_state prefix queue_name job_id (check ∷ checks) =
    is_member prefix queue_name job_id check >>= λ here.
    if here then pure check.1 else first_state prefix queue_name job_id checks

module _ {T J : Type 0} (serde : Serde T J) (job : Job T J) where
  no_context : BullmqError
  no_context = other "Job has no connection context (created outside a Queue/Worker)"

  unfoldable pub context : Io JobContext
  unfolding no_context
  context = lift (ok_or job.ctx no_context)

  token_or : String → Io String
  token_or message = lift (ok_or job.lock_token (other message))

  -- What follows once the job is known to exist.
  unfoldable pub write_progress : JobContext → J → Io (Job T J)
  unfolding progress_event
  write_progress c progress = do
    json ← lift (serde.json.encode progress)
    n ← send (command ("HSET" ∷ key c.prefix c.queue_name job.id ∷ "progress" ∷ json ∷ []))
    read_int n
    id ← send (command (progress_event (key c.prefix c.queue_name "events") job.id json))
    read_text id
    pure (record job { progress = some progress })

  unfoldable pub update_progress : J → Io (Job T J)
  unfolding context write_progress
  update_progress progress = do
    c ← context
    reply ← send (command ("EXISTS" ∷ key c.prefix c.queue_name job.id ∷ []))
    here ← read_bool reply
    (if here then write_progress c progress else throw (job_not_found job.id))

  unfoldable pub log_row : String → Io ℕ
  unfolding context
  log_row row = context >>= λ c. add_log c.prefix c.queue_name job.id row 0

  unfoldable pub update_data : T → Io (Job T J)
  unfolding context
  update_data payload = do
    c ← context
    json ← lift (serde.payload.encode payload)
    n ← send (command ("HSET" ∷ key c.prefix c.queue_name job.id ∷ "data" ∷ json ∷ []))
    read_int n
    pure (record job { payload = payload })

  unfoldable pub clear_logs : Io (Unit {0})
  unfolding context
  clear_logs = do
    c ← context
    n ← send (command ("DEL" ∷ (key c.prefix c.queue_name job.id <> ":logs") ∷ []))
    read_int n
    pure tt

  unfoldable pub get_state : Io (Job T J × JobState)
  unfolding context
  get_state = do
    c ← context
    state ← first_state c.prefix c.queue_name job.id state_checks
    pure (record job { state = state }, state)

  -- `is_completed`, `is_failed`, `is_delayed`, `is_active`, `is_waiting`, `is_paused`, `is_prioritized`
  unfoldable pub is_in : JobState → Io Bool
  unfolding get_state
  is_in state = get_state >>= λ found. pure (same_state found.1 state)

  unfoldable pub remove : Io (Unit {0})
  unfolding context
  remove = context >>= λ c. remove_job c.prefix c.queue_name job.id false

  unfoldable pub change_delay : ℕ → Io (Job T J)
  unfolding context token_or
  change_delay delay_ms =
      if same_state job.state active
      then (do
        token ← token_or "change_delay requires a lock token (only available in worker handler)"
        c ← context
        timestamp ← now_ms
        move_to_delayed c.prefix c.queue_name job.id token timestamp (timestamp + delay_ms) 10000
            job.attempts_made
        pure (record job { delay = delay_ms }))
      else throw (
          other (
            "change_delay requires job to be active, but job "
            <> job.id
            <> " is in state "
            <> to_text job.state))

  -- The method `change_priority`; the script's call has the name.
  unfoldable pub set_priority : ℕ → Io (Job T J)
  unfolding context
  set_priority priority = do
    c ← context
    timestamp ← now_ms
    change_priority c.prefix c.queue_name job.id priority 10000 timestamp
    pure (record job {
      priority = priority;
      opts = record (job.opts) { priority = if ltb 0 priority then some priority else none };
      state = if ltb 0 priority then prioritized else wait;
    })

  unfoldable pub promote_now : Io (Job T J)
  unfolding context
  promote_now = do
    c ← context
    timestamp ← now_ms
    promote c.prefix c.queue_name job.id 10000 timestamp
    pure (record job { state = wait; delay = 0 })

  unfoldable pub retry : Io (Unit {0})
  unfolding context token_or
  retry = do
    token ← token_or "retry requires a lock token (only available in worker handler)"
    c ← context
    retry_job c.prefix c.queue_name job.id token "RPUSH" 10000 job.attempts_made job.priority

  unfoldable pub move_to_finished_state : String → String → Io (Unit {0})
  unfolding context token_or
  move_to_finished_state result_data target = do
    token ← token_or "moving to a finished state requires a lock token (use Queue::get_next_job)"
    c ← context
    now ← now_ms
    move_to_finished c.prefix c.queue_name job.id token now result_data target 10000 false 30000
        ((job.attempts_made + 1) % 2 ^ 32) none none
    pure tt

  unfoldable pub move_to_completed : J → Io (Job T J)
  unfolding move_to_finished_state
  move_to_completed return_value = do
    json ← lift (serde.json.encode return_value)
    move_to_finished_state json "completed"
    pure (record job { return_value = some return_value; state = completed })

  unfoldable pub move_to_failed : String → Io (Job T J)
  unfolding move_to_finished_state
  move_to_failed reason = do
    move_to_finished_state reason "failed"
    pure (record job { failed_reason = some reason; state = failed })
