-- ===== src/Job/Waiting.antt =====
-- job.rs: `wait_until_finished`, the dependencies, and `cleanup_job`.
pub mod Awaited
use bullmq_rs.Prelude.{
  ℕ, String, Bool, true, false, Option, none, some, List, [], ◌∷◌, map, or_default, if◌then◌else◌,
}
use bullmq_rs.Text.{◌<>◌, str_eq}
use bullmq_rs.Error.{BullmqError, other, Result, ok, err}
use bullmq_rs.Redis.{
  Value, Io, ◌>>=◌, ◌>>◌, pure, throw, lift, send, command, read_int, read_score, read_texts,
  read_text_option, read_hash,
}
use bullmq_rs.Job.{Job, JobContext, Serde}
use bullmq_rs.Job.Active.{context, scored}
use bullmq_rs.Scripts.{key}
use bullmq_rs.QueueEvents.{QueueEvent, completed, failed, json_of}

-- What `rx.recv()` gives: an event, a note that some were missed, or the end of the channel; `expired` is
-- where the `timeout` around the loop ends it.
pub data Received (J : Type 0) : Type 0 where
  event : QueueEvent J → Received J
  lagged closed expired : Received J

-- Whether the event tells that this job finished, and how.
unfoldable pub outcome_of : {J : Type 0} → String → QueueEvent J → Option (Result J)
outcome_of job_id (completed eid value) = if str_eq eid job_id then some (ok value) else none
outcome_of job_id (failed eid reason) =
    if str_eq eid job_id then some (err (other reason)) else none
outcome_of job_id _ = none

pub record JobDependencies (J : Type 0) : Type 0 where
  pub processed : List (String × J)
  pub unprocessed : List String

module _ {T J : Type 0} (serde : Serde T J) (null : J) (job : Job T J) where
  unfoldable pub check_finished : (prefix queue_name job_id : String) → Io (Option (Result J))
  check_finished prefix queue_name job_id = scored prefix queue_name job_id "completed" >>= λ done.
      if done
      then (do
        reply ← send (command ("HGET" ∷ key prefix queue_name job_id ∷ "returnvalue" ∷ []))
        rv ← read_text_option reply
        pure (some (ok (json_of serde.json.decode null rv))))
      else (scored prefix queue_name job_id "failed" >>= λ broken.
          if broken
          then (do
            reply ← send (command ("HGET" ∷ key prefix queue_name job_id ∷ "failedReason" ∷ []))
            reason ← read_text_option reply
            pure (some (err (other (or_default reason "Unknown failure")))))
          else pure none)

  -- The loop over what the channel gives, up to the end of what is given here. The answer is `none` where
  -- that leaves the loop waiting.
  unfoldable pub await_events : JobContext → List (Received J) → Io (Option J)
  unfolding check_finished outcome_of
  await_events c [] = pure none
  await_events c (event e ∷ rest) =
      let later_on = await_events c rest in
      elim (outcome_of job.id e) [ none ↦ later_on | some r ↦ (lift r >>= λ v. pure (some v)) ]
  await_events c (lagged ∷ rest) =
      let later_on = await_events c rest in
      check_finished c.prefix c.queue_name job.id >>= λ found. elim found [
        | none ↦ later_on
        | some r ↦ (lift r >>= λ v. pure (some v))
      ]
  await_events c (closed ∷ rest) = throw (other "QueueEvents closed")
  await_events c (expired ∷ rest) = throw (other "Job wait timed out")

  -- Subscribed before Redis is asked, so that the channel holds what happens from then on.
  unfoldable pub wait_until_finished : List (Received J) → Io (Option J)
  unfolding await_events check_finished
  wait_until_finished arriving = do
    c ← context serde job
    found ← check_finished c.prefix c.queue_name job.id
    elim found [ none ↦ await_events c arriving | some r ↦ (lift r >>= λ v. pure (some v)) ]

  unfoldable pub get_dependencies : Io (JobDependencies J)
  get_dependencies = do
    c ← context serde job
    hash ← send (command ("HGETALL" ∷ (key c.prefix c.queue_name job.id <> ":processed") ∷ []))
    raw ← read_hash hash
    set ← send (command ("SMEMBERS" ∷ (key c.prefix c.queue_name job.id <> ":dependencies") ∷ []))
    unprocessed ← read_texts set
    pure (record {
      processed = map (λ p. (p.0, json_of serde.json.decode null (some p.1))) raw;
      unprocessed = unprocessed;
    })

  unfoldable pub get_children_values : Io (List (String × J))
  unfolding get_dependencies
  get_children_values = get_dependencies >>= λ d. pure d.processed

-- `for suffix in ..`, one command each
unfoldable pub remove_each :
    (prefix queue_name : String) → (String → List String) → List String → Io (Unit {0})
remove_each prefix queue_name words [] = pure tt
remove_each prefix queue_name words (suffix ∷ suffixes) =
    send (command (words (key prefix queue_name suffix))) >>= λ reply.
    read_int reply >>= λ n. remove_each prefix queue_name words suffixes

unfoldable pub forget_parent : (job_key : String) → Option String → Io (Unit {0})
forget_parent job_key none = pure tt
forget_parent job_key (some parent_key) = do
  s ← send (command ("SREM" ∷ (parent_key <> ":dependencies") ∷ job_key ∷ []))
  read_int s
  h ← send (command ("HDEL" ∷ (parent_key <> ":processed") ∷ job_key ∷ []))
  read_int h
  pure tt

unfoldable pub cleanup_job : (prefix queue_name job_id : String) → Io (Unit {0})
unfolding remove_each forget_parent
cleanup_job prefix queue_name job_id = do
  reply ← send (command ("HGET" ∷ key prefix queue_name job_id ∷ "parentKey" ∷ []))
  parent_key ← read_text_option reply
  remove_each prefix queue_name (λ k. "LREM" ∷ k ∷ "0" ∷ job_id ∷ [])
      ("wait" ∷ "active" ∷ "paused" ∷ [])
  remove_each prefix queue_name (λ k. "ZREM" ∷ k ∷ job_id ∷ [])
      ("prioritized" ∷ "delayed" ∷ "completed" ∷ "failed" ∷ "waiting-children" ∷ [])
  forget_parent (key prefix queue_name job_id) parent_key
  n ← send (
      command (
        "DEL"
        ∷ key prefix queue_name job_id
        ∷ (key prefix queue_name job_id <> ":lock")
        ∷ (key prefix queue_name job_id <> ":logs")
        ∷ (key prefix queue_name job_id <> ":dependencies")
        ∷ (key prefix queue_name job_id <> ":processed")
        ∷ []))
  read_int n
  pure tt
