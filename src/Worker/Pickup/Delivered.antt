-- ===== src/Worker/Pickup/Delivered.antt =====
-- A job on its way from its hash to the task of a worker.
use bullmq_rs.Prelude.{◌≡◌, ap, ◌∙◌, String, some, List}
use bullmq_rs.Error.{ok}
use bullmq_rs.Types.State.{active}
use bullmq_rs.Job.{Job, Serde}
use bullmq_rs.Job.Hash.{to_redis_hash}
use bullmq_rs.Job.Hash.Restored.{IsStorable, from_redis_hash-to_redis_hash, to_redis_hash-AllNe}
use bullmq_rs.Scripts.Active.{parse_move_to_active_result}
use bullmq_rs.Scripts.Active.Answers.{
  job_answer, encoded, meaning, parse_move_to_active_result-encoded,
}
use bullmq_rs.Worker.Settle.{Config}
use bullmq_rs.Worker.Pickup.{started, of_hash, pick_up}

-- When the numbers of a job are of their types and serde_json reads back what it writes: the answer of
-- the script moveToActive that holds the hash of the job, as it was written, under an id has the worker
-- start a task with this job, under that id, active, with the worker's lock token and the context of its queue.
pub pick_up-delivers :
    {T J : Type 0} (serde : Serde T J) (config : Config) (job : Job T J) (id : String)
    (fields : List (String × String))
    → IsStorable serde job
    → to_redis_hash serde job ≡ ok fields
    → pick_up serde config (parse_move_to_active_result (encoded (job_answer id fields)))
      ≡ started (record job {
        id = id;
        state = active;
        ctx = some (record { prefix = config.prefix; queue_name = config.name });
        lock_token = some config.token;
      })
unfolding pick_up meaning
pick_up-delivers serde config job id fields s h =
    ap (pick_up serde config) (
      parse_move_to_active_result-encoded (job_answer id fields)
        (to_redis_hash-AllNe serde job id fields s h))
    ∙ ap (of_hash serde config id) (from_redis_hash-to_redis_hash serde job id fields s h)
