-- ===== src/Queue/Add.antt =====
-- queue.rs: `add`, `dispatch_add` and `add_bulk`.
pub mod Bulk
use bullmq_rs.Prelude.{
  ℕ, suc, ◌+◌, String, Option, none, some, List, [], ◌∷◌, ltb, if◌then◌else◌, or_default,
}
use bullmq_rs.Prelude.Int.{ℤ, pos, int_suc, int_sub}
use bullmq_rs.Text.{◌<>◌, to_string}
use bullmq_rs.Redis.{Io, ◌>>=◌, pure, lift, send, command, read_int}
use bullmq_rs.Types.Options.{JobOptions, DeduplicationOptions}
use bullmq_rs.Types.Worker.{default_max_events}
use bullmq_rs.Job.{Job, Serde, new}
use bullmq_rs.Scripts.{key, int_to_string}
use bullmq_rs.Scripts.Adds.{add_delayed_job, add_prioritized_job, add_standard_job}

-- `opts.as_ref().and_then(|o| o.job_id.clone())`
abbrev pub own_id : Option JobOptions → Option String
own_id none = none
own_id (some opts) = opts.job_id

-- A job's name, data and options.
abbrev pub NewJob : Type 0 → Type 0
NewJob T = String × T × Option JobOptions

-- `.filter(.. job_id is none).count()`
unfoldable pub count_none : {T : Type 0} → List (NewJob T) → ℕ
count_none [] = 0
count_none ((job_name, payload, opts) ∷ jobs) = elim (own_id opts) [
  | none ↦ suc (count_none jobs)
  | some id ↦ count_none jobs
]

-- A job's own id, or the next one of the range.
abbrev pub id_at : Option String → ℤ → String × ℤ
id_at (some id) next = (id, next)
id_at none next = (int_to_string next, int_suc next)

module _ (prefix name : String) where
  abbrev dedup_key : Option DeduplicationOptions → String
  dedup_key none = ""
  dedup_key (some d) = key prefix name ("de:" <> d.id)

  -- `INCR` where the job has no id of its own.
  unfoldable pub assigned_id : Option String → Io String
  assigned_id (some id) = pure id
  assigned_id none = do
    reply ← send (command ("INCR" ∷ key prefix name "id" ∷ []))
    id ← read_int reply
    pure (int_to_string id)

  -- `INCRBY` once for all jobs without an id; the range begins at `last_id - count + 1`.
  unfoldable pub reserve_ids : ℕ → Io ℤ
  reserve_ids count =
      if ltb 0 count
      then (do
        reply ← send (command ("INCRBY" ∷ key prefix name "id" ∷ to_string count ∷ []))
        last_id ← read_int reply
        pure (int_suc (int_sub last_id count)))
      else pure (pos 0)

  module _ {T J : Type 0} (serde : Serde T J) where
    add_by : String → String → Job T J → Io String
    add_by data_json opts_json job =
        if ltb 0 job.delay
        then add_delayed_job prefix name job.id job.name data_json job.timestamp opts_json
            default_max_events (job.timestamp + job.delay) (dedup_key job.opts.deduplication)
        else if ltb 0 job.priority
        then add_prioritized_job prefix name job.id job.name data_json job.timestamp opts_json
            default_max_events (dedup_key job.opts.deduplication)
        else add_standard_job prefix name job.id job.name data_json job.timestamp opts_json
            default_max_events (dedup_key job.opts.deduplication)

    unfoldable pub dispatch_add : Job T J → Io String
    unfolding add_by
    dispatch_add job = do
      data_json ← lift (serde.payload.encode job.payload)
      opts_json ← lift (serde.options.encode job.opts)
      add_by data_json opts_json job

    -- The job is created with its id, added, and gets the id that the script answers.
    unfoldable pub create : String → String → T → Option JobOptions → Io (Job T J)
    unfolding dispatch_add
    create id job_name payload opts = do
      job ← new id job_name payload opts
      returned ← dispatch_add job
      pure
          (record job { id = returned; ctx = some (record { prefix = prefix; queue_name = name }) })

    unfoldable pub add : String → T → Option JobOptions → Io (Job T J)
    unfolding create assigned_id
    add job_name payload opts = do id ← assigned_id (own_id opts); create id job_name payload opts

    unfoldable pub create_all : List (NewJob T) → ℤ → Io (List (Job T J))
    create_all [] next = pure []
    create_all ((job_name, payload, opts) ∷ jobs) next =
        let (id, rest) = id_at (own_id opts) next in
        (do
          job ← create id job_name payload opts
          created ← create_all jobs rest
          pure (job ∷ created))

    unfoldable pub add_bulk : List (NewJob T) → Io (List (Job T J))
    unfolding count_none create_all
    add_bulk [] = pure []
    add_bulk (job ∷ jobs) = do
      next ← reserve_ids (count_none (job ∷ jobs))
      create_all (job ∷ jobs) next
