-- ===== src/Scripts/Adds.antt =====
-- scripts/commands: add_standard_job.rs, add_prioritized_job.rs, add_delayed_job.rs, add_parent_job.rs.
use bullmq_rs.Prelude.{ℕ, String, Option, none, some, List, [], ◌∷◌, or_default}
use bullmq_rs.Text.{◌<>◌, to_string}
use bullmq_rs.Redis.{Value, Io, ◌>>=◌, pure}
use bullmq_rs.Scripts.{key, invoke}
use bullmq_rs.Scripts.Decode.{text?}

-- The id that the script answers with, and the job's own where it answers with no text.
unfoldable pub returned_id : String → Value → String
unfolding text?
returned_id job_id v = or_default (text? v) job_id

-- `parent.unwrap_or(("", ""))`
abbrev parent_pair : Option (String × String) → String × String
parent_pair none = ("", "")
parent_pair (some p) = p

module _ (prefix queue_name job_id name data_json : String) (timestamp : ℕ) (opts_json : String)
    (max_events : ℕ) where
  wait_keys : List String
  wait_keys =
      key prefix queue_name "wait"
      ∷ key prefix queue_name "meta"
      ∷ key prefix queue_name "id"
      ∷ key prefix queue_name "events"
      ∷ key prefix queue_name "marker"
      ∷ key prefix queue_name "stalled"
      ∷ (prefix <> ":" <> queue_name <> ":" <> job_id)
      ∷ key prefix queue_name "active"
      ∷ key prefix queue_name "completed"
      ∷ []

  unfoldable pub add_standard_job_with_parent : Option (String × String) → String → Io String
  unfolding wait_keys returned_id
  add_standard_job_with_parent parent dedup_key =
      let (parent_key, parent_data) = parent_pair parent in
      invoke "addStandardJob" wait_keys (
        name
        ∷ data_json
        ∷ to_string timestamp
        ∷ job_id
        ∷ opts_json
        ∷ to_string max_events
        ∷ parent_key
        ∷ parent_data
        ∷ dedup_key
        ∷ [])
      >>= λ result. pure (returned_id job_id result)

  unfoldable pub add_standard_job : String → Io String
  unfolding add_standard_job_with_parent
  add_standard_job dedup_key = add_standard_job_with_parent none dedup_key

  unfoldable pub add_prioritized_job_with_parent : Option (String × String) → String → Io String
  unfolding wait_keys returned_id
  add_prioritized_job_with_parent parent dedup_key =
      let (parent_key, parent_data) = parent_pair parent in
      invoke "addPrioritizedJob" wait_keys (
        name
        ∷ data_json
        ∷ to_string timestamp
        ∷ job_id
        ∷ opts_json
        ∷ to_string max_events
        ∷ key prefix queue_name "prioritized"
        ∷ key prefix queue_name "pc"
        ∷ parent_key
        ∷ parent_data
        ∷ dedup_key
        ∷ [])
      >>= λ result. pure (returned_id job_id result)

  unfoldable pub add_prioritized_job : String → Io String
  unfolding add_prioritized_job_with_parent
  add_prioritized_job dedup_key = add_prioritized_job_with_parent none dedup_key

  unfoldable pub add_delayed_job_with_parent : ℕ → Option (String × String) → String → Io String
  unfolding returned_id
  add_delayed_job_with_parent delayed_timestamp parent dedup_key =
      let (parent_key, parent_data) = parent_pair parent in
      invoke "addDelayedJob"
        (key prefix queue_name "delayed"
          ∷ key prefix queue_name "meta"
          ∷ key prefix queue_name "id"
          ∷ key prefix queue_name "events"
          ∷ key prefix queue_name "marker"
          ∷ (prefix <> ":" <> queue_name <> ":" <> job_id)
          ∷ [])
        (name
          ∷ data_json
          ∷ to_string timestamp
          ∷ job_id
          ∷ opts_json
          ∷ to_string max_events
          ∷ to_string delayed_timestamp
          ∷ parent_key
          ∷ parent_data
          ∷ dedup_key
          ∷ [])
      >>= λ result. pure (returned_id job_id result)

  unfoldable pub add_delayed_job : ℕ → String → Io String
  unfolding add_delayed_job_with_parent
  add_delayed_job delayed_timestamp dedup_key =
      add_delayed_job_with_parent delayed_timestamp none dedup_key

  abbrev parent_triple : Option (String × String × String) → String × String × String
  parent_triple none = ("", "", "")
  parent_triple (some p) = p

  unfoldable pub add_parent_job : Option (String × String × String) → Io String
  unfolding returned_id
  add_parent_job parent =
      let (parent_dependencies_key, parent_key, parent_data) = parent_triple parent in
      invoke "addParentJob"
        (key prefix queue_name "waiting-children"
          ∷ key prefix queue_name "meta"
          ∷ key prefix queue_name "id"
          ∷ key prefix queue_name "events"
          ∷ (prefix <> ":" <> queue_name <> ":" <> job_id)
          ∷ parent_dependencies_key
          ∷ [])
        (name
          ∷ data_json
          ∷ to_string timestamp
          ∷ job_id
          ∷ opts_json
          ∷ to_string max_events
          ∷ parent_key
          ∷ parent_data
          ∷ [])
      >>= λ result. pure (returned_id job_id result)
