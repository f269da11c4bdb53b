-- ===== src/Flow/Prepare.antt =====
-- flow_producer.rs, `prepare_node`: ids, keys and JSON texts of a flow's jobs, parents first.
use bullmq_rs.Prelude.{String, Option, none, some, List, ◌∷◌, or_default, if◌then◌else◌}
use bullmq_rs.Prelude.Int.{ℤ, int_suc}
use bullmq_rs.Text.{◌<>◌}
use bullmq_rs.Error.{other, Result}
use bullmq_rs.Dict.{lookup, insert, contains, pair_eq, string_eq}
use bullmq_rs.Redis.{Io, ◌>>=◌, pure, throw, lift, now_ms}
use bullmq_rs.Types.Options.{JobOptions, default_options}
use bullmq_rs.Job.{Codec, option_millis}
use bullmq_rs.Scripts.{key, int_to_string}
use bullmq_rs.Flow.{
  FlowJob, FlowJobs, flow_job, no_jobs, and_job, PreparedNode, PreparedNodes, node, no_nodes,
  and_node, effective_prefix,
}

-- `descriptor id queue` is the text of `json!({"id": id, "queue": queue})`.
pub record FlowSerde (T : Type 0) : Type 0 where
  pub payload : Codec T
  pub options : Codec JobOptions
  pub descriptor : String → String → Result String

abbrev pub Ids : Type 0
Ids = List ((String × String) × ℤ)

abbrev pub parent_field : {A : Type 0} → (String × String → A) → Option (String × String) → Option A
parent_field f none = none
parent_field f (some p) = some (f p)

-- A custom id, or the next one of the queue's range.
unfoldable pub take_auto_id : String × String → Option ℤ → Ids → Io (String × Ids)
take_auto_id k none ids =
    throw (other ("Missing auto-id range for queue '" <> k.0 <> ":" <> k.1 <> "'"))
take_auto_id k (some next) ids = pure (int_to_string next, insert k (int_suc next) ids)

unfoldable pub assign_id : Option String → String × String → Ids → Io (String × Ids)
unfolding take_auto_id
assign_id (some id) k ids = pure (id, ids)
assign_id none k ids = take_auto_id k (lookup k ids) ids

-- `seen_job_keys.insert`, refused for a key that is in the set.
unfoldable pub mark_seen : String → List String → Io (List String)
mark_seen job_key seen =
    if contains job_key seen
    then throw (other ("Job key '" <> job_key <> "' is duplicated within the flow"))
    else pure (job_key ∷ seen)

module _ {T : Type 0} (serde : FlowSerde T) (default_prefix : String) where
  unfoldable mutual
    pub prepare_node :
        FlowJob T
        → Option (String × String)
        → Ids
        → List String
        → Io (PreparedNode T × Ids × List String)
    prepare_node (flow_job name queue_name payload explicit opts children) parent next_ids seen = do
      let prefix = effective_prefix explicit default_prefix
      let o = or_default opts default_options
      (id, ids) ← assign_id o.job_id (prefix, queue_name) next_ids
      timestamp ← now_ms
      let job_key = key prefix queue_name id
      marked ← mark_seen job_key seen
      descriptor ← lift (serde.descriptor id (prefix <> ":" <> queue_name))
      data_json ← lift (serde.payload.encode payload)
      opts_json ← lift (serde.options.encode o)
      (nodes, rest_ids, all_seen) ← prepare_children children (job_key, descriptor) ids marked
      pure (
        node
            (record {
              id = id;
              name = name;
              queue_name = queue_name;
              prefix = prefix;
              payload = payload;
              data_json = data_json;
              opts = o;
              opts_json = opts_json;
              timestamp = timestamp;
              job_key = job_key;
              parent_key = parent_field (λ p. p.0) parent;
              parent_data = parent_field (λ p. p.1) parent;
              delay_ms = option_millis o.delay;
              priority = or_default o.priority 0;
            })
            nodes,
        rest_ids,
        all_seen,
      )

    pub prepare_children :
        FlowJobs T → String × String → Ids → List String → Io (PreparedNodes T × Ids × List String)
    prepare_children no_jobs parent ids seen = pure (no_nodes, ids, seen)
    prepare_children (and_job job jobs) parent ids seen = do
      (n, ids', seen') ← prepare_node job (some parent) ids seen
      (ns, ids'', seen'') ← prepare_children jobs parent ids' seen'
      pure (and_node n ns, ids'', seen'')
