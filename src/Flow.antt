-- ===== src/Flow.antt =====
-- flow_producer.rs: the tree of a flow, before and after its preparation.
pub mod Builder
pub mod Prepare
pub mod Distinct
pub mod Accepted
pub mod Insert
pub mod Build
pub mod Add
pub mod Transaction
pub mod Atomic
pub mod Safety
pub mod Tree
use bullmq_rs.Prelude.{ℕ, ◌+◌, String, Option, none, some, List, [], ◌∷◌, ◌++◌, or_default}
use bullmq_rs.Dict.{lookup, insert, pair_eq}
use bullmq_rs.Types.Options.{JobOptions}

mutual
  pub data FlowJob (T : Type 0) : Type 0 where
    flow_job :
        (name queue_name : String) (payload : T) (prefix : Option String) (opts : Option JobOptions)
        → FlowJobs T
        → FlowJob T

  pub data FlowJobs (T : Type 0) : Type 0 where
    no_jobs : FlowJobs T
    and_job : FlowJob T → FlowJobs T → FlowJobs T

-- The fields of `PreparedNode` but its children.
pub record Prepared (T : Type 0) : Type 0 where
  pub id : String
  pub name : String
  pub queue_name : String
  pub prefix : String
  pub payload : T
  pub data_json : String
  pub opts : JobOptions
  pub opts_json : String
  pub timestamp : ℕ
  pub job_key : String
  pub parent_key : Option String
  pub parent_data : Option String
  pub delay_ms : ℕ
  pub priority : ℕ

mutual
  pub data PreparedNode (T : Type 0) : Type 0 where
    node : Prepared T → PreparedNodes T → PreparedNode T

  pub data PreparedNodes (T : Type 0) : Type 0 where
    no_nodes : PreparedNodes T
    and_node : PreparedNode T → PreparedNodes T → PreparedNodes T

unfoldable pub effective_prefix : Option String → String → String
effective_prefix explicit_prefix default_prefix = or_default explicit_prefix default_prefix

-- `opts.as_ref().and_then(|opts| opts.job_id.as_ref())`
abbrev pub custom_id : Option JobOptions → Option String
custom_id none = none
custom_id (some opts) = opts.job_id

-- `*counts.entry(k).or_insert(0) += 1`
unfoldable pub bump : String × String → List ((String × String) × ℕ) → List ((String × String) × ℕ)
bump k counts = insert k (or_default (lookup k counts) 0 + 1) counts

unfoldable pub count_node :
    Option String → String × String → List ((String × String) × ℕ) → List ((String × String) × ℕ)
unfolding bump
count_node none k counts = bump k counts
count_node (some id) k counts = counts

unfoldable mutual
  pub count_auto_ids :
      {T : Type 0}
      → FlowJob T
      → String
      → List ((String × String) × ℕ)
      → List ((String × String) × ℕ)
  count_auto_ids (flow_job name queue_name payload prefix opts children) default_prefix counts =
      count_children children default_prefix
        (count_node (custom_id opts) (effective_prefix prefix default_prefix, queue_name) counts)

  pub count_children :
      {T : Type 0}
      → FlowJobs T
      → String
      → List ((String × String) × ℕ)
      → List ((String × String) × ℕ)
  count_children no_jobs default_prefix counts = counts
  count_children (and_job job jobs) default_prefix counts =
      count_children jobs default_prefix (count_auto_ids job default_prefix counts)

unfoldable mutual
  pub collect_job_keys : {T : Type 0} → PreparedNode T → List String
  collect_job_keys (node n children) = n.job_key ∷ collect_keys children

  pub collect_keys : {T : Type 0} → PreparedNodes T → List String
  collect_keys no_nodes = []
  collect_keys (and_node n ns) = collect_job_keys n ++ collect_keys ns

abbrev pub Counts : Type 0
Counts = List ((String × String) × ℕ)
