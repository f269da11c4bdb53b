-- ===== src/Flow/Build.antt =====
-- flow_producer.rs, `build_flow_node`: the tree of jobs that the caller gets.
use bullmq_rs.Prelude.{ℕ, Bool, true, false, some, ltb, if◌then◌else◌}
use bullmq_rs.Redis.{Io, ◌>>=◌, pure}
use bullmq_rs.Types.State.{JobState, wait, prioritized, waiting_children, delayed}
use bullmq_rs.Job.{Job, new}
use bullmq_rs.Flow.{PreparedNode, PreparedNodes, node, no_nodes, and_node}

mutual
  pub data FlowNode (T J : Type 0) : Type 0 where
    flow_node : Job T J → FlowNodes T J → FlowNode T J

  pub data FlowNodes (T J : Type 0) : Type 0 where
    no_flow : FlowNodes T J
    and_flow : FlowNode T J → FlowNodes T J → FlowNodes T J

abbrev pub is_leaf : {T : Type 0} → PreparedNodes T → Bool
is_leaf no_nodes = true
is_leaf (and_node n ns) = false

unfoldable pub built_state : Bool → ℕ → ℕ → JobState
built_state false delay priority = waiting_children
built_state true delay priority =
    if ltb 0 delay then delayed else if ltb 0 priority then prioritized else wait

module _ {T J : Type 0} where
  unfoldable mutual
    unfolding built_state

    pub build_flow_node : PreparedNode T → Io (FlowNode T J)
    build_flow_node (node n children) = do
      job ← new {T = T} {J = J} n.id n.name n.payload (some n.opts)
      nodes ← build_children children
      pure (
          flow_node
            (record job {
              timestamp = n.timestamp;
              state = built_state (is_leaf children) job.delay job.priority;
              ctx = some (record { prefix = n.prefix; queue_name = n.queue_name });
            })
            nodes)

    pub build_children : PreparedNodes T → Io (FlowNodes T J)
    build_children no_nodes = pure no_flow
    build_children (and_node n ns) = do
      f ← build_flow_node n
      fs ← build_children ns
      pure (and_flow f fs)
