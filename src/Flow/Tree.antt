-- ===== src/Flow/Tree.antt =====
-- The tree that the creation of a flow returns, and the scripts that it sent.
pub mod Built
pub mod Whole
use bullmq_rs.Prelude.{
  ℕ, ◌≡◌, refl, sym, ap, ◌∙◌, String, Bool, true, false, Option, none, some, List, [], ◌∷◌, ◌++◌,
  ltb, or_default, if◌then◌else◌,
}
use bullmq_rs.Error.{BullmqError, Result, ok, err}
use bullmq_rs.Redis.{
  Value, nil, array, Values, int, bulk, simple, server_error, opaque, to_list, Request, command,
  Env, Io, send, read_bool, printer, lift, pure, throw, ◌>>=◌, ◌>>◌, or_cleaned,
}
use bullmq_rs.Redis.Ends.{
  Ends, Ends-pure, Ends-throw, Ends-if, Ends-bind, Ends-lift, Ends-send, Ends-now_ms,
  Ends-or_cleaned, Ends-weaken, Ends-ok,
}
use bullmq_rs.Types.State.{
  JobState, wait, paused, prioritized, waiting_children, delayed, active, completed, failed,
}
use bullmq_rs.Job.{Job, new, new_at, option_millis}
use bullmq_rs.Scripts.Added.{added_by, added, script_by, Anyway, same_lift, adding}
use bullmq_rs.Scripts.Adds.{
  add_standard_job_with_parent, add_prioritized_job_with_parent, add_delayed_job_with_parent,
  add_parent_job,
}
use bullmq_rs.Flow.{
  FlowJob, FlowJobs, flow_job, no_jobs, and_job, Prepared, PreparedNode, PreparedNodes, node,
  no_nodes, and_node,
}
use bullmq_rs.Flow.Prepare.{FlowSerde}
use bullmq_rs.Flow.Insert.{
  ensure_absent, ensure_job_keys_do_not_exist, ensure_children, insert_leaf, insert_parent,
  add_dependencies, queue_insert, insert_children, validate_exec_result, first_error,
}
use bullmq_rs.Flow.Build.{
  FlowNode, FlowNodes, flow_node, no_flow, and_flow, is_leaf, built_state, build_flow_node,
  build_children,
}
use bullmq_rs.Flow.Add.{transact}

-- The script that creates a job in its first state.
unfoldable pub script_of : JobState → String
script_of delayed = "addDelayedJob"
script_of prioritized = "addPrioritizedJob"
script_of waiting_children = "addParentJob"
script_of _ = "addStandardJob"

-- A script for each job of the tree, parents first, over those of `before`, which are older.
unfoldable mutual
  unfolding script_of

  pub tree_scripts : {T J : Type 0} → FlowNode T J → List (String × String) → List (String × String)
  tree_scripts (flow_node job children) before =
      trees_scripts children ((script_of job.state, job.id) ∷ before)

  pub trees_scripts :
      {T J : Type 0} → FlowNodes T J → List (String × String) → List (String × String)
  trees_scripts no_flow before = before
  trees_scripts (and_flow f fs) before = trees_scripts fs (tree_scripts f before)

-- The scripts that the prepared flow calls for.
node_script : {T : Type 0} → Prepared T → PreparedNodes T → String
node_script n no_nodes = script_by n.delay_ms n.priority
node_script n (and_node c rest) = "addParentJob"

mutual
  unfolding node_script

  plan : {T : Type 0} → PreparedNode T → List (String × String) → List (String × String)
  plan (node n children) before = plan_all children ((node_script n children, n.id) ∷ before)

  plan_all : {T : Type 0} → PreparedNodes T → List (String × String) → List (String × String)
  plan_all no_nodes before = before
  plan_all (and_node n ns) before = plan_all ns (plan n before)

-- A prepared job has the delay and the priority of its options, as `prepare_node` sets them.
abbrev mutual
  pub HasOptions : {T : Type 0} → PreparedNode T → Type 0
  HasOptions (node n children) =
      (n.delay_ms ≡ option_millis n.opts.delay)
      × ((n.priority ≡ or_default n.opts.priority 0) × HaveOptions children)

  pub HaveOptions : {T : Type 0} → PreparedNodes T → Type 0
  HaveOptions no_nodes = Unit
  HaveOptions (and_node n ns) = HasOptions n × HaveOptions ns

module _ (env : Env) where
  abbrev Adds : {A : Type 0} → List (String × String) → List Request → Io A → Type 0
  Adds qs log m = Ends env log (λ _ l. added l ≡ qs) (Anyway env) m

  command-Adds :
      (qs : List (String × String)) (log : List Request) (words : List String)
      → added log ≡ qs
      → Adds qs log (send (command words))
  unfolding added added_by
  command-Adds qs log words h = Ends-send log _ (λ v _. h) (λ e _. tt)

  read_bool-Adds :
      (qs : List (String × String)) (log : List Request) (v : Value)
      → added log ≡ qs
      → Adds qs log (read_bool v)
  unfolding read_bool lift
  read_bool-Adds qs log v h = record { at = (same_lift env qs log (env.to_bool v) h).at }

  printer-Adds :
      (qs : List (String × String)) (log : List Request) → added log ≡ qs → Adds qs log printer
  unfolding printer
  printer-Adds qs log h = record { at = h }

  ensure_absent-Adds :
      (k : String) (qs : List (String × String)) (log : List Request)
      → added log ≡ qs
      → Adds qs log (ensure_absent k)
  unfolding ensure_absent
  ensure_absent-Adds k qs log h = Ends-bind _ _ _ (command-Adds qs log _ h) λ v log1 h1.
      Ends-bind _ _ _ (read_bool-Adds qs log1 v h1) λ exists log2 h2.
        Ends-if log2 exists _ _ (λ _. Ends-throw log2 _ tt) (λ _. Ends-pure log2 _ h2)

  validate-Adds :
      (v : Value) (qs : List (String × String)) (log : List Request)
      → added log ≡ qs
      → Adds qs log (validate_exec_result v)
  unfolding validate_exec_result
  validate-Adds nil qs log h = Ends-throw log _ tt
  validate-Adds (array vs) qs log h = same_lift env qs log _ h
  validate-Adds _ qs log h = Ends-bind _ _ _ (printer-Adds qs log h) λ debug l _. Ends-throw l _ tt

  mutual
    unfolding ensure_job_keys_do_not_exist

    ensure-Adds :
        {T : Type 0} (n : PreparedNode T) (qs : List (String × String)) (log : List Request)
        → added log ≡ qs
        → Adds qs log (ensure_job_keys_do_not_exist n)
    ensure-Adds (node n children) qs log h =
        Ends-bind _ _ _ (ensure_absent-Adds _ qs log h)
          λ u log1 h1. ensure_children-Adds children qs log1 h1

    ensure_children-Adds :
        {T : Type 0} (ns : PreparedNodes T) (qs : List (String × String)) (log : List Request)
        → added log ≡ qs
        → Adds qs log (ensure_children ns)
    ensure_children-Adds no_nodes qs log h = Ends-pure log _ h
    ensure_children-Adds (and_node n ns) qs log h =
        Ends-bind _ _ _ (ensure-Adds n qs log h) λ u log1 h1. ensure_children-Adds ns qs log1 h1

  insert_leaf-Adds :
      {T : Type 0} (n : Prepared T) (qs : List (String × String)) (log : List Request)
      → added log ≡ qs
      → Adds ((script_by n.delay_ms n.priority, n.id) ∷ qs) log (insert_leaf n)
  unfolding insert_leaf script_by add_standard_job_with_parent add_prioritized_job_with_parent
      add_delayed_job_with_parent added_by
  insert_leaf-Adds n qs log h =
      Ends-if log (ltb 0 n.delay_ms) _ _ (λ d. adding env _ log _ _ _ _ (rw (d, h) refl))
        (λ d.
          Ends-if log (ltb 0 n.priority) _ _ (λ p. adding env _ log _ _ _ _ (rw (d, p, h) refl))
            (λ p. adding env _ log _ _ _ _ (rw (d, p, h) refl)))

  insert_parent-Adds :
      {T : Type 0} (n : Prepared T) (qs : List (String × String)) (log : List Request)
      → added log ≡ qs
      → Adds (("addParentJob", n.id) ∷ qs) log (insert_parent n)
  unfolding insert_parent add_parent_job added_by
  insert_parent-Adds n qs log h = adding env _ log _ _ _ _ (rw h refl)

  add_dependencies-Adds :
      {T : Type 0} (k : String) (ns : PreparedNodes T) (qs : List (String × String))
      (log : List Request)
      → added log ≡ qs
      → Adds qs log (add_dependencies k ns)
  unfolding add_dependencies
  add_dependencies-Adds k no_nodes qs log h = Ends-pure log _ h
  add_dependencies-Adds k (and_node n ns) qs log h =
      Ends-bind _ _ _ (command-Adds qs log _ h) λ u log1 h1. add_dependencies-Adds k ns qs log1 h1

  mutual
    unfolding queue_insert plan node_script

    queue_insert-Adds :
        {T : Type 0} (n : PreparedNode T) (qs : List (String × String)) (log : List Request)
        → added log ≡ qs
        → Adds (plan n qs) log (queue_insert n)
    queue_insert-Adds (node n no_nodes) qs log h =
        Ends-bind _ _ _ (insert_leaf-Adds n qs log h) λ u log1 h1. Ends-pure log1 _ h1
    queue_insert-Adds (node n (and_node child rest)) qs log h =
        Ends-bind _ _ _ (insert_parent-Adds n qs log h) λ u log1 h1.
          Ends-bind _ _ _ (add_dependencies-Adds _ (and_node child rest) _ log1 h1) λ u2 log2 h2.
            Ends-bind _ _ _ (queue_insert-Adds child _ log2 h2)
              λ u3 log3 h3. insert_children-Adds rest _ log3 h3

    insert_children-Adds :
        {T : Type 0} (ns : PreparedNodes T) (qs : List (String × String)) (log : List Request)
        → added log ≡ qs
        → Adds (plan_all ns qs) log (insert_children ns)
    insert_children-Adds no_nodes qs log h = Ends-pure log _ h
    insert_children-Adds (and_node n ns) qs log h =
        Ends-bind _ _ _ (queue_insert-Adds n qs log h)
          λ u log1 h1. insert_children-Adds ns _ log1 h1
