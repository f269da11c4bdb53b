-- ===== src/Flow/Atomic.antt =====
-- `FlowProducer::add` writes the jobs of a flow inside one transaction, and leaves none open.
use bullmq_rs.Prelude.{refl, String, Option, none, some, List, [], ◌∷◌, ltb}
use bullmq_rs.Redis.{Value, nil, array, Env, ◌>>=◌, pure}
use bullmq_rs.Prelude.Int.{ℤ}
use bullmq_rs.Dict.{lookup, pair_eq}
use bullmq_rs.Types.Options.{JobOptions}
use bullmq_rs.Job.{new}
use bullmq_rs.Scripts.{invoke, load}
use bullmq_rs.Scripts.Adds.{
  add_standard_job_with_parent, add_prioritized_job_with_parent, add_delayed_job_with_parent,
  add_parent_job,
}
use bullmq_rs.Flow.{
  Counts, FlowJob, FlowJobs, flow_job, no_jobs, and_job, Prepared, PreparedNode, PreparedNodes,
  node, no_nodes, and_node,
}
use bullmq_rs.Flow.Prepare.{
  FlowSerde, Ids, take_auto_id, assign_id, mark_seen, prepare_node, prepare_children,
}
use bullmq_rs.Flow.Insert.{
  ensure_absent, ensure_job_keys_do_not_exist, ensure_children, insert_leaf, insert_parent,
  add_dependencies, queue_insert, insert_children, validate_exec_result,
}
use bullmq_rs.Flow.Build.{build_flow_node, build_children}
use bullmq_rs.Flow.Add.{reserve, load_scripts}
use bullmq_rs.Flow.Transaction.{
  idle, watching, queued, is_write, after_request, Stays, Stays-send, Stays-pure, Stays-throw,
  Stays-lift, Stays-now_ms, Stays-if, Stays-bind, Stays-invoke, Stays-read_bool, Stays-read_int,
  Stays-printer,
}

module _ (env : Env) where
  ensure_absent-Stays : (k : String) → Stays env watching (ensure_absent k)
  unfolding ensure_absent after_request is_write
  ensure_absent-Stays k = Stays-bind env _ _ _ (Stays-send env watching _ (λ w. cc) refl) λ reply.
      Stays-bind env _ _ _ (Stays-read_bool env _ reply)
        λ exists. Stays-if env _ exists _ _ (Stays-throw env _ _) (Stays-pure env _ _)

  added-Stays :
      (name : String) (keys args : List String) (f : Value → String)
      → Stays env queued (invoke name keys args >>= λ v. pure (f v))
  added-Stays name keys args f =
      Stays-bind env _ _ _ (Stays-invoke env queued name keys args refl) (λ v. Stays-pure env _ _)

  module _ {T : Type 0} where
    mutual
      unfolding ensure_job_keys_do_not_exist

      pub ensure-Stays : (n : PreparedNode T) → Stays env watching (ensure_job_keys_do_not_exist n)
      ensure-Stays (node n children) =
          Stays-bind env _ _ _ (ensure_absent-Stays n.job_key) (λ _. ensure_children-Stays children)

      ensure_children-Stays : (ns : PreparedNodes T) → Stays env watching (ensure_children ns)
      ensure_children-Stays no_nodes = Stays-pure env _ _
      ensure_children-Stays (and_node n ns) =
          Stays-bind env _ _ _ (ensure-Stays n) (λ _. ensure_children-Stays ns)

    insert_leaf-Stays : (n : Prepared T) → Stays env queued (insert_leaf n)
    unfolding insert_leaf add_standard_job_with_parent add_prioritized_job_with_parent
        add_delayed_job_with_parent
    insert_leaf-Stays n =
        Stays-if env _ (ltb 0 n.delay_ms) _ _ (added-Stays _ _ _ _)
          (Stays-if env _ (ltb 0 n.priority) _ _ (added-Stays _ _ _ _) (added-Stays _ _ _ _))

    insert_parent-Stays : (n : Prepared T) → Stays env queued (insert_parent n)
    unfolding insert_parent add_parent_job
    insert_parent-Stays n = added-Stays _ _ _ _

    add_dependencies-Stays :
        (k : String) (ns : PreparedNodes T) → Stays env queued (add_dependencies k ns)
    unfolding add_dependencies after_request
    add_dependencies-Stays k no_nodes = Stays-pure env _ _
    add_dependencies-Stays k (and_node n ns) =
        Stays-bind env _ _ _ (Stays-send env queued _ (λ w. refl) refl)
          (λ _. add_dependencies-Stays k ns)

    mutual
      unfolding queue_insert

      pub queue_insert-Stays : (n : PreparedNode T) → Stays env queued (queue_insert n)
      queue_insert-Stays (node n no_nodes) =
          Stays-bind env _ _ _ (insert_leaf-Stays n) (λ _. Stays-pure env _ _)
      queue_insert-Stays (node n (and_node child rest)) =
          Stays-bind env _ _ _ (insert_parent-Stays n) λ _.
            Stays-bind env _ _ _ (add_dependencies-Stays _ (and_node child rest))
              λ _. Stays-bind env _ _ _ (queue_insert-Stays child) λ _. insert_children-Stays rest

      insert_children-Stays : (ns : PreparedNodes T) → Stays env queued (insert_children ns)
      insert_children-Stays no_nodes = Stays-pure env _ _
      insert_children-Stays (and_node n ns) =
          Stays-bind env _ _ _ (queue_insert-Stays n) (λ _. insert_children-Stays ns)

  module _ {T J : Type 0} where
    new-Stays :
        (id name : String) (payload : T) (o : Option JobOptions)
        → Stays env idle (new {J = J} id name payload o)
    unfolding new
    new-Stays id name payload o =
        Stays-bind env _ _ _ (Stays-now_ms env _) (λ now. Stays-pure env _ _)

    mutual
      unfolding build_flow_node

      pub build-Stays : (n : PreparedNode T) → Stays env idle (build_flow_node {J = J} n)
      build-Stays (node n children) =
          Stays-bind env _ _ _ (new-Stays n.id n.name n.payload (some n.opts))
            λ job. Stays-bind env _ _ _ (build_children-Stays children) λ nodes. Stays-pure env _ _

      build_children-Stays : (ns : PreparedNodes T) → Stays env idle (build_children {J = J} ns)
      build_children-Stays no_nodes = Stays-pure env _ _
      build_children-Stays (and_node n ns) =
          Stays-bind env _ _ _ (build-Stays n)
            λ f. Stays-bind env _ _ _ (build_children-Stays ns) λ fs. Stays-pure env _ _

  pub validate-Stays : (v : Value) → Stays env idle (validate_exec_result v)
  unfolding validate_exec_result
  validate-Stays nil = Stays-throw env _ _
  validate-Stays (array vs) = Stays-lift env _ _
  validate-Stays v = Stays-bind env _ _ _ (Stays-printer env _) (λ debug. Stays-throw env _ _)

  pub reserve-Stays : (counts : Counts) (ids : Ids) → Stays env idle (reserve counts ids)
  unfolding reserve after_request is_write
  reserve-Stays [] ids = Stays-pure env _ _
  reserve-Stays ((queue, count) ∷ counts) ids =
      Stays-bind env _ _ _ (Stays-send env _ _ (λ w. cc) refl)
        λ reply. Stays-bind env _ _ _ (Stays-read_int env _ reply) λ last_id. reserve-Stays counts _

  load-Stays : (name : String) → Stays env idle (load name)
  unfolding load after_request is_write
  load-Stays name =
      Stays-if env _ _ _ _
        (Stays-bind env _ _ _ (Stays-send env _ _ (λ w. cc) refl) (λ v. Stays-pure env _ _))
        (Stays-throw env _ _)

  pub load_scripts-Stays : Stays env idle load_scripts
  unfolding load_scripts
  load_scripts-Stays = Stays-bind env _ _ _ (load-Stays _) λ _.
      Stays-bind env _ _ _ (load-Stays _) λ _. Stays-bind env _ _ _ (load-Stays _) λ _. load-Stays _

  assign_id-Stays :
      (o : Option String) (k : String × String) (ids : Ids) → Stays env idle (assign_id o k ids)
  unfolding assign_id
  assign_id-Stays (some id) k ids = Stays-pure env _ _
  assign_id-Stays none k ids = taken (lookup k ids)
    where
      taken : (next : Option ℤ) → Stays env idle (take_auto_id k next ids)
      taken none = unfold take_auto_id in Stays-throw env _ _
      taken (some n) = unfold take_auto_id in Stays-pure env _ _

  mark_seen-Stays : (k : String) (seen : List String) → Stays env idle (mark_seen k seen)
  unfolding mark_seen
  mark_seen-Stays k seen = Stays-if env _ _ _ _ (Stays-throw env _ _) (Stays-pure env _ _)

  module _ {T : Type 0} (serde : FlowSerde T) (d : String) where
    mutual
      unfolding prepare_node

      pub prepare-Stays :
          (job : FlowJob T) (parent : Option (String × String)) (ids : Ids) (seen : List String)
          → Stays env idle (prepare_node serde d job parent ids seen)
      prepare-Stays (flow_job name queue_name payload explicit opts children) parent ids seen =
          Stays-bind env _ _ _ (assign_id-Stays _ _ ids) λ a.
            Stays-bind env _ _ _ (Stays-now_ms env _) λ now.
              Stays-bind env _ _ _ (mark_seen-Stays _ seen) λ marked.
                Stays-bind env _ _ _ (Stays-lift env _ _) λ descriptor.
                  Stays-bind env _ _ _ (Stays-lift env _ _) λ data_json.
                    Stays-bind env _ _ _ (Stays-lift env _ _) λ opts_json.
                      Stays-bind env _ _ _ (prepare_children-Stays children _ a.1 marked)
                        λ r. Stays-pure env _ _

      prepare_children-Stays :
          (jobs : FlowJobs T) (parent : String × String) (ids : Ids) (seen : List String)
          → Stays env idle (prepare_children serde d jobs parent ids seen)
      prepare_children-Stays no_jobs parent ids seen = Stays-pure env _ _
      prepare_children-Stays (and_job job jobs) parent ids seen =
          Stays-bind env _ _ _ (prepare-Stays job (some parent) ids seen) λ r.
            Stays-bind env _ _ _ (prepare_children-Stays jobs parent r.1 r.2)
              λ rs. Stays-pure env _ _
