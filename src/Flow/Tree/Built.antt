-- ===== src/Flow/Tree/Built.antt =====
-- The tree that a transaction returns is the one that its scripts created.
use bullmq_rs.Prelude.{
  ℕ, ◌≡◌, refl, sym, ◌∙◌, String, Bool, true, false, some, List, ltb, or_default, if◌then◌else◌,
}
use bullmq_rs.Redis.{Request, Env}
use bullmq_rs.Redis.Ends.{Ends, Ends-pure, Ends-bind, Ends-now_ms, Ends-or_cleaned, Ends-weaken}
use bullmq_rs.Types.State.{wait, prioritized, delayed}
use bullmq_rs.Job.{new, new_at, option_millis}
use bullmq_rs.Scripts.Added.{added_by, added, script_by, Anyway}
use bullmq_rs.Flow.{Prepared, PreparedNode, PreparedNodes, node, no_nodes, and_node}
use bullmq_rs.Flow.Prepare.{FlowSerde}
use bullmq_rs.Flow.Build.{is_leaf, built_state, build_flow_node, build_children}
use bullmq_rs.Flow.Add.{transact}
use bullmq_rs.Flow.Tree.{
  script_of, tree_scripts, trees_scripts, node_script, plan, plan_all, HasOptions, HaveOptions,
  command-Adds, ensure-Adds, queue_insert-Adds, validate-Adds,
}

leaf_script :
    (d p : Bool)
    → script_of (if d then delayed else if p then prioritized else wait)
      ≡ (if d then "addDelayedJob" else if p then "addPrioritizedJob" else "addStandardJob")
unfolding script_of
leaf_script true p = refl
leaf_script false true = refl
leaf_script false false = refl

state_script :
    {T : Type 0} (n : Prepared T) (children : PreparedNodes T) (delay priority : ℕ)
    → n.delay_ms ≡ delay
    → n.priority ≡ priority
    → script_of (built_state (is_leaf children) delay priority) ≡ node_script n children
unfolding built_state node_script script_of script_by
state_script n no_nodes delay priority hd hp =
    leaf_script (ltb 0 delay) (ltb 0 priority) ∙ rw (hd, hp) refl
state_script n (and_node c rest) delay priority hd hp = refl

module _ (env : Env) {T J : Type 0} where
  -- The job that a built node starts from.
  new-facts :
      (n : Prepared T) (qs : List (String × String)) (log : List Request)
      → added log ≡ qs
      → Ends env log
          (λ job l.
            ((job.id ≡ n.id)
              × ((job.delay ≡ option_millis n.opts.delay)
                  × (job.priority ≡ or_default n.opts.priority 0)))
            × (added l ≡ qs))
          (Anyway env)
          (new {T = T} {J = J} n.id n.name n.payload (some n.opts))
  unfolding new new_at added added_by
  new-facts n qs log h =
      Ends-bind log _ _ (Ends-now_ms log h)
        λ now log1 h1. Ends-pure log1 _ ((refl, (refl, refl)), h1)

  mutual
    unfolding build_flow_node tree_scripts plan

    build-Adds :
        (n : PreparedNode T) (qs : List (String × String)) (log : List Request)
        → HasOptions n
        → added log ≡ qs
        → Ends env log
            (λ f l.
              ((before : List (String × String)) → tree_scripts f before ≡ plan n before)
              × (added l ≡ qs))
            (Anyway env)
            (build_flow_node {T = T} {J = J} n)
    build-Adds (node n children) qs log o h = Ends-bind _ _ _ (new-facts n qs log h) λ job log1 h1.
        Ends-bind _ _ _ (build_children-Adds children qs log1 o.1.1 h1.1) λ nodes log2 h2.
          Ends-pure log2 _ (
            (λ before.
                rw
                  (
                    h1.0.0,
                    state_script n children job.delay job.priority (o.0 ∙ sym h1.0.1.0)
                        (o.1.0 ∙ sym h1.0.1.1),
                  )
                  (h2.0 _)),
            h2.1,
          )

    build_children-Adds :
        (ns : PreparedNodes T) (qs : List (String × String)) (log : List Request)
        → HaveOptions ns
        → added log ≡ qs
        → Ends env log
            (λ fs l.
              ((before : List (String × String)) → trees_scripts fs before ≡ plan_all ns before)
              × (added l ≡ qs))
            (Anyway env)
            (build_children {T = T} {J = J} ns)
    build_children-Adds no_nodes qs log o h = Ends-pure log _ ((λ before. refl), h)
    build_children-Adds (and_node n ns) qs log o h =
        Ends-bind _ _ _ (build-Adds n qs log o.0 h) λ f log1 h1.
          Ends-bind _ _ _ (build_children-Adds ns qs log1 o.1 h1.1)
            λ fs log2 h2. Ends-pure log2 _ ((λ before. rw (h1.0 before) (h2.0 _)), h2.1)

  pub transact-Adds :
      (serde : FlowSerde T) (n : PreparedNode T) (log : List Request)
      → HasOptions n
      → Ends env log
          (λ f l. added l ≡ tree_scripts f (added log))
          (Anyway env)
          (transact {J = J} serde n)
  unfolding transact
  transact-Adds serde n log o = Ends-bind _ _ _ (command-Adds env _ log _ refl) λ _ log1 h1.
      Ends-bind _ _ _
        (Ends-or_cleaned _ _ _ (ensure-Adds env n _ log1 h1) (λ _ _ q. q) (λ _ _ _. tt))
        λ _ log2 h2. Ends-bind _ _ _ (command-Adds env _ log2 _ h2) λ _ log3 h3.
          Ends-bind _ _ _
            (Ends-or_cleaned _ _ _ (queue_insert-Adds env n _ log3 h3) (λ _ _ q. q) (λ _ _ _. tt))
            λ _ log4 h4. Ends-bind _ _ _ (command-Adds env _ log4 _ h4) λ v log5 h5.
              Ends-bind _ _ _ (validate-Adds env v _ log5 h5) λ _ log6 h6.
                Ends-weaken log6 _ (build-Adds n _ log6 o h6) λ f l q. q.1 ∙ sym (q.0 (added log))
