-- ===== src/Flow/Tree/Whole.antt =====
-- From the call of `FlowProducer::add` to its tree: what it adds is what it returns.
use bullmq_rs.Prelude.{◌≡◌, refl, ap, ◌∙◌, String, Option, none, some, List, [], ◌∷◌}
use bullmq_rs.Error.{ok}
use bullmq_rs.Redis.{Value, Request, Env, lift}
use bullmq_rs.Redis.Ends.{
  Ends, Ends-pure, Ends-throw, Ends-if, Ends-bind, Ends-send, Ends-now_ms, Ends-weaken, Ends-ok,
}
use bullmq_rs.Scripts.Added.{added_by, added, Anyway, same_lift}
use bullmq_rs.Flow.{Counts, FlowJob, FlowJobs, flow_job, no_jobs, and_job}
use bullmq_rs.Flow.Prepare.{FlowSerde}
use bullmq_rs.Flow.Build.{FlowNode}
use bullmq_rs.Prelude.Int.{ℤ}
use bullmq_rs.Dict.{lookup, contains, pair_eq, string_eq}
use bullmq_rs.Redis.{read_int, now_ms}
use bullmq_rs.Scripts.{load, registered}
use bullmq_rs.Flow.Prepare.{Ids, take_auto_id, assign_id, mark_seen, prepare_node, prepare_children}
use bullmq_rs.Connection.{get_manager}
use bullmq_rs.Flow.Add.{reserve, load_scripts, add}
use bullmq_rs.Flow.Tree.{HasOptions, HaveOptions, Adds, command-Adds, tree_scripts}
use bullmq_rs.Flow.Tree.Built.{transact-Adds}

module _ (env : Env) where
  load-Adds :
      (name : String) (qs : List (String × String)) (log : List Request)
      → added log ≡ qs
      → Adds env qs log (load name)
  unfolding load added added_by
  load-Adds name qs log h =
      Ends-if log (contains name registered) _ _
        (λ _. Ends-bind _ _ _ (Ends-send log _ (λ v _. h) (λ e _. tt)) λ v l k. Ends-pure l _ k)
        (λ _. Ends-throw log _ tt)

  load_scripts-Adds :
      (qs : List (String × String)) (log : List Request)
      → added log ≡ qs
      → Adds env qs log load_scripts
  unfolding load_scripts
  load_scripts-Adds qs log h = Ends-bind _ _ _ (load-Adds "addStandardJob" qs log h) λ _ log1 h1.
      Ends-bind _ _ _ (load-Adds "addPrioritizedJob" qs log1 h1) λ _ log2 h2.
        Ends-bind _ _ _ (load-Adds "addDelayedJob" qs log2 h2)
          λ _ log3 h3. load-Adds "addParentJob" qs log3 h3

  read_int-Adds :
      (qs : List (String × String)) (log : List Request) (v : Value)
      → added log ≡ qs
      → Adds env qs log (read_int v)
  unfolding read_int lift
  read_int-Adds qs log v h = record { at = (same_lift env qs log (env.to_int v) h).at }

  reserve-Adds :
      (counts : Counts) (ids : Ids) (qs : List (String × String)) (log : List Request)
      → added log ≡ qs
      → Adds env qs log (reserve counts ids)
  unfolding reserve
  reserve-Adds [] ids qs log h = Ends-pure log _ h
  reserve-Adds ((queue, count) ∷ counts) ids qs log h =
      Ends-bind _ _ _ (command-Adds env qs log _ h) λ reply log1 h1.
        Ends-bind _ _ _ (read_int-Adds qs log1 reply h1)
          λ last_id log2 h2. reserve-Adds counts _ qs log2 h2

  take_auto_id-Adds :
      (k : String × String) (next : Option ℤ) (ids : Ids) (qs : List (String × String))
      (log : List Request)
      → added log ≡ qs
      → Adds env qs log (take_auto_id k next ids)
  unfolding take_auto_id
  take_auto_id-Adds k none ids qs log h = Ends-throw log _ tt
  take_auto_id-Adds k (some next) ids qs log h = Ends-pure log _ h

  assign_id-Adds :
      (o : Option String) (k : String × String) (ids : Ids) (qs : List (String × String))
      (log : List Request)
      → added log ≡ qs
      → Adds env qs log (assign_id o k ids)
  unfolding assign_id
  assign_id-Adds (some id) k ids qs log h = Ends-pure log _ h
  assign_id-Adds none k ids qs log h = take_auto_id-Adds k (lookup k ids) ids qs log h

  mark_seen-Adds :
      (k : String) (seen : List String) (qs : List (String × String)) (log : List Request)
      → added log ≡ qs
      → Adds env qs log (mark_seen k seen)
  unfolding mark_seen
  mark_seen-Adds k seen qs log h =
      Ends-if log (contains k seen) _ _ (λ _. Ends-throw log _ tt) (λ _. Ends-pure log _ h)

  now_ms-Adds :
      (qs : List (String × String)) (log : List Request) → added log ≡ qs → Adds env qs log now_ms
  unfolding added added_by
  now_ms-Adds qs log h = Ends-now_ms log h

  module _ {T : Type 0} (serde : FlowSerde T) (d : String) where
    mutual
      unfolding prepare_node

      prepare_node-Adds :
          (job : FlowJob T) (parent : Option (String × String)) (ids : Ids) (seen : List String)
          (qs : List (String × String)) (log : List Request)
          → added log ≡ qs
          → Ends env log
              (λ r l. HasOptions r.0 × (added l ≡ qs))
              (Anyway env)
              (prepare_node serde d job parent ids seen)
      prepare_node-Adds (flow_job name queue_name payload explicit opts children) parent ids seen qs
            log h =
          Ends-bind _ _ _ (assign_id-Adds _ _ ids qs log h) λ a log1 h1.
            Ends-bind _ _ _ (now_ms-Adds qs log1 h1) λ now log2 h2.
              Ends-bind _ _ _ (mark_seen-Adds _ seen qs log2 h2) λ marked log3 h3.
                Ends-bind _ _ _ (same_lift env qs log3 _ h3) λ descriptor log4 h4.
                  Ends-bind _ _ _ (same_lift env qs log4 _ h4) λ data_json log5 h5.
                    Ends-bind _ _ _ (same_lift env qs log5 _ h5) λ opts_json log6 h6.
                      Ends-bind _ _ _ (prepare_children-Adds children _ a.1 marked qs log6 h6)
                        λ r log7 h7. Ends-pure _ _ ((refl, (refl, h7.0)), h7.1)

      prepare_children-Adds :
          (jobs : FlowJobs T) (parent : String × String) (ids : Ids) (seen : List String)
          (qs : List (String × String)) (log : List Request)
          → added log ≡ qs
          → Ends env log
              (λ r l. HaveOptions r.0 × (added l ≡ qs))
              (Anyway env)
              (prepare_children serde d jobs parent ids seen)
      prepare_children-Adds no_jobs parent ids seen qs log h = Ends-pure _ _ (tt, h)
      prepare_children-Adds (and_job job jobs) parent ids seen qs log h =
          Ends-bind _ _ _ (prepare_node-Adds job (some parent) ids seen qs log h) λ r log1 h1.
            Ends-bind _ _ _ (prepare_children-Adds jobs parent r.1 r.2 qs log1 h1.1)
              λ rs log2 h2. Ends-pure _ _ ((h1.0, h2.0), h2.1)

    module _ {J : Type 0} where
      add-Adds :
          (url : String) (job : FlowJob T) (log : List Request)
          → Ends env log
              (λ f l. added l ≡ tree_scripts f (added log))
              (Anyway env)
              (add {J = J} serde url d job)
      unfolding add get_manager added added_by
      add-Adds url job log =
          Ends-bind _ _ _
            (Ends-send {P = λ _ l. added l ≡ added log} log _ (λ v _. refl) (λ e _. tt))
            λ _ log1 h1. Ends-bind _ _ _ (load_scripts-Adds _ log1 h1) λ _ log2 h2.
              Ends-bind _ _ _ (reserve-Adds _ _ _ log2 h2) λ ids log3 h3.
                Ends-bind _ _ _ (prepare_node-Adds job none ids [] _ log3 h3) λ p log4 h4.
                  Ends-weaken log4 _ (transact-Adds env serde p.0 log4 h4.0)
                    λ f l q. q ∙ ap (tree_scripts f) h4.1

      -- When `add` returns a tree, the scripts that it sent to add jobs are those of the tree: one for
      -- each of its jobs, parents first, with the job's id, and for the state that the tree gives the job.
      pub add-tree :
          (url : String) (job : FlowJob T) (log log' : List Request) (f : FlowNode T J)
          → add serde url d job env log ≡ (ok f, log')
          → added log' ≡ tree_scripts f (added log)
      add-tree url job log log' f e = Ends-ok (add-Adds url job log) e
