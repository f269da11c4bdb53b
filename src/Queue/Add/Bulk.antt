-- ===== src/Queue/Add/Bulk.antt =====
-- Which scripts `add_bulk` sends for its jobs, and with which ids.
use bullmq_rs.Prelude.{
  none, some, ℕ, suc, ◌≡◌, refl, sym, ap, ◌∙◌, String, Option, List, [], ◌∷◌, length, or_default,
  ltb,
}
use bullmq_rs.Prelude.Int.{ℤ, int_suc}
use bullmq_rs.Dict.{string_eq}
use bullmq_rs.Error.{ok}
use bullmq_rs.Redis.{Request, Env}
use bullmq_rs.Redis.Ends.{Ends, Ends-pure, Ends-if, Ends-bind, Ends-now_ms, Ends-ok, bind-ok}
use bullmq_rs.Types.Options.{JobOptions, default_options}
use bullmq_rs.Job.{Job, Serde, new, new_at, option_millis}
use bullmq_rs.Scripts.Adds.{
  add_delayed_job, add_prioritized_job, add_standard_job, add_delayed_job_with_parent,
  add_prioritized_job_with_parent, add_standard_job_with_parent,
}
use bullmq_rs.Scripts.{int_to_string}
use bullmq_rs.Scripts.Added.{added_by, added, script_by, Anyway, same_lift, adding}
use bullmq_rs.Queue.Add.{
  own_id, id_at, reserve_ids, dispatch_add, create, add_by, create_all, add_bulk, NewJob,
  count_none,
}

abbrev pub script_for : JobOptions → String
script_for opts = script_by (option_millis opts.delay) (or_default opts.priority 0)

abbrev entry : ℕ → ℕ → String → String × String
entry delay priority id = (script_by delay priority, id)

abbrev entry_for : Option JobOptions → String → String × String
entry_for opts id = (script_for (or_default opts default_options), id)

-- One script for each job, in the order of the jobs, over those of `before`: a job's own id, and the next
-- number from `next` on for each job without one.
unfoldable pub plan :
    {T : Type 0} → List (NewJob T) → ℤ → List (String × String) → List (String × String)
plan [] next before = before
plan ((name, payload, opts) ∷ jobs) next before = elim (own_id opts) [
  | some id ↦ plan jobs next (entry_for opts id ∷ before)
  | none ↦ plan jobs (int_suc next) (entry_for opts (int_to_string next) ∷ before)
]

plan_step :
    {T : Type 0} (name : String) (payload : T) (opts : Option JobOptions) (jobs : List (NewJob T))
    (next : ℤ) (before : List (String × String))
    → plan ((name, payload, opts) ∷ jobs) next before
      ≡ plan jobs
          (id_at (own_id opts) next).1
          (entry_for opts (id_at (own_id opts) next).0 ∷ before)
unfolding plan
plan_step name payload opts jobs next before = go (own_id opts)
  where
    go :
        (o : Option String)
        → (elim o [
          | some id ↦ plan jobs next (entry_for opts id ∷ before)
          | none ↦ plan jobs (int_suc next) (entry_for opts (int_to_string next) ∷ before)
        ])
          ≡ plan jobs (id_at o next).1 (entry_for opts (id_at o next).0 ∷ before)
    go none = refl
    go (some id) = refl

module _ (env : Env) where
  module _ (prefix name : String) {T J : Type 0} (serde : Serde T J) where
    add_by-adds :
        (data_json opts_json : String) (job : Job T J) (qs : List (String × String))
        (log : List Request)
        → added log ≡ qs
        → Ends env log
            (λ _ l. added l ≡ ((script_by job.delay job.priority, job.id) ∷ qs))
            (Anyway env)
            (add_by prefix name serde data_json opts_json job)
    unfolding add_by script_by add_delayed_job add_prioritized_job add_standard_job
        add_delayed_job_with_parent add_prioritized_job_with_parent add_standard_job_with_parent
        added_by added
    add_by-adds data_json opts_json job qs log h =
        Ends-if log (ltb 0 job.delay) _ _ (λ d. adding env _ log _ _ _ _ (rw (d, h) refl))
          (λ d.
            Ends-if log (ltb 0 job.priority) _ _ (λ p. adding env _ log _ _ _ _ (rw (d, p, h) refl))
              (λ p. adding env _ log _ _ _ _ (rw (d, p, h) refl)))

    dispatch_add-adds :
        (job : Job T J) (qs : List (String × String)) (log : List Request)
        → added log ≡ qs
        → Ends env log
            (λ _ l. added l ≡ ((script_by job.delay job.priority, job.id) ∷ qs))
            (Anyway env)
            (dispatch_add prefix name serde job)
    unfolding dispatch_add
    dispatch_add-adds job qs log h =
        Ends-bind log _ _ (same_lift env qs log _ h) λ data_json log1 h1.
          Ends-bind log1 _ _ (same_lift env qs log1 _ h1)
            λ opts_json log2 h2. add_by-adds data_json opts_json job qs log2 h2

    new-adds :
        (id job_name : String) (payload : T) (opts : Option JobOptions)
        (qs : List (String × String)) (log : List Request)
        → added log ≡ qs
        → Ends env log
            (λ job l. (entry job.delay job.priority job.id ≡ entry_for opts id) × (added l ≡ qs))
            (Anyway env)
            (new {T = T} {J = J} id job_name payload opts)
    unfolding new new_at added
    new-adds id job_name payload opts qs log h =
        Ends-bind log _ _ (Ends-now_ms log h) (λ now log1 h1. Ends-pure log1 _ (refl, h1))

    create-adds :
        (id job_name : String) (payload : T) (opts : Option JobOptions)
        (qs : List (String × String)) (log : List Request)
        → added log ≡ qs
        → Ends env log
            (λ _ l. added l ≡ ((script_for (or_default opts default_options), id) ∷ qs))
            (Anyway env)
            (create prefix name serde id job_name payload opts)
    unfolding create
    create-adds id job_name payload opts qs log h =
        Ends-bind log _ _ (new-adds id job_name payload opts qs log h) λ job log1 h1.
          Ends-bind log1 _ _ (dispatch_add-adds job qs log1 h1.1)
            λ returned log2 h2. Ends-pure log2 _ (rw h2 (ap (λ x. x ∷ qs) h1.0))

    create_all-adds :
        (jobs : List (NewJob T)) (next : ℤ) (qs : List (String × String)) (log : List Request)
        → added log ≡ qs
        → Ends env log
            (λ js l. (length js ≡ length jobs) × (added l ≡ plan jobs next qs))
            (Anyway env)
            (create_all prefix name serde jobs next)
    unfolding create_all plan
    create_all-adds [] next qs log h = Ends-pure log _ (refl, h)
    create_all-adds ((job_name, payload, opts) ∷ jobs) next qs log h =
        Ends-bind log _ _ (create-adds _ job_name payload opts qs log h) λ job log1 h1.
          Ends-bind log1 _ _ (create_all-adds jobs _ _ log1 h1) λ created log2 h2.
            Ends-pure log2 _
              (ap suc h2.0, h2.1 ∙ sym (plan_step job_name payload opts jobs next qs))

    -- When `add_bulk` has reserved its ids from `first` on and returns, it returns as many jobs as it was
    -- given, and after the reservation it has sent the scripts of `plan` and no other adding one.
    pub add_bulk-plan :
        (job : NewJob T) (jobs : List (NewJob T)) (log log1 log2 : List Request) (first : ℤ)
        (js : List (Job T J))
        → reserve_ids prefix name (count_none (job ∷ jobs)) env log ≡ (ok first, log1)
        → add_bulk prefix name serde (job ∷ jobs) env log ≡ (ok js, log2)
        → (length js ≡ length (job ∷ jobs)) × (added log2 ≡ plan (job ∷ jobs) first (added log1))
    unfolding add_bulk
    add_bulk-plan job jobs log log1 log2 first js r e =
        Ends-ok (create_all-adds (job ∷ jobs) first (added log1) log1 refl)
          (sym (bind-ok _ (λ next. create_all prefix name serde (job ∷ jobs) next) first r) ∙ e)
