-- ===== src/Worker/Schedule/Quietness.antt =====
-- The next iteration of a scheduler gives back no job, whatever the server answers.
use bullmq_rs.Prelude.{ℕ, refl, String, Option, none, some}
use bullmq_rs.Redis.{Env}
use bullmq_rs.Types.Options.{JobOptions, RepeatOptions, Duration}
use bullmq_rs.Job.{Job, Serde}
use bullmq_rs.Repeat.{Cron, next_pattern_millis, build_iteration_opts}
use bullmq_rs.Scripts.Schedulers.{update_job_scheduler}
use bullmq_rs.Worker.Departures.{
  departure, Quiet, Quiet-send, Quiet-pure, Quiet-lift, Quiet-now_ms, Quiet-read_bool, Quiet-if,
  Quiet-bind, Quiet-invoke,
}
use bullmq_rs.Worker.Schedule.{
  next_millis, store_next, schedule_from, schedule_repeat, schedule_scheduler,
  schedule_next_repeatable_job,
}

module _ (env : Env) where
  next_pattern_millis-Quiet :
      (cron : Cron) (millis : ℕ) (opts : RepeatOptions) (pattern : String)
      → Quiet env (next_pattern_millis cron millis opts pattern)
  unfolding next_pattern_millis
  next_pattern_millis-Quiet cron millis opts pattern =
      Quiet-if env _ _ _ (Quiet-bind env _ _ (Quiet-now_ms env) (λ now. Quiet-pure env _))
        (Quiet-bind env _ _ (Quiet-lift env _) (λ next. Quiet-pure env _))

  next_millis-Quiet :
      (cron : Cron) (repeat : RepeatOptions) (pattern : Option String) (every : Option Duration)
      (now : ℕ)
      → Quiet env (next_millis cron repeat pattern every now)
  unfolding next_millis
  next_millis-Quiet cron repeat (some pattern) every now =
      Quiet-bind env _ _ (next_pattern_millis-Quiet cron now repeat pattern)
        (λ next. Quiet-pure env _)
  next_millis-Quiet cron repeat none (some every) now = Quiet-pure env _
  next_millis-Quiet cron repeat none none now = Quiet-pure env _

  build_iteration_opts-Quiet :
      (base : JobOptions) (repeat : RepeatOptions) (id : String) (count : ℕ) (next : Option ℕ)
      → Quiet env (build_iteration_opts base repeat id count next)
  unfolding build_iteration_opts
  build_iteration_opts-Quiet base repeat id count next =
      Quiet-bind env _ _ (Quiet-now_ms env) (λ now. Quiet-pure env _)

  update_job_scheduler-Quiet :
      (prefix queue_name id : String) (next : ℕ) (template opts : String) (timestamp : ℕ)
      (producer : String)
      → Quiet env (update_job_scheduler prefix queue_name id next template opts timestamp producer)
  unfolding update_job_scheduler departure
  update_job_scheduler-Quiet prefix queue_name id next template opts timestamp producer =
      Quiet-bind env _ _ (Quiet-invoke env _ _ _ refl) (λ v. Quiet-pure env _)

  module _ {T J : Type 0} (serde : Serde T J) (cron : Cron) (prefix queue_name : String)
      (job : Job T J) where
    store_next-Quiet :
        (id : String) (repeat : RepeatOptions) (next : Option ℕ)
        → Quiet env (store_next serde cron prefix queue_name job id repeat next)
    unfolding store_next
    store_next-Quiet id repeat none = Quiet-pure env _
    store_next-Quiet id repeat (some next) =
        Quiet-bind env _ _ (build_iteration_opts-Quiet _ _ _ _ _) λ merged.
          Quiet-bind env _ _ (Quiet-lift env _) λ template.
            Quiet-bind env _ _ (Quiet-lift env _) λ opts.
              Quiet-bind env _ _ (Quiet-now_ms env) λ timestamp.
                Quiet-bind env _ _ (update_job_scheduler-Quiet _ _ _ _ _ _ _ _)
                  λ r. Quiet-pure env _

    schedule_from-Quiet :
        (id : String) (repeat : RepeatOptions) (now : ℕ)
        → Quiet env (schedule_from serde cron prefix queue_name job id repeat now)
    unfolding schedule_from
    schedule_from-Quiet id repeat now = Quiet-if env _ _ _ (Quiet-pure env _) (
        Quiet-bind env _ _ (next_millis-Quiet cron repeat repeat.pattern repeat.every _)
          (λ next. store_next-Quiet id repeat next))

    schedule_repeat-Quiet :
        (id : String) (repeat : Option RepeatOptions)
        → Quiet env (schedule_repeat serde cron prefix queue_name job id repeat)
    unfolding schedule_repeat
    schedule_repeat-Quiet id none = Quiet-pure env _
    schedule_repeat-Quiet id (some repeat) =
        Quiet-if env _ _ _ (Quiet-pure env _)
          (Quiet-bind env _ _ (Quiet-now_ms env) (λ now. schedule_from-Quiet id repeat now))

    schedule_scheduler-Quiet :
        (id : Option String) → Quiet env (schedule_scheduler serde cron prefix queue_name job id)
    unfolding schedule_scheduler departure
    schedule_scheduler-Quiet none = Quiet-pure env _
    schedule_scheduler-Quiet (some id) = Quiet-bind env _ _ (Quiet-send env _ refl) λ reply.
        Quiet-bind env _ _ (Quiet-read_bool env reply) λ is_scheduler.
          Quiet-if env is_scheduler _ _ (schedule_repeat-Quiet id job.opts.repeat)
            (Quiet-pure env _)

    pub schedule_next_repeatable_job-Quiet :
        Quiet env (schedule_next_repeatable_job serde cron prefix queue_name job)
    unfolding schedule_next_repeatable_job
    schedule_next_repeatable_job-Quiet = schedule_scheduler-Quiet _
