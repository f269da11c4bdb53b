-- ===== src/Worker/Settle/Outcomes.antt =====
-- Settling a job never fails, and gives it back once, to the state that its outcome calls for.
use bullmq_rs.Prelude.{
  ◌%◌, ◌^◌, ◌+◌, not, ℕ, ◌≡◌, refl, String, Bool, true, false, List, [], ◌∷◌, ◌++◌, or_default, ltb,
  ap, if◌then◌else◌,
}
use bullmq_rs.Text.{◌<>◌, to_string}
use bullmq_rs.Error.{Result, ok, err}
use bullmq_rs.Redis.{Request, Env, now_ms}
use bullmq_rs.Scripts.{registered}
use bullmq_rs.Dict.{contains, string_eq}
use bullmq_rs.Redis.Ends.{Ends-pure, Ends-if, Ends-bind, Ends-now_ms, Post}
use bullmq_rs.Job.{Job, Serde}
use bullmq_rs.Repeat.{Cron}
use bullmq_rs.Scripts.Finish.{move_to_finished, move_to_delayed, move_job_from_active_to_wait}
use bullmq_rs.Worker.Departures.{
  Departure, departure, departures, Gave, Gave-invoke, Gave-then, Quiet-lift, Quiet-printer,
  Returns, Returns-attempt, Quiet-bind,
}
use bullmq_rs.Worker.Schedule.Quietness.{schedule_next_repeatable_job-Quiet}
use bullmq_rs.Worker.Settle.{
  Config, HandlerError, Outcome, cancelled, finished, failed_with, is_rate_limited, Settled,
  counted_attempts, limit_after, repeat_if_scheduled, settle_finished, settle_rate_limited,
  settle_retry, settle_failed, settle,
}

abbrev one_if : Bool → String
one_if b = if b then "1" else "0"

-- This job of this worker's queue, with the worker's token.
abbrev pub gives : {T J : Type 0} → Config → Job T J → String → String → String → Departure
gives config job target attempts next = record {
  job_id = job.id;
  job_key = config.prefix <> ":" <> config.name <> ":" <> job.id;
  token = config.token;
  target = target;
  attempts = attempts;
  next = next;
}

-- Where a job goes, with the attempts that are stored and whether a next job is asked for: nowhere when
-- it was cancelled, and back to wait, with no attempt counted, when the handler asks for a limit;
-- otherwise one attempt is counted, and a failed job is retried while attempts remain, of one by default.
unfoldable pub destination : {T J : Type 0} → Config → Job T J → Bool → Outcome → List Departure
destination config job paused cancelled = []
destination config job paused finished =
    gives config job "completed" (to_string ((job.attempts_made + 1) % 2 ^ 32))
      (one_if (not paused))
    ∷ []
destination config job paused (failed_with e) =
    if is_rate_limited e
    then gives config job "wait" "" "" ∷ []
    else if ltb ((job.attempts_made + 1) % 2 ^ 32) (or_default job.opts.attempts 1)
    then gives config job "delayed" (to_string ((job.attempts_made + 1) % 2 ^ 32)) "" ∷ []
    else gives config job "failed" (to_string ((job.attempts_made + 1) % 2 ^ 32)) "0" ∷ []

module _ (env : Env) {T J : Type 0} (serde : Serde T J) (cron : Cron) (config : Config)
    (job : Job T J) where
  -- Each of the three scripts is registered, so the call reaches the server.
  finish-Gave :
      (time : ℕ) (text target : String) (fetch : Bool) (events : ℕ) (ds : List Departure)
      (log : List Request)
      → departures log ≡ ds
      → Gave env
          (gives config job target (to_string (counted_attempts job)) (one_if fetch) ∷ ds)
          log
          (move_to_finished config.prefix config.name job.id config.token time text target events
            fetch config.lock_duration_ms
            (counted_attempts job)
            config.limiter
            config.max_metrics_size)
  unfolding move_to_finished departure contains registered
  finish-Gave time text target fetch events ds log h =
      Gave-then env _ log _ _
        (Gave-invoke env _ log _ _ _ refl (
          ap (λ d. gives config job target (to_string (counted_attempts job)) (one_if fetch) ∷ d)
            h))
        (λ v. Quiet-lift env _)

  delay-Gave :
      (time until : ℕ) (events : ℕ) (ds : List Departure) (log : List Request)
      → departures log ≡ ds
      → Gave env (gives config job "delayed" (to_string (counted_attempts job)) "" ∷ ds) log (
          move_to_delayed config.prefix config.name job.id config.token time until events
            (counted_attempts job))
  unfolding move_to_delayed departure contains registered
  delay-Gave time until events ds log h =
      Gave-then env _ log _ _
        (Gave-invoke env _ log _ _ _ refl
          (ap (λ d. gives config job "delayed" (to_string (counted_attempts job)) "" ∷ d) h))
        (λ v. Quiet-lift env _)

  wait-Gave :
      (ds : List Departure) (log : List Request)
      → departures log ≡ ds
      → Gave env
          (gives config job "wait" "" "" ∷ ds)
          log
          (move_job_from_active_to_wait config.prefix config.name job.id config.token)
  unfolding move_job_from_active_to_wait departure contains registered
  wait-Gave ds log h =
      Gave-then env _ log _ _
        (Gave-invoke env _ log _ _ _ refl (ap (λ d. gives config job "wait" "" "" ∷ d) h))
        λ v. Quiet-bind env _ _ (Quiet-printer env) λ debug. Quiet-lift env _

  now-Returns :
      (ds : List Departure) (log : List Request) → departures log ≡ ds → Returns env ds log now_ms
  unfolding departures
  now-Returns ds log h = Ends-now_ms log h

  repeat-Returns :
      (ds : List Departure) (log : List Request)
      → departures log ≡ ds
      → Returns env ds log (repeat_if_scheduled serde cron config job)
  unfolding repeat_if_scheduled
  repeat-Returns ds log h =
      Returns-attempt env ds log _
        (schedule_next_repeatable_job-Quiet env serde cron config.prefix config.name job ds log h)

  limit_after-Returns :
      (ds : List Departure) (r : Result ℕ) (log : List Request)
      → departures log ≡ ds
      → Returns env ds log (limit_after serde cron config job r)
  unfolding limit_after
  limit_after-Returns ds (err e) log h = Ends-pure log _ h
  limit_after-Returns ds (ok ttl) log h =
      Ends-if log (ltb 0 ttl) _ _
        (λ _. Ends-bind log _ _ (now-Returns ds log h) (λ now l k. Ends-pure l _ k))
        (λ _. Ends-pure log _ h)

  settle_finished-Returns :
      (paused : Bool) (log : List Request)
      → Returns env
          (gives config job "completed" (to_string (counted_attempts job)) (one_if (not paused))
            ∷ departures log)
          log
          (settle_finished serde cron config job paused)
  unfolding settle_finished
  settle_finished-Returns paused log = Ends-bind log _ _ (now-Returns _ log refl) λ time log1 h1.
      Ends-bind log1 _ _ (Returns-attempt env _ log1 _ (finish-Gave time _ _ _ _ _ log1 h1))
        λ r log2 h2. Ends-bind log2 _ _ (repeat-Returns _ log2 h2) λ u log3 h3. Ends-pure log3 _ h3

  settle_rate_limited-Returns :
      (log : List Request)
      → Returns env
          (gives config job "wait" "" "" ∷ departures log)
          log
          (settle_rate_limited serde cron config job)
  unfolding settle_rate_limited
  settle_rate_limited-Returns log =
      Ends-bind log _ _ (Returns-attempt env _ log _ (wait-Gave _ log refl)) λ r log1 h1.
        Ends-bind log1 _ _ (limit_after-Returns _ r log1 h1) λ limit log2 h2. Ends-pure log2 _ h2

  settle_retry-Returns :
      (e : HandlerError) (log : List Request)
      → Returns env
          (gives config job "delayed" (to_string (counted_attempts job)) "" ∷ departures log)
          log
          (settle_retry serde cron config job e)
  unfolding settle_retry
  settle_retry-Returns e log = Ends-bind log _ _ (now-Returns _ log refl) λ time log1 h1.
      Ends-bind log1 _ _ (Returns-attempt env _ log1 _ (delay-Gave time _ _ _ log1 h1))
        λ r log2 h2. Ends-pure log2 _ h2

  settle_failed-Returns :
      (e : HandlerError) (log : List Request)
      → Returns env
          (gives config job "failed" (to_string (counted_attempts job)) "0" ∷ departures log)
          log
          (settle_failed serde cron config job e)
  unfolding settle_failed
  settle_failed-Returns e log = Ends-bind log _ _ (now-Returns _ log refl) λ time log1 h1.
      Ends-bind log1 _ _ (Returns-attempt env _ log1 _ (finish-Gave time _ _ _ _ _ log1 h1))
        λ r log2 h2. Ends-bind log2 _ _ (repeat-Returns _ log2 h2) λ u log3 h3. Ends-pure log3 _ h3

  settle-Returns :
      (paused : Bool) (outcome : Outcome) (log : List Request)
      → Returns env
          (destination config job paused outcome ++ departures log)
          log
          (settle serde cron config job paused outcome)
  unfolding settle destination
  settle-Returns paused cancelled log = Ends-pure log _ refl
  settle-Returns paused finished log = settle_finished-Returns paused log
  settle-Returns paused (failed_with e) log =
      go (is_rate_limited e) (ltb (counted_attempts job) (or_default job.opts.attempts 1))
    where
      go :
          (limited retried : Bool)
          → Returns env
              ((if limited
                  then gives config job "wait" "" "" ∷ []
                  else if retried
                  then gives config job "delayed" (to_string (counted_attempts job)) "" ∷ []
                  else gives config job "failed" (to_string (counted_attempts job)) "0" ∷ [])
                ++ departures log)
              log
              (if limited
                then settle_rate_limited serde cron config job
                else if retried
                then settle_retry serde cron config job e
                else settle_failed serde cron config job e)
      go true retried = settle_rate_limited-Returns log
      go false true = settle_retry-Returns e log
      go false false = settle_failed-Returns e log

  -- Whatever the server answers and the handler's outcome was, settling the job returns, and among the
  -- scripts it sent, exactly one gives this job back, by its id and its key and with the worker's lock
  -- token, none for a cancelled job: to `completed`, `failed`, `delayed` or `wait` as `destination` says,
  -- with the attempts that `destination` counts, asking for a next job where the job is completed and the
  -- worker not paused.
  pub settle-gives_back_once :
      (paused : Bool) (outcome : Outcome) (log : List Request)
      → (s : Settled) × (log' : List Request) × (settle serde cron config job paused outcome env log
          ≡ (ok s, log'))
        × (departures log' ≡ destination config job paused outcome ++ departures log)
  settle-gives_back_once paused outcome log = go _ _ refl (settle-Returns paused outcome log).at
    where
      go :
          (r : Result Settled) (log' : List Request)
          → settle serde cron config job paused outcome env log ≡ (r, log')
          → Post
              (λ _ l. departures l ≡ destination config job paused outcome ++ departures log)
              (λ _ _. ⊥)
              r
              log'
          → (s : Settled) × (l : List Request) × (settle serde cron config job paused outcome env
                log
              ≡ (ok s, l))
            × (departures l ≡ destination config job paused outcome ++ departures log)
      go (ok s) log' e h = (s, log', e, h)
      go (err x) log' e h = elim h [ ]
