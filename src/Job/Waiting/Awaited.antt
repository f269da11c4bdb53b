-- ===== src/Job/Waiting/Awaited.antt =====
-- What decides the wait for a job.
use text.Mathlib.TextEquality.{eq_iff}
use bullmq_rs.Scripts.{key}
use bullmq_rs.Prelude.{
  arith, String, Bool, true, false, ◌≡◌, refl, ◌∙◌, Option, none, some, List, [], ◌∷◌, ◌++◌, map,
  All,
}
use bullmq_rs.Error.{other, Result, ok, err}
use bullmq_rs.Redis.{
  Value, value, command, send, received, read_score, read_text_option, Request, Env, lift, pure,
  ◌>>=◌,
}
use bullmq_rs.Redis.Ends.{bind-ok}
use bullmq_rs.QueueEvents.{QueueEvent, completed, failed, json_of}
use bullmq_rs.Job.{Job, JobContext, Serde}
use bullmq_rs.Job.Active.{context, scored}
use bullmq_rs.Job.Waiting.{
  Received, event, lagged, outcome_of, check_finished, await_events, wait_until_finished,
}

-- What the caller is given for a job that finished.
abbrev pub answered : {J : Type 0} → Result J → Result (Option J)
answered (ok v) = ok (some v)
answered (err e) = err e

-- The event that the job finished, and what the caller is given for it.
abbrev pub Decides : {J : Type 0} → String → QueueEvent J → Type 0
Decides id (completed eid v) = eid ≡ id
Decides id (failed eid reason) = eid ≡ id
Decides id _ = ⊥

abbrev pub told : {J : Type 0} → QueueEvent J → Result (Option J)
told (completed eid v) = ok (some v)
told (failed eid reason) = err (other reason)
told _ = ok none

undecided : {J : Type 0} (id : String) (e : QueueEvent J) → ¬ Decides id e → outcome_of id e ≡ none
unfolding outcome_of
undecided id (completed eid v) h = ground (arith, eq_iff eid id, h)
undecided id (failed eid reason) h = ground (arith, eq_iff eid id, h)
undecided id _ h = refl

all_undecided :
    {J : Type 0} (id : String) (es : List (QueueEvent J))
    → All (λ e. ¬ Decides id e) es
    → All (λ e. outcome_of id e ≡ none) es
all_undecided id [] h = tt
all_undecided id (e ∷ es) h = (undecided id e h.0, all_undecided id es h.1)

-- Whether the job is in the set of this name, asked by ZSCORE.
abbrev pub zscore : JobContext → String → String → Request
zscore c id set = command ("ZSCORE" ∷ key c.prefix c.queue_name set ∷ id ∷ [])

abbrev pub Scores : Env → JobContext → String → String → List Request → Bool → Type 0
Scores env c id set log b =
    (v : Value) × (env.answer log (zscore c id set) ≡ value v) × (env.to_score v ≡ ok b)

send-value :
    (env : Env) (log : List Request) (r : Request) (v : Value)
    → env.answer log r ≡ value v
    → send r env log ≡ (ok v, r ∷ log)
unfolding send received
send-value env log r v h = rw h refl

scored-told :
    (env : Env) (c : JobContext) (id set : String) (log : List Request) (b : Bool)
    → Scores env c id set log b
    → scored c.prefix c.queue_name id set env log ≡ (ok b, zscore c id set ∷ log)
unfolding scored read_score
scored-told env c id set log b (v, h, k) =
    bind-ok (send (zscore c id set)) _ v (send-value env log _ v h) ∙ rw k refl

module _ {T J : Type 0} (serde : Serde T J) (null : J) (job : Job T J) (c : JobContext) where
  answer-lift :
      (r : Result J) (env : Env) (log : List Request)
      → (lift r >>= λ v. pure (some v)) env log ≡ (answered r, log)
  unfolding ◌>>=◌ lift pure
  answer-lift (ok v) env log = refl
  answer-lift (err e) env log = refl

  passed_over :
      (others : List (QueueEvent J)) (rest : List (Received J)) (env : Env) (log : List Request)
      → All (λ e. outcome_of job.id e ≡ none) others
      → await_events serde null job c (map event others ++ rest) env log
        ≡ await_events serde null job c rest env log
  unfolding await_events
  passed_over [] rest env log h = refl
  passed_over (e ∷ others) rest env log h =
      rw (await_events, h.0) (passed_over others rest env log h.1)

  decided :
      (e : QueueEvent J) (r : Result J) (rest : List (Received J)) (env : Env) (log : List Request)
      → outcome_of job.id e ≡ some r
      → await_events serde null job c (event e ∷ rest) env log ≡ (answered r, log)
  unfolding await_events
  decided e r rest env log h = rw (await_events, h) (answer-lift r env log)

  checked :
      (r : Result J) (rest : List (Received J)) (env : Env) (log log' : List Request)
      → check_finished serde null job c.prefix c.queue_name job.id env log ≡ (ok (some r), log')
      → await_events serde null job c (lagged ∷ rest) env log ≡ (answered r, log')
  unfolding await_events
  checked r rest env log log' h = bind-ok _ _ (some r) h ∙ answer-lift r env log'

  started :
      (arriving : List (Received J)) (env : Env) (log log' : List Request)
      → job.ctx ≡ some c
      → check_finished serde null job c.prefix c.queue_name job.id env log ≡ (ok none, log')
      → wait_until_finished serde null job arriving env log
        ≡ await_events serde null job c arriving env log'
  unfolding wait_until_finished context lift
  started arriving env log log' known h =
      bind-ok (context serde job) _ c (rw known refl) ∙ bind-ok _ _ none h

  -- The log after the two questions with which a wait begins.
  abbrev pub asked_both : List Request → List Request
  asked_both log = zscore c job.id "failed" ∷ zscore c job.id "completed" ∷ log

  still_open :
      (env : Env) (log : List Request)
      → Scores env c job.id "completed" log false
      → Scores env c job.id "failed" (zscore c job.id "completed" ∷ log) false
      → check_finished serde null job c.prefix c.queue_name job.id env log
        ≡ (ok none, asked_both log)
  unfolding check_finished pure
  still_open env log h k =
      bind-ok (scored c.prefix c.queue_name job.id "completed") _ false
        (scored-told env c job.id "completed" log false h)
      ∙ bind-ok (scored c.prefix c.queue_name job.id "failed") _ false
          (scored-told env c job.id "failed" _ false k)

  decision :
      (e : QueueEvent J) (rest : List (Received J)) (env : Env) (log : List Request)
      → Decides job.id e
      → await_events serde null job c (event e ∷ rest) env log ≡ (told e, log)
  unfolding outcome_of
  decision (completed eid v) rest env log h =
      decided (completed eid v) (ok v) rest env log (rw ((eq_iff eid job.id).1 h) refl)
  decision (failed eid reason) rest env log h =
      decided (failed eid reason) (err (other reason)) rest env log
        (rw ((eq_iff eid job.id).1 h) refl)
  decision _ rest env log h = absurd h

  -- When the job has a connection context and the server answers, as the wait begins, that the job is
  -- neither in the set completed nor in the set failed: the first event completed or failed that carries
  -- this job's id decides what the caller is given, its value or its reason, whatever events of other
  -- jobs or kinds came before it and whatever comes after it.
  pub wait_until_finished-first :
      (others : List (QueueEvent J)) (e : QueueEvent J) (rest : List (Received J)) (env : Env)
      (log : List Request)
      → job.ctx ≡ some c
      → Scores env c job.id "completed" log false
      → Scores env c job.id "failed" (zscore c job.id "completed" ∷ log) false
      → All (λ o. ¬ Decides job.id o) others
      → Decides job.id e
      → wait_until_finished serde null job (map event others ++ (event e ∷ rest)) env log
        ≡ (told e, asked_both log)
  wait_until_finished-first others e rest env log known h k pass d =
      started _ env log (asked_both log) known (still_open env log h k)
      ∙ passed_over others (event e ∷ rest) env (asked_both log) (all_undecided job.id others pass)
      ∙ decision e rest env (asked_both log) d

  -- The return value of the job, asked by HGET.
  abbrev pub hget : Request
  hget = command ("HGET" ∷ key c.prefix c.queue_name job.id ∷ "returnvalue" ∷ [])

  now_completed :
      (env : Env) (log : List Request) (w : Value) (rv : Option String)
      → Scores env c job.id "completed" log true
      → env.answer (zscore c job.id "completed" ∷ log) hget ≡ value w
      → env.to_text_option w ≡ ok rv
      → check_finished serde null job c.prefix c.queue_name job.id env log ≡ (
        ok (some (ok (json_of serde.json.decode null rv))),
        hget ∷ zscore c job.id "completed" ∷ log,
      )
  unfolding check_finished pure read_text_option
  now_completed env log w rv h k g =
      bind-ok (scored c.prefix c.queue_name job.id "completed") _ true
        (scored-told env c job.id "completed" log true h)
      ∙ bind-ok (send hget) _ w (send-value env _ hget w k)
      ∙ bind-ok (read_text_option w) _ rv (rw g refl)

  -- When the job has a connection context, the server answers, as the wait begins, that the job is neither
  -- completed nor failed, and events are missed: where the server then answers that the job is in the
  -- set completed, and with its return value, the caller is given this value, although no event told of
  -- it, whatever events of other jobs or kinds came before.
  pub wait_until_finished-lagged :
      (others : List (QueueEvent J)) (rest : List (Received J)) (env : Env) (log : List Request)
      (w : Value) (rv : Option String)
      → job.ctx ≡ some c
      → Scores env c job.id "completed" log false
      → Scores env c job.id "failed" (zscore c job.id "completed" ∷ log) false
      → All (λ o. ¬ Decides job.id o) others
      → Scores env c job.id "completed" (asked_both log) true
      → env.answer (zscore c job.id "completed" ∷ asked_both log) hget ≡ value w
      → env.to_text_option w ≡ ok rv
      → wait_until_finished serde null job (map event others ++ (lagged ∷ rest)) env log ≡ (
        ok (some (json_of serde.json.decode null rv)),
        hget ∷ zscore c job.id "completed" ∷ asked_both log,
      )
  wait_until_finished-lagged others rest env log w rv known h k pass now answer form =
      started _ env log (asked_both log) known (still_open env log h k)
      ∙ passed_over others (lagged ∷ rest) env (asked_both log) (all_undecided job.id others pass)
      ∙ checked (ok (json_of serde.json.decode null rv)) rest env (asked_both log) _
          (now_completed env (asked_both log) w rv now answer form)
