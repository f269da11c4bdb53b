-- ===== src/Job/Active/Told.antt =====
-- What the listeners of a queue learn of a job's progress.
use bullmq_rs.Prelude.{◌≡◌, refl, map, String, some, List, [], ◌∷◌}
use bullmq_rs.Error.{Result, ok, err}
use text.Mathlib.TextPositions.{eq_refl}
use bullmq_rs.Scripts.{key}
use bullmq_rs.Redis.{Request, command, Env, lift}
use bullmq_rs.Redis.Ends.{
  Post, Ends, Ends-pure, Ends-throw, Ends-if, Ends-bind, Ends-lift, Ends-any, Ends-send,
  Ends-read_text, Ends-after, bind-ok,
}
use bullmq_rs.Dict.{lookup, string_eq}
use bullmq_rs.QueueEvents.{progress, parse, event_of, text_field, json_of}
use bullmq_rs.QueueEvents.Published.{stored}
use bullmq_rs.Job.{Job, JobContext, Serde}
use bullmq_rs.Job.Active.{context, progress_event, write_progress, update_progress}

module _ {T J : Type 0} (serde : Serde T J) (null : J) (job : Job T J) where
  progress_event-parse :
      (events_key json : String) (value : J)
      → serde.json.decode json ≡ ok value
      → map
          (parse serde.json.decode null)
          (stored events_key (command (progress_event events_key job.id json)))
        ≡ progress job.id value ∷ []
  unfolding stored progress_event parse event_of text_field lookup json_of
  progress_event-parse events_key json value h = rw (eq_refl events_key, h) refl

  -- The last request sent adds one entry to the events of the queue, which tells the listeners that the
  -- job's progress is `value`.
  abbrev pub TellsLast : JobContext → J → List Request → Type 0
  TellsLast c value [] = ⊥
  TellsLast c value (r ∷ log) =
      map (parse serde.json.decode null) (stored (key c.prefix c.queue_name "events") r)
      ≡ progress job.id value ∷ []

  Ends-encode :
      (env : Env) (log : List Request) (value : J)
      → ((v : J) (s : String) → serde.json.encode v ≡ ok s → serde.json.decode s ≡ ok v)
      → Ends env log
          (λ s _. serde.json.decode s ≡ ok value)
          (λ _ _. Unit {0})
          (lift (serde.json.encode value))
  Ends-encode env log value exact = Ends-lift log _ (go (serde.json.encode value) refl)
    where
      go :
          (r : Result String)
          → serde.json.encode value ≡ r
          → Post (λ s _. serde.json.decode s ≡ ok value) (λ _ _. Unit {0}) r log
      go (ok s) h = exact value s h
      go (err e) h = tt

  write_progress-told :
      (env : Env) (value : J)
      → ((v : J) (s : String) → serde.json.encode v ≡ ok s → serde.json.decode s ≡ ok v)
      → (c : JobContext) (log : List Request)
      → Ends env log
          (λ new log'. (new ≡ record job { progress = some value }) × TellsLast c value log')
          (λ _ _. Unit {0})
          (write_progress serde job c value)
  unfolding write_progress
  write_progress-told env value exact c log =
      Ends-bind log _ _ (Ends-encode env log value exact) λ json log1 h.
        Ends-bind log1 _ _ (Ends-any log1 _) λ n log2 u2.
          Ends-bind log2 _ _ (Ends-any log2 _) λ i log3 u3.
            Ends-bind log3 _ _
              (Ends-send {P = λ _ l. TellsLast c value l} log3 _
                (λ v _. progress_event-parse _ json value h) (λ _ _. tt))
              λ id log4 told.
                Ends-bind {Q = λ _ l. TellsLast c value l} log4 _ _
                  (Ends-read_text log4 id (λ _. told) (λ _. tt))
                  λ t log5 told'. Ends-pure log5 _ (refl, told')

  -- When the job has a connection context and `serde_json` reads back what it wrote: where
  -- update_progress returns, the job holds the new progress, and the last thing that it sent adds one entry
  -- to the stream of events of the job's queue, which listeners read as this progress of this job.
  pub update_progress-told :
      (env : Env) (c : JobContext) (value : J)
      → job.ctx ≡ some c
      → ((v : J) (s : String) → serde.json.encode v ≡ ok s → serde.json.decode s ≡ ok v)
      → (log : List Request)
      → Ends env log
          (λ new log'. (new ≡ record job { progress = some value }) × TellsLast c value log')
          (λ _ _. Unit {0})
          (update_progress serde job value)
  unfolding update_progress context lift
  update_progress-told env c value known exact log =
      Ends-after _ _ (bind-ok (context serde job) _ c (rw known refl)) (
        Ends-bind log _ _ (Ends-any log _) λ reply log2 u2.
          Ends-bind log2 _ _ (Ends-any log2 _) λ here log3 u3.
            Ends-if log3 here _ _ (λ _. write_progress-told env value exact c log3)
              (λ _. Ends-throw log3 _ tt))
