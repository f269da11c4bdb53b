-- ===== src/Queue/Scheduling/Listed.antt =====
-- queue.rs: `get_job_schedulers`, and how it agrees with `get_job_scheduler`.
use bullmq_rs.Prelude.{ℕ, ◌≡◌, refl, ap, ◌∙◌, String, Option, none, some, List, [], ◌∷◌, All}
use bullmq_rs.Prelude.Int.{ℤ}
use bullmq_rs.Text.{◌<>◌}
use bullmq_rs.Dict.{contains}
use bullmq_rs.Error.{Result, ok}
use bullmq_rs.Redis.{
  Value, value, Request, command, script, Env, Io, ◌>>=◌, pure, lift, send, read_hash,
}
use bullmq_rs.Redis.Ends.{Ends, Ends-pure, Ends-bind, Ends-send_value, Ends-lift_ok, Ends-read_hash}
use bullmq_rs.Job.{Serde}
use bullmq_rs.Scripts.{key, int_to_string, registered, invoke}
use bullmq_rs.Scripts.Repeats.{read_job_scheduler, scheduler_reply}
use bullmq_rs.Queue.Scheduling.{
  Formats, JobScheduler, scheduler_from_hash, found_scheduler, get_job_scheduler,
}

abbrev repeat_range : (prefix name : String) → ℤ → ℤ → Request
repeat_range prefix name start end = command (
    "ZRANGE"
    ∷ key prefix name "repeat"
    ∷ int_to_string start
    ∷ int_to_string end
    ∷ "WITHSCORES"
    ∷ [])

abbrev repeat_hash : (prefix name id : String) → Request
repeat_hash prefix name id = command ("HGETALL" ∷ key prefix name ("repeat:" <> id) ∷ [])

-- `entries_of` reads the reply as a `Vec<(String, f64)>`, with the scores cast to `u64`.
module _ {T J : Type 0} (serde : Serde T J) (formats : Formats)
    (entries_of : Value → Result (List (String × ℕ))) (prefix name : String) where
  unfoldable scheduler_hash : String → Io (List (String × String))
  scheduler_hash id = do reply ← send (repeat_hash prefix name id); read_hash reply

  -- `for (id, score) in entries`
  unfoldable pub each_scheduler : List (String × ℕ) → Io (List (JobScheduler J))
  unfolding scheduler_hash
  each_scheduler [] = pure []
  each_scheduler ((id, score) ∷ entries) = do
    map ← scheduler_hash id
    schedulers ← each_scheduler entries
    pure (scheduler_from_hash serde formats.parse_f64 id map (some score) ∷ schedulers)

  unfoldable pub get_job_schedulers : ℤ → ℤ → Io (List (JobScheduler J))
  unfolding each_scheduler
  get_job_schedulers start end = do
    reply ← send (repeat_range prefix name start end)
    entries ← lift (entries_of reply)
    each_scheduler entries

  -- The server holds the entry's hash, and its script getJobScheduler answers with the hash and the score.
  pub record Found (env : Env) (hashes : String → List (String × String)) (id : String) (score : ℕ)
      : Type 0 where
    pub hash :
        (log : List Request)
        → (v : Value) × (env.answer log (repeat_hash prefix name id) ≡ value v)
          × (env.to_hash v ≡ ok (hashes id))
    pub answer :
        (log : List Request)
        → (v : Value) × (env.answer log
              (script "getJobScheduler" (key prefix name "repeat" ∷ []) (id ∷ []))
            ≡ value v)
          × (scheduler_reply formats.parse_f64 v ≡ some (hashes id, score))

  -- The server holds these entries in the range, each with its hash.
  pub record HoldsSchedulers (env : Env) (start end : ℤ) (entries : List (String × ℕ))
      (hashes : String → List (String × String)) : Type 0 where
    pub range :
        (log : List Request)
        → (v : Value) × (env.answer log (repeat_range prefix name start end) ≡ value v)
          × (entries_of v ≡ ok entries)
    pub found : All (λ e. Found env hashes e.0 e.1) entries

  -- What is asked for alone: nothing where the hash is empty.
  abbrev pub unless_empty : List (String × String) → JobScheduler J → Option (JobScheduler J)
  unless_empty [] s = none
  unless_empty (f ∷ fields) s = some s

  module _ (env : Env) (hashes : String → List (String × String)) where
    -- One scheduler for each entry, in their order; each is what get_job_scheduler finds under its id.
    abbrev pub Agree : List (String × ℕ) → List (JobScheduler J) → Type 0
    Agree [] [] = Unit
    Agree ((id, score) ∷ entries) (s ∷ schedulers) =
        (s.id ≡ id)
        × (s.next ≡ some score)
        × (((log : List Request)
              → Ends env log (λ one _. one ≡ unless_empty (hashes id) s) (λ _ _. ⊥)
                  (get_job_scheduler prefix name serde formats id))
            × Agree entries schedulers)
    Agree _ _ = ⊥

  found-unless_empty :
      (id : String) (score : ℕ) (hash : List (String × String))
      → found_scheduler prefix name serde formats id (some (hash, score))
        ≡ unless_empty hash (scheduler_from_hash serde formats.parse_f64 id hash (some score))
  unfolding found_scheduler
  found-unless_empty id score [] = refl
  found-unless_empty id score (f ∷ fields) = refl

  module _ (env : Env) (start end : ℤ) (entries : List (String × ℕ))
      (hashes : String → List (String × String))
      (known : HoldsSchedulers env start end entries hashes) where
    scheduler_hash-Found :
        (id : String) (score : ℕ)
        → Found env hashes id score
        → (log : List Request)
        → Ends env log (λ map _. map ≡ hashes id) (λ _ _. ⊥) (scheduler_hash id)
    unfolding scheduler_hash
    scheduler_hash-Found id score known_one log =
        let (v, answer, told) = known_one.hash log in
        Ends-bind log _ _ (Ends-send_value log _ v answer)
          λ w l h. Ends-read_hash l w (hashes id) (ap env.to_hash h ∙ told) refl

    read_job_scheduler-Found :
        (id : String) (score : ℕ)
        → Found env hashes id score
        → (log : List Request)
        → Ends env log
            (λ r _. r ≡ some (hashes id, score))
            (λ _ _. ⊥)
            (read_job_scheduler formats.parse_f64 prefix name id)
    unfolding read_job_scheduler invoke contains registered
    read_job_scheduler-Found id score known_one log =
        let (v, answer, told) = known_one.answer log in
        Ends-bind log _ _ (Ends-send_value log _ v answer)
          λ w l h. Ends-pure l _ (ap (scheduler_reply formats.parse_f64) h ∙ told)

    get_job_scheduler-Found :
        (id : String) (score : ℕ) (map : List (String × String))
        → map ≡ hashes id
        → Found env hashes id score
        → (log : List Request)
        → Ends env log
            (λ one _.
              one
              ≡ unless_empty
                  (hashes id)
                  (scheduler_from_hash serde formats.parse_f64 id map (some score)))
            (λ _ _. ⊥)
            (get_job_scheduler prefix name serde formats id)
    unfolding get_job_scheduler
    get_job_scheduler-Found id score map h known_one log =
        Ends-bind log _ _ (read_job_scheduler-Found id score known_one log) λ r l told.
          Ends-pure l _ (
            ap (found_scheduler prefix name serde formats id) told
            ∙ rw h (found-unless_empty id score (hashes id)))

    each_scheduler-Agree :
        (es : List (String × ℕ))
        → All (λ e. Found env hashes e.0 e.1) es
        → (log : List Request)
        → Ends env log (λ found _. Agree env hashes es found) (λ _ _. ⊥) (each_scheduler es)
    unfolding each_scheduler scheduler_from_hash
    each_scheduler-Agree [] knowns log = Ends-pure log [] tt
    each_scheduler-Agree ((id, score) ∷ es) (known_one, knowns) log =
        Ends-bind log _ _ (scheduler_hash-Found id score known_one log) λ map l h.
          Ends-bind l _ _ (each_scheduler-Agree es knowns l) λ rest l' agree.
            Ends-pure l' _ (refl, refl, (get_job_scheduler-Found id score map h known_one, agree))

    -- When the server holds the entries of the range with their hashes, and its script finds each:
    -- get_job_schedulers returns one scheduler for each entry, in their order; and get_job_scheduler finds
    -- the same scheduler under the entry's id, but nothing where the hash of the entry is empty.
    pub get_job_schedulers-Agree :
        (log : List Request)
        → Ends env log
            (λ found _. Agree env hashes entries found)
            (λ _ _. ⊥)
            (get_job_schedulers start end)
    unfolding get_job_schedulers
    get_job_schedulers-Agree log =
        let (v, answer, told) = known.range log in
        Ends-bind log _ _ (Ends-send_value log _ v answer) λ w l h.
          Ends-bind {Q = λ es _. es ≡ entries} l _ _
            (Ends-lift_ok l (entries_of w) entries (ap entries_of h ∙ told) refl)
            λ es l' e. rw e (each_scheduler-Agree entries known.found l')
