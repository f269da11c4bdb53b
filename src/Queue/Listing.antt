-- ===== src/Queue/Listing.antt =====
-- queue.rs: `get_job_ids`, `get_job`, `get_jobs` and its seven shorthands.
pub mod Once
pub mod Slices
use bullmq_rs.Prelude.{
  ℕ, String, Bool, true, false, ◌||◌, Option, none, some, List, [], ◌∷◌, ◌++◌, reverse,
  if◌then◌else◌,
}
use bullmq_rs.Prelude.Int.{ℤ, pos, negsuc}
use bullmq_rs.Dict.{contains, string_eq}
use bullmq_rs.Redis.{Io, ◌>>=◌, pure, lift, send, command, read_texts, read_hash}
use bullmq_rs.Types.State.{
  JobState, wait, paused, active, completed, failed, delayed, prioritized, waiting_children,
  to_text,
}
use bullmq_rs.Job.{Job, Serde, JobContext}
use bullmq_rs.Job.Hash.{from_redis_hash}
use bullmq_rs.Scripts.{key, int_to_string}
use bullmq_rs.Scripts.Decode.{int_eq}
use bullmq_rs.Queue.States.{normalize_job_states}

-- `JobState::Wait | JobState::Active | JobState::Paused`
unfoldable pub is_list : JobState → Bool
is_list wait = true
is_list active = true
is_list paused = true
is_list _ = false

-- `-(x + 1)`
abbrev pub mirrored : ℤ → ℤ
mirrored (pos n) = negsuc n
mirrored (negsuc n) = pos n

-- `if x == -1 { 0 } else { -(x + 1) }`
unfoldable pub from_the_end : ℤ → ℤ
from_the_end x = if int_eq x (negsuc 0) then pos 0 else mirrored x

module _ (prefix name : String) where
  pub range_of : String → JobState → ℤ → ℤ → Io (List String)
  range_of word state start stop = do
    reply ← send (
        command
          (word ∷ key prefix name (to_text state) ∷ int_to_string start ∷ int_to_string stop ∷ []))
    read_texts reply

  unfoldable pub get_job_ids : JobState → ℤ → ℤ → Bool → Io (List String)
  unfolding range_of
  get_job_ids state start stop asc =
      if is_list state
      then (if asc
          then (range_of "LRANGE" state (from_the_end stop) (from_the_end start) >>= λ ids.
              pure (reverse ids))
          else range_of "LRANGE" state start stop)
      else range_of (if asc then "ZRANGE" else "ZREVRANGE") state start stop

  module _ {T J : Type 0} (serde : Serde T J) where
    abbrev context : Option JobContext
    context = some (record { prefix = prefix; queue_name = name })

    unfoldable pub hgetall : String → Io (List (String × String))
    hgetall job_id = do
      reply ← send (command ("HGETALL" ∷ key prefix name job_id ∷ []))
      read_hash reply

    parsed : String → List (String × String) → Io (Option (Job T J))
    parsed job_id [] = pure none
    parsed job_id (field ∷ fields) = lift (from_redis_hash serde job_id (field ∷ fields)) >>= λ job.
        pure (some (record job { ctx = context }))

    -- An empty hash is no job.
    unfoldable pub get_job : String → Io (Option (Job T J))
    unfolding hgetall parsed
    get_job job_id = hgetall job_id >>= λ map. parsed job_id map

    abbrev with_state : Option (Job T J) → JobState → List (Job T J) → List (Job T J)
    with_state none state jobs = jobs
    with_state (some job) state jobs = record job { state = state } ∷ jobs

    -- The jobs of one state whose ids are not in the set, and the set afterwards.
    unfoldable pub fetch_jobs :
        JobState → List String → List String → Io (List (Job T J) × List String)
    unfolding get_job
    fetch_jobs state [] seen = pure ([], seen)
    fetch_jobs state (id ∷ ids) seen =
        if contains id seen
        then fetch_jobs state ids seen
        else (get_job id >>= λ found.
            (fetch_jobs state ids (id ∷ seen) >>= λ rest.
            pure (with_state found state rest.0, rest.1)))

    unfoldable pub jobs_in : List JobState → ℤ → ℤ → Bool → List String → Io (List (Job T J))
    unfolding fetch_jobs
    jobs_in [] start stop asc seen = pure []
    jobs_in (state ∷ states) start stop asc seen = do
      ids ← get_job_ids state start stop asc
      found ← fetch_jobs state ids seen
      rest ← jobs_in states start stop asc found.1
      pure (found.0 ++ rest)

    unfoldable pub get_jobs : List JobState → ℤ → ℤ → Bool → Io (List (Job T J))
    unfolding jobs_in
    get_jobs states start stop asc = jobs_in (normalize_job_states states) start stop asc []

    unfoldable pub get_waiting : ℤ → ℤ → Io (List (Job T J))
    get_waiting start stop = get_jobs (wait ∷ []) start stop true

    unfoldable pub get_active : ℤ → ℤ → Io (List (Job T J))
    get_active start stop = get_jobs (active ∷ []) start stop true

    unfoldable pub get_delayed : ℤ → ℤ → Io (List (Job T J))
    get_delayed start stop = get_jobs (delayed ∷ []) start stop true

    unfoldable pub get_prioritized : ℤ → ℤ → Io (List (Job T J))
    get_prioritized start stop = get_jobs (prioritized ∷ []) start stop true

    unfoldable pub get_completed : ℤ → ℤ → Io (List (Job T J))
    get_completed start stop = get_jobs (completed ∷ []) start stop false

    unfoldable pub get_failed : ℤ → ℤ → Io (List (Job T J))
    get_failed start stop = get_jobs (failed ∷ []) start stop false

    unfoldable pub get_waiting_children : ℤ → ℤ → Io (List (Job T J))
    get_waiting_children start stop = get_jobs (waiting_children ∷ []) start stop true
