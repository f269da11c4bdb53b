-- ===== src/Worker/Fetch.antt =====
-- worker.rs: the fetch path of the main loop, from the marker to a claimed job, with what follows a rate
-- limit, and the rounds of the two background tasks.
pub mod Rounds
pub mod Renewals
use bullmq_rs.Prelude.{
  ℕ, ◌-◌, min, max, String, Bool, true, false, ◌||◌, ◌&&◌, not, Option, none, some, List, [], ◌∷◌,
  ltb, if◌then◌else◌,
}
use bullmq_rs.Text.{◌<>◌, str_eq, has_text}
use bullmq_rs.Error.{BullmqError, redis, display, Result, ok, err}
use bullmq_rs.Redis.{
  Value, bulk, simple, array, to_list, Request, command, Io, ◌>>=◌, ◌>>◌, pure, send, attempt,
  now_ms,
}
use bullmq_rs.Types.Worker.{RateLimiterOptions, default_max_events}
use bullmq_rs.Scripts.{key}
use bullmq_rs.Scripts.Decode.{text?}
use bullmq_rs.Scripts.Active.{MoveToActiveResult}
use bullmq_rs.Scripts.Finish.{move_to_active}
use bullmq_rs.Scripts.Locks.{StalledJobsResult, extend_lock, move_stalled_jobs_to_wait}
use bullmq_rs.Worker.Settle.{Config}

-- Where a round of the loop goes on: with a result, at the loop's head, or out of the loop.
pub data Next : Type 0 where
  proceed : MoveToActiveResult → Next
  again stop : Next

-- `error` stands for `on_error` and `WorkerEvent::Error`, with the event's message.
pub data FetchEvent : Type 0 where
  error : String → FetchEvent
  drained : FetchEvent
  limited : ℕ → FetchEvent

-- A round, the `was_drained` that it leaves, and the time that it slept.
pub record Round : Type 0 where
  pub next : Next
  pub events : List FetchEvent
  pub was_drained : Bool
  pub slept : Option ℕ

-- What wakes the lock extender: the end of its sleep, with the set as it is then, or the shutdown.
pub data Wake : Type 0 where
  slept : List String → Wake
  told : Wake

unfoldable pub is_bzpopmin_timeout : String → Bool
unfolding has_text
is_bzpopmin_timeout msg =
    has_text msg "timed out" || has_text msg "response was nil" || has_text msg "not compatible"

-- What the reply of BZPOPMIN says: a marker and its score, or nothing.
unfoldable pub member_of : Option String → String
member_of none = ""
member_of (some s) = s

unfoldable pub marker_items : List Value → Option (String × Value)
unfolding member_of text?
marker_items (key_ ∷ member ∷ score ∷ rest) = some (member_of (text? member), score)
marker_items _ = none

unfoldable pub marker_of : Result Value → Option (String × Value)
unfolding marker_items to_list
marker_of (ok (array items)) = marker_items (to_list items)
marker_of _ = none

-- `if result.job_id.is_some() || result.rate_limit_ttl.is_some()`
unfoldable pub is_useful : MoveToActiveResult → Bool
is_useful r = elim r.job_id [
  | none ↦ (elim r.rate_limit_ttl [ none ↦ false | some ttl ↦ true ])
  | some id ↦ true
]

-- What becomes of a call of moveToActive on the four paths: an error is told, but for the recovery after a
-- timeout; there, a reply without a job tells once that the queue is drained.
unfoldable pub asked : String → Bool → Result MoveToActiveResult → Round
unfolding is_useful
asked what was_drained (err e) = record {
  next = again;
  events = error (what <> display e) ∷ [];
  was_drained = was_drained;
  slept = none;
}
asked what was_drained (ok r) = record {
  next = if is_useful r then proceed r else again;
  events = [];
  was_drained = was_drained;
  slept = none;
}

unfoldable pub recovered : Bool → Result MoveToActiveResult → Round
unfolding is_useful
recovered was_drained (err e) = record {
  next = again;
  events = [];
  was_drained = was_drained;
  slept = none;
}
recovered was_drained (ok r) =
    if is_useful r
    then record { next = proceed r; events = []; was_drained = was_drained; slept = none }
    else record {
      next = again;
      events = if was_drained then [] else drained ∷ [];
      was_drained = true;
      slept = none;
    }

-- A score by way of `f64`, cast to `u64`; what is no number counts as 0.
abbrev pub Scores : Type 0
Scores = Value → ℕ

module _ (config : Config) where
  -- The four calls of moveToActive.
  unfoldable pub claim : Io (Result MoveToActiveResult)
  claim = now_ms >>= λ timestamp. attempt (
      move_to_active config.prefix config.name config.token config.lock_duration_ms timestamp
        default_max_events config.limiter)

module _ (scores : Scores) (block_timeout : String) (config : Config) where
  -- The marker "1": the score is the time of a delayed job; `stops` says that the shutdown comes while the
  -- loop sleeps.
  unfoldable pub await_delayed : (stops was_drained : Bool) → ℕ → Io Round
  unfolding claim asked
  await_delayed stops was_drained target = now_ms >>= λ now.
      let wait_ms = min (target - now) 5000 in
      if ltb now target && stops
      then pure
          (record { next = stop; events = []; was_drained = was_drained; slept = some wait_ms })
      else (claim config >>= λ r.
          pure (record (asked "moveToActive error after delay: " was_drained r) {
            slept = if ltb now target then some wait_ms else none;
          }))

  unfoldable pub on_marker : (stops was_drained : Bool) → Option (String × Value) → Io Round
  unfolding claim asked recovered await_delayed
  on_marker stops was_drained none = claim config >>= λ r. pure (recovered was_drained r)
  on_marker stops was_drained (some (member, score)) =
      if str_eq member "0"
      then (claim config >>= λ r. pure (asked "moveToActive error: " was_drained r))
      else if str_eq member "1"
      then await_delayed stops was_drained (scores score)
      else (claim config >>= λ r. pure (asked "moveToActive error: " was_drained r))

  -- A real error is told, and the loop sleeps for a second.
  unfoldable pub failed_round : (stops was_drained : Bool) → String → Round
  failed_round stops was_drained e = record {
    next = if stops then stop else again;
    events = error ("BZPOPMIN error: " <> e) ∷ [];
    was_drained = was_drained;
    slept = some 1000;
  }

  -- The `RedisError`'s own text.
  unfoldable pub redis_text : BullmqError → String
  redis_text (redis e) = e
  redis_text e = display e

  unfoldable pub after_reply : (stops was_drained : Bool) → Result Value → Io Round
  unfolding on_marker
  after_reply stops was_drained (ok v) = on_marker stops was_drained (marker_of (ok v))
  after_reply stops was_drained (err e) =
      if is_bzpopmin_timeout (redis_text e)
      then on_marker stops was_drained none
      else pure (failed_round stops was_drained (redis_text e))

  unfoldable pub fetch : (stops was_drained : Bool) → Io Round
  unfolding on_marker after_reply failed_round redis_text marker_of is_bzpopmin_timeout
  fetch stops was_drained =
      attempt
        (send (command ("BZPOPMIN" ∷ key config.prefix config.name "marker" ∷ block_timeout ∷ [])))
      >>= λ reply. after_reply stops was_drained reply

module _ (config : Config) where
  -- `ttl.clamp(10, 30_000)`
  abbrev pub clamp : ℕ → ℕ
  clamp ttl = min (max ttl 10) 30000

  -- `if let Some(ttl) = result.rate_limit_ttl`: the marker is restored after the sleep.
  unfoldable pub throttle : (stops was_drained : Bool) → ℕ → Io Round
  throttle stops was_drained ttl =
      if stops
      then pure (record {
        next = stop;
        events = limited ttl ∷ [];
        was_drained = was_drained;
        slept = some (clamp ttl);
      })
      else (attempt
            (send (command ("ZADD" ∷ key config.prefix config.name "marker" ∷ "0" ∷ "0" ∷ [])))
          >>= λ r. pure (record {
            next = again;
            events = limited ttl ∷ [];
            was_drained = was_drained;
            slept = some (clamp ttl);
          }))

  -- A round of the lock extender: errors are logged only.
  unfoldable pub extend_round : List String → Io (Unit {0})
  extend_round [] = pure tt
  extend_round (job_id ∷ job_ids) =
      attempt (extend_lock config.prefix config.name job_id config.token config.lock_duration_ms)
      >>= λ r. extend_round job_ids

  -- The lock extender's task: each round after a sleep reads the set of the active jobs, and a change of
  -- the shutdown flag ends it. It runs as long as it is woken.
  unfoldable pub extend_loop : List Wake → Io (Unit {0})
  unfolding extend_round
  extend_loop [] = pure tt
  extend_loop (told ∷ wakes) = pure tt
  extend_loop (slept job_ids ∷ wakes) = extend_round job_ids >>= λ r. extend_loop wakes

  -- A round of the stalled checker.
  unfoldable pub stalled_round : (max_stalled_count stalled_interval : ℕ) → Io (Unit {0})
  stalled_round max_stalled_count stalled_interval = now_ms >>= λ timestamp.
      attempt (
        move_stalled_jobs_to_wait config.prefix config.name max_stalled_count stalled_interval
          timestamp default_max_events)
      >>= λ r. pure tt
