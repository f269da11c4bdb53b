-- ===== src/Worker/Machine.antt =====
-- worker.rs: the main loop of `start_with_signal` and the tasks that it spawns, interleaved in any
-- order, as steps between the states of what they share.
pub mod Tallies
pub mod Counted
pub mod Held
pub mod Regrants
pub mod Orphans
pub mod Pausing
pub mod Clearing
pub mod Leaving
pub mod Stopping
use bullmq_rs.Prelude.{
  ℕ, ◌+◌, ◌%◌, ◌^◌, ◌≤◌, ◌<◌, ◌≡◌, String, Bool, true, false, not, ◌&&◌, ◌||◌, Option, none, some,
  List, [], ◌∷◌, ◌++◌, length, if◌then◌else◌, ◌==◌,
}
use bullmq_rs.Text.{str_eq}
use bullmq_rs.Dict.{contains, string_eq}
use bullmq_rs.Scripts.Active.{MoveToActiveResult}

-- `active_jobs` is a `HashSet`.
abbrev pub set_insert : String → List String → List String
set_insert id set = if contains id set then set else id ∷ set

unfoldable pub set_remove : String → List String → List String
set_remove id [] = []
set_remove id (j ∷ set) = let rest = set_remove id set in if str_eq j id then rest else j ∷ rest

-- `fetch_add(1)` and `fetch_sub(1)` on an `AtomicUsize`.
abbrev pub fetch_add : ℕ → ℕ
fetch_add n = (n + 1) % 2 ^ 64

abbrev pub fetch_sub : ℕ → ℕ
fetch_sub n = (n + 18446744073709551615) % 2 ^ 64

-- What the loop and the tasks share: the semaphore's free permits, the fast-path channel, the counter of
-- prefetched jobs, the jobs whose locks are renewed, the values of the two watch channels, whether the pause channel
-- was written since the loop last waited for it, and whether the handle is gone, which closes both.
pub record Shared : Type 0 where
  pub permits : ℕ
  pub channel : List MoveToActiveResult
  pub prefetched : ℕ
  pub active_jobs : List String
  pub paused : Bool
  pub pause_unseen : Bool
  pub stopping : Bool
  pub dropped : Bool

-- Where the loop is. `taken` holds a result of the channel that the counter still counts; `settling` holds
-- a result, with a permit when it was fetched; `queued` waits for a permit for a job of the channel.
pub data Phase : Type 0 where
  head polling unfed waiting limited acquiring fetching throttled closing stopped : Phase
  taken : MoveToActiveResult → Phase
  settling : Bool → MoveToActiveResult → Phase
  queued : String → Phase

-- Where a task is: before it registered its job, with the handler or the settling script running, with a
-- next job in hand, about to unregister its own job, about to drop its permit.
pub data Task : Type 0 where
  starting running leaving : String → Task
  prefetching registered counted refused uncounted : String → MoveToActiveResult → Task
  ending : Task

pub record Machine : Type 0 where
  pub shared : Shared
  pub loop : Phase
  pub tasks : List Task

-- `shutdown_rx.changed()` gives: a value, or an error once the handle is gone.
abbrev pub stops : Shared → Bool
stops s = s.stopping || s.dropped

abbrev pub permit_of : Bool → ℕ
permit_of b = if b then 1 else 0

-- A step of the loop: the shared state, the phase, and the tasks that it spawns. `grants` says what the
-- server may answer moveToActive; clocks, the server's errors and a job's data may be any.
pub data LoopStep (grants : MoveToActiveResult → Type 0) (s : Shared)
    : Phase → Shared → Phase → List Task → Type 0 where
  -- `if *shutdown_rx.borrow() { break; }`
  leave : s.stopping ≡ true → LoopStep grants s head s closing []
  stay : s.stopping ≡ false → LoopStep grants s head s polling []
  -- `rx.try_recv()`
  receive :
      {r : MoveToActiveResult} {rs : List MoveToActiveResult}
      → s.channel ≡ (r ∷ rs)
      → LoopStep grants s polling (record s { channel = rs }) (taken r) []
  nothing : s.channel ≡ [] → LoopStep grants s polling s unfed []
  count_down :
      {r : MoveToActiveResult}
      → LoopStep grants s
          (taken r)
          (record s { prefetched = fetch_sub s.prefetched })
          (settling false r)
          []
  -- `else if *paused_rx.borrow()`; a change that was not seen yet ends the wait too.
  hold : s.paused ≡ true → LoopStep grants s unfed s waiting []
  changed :
      s.pause_unseen ≡ true → LoopStep grants s waiting (record s { pause_unseen = false }) head []
  changed_stop : stops s ≡ true → LoopStep grants s waiting s head []
  -- `limited_until > now`
  limit : s.paused ≡ false → LoopStep grants s unfed s limited []
  over : LoopStep grants s limited s head []
  limited_stop : stops s ≡ true → LoopStep grants s limited s closing []
  request : s.paused ≡ false → LoopStep grants s unfed s acquiring []
  acquire :
      {n : ℕ}
      → s.permits ≡ n + 1
      → LoopStep grants s acquiring (record s { permits = n }) fetching []
  acquiring_stop : stops s ≡ true → LoopStep grants s acquiring s closing []
  -- `continue` and `break` drop the permit.
  missed : LoopStep grants s fetching (record s { permits = s.permits + 1 }) head []
  fetching_stop :
      stops s ≡ true → LoopStep grants s fetching (record s { permits = s.permits + 1 }) closing []
  fetched : {r : MoveToActiveResult} → grants r → LoopStep grants s fetching s (settling true r) []
  -- `if let Some(ttl) = result.rate_limit_ttl`
  throttle :
      {b : Bool} {r : MoveToActiveResult} {ttl : ℕ}
      → r.rate_limit_ttl ≡ some ttl
      → LoopStep grants s
          (settling b r)
          (record s { permits = s.permits + permit_of b })
          throttled
          []
  throttled_over : LoopStep grants s throttled s head []
  throttled_stop : stops s ≡ true → LoopStep grants s throttled s closing []
  -- `if let Some(job_id) = result.job_id`
  jobless :
      {b : Bool} {r : MoveToActiveResult}
      → r.rate_limit_ttl ≡ none
      → r.job_id ≡ none
      → LoopStep grants s (settling b r) (record s { permits = s.permits + permit_of b }) head []
  -- `Job::from_redis_hash` failed
  unreadable :
      {b : Bool} {r : MoveToActiveResult} {id : String}
      → r.rate_limit_ttl ≡ none
      → r.job_id ≡ some id
      → LoopStep grants s
          (settling b r)
          (record s {
            permits = s.permits + permit_of b;
            active_jobs = set_remove id s.active_jobs;
          })
          head
          []
  spawn :
      {r : MoveToActiveResult} {id : String}
      → r.rate_limit_ttl ≡ none
      → r.job_id ≡ some id
      → LoopStep grants s (settling true r) s head (starting id ∷ [])
  queue :
      {r : MoveToActiveResult} {id : String}
      → r.rate_limit_ttl ≡ none
      → r.job_id ≡ some id
      → LoopStep grants s (settling false r) s (queued id) []
  spawn_queued :
      {id : String} {n : ℕ}
      → s.permits ≡ n + 1
      → LoopStep grants s (queued id) (record s { permits = n }) head (starting id ∷ [])
  queued_stop : {id : String} → stops s ≡ true → LoopStep grants s (queued id) s closing []

-- A step of a task, with what is left of it. `capacity` is the channel's.
pub data TaskStep (grants : MoveToActiveResult → Type 0) (capacity : ℕ) (s : Shared)
    : Task → Shared → List Task → Type 0 where
  register :
      {id : String}
      → TaskStep grants capacity s
          (starting id)
          (record s { active_jobs = set_insert id s.active_jobs })
          (running id ∷ [])
  -- Any outcome without a next job.
  settled : {id : String} → TaskStep grants capacity s (running id) s (leaving id ∷ [])
  -- The handler panics: the task ends where it is.
  panic :
      {id : String}
      → TaskStep grants capacity s (running id) (record s { permits = s.permits + 1 }) []
  -- `MoveToFinishedResult::NextJob(next)` with `next.job_id`
  prefetch :
      {id next : String} {r : MoveToActiveResult}
      → grants r
      → r.job_id ≡ some next
      → TaskStep grants capacity s (running id) s (prefetching id r ∷ [])
  register_next :
      {id next : String} {r : MoveToActiveResult}
      → r.job_id ≡ some next
      → TaskStep grants capacity s
          (prefetching id r)
          (record s { active_jobs = set_insert next s.active_jobs })
          (registered id r ∷ [])
  count_up :
      {id : String} {r : MoveToActiveResult}
      → TaskStep grants capacity s
          (registered id r)
          (record s { prefetched = fetch_add s.prefetched })
          (counted id r ∷ [])
  -- `try_send`
  sent :
      {id : String} {r : MoveToActiveResult}
      → length s.channel < capacity
      → TaskStep grants capacity s
          (counted id r)
          (record s { channel = s.channel ++ (r ∷ []) })
          (leaving id ∷ [])
  refuse :
      {id : String} {r : MoveToActiveResult}
      → capacity ≤ length s.channel
      → TaskStep grants capacity s (counted id r) s (refused id r ∷ [])
  count_back :
      {id : String} {r : MoveToActiveResult}
      → TaskStep grants capacity s
          (refused id r)
          (record s { prefetched = fetch_sub s.prefetched })
          (uncounted id r ∷ [])
  unregister_next :
      {id next : String} {r : MoveToActiveResult}
      → r.job_id ≡ some next
      → TaskStep grants capacity s
          (uncounted id r)
          (record s { active_jobs = set_remove next s.active_jobs })
          (leaving id ∷ [])
  unregister :
      {id : String}
      → TaskStep grants capacity s
          (leaving id)
          (record s { active_jobs = set_remove id s.active_jobs })
          (ending ∷ [])
  -- `_permit` is dropped.
  finish : TaskStep grants capacity s ending (record s { permits = s.permits + 1 }) []

-- One step of the worker. The server's answer may depend on all of its state.
pub data Step (server : Machine → MoveToActiveResult → Type 0) (concurrency : ℕ) (m : Machine)
    : Machine → Type 0 where
  loop_step :
      {s : Shared} {p : Phase} {ts : List Task}
      → LoopStep (server m) m.shared m.loop s p ts
      → Step server concurrency m (record { shared = s; loop = p; tasks = ts ++ m.tasks })
  task_step :
      {s : Shared} {t : Task} (xs ys ts : List Task)
      → m.tasks ≡ xs ++ (t ∷ ys)
      → TaskStep (server m) concurrency m.shared t s ts
      → Step server concurrency m (record { shared = s; loop = m.loop; tasks = xs ++ (ts ++ ys) })
  -- `acquire_many(concurrency as u32)`, whose permits are dropped at once
  drained :
      m.loop ≡ closing
      → concurrency % 2 ^ 32 ≤ m.shared.permits
      → Step server concurrency m (record m { loop = stopped })
  -- `WorkerHandle::pause`, `resume` and `shutdown`
  pause :
      m.shared.dropped ≡ false
      → Step server concurrency m
          (record m { shared = record (m.shared) { paused = true; pause_unseen = true } })
  resume :
      m.shared.dropped ≡ false
      → Step server concurrency m
          (record m { shared = record (m.shared) { paused = false; pause_unseen = true } })
  shutdown :
      m.shared.dropped ≡ false
      → Step server concurrency m (record m { shared = record (m.shared) { stopping = true } })
  drop_handle :
      Step server concurrency m (record m { shared = record (m.shared) { dropped = true } })

abbrev pub started : ℕ → Machine
started concurrency = record {
  shared = record {
    permits = concurrency;
    channel = [];
    prefetched = 0;
    active_jobs = [];
    paused = false;
    pause_unseen = false;
    stopping = false;
    dropped = false;
  };
  loop = head;
  tasks = [];
}

pub data Steps (server : Machine → MoveToActiveResult → Type 0) (concurrency : ℕ) (m : Machine)
    : Machine → Type 0 where
  still : Steps server concurrency m m
  later :
      {n k : Machine}
      → Steps server concurrency m n
      → Step server concurrency n k
      → Steps server concurrency m k

-- The steps of the loop and of the tasks, not of the handle.
abbrev pub IsOwn :
    {server : Machine → MoveToActiveResult → Type 0} {concurrency : ℕ} {m n : Machine}
    → Step server concurrency m n
    → Type 0
IsOwn (loop_step st) = Unit
IsOwn (task_step xs ys ts e st) = Unit
IsOwn (drained e free) = Unit
IsOwn _ = ⊥

pub data OwnSteps (server : Machine → MoveToActiveResult → Type 0) (concurrency : ℕ) (m : Machine)
    : Machine → Type 0 where
  stay_put : OwnSteps server concurrency m m
  go_on :
      {n k : Machine}
      → OwnSteps server concurrency m n
      → (st : Step server concurrency n k) → IsOwn st
      → OwnSteps server concurrency m k

-- The test by which `pause` takes the worker for quiet: it reads the counter first, and the permits
-- afterwards.
abbrev pub looks_quiet : ℕ → Machine → Machine → Bool
looks_quiet concurrency first second =
    first.shared.prefetched == 0 && second.shared.permits == concurrency
