-- ===== src/Worker/Machine/Orphans.antt =====
-- A job that the worker renews and does not hold any more, such as one whose handler panicked.
use bullmq_rs.Prelude.{some, ◌≢◌, ℕ, ◌+◌, ◌≡◌, true, List, ◌++◌, String}
use bullmq_rs.Dict.{contains, string_eq}
use bullmq_rs.Scripts.Active.{MoveToActiveResult}
use bullmq_rs.Worker.Machine.{Shared, Phase, Task, Machine}
use bullmq_rs.Worker.Machine.Tallies.{tally}
use bullmq_rs.Worker.Machine.Held.{same_job, held_loop, held}
use bullmq_rs.Redis.Ends.{Ends}

module _ (x : String) where
  -- With `n` for the tasks.
  abbrev Lost : Shared → Phase → ℕ → Type 0
  Lost s p n =
      (tally (same_job x) s.channel + held_loop x p + n ≡ 0) × (contains x s.active_jobs ≡ true)

-- The worker does not hold the job and renews its lock.
abbrev IsOrphan : String → Machine → Type 0
IsOrphan id m = (held id m ≡ 0) × (contains id m.shared.active_jobs ≡ true)

-- A server that does not hand out the job.
abbrev pub Withholds : String → (Machine → MoveToActiveResult → Type 0) → Type 0
Withholds id server = (m : Machine) (r : MoveToActiveResult) → server m r → r.job_id ≢ some id

-- The worker after the handler of a task panicked.
abbrev pub panicked : Machine → List Task → List Task → Machine
panicked m xs ys = record {
  shared = record (m.shared) { permits = m.shared.permits + 1 };
  loop = m.loop;
  tasks = xs ++ ys;
}
