-- ===== src/Worker/Machine/Held.antt =====
-- How often the worker holds a job.
use bullmq_rs.Prelude.{ℕ, ◌+◌, none, some, if◌then◌else◌, String}
use bullmq_rs.Text.{str_eq}
use bullmq_rs.Dict.{string_eq}
use bullmq_rs.Scripts.Active.{MoveToActiveResult}
use bullmq_rs.Worker.Machine.{
  Phase, settling, taken, queued, Task, starting, running, leaving, prefetching, registered,
  counted, refused, uncounted, ending, Machine,
}
use bullmq_rs.Worker.Machine.Tallies.{tally}

module _ (x : String) where
  abbrev pub same : String → ℕ
  same id = if str_eq id x then 1 else 0

  abbrev pub same_job : MoveToActiveResult → ℕ
  same_job r = elim r.job_id [ none ↦ 0 | some id ↦ same id ]

  -- How often the loop and a task hold the job `x`.
  abbrev pub held_loop : Phase → ℕ
  held_loop (taken r) = same_job r
  held_loop (settling b r) = same_job r
  held_loop (queued id) = same id
  held_loop _ = 0

  abbrev pub held_task : Task → ℕ
  held_task (starting id) = same id
  held_task (running id) = same id
  held_task (leaving id) = same id
  held_task (prefetching id r) = same id + same_job r
  held_task (registered id r) = same id + same_job r
  held_task (counted id r) = same id + same_job r
  held_task (refused id r) = same id + same_job r
  held_task (uncounted id r) = same id + same_job r
  held_task ending = 0

  abbrev pub held : Machine → ℕ
  held m = tally same_job m.shared.channel + held_loop m.loop + tally held_task m.tasks
