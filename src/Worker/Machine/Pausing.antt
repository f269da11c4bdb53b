-- ===== src/Worker/Machine/Pausing.antt =====
-- `WorkerHandle::pause`, which polls the counter and the permits until the worker looks quiet.
use bullmq_rs.Prelude.{
  ℕ, ◌+◌, ◌-◌, ◌^◌, ◌<◌, ◌≡◌, true, false, none, some, List, [], ◌∷◌, length, arith, refl, String,
}
use bullmq_rs.Scripts.Active.{MoveToActiveResult}
use bullmq_rs.Worker.Machine.{
  Shared, Phase, LoopStep, queued, settling, Task, starting, Machine, loop_step, queue,
  spawn_queued, started, Steps, still, later, looks_quiet,
}
use bullmq_rs.Worker.Machine.Tallies.{tally}
use bullmq_rs.Worker.Machine.Counted.{one, Steps-Counts}

pub tally-one_zero : (ts : List Task) → tally one ts ≡ 0 → ts ≡ []
tally-one_zero [] h = refl
tally-one_zero (t ∷ ts) h = absurd (omega arith)

length-zero : (rs : List MoveToActiveResult) → length rs ≡ 0 → rs ≡ []
length-zero [] h = refl
length-zero (r ∷ rs) h = absurd (omega arith)

queue_at :
    {g : MoveToActiveResult → Type 0} {s : Shared} {p : Phase} {r : MoveToActiveResult}
    {id : String}
    → p ≡ settling false r
    → r.rate_limit_ttl ≡ none
    → r.job_id ≡ some id
    → LoopStep g s p s (queued id) []
queue_at e l j = rw e (queue l j)

module _ (server : Machine → MoveToActiveResult → Type 0) (concurrency : ℕ)
    (few : concurrency < 2 ^ 61) {m : Machine}
    (run : Steps server concurrency (started concurrency) m) where
  -- With a concurrency below 2 ^ 61: between the counter's decrement and the permit of a prefetched
  -- job, the test holds too where nothing else goes on, although the job is still to be processed: the
  -- worker can go on to start it.
  pub pause-overlooks :
      (r : MoveToActiveResult) (id : String)
      → 0 < concurrency
      → m.loop ≡ settling false r
      → r.rate_limit_ttl ≡ none
      → r.job_id ≡ some id
      → m.tasks ≡ []
      → m.shared.channel ≡ []
      → (looks_quiet concurrency m m ≡ true)
        × ((n : Machine) × Steps server concurrency m n × (n.tasks ≡ starting id ∷ []))
  pause-overlooks r id pos at_job unlimited job idle empty =
      let c = Steps-Counts few run in
      let free : m.shared.permits ≡ (concurrency - 1) + 1 = ground (arith, c.permits) in
      (
        ground (arith, c.permits, c.prefetched),
        (
          _,
          later (later still (loop_step (queue_at at_job unlimited job)))
              (loop_step (spawn_queued free)),
          rw idle refl,
        ),
      )
