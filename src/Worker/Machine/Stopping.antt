-- ===== src/Worker/Machine/Stopping.antt =====
-- The end of the worker: the loop leaves, and waits for its tasks by taking all permits.
use bullmq_rs.Prelude.{ℕ, ◌^◌, ◌<◌, ◌≡◌, true, List, arith, refl, inl, inr}
use bullmq_rs.Scripts.Active.{MoveToActiveResult}
use bullmq_rs.Worker.Machine.{
  Shared, closing, stopped, Task, Machine, drained, started, Steps, OwnSteps, stay_put, go_on,
}
use bullmq_rs.Worker.Machine.Counted.{Steps-Counts}
use bullmq_rs.Worker.Machine.Clearing.{
  state, OwnSteps-append, Steps-OwnSteps, Steps-named, clear_all,
}
use bullmq_rs.Worker.Machine.Leaving.{leave_loop}

module _ (server : Machine → MoveToActiveResult → Type 0) (concurrency : ℕ)
    (few : concurrency < 2 ^ 61) where
  -- With a concurrency below 2 ^ 61: once the worker was told to stop, steps of its loop and of its
  -- tasks alone, without its handle, can bring it to its end from every state that it reaches.
  pub shutdown-can_stop :
      {m : Machine}
      → Steps server concurrency (started concurrency) m
      → m.shared.stopping ≡ true
      → (n : Machine) × OwnSteps server concurrency m n × (n.loop ≡ stopped)
  shutdown-can_stop {m} r h = elim (leave_loop server concurrency m.shared m.loop m.tasks h) [
    | inl e ↦ (m, stay_put, e)
    | inr (s, ts, q) ↦ finish_up s ts q
  ]
    where
      finish_up :
          (s : Shared) (ts : List Task)
          → OwnSteps server concurrency m (state s closing ts)
          → (n : Machine) × OwnSteps server concurrency m n × (n.loop ≡ stopped)
      finish_up s ts q =
          let k = clear_all server concurrency s closing ts (Steps-named (Steps-OwnSteps r q)) in
          let all = OwnSteps-append q k.1 in
          (
            _,
            go_on all
                (drained refl (omega (arith, (Steps-Counts few (Steps-OwnSteps r all)).permits)))
                tt,
            refl,
          )
