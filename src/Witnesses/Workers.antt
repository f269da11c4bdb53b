-- ===== src/Witnesses/Workers.antt =====
-- Concrete runs of the worker's loop, its tasks and its background rounds.
use bullmq_rs.Prelude.{◌≡◌, refl, String, true, false, none, some, [], ◌∷◌, arith}
use bullmq_rs.Dict.{contains, string_eq}
use bullmq_rs.Redis.Ends.{Ends}
use bullmq_rs.Scripts.Active.{MoveToActiveResult}
use bullmq_rs.Worker.Machine.{
  Machine, head, settling, stopped, starting, running, prefetching, registered, counted, leaving,
  ending, stay, nothing, request, acquire, fetched, spawn, receive, count_down, register, prefetch,
  register_next, count_up, sent, unregister, finish, started, Steps, still, later, loop_step,
  task_step, shutdown, set_remove, looks_quiet, OwnSteps,
}
use bullmq_rs.Worker.Machine.Counted.{Counts, Steps-Counts}
use bullmq_rs.Worker.Machine.Held.{held}
use bullmq_rs.Worker.Machine.Pausing.{pause-overlooks}
use bullmq_rs.Worker.Machine.Stopping.{shutdown-can_stop}
use bullmq_rs.Worker.Fetch.{slept, told, fetch, extend_loop}
use bullmq_rs.Worker.Fetch.Rounds.{claims, Sensible, fetch-Sensible}
use bullmq_rs.Worker.Fetch.Renewals.{round_renewals, extend_loop-renews}
use bullmq_rs.Witnesses.{server, worker}

-- A server that hands out any job which this worker neither holds nor renews.
abbrev Fresh : Machine → MoveToActiveResult → Type 0
Fresh m r = elim r.job_id [
  | none ↦ ⊥
  | some id ↦ (held id m ≡ 0) × (contains id m.shared.active_jobs ≡ false)
]

abbrev claimed : String → MoveToActiveResult
claimed id = record { job_id = some id; job_data = []; rate_limit_ttl = none }

-- One job fetched, and its task running.
abbrev at_work : Machine
at_work = record {
  shared = record {
    permits = 0;
    channel = [];
    prefetched = 0;
    active_jobs = "7" ∷ [];
    paused = false;
    pause_unseen = false;
    stopping = false;
    dropped = false;
  };
  loop = head;
  tasks = running "7" ∷ [];
}

work : Steps Fresh 1 (started 1) at_work
unfolding contains
work =
    later
      (later
        (later
          (later
            (later (later (later still (loop_step (stay refl))) (loop_step (nothing refl)))
              (loop_step (request refl)))
            (loop_step (acquire {n = 0} refl)))
          (loop_step (fetched {r = claimed "7"} (refl, refl))))
        (loop_step (spawn refl refl)))
      (task_step [] [] (running "7" ∷ []) refl register)

-- Its task fetched a next one and ended; the loop has that one in hand.
abbrev in_hand : Machine
in_hand = record {
  shared = record {
    permits = 1;
    channel = [];
    prefetched = 0;
    active_jobs = "8" ∷ [];
    paused = false;
    pause_unseen = false;
    stopping = false;
    dropped = false;
  };
  loop = settling false (claimed "8");
  tasks = [];
}

prefetched_next : Steps Fresh 1 (started 1) in_hand
unfolding contains set_remove
prefetched_next =
    later
      (later
        (later
          (later
            (later
              (later
                (later
                  (later
                    (later work (
                      task_step [] [] (prefetching "7" (claimed "8") ∷ []) refl
                        (prefetch (refl, refl) refl)))
                    (task_step [] [] (registered "7" (claimed "8") ∷ []) refl (register_next refl)))
                  (task_step [] [] (counted "7" (claimed "8") ∷ []) refl count_up))
                (task_step [] [] (leaving "7" ∷ []) refl (sent (omega arith))))
              (task_step [] [] (ending ∷ []) refl unregister))
            (task_step [] [] [] refl finish))
          (loop_step (stay refl)))
        (loop_step (receive refl)))
      (loop_step count_down)

-- Told to stop at its start.
abbrev at_end : Machine
at_end = record {
  shared = record {
    permits = 1;
    channel = [];
    prefetched = 0;
    active_jobs = [];
    paused = false;
    pause_unseen = false;
    stopping = true;
    dropped = false;
  };
  loop = stopped;
  tasks = [];
}

Steps-Counts_example : Counts 1 in_hand
Steps-Counts_example = Steps-Counts (omega arith) prefetched_next

-- A server that hands out nothing any more.
abbrev Empty : Machine → MoveToActiveResult → Type 0
Empty m r = ⊥

pause-overlooks_example :
    (looks_quiet 1 in_hand in_hand ≡ true)
    × ((n : Machine) × Steps Fresh 1 in_hand n × (n.tasks ≡ starting "8" ∷ []))
pause-overlooks_example =
    pause-overlooks Fresh 1 (omega arith) prefetched_next (claimed "8") "8" (omega arith) refl refl
      refl refl refl

-- The worker at work, told to stop.
abbrev stopping_work : Machine
stopping_work = record at_work { shared = record (at_work.shared) { stopping = true } }

shutdown-can_stop_example : (n : Machine) × OwnSteps Fresh 1 stopping_work n × (n.loop ≡ stopped)
shutdown-can_stop_example =
    shutdown-can_stop Fresh 1 (omega arith) (later work (shutdown refl)) refl

fetch-Sensible_example :
    Ends server []
      (λ round l. Sensible (claims []) round l)
      (λ _ _. ⊥)
      (fetch (λ v. 0) "5" worker false false)
fetch-Sensible_example = fetch-Sensible server (λ v. 0) "5" worker false false []

-- The shutdown comes after one round, in which the jobs 7 and 8 were active; job 8 goes on.
extend_loop-renews_example :
    Ends server []
      (λ _ l. l ≡ round_renewals worker (("7" ∷ "8" ∷ []) ∷ []) [])
      (λ _ _. ⊥)
      (extend_loop worker (slept ("7" ∷ "8" ∷ []) ∷ told ∷ slept ("8" ∷ []) ∷ []))
extend_loop-renews_example =
    extend_loop-renews server worker (("7" ∷ "8" ∷ []) ∷ []) (slept ("8" ∷ []) ∷ []) []
