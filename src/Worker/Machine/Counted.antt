-- ===== src/Worker/Machine/Counted.antt =====
-- The permits, the counter and the channel of the worker, at every step.
use bullmq_rs.Prelude.{
  ℕ, ◌+◌, ◌^◌, ◌≤◌, ◌<◌, ◌≡◌, List, [], ◌∷◌, length, length-append, arith, refl,
}
use bullmq_rs.Scripts.Active.{MoveToActiveResult}
use bullmq_rs.Worker.Machine.{
  Shared, Phase, fetching, settling, taken, Task, counted, refused, Machine, permit_of, LoopStep,
  receive, acquire, spawn_queued, leave, register, TaskStep, Step, loop_step, task_step, drained,
  started, Steps, still, later, sent,
}
use bullmq_rs.Worker.Machine.Tallies.{tally, tally-append, tally-at, tally-replaced}

-- The permit that the loop holds.
abbrev pub reserved : Phase → ℕ
reserved fetching = 1
reserved (settling b r) = permit_of b
reserved _ = 0

-- Results that left the channel before the counter came down, or are counted before they enter it.
abbrev pub between : Phase → ℕ
between (taken r) = 1
between _ = 0

abbrev pub announced : Task → ℕ
announced (counted _ _) = 1
announced (refused _ _) = 1
announced _ = 0

abbrev pub one : Task → ℕ
one t = 1

pub record Counts (concurrency : ℕ) (m : Machine) : Type 0 where
  pub permits : m.shared.permits + reserved m.loop + tally one m.tasks ≡ concurrency
  pub prefetched :
      m.shared.prefetched ≡ length m.shared.channel + between m.loop + tally announced m.tasks
  pub channel : length m.shared.channel ≤ concurrency

between-le : (p : Phase) → between p ≤ 1
between-le p = ground arith

announced-le : (ts : List Task) → tally announced ts ≤ tally one ts
announced-le [] = omega arith
announced-le (t ∷ ts) = ground (arith, announced-le ts)

-- The conditions of the steps that change these numbers, for the catch-all clauses below.
abbrev LoopGuard :
    {g : MoveToActiveResult → Type 0} {s s' : Shared} {p p' : Phase} {ts : List Task}
    → LoopStep g s p s' p' ts
    → Type 0
LoopGuard {s} (receive {r} {rs} _) = s.channel ≡ (r ∷ rs)
LoopGuard {s} (acquire {n} _) = s.permits ≡ n + 1
LoopGuard {s} (spawn_queued {id} {n} _) = s.permits ≡ n + 1
LoopGuard _ = Unit

loop_guard :
    {g : MoveToActiveResult → Type 0} {s s' : Shared} {p p' : Phase} {ts : List Task}
    (st : LoopStep g s p s' p' ts)
    → LoopGuard st
loop_guard (receive h) = h
loop_guard (acquire h) = h
loop_guard (spawn_queued h) = h
loop_guard _ = tt

-- `n` tasks elsewhere, `k` of them with a counted result that is not in the channel.
record Kept (concurrency n k : ℕ) (s : Shared) (p : Phase) : Type 0 where
  permits : s.permits + reserved p + n ≡ concurrency
  prefetched : s.prefetched ≡ length s.channel + between p + k
  channel : length s.channel ≤ concurrency

module _ {grants : MoveToActiveResult → Type 0} (concurrency n k : ℕ) (few : concurrency < 2 ^ 61)
    (fits : k ≤ n) where
  LoopStep-Kept :
      {s s' : Shared} {p p' : Phase} {ts : List Task}
      → LoopStep grants s p s' p' ts
      → Kept concurrency n k s p
      → Kept concurrency (tally one ts + n) (tally announced ts + k) s' p'
  LoopStep-Kept (leave e) h = record {
    permits = omega (arith, h.permits);
    prefetched = omega (arith, h.prefetched);
    channel = omega (arith, h.channel);
  }
  LoopStep-Kept st h = record {
    permits = ground (arith, loop_guard st, h.permits);
    prefetched = ground (arith, loop_guard st, h.prefetched, h.channel, h.permits);
    channel = ground (arith, loop_guard st, h.channel);
  }

  TaskStep-Kept :
      {s s' : Shared} (p : Phase) {t : Task} {ts : List Task}
      → TaskStep grants concurrency s t s' ts
      → Kept concurrency (n + 1) (announced t + k) s p
      → Kept concurrency (tally one ts + n) (tally announced ts + k) s' p
  TaskStep-Kept p register h = record {
    permits = omega (arith, h.permits);
    prefetched = omega (arith, h.prefetched);
    channel = omega (arith, h.channel);
  }
  TaskStep-Kept {s} p (sent {r} room) h = record {
    permits = omega (arith, h.permits);
    prefetched = omega (arith, h.prefetched, length-append s.channel (r ∷ []));
    channel = omega (arith, length-append s.channel (r ∷ []));
  }
  TaskStep-Kept {s} p st h = record {
    permits = ground (arith, h.permits);
    prefetched = ground (arith, h.prefetched, h.channel, h.permits, between-le p);
    channel = ground (arith, h.channel);
  }

module _ {server : Machine → MoveToActiveResult → Type 0} {concurrency : ℕ}
    (few : concurrency < 2 ^ 61) where
  Step-Counts :
      {m n : Machine} → Counts concurrency m → Step server concurrency m n → Counts concurrency n
  Step-Counts {m} c (loop_step {ts} st) =
      let k =
        LoopStep-Kept concurrency (tally one m.tasks) (tally announced m.tasks) few
          (announced-le m.tasks) st
          (record { permits = c.permits; prefetched = c.prefetched; channel = c.channel }) in
      record {
        permits = omega (arith, k.permits, tally-append one ts m.tasks);
        prefetched = omega (arith, k.prefetched, tally-append announced ts m.tasks);
        channel = k.channel;
      }
  Step-Counts {m} c (task_step {t} xs ys ts e st) =
      let k =
        TaskStep-Kept concurrency (tally one xs + tally one ys)
          (tally announced xs + tally announced ys) few
          (omega (arith, announced-le xs, announced-le ys)) m.loop st
          (record {
            permits = omega (arith, c.permits, tally-at one xs t ys e);
            prefetched = omega (arith, c.prefetched, tally-at announced xs t ys e);
            channel = c.channel;
          }) in
      record {
        permits = omega (arith, k.permits, tally-replaced one xs ts ys);
        prefetched = omega (arith, k.prefetched, tally-replaced announced xs ts ys);
        channel = k.channel;
      }
  Step-Counts {m} c (drained at_end free) = record {
    permits = ground (arith, c.permits);
    prefetched = rw at_end at c.prefetched;
    channel = c.channel;
  }
  Step-Counts c st = record { permits = c.permits; prefetched = c.prefetched; channel = c.channel }

  -- With a concurrency below 2 ^ 61: in every state that the worker reaches, its permits are those of
  -- the semaphore, the one that the loop holds and one for each task; the counter counts exactly the
  -- results in the channel and on their way; the channel holds at most as many results as there are
  -- permits. No wrap-around takes part.
  pub Steps-Counts :
      {m : Machine} → Steps server concurrency (started concurrency) m → Counts concurrency m
  Steps-Counts still = record { permits = omega arith; prefetched = refl; channel = omega arith }
  Steps-Counts (later r st) = Step-Counts (Steps-Counts r) st
