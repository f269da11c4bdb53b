-- ===== src/Worker/Machine/Clearing.antt =====
-- Each task of the worker can come to its end.
use bullmq_rs.Prelude.{
  ℕ, ◌≤◌, ◌≡◌, none, some, List, [], ◌∷◌, length, arith, refl, String, dec_lt, ◌∙◌, Option-cases,
  inl, inr,
}
use bullmq_rs.Scripts.Active.{MoveToActiveResult}
use bullmq_rs.Worker.Machine.{
  Shared, Phase, Task, starting, running, leaving, prefetching, registered, counted, refused,
  uncounted, ending, Machine, LoopStep, leave, TaskStep, register, settled, prefetch, register_next,
  count_up, sent, refuse, count_back, unregister_next, unregister, finish, loop_step, task_step,
  drained, pause, resume, shutdown, drop_handle, started, Steps, still, later, OwnSteps, stay_put,
  go_on,
}
use bullmq_rs.Worker.Machine.Tallies.{tally, tally-append, tally-at, tally-replaced}

-- A task whose next job has no id: there is none.
abbrev pub nameless : Task → ℕ
nameless (prefetching id r) = elim r.job_id [ none ↦ 1 | some next ↦ 0 ]
nameless (registered id r) = elim r.job_id [ none ↦ 1 | some next ↦ 0 ]
nameless (counted id r) = elim r.job_id [ none ↦ 1 | some next ↦ 0 ]
nameless (refused id r) = elim r.job_id [ none ↦ 1 | some next ↦ 0 ]
nameless (uncounted id r) = elim r.job_id [ none ↦ 1 | some next ↦ 0 ]
nameless _ = 0

LoopStep-named :
    {g : MoveToActiveResult → Type 0} {s s' : Shared} {p p' : Phase} {ts : List Task}
    → LoopStep g s p s' p' ts
    → tally nameless ts ≡ 0
LoopStep-named (leave e) = refl
LoopStep-named st = refl

TaskStep-named :
    {g : MoveToActiveResult → Type 0} {c : ℕ} {s s' : Shared} {t : Task} {ts : List Task}
    → TaskStep g c s t s' ts
    → tally nameless ts ≤ nameless t
TaskStep-named (prefetch g e) = ground (arith, e)
TaskStep-named st = ground arith

module _ {server : Machine → MoveToActiveResult → Type 0} {c : ℕ} where
  pub Steps-named : {m : Machine} → Steps server c (started c) m → tally nameless m.tasks ≡ 0
  Steps-named still = refl
  Steps-named (later {n} r (loop_step {ts} st)) =
      omega (arith, Steps-named r, LoopStep-named st, tally-append nameless ts n.tasks)
  Steps-named (later r (task_step {t} xs ys ts e st)) = omega (
    arith,
    Steps-named r,
    TaskStep-named st,
    tally-at nameless xs t ys e,
    tally-replaced nameless xs ts ys,
  )
  Steps-named (later r (drained a b)) = Steps-named r
  Steps-named (later r (pause e)) = Steps-named r
  Steps-named (later r (resume e)) = Steps-named r
  Steps-named (later r (shutdown e)) = Steps-named r
  Steps-named (later r drop_handle) = Steps-named r

  pub OwnSteps-append :
      {l m n : Machine} → OwnSteps server c l m → OwnSteps server c m n → OwnSteps server c l n
  OwnSteps-append r stay_put = r
  OwnSteps-append r (go_on q st own) = go_on (OwnSteps-append r q) st own

  pub Steps-OwnSteps :
      {l m n : Machine} → Steps server c l m → OwnSteps server c m n → Steps server c l n
  Steps-OwnSteps r stay_put = r
  Steps-OwnSteps r (go_on q st own) = later (Steps-OwnSteps r q) st

abbrev pub state : Shared → Phase → List Task → Machine
state s p ts = record { shared = s; loop = p; tasks = ts }

module _ (server : Machine → MoveToActiveResult → Type 0) (c : ℕ) where
  -- The first task can come to its end.
  abbrev Clears : Shared → Phase → Task → List Task → Type 0
  Clears s p t ys =
      (s' : Shared) × OwnSteps server c (state s p (t ∷ ys)) (state s' p ys)
      × (s'.stopping ≡ s.stopping)

  first :
      {s s' : Shared} (p : Phase) {t t' : Task} (ys : List Task)
      → TaskStep (server (state s p (t ∷ ys))) c s t s' (t' ∷ [])
      → s'.stopping ≡ s.stopping
      → Clears s' p t' ys
      → Clears s p t ys
  first p {t'} ys st e k =
      (k.0, OwnSteps-append (go_on stay_put (task_step [] ys (t' ∷ []) refl st) tt) k.1, k.2 ∙ e)

  clear_ending : (s : Shared) (p : Phase) (ys : List Task) → Clears s p ending ys
  clear_ending s p ys = (_, go_on stay_put (task_step [] ys [] refl finish) tt, refl)

  clear_leaving :
      (s : Shared) (p : Phase) (id : String) (ys : List Task) → Clears s p (leaving id) ys
  clear_leaving s p id ys = first p ys unregister refl (clear_ending _ p ys)

  clear_refused :
      (s : Shared) (p : Phase) (id next : String) (r : MoveToActiveResult) (ys : List Task)
      → r.job_id ≡ some next
      → Clears s p (refused id r) ys
  clear_refused s p id next r ys e =
      first p ys count_back refl (first p ys (unregister_next e) refl (clear_leaving _ p id ys))

  clear_counted :
      (s : Shared) (p : Phase) (id next : String) (r : MoveToActiveResult) (ys : List Task)
      → r.job_id ≡ some next
      → Clears s p (counted id r) ys
  clear_counted s p id next r ys e = elim (dec_lt (length s.channel) c) [
    | yes room ↦ first p ys (sent room) refl (clear_leaving _ p id ys)
    | no full ↦ first p ys (refuse (omega arith)) refl (clear_refused s p id next r ys e)
  ]

  clear_prefetching :
      (s : Shared) (p : Phase) (id next : String) (r : MoveToActiveResult) (ys : List Task)
      → r.job_id ≡ some next
      → Clears s p (prefetching id r) ys
  clear_prefetching s p id next r ys e =
      first p ys (register_next e) refl
        (first p ys count_up refl (clear_counted _ p id next r ys e))

  named :
      (r : MoveToActiveResult)
      → nameless (prefetching "" r) ≡ 0
      → (next : String) × (r.job_id ≡ some next)
  named r h = elim (Option-cases r.job_id) [ inl e ↦ absurd (ground (arith, e)) | inr e ↦ e ]

  clear_task :
      (s : Shared) (p : Phase) (t : Task) (ys : List Task) → nameless t ≡ 0 → Clears s p t ys
  clear_task s p (starting id) ys h =
      first p ys register refl (first p ys settled refl (clear_leaving _ p id ys))
  clear_task s p (running id) ys h = first p ys settled refl (clear_leaving s p id ys)
  clear_task s p (leaving id) ys h = clear_leaving s p id ys
  clear_task s p ending ys h = clear_ending s p ys
  clear_task s p (prefetching id r) ys h =
      let (next, e) = named r h in clear_prefetching s p id next r ys e
  clear_task s p (registered id r) ys h =
      let (next, e) = named r h in first p ys count_up refl (clear_counted _ p id next r ys e)
  clear_task s p (counted id r) ys h = let (next, e) = named r h in clear_counted s p id next r ys e
  clear_task s p (refused id r) ys h = let (next, e) = named r h in clear_refused s p id next r ys e
  clear_task s p (uncounted id r) ys h =
      let (next, e) = named r h in first p ys (unregister_next e) refl (clear_leaving _ p id ys)

  pub clear_all :
      (s : Shared) (p : Phase) (ts : List Task)
      → tally nameless ts ≡ 0
      → (s' : Shared) × OwnSteps server c (state s p ts) (state s' p [])
  clear_all s p [] h = (s, stay_put)
  clear_all s p (t ∷ ts) h =
      let k = clear_task s p t ts (omega arith) in
      let l = clear_all k.0 p ts (omega arith) in (l.0, OwnSteps-append k.1 l.1)
