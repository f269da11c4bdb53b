-- ===== src/Worker/Machine/Leaving.antt =====
-- Once the worker is told to stop, its loop can leave from wherever it is.
use bullmq_rs.Prelude.{
  ℕ, ◌≡◌, Bool, true, false, none, some, List, [], ◌∷◌, ◌++◌, refl, String, ◌⊎◌, Option-cases,
  Bool-cases, inl, inr,
}
use bullmq_rs.Scripts.Active.{MoveToActiveResult}
use bullmq_rs.Worker.Machine.{
  Shared, Phase, head, polling, unfed, waiting, limited, acquiring, fetching, throttled, closing,
  stopped, taken, settling, queued, Task, starting, Machine, LoopStep, leave, receive, nothing,
  count_down, hold, changed_stop, stops, limited_stop, request, acquiring_stop, fetching_stop,
  throttle, throttled_stop, jobless, spawn, queue, queued_stop, loop_step, OwnSteps, stay_put,
  go_on,
}
use bullmq_rs.Worker.Machine.Clearing.{state, OwnSteps-append}

told : (s : Shared) → s.stopping ≡ true → stops s ≡ true
told s h = rw h refl

module _ (server : Machine → MoveToActiveResult → Type 0) (c : ℕ) where
  -- The loop can leave.
  abbrev pub Leaves : Shared → Phase → List Task → Type 0
  Leaves s p ts =
      (s' : Shared) × (ts' : List Task) × OwnSteps server c (state s p ts) (state s' closing ts')

  on :
      {s s' : Shared} {p p' : Phase} (zs ts : List Task)
      → LoopStep (server (state s p ts)) s p s' p' zs
      → Leaves s' p' (zs ++ ts)
      → Leaves s p ts
  on zs ts st k = (k.0, k.1, OwnSteps-append (go_on stay_put (loop_step st) tt) k.2)

  leave_head : (s : Shared) (ts : List Task) → s.stopping ≡ true → Leaves s head ts
  leave_head s ts h = (_, _, go_on stay_put (loop_step (leave h)) tt)

  leave_settling :
      (s : Shared) (b : Bool) (r : MoveToActiveResult) (ts : List Task)
      → s.stopping ≡ true
      → Leaves s (settling b r) ts
  leave_settling s b r ts h = elim (Option-cases r.rate_limit_ttl) [
    | inr (ttl, e) ↦
        on [] ts (throttle e) (_, _, go_on stay_put (loop_step (throttled_stop (told s h))) tt)
    | inl free ↦ elim (Option-cases r.job_id) [
      | inl none_left ↦ on [] ts (jobless free none_left) (leave_head _ ts h)
      | inr (id, e) ↦ leave_job b id free e
    ]
  ]
    where
      leave_job :
          (b' : Bool) (id : String)
          → r.rate_limit_ttl ≡ none
          → r.job_id ≡ some id
          → Leaves s (settling b' r) ts
      leave_job true id free e = on (starting id ∷ []) ts (spawn free e) (leave_head s _ h)
      leave_job false id free e =
          on [] ts (queue free e) (_, _, go_on stay_put (loop_step (queued_stop (told s h))) tt)

  leave_unfed : (s : Shared) (ts : List Task) → s.stopping ≡ true → Leaves s unfed ts
  leave_unfed s ts h = elim (Bool-cases s.paused) [
    | inl e ↦ on [] ts (hold e) (on [] ts (changed_stop (told s h)) (leave_head s ts h))
    | inr e ↦ on [] ts (request e) (_, _, go_on stay_put (loop_step (acquiring_stop (told s h))) tt)
  ]

  leave_taken :
      (s : Shared) (r : MoveToActiveResult) (ts : List Task)
      → s.stopping ≡ true
      → Leaves s (taken r) ts
  leave_taken s r ts h = on [] ts count_down (leave_settling _ false r ts h)

  leave_polling :
      (s : Shared) (rs : List MoveToActiveResult) (ts : List Task)
      → s.channel ≡ rs
      → s.stopping ≡ true
      → Leaves s polling ts
  leave_polling s [] ts e h = on [] ts (nothing e) (leave_unfed s ts h)
  leave_polling s (r ∷ rs) ts e h = on [] ts (receive e) (leave_taken _ r ts h)

  pub leave_loop :
      (s : Shared) (p : Phase) (ts : List Task) → s.stopping ≡ true → (p ≡ stopped) ⊎ Leaves s p ts
  leave_loop s head ts h = inr (leave_head s ts h)
  leave_loop s polling ts h = inr (leave_polling s s.channel ts refl h)
  leave_loop s unfed ts h = inr (leave_unfed s ts h)
  leave_loop s waiting ts h = inr (on [] ts (changed_stop (told s h)) (leave_head s ts h))
  leave_loop s limited ts h = inr (_, _, go_on stay_put (loop_step (limited_stop (told s h))) tt)
  leave_loop s acquiring ts h =
      inr (_, _, go_on stay_put (loop_step (acquiring_stop (told s h))) tt)
  leave_loop s fetching ts h = inr (_, _, go_on stay_put (loop_step (fetching_stop (told s h))) tt)
  leave_loop s throttled ts h =
      inr (_, _, go_on stay_put (loop_step (throttled_stop (told s h))) tt)
  leave_loop s closing ts h = inr (_, _, stay_put)
  leave_loop s stopped ts h = inl refl
  leave_loop s (taken r) ts h = inr (leave_taken s r ts h)
  leave_loop s (settling b r) ts h = inr (leave_settling s b r ts h)
  leave_loop s (queued id) ts h = inr (_, _, go_on stay_put (loop_step (queued_stop (told s h))) tt)
