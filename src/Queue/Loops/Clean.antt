-- ===== src/Queue/Loops/Clean.antt =====
-- `clean` ends, and what its limit promises.
use bullmq_rs.Prelude.{
  ℕ, zero, suc, ◌+◌, ◌-◌, ◌≤◌, ◌<◌, ◌≡◌, refl, String, Bool, true, ◌⊎◌, inl, inr, List, [], ◌∷◌,
  ◌++◌, length, length-append, ltb, ltb→lt, leb, if◌then◌else◌, arith,
}
use bullmq_rs.Text.{to_string}
use bullmq_rs.Dict.{contains, string_eq}
use bullmq_rs.Error.{ok}
use bullmq_rs.Redis.{Value, value, Request, script, Env}
use bullmq_rs.Redis.Ends.{
  Ends, Ends-pure, Ends-throw, Ends-if, Ends-bind, Ends-any, Ends-send, Ends-ok,
}
use bullmq_rs.Types.State.{to_text, JobState, waiting_children}
use bullmq_rs.Queue.States.{same_state}
use bullmq_rs.Types.Options.{Duration, as_millis}
use bullmq_rs.Scripts.{invoke, registered}
use bullmq_rs.Scripts.Decode.{texts_in}
use bullmq_rs.Scripts.Upkeep.{clean_jobs_in_set}
use bullmq_rs.Queue.Loops.{clean_loop, clean, max_removed, max_per_call}

-- The most jobs that `clean` removes with a limit above 0.
abbrev pub most_removed : ℕ → ℕ
most_removed limit = if leb limit 10000 then limit else limit + 9999

module _ (env : Env) (prefix name : String) where
  -- Each round that goes on removes at least one job.
  clean_loop-Ends :
      (fuel : ℕ) (set_name : String) (timestamp max_count per_call : ℕ) (deleted : List String)
      (log : List Request)
      → 0 < per_call
      → max_count ≤ fuel + length deleted
      → Ends env log
          (λ r _. r.0 ≡ true)
          (λ _ _. Unit {0})
          (clean_loop prefix name (suc fuel) set_name timestamp max_count per_call deleted)
  unfolding clean_loop
  clean_loop-Ends zero set_name timestamp max_count per_call deleted log h k =
      Ends-if log (ltb (length deleted) max_count) _ _
        (λ more. absurd (ground (arith, ltb→lt _ _ more))) (λ enough. Ends-pure log _ refl)
  clean_loop-Ends (suc fuel) set_name timestamp max_count per_call deleted log h k =
      Ends-if log (ltb (length deleted) max_count) _ _
        (λ more. Ends-bind log _ _ (Ends-any log _) λ ids log1 _.
          Ends-if log1 (ltb (length ids) per_call) _ _ (λ short. Ends-pure log1 _ refl)
            (λ full.
              clean_loop-Ends fuel set_name timestamp max_count per_call (deleted ++ ids) log1 h
                (ground (arith, length-append deleted ids))))
        (λ enough. Ends-pure log _ refl)

  -- The script removes at most as many jobs as its limit says; 0 stands for no limit.
  pub record HonoursLimit : Type 0 where
    pub bound :
        (log : List Request) (keys : List String) (scope time set_name : String) (limit : ℕ)
        (v : Value)
        → 0 < limit
        → env.answer log
            (script "cleanJobsInSet" keys (scope ∷ time ∷ to_string limit ∷ set_name ∷ []))
          ≡ value v
        → length (texts_in v) ≤ limit

  batch-bounded :
      (honours : HonoursLimit) (set_name : String) (timestamp limit : ℕ) (log : List Request)
      → 0 < limit
      → Ends env log
          (λ ids _. length ids ≤ limit)
          (λ _ _. Unit {0})
          (clean_jobs_in_set prefix name set_name timestamp limit)
  unfolding clean_jobs_in_set invoke
  batch-bounded honours set_name timestamp limit log some_limit =
      Ends-bind log _ _
        (Ends-if log (contains "cleanJobsInSet" registered) _ _
          (λ _. Ends-send log _ (λ v a. honours.bound log _ _ _ _ limit v some_limit a) (λ _ _. tt))
          (λ _. Ends-throw log _ tt))
        λ v l h. Ends-pure l _ h

  -- What is deleted when a round begins, and how much the rounds may delete in all.
  abbrev Fits : ℕ → ℕ → ℕ → Type 0
  Fits max_count per_call bound =
      (n : ℕ) → (n ≡ 0) ⊎ (per_call ≤ n) → n < max_count → n + per_call ≤ bound

  clean_loop-bounded :
      (honours : HonoursLimit) (fuel : ℕ) (set_name : String)
      (timestamp max_count per_call bound : ℕ) (deleted : List String) (log : List Request)
      → 0 < per_call
      → Fits max_count per_call bound
      → (length deleted ≡ 0) ⊎ (per_call ≤ length deleted)
      → length deleted ≤ bound
      → Ends env log
          (λ r _. length r.1 ≤ bound)
          (λ _ _. Unit {0})
          (clean_loop prefix name fuel set_name timestamp max_count per_call deleted)
  unfolding clean_loop
  clean_loop-bounded honours zero set_name timestamp max_count per_call bound deleted log pos fits h
        k =
      Ends-pure log _ k
  clean_loop-bounded honours (suc fuel) set_name timestamp max_count per_call bound deleted log pos
        fits h k =
      Ends-if log (ltb (length deleted) max_count) _ _
        (λ more.
          Ends-bind log _ _ (batch-bounded honours set_name timestamp per_call log pos)
            λ ids log1 few.
              let total : length (deleted ++ ids) ≤ bound =
                omega
                  (arith, length-append deleted ids, fits (length deleted) h (ltb→lt _ _ more)) in
              Ends-if log1 (ltb (length ids) per_call) _ _ (λ short. Ends-pure log1 _ total)
                (λ full.
                  clean_loop-bounded honours fuel set_name timestamp max_count per_call bound
                    (deleted ++ ids) log1 pos fits (inr (ground (arith, length-append deleted ids)))
                    total))
        (λ enough. Ends-pure log _ k)

  clean-Ends :
      (grace : Duration) (limit : ℕ) (state : JobState) (log : List Request)
      → Ends env log (λ r _. r.0 ≡ true) (λ _ _. Unit {0}) (clean prefix name grace limit state)
  unfolding clean
  clean-Ends grace limit state log =
      Ends-if log (same_state state waiting_children) _ _ (λ _. Ends-throw log _ tt)
        λ _.
          Ends-bind log _ _ (Ends-any log _)
            λ now log1 _. clean_loop-Ends _ _ _ _ _ [] log1 (ground arith) (omega arith)

  -- Whatever the server answers, the rounds of `clean` come to an end: where it returns, its fuel was
  -- enough.
  pub clean-total :
      (grace : Duration) (limit : ℕ) (state : JobState) (log log' : List Request) (done : Bool)
      (ids : List String)
      → clean prefix name grace limit state env log ≡ (ok (done, ids), log')
      → done ≡ true
  clean-total grace limit state log log' done ids e = Ends-ok (clean-Ends grace limit state log) e

  limit-Fits :
      (limit : ℕ) → 0 < limit → Fits (max_removed limit) (max_per_call limit) (most_removed limit)
  limit-Fits limit h n (inl e) lt = ground arith
  limit-Fits limit h n (inr e) lt = ground arith

  clean-BoundedEnds :
      (honours : HonoursLimit) (grace : Duration) (limit : ℕ) (state : JobState)
      (log : List Request)
      → 0 < limit
      → Ends env log
          (λ r _. length r.1 ≤ most_removed limit)
          (λ _ _. Unit {0})
          (clean prefix name grace limit state)
  unfolding clean
  clean-BoundedEnds honours grace limit state log h =
      Ends-if log (same_state state waiting_children) _ _ (λ _. Ends-throw log _ tt)
        λ _. Ends-bind log _ _ (Ends-any log _) λ now log1 _.
          clean_loop-bounded honours (suc (max_removed limit)) (to_text state)
            (now - as_millis grace) _ _ (most_removed limit) [] log1 (ground arith)
            (limit-Fits limit h) (inl refl) (omega arith)

  -- With a script that honours its limit where this is not 0, a limit of 1 to 10,000 is never exceeded, and a larger one by
  -- less than one batch of 10,000.
  pub clean-bounded :
      (honours : HonoursLimit) (grace : Duration) (limit : ℕ) (state : JobState)
      (log log' : List Request) (done : Bool) (ids : List String)
      → 0 < limit
      → clean prefix name grace limit state env log ≡ (ok (done, ids), log')
      → length ids ≤ most_removed limit
  clean-bounded honours grace limit state log log' done ids h e =
      Ends-ok (clean-BoundedEnds honours grace limit state log h) e
