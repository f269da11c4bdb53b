-- ===== src/Worker/Fetch/Renewals.antt =====
-- What the lock extender asks for, whatever the server answers.
use bullmq_rs.Prelude.{◌≡◌, refl, subst, String, List, [], ◌∷◌, map, ◌++◌}
use bullmq_rs.Text.{◌<>◌, to_string}
use bullmq_rs.Error.{Result, ok, err}
use bullmq_rs.Dict.{contains, string_eq}
use bullmq_rs.Redis.{Request, script, Env}
use bullmq_rs.Redis.Ends.{Post, Ends, Ends-pure, Ends-bind, Ends-lift, Ends-send}
use bullmq_rs.Scripts.{key, registered, invoke}
use bullmq_rs.Scripts.Locks.{extend_lock, extended_result}
use bullmq_rs.Worker.Settle.{Config}
use bullmq_rs.Worker.Fetch.{Wake, slept, told, extend_round, extend_loop}
use bullmq_rs.Worker.Fetch.Rounds.{Ends-attempt}

-- The renewal of a lock, with the worker's token.
unfoldable pub renewal : Config → String → Request
renewal config id =
    script "extendLock"
      ((config.prefix <> ":" <> config.name <> ":" <> id <> ":lock")
        ∷ key config.prefix config.name "stalled"
        ∷ [])
      (config.token ∷ to_string config.lock_duration_ms ∷ id ∷ [])

-- One for each job, newest first.
unfoldable pub renewals : Config → List String → List Request → List Request
renewals config [] log = log
renewals config (id ∷ ids) log = renewals config ids (renewal config id ∷ log)

module _ (env : Env) (config : Config) where
  extend_lock-renewal :
      (id : String) (log : List Request)
      → Ends env log
          (λ _ l. l ≡ renewal config id ∷ log)
          (λ _ l. l ≡ renewal config id ∷ log)
          (extend_lock config.prefix config.name id config.token config.lock_duration_ms)
  unfolding extend_lock renewal invoke contains registered
  extend_lock-renewal id log =
      Ends-bind {Q = λ _ l. l ≡ renewal config id ∷ log} log _ _
        (Ends-send log _ (λ _ _. refl) (λ _ _. refl))
        λ v l h. Ends-lift l (extended_result v) (always (extended_result v) l h)
    where
      always :
          (r : Result (Unit {0})) (l : List Request)
          → l ≡ renewal config id ∷ log
          → Post (λ _ l. l ≡ renewal config id ∷ log) (λ _ l. l ≡ renewal config id ∷ log) r l
      always (ok u) l h = h
      always (err e) l h = h

  -- Whatever the server answers for one job, a round of the lock extender asks for the renewal of every
  -- job's lock, once and with the worker's token, and sends nothing else.
  pub extend_round-renews :
      (ids : List String) (log : List Request)
      → Ends env log (λ _ l. l ≡ renewals config ids log) (λ _ _. ⊥) (extend_round config ids)
  unfolding extend_round renewals
  extend_round-renews [] log = Ends-pure log _ refl
  extend_round-renews (id ∷ ids) log =
      Ends-bind {Q = λ _ l. l ≡ renewal config id ∷ log} log _ _
        (Ends-attempt env {Q = λ l. l ≡ renewal config id ∷ log} log _ (extend_lock-renewal id log))
        λ r l h.
          subst
            (λ k.
              Ends env l (λ _ l. l ≡ renewals config ids k) (λ _ _. ⊥) (extend_round config ids))
            h (extend_round-renews ids l)

-- One round after the other.
unfoldable pub round_renewals : Config → List (List String) → List Request → List Request
round_renewals config [] log = log
round_renewals config (ids ∷ rounds) log = round_renewals config rounds (renewals config ids log)

module _ (env : Env) (config : Config) where
  -- Whatever the server answers: in each round before it sees the shutdown, the lock extender asks for
  -- the renewal of the lock of every job that is in the set, once and with the worker's token; from then
  -- on it renews no lock, whatever jobs are still in the set.
  pub extend_loop-renews :
      (rounds : List (List String)) (later : List Wake) (log : List Request)
      → Ends env log
          (λ _ l. l ≡ round_renewals config rounds log)
          (λ _ _. ⊥)
          (extend_loop config (map slept rounds ++ (told ∷ later)))
  unfolding extend_loop round_renewals
  extend_loop-renews [] later log = Ends-pure log _ refl
  extend_loop-renews (ids ∷ rounds) later log =
      Ends-bind log _ _ (extend_round-renews env config ids log) λ _ l h.
        subst
          (λ k.
            Ends env l (λ _ l. l ≡ round_renewals config rounds k) (λ _ _. ⊥)
              (extend_loop config (map slept rounds ++ (told ∷ later))))
          h (extend_loop-renews rounds later l)
