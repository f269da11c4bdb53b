-- ===== src/Scripts/Added.antt =====
-- What the log of requests says of the jobs that were added.
use bullmq_rs.Prelude.{ℕ, zero, suc, ◌≡◌, String, ◌||◌, List, [], ◌∷◌, ◌++◌, ltb, if◌then◌else◌}
use bullmq_rs.Text.{str_eq}
use bullmq_rs.Dict.{contains, string_eq}
use bullmq_rs.Error.{BullmqError, Result, ok, err}
use bullmq_rs.Redis.{Value, Request, script, Env, pure, lift, ◌>>=◌}
use bullmq_rs.Redis.Ends.{Ends, Ends-pure, Ends-throw, Ends-if, Ends-bind, Ends-lift, Ends-send}
use bullmq_rs.Scripts.{invoke, registered}

unfoldable pub arg : ℕ → List String → String
arg n [] = ""
arg zero (a ∷ args) = a
arg (suc n) (a ∷ args) = arg n args

added_script : String → List String → List (String × String)
unfolding arg
added_script name args =
    if str_eq name "addStandardJob"
      || (str_eq name "addPrioritizedJob"
          || (str_eq name "addDelayedJob" || str_eq name "addParentJob"))
    then (name, arg 3 args) ∷ []
    else []

unfoldable pub added_by : Request → List (String × String)
unfolding added_script
added_by (script name keys args) = added_script name args
added_by _ = []

-- The scripts that added a job, with the job's id, newest first.
unfoldable pub added : List Request → List (String × String)
unfolding added_by
added [] = []
added (r ∷ log) = added_by r ++ added log

-- A delayed job, else a prioritized one, else a standard one.
unfoldable pub script_by : ℕ → ℕ → String
script_by delay priority =
    if ltb 0 delay
    then "addDelayedJob"
    else if ltb 0 priority
    then "addPrioritizedJob"
    else "addStandardJob"

module _ (env : Env) where
  abbrev pub Anyway : BullmqError → List Request → Type 0
  Anyway e log = Unit

  pub same_lift :
      {A : Type 0} (qs : List (String × String)) (log : List Request) (r : Result A)
      → added log ≡ qs
      → Ends env log (λ _ l. added l ≡ qs) Anyway (lift r)
  same_lift qs log (ok a) h = Ends-lift log (ok a) h
  same_lift qs log (err e) h = Ends-lift log (err e) tt

  pub adding :
      (qs : List (String × String)) (log : List Request) (name : String) (keys args : List String)
      (f : Value → String)
      → added_by (script name keys args) ++ added log ≡ qs
      → Ends env log (λ _ l. added l ≡ qs) Anyway (invoke name keys args >>= λ v. pure (f v))
  unfolding invoke added
  adding qs log name keys args f h =
      Ends-bind log _ _
        (Ends-if log (contains name registered) _ _ (λ _. Ends-send log _ (λ v _. h) (λ e _. tt))
          (λ _. Ends-throw log _ tt))
        λ v l k. Ends-pure l _ k
