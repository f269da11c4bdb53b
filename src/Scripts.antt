-- ===== src/Scripts.antt =====
-- scripts/mod.rs and scripts/commands/mod.rs: the script registry, its invocation, and Redis keys.
-- The scripts' own text (lua/) runs inside the server, so its effect is part of the server's answers.
pub mod Decode
pub mod Active
pub mod Finish
pub mod Adds
pub mod Upkeep
pub mod Locks
pub mod Schedulers
pub mod Repeats
pub mod Added
pub mod Includes
pub mod Loader
use bullmq_rs.Prelude.{String, List, [], ◌∷◌, ◌≡◌, refl, true, if◌then◌else◌, ◌≢◌, ap}
use bullmq_rs.Text.{◌<>◌, to_string}
use bullmq_rs.Prelude.Int.{ℤ, pos, negsuc}
use bullmq_rs.Prelude.{suc}
use bullmq_rs.Error.{script_error}
use bullmq_rs.Dict.{contains, string_eq}
use bullmq_rs.Redis.{Value, Io, send, script, throw, load_script, ◌>>=◌, pure}

-- The names that `ScriptLoader::new` registers.
unfoldable pub registered : List String
registered =
    "addStandardJob" ∷ "addPrioritizedJob" ∷ "addDelayedJob" ∷ "addParentJob" ∷ "moveToActive"
    ∷ "moveToFinished" ∷ "moveToDelayed" ∷ "retryJob" ∷ "moveStalledJobsToWait" ∷ "extendLock"
    ∷ "pause" ∷ "addLog" ∷ "changePriority" ∷ "promote" ∷ "moveJobsToWait" ∷ "cleanJobsInSet"
    ∷ "obliterate" ∷ "getMetrics" ∷ "addJobScheduler" ∷ "updateJobScheduler" ∷ "getJobScheduler"
    ∷ "removeJobScheduler" ∷ "extendLocks" ∷ "moveJobFromActiveToWait" ∷ "removeJob" ∷ []

unfoldable pub invoke : String → List String → List String → Io Value
invoke name keys args =
    if contains name registered
    then send (script name keys args)
    else throw (script_error ("Unknown script: " <> name))

-- `ScriptLoader::load`
unfoldable pub load : String → Io (Unit {0})
load name =
    if contains name registered
    then (send (load_script name) >>= λ v. pure tt)
    else throw (script_error ("Unknown script: " <> name))

-- `{prefix}:{queue_name}:{suffix}`
unfoldable pub key : String → String → String → String
key prefix queue_name suffix = prefix <> ":" <> queue_name <> ":" <> suffix

-- `i64::to_string`
unfoldable pub int_to_string : ℤ → String
int_to_string (pos n) = to_string n
int_to_string (negsuc n) = "-" <> to_string (suc n)
