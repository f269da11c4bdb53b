-- ===== src/Scripts/Loader.antt =====
-- scripts/mod.rs: ScriptLoader::new, which reads the files of lua/ and resolves their directives. The
-- text of each file is a parameter.
use bullmq_rs.Prelude.{
  String, Bool, true, false, Bool-cases, inl, inr, ◌∙◌, List, [], ◌∷◌, Option, none, some, ◌≡◌,
  refl, ap,
}
use bullmq_rs.Text.{◌<>◌, str_eq}
use bullmq_rs.Dict.{lookup, insert, contains, string_eq}
use bullmq_rs.Scripts.{registered}
use bullmq_rs.Scripts.Includes.{resolve_includes}

-- The names and files of lua/includes, in the order of the source.
unfoldable included_files : List (String × String)
included_files =
    ("batches", "batches.lua")
    ∷ ("collectMetrics", "collectMetrics.lua")
    ∷ ("storeJob", "storeJob.lua")
    ∷ ("addJobInTargetList", "addJobInTargetList.lua")
    ∷ ("addJobWithPriority", "addJobWithPriority.lua")
    ∷ ("addBaseMarkerIfNeeded", "addBaseMarkerIfNeeded.lua")
    ∷ ("batches", "batches.lua")
    ∷ ("getOrSetMaxEvents", "getOrSetMaxEvents.lua")
    ∷ ("addDelayMarkerIfNeeded", "addDelayMarkerIfNeeded.lua")
    ∷ ("deduplicateJob", "deduplicateJob.lua")
    ∷ (
      "removeDeduplicationKeyIfNeededOnFinalization",
      "removeDeduplicationKeyIfNeededOnFinalization.lua",
    )
    ∷ ("getDelayedScore", "getDelayedScore.lua")
    ∷ ("getTargetQueueList", "getTargetQueueList.lua")
    ∷ ("getPriorityScore", "getPriorityScore.lua")
    ∷ ("getRateLimitTTL", "getRateLimitTTL.lua")
    ∷ ("moveJobToWait", "moveJobToWait.lua")
    ∷ ("moveParentToWait", "moveParentToWait.lua")
    ∷ ("moveParentToWaitIfNeeded", "moveParentToWaitIfNeeded.lua")
    ∷ ("moveParentToWaitIfNoPendingDependencies", "moveParentToWaitIfNoPendingDependencies.lua")
    ∷ ("promoteDelayedJobs", "promoteDelayedJobs.lua")
    ∷ ("removeLock", "removeLock.lua")
    ∷ ("updateParentDepsIfNeeded", "updateParentDepsIfNeeded.lua")
    ∷ ("batches", "batches.lua")
    ∷ ("getTimestamp", "getTimestamp.lua")
    ∷ ("getJobsInZset", "getJobsInZset.lua")
    ∷ ("getZSetItems", "getZSetItems.lua")
    ∷ ("isJobSchedulerJob", "isJobSchedulerJob.lua")
    ∷ ("removeJobKeys", "removeJobKeys.lua")
    ∷ ("removeDeduplicationKeyIfNeededOnRemoval", "removeDeduplicationKeyIfNeededOnRemoval.lua")
    ∷ ("destructureJobKey", "destructureJobKey.lua")
    ∷ ("pushBackJobWithPriority", "pushBackJobWithPriority.lua")
    ∷ ("isLocked", "isLocked.lua")
    ∷ ("removeJobFromAnyState", "removeJobFromAnyState.lua")
    ∷ ("removeJobWithChildren", "removeJobWithChildren.lua")
    ∷ ("removeParentDependencyKey", "removeParentDependencyKey.lua")
    ∷ ("removeJob", "removeJob.lua")
    ∷ ("removeJobs", "removeJobs.lua")
    ∷ ("filterOutJobsToIgnore", "filterOutJobsToIgnore.lua")
    ∷ ("removeListJobs", "removeListJobs.lua")
    ∷ ("removeZSetJobs", "removeZSetJobs.lua")
    ∷ ("cleanList", "cleanList.lua")
    ∷ ("cleanSet", "cleanSet.lua")
    ∷ ("isQueuePaused", "isQueuePaused.lua")
    ∷ ("addDelayedJob", "addDelayedJob.lua")
    ∷ ("storeAndEnqueueJob", "storeAndEnqueueJob.lua")
    ∷ ("addJobFromScheduler", "addJobFromScheduler.lua")
    ∷ ("storeJobScheduler", "storeJobScheduler.lua")
    ∷ ("getJobSchedulerEveryNextMillis", "getJobSchedulerEveryNextMillis.lua")
    ∷ []

unfoldable script_files : List (String × String)
script_files =
    ("addStandardJob", "addStandardJob-9.lua")
    ∷ ("addPrioritizedJob", "addPrioritizedJob-9.lua")
    ∷ ("addDelayedJob", "addDelayedJob-6.lua")
    ∷ ("addParentJob", "addParentJob-6.lua")
    ∷ ("moveToActive", "moveToActive-11.lua")
    ∷ ("moveToFinished", "moveToFinished-14.lua")
    ∷ ("moveToDelayed", "moveToDelayed-8.lua")
    ∷ ("retryJob", "retryJob-11.lua")
    ∷ ("moveStalledJobsToWait", "moveStalledJobsToWait-8.lua")
    ∷ ("extendLock", "extendLock-2.lua")
    ∷ ("pause", "pause-7.lua")
    ∷ ("addLog", "addLog-2.lua")
    ∷ ("changePriority", "changePriority-7.lua")
    ∷ ("promote", "promote-9.lua")
    ∷ ("moveJobsToWait", "moveJobsToWait-8.lua")
    ∷ ("cleanJobsInSet", "cleanJobsInSet-3.lua")
    ∷ ("obliterate", "obliterate-2.lua")
    ∷ ("getMetrics", "getMetrics-2.lua")
    ∷ ("addJobScheduler", "addJobScheduler-11.lua")
    ∷ ("updateJobScheduler", "updateJobScheduler-12.lua")
    ∷ ("getJobScheduler", "getJobScheduler-1.lua")
    ∷ ("removeJobScheduler", "removeJobScheduler-3.lua")
    ∷ ("extendLocks", "extendLocks-1.lua")
    ∷ ("moveJobFromActiveToWait", "moveJobFromActiveToWait-9.lua")
    ∷ ("removeJob", "removeJob-2.lua")
    ∷ []

module _ (file : String → String) where
  read_all : List (String × String) → List (String × String) → List (String × String)
  read_all [] m = m
  read_all ((name, path) ∷ fs) m = read_all fs (insert name (file ("includes/" <> path)) m)

  load_includes : List (String × String)
  unfolding included_files read_all
  load_includes = read_all included_files []

  -- A script is known by its resolved text.
  register_all :
      List (String × String)
      → List (String × String)
      → List (String × String)
      → List (String × String)
  register_all includes [] m = m
  register_all includes ((name, path) ∷ fs) m =
      register_all includes fs (insert name (resolve_includes includes (file path)) m)

  scripts : List (String × String)
  unfolding load_includes register_all script_files
  scripts = register_all load_includes script_files []

is_known : Option String → Bool
is_known none = false
is_known (some s) = true

names_of : List (String × String) → List String
names_of [] = []
names_of ((name, text) ∷ m) = name ∷ names_of m

lookup-contains :
    (name : String) (m : List (String × String))
    → is_known (lookup name m) ≡ contains name (names_of m)
unfolding lookup contains is_known names_of
lookup-contains name [] = refl
lookup-contains name ((k, v) ∷ m) = elim (Bool-cases (str_eq k name)) [
  | inl h ↦ rw h refl
  | inr h ↦ rw h (lookup-contains name m)
]

scripts-registered : (file : String → String) → names_of (scripts file) ≡ registered
unfolding scripts insert registered names_of
scripts-registered file = refl

-- The scripts that the loader holds, whatever the files hold, are those that invoke knows.
invoke-known :
    (file : String → String) (name : String)
    → is_known (lookup name (scripts file)) ≡ contains name registered
invoke-known file name =
    lookup-contains name (scripts file) ∙ ap (contains name) (scripts-registered file)
