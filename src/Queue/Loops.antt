-- ===== src/Queue/Loops.antt =====
-- queue.rs: the operations that repeat a script, `clean`, `retry_jobs`, `promote_jobs` and `obliterate`.
-- A loop runs on fuel; `false` says that the fuel was not enough.
pub mod Clean
use bullmq_rs.Prelude.{
  ℕ, zero, suc, ◌-◌, ◌^◌, min, String, Bool, true, false, ◌||◌, not, Option, none, some, List, [],
  ◌∷◌, ◌++◌, length, ltb, ◌==◌, if◌then◌else◌,
}
use bullmq_rs.Prelude.Int.{ℤ, pos}
use bullmq_rs.Text.{◌<>◌, to_string}
use bullmq_rs.Error.{other}
use bullmq_rs.Redis.{Io, ◌>>=◌, ◌>>◌, pure, throw, now_ms}
use bullmq_rs.Types.State.{JobState, waiting_children, completed, failed, to_text}
use bullmq_rs.Types.Options.{Duration, as_millis}
use bullmq_rs.Types.Worker.{default_max_events}
use bullmq_rs.Scripts.Decode.{int_eq}
use bullmq_rs.Scripts.Upkeep.{clean_jobs_in_set, move_jobs_to_wait, obliterate, pause_queue}
use bullmq_rs.Queue.States.{same_state}

-- `if limit == 0 { u64::MAX } else { limit }`
abbrev pub max_removed : ℕ → ℕ
max_removed limit = if limit == 0 then 2 ^ 64 - 1 else limit

abbrev pub max_per_call : ℕ → ℕ
max_per_call limit = min (max_removed limit) 10000

module _ (prefix name : String) where
  -- Until the script's cursor is 0.
  unfoldable pub move_loop : ℕ → String → ℕ → String → Io Bool
  move_loop zero state count timestamp = pure false
  move_loop (suc fuel) state count timestamp =
      move_jobs_to_wait prefix name state count timestamp >>= λ cursor.
      if int_eq cursor (pos 0) then pure true else move_loop fuel state count timestamp

  -- A count of 0 stands for 1000.
  unfoldable pub move_state_to_wait : ℕ → ℕ → String → String → Io Bool
  unfolding move_loop
  move_state_to_wait fuel count state timestamp =
      move_loop fuel state (if count == 0 then 1000 else count) timestamp

  -- `timestamp.unwrap_or_else(now_ms)`
  time_or_now : Option ℕ → Io ℕ
  time_or_now none = now_ms
  time_or_now (some t) = pure t

  unfoldable pub retry_jobs : ℕ → ℕ → JobState → Option ℕ → Io Bool
  unfolding time_or_now move_state_to_wait
  retry_jobs fuel count state timestamp =
      if same_state state failed || same_state state completed
      then (time_or_now timestamp >>= λ t.
          move_state_to_wait fuel count (to_text state) (to_string t))
      else throw
          (other ("retry_jobs only supports failed or completed states, got: " <> to_text state))

  unfoldable pub promote_jobs : ℕ → ℕ → Io Bool
  unfolding move_state_to_wait
  promote_jobs fuel count = move_state_to_wait fuel count "delayed" "1.7976931348623157e+308"

  unfoldable pub clean_loop : ℕ → String → ℕ → ℕ → ℕ → List String → Io (Bool × List String)
  clean_loop zero set_name timestamp max_count per_call deleted = pure (false, deleted)
  clean_loop (suc fuel) set_name timestamp max_count per_call deleted =
      if ltb (length deleted) max_count
      then (clean_jobs_in_set prefix name set_name timestamp per_call >>= λ ids.
          if ltb (length ids) per_call
          then pure (true, deleted ++ ids)
          else clean_loop fuel set_name timestamp max_count per_call (deleted ++ ids))
      else pure (true, deleted)

  -- Fuel for one more round than jobs may be removed.
  unfoldable pub clean : Duration → ℕ → JobState → Io (Bool × List String)
  unfolding clean_loop
  clean grace limit state =
      if same_state state waiting_children
      then throw (other "Cannot clean waiting-children jobs")
      else (now_ms >>= λ now.
          clean_loop (suc (max_removed limit)) (to_text state) (now - as_millis grace)
            (max_removed limit) (max_per_call limit) [])

  unfoldable pub pause : Io (Unit {0})
  pause = pause_queue prefix name true default_max_events

  unfoldable pub resume : Io (Unit {0})
  resume = pause_queue prefix name false default_max_events

  unfoldable pub obliterate_loop : ℕ → Bool → Io Bool
  obliterate_loop zero force = pure false
  obliterate_loop (suc fuel) force = obliterate prefix name 1000 force >>= λ cursor.
      if int_eq cursor (pos 0) then pure true else obliterate_loop fuel force

  unfoldable pub obliterate_queue : ℕ → Bool → Io Bool
  unfolding pause obliterate_loop
  obliterate_queue fuel force = pause >> obliterate_loop fuel force
