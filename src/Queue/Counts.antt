-- ===== src/Queue/Counts.antt =====
-- queue.rs: `get_job_counts` and the eight counts that are taken from it.
pub mod Sizes
use bullmq_rs.Prelude.{ℕ, ◌+◌, ◌%◌, ◌^◌, String, List, [], ◌∷◌, or_default}
use bullmq_rs.Dict.{Eq, lookup, insert}
use bullmq_rs.Redis.{Io, ◌>>=◌, pure, send, command, read_u64}
use bullmq_rs.Types.State.{
  JobState, wait, paused, prioritized, waiting_children, delayed, active, completed, failed,
  to_text,
}
use bullmq_rs.Queue.States.{same_state, same_state_iff}
use bullmq_rs.Scripts.{key}

-- The keys of a `HashMap<JobState, u64>`.
instance abbrev pub state_eq : Eq JobState
state_eq = record { beq = same_state; beq_iff = same_state_iff }

module _ (prefix name : String) where
  -- LLEN of a list, ZCARD of a sorted set.
  unfoldable pub size_of : String → JobState → Io ℕ
  size_of word state = do
    reply ← send (command (word ∷ key prefix name (to_text state) ∷ []))
    read_u64 reply

  unfoldable pub get_job_counts : Io (List (JobState × ℕ))
  unfolding size_of
  get_job_counts = do
    n_wait ← size_of "LLEN" wait
    n_paused ← size_of "LLEN" paused
    n_active ← size_of "LLEN" active
    n_prioritized ← size_of "ZCARD" prioritized
    n_delayed ← size_of "ZCARD" delayed
    n_completed ← size_of "ZCARD" completed
    n_failed ← size_of "ZCARD" failed
    n_children ← size_of "ZCARD" waiting_children
    pure (
        insert waiting_children n_children (
          insert failed n_failed (
            insert completed n_completed (
              insert delayed n_delayed (
                insert prioritized n_prioritized
                  (insert active n_active (insert paused n_paused (insert wait n_wait []))))))))

  -- `counts.get(&state).copied().unwrap_or(0)`
  abbrev pub count_in : List (JobState × ℕ) → JobState → ℕ
  count_in counts state = or_default (lookup state counts) 0

  unfoldable pub count : Io ℕ
  count = get_job_counts >>= λ counts. pure (
      (count_in counts wait
        + count_in counts paused
        + count_in counts delayed
        + count_in counts prioritized
        + count_in counts waiting_children)
      % 2 ^ 64)

  unfoldable pub get_waiting_count : Io ℕ
  get_waiting_count =
      get_job_counts >>= λ counts. pure ((count_in counts wait + count_in counts paused) % 2 ^ 64)

  -- `get_active_count`, `get_delayed_count`, `get_completed_count`, `get_failed_count`,
  -- `get_prioritized_count` and `get_waiting_children_count`
  unfoldable pub get_count_in : JobState → Io ℕ
  get_count_in state = get_job_counts >>= λ counts. pure (count_in counts state)
